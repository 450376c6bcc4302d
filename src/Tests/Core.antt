-- ===== src/Tests/Core.antt =====
-- The core's theorems at concrete inputs.
use summerpoem_cli.Prelude.{◌+◌, ◌*◌, ◌^◌, ◌≤◌, ◌≡◌, refl, arith, [], ◌∷◌, replicate}
use summerpoem_cli.Prelude.Result.{ok}
use summerpoem_cli.Prelude.Int.{pos}
use summerpoem_cli.Core.Hash.{zero_hash}
use summerpoem_cli.Core.Emission.{block_reward, pow_q96, base_q96, one_q96}
use summerpoem_cli.Core.Emission.Power.{pow_q96-le}
use summerpoem_cli.Core.Asert.{next_target}
use summerpoem_cli.Core.Asert.Bounds.{next_target_bounds}
use summerpoem_cli.Core.Tx.{ml_dsa, slh_dsa, p2pkh, timelock, Transaction, encode_tx, decode_all}
use summerpoem_cli.Core.Tx.RoundTrip.{TxFits, decode_all-encode_tx}
use summerpoem_cli.Core.Block.{Block, encode_block, decode_all as decode_block_all}
use summerpoem_cli.Core.Block.RoundTrip.{BlockFits, decode_all-encode_block}
use summerpoem_cli.Core.Merkle.{merkle_root}
use summerpoem_cli.Core.Merkle.Root.{merkle_root_repeated}
use summerpoem_cli.Core.Merkle.Tree.{tip, tree_root, merkle_root-tree_root}
use summerpoem_cli.Tests.Sample.{digest}
use summerpoem_cli.Tests.Run.{everything}

-- The transaction of the source's own round-trip test.
abbrev pub sample_tx : Transaction
sample_tx = record {
  body = record {
    version = 1;
    inputs = record { prevout = record { txid = replicate 32 9; vout = 3 } } ∷ [];
    outputs =
        record { amount = 5000; lock = p2pkh ml_dsa (replicate 20 7) }
        ∷ record { amount = 100; lock = timelock slh_dsa (replicate 20 9) 42 }
        ∷ [];
    locktime = 0;
    coinbase_data = [];
  };
  witnesses = record { pubkey = 1 ∷ 2 ∷ 3 ∷ []; signature = 4 ∷ 5 ∷ 6 ∷ [] } ∷ [];
}

abbrev pub sample_block : Block
sample_block = record {
  header = record {
    version = 1;
    prev = zero_hash;
    tx_root = zero_hash;
    witness_root = zero_hash;
    time = 0;
    bits = 0x207fffff;
    nonce = 7;
  };
  transactions = sample_tx ∷ [];
}

sample_tx-TxFits : TxFits sample_tx
unfolding everything
sample_tx-TxFits = record {
  body_fits = record {
    version_fits = omega arith;
    inputs_fit = (record { txid_fits = refl; vout_fits = omega arith }, tt);
    inputs_count = omega arith;
    outputs_fit = (
      record { amount_fits = omega arith; lock_fits = refl },
      (record { amount_fits = omega arith; lock_fits = (refl, omega arith) }, tt),
    );
    outputs_count = omega arith;
    locktime_fits = omega arith;
    coinbase_data_fits = omega arith;
  };
  body_length = omega arith;
  witnesses_fit = (record { pubkey_fits = omega arith; signature_fits = omega arith }, tt);
  witnesses_count = omega arith;
}

pub sample_block-BlockFits : BlockFits sample_block
sample_block-BlockFits = record {
  header_fits = record {
    version_fits = omega arith;
    prev_fits = refl;
    tx_root_fits = refl;
    witness_root_fits = refl;
    time_fits = omega arith;
    bits_fit = omega arith;
    nonce_fits = omega arith;
  };
  transactions_fit = (sample_tx-TxFits, tt);
  transactions_count = omega arith;
}

decode_all-encode_tx_example : decode_all (encode_tx sample_tx) ≡ ok sample_tx
decode_all-encode_tx_example = decode_all-encode_tx sample_tx sample_tx-TxFits

decode_all-encode_block_example : decode_block_all (encode_block sample_block) ≡ ok sample_block
decode_all-encode_block_example = decode_all-encode_block sample_block sample_block-BlockFits

pow_q96-le_example : pow_q96 base_q96 3 * one_q96 ^ 3 ≤ one_q96 * base_q96 ^ 3
pow_q96-le_example = pow_q96-le base_q96 3

-- The first reward, as the source's test has it.
first_reward_run : block_reward 0 ≡ 1384578107
unfolding everything
first_reward_run = refl

next_target_bounds_example :
    (1 ≤ next_target (2 ^ 224) 60 3600 (pos 90000) 100 (2 ^ 230))
    × (next_target (2 ^ 224) 60 3600 (pos 90000) 100 (2 ^ 230) ≤ 2 ^ 230)
next_target_bounds_example =
    next_target_bounds (2 ^ 224) 60 3600 (pos 90000) 100 (2 ^ 230) (omega arith)

-- One time constant behind schedule doubles the target.
one_tau_late_doubles :
    next_target (2 ^ 224) 60 86400 (pos (60 * 101 + 86400)) 100 (2 ^ 240) ≡ 2 ^ 225
unfolding everything
one_tau_late_doubles = refl

merkle_root-tree_root_example :
    merkle_root digest (replicate 32 1 ∷ replicate 32 2 ∷ replicate 32 3 ∷ [])
    ≡ tree_root digest (tip digest) 2 (replicate 32 1 ∷ replicate 32 2 ∷ replicate 32 3 ∷ [])
merkle_root-tree_root_example =
    merkle_root-tree_root digest (replicate 32 1) (replicate 32 2 ∷ replicate 32 3 ∷ []) 2
      (omega arith) (omega arith)

merkle_root_repeated_example :
    merkle_root digest (replicate 32 1 ∷ replicate 32 2 ∷ replicate 32 3 ∷ [])
    ≡ merkle_root digest (replicate 32 1 ∷ replicate 32 2 ∷ replicate 32 3 ∷ replicate 32 3 ∷ [])
merkle_root_repeated_example =
    merkle_root_repeated digest (replicate 32 1) (replicate 32 2 ∷ []) (replicate 32 3) refl
