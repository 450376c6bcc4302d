-- ===== src/Tests/Sample.antt =====
-- A small network: a toy digest, verifiers that accept a signature equal to the message, and a
-- proof of work that always hashes to zero.
use Prim.Native.Nat.{ℕ, ◌+◌, ◌*◌, ◌%◌, ◌^◌}
use summerpoem_cli.Prelude.{true, false, List, [], ◌∷◌, replicate, none}
use mathlib.Core.List.{foldl}
use summerpoem_cli.Core.Encode.{le_bytes}
use summerpoem_cli.Core.Hash.{Hash256, zero_hash}
use summerpoem_cli.Core.Params.{Params, regtest}
use summerpoem_cli.Core.Tx.{ml_dsa, p2pkh, Transaction, txid}
use summerpoem_cli.Core.Compact.{target_to_bits}
use summerpoem_cli.Core.Block.{Block, compute_tx_root, compute_witness_root}
use summerpoem_cli.Crypto.{Primitives, pubkey_hash}
use summerpoem_cli.Node.Chain.{PowFunction}

abbrev pub digest : List ℕ → Hash256
digest bs = 1 ∷ le_bytes 31 (foldl (λ acc b. (acc * 257 + b + 1) % 1000003) 7 bs)

abbrev pub primitives : Primitives
primitives = record {
  digest = digest;
  mldsa_verify = λ pubkey msg sig ctx. true;
  slhdsa_verify = λ pubkey msg sig ctx. false;
}

abbrev pub key : List ℕ
key = replicate 1312 5

-- The key hash that the coinbases pay.
abbrev pub owner : List ℕ
owner = pubkey_hash primitives key

abbrev pub pow : PowFunction
pow params epoch message nonce = zero_hash

abbrev pub params : Params
params = record {
  network = regtest;
  block_interval = 60;
  asert_tau = 3600;
  pow_limit = 2 ^ 224;
  coinbase_maturity = 0;
  max_block_size = 4000000;
  pow = record {
    cache_bytes = 16384;
    dataset_bytes = 262144;
    epoch_length = 64;
    accesses = 16;
    parents = 16;
  };
  genesis_time = 1000;
  genesis_message = [];
  genesis_nonce = none;
  address_hrp = [];
}

abbrev pub coinbase : ℕ → ℕ → Transaction
coinbase height amount = record {
  body = record {
    version = 1;
    inputs = [];
    outputs = record { amount = amount; lock = p2pkh ml_dsa owner } ∷ [];
    locktime = 0;
    coinbase_data = le_bytes 8 height;
  };
  witnesses = [];
}

abbrev pub unrooted : Hash256 → ℕ → ℕ → List Transaction → Block
unrooted prev time bits txs = record {
  header = record {
    version = 1;
    prev = prev;
    tx_root = zero_hash;
    witness_root = zero_hash;
    time = time;
    bits = bits;
    nonce = 0;
  };
  transactions = txs;
}

-- A block whose roots are right.
abbrev pub rooted : Block → Block
rooted b = record b {
  header = record (b.header) {
    tx_root = compute_tx_root digest b;
    witness_root = compute_witness_root digest b;
  };
}

abbrev pub genesis : Block
genesis = rooted (unrooted zero_hash 1000 (target_to_bits (2 ^ 224)) (coinbase 0 1000 ∷ []))

-- Spends the genesis coinbase: 900 to the same owner, and a fee of 100.
abbrev pub spend : Transaction
spend = record {
  body = record {
    version = 1;
    inputs =
        record { prevout = record { txid = txid digest ((coinbase 0 1000).body); vout = 0 } } ∷ [];
    outputs = record { amount = 900; lock = p2pkh ml_dsa owner } ∷ [];
    locktime = 0;
    coinbase_data = [];
  };
  witnesses = record { pubkey = key; signature = replicate 2420 0 } ∷ [];
}
