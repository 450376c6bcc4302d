-- ===== src/Tests/Mempool.antt =====
-- The theorems on the pool at one transaction, which a funded state of the chain takes.
use summerpoem_cli.Prelude.{ℕ, ◌+◌, ◌≡◌, refl, false, [], ◌∷◌, some, replicate}
use summerpoem_cli.Prelude.Checked.{checked_add}
use summerpoem_cli.Prelude.Result.{ok, ◌>>=◌, ◌>>◌, ok_or, refuse_if}
use summerpoem_cli.Prelude.Equality.{bytes_Eq}
use summerpoem_cli.Prelude.Dictionary.{get}
use summerpoem_cli.Core.Hash.{zero_hash}
use summerpoem_cli.Core.Tx.{ml_dsa, p2pkh, OutPoint, Transaction, txid, is_coinbase}
use summerpoem_cli.Node.Error.{no_inputs, extra_coinbase, overflow}
use summerpoem_cli.Node.Blocks.{apply_tx, apply_txs}
use summerpoem_cli.Node.Chain.{ChainState}
use summerpoem_cli.Node.Chain.Queries.{chain_height}
use summerpoem_cli.Node.Mempool.{Mempool, insert_tx, update_for_block, validate_standalone_tx}
use summerpoem_cli.Node.Mempool.Admission.{validate_standalone_tx-apply_txs}
use summerpoem_cli.Node.Mempool.Invariant.{IsPool, empty, offered, connected, Reach-IsPool}
use summerpoem_cli.Node.Mempool.Revalidation.{update_for_block-Valid}
use summerpoem_cli.Tests.Run.{everything}
use summerpoem_cli.Tests.Sample.{digest, primitives, params, key, owner, genesis}

abbrev source : OutPoint
source = record { txid = replicate 32 9; vout = 3 }

abbrev funded : ChainState
funded = record {
  params = params;
  all = [];
  meta = [];
  active = zero_hash ∷ [];
  utxos =
      (
        source,
        record {
          output = record { amount = 100000; lock = p2pkh ml_dsa owner };
          height = 0;
          coinbase = false;
        },
      )
      ∷ [];
  supply = 100000;
  genesis_hash = zero_hash;
}

-- Pays a fee of 10000.
abbrev payment : Transaction
payment = record {
  body = record {
    version = 1;
    inputs = record { prevout = source } ∷ [];
    outputs = record { amount = 90000; lock = p2pkh ml_dsa owner } ∷ [];
    locktime = 0;
    coinbase_data = [];
  };
  witnesses = record { pubkey = key; signature = replicate 2420 0 } ∷ [];
}

abbrev no_pool : Mempool
no_pool = record { txs = []; spends = []; bytes = 0 }

validate_standalone_tx-apply_txs_example :
    (apply_txs primitives params (chain_height funded + 1) (payment ∷ []) 5 funded.utxos ≡ (
      refuse_if (is_coinbase payment.body) extra_coinbase
      >> (validate_standalone_tx primitives funded payment >>= λ fee.
          ok_or (checked_add 5 fee) overflow >>= λ fees'.
          apply_txs primitives params
            (chain_height funded + 1)
            []
            fees'
            (apply_tx primitives params payment (chain_height funded + 1) funded.utxos))))
    × (validate_standalone_tx primitives funded payment ≡ (
        refuse_if (is_coinbase payment.body) no_inputs
        >> validate_standalone_tx primitives funded payment))
validate_standalone_tx-apply_txs_example =
    validate_standalone_tx-apply_txs primitives funded payment [] 5

abbrev held : Mempool
held = (insert_tx primitives funded payment no_pool).1

Reach-IsPool_example : IsPool (update_for_block primitives funded genesis held)
Reach-IsPool_example =
    Reach-IsPool primitives (connected (offered empty funded payment) funded genesis)

kept_run :
    get (txid digest payment.body) (update_for_block primitives funded genesis held).txs
    ≡ some payment
unfolding everything
kept_run = refl

update_for_block-Valid_example :
    (fee : ℕ) × (validate_standalone_tx primitives funded payment ≡ ok fee)
update_for_block-Valid_example =
    update_for_block-Valid primitives funded genesis held (txid digest payment.body) payment
      kept_run
