-- ===== src/Node/Chain/Ledger.antt =====
-- Applying a chain of blocks: the supply is at most what the schedule has issued, and backs the
-- unspent outputs, each of which is listed once.
use summerpoem_cli.Prelude.{ℕ, suc, ◌+◌, ◌≤◌, ◌≡◌, refl, ap, arith, List, [], ◌∷◌, length, some}
use mathlib.Core.Path.{subst₃}
use summerpoem_cli.Prelude.Result.{ok, err, ok_or, >>=-eq-ok, ok_or-eq-ok, ok-injective}
use summerpoem_cli.Prelude.Checked.{checked_add, checked_add-eq-some}
use summerpoem_cli.Prelude.Dictionary.{Dictionary, get, Unique}
use summerpoem_cli.Prelude.Equality.{bytes_Eq}
use summerpoem_cli.Core.Hash.{Hash256}
use summerpoem_cli.Core.Params.{Params}
use summerpoem_cli.Core.Block.{Block}
use summerpoem_cli.Core.Emission.Supply.{issued}
use summerpoem_cli.Crypto.{Primitives}
use summerpoem_cli.Node.Utxo.{Utxos, value, outpoint_Eq}
use summerpoem_cli.Node.CheckTx.{Checked}
use summerpoem_cli.Node.Blocks.{validate_block_txs}
use summerpoem_cli.Node.Blocks.Entries.{validate_block_txs-Unique}
use summerpoem_cli.Node.Blocks.Conserve.{validate_block_txs-conserves}
use summerpoem_cli.Node.Chain.{checked, PowFunction, apply_chain}

-- A supply and a set of outputs, each listed once, after the blocks below a height.
pub record Backs (supply height : ℕ) (utxos : Utxos) : Type 0 where
  pub issued_bound : supply ≤ issued height
  pub backed : value utxos ≤ supply
  pub unique : Unique utxos

same :
    {supply supply' height height' : ℕ} {utxos utxos' : Utxos}
    → supply ≡ supply'
    → utxos ≡ utxos'
    → height ≡ height'
    → Backs supply height utxos
    → Backs supply' height' utxos'
same s u h b = subst₃ Backs s h u b

pub checked-eq-ok : {A : Type 0} (c : Checked A) {a : A} → checked c ≡ ok a → c ≡ ok a
unfolding checked
checked-eq-ok (ok a) h = ap ok (ok-injective h)
checked-eq-ok (err e) h = absurd cc

module _ (p : Primitives) (params : Params) where
  -- One more block.
  pub Backs-suc :
      (block : Block) (height : ℕ) (utxos utxos' : Utxos) (supply minted supply' : ℕ)
      → Backs supply height utxos
      → validate_block_txs p params block height utxos ≡ ok (minted, utxos')
      → checked_add supply minted ≡ some supply'
      → Backs supply' (suc height) utxos'
  unfolding issued
  Backs-suc block height utxos utxos' supply minted supply' b h a =
      let (grown, small) =
        validate_block_txs-conserves p params block height utxos minted utxos' h in
      let (e, _) = checked_add-eq-some supply minted a in
      let i = b.issued_bound in
      let k = b.backed in
      record {
        issued_bound = omega arith;
        backed = omega arith;
        unique = validate_block_txs-Unique p params block height utxos minted utxos' b.unique h;
      }

module _ (p : Primitives) (pow : PowFunction) (params : Params)
    (all : Dictionary Hash256 Block) where
  -- A chain that is applied from a height on ends backed at that height and its length.
  pub apply_chain-Backs :
      (height : ℕ) (chain : List Hash256) (utxos utxos' : Utxos) (supply supply' : ℕ)
      → Backs supply height utxos
      → apply_chain p pow params all height chain utxos supply ≡ ok (utxos', supply')
      → Backs supply' (height + length chain) utxos'
  unfolding apply_chain
  apply_chain-Backs height [] utxos utxos' supply supply' b h =
      let e = ok-injective h in same (ap (λ t. t.1) e) (ap (λ t. t.0) e) (omega arith) b
  apply_chain-Backs height (hash ∷ chain) utxos utxos' supply supply' b h =
      let (block, _, h₁) = >>=-eq-ok (ok_or (get hash all) _) _ h in
      let (applied, c, h₂) =
        >>=-eq-ok (checked (validate_block_txs p params block height utxos)) _ h₁ in
      let (sum, a, h₃) = >>=-eq-ok (ok_or (checked_add supply applied.0) _) _ h₂ in
      let next =
        Backs-suc p params block height utxos applied.1 supply applied.0 sum b (checked-eq-ok _ c)
          (ok_or-eq-ok _ _ a) in
      let rest = apply_chain-Backs (suc height) chain applied.1 utxos' sum supply' next h₃ in
      same refl refl (omega arith) rest
