-- ===== src/Node/Chain/Refusal.antt =====
-- A block that does not become the tip leaves the ledger alone, and one that does has more work.
use summerpoem_cli.Prelude.{
  ℕ, ◌≡◌, refl, Bool, true, false, Option, none, some, List, leb, if◌then◌else◌,
}
use summerpoem_cli.Prelude.Result.{ok, err}
use summerpoem_cli.Prelude.Equality.{bytes_eq, bytes_Eq}
use summerpoem_cli.Core.Hash.{Hash256}
use summerpoem_cli.Core.Block.{Block, header_hash}
use summerpoem_cli.Crypto.{Primitives}
use summerpoem_cli.Node.Utxo.{Utxos}
use summerpoem_cli.Node.CheckTx.{Checked}
use summerpoem_cli.Node.Chain.{
  BlockMeta, ChainState, Outcome, PowFunction, forget, remember, push_supply, push_tip, install,
  extend_tip, adopt, reorganize, choose_tip, connect, store, add_block,
}

-- The active chain, the unspent outputs and the supply are the same.
pub record SameLedger (s s' : ChainState) : Type 0 where
  pub same_active : s'.active ≡ s.active
  pub same_utxos : s'.utxos ≡ s.utxos
  pub same_supply : s'.supply ≡ s.supply

-- Either the outcome is `true`, or the ledger is as before.
abbrev Keeps : ChainState → Outcome Bool × ChainState → Type 0
Keeps s (ok true, s') = Unit {0}
Keeps s (ok false, s') = SameLedger s s'
Keeps s (err e, s') = SameLedger s s'

module _ (s : ChainState) (hash : Hash256) (m : BlockMeta) (block : Block) where
  abbrev stored_state : ChainState
  stored_state = remember hash m block s

  remember-same : SameLedger s (remember hash m block s)
  unfolding remember
  remember-same = record { same_active = refl; same_utxos = refl; same_supply = refl }

  forget-same : SameLedger s (forget hash (remember hash m block s))
  unfolding remember forget
  forget-same = record { same_active = refl; same_utxos = refl; same_supply = refl }

  Keeps-if :
      (b : Bool) (x y : Outcome Bool × ChainState)
      → Keeps s x
      → Keeps s y
      → Keeps s (if b then x else y)
  Keeps-if true x y f g = f
  Keeps-if false x y f g = g

  push_supply-Keeps :
      (utxos : Utxos) (r : Option ℕ) → Keeps s (push_supply hash utxos (remember hash m block s) r)
  unfolding push_supply
  push_supply-Keeps utxos none = remember-same
  push_supply-Keeps utxos (some supply) = tt

  push_tip-Keeps : (r : Checked (ℕ × Utxos)) → Keeps s (push_tip hash (remember hash m block s) r)
  unfolding push_tip
  push_tip-Keeps (err x) = forget-same
  push_tip-Keeps (ok applied) = push_supply-Keeps applied.1 _

  install-Keeps :
      (chain : List Hash256) (r : Outcome (Utxos × ℕ))
      → Keeps s (install hash chain (remember hash m block s) r)
  unfolding install
  install-Keeps chain (err x) = forget-same
  install-Keeps chain (ok applied) = tt

  module _ (p : Primitives) (pow : PowFunction) where
    adopt-Keeps :
        (r : Outcome (List Hash256)) → Keeps s (adopt p pow hash (remember hash m block s) r)
    unfolding adopt
    adopt-Keeps (err x) = remember-same
    adopt-Keeps (ok chain) = install-Keeps chain _

    choose_tip-Keeps :
        (tip_hash : Hash256) (tip : Option BlockMeta)
        → Keeps s (choose_tip p pow hash m block tip_hash (remember hash m block s) tip)
    unfolding choose_tip extend_tip reorganize
    choose_tip-Keeps tip_hash none = remember-same
    choose_tip-Keeps tip_hash (some tip) =
        let s' = remember hash m block s in
        let fast = extend_tip p pow hash m.height block s' in
        let slow = reorganize p pow hash m.height s' in
        Keeps-if (leb m.cum_work tip.cum_work) (ok false, s')
          (if bytes_eq m.parent tip_hash then fast else slow) remember-same
          (Keeps-if (bytes_eq m.parent tip_hash) fast slow (push_tip-Keeps _) (adopt-Keeps _))

    connect-Keeps :
        (tip : Option Hash256) → Keeps s (connect p pow hash m block (remember hash m block s) tip)
    unfolding connect
    connect-Keeps none = remember-same
    connect-Keeps (some tip_hash) = choose_tip-Keeps tip_hash _

Keeps-elim :
    (s : ChainState) (r : Outcome Bool × ChainState)
    → Keeps s r
    → (r.0 ≡ ok true → ⊥)
    → SameLedger s r.1
Keeps-elim s (ok true, s') k h = absurd (h refl)
Keeps-elim s (ok false, s') k h = k
Keeps-elim s (err e, s') k h = k

module _ (p : Primitives) (pow : PowFunction) where
  store-Keeps :
      (block : Block) (s : ChainState) (r : Outcome BlockMeta) → Keeps s (store p pow block s r)
  unfolding store
  store-Keeps block s (err e) = record { same_active = refl; same_utxos = refl; same_supply = refl }
  store-Keeps block s (ok m) = connect-Keeps s (header_hash p.digest block.header) m block p pow _

  -- Unless `add_block` answers that the tip has changed, with an error or without, the active
  -- chain, the unspent outputs and the supply are what they were.
  pub add_block-SameLedger :
      (block : Block) (s : ChainState)
      → ¬ ((add_block p pow block s).0 ≡ ok true)
      → SameLedger s (add_block p pow block s).1
  unfolding add_block
  add_block-SameLedger block s h = Keeps-elim s _ (store-Keeps block s _) h
