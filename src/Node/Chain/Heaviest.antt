-- ===== src/Node/Chain/Heaviest.antt =====
-- A block becomes the tip only with more work behind it.
use summerpoem_cli.Prelude.{
  ℕ, suc, ◌+◌, ◌<◌, ◌≡◌, ◌≢◌, refl, sym, arith, Bool, true, false, Option, none, some, List, [],
  leb, if◌then◌else◌,
}
use mathlib.Core.Path.{subst}
use summerpoem_cli.Prelude.Result.{ok, err}
use summerpoem_cli.Prelude.Equality.{bytes_eq, bytes_Eq}
use summerpoem_cli.Prelude.Dictionary.{get, insert, get-insert_self, get-insert_new}
use summerpoem_cli.Node.Chain.Index.{entry_fresh}
use summerpoem_cli.Core.Hash.{Hash256, zero_hash}
use summerpoem_cli.Core.Block.{Block, header_hash}
use summerpoem_cli.Crypto.{Primitives}
use summerpoem_cli.Node.Utxo.{Utxos}
use summerpoem_cli.Node.CheckTx.{Checked}
use summerpoem_cli.Node.Chain.{
  BlockMeta, ChainState, Outcome, PowFunction, last?, remember, push_supply, push_tip, install,
  walk_back, check_header, extend_tip, adopt, reorganize, choose_tip, connect, store, add_block,
}
use summerpoem_cli.Node.Chain.Walk.{walk_back-total}
use summerpoem_cli.Node.Chain.Invariant.{
  IsValid, IsNew, last?-append, remember-IsValid, check_header-IsNew,
}

-- The tip is indexed with the entry.
abbrev pub TipIs : ChainState → BlockMeta → Type 0
TipIs s m = (h : Hash256) × (last? s.active ≡ some h) × (get h s.meta ≡ some m)

-- A step that answers true leaves the entry at the tip.
abbrev Adopts : BlockMeta → Outcome Bool × ChainState → Type 0
Adopts m r = r.0 ≡ ok true → TipIs r.1 m

Adopts-if :
    (m : BlockMeta) (b : Bool) (x y : Outcome Bool × ChainState)
    → Adopts m x
    → Adopts m y
    → Adopts m (if b then x else y)
Adopts-if m true x y f g = f
Adopts-if m false x y f g = g

-- A step that answers true leaves the entry at the tip, and had more work to offer.
abbrev Heavier : BlockMeta → BlockMeta → Outcome Bool × ChainState → Type 0
Heavier tip m r = r.0 ≡ ok true → (tip.cum_work < m.cum_work) × TipIs r.1 m

Heavier-if :
    (tip m : BlockMeta) (b : Bool) (x y : Outcome Bool × ChainState)
    → Heavier tip m x
    → (b ≡ false → Heavier tip m y)
    → Heavier tip m (if b then x else y)
Heavier-if tip m true x y f g = f
Heavier-if tip m false x y f g = g refl

module _ (s : ChainState) (v : IsValid s) (hash : Hash256) (nonzero : hash ≢ zero_hash)
    (m : BlockMeta) (block : Block) (n : IsNew s hash m) where
  push_supply-Adopts :
      (utxos : Utxos) (r : Option ℕ) → Adopts m (push_supply hash utxos (remember hash m block s) r)
  unfolding push_supply remember
  push_supply-Adopts utxos none h = absurd cc
  push_supply-Adopts utxos (some supply) h =
      (hash, last?-append s.active hash, get-insert_self hash m s.meta)

  push_tip-Adopts : (r : Checked (ℕ × Utxos)) → Adopts m (push_tip hash (remember hash m block s) r)
  unfolding push_tip
  push_tip-Adopts (err e) h = absurd cc
  push_tip-Adopts (ok applied) h = push_supply-Adopts applied.1 _ h

  install-Adopts :
      (chain : List Hash256) (r : Outcome (Utxos × ℕ))
      → last? chain ≡ some hash
      → Adopts m (install hash chain (remember hash m block s) r)
  unfolding install remember
  install-Adopts chain (err e) l h = absurd cc
  install-Adopts chain (ok applied) l h = (hash, l, get-insert_self hash m s.meta)

  module _ (p : Primitives) (pow : PowFunction) where
    reorganize-Adopts : Adopts m (reorganize p pow hash m.height (remember hash m block s))
    unfolding reorganize adopt remember last?
    reorganize-Adopts =
        let valid = remember-IsValid s v hash nonzero m block n in
        let (chain, w, len, l) =
          walk_back-total _ _ valid.index m.height hash m [] (get-insert_self hash m s.meta) refl in
        let e : suc m.height ≡ m.height + 1 = omega arith in
        let w' = subst (λ k. walk_back (insert hash m s.meta) k hash [] ≡ ok chain) e w in
        subst (λ r. Adopts m (adopt p pow hash (remember hash m block s) r)) (sym w')
          (install-Adopts chain _ l)

    choose_tip-Heavier :
        (tip_hash : Hash256) (tip : BlockMeta)
        → Heavier tip m
            (choose_tip p pow hash m block tip_hash (remember hash m block s) (some tip))
    unfolding choose_tip extend_tip
    choose_tip-Heavier tip_hash tip =
        let s' = remember hash m block s in
        let fast = extend_tip p pow hash m.height block s' in
        let slow = reorganize p pow hash m.height s' in
        Heavier-if tip m (leb m.cum_work tip.cum_work) (ok false, s')
          (if bytes_eq m.parent tip_hash then fast else slow) (λ h. absurd cc)
          (λ heavy h. (
            ground arith,
            Adopts-if m (bytes_eq m.parent tip_hash) fast slow (push_tip-Adopts _) reorganize-Adopts
                h,
          ))

    connect-Heavier :
        (tip_hash : Hash256) (tip : BlockMeta)
        → last? s.active ≡ some tip_hash
        → get tip_hash (remember hash m block s).meta ≡ some tip
        → Heavier tip m (connect p pow hash m block (remember hash m block s) (last? s.active))
    unfolding connect
    connect-Heavier tip_hash tip l g = rw (l, connect, g) (choose_tip-Heavier tip_hash tip)

module _ (p : Primitives) (pow : PowFunction) where
  store-Heavier :
      (block : Block) (s : ChainState) (r : Outcome BlockMeta) (old : BlockMeta)
      → header_hash p.digest block.header ≢ zero_hash
      → IsValid s
      → TipIs s old
      → check_header p pow block s ≡ r
      → (store p pow block s r).0 ≡ ok true
      → (m : BlockMeta) × (old.cum_work < m.cum_work) × TipIs (store p pow block s r).1 m
  unfolding store remember
  store-Heavier block s (err e) old nz v t c h = absurd cc
  store-Heavier block s (ok m) old nz v (tip_hash, l, g) c h =
      let hash = header_hash p.digest block.header in
      let n = check_header-IsNew p pow block s m c in
      let stored =
        get-insert_new tip_hash hash m s.meta (entry_fresh v.index hash m block n.fresh) g in
      let (more, t) = connect-Heavier s v hash nz m block n p pow tip_hash old l stored h in
      (m, more, t)

  -- From a valid state whose tip has the entry `old`, a block that is adopted, whose header does not
  -- hash to zero, leaves a tip with strictly more work behind it.
  pub add_block-Heavier :
      (block : Block) (s : ChainState) (old : BlockMeta)
      → header_hash p.digest block.header ≢ zero_hash
      → IsValid s
      → TipIs s old
      → (add_block p pow block s).0 ≡ ok true
      → (m : BlockMeta) × (old.cum_work < m.cum_work) × TipIs (add_block p pow block s).1 m
  unfolding add_block
  add_block-Heavier block s old nz v t h = store-Heavier block s _ old nz v t refl h
