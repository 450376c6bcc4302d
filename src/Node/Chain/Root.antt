-- ===== src/Node/Chain/Root.antt =====
-- The genesis block stays the only root of the index of crates/node/src/chain.rs.
use summerpoem_cli.Prelude.{
  ℕ, ◌≡◌, refl, sym, ap, ◌∙◌, arith, inl, inr, Bool, true, false, Option, none, some, List, [], ◌∷◌,
  get_elem?, leb, if◌then◌else◌, Bool-cases,
}
use summerpoem_cli.Prelude.Result.{ok, err}
use summerpoem_cli.Prelude.Equality.{bytes_eq, bytes_Eq}
use summerpoem_cli.Prelude.Dictionary.{Dictionary, get, insert, remove, get-insert}
use summerpoem_cli.Core.Hash.{Hash256}
use summerpoem_cli.Core.Block.{Block, header_hash}
use summerpoem_cli.Crypto.{Primitives}
use summerpoem_cli.Node.Utxo.{Utxos}
use summerpoem_cli.Node.CheckTx.{Checked}
use summerpoem_cli.Node.Chain.{
  BlockMeta, ChainState, Outcome, PowFunction, last?, forget, remember, push_supply, push_tip,
  install, check_header, extend_tip, adopt, reorganize, choose_tip, connect, store, add_block,
}
use summerpoem_cli.Node.Chain.Index.{removed-entry}
use summerpoem_cli.Node.Chain.Active.{Linked, IsLinkedChain}
use summerpoem_cli.Node.Chain.Invariant.{IsValid, IsNew, check_header-IsNew}

-- No entry but that of `root` has height 0.
abbrev pub IsRoot : Hash256 → Dictionary Hash256 BlockMeta → Type 0
IsRoot root meta = (k : Hash256) (x : BlockMeta) → get k meta ≡ some x → x.height ≡ 0 → k ≡ root

-- The entries after a block are those with the block stored, or those with it taken out again.
module _ (root : Hash256) (hash : Hash256) (s : ChainState) (kept : IsRoot root s.meta)
    (dropped : IsRoot root (remove hash s.meta)) where
  IsRoot-if :
      (b : Bool) (x y : Outcome Bool × ChainState)
      → IsRoot root x.1.meta
      → IsRoot root y.1.meta
      → IsRoot root (if b then x else y).1.meta
  IsRoot-if true x y f g = f
  IsRoot-if false x y f g = g

  push_supply-IsRoot :
      (utxos : Utxos) (r : Option ℕ) → IsRoot root (push_supply hash utxos s r).1.meta
  unfolding push_supply
  push_supply-IsRoot utxos none = kept
  push_supply-IsRoot utxos (some supply) = kept

  push_tip-IsRoot : (r : Checked (ℕ × Utxos)) → IsRoot root (push_tip hash s r).1.meta
  unfolding push_tip forget
  push_tip-IsRoot (err e) = dropped
  push_tip-IsRoot (ok applied) = push_supply-IsRoot applied.1 _

  install-IsRoot :
      (chain : List Hash256) (r : Outcome (Utxos × ℕ)) → IsRoot root (install hash chain s r).1.meta
  unfolding install forget
  install-IsRoot chain (err e) = dropped
  install-IsRoot chain (ok applied) = kept

  module _ (p : Primitives) (pow : PowFunction) where
    adopt-IsRoot : (r : Outcome (List Hash256)) → IsRoot root (adopt p pow hash s r).1.meta
    unfolding adopt
    adopt-IsRoot (err e) = kept
    adopt-IsRoot (ok chain) = install-IsRoot chain _

    choose_tip-IsRoot :
        (m : BlockMeta) (block : Block) (tip_hash : Hash256) (tip : Option BlockMeta)
        → IsRoot root (choose_tip p pow hash m block tip_hash s tip).1.meta
    unfolding choose_tip extend_tip reorganize
    choose_tip-IsRoot m block tip_hash none = kept
    choose_tip-IsRoot m block tip_hash (some tip) =
        let fast = extend_tip p pow hash m.height block s in
        let slow = reorganize p pow hash m.height s in
        IsRoot-if (leb m.cum_work tip.cum_work) (ok false, s)
          (if bytes_eq m.parent tip_hash then fast else slow) kept
          (IsRoot-if (bytes_eq m.parent tip_hash) fast slow (push_tip-IsRoot _) (adopt-IsRoot _))

    connect-IsRoot :
        (m : BlockMeta) (block : Block) (tip : Option Hash256)
        → IsRoot root (connect p pow hash m block s tip).1.meta
    unfolding connect
    connect-IsRoot m block none = kept
    connect-IsRoot m block (some tip_hash) = choose_tip-IsRoot m block tip_hash _

-- A new entry is above its parent's.
insert-IsRoot :
    (root : Hash256) (s : ChainState) (hash : Hash256) (m : BlockMeta)
    → IsRoot root s.meta
    → IsNew s hash m
    → IsRoot root (insert hash m s.meta)
insert-IsRoot root s hash m r n k x g zero_height = elim (Bool-cases (bytes_eq k hash)) [
  | inl same ↦
      let e : some m ≡ some x = rw (get-insert k hash m s.meta, same) at g in
      let e' : m ≡ x = cc e in
      let h : m.height ≡ x.height = ap (λ y. y.height) e' in
      let above = n.above in absurd (omega arith)
  | inr other ↦ r k x (rw (get-insert k hash m s.meta, other) at g) zero_height
]

module _ (p : Primitives) (pow : PowFunction) (root : Hash256) where
  store-IsRoot :
      (block : Block) (s : ChainState) (r : Outcome BlockMeta)
      → IsValid s
      → IsRoot root s.meta
      → check_header p pow block s ≡ r
      → IsRoot root (store p pow block s r).1.meta
  unfolding store
  store-IsRoot block s (err e) v r h = r
  store-IsRoot block s (ok m) v r h =
      let hash = header_hash p.digest block.header in
      let n = check_header-IsNew p pow block s m h in
      unfold remember in
      connect-IsRoot root hash (remember hash m block s) (insert-IsRoot root s hash m r n)
        (λ k x g. r k x (sym (removed-entry v.index hash m block n.fresh k) ∙ g)) p pow m block _

  -- Whatever block is offered to a valid state, no other entry of height 0 comes into the index.
  pub add_block-IsRoot :
      (block : Block) (s : ChainState)
      → IsValid s
      → IsRoot root s.meta
      → IsRoot root (add_block p pow block s).1.meta
  unfolding add_block
  add_block-IsRoot block s v r = store-IsRoot block s _ v r refl

-- A linked chain that is not empty begins with the root.
starts_at_root :
    (root : Hash256) (meta : Dictionary Hash256 BlockMeta) (prev t : Hash256) (l : List Hash256)
    → IsRoot root meta
    → Linked meta prev 0 l
    → last? l ≡ some t
    → get_elem? l 0 ≡ some root
unfolding last?
starts_at_root root meta prev t [] r p e = absurd cc
starts_at_root root meta prev t (h ∷ hs) r ((m, g, zero_height, _), _) e =
    ap some (r h m g zero_height)

pub active-root :
    (root : Hash256) (s : ChainState)
    → IsValid s
    → IsRoot root s.meta
    → IsLinkedChain s
    → get_elem? s.active 0 ≡ some root
active-root root s v r path =
    let (t, _, l, _, _) = v.tip in starts_at_root root s.meta _ t s.active r path l
