-- ===== src/Node/Chain/Active.antt =====
-- The active chain as a path through the index, and that `add_block` keeps it one.
use summerpoem_cli.Prelude.{
  ℕ, zero, suc, ◌+◌, ◌≡◌, ◌≢◌, inl, inr, refl, sym, ◌∙◌, arith, Bool, true, false, Option, none,
  some, List, [], ◌∷◌, ◌++◌, length, leb, if◌then◌else◌,
}
use mathlib.Core.Path.{subst}
use summerpoem_cli.Prelude.Result.{ok, err, ok-injective}
use summerpoem_cli.Prelude.Equality.{bytes_eq, bytes_Eq, bytes_eq_iff, beq-of_ne}
use summerpoem_cli.Prelude.Dictionary.{Dictionary, get, insert, remove, get-insert_self}
use summerpoem_cli.Core.Hash.{Hash256, zero_hash}
use summerpoem_cli.Core.Block.{Block, header_hash}
use summerpoem_cli.Crypto.{Primitives}
use summerpoem_cli.Node.Utxo.{Utxos}
use summerpoem_cli.Node.CheckTx.{Checked}
use summerpoem_cli.Node.Chain.{
  BlockMeta, ChainState, Outcome, PowFunction, last?, forget, remember, push_supply, push_tip,
  install, walk_back, check_header, extend_tip, adopt, reorganize, choose_tip, connect, store,
  add_block,
}
use summerpoem_cli.Node.Chain.Walk.{IsIndex, walk_back-total}
use summerpoem_cli.Node.Chain.Index.{removed-entry}
use summerpoem_cli.Node.Chain.Invariant.{
  IsValid, IsNew, remember-IsValid, check_header-IsNew, stored_entry, tip_above,
}

-- The hashes from height `n` on, above `prev`: each is indexed at its height, and its parent is the
-- hash before.
abbrev pub Linked : Dictionary Hash256 BlockMeta → Hash256 → ℕ → List Hash256 → Type 0
Linked meta prev n [] = Unit {0}
Linked meta prev n (h ∷ hs) =
    ((m : BlockMeta) × (get h meta ≡ some m) × (m.height ≡ n) × (m.parent ≡ prev))
    × Linked meta h (suc n) hs

-- The active chain is linked from a block without a parent on.
abbrev pub IsLinkedChain : ChainState → Type 0
IsLinkedChain s = Linked s.meta zero_hash 0 s.active

Linked-entries :
    (meta meta' : Dictionary Hash256 BlockMeta) (prev : Hash256) (n : ℕ) (l : List Hash256)
    → ((k : Hash256) (x : BlockMeta) → get k meta ≡ some x → get k meta' ≡ some x)
    → Linked meta prev n l
    → Linked meta' prev n l
Linked-entries meta meta' prev n [] f p = tt
Linked-entries meta meta' prev n (h ∷ hs) f ((m, g, e, r), p) =
    ((m, f h m g, e, r), Linked-entries meta meta' h (suc n) hs f p)

-- A block on top of the last one.
Linked-append :
    (meta : Dictionary Hash256 BlockMeta) (prev : Hash256) (n : ℕ) (l : List Hash256)
    (t hash : Hash256) (m : BlockMeta)
    → Linked meta prev n l
    → last? l ≡ some t
    → get hash meta ≡ some m
    → m.height ≡ n + length l
    → m.parent ≡ t
    → Linked meta prev n (l ++ (hash ∷ []))
unfolding last?
Linked-append meta prev n [] t hash m p l g h e = absurd cc
Linked-append meta prev n (x ∷ []) t hash m (p, _) l g h e =
    let same : t ≡ x = cc in (p, ((m, g, omega arith, e ∙ same), tt))
Linked-append meta prev n (x ∷ y ∷ l) t hash m (p, q) e g h r =
    (p, Linked-append meta x (suc n) (y ∷ l) t hash m q e g (omega arith) r)

walk_back-root :
    (meta : Dictionary Hash256 BlockMeta) (n : ℕ) (cur : Hash256) (m : BlockMeta)
    (chain : List Hash256)
    → get cur meta ≡ some m
    → m.parent ≡ zero_hash
    → walk_back meta (suc n) cur chain ≡ ok (cur ∷ chain)
unfolding walk_back
walk_back-root meta n cur m chain g r = rw (g, walk_back) (rw ((bytes_eq_iff _ _).1 r) refl)

walk_back-up :
    (meta : Dictionary Hash256 BlockMeta) (n : ℕ) (cur : Hash256) (m : BlockMeta)
    (chain : List Hash256)
    → get cur meta ≡ some m
    → m.parent ≢ zero_hash
    → walk_back meta (suc n) cur chain ≡ walk_back meta n m.parent (cur ∷ chain)
unfolding walk_back
walk_back-up meta n cur m chain g ne = rw (g, walk_back) (rw (beq-of_ne m.parent zero_hash ne) refl)

-- The chain that the walk returns is linked, if what it starts with is.
walk_back-Linked :
    (all : Dictionary Hash256 Block) (meta : Dictionary Hash256 BlockMeta)
    → IsIndex all meta
    → (n : ℕ) (cur : Hash256) (m : BlockMeta) (chain c : List Hash256) → get cur meta ≡ some m
    → m.height ≡ n
    → Linked meta cur (suc n) chain
    → walk_back meta (suc n) cur chain ≡ ok c
    → Linked meta zero_hash 0 c
walk_back-Linked all meta v zero cur m chain c g e p w = elim (v.linked cur m g) [
  | inl (root, _) ↦
      subst (Linked meta zero_hash 0)
        (ok-injective (sym (walk_back-root meta zero cur m chain g root) ∙ w)) ((m, g, e, root), p)
  | inr (parent, _, _, h) ↦ absurd (omega arith)
]
walk_back-Linked all meta v (suc n) cur m chain c g e p w = elim (v.linked cur m g) [
  | inl (_, h) ↦ absurd (omega arith)
  | inr (parent, ne, gp, h) ↦
      walk_back-Linked all meta v n m.parent parent (cur ∷ chain) c gp (omega arith)
        ((m, g, e, refl), p) (sym (walk_back-up meta (suc n) cur m chain g ne) ∙ w)
]

-- Both branches of a test.
IsLinkedChain-if :
    (b : Bool) (x y : Outcome Bool × ChainState)
    → (b ≡ true → IsLinkedChain x.1)
    → IsLinkedChain y.1
    → IsLinkedChain (if b then x else y).1
IsLinkedChain-if true x y f g = f refl
IsLinkedChain-if false x y f g = g

module _ (s : ChainState) (v : IsValid s) (path : IsLinkedChain s) (hash : Hash256)
    (nonzero : hash ≢ zero_hash) (m : BlockMeta) (block : Block) (n : IsNew s hash m) where
  stored-Linked : Linked (insert hash m s.meta) zero_hash 0 s.active
  stored-Linked =
      Linked-entries s.meta (insert hash m s.meta) zero_hash 0 s.active
        (λ k x g. stored_entry s v hash nonzero m block n k g) path

  remember-IsLinkedChain : IsLinkedChain (remember hash m block s)
  unfolding remember
  remember-IsLinkedChain = stored-Linked

  forget-IsLinkedChain : IsLinkedChain (forget hash (remember hash m block s))
  unfolding remember forget
  forget-IsLinkedChain =
      Linked-entries s.meta (remove hash (insert hash m s.meta)) zero_hash 0 s.active
        (λ k x g. removed-entry v.index hash m block n.fresh k ∙ g) path

  push_supply-IsLinkedChain :
      (utxos : Utxos) (r : Option ℕ) (t : Hash256)
      → last? s.active ≡ some t
      → m.parent ≡ t
      → m.height ≡ length s.active
      → IsLinkedChain (push_supply hash utxos (remember hash m block s) r).1
  unfolding push_supply remember
  push_supply-IsLinkedChain utxos none t l e h = stored-Linked
  push_supply-IsLinkedChain utxos (some supply) t l e h =
      Linked-append (insert hash m s.meta) zero_hash 0 s.active t hash m stored-Linked l
        (get-insert_self hash m s.meta) (omega arith) e

  push_tip-IsLinkedChain :
      (r : Checked (ℕ × Utxos)) (t : Hash256)
      → last? s.active ≡ some t
      → m.parent ≡ t
      → m.height ≡ length s.active
      → IsLinkedChain (push_tip hash (remember hash m block s) r).1
  unfolding push_tip
  push_tip-IsLinkedChain (err e) t l p h = forget-IsLinkedChain
  push_tip-IsLinkedChain (ok applied) t l p h = push_supply-IsLinkedChain applied.1 _ t l p h

  install-IsLinkedChain :
      (chain : List Hash256) (r : Outcome (Utxos × ℕ))
      → Linked (insert hash m s.meta) zero_hash 0 chain
      → IsLinkedChain (install hash chain (remember hash m block s) r).1
  unfolding install remember
  install-IsLinkedChain chain (err e) l = unfold remember in forget-IsLinkedChain
  install-IsLinkedChain chain (ok applied) l = l

  module _ (p : Primitives) (pow : PowFunction) where
    reorganize-IsLinkedChain :
        IsLinkedChain (reorganize p pow hash m.height (remember hash m block s)).1
    unfolding reorganize adopt remember last?
    reorganize-IsLinkedChain =
        let valid = remember-IsValid s v hash nonzero m block n in
        let g = get-insert_self hash m s.meta in
        let (chain, w, len, l) = walk_back-total _ _ valid.index m.height hash m [] g refl in
        let linked = walk_back-Linked _ _ valid.index m.height hash m [] chain g refl tt w in
        let e : suc m.height ≡ m.height + 1 = omega arith in
        let w' = subst (λ k. walk_back (insert hash m s.meta) k hash [] ≡ ok chain) e w in
        subst (λ r. IsLinkedChain (adopt p pow hash (remember hash m block s) r).1) (sym w')
          (install-IsLinkedChain chain _ linked)

    choose_tip-IsLinkedChain :
        (tip_hash : Hash256) (tip : Option BlockMeta)
        → last? s.active ≡ some tip_hash
        → IsLinkedChain (choose_tip p pow hash m block tip_hash (remember hash m block s) tip).1
    unfolding choose_tip extend_tip
    choose_tip-IsLinkedChain tip_hash none l = remember-IsLinkedChain
    choose_tip-IsLinkedChain tip_hash (some tip) l =
        let s' = remember hash m block s in
        let fast = extend_tip p pow hash m.height block s' in
        let slow = reorganize p pow hash m.height s' in
        IsLinkedChain-if (leb m.cum_work tip.cum_work) (ok false, s')
          (if bytes_eq m.parent tip_hash then fast else slow) (λ _. remember-IsLinkedChain)
          (IsLinkedChain-if (bytes_eq m.parent tip_hash) fast slow
            (λ same.
              let e = (bytes_eq_iff _ _).0 same in
              push_tip-IsLinkedChain _ tip_hash l e
                (tip_above s v hash nonzero m block n p pow tip_hash l e))
            reorganize-IsLinkedChain)

    connect-IsLinkedChain :
        (tip : Option Hash256)
        → last? s.active ≡ tip
        → IsLinkedChain (connect p pow hash m block (remember hash m block s) tip).1
    unfolding connect
    connect-IsLinkedChain none l = remember-IsLinkedChain
    connect-IsLinkedChain (some tip_hash) l = choose_tip-IsLinkedChain tip_hash _ l

module _ (p : Primitives) (pow : PowFunction) where
  store-IsLinkedChain :
      (block : Block) (s : ChainState) (r : Outcome BlockMeta)
      → header_hash p.digest block.header ≢ zero_hash
      → IsValid s
      → IsLinkedChain s
      → check_header p pow block s ≡ r
      → IsLinkedChain (store p pow block s r).1
  unfolding store remember
  store-IsLinkedChain block s (err e) nz v l h = l
  store-IsLinkedChain block s (ok m) nz v l h =
      unfold remember in
      connect-IsLinkedChain s v l _ nz m block (check_header-IsNew p pow block s m h) p pow _ refl

  -- Whatever block is offered to a valid state whose active chain is linked from a block without
  -- a parent on, each block at its height and above its parent, the active chain afterwards is linked, if
  -- the block's header does not hash to zero.
  pub add_block-IsLinkedChain :
      (block : Block) (s : ChainState)
      → header_hash p.digest block.header ≢ zero_hash
      → IsValid s
      → IsLinkedChain s
      → IsLinkedChain (add_block p pow block s).1
  unfolding add_block
  add_block-IsLinkedChain block s nz v l = store-IsLinkedChain block s _ nz v l refl
