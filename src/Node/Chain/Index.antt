-- ===== src/Node/Chain/Index.antt =====
-- Storing a block in the index, and taking it out again.
use summerpoem_cli.Prelude.{
  suc, ◌≡◌, ◌≢◌, inl, inr, refl, sym, ◌∙◌, true, false, none, some, Bool-cases, Option-cases,
}
use summerpoem_cli.Prelude.Equality.{bytes_eq, bytes_Eq, beq-of_ne}
use summerpoem_cli.Prelude.Dictionary.{
  Dictionary, get, insert, remove, contains_key, get-insert, get-insert_new, get-remove_inserted,
  contains_key-of_get, contains_key-of_get-some, get-of_contains_key,
}
use summerpoem_cli.Core.Hash.{Hash256, zero_hash}
use mathlib.Core.Path.{subst}
use summerpoem_cli.Core.Block.{Block}
use summerpoem_cli.Node.Chain.{BlockMeta}
use summerpoem_cli.Node.Chain.Walk.{IsLinked, IsIndex}

module _ {all : Dictionary Hash256 Block} {meta : Dictionary Hash256 BlockMeta}
    (v : IsIndex all meta) (hash : Hash256) (m : BlockMeta) (block : Block)
    (fresh : contains_key hash all ≡ false) where
  -- A block that is not stored has no entry.
  pub entry_fresh : get hash meta ≡ none
  entry_fresh = elim (Option-cases (get hash meta)) [
    | inl e ↦ e
    | inr (x, e) ↦ absurd (let s = v.stored hash x e in cc)
  ]

  IsLinked-insert : (x : BlockMeta) → IsLinked meta x → IsLinked (insert hash m meta) x
  IsLinked-insert x (inl root) = inl root
  IsLinked-insert x (inr (parent, ne, g, h)) =
      inr (parent, ne, get-insert_new _ hash m meta entry_fresh g, h)

  contains_key-insert :
      (h : Hash256) → contains_key h all ≡ true → contains_key h (insert hash block all) ≡ true
  contains_key-insert h c =
      let (b, g) = get-of_contains_key h all c in
      contains_key-of_get-some h _
        (get-insert_new h hash block all (contains_key-of_get hash all fresh) g)

  -- A new block below an entry keeps the index.
  pub insert-IsIndex :
      {parent : BlockMeta}
      → hash ≢ zero_hash
      → get m.parent meta ≡ some parent
      → m.height ≡ suc parent.height
      → IsIndex (insert hash block all) (insert hash m meta)
  insert-IsIndex {parent} nz gp h = record {
    linked = λ k x g. linked' k x g;
    no_zero =
        rw (get-insert zero_hash hash m meta, beq-of_ne zero_hash hash (λ e. nz (sym e))) v.no_zero;
    stored = λ k x g. stored' k x g;
  }
    where
      new_linked : IsLinked (insert hash m meta) m
      new_linked = IsLinked-insert m (inr (parent, (λ e. no_parent e), gp, h))
        where
          no_parent : m.parent ≡ zero_hash → ⊥
          no_parent e =
              let z = v.no_zero in let g = subst (λ k. get k meta ≡ some parent) e gp in cc

      linked' :
          (k : Hash256) (x : BlockMeta)
          → get k (insert hash m meta) ≡ some x
          → IsLinked (insert hash m meta) x
      linked' k x g = elim (Bool-cases (bytes_eq k hash)) [
        | inl same ↦
            let e : some m ≡ some x = rw (get-insert k hash m meta, same) at g in
            let e' : m ≡ x = cc e in subst (IsLinked (insert hash m meta)) e' new_linked
        | inr other ↦ IsLinked-insert x (v.linked k x (rw (get-insert k hash m meta, other) at g))
      ]

      stored' :
          (k : Hash256) (x : BlockMeta)
          → get k (insert hash m meta) ≡ some x
          → contains_key k (insert hash block all) ≡ true
      stored' k x g = elim (Bool-cases (bytes_eq k hash)) [
        | inl same ↦
            contains_key-of_get-some k (insert hash block all) {v = block}
              (rw (get-insert k hash block all, same) refl)
        | inr other ↦
            contains_key-insert k (v.stored k x (rw (get-insert k hash m meta, other) at g))
      ]

  -- Taking the block out again restores what is found.
  pub removed-entry : (k : Hash256) → get k (remove hash (insert hash m meta)) ≡ get k meta
  removed-entry k = get-remove_inserted k hash m meta entry_fresh

  pub removed-block : (k : Hash256) → get k (remove hash (insert hash block all)) ≡ get k all
  removed-block k = get-remove_inserted k hash block all (contains_key-of_get hash all fresh)

  pub remove-IsIndex :
      IsIndex (remove hash (insert hash block all)) (remove hash (insert hash m meta))
  remove-IsIndex = record {
    linked = λ k x g. linked' x (v.linked k x (sym (removed-entry k) ∙ g));
    no_zero = removed-entry zero_hash ∙ v.no_zero;
    stored = λ k x g. stored' k (v.stored k x (sym (removed-entry k) ∙ g));
  }
    where
      linked' : (x : BlockMeta) → IsLinked meta x → IsLinked (remove hash (insert hash m meta)) x
      linked' x (inl root) = inl root
      linked' x (inr (parent, ne, g, h)) = inr (parent, ne, removed-entry x.parent ∙ g, h)

      stored' :
          (k : Hash256)
          → contains_key k all ≡ true
          → contains_key k (remove hash (insert hash block all)) ≡ true
      stored' k c =
          let (b, g) = get-of_contains_key k all c in
          contains_key-of_get-some k _ (removed-block k ∙ g)
