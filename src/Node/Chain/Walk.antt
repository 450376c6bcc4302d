-- ===== src/Node/Chain/Walk.antt =====
-- Walking the block index back to the genesis block.
use summerpoem_cli.Prelude.{
  ℕ, zero, suc, ◌+◌, ◌≡◌, ◌≢◌, ◌⊎◌, inl, inr, refl, ◌∙◌, arith, true, none, some, List, ◌∷◌, length,
}
use summerpoem_cli.Prelude.Result.{ok}
use summerpoem_cli.Prelude.Equality.{bytes_Eq, bytes_eq_iff, beq-of_ne}
use summerpoem_cli.Prelude.Dictionary.{Dictionary, get, contains_key}
use summerpoem_cli.Core.Hash.{Hash256, zero_hash}
use summerpoem_cli.Core.Block.{Block}
use summerpoem_cli.Node.Chain.{BlockMeta, walk_back, last?}

-- An entry without a parent has height 0, and any other is one above its parent's entry.
abbrev pub IsLinked : Dictionary Hash256 BlockMeta → BlockMeta → Type 0
IsLinked meta m =
    ((m.parent ≡ zero_hash) × (m.height ≡ 0))
    ⊎ ((parent : BlockMeta) × (m.parent ≢ zero_hash)
        × (get m.parent meta ≡ some parent)
        × (m.height ≡ suc parent.height))

-- The index: its entries are linked, none has the zero hash, and their blocks are stored.
pub record IsIndex (all : Dictionary Hash256 Block) (meta : Dictionary Hash256 BlockMeta)
    : Type 0 where
  pub linked : (h : Hash256) (m : BlockMeta) → get h meta ≡ some m → IsLinked meta m
  pub no_zero : get zero_hash meta ≡ none
  pub stored : (h : Hash256) (m : BlockMeta) → get h meta ≡ some m → contains_key h all ≡ true

-- From an entry of the index the walk ends within its height, at a chain of one block for each
-- height, which ends where it began.
pub walk_back-total :
    (all : Dictionary Hash256 Block) (meta : Dictionary Hash256 BlockMeta)
    → IsIndex all meta
    → (n : ℕ) (cur : Hash256) (m : BlockMeta) (chain : List Hash256) → get cur meta ≡ some m
    → m.height ≡ n
    → (c : List Hash256) × (walk_back meta (suc n) cur chain ≡ ok c)
      × (length c ≡ suc n + length chain)
      × (last? c ≡ last? (cur ∷ chain))
unfolding walk_back
walk_back-total all meta v zero cur m chain g e = elim (v.linked cur m g) [
  | inl (root, _) ↦
      (cur ∷ chain, rw (g, walk_back) (rw ((bytes_eq_iff _ _).1 root) refl), omega arith, refl)
  | inr (parent, _, _, h) ↦ absurd (omega arith)
]
walk_back-total all meta v (suc n) cur m chain g e = elim (v.linked cur m g) [
  | inl (_, h) ↦ absurd (omega arith)
  | inr (parent, ne, gp, h) ↦
      let (c, w, l, t) =
        walk_back-total all meta v n m.parent parent (cur ∷ chain) gp (omega arith) in
      (
        c,
        rw (g, walk_back) (rw (beq-of_ne m.parent zero_hash ne) w),
        omega arith,
        t ∙ (unfold last? in refl),
      )
]
