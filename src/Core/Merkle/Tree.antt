-- ===== src/Core/Merkle/Tree.antt =====
-- The root that crates/core/src/merkle.rs climbs to, against the tree read from the top down.
use summerpoem_cli.Prelude.{
  ℕ, zero, suc, ◌+◌, ◌-◌, ◌*◌, ◌%◌, ◌^◌, ◌≤◌, ◌<◌, ◌≡◌, refl, sym, ap, ◌∙◌, arith, inl, inr, List,
  [], ◌∷◌, ◌++◌, true, false, map, length, take, drop, drop-nil, length-drop, leb, ◌==◌,
  if◌then◌else◌, Bool-cases, length-map,
}
use mathlib.Core.List.{append-nil}
use native.Mathlib.Nat.{pow-succ'}
use mathlib.Core.Path.{subst, fun_ext}
use summerpoem_cli.Prelude.Text.{bytes}
use summerpoem_cli.Core.Hash.{Hash256, zero_hash, sha3, concat}
use summerpoem_cli.Core.Merkle.{last_or, pad, leaf, node, pair_up, next_layer, merkle_root}
use summerpoem_cli.Core.Merkle.Root.{
  RootOf, single, above, length-next_layer, merkle_root_iff_RootOf,
}

abbrev double : ℕ → ℕ
double zero = zero
double (suc n) = suc (suc (double n))

double_lem : (n : ℕ) → double n ≡ 2 * n
double_lem zero = omega arith
double_lem (suc n) = let ih = double_lem n in omega arith

pow_two : (d : ℕ) → 2 ^ suc d ≡ 2 * 2 ^ d
pow_two d = pow-succ' 2 d

pow_pos : (d : ℕ) → 0 < 2 ^ d
pow_pos zero = omega arith
pow_pos (suc d) = let e = pow_two d in let ih = pow_pos d in omega arith

length-take : (n : ℕ) (l : List Hash256) → length (take n l) + (length l - n) ≡ length l
length-take zero l = omega arith
length-take (suc n) [] = omega arith
length-take (suc n) (x ∷ l) = let ih = length-take n l in omega arith

take-map : (f : Hash256 → Hash256) (n : ℕ) (l : List Hash256) → take n (map f l) ≡ map f (take n l)
take-map f zero l = refl
take-map f (suc n) [] = refl
take-map f (suc n) (x ∷ l) = ap (λ t. f x ∷ t) (take-map f n l)

drop-map : (f : Hash256 → Hash256) (n : ℕ) (l : List Hash256) → drop n (map f l) ≡ map f (drop n l)
drop-map f zero l = refl
drop-map f (suc n) [] = refl
drop-map f (suc n) (x ∷ l) = drop-map f n l

-- A layer is padded at its end.
pad-cons : (a b : Hash256) (rest : List Hash256) → pad (a ∷ b ∷ rest) ≡ a ∷ b ∷ pad rest
unfolding pad last_or
pad-cons a b [] = refl
pad-cons a b (c ∷ rest) =
    let same : length (a ∷ b ∷ c ∷ rest) % 2 ≡ length (c ∷ rest) % 2 = omega arith in
    elim (Bool-cases (length (c ∷ rest) % 2 == 1)) [
      | inl odd ↦ rw (same, odd) refl
      | inr even ↦ rw (same, even) refl
    ]

module _ (digest : List ℕ → Hash256) where
  -- Two hashes under their tag.
  abbrev pub branch : Hash256 → Hash256 → Hash256
  branch a b = digest (bytes "sump/merkle/node" ++ (a ++ b))

  abbrev pub tip : Hash256 → Hash256
  tip l = digest (bytes "sump/merkle/leaf" ++ l)

  -- The perfect tree of depth `d` over some leaves, each given to `f`, from the top: the left half
  -- has the first `2 ^ (d - 1)` of them, and the right half has the others, or, where there are none,
  -- is the left half again.
  pub tree_root : (Hash256 → Hash256) → ℕ → List Hash256 → Hash256
  tree_root f zero [] = zero_hash
  tree_root f zero (l ∷ leaves) = f l
  tree_root f (suc d) leaves =
      if leb (length leaves) (2 ^ d)
      then branch (tree_root f d leaves) (tree_root f d leaves)
      else branch (tree_root f d (take (2 ^ d) leaves)) (tree_root f d (drop (2 ^ d) leaves))

  node-branch : (a b : Hash256) → node digest a b ≡ branch a b
  unfolding node sha3 concat
  node-branch a b = ap (λ l. digest (bytes "sump/merkle/node" ++ (a ++ l))) (append-nil b)

  leaf-tip : (l : Hash256) → leaf digest l ≡ tip l
  unfolding leaf sha3 concat
  leaf-tip l = ap (λ x. digest (bytes "sump/merkle/leaf" ++ x)) (append-nil l)

  next_layer-cons :
      (a b : Hash256) (rest : List Hash256)
      → next_layer digest (a ∷ b ∷ rest) ≡ node digest a b ∷ next_layer digest rest
  unfolding next_layer pair_up
  next_layer-cons a b rest = rw (pad-cons a b rest) refl

  next_layer-single : (a : Hash256) → next_layer digest (a ∷ []) ≡ node digest a a ∷ []
  unfolding next_layer pair_up pad last_or
  next_layer-single a = refl

  next_layer-nil : next_layer digest [] ≡ []
  unfolding next_layer pair_up pad
  next_layer-nil = refl

  take-nil : (n : ℕ) → take {A = Hash256} n [] ≡ []
  take-nil zero = refl
  take-nil (suc n) = refl

  -- Halves of a layer lead to halves of the one above.
  next_layer-take :
      (k : ℕ) (l : List Hash256)
      → next_layer digest (take (double k) l) ≡ take k (next_layer digest l)
  next_layer-take zero l = next_layer-nil
  next_layer-take (suc k) [] = rw next_layer-nil refl
  next_layer-take (suc k) (a ∷ []) =
      next_layer-single a ∙ sym (rw (next_layer-single a, take-nil k) refl)
  next_layer-take (suc k) (a ∷ b ∷ rest) =
      next_layer-cons a b (take (double k) rest)
      ∙ rw (next_layer-cons a b rest, next_layer-take k rest) refl

  next_layer-drop :
      (k : ℕ) (l : List Hash256)
      → next_layer digest (drop (double k) l) ≡ drop k (next_layer digest l)
  next_layer-drop zero l = refl
  next_layer-drop (suc k) [] = rw next_layer-nil refl
  next_layer-drop (suc k) (a ∷ []) = rw (next_layer-single a, drop-nil k) next_layer-nil
  next_layer-drop (suc k) (a ∷ b ∷ rest) = rw (next_layer-cons a b rest) (next_layer-drop k rest)

  -- One layer up, the tree is one lower.
  branch-tree :
      (d : ℕ) (l : List Hash256)
      → 0 < length l
      → length l ≤ 2 ^ suc d
      → tree_root (λ h. h) (suc d) l ≡ tree_root (λ h. h) d (next_layer digest l)
  unfolding tree_root
  branch-tree zero [] p h = absurd (omega arith)
  branch-tree zero (a ∷ []) p h = rw (next_layer-single a) (sym (node-branch a a))
  branch-tree zero (a ∷ b ∷ []) p h = rw (next_layer-cons a b []) (sym (node-branch a b))
  branch-tree zero (a ∷ b ∷ c ∷ l) p h = absurd (omega arith)
  branch-tree (suc d) l p h =
      let power : 2 ^ suc d ≡ 2 * 2 ^ d = pow_two d in
      let power' : 2 ^ suc (suc d) ≡ 2 * 2 ^ suc d = pow_two (suc d) in
      let n = length-next_layer digest l in
      elim (Bool-cases (leb (length l) (2 ^ suc d))) [
        | inl low ↦
            let low' : length l ≤ 2 ^ suc d = ground arith in
            let low_above : leb (length (next_layer digest l)) (2 ^ d) ≡ true = ground arith in
            let ih = branch-tree d l p low' in rw (low, low_above) (ap (λ h. branch h h) ih)
        | inr high ↦
            let high' : 2 ^ suc d < length l = ground arith in
            let high_above : leb (length (next_layer digest l)) (2 ^ d) ≡ false = ground arith in
            let k : double (2 ^ d) ≡ 2 ^ suc d = double_lem (2 ^ d) ∙ sym power in
            let left = length-take (2 ^ suc d) l in
            let right = length-drop (2 ^ suc d) l in
            let first_half : next_layer digest (take (2 ^ suc d) l)
                ≡ take (2 ^ d) (next_layer digest l) =
              subst (λ n. next_layer digest (take n l) ≡ take (2 ^ d) (next_layer digest l)) k
                (next_layer-take (2 ^ d) l) in
            let second_half : next_layer digest (drop (2 ^ suc d) l)
                ≡ drop (2 ^ d) (next_layer digest l) =
              subst (λ n. next_layer digest (drop n l) ≡ drop (2 ^ d) (next_layer digest l)) k
                (next_layer-drop (2 ^ d) l) in
            let pos = pow_pos d in
            let a =
              branch-tree d (take (2 ^ suc d) l) (omega arith) (omega arith)
              ∙ ap (tree_root (λ h. h) d) first_half in
            let b =
              branch-tree d (drop (2 ^ suc d) l) (omega arith) (omega arith)
              ∙ ap (tree_root (λ h. h) d) second_half in
            rw (high, high_above) (λ i. branch (a i) (b i))
      ]

  RootOf-tree :
      {l : List Hash256} {h : Hash256}
      → RootOf digest l h
      → (d : ℕ) → length l ≤ 2 ^ d
      → 2 ^ d < 2 * length l
      → h ≡ tree_root (λ x. x) d l
  RootOf-tree (single h) zero p q = unfold tree_root in refl
  RootOf-tree (single h) (suc d) p q =
      let power = pow_two d in let pos = pow_pos d in absurd (omega arith)
  RootOf-tree (above more r) zero p q = absurd (omega arith)
  RootOf-tree {l} (above more r) (suc d) p q =
      let power = pow_two d in
      let n = length-next_layer digest l in
      RootOf-tree r d (omega arith) (omega arith) ∙ sym (branch-tree d l (omega arith) p)

  -- Hashing the leaves first, or where the tree has them.
  tree_root-map :
      (f : Hash256 → Hash256) (d : ℕ) (l : List Hash256)
      → 0 < length l
      → tree_root (λ h. h) d (map f l) ≡ tree_root f d l
  unfolding tree_root
  tree_root-map f zero [] p = absurd (omega arith)
  tree_root-map f zero (x ∷ l) p = refl
  tree_root-map f (suc d) l p =
      let n = length-map f l in
      elim (Bool-cases (leb (length l) (2 ^ d))) [
        | inl low ↦ rw (n, low) (ap (λ h. branch h h) (tree_root-map f d l p))
        | inr high ↦
            let pos = pow_pos d in
            let left = length-take (2 ^ d) l in
            let right = length-drop (2 ^ d) l in
            let more : 2 ^ d < length l = ground arith in
            let a =
              ap (tree_root (λ h. h) d) (take-map f (2 ^ d) l)
              ∙ tree_root-map f d (take (2 ^ d) l) (omega arith) in
            let b =
              ap (tree_root (λ h. h) d) (drop-map f (2 ^ d) l)
              ∙ tree_root-map f d (drop (2 ^ d) l) (omega arith) in
            rw (n, high) (λ i. branch (a i) (b i))
      ]

  -- The root of one or more leaves is the root of the lowest perfect tree that has room for them:
  -- a leaf is hashed with its tag, and two halves, each the root of a tree one lower, with theirs; a
  -- half without leaves repeats the one beside it.
  pub merkle_root-tree_root :
      (l : Hash256) (leaves : List Hash256) (d : ℕ)
      → length (l ∷ leaves) ≤ 2 ^ d
      → 2 ^ d < 2 * length (l ∷ leaves)
      → merkle_root digest (l ∷ leaves) ≡ tree_root tip d (l ∷ leaves)
  merkle_root-tree_root l leaves d p q =
      let all = l ∷ leaves in
      let n = length-map (leaf digest) all in
      let r = (merkle_root_iff_RootOf digest l leaves (merkle_root digest all)).1 refl in
      RootOf-tree r d (omega arith) (omega arith)
      ∙ tree_root-map (leaf digest) d all (omega arith)
      ∙ ap (λ f. tree_root f d all) (fun_ext leaf-tip)
