-- ===== src/Core/Merkle/Root.antt =====
-- The root as a relation, free of the loop's fuel, and what padding by repetition costs.
use summerpoem_cli.Prelude.{
  ℕ, zero, suc, ◌+◌, ◌/◌, ◌%◌, ◌≤◌, ◌<◌, ◌≡◌, refl, sym, ap, ◌∙◌, ◌↔◌, arith, List, [], ◌∷◌, ◌++◌,
  map, length, length-append, length-map,
}
use mathlib.Core.List.{append_assoc, map-append}
use mathlib.Core.Path.{subst}
use summerpoem_cli.Core.Hash.{Hash256, zero_hash}
use summerpoem_cli.Core.Merkle.{last_or, first, pad, leaf, pair_up, next_layer, climb, merkle_root}

length-pad : (l : List Hash256) → length (pad l) ≡ length l + length l % 2
unfolding pad
length-pad l = ground (arith, length-append l (last_or zero_hash l ∷ []))

last_or-append : (d x : Hash256) (l : List Hash256) → last_or d (l ++ (x ∷ [])) ≡ x
unfolding last_or
last_or-append d x [] = refl
last_or-append d x (h ∷ hs) = last_or-append h x hs

-- A layer of an even number of hashes and one more is padded by that one.
pad_odd :
    (l : List Hash256) (x : Hash256) → length l % 2 ≡ 0 → pad (l ++ (x ∷ [])) ≡ l ++ (x ∷ x ∷ [])
unfolding pad
pad_odd l x h =
    let n : length (l ++ (x ∷ [])) % 2 ≡ 1 = omega (arith, length-append l (x ∷ [])) in
    rw (n, last_or-append zero_hash x l) (append_assoc l (x ∷ []) (x ∷ []))

pad_even : (l : List Hash256) → length l % 2 ≡ 0 → pad l ≡ l
unfolding pad
pad_even l h = rw h

module _ (digest : List ℕ → Hash256) where
  length-pair_up : (l : List Hash256) → length (pair_up digest l) ≡ length l / 2
  unfolding pair_up
  length-pair_up [] = omega arith
  length-pair_up (a ∷ []) = omega arith
  length-pair_up (a ∷ b ∷ rest) = omega (arith, length-pair_up rest)

  pub length-next_layer :
      (l : List Hash256) → length (next_layer digest l) ≡ (length l + length l % 2) / 2
  unfolding next_layer
  length-next_layer l = length-pair_up (pad l) ∙ ap (λ n. n / 2) (length-pad l)

  -- The root of a layer: its only hash, or the root of the layer above.
  pub data RootOf : List Hash256 → Hash256 → Type 0 where
    single : (h : Hash256) → RootOf (h ∷ []) h
    above :
        {l : List Hash256} {h : Hash256}
        → 1 < length l
        → RootOf (next_layer digest l) h
        → RootOf l h

  climb-above :
      (fuel : ℕ) (l : List Hash256)
      → 1 < length l
      → climb digest (suc fuel) l ≡ climb digest fuel (next_layer digest l)
  unfolding climb
  climb-above fuel l h = ground arith

  climb-RootOf :
      (fuel : ℕ) (l : List Hash256)
      → 0 < length l
      → length l ≤ fuel
      → RootOf l (climb digest fuel l)
  unfolding climb first
  climb-RootOf zero l p h = absurd (omega arith)
  climb-RootOf (suc fuel) [] p h = absurd (omega arith)
  climb-RootOf (suc fuel) (x ∷ []) p h = single x
  climb-RootOf (suc fuel) (x ∷ y ∷ rest) p h =
      let l = x ∷ y ∷ rest in
      let n = length-next_layer l in
      let more : 1 < length l = omega arith in
      above more (
        subst (λ r. RootOf (next_layer digest l) r) (sym (climb-above fuel l more))
          (climb-RootOf fuel (next_layer digest l) (omega (arith, n)) (omega (arith, n))))

  RootOf-unique : {l : List Hash256} {a b : Hash256} → RootOf l a → RootOf l b → a ≡ b
  RootOf-unique (single h) (single _) = refl
  RootOf-unique (single h) (above more r) = absurd (omega arith)
  RootOf-unique (above more r) (single h) = absurd (omega arith)
  RootOf-unique (above more r) (above more' r') = RootOf-unique r r'

  -- The loop ends at the one hash that the layers lead to.
  pub merkle_root_iff_RootOf :
      (l : Hash256) (leaves : List Hash256) (root : Hash256)
      → RootOf (map (leaf digest) (l ∷ leaves)) root ↔ (merkle_root digest (l ∷ leaves) ≡ root)
  unfolding merkle_root
  merkle_root_iff_RootOf l leaves root =
      let ls = map (leaf digest) (l ∷ leaves) in
      let n = length-map (leaf digest) (l ∷ leaves) in
      let found = climb-RootOf (length (l ∷ leaves)) ls (omega (arith, n)) (omega (arith, n)) in
      (λ r. RootOf-unique found r, λ e. subst (RootOf ls) e found)

  next_layer_repeated :
      (l : List Hash256) (x : Hash256)
      → length l % 2 ≡ 0
      → next_layer digest (l ++ (x ∷ [])) ≡ next_layer digest (l ++ (x ∷ x ∷ []))
  unfolding next_layer
  next_layer_repeated l x h =
      let even : length (l ++ (x ∷ x ∷ [])) % 2 ≡ 0 = omega (arith, length-append l (x ∷ x ∷ [])) in
      ap (pair_up digest) (pad_odd l x h ∙ sym (pad_even (l ++ (x ∷ x ∷ [])) even))

  next_layer-map_repeated :
      (l : List Hash256) (x : Hash256)
      → length l % 2 ≡ 0
      → next_layer digest (map (leaf digest) (l ++ (x ∷ [])))
        ≡ next_layer digest (map (leaf digest) (l ++ (x ∷ x ∷ [])))
  next_layer-map_repeated l x h =
      let f = leaf digest in
      let even : length (map f l) % 2 ≡ 0 = omega (arith, length-map f l) in
      ap (next_layer digest) (map-append f l (x ∷ []))
      ∙ next_layer_repeated (map f l) (f x) even
      ∙ ap (next_layer digest) (sym (map-append f l (x ∷ x ∷ [])))

  longer :
      (l : Hash256) (leaves : List Hash256) (x : Hash256) (xs : List Hash256)
      → 1 < length (map (leaf digest) (l ∷ leaves ++ (x ∷ xs)))
  longer l leaves x xs =
      omega
        (arith, length-map (leaf digest) (l ∷ leaves ++ (x ∷ xs)), length-append leaves (x ∷ xs))

  next_layer-RootOf :
      {l : List Hash256} {h : Hash256} → RootOf l h → 1 < length l → RootOf (next_layer digest l) h
  next_layer-RootOf (single h) more = absurd (omega arith)
  next_layer-RootOf (above _ r) more = r

  -- After an even number of leaves, at least one of them, a last leaf and the same leaf repeated
  -- lead to the same root.
  pub merkle_root_repeated :
      (l : Hash256) (leaves : List Hash256) (x : Hash256)
      → length (l ∷ leaves) % 2 ≡ 0
      → merkle_root digest (l ∷ leaves ++ (x ∷ []))
        ≡ merkle_root digest (l ∷ leaves ++ (x ∷ x ∷ []))
  merkle_root_repeated l leaves x even =
      let long = merkle_root digest (l ∷ leaves ++ (x ∷ x ∷ [])) in
      let short = map (leaf digest) (l ∷ leaves ++ (x ∷ [])) in
      let more : 1 < length short = longer l leaves x [] in
      let r = (merkle_root_iff_RootOf l (leaves ++ (x ∷ x ∷ [])) long).1 refl in
      let up = next_layer-RootOf r (longer l leaves x (x ∷ [])) in
      let same = next_layer-map_repeated (l ∷ leaves) x even in
      (merkle_root_iff_RootOf l (leaves ++ (x ∷ [])) long).0
        (above more (subst (λ layer. RootOf layer long) (sym same) up))
