-- ===== src/Pow/Mine.antt =====
-- The search for a nonce.
use summerpoem_cli.Prelude.{
  ℕ, zero, suc, ◌+◌, ◌%◌, ◌≤◌, ◌<◌, ◌≡◌, refl, arith, Bool, true, false, Option, none, some, List,
  if◌then◌else◌, Bool-cases, inl, inr, ◌==◌, ==_iff, ◌&&◌, not, ◌^◌,
}
use mathlib.Core.Path.{subst}
use summerpoem_cli.Prelude.Checked.{u64_mod}
use summerpoem_cli.Core.Hash.{Hash256}
use summerpoem_cli.Pow.{
  PowContext, dataset_pages, compute, meets_target, try_nonce, mine_from, mine,
}

-- The hash of the nonce is there, and meets the target or does not.
abbrev pub Tried : (ℕ → Option Hash256) → ℕ → ℕ → Bool → Type 0
Tried hash target nonce b = (h : Hash256) × (hash nonce ≡ some h) × (meets_target h target ≡ b)

-- What a search of `n` nonces from `start + i` on has found: the first one that meets the target,
-- or that none of them does.
abbrev pub Found : (ℕ → Option Hash256) → ℕ → ℕ → ℕ → ℕ → Option ℕ → Type 0
Found hash target start n i none =
    (j : ℕ) → i ≤ j → j < i + n → Tried hash target ((start + j) % u64_mod) false
Found hash target start n i (some nonce) =
    (k : ℕ) × (i ≤ k)
    × (k < i + n)
    × (nonce ≡ (start + k) % u64_mod)
    × Tried hash target nonce true
    × ((j : ℕ) → i ≤ j → j < k → Tried hash target ((start + j) % u64_mod) false)

-- A first index added to a range.
below_first :
    (P : ℕ → Type 0) (i b : ℕ)
    → P i
    → ((j : ℕ) → suc i ≤ j → j < b → P j)
    → (j : ℕ) → i ≤ j
    → j < b
    → P j
below_first P i b p f j l h = elim (Bool-cases (j == i)) [
  | inl same ↦ let e : i ≡ j = ground (arith, ==_iff j i) in subst P e p
  | inr other ↦ f j (ground (arith, ==_iff j i)) h
]

-- A first nonce that fails, before a search.
Found-suc :
    (hash : ℕ → Option Hash256) (target start n i : ℕ) (r : Option ℕ)
    → Tried hash target ((start + i) % u64_mod) false
    → Found hash target start n (suc i) r
    → Found hash target start (suc n) i r
Found-suc hash target start n i none fail f =
    let P : ℕ → Type 0 = λ j. Tried hash target ((start + j) % u64_mod) false in
    below_first P i (i + suc n) fail (λ j l h. f j l (omega arith))
Found-suc hash target start n i (some nonce) fail (k, l, h, e, met, before) =
    let P : ℕ → Type 0 = λ j. Tried hash target ((start + j) % u64_mod) false in
    (k, omega arith, omega arith, e, met, below_first P i k fail before)

some-unless :
    (b c : Bool) (x : Hash256)
    → b ≡ false
    → (h : Hash256) × ((if b && c then none else some x) ≡ some h)
some-unless true c x e = absurd cc
some-unless false c x e = (x, refl)

module _ (digest : List ℕ → Hash256) (xof : List ℕ → ℕ → List ℕ) (ctx : PowContext)
    (pow_message : Hash256) (target start : ℕ) where
  abbrev hash : ℕ → Option Hash256
  hash = compute digest xof ctx pow_message

  try_nonce-Found :
      (n i : ℕ) (rest : Option (Option ℕ)) (h : Option Hash256) (r : Option ℕ)
      → hash ((start + i) % u64_mod) ≡ h
      → ((r' : Option ℕ) → rest ≡ some r' → Found hash target start n (suc i) r')
      → try_nonce target ((start + i) % u64_mod) rest h ≡ some r
      → Found hash target start (suc n) i r
  unfolding try_nonce
  try_nonce-Found n i rest none r e later h = absurd cc
  try_nonce-Found n i rest (some x) r e later h = elim (Bool-cases (meets_target x target)) [
    | inl met ↦
        let found : some ((start + i) % u64_mod) ≡ r = ground arith in
        subst (Found hash target start (suc n) i) found
          (i, omega arith, omega arith, refl, (x, e, met), λ j l h. absurd (omega arith))
    | inr missed ↦
        let same : rest ≡ some r = ground arith in
        Found-suc hash target start n i r (x, e, missed) (later r same)
  ]

  mine_from-Found :
      (n i : ℕ) (r : Option ℕ)
      → mine_from digest xof ctx pow_message target start n i ≡ some r
      → Found hash target start n i r
  unfolding mine_from
  mine_from-Found zero i none h = λ j l m. absurd (omega arith)
  mine_from-Found zero i (some nonce) h = absurd cc
  mine_from-Found (suc n) i r h =
      try_nonce-Found n i (mine_from digest xof ctx pow_message target start n (suc i)) _ r refl
        (λ r' e. mine_from-Found n (suc i) r' e) h

  hash-some : (nonce : ℕ) → 0 < dataset_pages ctx → (h : Hash256) × (hash nonce ≡ some h)
  unfolding compute
  hash-some nonce pages =
      some-unless (dataset_pages ctx == 0) (not (ctx.params.accesses % 2 ^ 32 == 0)) _
        (ground arith)

  try_nonce-some :
      (nonce : ℕ) (rest : Option (Option ℕ)) (r : Option ℕ) (h : Option Hash256) (x : Hash256)
      → h ≡ some x
      → rest ≡ some r
      → (r' : Option ℕ) × (try_nonce target nonce rest h ≡ some r')
  unfolding try_nonce
  try_nonce-some nonce rest r h x e later = elim (Bool-cases (meets_target x target)) [
    | inl met ↦ (some nonce, rw (e, try_nonce, met) refl)
    | inr missed ↦ (r, rw (e, try_nonce, missed) later)
  ]

  mine_from-some :
      (n i : ℕ)
      → 0 < dataset_pages ctx
      → (r : Option ℕ) × (mine_from digest xof ctx pow_message target start n i ≡ some r)
  unfolding mine_from
  mine_from-some zero i pages = (none, refl)
  mine_from-some (suc n) i pages =
      let (r, later) = mine_from-some n (suc i) pages in
      let (x, e) = hash-some ((start + i) % u64_mod) pages in
      try_nonce-some ((start + i) % u64_mod) _ r _ x e later

  -- On a dataset of one page or more the search ends. If it ends with a nonce, that is the first of
  -- the allowed number of nonces from the start on, wrapping at 2 ^ 64, whose hash meets the target;
  -- if it ends without, it has tried all of them and none does.
  pub mine-Found :
      (max_iters : ℕ)
      → 0 < dataset_pages ctx
      → (r : Option ℕ) × (mine digest xof ctx pow_message target start max_iters ≡ some r)
        × Found hash target start max_iters 0 r
  unfolding mine
  mine-Found max_iters pages =
      let (r, e) = mine_from-some max_iters 0 pages in (r, e, mine_from-Found max_iters 0 r e)
