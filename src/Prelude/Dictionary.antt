-- ===== src/Prelude/Dictionary.antt =====
-- Rust's `HashMap` as an association list whose insertion drops every older entry of the key.
-- Lookup therefore needs no invariant on the list.
use Prim.Native.Nat.{ℕ, ◌+◌, ◌≤◌}
use mathlib.Core.Path.{◌≡◌, refl}
use mathlib.Core.Logic.{inl, inr}
use mathlib.Core.Bool.{Bool, true, false, ◌||◌}
use mathlib.Core.Option.{Option, none, some}
use mathlib.Core.List.{List, [], ◌∷◌}
use native.Mathlib.Omega.{arith}
use summerpoem_cli.Prelude.Tests.{if◌then◌else◌, Option-cases, Bool-cases}
use summerpoem_cli.Prelude.Equality.{Eq, beq_refl}

abbrev pub Dictionary {ℓ κ} : Type ℓ → Type κ → Type (ℓ ⊔ κ)
Dictionary K V = List (K × V)

module _ {ℓ κ} {K : Type ℓ} {V : Type κ} ⦃e : Eq K⦄ where
  unfoldable pub get : K → Dictionary K V → Option V
  get k [] = none
  get k ((j, v) ∷ m) = if e.beq k j then some v else get k m

  unfoldable pub remove : K → Dictionary K V → Dictionary K V
  remove k [] = []
  remove k ((j, v) ∷ m) = let rest = remove k m in if e.beq k j then rest else (j, v) ∷ rest

  unfoldable pub insert : K → V → Dictionary K V → Dictionary K V
  insert k v m = (k, v) ∷ remove k m

  unfoldable pub contains_key : K → Dictionary K V → Bool
  unfolding get
  contains_key k m = elim (get k m) [ none ↦ false | some _ ↦ true ]

  pub get-remove :
      (k j : K) (m : Dictionary K V) → get k (remove j m) ≡ (if e.beq k j then none else get k m)
  unfolding get remove
  get-remove k j [] = ground arith
  get-remove k j ((i, v) ∷ m) =
      ground (arith, get-remove k j m, e.beq_iff k j, e.beq_iff k i, e.beq_iff j i)

  pub get-insert :
      (k j : K) (v : V) (m : Dictionary K V)
      → get k (insert j v m) ≡ (if e.beq k j then some v else get k m)
  unfolding insert get
  get-insert k j v m = ground (arith, get-remove k j m)

  pub contains_key-insert :
      (k j : K) (v : V) (m : Dictionary K V)
      → contains_key k (insert j v m) ≡ (e.beq k j || contains_key k m)
  unfolding contains_key
  contains_key-insert k j v m = elim (Bool-cases (e.beq k j)) [
    | inl h ↦ rw (get-insert k j v m, contains_key, h) refl
    | inr h ↦ rw (get-insert k j v m, contains_key, h) refl
  ]

-- The weights of the values, added up.
module _ {ℓ κ} {K : Type ℓ} {V : Type κ} ⦃e : Eq K⦄ (weight : V → ℕ) where
  unfoldable pub total : Dictionary K V → ℕ
  total [] = 0
  total ((_, v) ∷ m) = weight v + total m

  pub total-remove-le : (k : K) (m : Dictionary K V) → total (remove k m) ≤ total m
  unfolding remove total
  total-remove-le k [] = omega arith
  total-remove-le k ((j, v) ∷ m) = ground (arith, total-remove-le k m)

  -- Removing an entry takes its weight out.
  pub total-remove :
      (k : K) (v : V) (m : Dictionary K V)
      → get k m ≡ some v
      → total (remove k m) + weight v ≤ total m
  unfolding get remove total
  total-remove k v [] h = cc
  total-remove k v ((j, w) ∷ m) h = ground (arith, total-remove k v m, total-remove-le k m)

  pub total-insert-le :
      (k : K) (v : V) (m : Dictionary K V) → total (insert k v m) ≤ total m + weight v
  unfolding insert total
  total-insert-le k v m = ground (arith, total-remove-le k m)

module _ {ℓ κ} {K : Type ℓ} {V : Type κ} ⦃e : Eq K⦄ where
  pub get-insert_self : (k : K) (v : V) (m : Dictionary K V) → get k (insert k v m) ≡ some v
  get-insert_self k v m = rw (get-insert k k v m, beq_refl k) refl

  -- A new key leaves what was found before.
  pub get-insert_new :
      (k j : K) (v : V) {w : V} (m : Dictionary K V)
      → get j m ≡ none
      → get k m ≡ some w
      → get k (insert j v m) ≡ some w
  get-insert_new k j v m fresh found = ground (arith, get-insert k j v m, e.beq_iff k j)

  pub get-remove_inserted :
      (k j : K) (v : V) (m : Dictionary K V)
      → get j m ≡ none
      → get k (remove j (insert j v m)) ≡ get k m
  get-remove_inserted k j v m fresh =
      ground (arith, get-remove k j (insert j v m), get-insert k j v m, e.beq_iff k j)

  pub contains_key-of_get : (k : K) (m : Dictionary K V) → contains_key k m ≡ false → get k m ≡ none
  unfolding contains_key
  contains_key-of_get k m h = ground arith

  pub get-of_contains_key :
      (k : K) (m : Dictionary K V) → contains_key k m ≡ true → (v : V) × (get k m ≡ some v)
  unfolding contains_key
  get-of_contains_key k m h = elim (Option-cases (get k m)) [
    | inl missing ↦ absurd (ground arith)
    | inr found ↦ found
  ]

  pub contains_key-of_get-some :
      (k : K) (m : Dictionary K V) {v : V} → get k m ≡ some v → contains_key k m ≡ true
  unfolding contains_key
  contains_key-of_get-some k m h = ground arith

  -- A dictionary of one entry.
  pub get-single : (k j : K) (v : V) {x : V} → get k (insert j v []) ≡ some x → (k ≡ j) × (v ≡ x)
  unfolding get insert remove
  get-single k j v h = ground (arith, e.beq_iff k j)

-- No key has two entries.
module _ {ℓ κ} {K : Type ℓ} {V : Type κ} ⦃e : Eq K⦄ where
  abbrev pub Unique : Dictionary K V → Type κ
  Unique [] = Unit {κ}
  Unique ((j, v) ∷ m) = (get j m ≡ none) × Unique m

  remove-absent : (k : K) (m : Dictionary K V) → get k m ≡ none → remove k m ≡ m
  unfolding get remove
  remove-absent k [] h = refl
  remove-absent k ((j, v) ∷ m) h = ground (arith, remove-absent k m)

  pub remove-Unique : (k : K) (m : Dictionary K V) → Unique m → Unique (remove k m)
  unfolding remove
  remove-Unique k [] u = tt
  remove-Unique k ((j, v) ∷ m) (f, u) = ground (arith, remove-Unique k m u, get-remove j k m)

  pub insert-Unique : (k : K) (v : V) (m : Dictionary K V) → Unique m → Unique (insert k v m)
  unfolding insert
  insert-Unique k v m u = (ground (arith, get-remove k k m, beq_refl k), remove-Unique k m u)

  -- Removing the only entry of a key takes its weight out, and no more.
  pub total-remove-Unique :
      (weight : V → ℕ) (k : K) (v : V) (m : Dictionary K V)
      → Unique m
      → get k m ≡ some v
      → total weight (remove k m) + weight v ≡ total weight m
  unfolding get remove total
  total-remove-Unique weight k v [] u h = absurd cc
  total-remove-Unique weight k v ((j, w) ∷ m) (f, u) h =
      ground (arith, total-remove-Unique weight k v m u, remove-absent k m, e.beq_iff k j)

  pub total-remove-absent :
      (weight : V → ℕ) (k : K) (m : Dictionary K V)
      → get k m ≡ none
      → total weight (remove k m) ≡ total weight m
  total-remove-absent weight k m h = rw (remove-absent k m h) refl
