-- ===== src/Programs/Gpu/Search.antt =====
-- The GPU's search finds what the CPU's search finds.
use summerpoem_cli.Prelude.{
  ℕ, ◌+◌, ◌%◌, ◌<◌, ◌≡◌, refl, sym, ◌∙◌, ◌⊎◌, inl, inr, arith, Bool, true, some, List, [], ◌∷◌, ltb,
  leb, Bool-cases,
}
use mathlib.Core.Path.{subst}
use summerpoem_cli.Prelude.Result.{ok, >>=-eq-ok, ok-injective}
use summerpoem_cli.Prelude.Checked.{u64_mod}
use summerpoem_cli.Core.Hash.{Hash256}
use summerpoem_cli.Pow.{PowContext, compute, meets_target}
use summerpoem_cli.Pow.Mine.{Tried}
use summerpoem_cli.Programs.Gpu.{
  GpuMiner, not_found, atomic_min, search_thread, run_threads, found_nonce, search,
}

abbrev pub Occurs : ℕ → List ℕ → Type 0
Occurs i [] = ⊥
Occurs i (t ∷ ts) = (i ≡ t) ⊎ Occurs i ts

module _ (g : GpuMiner) (pow_message : Hash256) (target start count : ℕ) where
  abbrev met : ℕ → Bool
  met nonce = meets_target (g.sumphash pow_message nonce) target

  -- Some thread has met the target at the nonce.
  abbrev IsHit : ℕ → Type 0
  IsHit n = (tid : ℕ) × (tid < count) × (n ≡ (start + tid) % u64_mod) × (met n ≡ true)

  search_thread-cases :
      (found tid : ℕ)
      → (search_thread g pow_message target start count found tid ≡ found)
        ⊎ IsHit (search_thread g pow_message target start count found tid)
  unfolding search_thread atomic_min
  search_thread-cases found tid = elim (Bool-cases (leb count tid)) [
    | inl over ↦ inl (rw over refl)
    | inr within ↦ elim (Bool-cases (met ((start + tid) % u64_mod))) [
      | inr missed ↦ inl (rw (within, missed) refl)
      | inl hit ↦ elim (Bool-cases (ltb ((start + tid) % u64_mod) found)) [
        | inr more ↦ inl (rw (within, hit, more) refl)
        | inl less ↦ inr (rw (within, hit, less) (tid, ground arith, refl, hit))
      ]
    ]
  ]

  run_threads-cases :
      (found : ℕ) (tids : List ℕ)
      → (run_threads g pow_message target start count found tids ≡ found)
        ⊎ IsHit (run_threads g pow_message target start count found tids)
  unfolding run_threads
  run_threads-cases found [] = inl refl
  run_threads-cases found (t ∷ ts) =
      let next = search_thread g pow_message target start count found t in
      elim (run_threads-cases next ts) [
        | inr hit ↦ inr hit
        | inl unchanged ↦ elim (search_thread-cases found t) [
          | inl e ↦ inl (unchanged ∙ e)
          | inr hit ↦ inr (subst IsHit (sym unchanged) hit)
        ]
      ]

  abbrev left : ℕ
  left = run_threads g pow_message target start count not_found (g.threads count)

  module _ (digest : List ℕ → Hash256) (xof : List ℕ → ℕ → List ℕ) (ctx : PowContext)
      (agrees : (nonce : ℕ)
        → compute digest xof ctx pow_message nonce ≡ some (g.sumphash pow_message nonce)) where
    found_nonce-some :
        (n nonce : ℕ)
        → found_nonce g pow_message target start count n ≡ some nonce
        → (n ≡ nonce) × (n ≡ not_found → ⊥)
    unfolding found_nonce
    found_nonce-some n nonce h = (ground arith, λ e. ground arith)

    -- A nonce that the search returns meets the target.
    pub search-Tried :
        (nonce : ℕ)
        → search g pow_message target start count ≡ ok (some nonce)
        → Tried (compute digest xof ctx pow_message) target nonce true
    unfolding search
    search-Tried nonce h =
        let (launched, _, h') = >>=-eq-ok (g.driver pow_message target start count) _ h in
        let (same, some_found) = found_nonce-some left nonce (ok-injective h') in
        elim (run_threads-cases not_found (g.threads count)) [
          | inl e ↦ absurd (some_found e)
          | inr (tid, l, e, m) ↦
              (g.sumphash pow_message nonce, agrees nonce, subst (λ x. met x ≡ true) same m)
        ]
