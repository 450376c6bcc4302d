-- ===== src/Wallet/Select.antt =====
-- What a payment selects of a wallet's outputs.
use summerpoem_cli.Prelude.{
  ℕ, ◌+◌, ◌%◌, ◌≤◌, ◌<◌, ◌≡◌, ◌⊎◌, inl, inr, refl, ap, arith, Bool, true, false, List, [], ◌∷◌, leb,
  All, Bool-cases, if◌then◌else◌,
}
use summerpoem_cli.Prelude.Lists.{filter_by}
use summerpoem_cli.Prelude.Checked.{u64_mod}
use summerpoem_cli.Core.Tx.{TxInput}
use summerpoem_cli.Node.Utxo.{outpoint_eq, outpoint_eq-flip}
use summerpoem_cli.Node.Utxo.Value.{Fresh, Distinct}
use summerpoem_cli.Wallet.{OwnedUtxo, insert_by_amount, sort_by_amount, select, inputs_of}

unfoldable pub worth : List OwnedUtxo → ℕ
worth [] = 0
worth (u ∷ us) = u.output.amount + worth us

abbrev pub spends : OwnedUtxo → TxInput
spends u = record { prevout = u.outpoint }

module _ (P : OwnedUtxo → Type 0) where
  pub All-filter_by :
      (keep : OwnedUtxo → Bool) (us : List OwnedUtxo) → All P us → All P (filter_by keep us)
  unfolding filter_by
  All-filter_by keep [] h = tt
  All-filter_by keep (u ∷ us) (h, hs) =
      let rest = All-filter_by keep us hs in
      elim (keep u) as (λ b. All P (if b then u ∷ filter_by keep us else filter_by keep us)) [
        | true ↦ (h, rest)
        | false ↦ rest
      ]

  All-insert_by_amount :
      (u : OwnedUtxo) (us : List OwnedUtxo) → P u → All P us → All P (insert_by_amount u us)
  unfolding insert_by_amount
  All-insert_by_amount u [] h hs = (h, tt)
  All-insert_by_amount u (v ∷ vs) h (hv, hs) =
      let rest = All-insert_by_amount u vs h hs in
      elim (leb v.output.amount u.output.amount)
        as (λ b. All P (if b then u ∷ v ∷ vs else v ∷ insert_by_amount u vs)) [
          | true ↦ (h, (hv, hs))
          | false ↦ (hv, rest)
        ]

  pub All-sort_by_amount : (us : List OwnedUtxo) → All P us → All P (sort_by_amount us)
  unfolding sort_by_amount
  All-sort_by_amount [] h = tt
  All-sort_by_amount (u ∷ us) (h, hs) =
      All-insert_by_amount u (sort_by_amount us) h (All-sort_by_amount us hs)

  pub All-select :
      (need total : ℕ) (us : List OwnedUtxo) → All P us → All P (select need total us).0
  unfolding select
  All-select need total [] h = tt
  All-select need total (u ∷ us) (h, hs) =
      let rest = All-select need ((total + u.output.amount) % u64_mod) us hs in
      elim (Bool-cases (leb need total)) [
        | inl enough ↦ rw enough tt
        | inr more ↦ rw more (h, rest)
      ]

pub filter_by-kept :
    (keep : OwnedUtxo → Bool) (us : List OwnedUtxo) → All (λ u. keep u ≡ true) (filter_by keep us)
unfolding filter_by
filter_by-kept keep [] = tt
filter_by-kept keep (u ∷ us) = elim (Bool-cases (keep u)) [
  | inl h ↦ rw h (h, filter_by-kept keep us)
  | inr h ↦ rw h (filter_by-kept keep us)
]

-- No output is listed twice.
abbrev pub IsDistinct : List OwnedUtxo → Type 0
IsDistinct us = Distinct (inputs_of us)

-- The output is none of the listed ones.
abbrev IsFresh : OwnedUtxo → List OwnedUtxo → Type 0
IsFresh u us = All (λ v. outpoint_eq v.outpoint u.outpoint ≡ false) us

Fresh-inputs_of :
    (u : OwnedUtxo) (us : List OwnedUtxo) → IsFresh u us → Fresh (spends u) (inputs_of us)
unfolding inputs_of
Fresh-inputs_of u [] h = tt
Fresh-inputs_of u (v ∷ vs) (h, hs) = (h, Fresh-inputs_of u vs hs)

inputs_of-Fresh :
    (u : OwnedUtxo) (us : List OwnedUtxo) → Fresh (spends u) (inputs_of us) → IsFresh u us
unfolding inputs_of
inputs_of-Fresh u [] h = tt
inputs_of-Fresh u (v ∷ vs) (h, hs) = (h, inputs_of-Fresh u vs hs)

pub IsDistinct-filter_by :
    (keep : OwnedUtxo → Bool) (us : List OwnedUtxo) → IsDistinct us → IsDistinct (filter_by keep us)
unfolding filter_by inputs_of
IsDistinct-filter_by keep [] d = tt
IsDistinct-filter_by keep (u ∷ us) (f, d) =
    let rest = IsDistinct-filter_by keep us d in
    let fresh =
      Fresh-inputs_of u (filter_by keep us) (All-filter_by _ keep us (inputs_of-Fresh u us f)) in
    elim (Bool-cases (keep u)) [ inl h ↦ rw h (fresh, rest) | inr h ↦ rw h rest ]

IsDistinct-insert_by_amount :
    (u : OwnedUtxo) (us : List OwnedUtxo)
    → IsFresh u us
    → IsDistinct us
    → IsDistinct (insert_by_amount u us)
unfolding insert_by_amount inputs_of
IsDistinct-insert_by_amount u [] f d = (tt, tt)
IsDistinct-insert_by_amount u (v ∷ vs) (f, fs) (g, d) =
    let rest = IsDistinct-insert_by_amount u vs fs d in
    let fresh = Fresh-inputs_of v (insert_by_amount u vs) (
      All-insert_by_amount _ u vs (outpoint_eq-flip v.outpoint u.outpoint f)
        (inputs_of-Fresh v vs g)) in
    elim (Bool-cases (leb v.output.amount u.output.amount)) [
      | inl h ↦ rw h ((f, Fresh-inputs_of u vs fs), (g, d))
      | inr h ↦ rw h (fresh, rest)
    ]

pub IsDistinct-sort_by_amount :
    (us : List OwnedUtxo) → IsDistinct us → IsDistinct (sort_by_amount us)
unfolding sort_by_amount inputs_of
IsDistinct-sort_by_amount [] d = tt
IsDistinct-sort_by_amount (u ∷ us) (f, d) =
    IsDistinct-insert_by_amount u (sort_by_amount us)
      (All-sort_by_amount _ us (inputs_of-Fresh u us f)) (IsDistinct-sort_by_amount us d)

pub IsDistinct-select :
    (need total : ℕ) (us : List OwnedUtxo) → IsDistinct us → IsDistinct (select need total us).0
unfolding select inputs_of
IsDistinct-select need total [] d = tt
IsDistinct-select need total (u ∷ us) (f, d) =
    let total' = (total + u.output.amount) % u64_mod in
    let rest = IsDistinct-select need total' us d in
    let fresh =
      Fresh-inputs_of u (select need total' us).0
        (All-select _ need total' us (inputs_of-Fresh u us f)) in
    elim (Bool-cases (leb need total)) [
      | inl enough ↦ rw enough tt
      | inr more ↦ rw more (fresh, rest)
    ]

pub worth-filter_by :
    (keep : OwnedUtxo → Bool) (us : List OwnedUtxo) → worth (filter_by keep us) ≤ worth us
unfolding filter_by worth
worth-filter_by keep [] = omega arith
worth-filter_by keep (u ∷ us) = let h = worth-filter_by keep us in ground arith

worth-insert_by_amount :
    (u : OwnedUtxo) (us : List OwnedUtxo)
    → worth (insert_by_amount u us) ≡ u.output.amount + worth us
unfolding insert_by_amount worth
worth-insert_by_amount u [] = refl
worth-insert_by_amount u (v ∷ vs) = let h = worth-insert_by_amount u vs in ground arith

pub worth-sort_by_amount : (us : List OwnedUtxo) → worth (sort_by_amount us) ≡ worth us
unfolding sort_by_amount worth
worth-sort_by_amount [] = refl
worth-sort_by_amount (u ∷ us) =
    let h = worth-sort_by_amount us in
    let i = worth-insert_by_amount u (sort_by_amount us) in omega arith

-- The loop's total is exact, and unless it is enough every candidate has been selected.
pub select-worth :
    (need total : ℕ) (us : List OwnedUtxo)
    → total + worth us < u64_mod
    → ((select need total us).1 ≡ total + worth (select need total us).0)
      × ((need ≤ (select need total us).1) ⊎ ((select need total us).0 ≡ us))
unfolding select worth
select-worth need total [] h = (omega arith, inr refl)
select-worth need total (u ∷ us) h =
    let exact : (total + u.output.amount) % u64_mod ≡ total + u.output.amount = omega arith in
    let (e, c) = select-worth need ((total + u.output.amount) % u64_mod) us (omega arith) in
    elim (Bool-cases (leb need total)) [
      | inl enough ↦ (ground arith, inl (ground arith))
      | inr more ↦ (
        ground arith,
        elim c [ inl enough ↦ inl (ground arith) | inr all ↦ inr (rw more (ap (λ x. u ∷ x) all)) ],
      )
    ]

pub worth-select :
    (need total : ℕ) (us : List OwnedUtxo) → worth (select need total us).0 ≤ worth us
unfolding select worth
worth-select need total [] = omega arith
worth-select need total (u ∷ us) =
    let h = worth-select need ((total + u.output.amount) % u64_mod) us in ground arith
