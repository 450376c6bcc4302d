-- ===== src/Wallet/Balances.antt =====
-- What the two balances are.
use summerpoem_cli.Prelude.{
  ℕ, ◌+◌, ◌-◌, ◌%◌, ◌≤◌, ◌<◌, ◌≡◌, refl, arith, List, [], ◌∷◌, not, if◌then◌else◌,
}
use summerpoem_cli.Prelude.Lists.{filter_by}
use summerpoem_cli.Prelude.Checked.{u64_mod}
use summerpoem_cli.Wallet.{OwnedUtxo, spendable, add_balances, balances}
use summerpoem_cli.Wallet.Select.{worth}

module _ (next_height maturity : ℕ) where
  add_balances-worth :
      (utxos : List OwnedUtxo) (s total : ℕ)
      → s ≤ total
      → total + worth utxos < u64_mod
      → ((add_balances next_height maturity utxos s total).0
          ≡ s + worth (filter_by (λ u. spendable u next_height maturity) utxos))
        × ((add_balances next_height maturity utxos s total).1 ≡ total + worth utxos)
  unfolding add_balances worth filter_by
  add_balances-worth [] s total l b = (omega arith, omega arith)
  add_balances-worth (u ∷ utxos) s total l b =
      let s' = if spendable u next_height maturity then (s + u.output.amount) % u64_mod else s in
      let total' = (total + u.output.amount) % u64_mod in
      let (e, f) = add_balances-worth utxos s' total' (ground arith) (omega arith) in
      (ground arith, omega arith)

  worth-split :
      (utxos : List OwnedUtxo)
      → worth (filter_by (λ u. spendable u next_height maturity) utxos)
          + worth (filter_by (λ u. not (spendable u next_height maturity)) utxos)
        ≡ worth utxos
  unfolding worth filter_by
  worth-split [] = refl
  worth-split (u ∷ utxos) = let h = worth-split utxos in ground arith

  -- The balances of outputs that are worth less than 2 ^ 64 together are what the spendable ones are
  -- worth, and what the others are worth.
  pub balances-worth :
      (utxos : List OwnedUtxo)
      → worth utxos < u64_mod
      → balances utxos next_height maturity ≡ (
        worth (filter_by (λ u. spendable u next_height maturity) utxos),
        worth (filter_by (λ u. not (spendable u next_height maturity)) utxos),
      )
  unfolding balances
  balances-worth utxos b =
      let (e, f) = add_balances-worth utxos 0 0 (omega arith) (omega arith) in
      let parts = worth-split utxos in
      let first : (add_balances next_height maturity utxos 0 0).0
          ≡ worth (filter_by (λ u. spendable u next_height maturity) utxos) =
        omega arith in
      let second : ((add_balances next_height maturity utxos 0 0).1
              + (u64_mod - (add_balances next_height maturity utxos 0 0).0))
            % u64_mod
          ≡ worth (filter_by (λ u. not (spendable u next_height maturity)) utxos) =
        omega arith in
      rw (second, first) refl
