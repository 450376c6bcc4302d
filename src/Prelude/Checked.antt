-- ===== src/Prelude/Checked.antt =====
-- Arithmetic on u64: `checked_add` and `saturating_sub`.
use Prim.Native.Nat.{ℕ, ◌+◌, ◌^◌, ◌<◌}
use mathlib.Core.Path.{◌≡◌}
use mathlib.Core.Option.{Option, none, some}
use native.Mathlib.Omega.{arith}
use summerpoem_cli.Prelude.Tests.{ltb, if◌then◌else◌}

abbrev pub u64_mod : ℕ
u64_mod = 2 ^ 64

unfoldable pub checked_add : ℕ → ℕ → Option ℕ
checked_add a b = if ltb (a + b) u64_mod then some (a + b) else none

-- A sum that is returned is exact and fits.
pub checked_add-eq-some : (a b : ℕ) {c : ℕ} → checked_add a b ≡ some c → (c ≡ a + b) × (c < u64_mod)
unfolding checked_add
checked_add-eq-some a b h = ground arith
