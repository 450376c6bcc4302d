-- ===== src/Programs/Amount.antt =====
-- `format_sump` and `parse_sump` of crates/cli/src/main.rs, and their copies in
-- crates/wallet-cli/src/main.rs. A text is its bytes; `Display` and `FromStr` of u64 and the padding
-- of `{:08}` and `{:0<8}` are written out.
use summerpoem_cli.Prelude.{
  ℕ, zero, suc, ◌+◌, ◌-◌, ◌*◌, ◌/◌, ◌%◌, ◌<◌, Bool, Option, none, some, List, [], ◌∷◌, ◌++◌, length,
  replicate, ltb, leb, ◌==◌, ◌&&◌, if◌then◌else◌,
}
use summerpoem_cli.Prelude.Result.{Result, ok, err, ◌>>=◌, ◌>>◌, refuse_if, ok_or}
use summerpoem_cli.Prelude.Checked.{u64_mod, checked_add}
use summerpoem_cli.Core.Emission.{coin}
pub mod RoundTrip

pub data AmountError : Type 0 where
  too_many_places bad_amount amount_overflow : AmountError

abbrev pub zero_char : ℕ
zero_char = 48

abbrev pub dot : ℕ
dot = 46

abbrev pub plus : ℕ
plus = 43

-- The decimal digits of a number, with at most one more of them than the fuel: 19 is enough for u64.
unfoldable pub digits_from : ℕ → ℕ → List ℕ
digits_from zero n = (zero_char + n % 10) ∷ []
digits_from (suc fuel) n =
    let rest = digits_from fuel (n / 10) in
    let last = zero_char + n % 10 in if ltb n 10 then last ∷ [] else rest ++ (last ∷ [])

unfoldable pub decimal : ℕ → List ℕ
decimal n = digits_from 19 n

-- The last `width` digits, with zeros in front: `{:08}` of a number of at most 8 digits.
unfoldable pub padded : ℕ → ℕ → List ℕ
padded zero n = []
padded (suc width) n = padded width (n / 10) ++ ((zero_char + n % 10) ∷ [])

unfoldable pub format_sump : ℕ → List ℕ
unfolding decimal padded
format_sump stanzas = decimal (stanzas / coin) ++ (dot ∷ padded 8 (stanzas % coin))

unfoldable pub is_digit : ℕ → Bool
is_digit c = leb zero_char c && leb c 57

-- The digits of a u64 after those of `acc`.
unfoldable pub parse_digits : ℕ → List ℕ → Option ℕ
unfolding is_digit
parse_digits acc [] = some acc
parse_digits acc (c ∷ cs) =
    let v = acc * 10 + (c - zero_char) in
    let rest = parse_digits v cs in if is_digit c && ltb v u64_mod then rest else none

unfoldable pub parse_some : List ℕ → Option ℕ
unfolding parse_digits
parse_some [] = none
parse_some (c ∷ cs) = parse_digits 0 (c ∷ cs)

-- `str::parse::<u64>`, which takes a plus sign before the digits.
unfoldable pub parse_u64 : List ℕ → Option ℕ
unfolding parse_some
parse_u64 [] = none
parse_u64 (c ∷ cs) = if c == plus then parse_some cs else parse_some (c ∷ cs)

-- `split_once('.')`, with the whole text and the empty one where there is no dot.
unfoldable pub split_dot : List ℕ → List ℕ × List ℕ
split_dot [] = ([], [])
split_dot (c ∷ cs) =
    let (whole, frac) = split_dot cs in if c == dot then ([], cs) else (c ∷ whole, frac)

unfoldable pub parse_whole : List ℕ → Result AmountError ℕ
unfolding parse_u64
parse_whole [] = ok 0
parse_whole (c ∷ cs) = ok_or (parse_u64 (c ∷ cs)) bad_amount

-- With the padding of `{frac:0<8}`.
unfoldable pub parse_frac : List ℕ → Result AmountError ℕ
unfolding parse_u64
parse_frac [] = ok 0
parse_frac (c ∷ cs) =
    ok_or (parse_u64 ((c ∷ cs) ++ replicate (8 - length (c ∷ cs)) zero_char)) bad_amount

unfoldable pub checked_mul : ℕ → ℕ → Option ℕ
checked_mul a b = if ltb (a * b) u64_mod then some (a * b) else none

unfoldable pub amount_of_parts : ℕ → ℕ → Result AmountError ℕ
unfolding checked_mul
amount_of_parts whole frac = elim (checked_mul whole coin) [
  | none ↦ err amount_overflow
  | some w ↦ ok_or (checked_add w frac) amount_overflow
]

unfoldable pub parse_sump : List ℕ → Result AmountError ℕ
unfolding split_dot parse_whole parse_frac amount_of_parts
parse_sump s =
    let (whole, frac) = split_dot s in
    do
      refuse_if (ltb 8 (length frac)) too_many_places
      w ← parse_whole whole
      f ← parse_frac frac
      amount_of_parts w f
