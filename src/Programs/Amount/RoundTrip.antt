-- ===== src/Programs/Amount/RoundTrip.antt =====
-- An amount is read back from its text.
use summerpoem_cli.Prelude.{
  ℕ, zero, suc, ◌+◌, ◌-◌, ◌*◌, ◌/◌, ◌%◌, ◌^◌, ◌<◌, ◌≡◌, refl, ap, ◌∙◌, arith, inl, inr, true, false,
  some, List, [], ◌∷◌, ◌++◌, length, replicate, ltb, ◌==◌, ◌&&◌, All, length-append, Bool-cases,
}
use mathlib.Core.List.{append-nil}
use native.Mathlib.Nat.{pow-suc}
use summerpoem_cli.Prelude.Result.{ok, ◌>>=◌, ◌>>◌, refuse_if, ok_or}
use summerpoem_cli.Prelude.Checked.{u64_mod, checked_add}
use summerpoem_cli.Core.Emission.{coin}
use summerpoem_cli.Programs.Amount.{
  bad_amount, zero_char, dot, plus, digits_from, decimal, padded, format_sump, is_digit,
  parse_digits, parse_some, parse_u64, split_dot, parse_whole, parse_frac, checked_mul,
  amount_of_parts, parse_sump,
}

parse_digits-append :
    (acc : ℕ) (xs ys : List ℕ) {v : ℕ}
    → parse_digits acc xs ≡ some v
    → parse_digits acc (xs ++ ys) ≡ parse_digits v ys
unfolding parse_digits
parse_digits-append acc [] ys h = let e : acc ≡ _ = cc in rw e refl
parse_digits-append acc (x ∷ xs) ys h =
    elim (Bool-cases (is_digit x && ltb (acc * 10 + (x - zero_char)) u64_mod)) [
      | inl e ↦ rw e (parse_digits-append (acc * 10 + (x - zero_char)) xs ys (rw e at h))
      | inr e ↦ absurd (let k = rw e at h in cc)
    ]

last-digit :
    (acc d : ℕ)
    → d < 10
    → acc * 10 + d < u64_mod
    → parse_digits acc ((zero_char + d) ∷ []) ≡ some (acc * 10 + d)
unfolding parse_digits is_digit
last-digit acc d h b = ground arith

pub parse_digits-padded :
    (width n : ℕ) → n < 10 ^ width → n < u64_mod → parse_digits 0 (padded width n) ≡ some n
unfolding parse_digits padded
parse_digits-padded zero n h b = ap some (omega arith)
parse_digits-padded (suc width) n h b =
    let h' : n < 10 ^ width * 10 = rw pow-suc at h in
    let front = parse_digits-padded width (n / 10) (omega arith) (omega arith) in
    parse_digits-append 0 (padded width (n / 10)) _ front
    ∙ last-digit (n / 10) (n % 10) (omega arith) (omega arith)
    ∙ ap some (omega arith)

pub parse_digits-digits_from :
    (fuel n : ℕ) → n < 10 ^ (suc fuel) → n < u64_mod → parse_digits 0 (digits_from fuel n) ≡ some n
unfolding parse_digits digits_from
parse_digits-digits_from zero n h b =
    last-digit 0 (n % 10) (omega arith) (omega arith) ∙ ap some (omega arith)
parse_digits-digits_from (suc fuel) n h b = elim (Bool-cases (ltb n 10)) [
  | inl e ↦ rw e (last-digit 0 (n % 10) (omega arith) (omega arith) ∙ ap some (ground arith))
  | inr e ↦
      let h' : n < 10 ^ suc fuel * 10 = rw pow-suc at h in
      let front = parse_digits-digits_from fuel (n / 10) (omega arith) (omega arith) in
      rw e (
        parse_digits-append 0 (digits_from fuel (n / 10)) _ front
        ∙ last-digit (n / 10) (n % 10) (omega arith) (omega arith)
        ∙ ap some (omega arith))
]

-- The first of some digits is no plus sign.
parse_u64-digits :
    (s : List ℕ) {v : ℕ} → 0 < length s → parse_digits 0 s ≡ some v → parse_u64 s ≡ some v
unfolding parse_u64 parse_some parse_digits is_digit
parse_u64-digits [] n h = absurd (omega arith)
parse_u64-digits (c ∷ cs) n h = elim (Bool-cases (c == plus)) [
  | inl e ↦
      let bad : (is_digit c && ltb (0 * 10 + (c - zero_char)) u64_mod) ≡ false = ground arith in
      absurd (let k = rw bad at h in cc)
  | inr e ↦ rw e h
]

abbrev NoDot : List ℕ → Type 0
NoDot s = All (λ c. (c == dot) ≡ false) s

NoDot-append : (xs ys : List ℕ) → NoDot xs → NoDot ys → NoDot (xs ++ ys)
NoDot-append [] ys h k = k
NoDot-append (x ∷ xs) ys (h, hs) k = (h, NoDot-append xs ys hs k)

digit-NoDot : (d : ℕ) → NoDot ((zero_char + d) ∷ [])
digit-NoDot d = (ground arith, tt)

digits_from-NoDot : (fuel n : ℕ) → NoDot (digits_from fuel n)
unfolding digits_from
digits_from-NoDot zero n = digit-NoDot (n % 10)
digits_from-NoDot (suc fuel) n = elim (Bool-cases (ltb n 10)) [
  | inl e ↦ rw e (digit-NoDot (n % 10))
  | inr e ↦ rw e (
      NoDot-append (digits_from fuel (n / 10)) ((zero_char + n % 10) ∷ [])
        (digits_from-NoDot fuel (n / 10)) (digit-NoDot (n % 10)))
]

split_dot-append : (xs ys : List ℕ) → NoDot xs → split_dot (xs ++ (dot ∷ ys)) ≡ (xs, ys)
unfolding split_dot
split_dot-append [] ys h = refl
split_dot-append (x ∷ xs) ys (h, hs) = rw (h, split_dot-append xs ys hs) refl

length-padded : (width n : ℕ) → length (padded width n) ≡ width
unfolding padded
length-padded zero n = refl
length-padded (suc width) n =
    length-append (padded width (n / 10)) ((zero_char + n % 10) ∷ [])
    ∙ ap (λ l. l + 1) (length-padded width (n / 10))
    ∙ omega arith

length-digits_from : (fuel n : ℕ) → 0 < length (digits_from fuel n)
unfolding digits_from
length-digits_from zero n = omega arith
length-digits_from (suc fuel) n = elim (Bool-cases (ltb n 10)) [
  | inl e ↦ rw e (omega arith)
  | inr e ↦
      rw e (omega (arith, length-append (digits_from fuel (n / 10)) ((zero_char + n % 10) ∷ [])))
]

parse_whole-some : (s : List ℕ) {v : ℕ} → 0 < length s → parse_u64 s ≡ some v → parse_whole s ≡ ok v
unfolding parse_whole ok_or
parse_whole-some [] n h = absurd (omega arith)
parse_whole-some (c ∷ cs) n h = rw h refl

parse_frac-some : (s : List ℕ) {v : ℕ} → length s ≡ 8 → parse_u64 s ≡ some v → parse_frac s ≡ ok v
unfolding parse_frac ok_or
parse_frac-some [] n h = absurd (omega arith)
parse_frac-some (c ∷ cs) n h =
    let none_left : 8 - length (c ∷ cs) ≡ 0 = omega arith in
    let pad : (c ∷ cs) ++ replicate (8 - length (c ∷ cs)) zero_char ≡ c ∷ cs =
      rw none_left (append-nil (c ∷ cs)) in
    ap (λ t. ok_or (parse_u64 t) bad_amount) pad ∙ ap (λ o. ok_or o bad_amount) h

amount_of_parts-ok : (n : ℕ) → n < u64_mod → amount_of_parts (n / coin) (n % coin) ≡ ok n
unfolding amount_of_parts checked_mul checked_add ok_or
amount_of_parts-ok n h =
    let a : ltb (n / coin * coin) u64_mod ≡ true = ground arith in
    let b : ltb (n / coin * coin + n % coin) u64_mod ≡ true = ground arith in
    rw (a, amount_of_parts, b, checked_add) (ap ok (omega arith))

-- The text that either program prints for an amount is read back as that amount, for every u64.
pub parse_sump-format_sump : (n : ℕ) → n < u64_mod → parse_sump (format_sump n) ≡ ok n
unfolding parse_sump format_sump decimal refuse_if ◌>>=◌ ◌>>◌
parse_sump-format_sump n h =
    let w = digits_from 19 (n / coin) in
    let f = padded 8 (n % coin) in
    let split = split_dot-append w f (digits_from-NoDot 19 (n / coin)) in
    let lw = length-digits_from 19 (n / coin) in
    let lf = length-padded 8 (n % coin) in
    let pw =
      parse_u64-digits w lw (parse_digits-digits_from 19 (n / coin) (omega arith) (omega arith)) in
    let pf =
      parse_u64-digits f (omega (arith, lf))
        (parse_digits-padded 8 (n % coin) (omega arith) (omega arith)) in
    rw (split, parse_whole-some w lw pw, parse_frac-some f lf pf) (amount_of_parts-ok n h)
