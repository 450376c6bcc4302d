-- ===== src/Core/Encode.antt =====
-- crates/core/src/encode.rs: the canonical binary encoding. A `put_*` function is modelled by the
-- bytes that it appends to `out`, and a method of `Reader` by a function on the reader's state.
use summerpoem_cli.Prelude.{
  ℕ, zero, suc, ◌+◌, ◌-◌, ◌*◌, ◌/◌, ◌%◌, ◌^◌, ◌≡◌, Bool, true, false, List, [], ◌∷◌, ◌++◌, length,
  take, drop, ltb, ◌==◌, if◌then◌else◌,
}
use summerpoem_cli.Prelude.Result.{Result, ok, err}
use Prim.Native.String.{String}
pub mod Words
pub mod Reading

pub data DecodeError : Type 0 where
  eof : DecodeError
  invalid : String → DecodeError
  trailing : DecodeError

abbrev pub max_field_len : ℕ
max_field_len = 8 * 1024 * 1024

pub record Reader : Type 0 where
  pub buf : List ℕ
  pub pos : ℕ

-- `Reader::new`
abbrev pub new_reader : List ℕ → Reader
new_reader bytes = record { buf = bytes; pos = 0 }

unfoldable pub remaining : Reader → ℕ
remaining r = length r.buf - r.pos

-- A method that takes `&mut self` and may fail.
abbrev pub Parser : Type 0 → Type 0
Parser A = Reader → Result DecodeError (A × Reader)

infixl 5 ◌>>=◌
unfoldable pub ◌>>=◌ : {A B : Type 0} → Parser A → (A → Parser B) → Parser B
◌>>=◌ m f r = elim (m r) [ ok (a, r') ↦ f a r' | err e ↦ err e ]

unfoldable pub pure : {A : Type 0} → A → Parser A
pure a r = ok (a, r)

unfoldable pub fail : {A : Type 0} → DecodeError → Parser A
fail e r = err e

-- A little-endian number: `from_le_bytes`, and `to_le_bytes` at a width of `n` bytes.
unfoldable pub le_value : List ℕ → ℕ
le_value [] = 0
le_value (b ∷ bs) = b + 256 * le_value bs

unfoldable pub le_bytes : ℕ → ℕ → List ℕ
le_bytes zero v = []
le_bytes (suc n) v = (v % 256) ∷ le_bytes n (v / 256)

unfoldable pub read_bytes : ℕ → Parser (List ℕ)
unfolding remaining
read_bytes n r =
    if ltb (remaining r) n
    then err eof
    else ok (take n (drop r.pos r.buf), record r { pos = r.pos + n })

-- The slice has `n` bytes, so the conversion into an array does not fail.
unfoldable pub read_array : ℕ → Parser (List ℕ)
unfolding read_bytes
read_array n = read_bytes n

-- Index 0 of a slice of one byte.
unfoldable pub first_byte : List ℕ → ℕ
first_byte [] = 0
first_byte (b ∷ bs) = b

unfoldable pub read_u8 : Parser ℕ
read_u8 = do b ← read_bytes 1; pure (first_byte b)

unfoldable pub read_u32 : Parser ℕ
read_u32 = do b ← read_array 4; pure (le_value b)

unfoldable pub read_u64 : Parser ℕ
read_u64 = do b ← read_array 8; pure (le_value b)

unfoldable pub read_vec : Parser (List ℕ)
read_vec = do
  n ← read_u32
  if ltb max_field_len n then fail (invalid "field length exceeds maximum") else read_bytes n

unfoldable pub read_count : ℕ → Parser ℕ
read_count max = do
  n ← read_u32
  if ltb max n then fail (invalid "count exceeds maximum") else pure n

-- `for _ in 0..n { items.push(item(r)?) }`
unfoldable pub read_many : {A : Type 0} → ℕ → Parser A → Parser (List A)
read_many zero item = pure []
read_many (suc n) item = do x ← item; xs ← read_many n item; pure (x ∷ xs)

unfoldable pub finish : Reader → Result DecodeError (Unit {0})
unfolding remaining
finish r = if remaining r == 0 then ok tt else err trailing

unfoldable pub put_u8 : ℕ → List ℕ
put_u8 v = v ∷ []

unfoldable pub put_u32 : ℕ → List ℕ
unfolding le_bytes
put_u32 v = le_bytes 4 v

unfoldable pub put_u64 : ℕ → List ℕ
unfolding le_bytes
put_u64 v = le_bytes 8 v

-- `v.len() as u32` keeps the low 32 bits.
unfoldable pub put_vec : List ℕ → List ℕ
put_vec v = put_u32 (length v % 2 ^ 32) ++ v
