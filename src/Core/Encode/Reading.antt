-- ===== src/Core/Encode/Reading.antt =====
-- Reading back what was written: for each read, the bytes that it takes and what it makes of them.
use summerpoem_cli.Prelude.{
  ℕ, ◌+◌, ◌%◌, ◌^◌, ◌≤◌, ◌<◌, ◌≡◌, refl, sym, ap, ◌∙◌, arith, List, [], ◌∷◌, ◌++◌, length, drop,
  ltb, All, take-append_length, drop-append_length, drop-drop, length-drop, length-append, false,
}
use mathlib.Core.Path.{subst}
use mathlib.Core.List.{append-nil, append_assoc}
use summerpoem_cli.Prelude.Result.{ok}
use summerpoem_cli.Core.Encode.{
  Reader, Parser, ◌>>=◌, pure, remaining, read_bytes, read_array, read_u8, read_u32, read_u64,
  read_vec, read_count, read_many, put_u8, put_u32, put_u64, put_vec, max_field_len, le_value,
  le_bytes, first_byte,
}
use summerpoem_cli.Core.Encode.Words.{length-le_bytes, le_value-le_bytes}

-- The bytes that a reader has not reached.
abbrev pub unread : Reader → List ℕ
unread r = drop r.pos r.buf

-- On input that begins with `bs` the read takes exactly `bs` and returns `a`.
pub record Reads {A : Type 0} (d : Parser A) (bs : List ℕ) (a : A) : Type 0 where
  pub run :
      (r : Reader) (rest : List ℕ)
      → unread r ≡ bs ++ rest
      → (r' : Reader) × (d r ≡ ok (a, r')) × (unread r' ≡ rest)

pub Reads-pure : {A : Type 0} (a : A) → Reads (pure a) [] a
unfolding pure
Reads-pure a = record { run = λ r rest h. (r, refl, h) }

pub Reads->>= :
    {A B : Type 0} {d : Parser A} (f : A → Parser B) {bs cs : List ℕ} {a : A} {b : B}
    → Reads d bs a
    → Reads (f a) cs b
    → Reads (d >>= f) (bs ++ cs) b
unfolding ◌>>=◌
Reads->>= f {bs = bs} {cs = cs} p q = record {
  run = λ r rest h.
      let (r', e, u) = p.run r (cs ++ rest) (h ∙ append_assoc bs cs rest) in
      let (r'', e', u') = q.run r' rest u in (r'', rw (e, ◌>>=◌) e', u');
}

-- A step that takes no input, at the end of a chain.
pub Reads-silent :
    {A B : Type 0} {d : Parser A} (f : A → Parser B) {bs : List ℕ} {a : A} {b : B}
    → Reads d bs a
    → Reads (f a) [] b
    → Reads (d >>= f) bs b
Reads-silent {d = d} f {bs = bs} {b = b} p q =
    subst (λ l. Reads (d >>= f) l b) (append-nil bs) (Reads->>= f p q)

-- The last read of a chain, whose value is put into a constructor.
pub Reads-last :
    {A B : Type 0} {d : Parser A} (f : A → B) {bs : List ℕ} {a : A}
    → Reads d bs a
    → Reads (d >>= (λ x. pure (f x))) bs (f a)
Reads-last f p = Reads-silent _ p (Reads-pure _)

enough :
    (r : Reader) (bs rest : List ℕ) → unread r ≡ bs ++ rest → ltb (remaining r) (length bs) ≡ false
unfolding remaining
enough r bs rest h =
    ground (arith, length-drop r.pos r.buf, ap (λ l. length l) h, length-append bs rest)

pub Reads-bytes : (bs : List ℕ) → Reads (read_bytes (length bs)) bs bs
unfolding read_bytes
Reads-bytes bs = record {
  run = λ r rest h. (
    record r { pos = r.pos + length bs },
    rw (enough r bs rest h, h, take-append_length) refl,
    sym (drop-drop r.pos (length bs) r.buf) ∙ ap (drop (length bs)) h ∙ drop-append_length bs rest,
  );
}

pub Reads-array : (n : ℕ) (bs : List ℕ) → length bs ≡ n → Reads (read_array n) bs bs
unfolding read_array
Reads-array n bs h = rw (← h) (Reads-bytes bs)

pub Reads-u8 : (v : ℕ) → Reads read_u8 (put_u8 v) v
unfolding read_u8 put_u8 first_byte
Reads-u8 v = Reads-last first_byte (Reads-bytes (v ∷ []))

pub Reads-word :
    (n v : ℕ) → v < 256 ^ n → Reads (read_array n >>= λ b. pure (le_value b)) (le_bytes n v) v
Reads-word n v h =
    subst (λ k. Reads (read_array n >>= λ b. pure (le_value b)) (le_bytes n v) k)
      (le_value-le_bytes n v h)
      (Reads-last le_value (Reads-array n (le_bytes n v) (length-le_bytes n v)))

pub Reads-u32 : (v : ℕ) → v < 2 ^ 32 → Reads read_u32 (put_u32 v) v
unfolding read_u32 put_u32
Reads-u32 v h = Reads-word 4 v (omega arith)

pub Reads-u64 : (v : ℕ) → v < 2 ^ 64 → Reads read_u64 (put_u64 v) v
unfolding read_u64 put_u64
Reads-u64 v h = Reads-word 8 v (omega arith)

-- A length that is at most a bound below 2 ^ 32 is written whole.
whole_length : (n max : ℕ) → n ≤ max → max < 2 ^ 32 → n % 2 ^ 32 ≡ n
whole_length n max h m = omega arith

within : (n max : ℕ) → n ≤ max → ltb max n ≡ false
within n max h = ground arith

pub Reads-vec : (v : List ℕ) → length v ≤ max_field_len → Reads read_vec (put_vec v) v
unfolding read_vec put_vec
Reads-vec v h =
    let n : length v % 2 ^ 32 ≡ length v = whole_length _ max_field_len h (omega arith) in
    Reads->>= _ (Reads-u32 (length v % 2 ^ 32) (omega arith))
      (rw (n, within (length v) max_field_len h) (Reads-bytes v))

pub Reads-count :
    (n max : ℕ) → n ≤ max → max < 2 ^ 32 → Reads (read_count max) (put_u32 (n % 2 ^ 32)) n
unfolding read_count
Reads-count n max h m =
    Reads-silent _ {a = n} (rw (whole_length n max h m) (Reads-u32 n (omega arith)))
      (rw (within n max h) (Reads-pure n))

-- A loop of reads takes the concatenated encodings of its items.
abbrev pub concat_map : {A : Type 0} → (A → List ℕ) → List A → List ℕ
concat_map f [] = []
concat_map f (x ∷ xs) = f x ++ concat_map f xs

pub Reads-many :
    {A : Type 0} (item : Parser A) (encode : A → List ℕ) (P : A → Type 0)
    → ((a : A) → P a → Reads item (encode a) a)
    → (xs : List A) → All P xs
    → Reads (read_many (length xs) item) (concat_map encode xs) xs
unfolding read_many
Reads-many item encode P each [] h = Reads-pure []
Reads-many item encode P each (x ∷ xs) (hx, hxs) =
    Reads->>= _ (each x hx) (Reads-last (λ ys. x ∷ ys) (Reads-many item encode P each xs hxs))
