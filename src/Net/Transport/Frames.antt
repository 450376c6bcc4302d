-- ===== src/Net/Transport/Frames.antt =====
-- What arrives over an encrypted connection on which nobody interferes.
use summerpoem_cli.Prelude.{
  ℕ, ◌+◌, ◌-◌, ◌%◌, ◌^◌, ◌≤◌, ◌<◌, ◌≡◌, refl, ap, ◌∙◌, arith, true, false, Bool, none, some, List,
  [], ◌++◌, length, ltb, length-append, take-append_length, drop-append_length,
}
use Prim.Native.String.{String}
use mathlib.Core.List.{append_assoc}
use summerpoem_cli.Prelude.Result.{Result, ok}
use summerpoem_cli.Core.Encode.{le_value, le_bytes, put_u32}
use summerpoem_cli.Core.Encode.Words.{length-le_bytes, le_value-le_bytes}
use summerpoem_cli.Net.Transport.{
  IoError, Io, Aead, Stream, SecureReader, SecureWriter, max_frame, nonce_for, next_counter,
  write_all, write_frame, send, after_send, is_bad_length, read_exact, read_frame, refuse_if, ◌>>=◌,
  ◌>>◌, after_recv, recv,
}

-- The cipher as documented: it encrypts what is not too long, adds a tag of 16 bytes, and decrypts
-- what it encrypted.
pub record IsAead (aead : Aead) : Type 0 where
  pub encrypts :
      (key nonce plain : List ℕ)
      → length plain ≤ max_frame
      → (ct : List ℕ) × (aead.encrypt key nonce plain ≡ some ct)
        × (length ct ≡ length plain + 16)
        × (aead.decrypt key nonce ct ≡ some plain)

abbrev pub frame_of : List ℕ → List ℕ
frame_of ct = put_u32 (length ct % 2 ^ 32) ++ ct

-- A step of a chain that succeeds.
pub >>=-steps :
    {A B : Type 0} (m : Io A) (f : A → Io B) (s : Stream) {s' : Stream} {a : A}
    {r : Result IoError (B × Stream)}
    → m s ≡ ok (a, s')
    → f a s' ≡ r
    → (m >>= f) s ≡ r
unfolding ◌>>=◌
>>=-steps m f s h k = rw (h, ◌>>=◌) k

pub >>-steps :
    {B : Type 0} (m : Io (Unit {0})) (k : Io B) (s : Stream) {s' : Stream}
    {r : Result IoError (B × Stream)}
    → m s ≡ ok (tt, s')
    → k s' ≡ r
    → (m >> k) s ≡ r
unfolding ◌>>◌
>>-steps m k s h g = >>=-steps m (λ _. k) s h g

pub refuse_if-false :
    (b : Bool) (text : String) (s : Stream) → b ≡ false → refuse_if b text s ≡ ok (tt, s)
unfolding refuse_if
refuse_if-false true text s h = cc
refuse_if-false false text s h = refl

-- A stream on which the bytes were written.
abbrev pub wrote : List ℕ → Stream → Stream
wrote bs s = record s { outgoing = s.outgoing ++ bs; room = s.room - length bs }

pub write_all-wrote :
    (bs : List ℕ) (s : Stream) → length bs ≤ s.room → write_all bs s ≡ ok (tt, wrote bs s)
unfolding write_all
write_all-wrote bs s h = let e : ltb s.room (length bs) ≡ false = ground arith in rw e refl

pub read_exact-append :
    (bs rest : List ℕ) (s : Stream)
    → s.incoming ≡ bs ++ rest
    → read_exact (length bs) s ≡ ok (bs, record s { incoming = rest })
unfolding read_exact
read_exact-append bs rest s h =
    let e : ltb (length (bs ++ rest)) (length bs) ≡ false = ground (arith, length-append bs rest) in
    rw (h, e, take-append_length, drop-append_length) refl

pub read_exact-field :
    (n : ℕ) (bs rest : List ℕ) (s : Stream)
    → length bs ≡ n
    → s.incoming ≡ bs ++ rest
    → read_exact n s ≡ ok (bs, record s { incoming = rest })
read_exact-field n bs rest s l h = rw (← l) (read_exact-append bs rest s h)

pub length-frame_of : (ct : List ℕ) → length (frame_of ct) ≡ 4 + length ct
unfolding put_u32
length-frame_of ct =
    length-append (le_bytes 4 (length ct % 2 ^ 32)) ct
    ∙ ap (λ n. n + length ct) (length-le_bytes 4 (length ct % 2 ^ 32))

pub write_frame-wrote :
    (ct : List ℕ) (s : Stream)
    → 4 + length ct ≤ s.room
    → write_frame ct s ≡ ok (tt, wrote ct (wrote (put_u32 (length ct % 2 ^ 32)) s))
unfolding write_frame put_u32
write_frame-wrote ct s h =
    let l = length-le_bytes 4 (length ct % 2 ^ 32) in
    >>-steps (write_all (le_bytes 4 (length ct % 2 ^ 32))) (write_all ct) s
      (write_all-wrote (le_bytes 4 (length ct % 2 ^ 32)) s (omega arith))
      (write_all-wrote ct (wrote (le_bytes 4 (length ct % 2 ^ 32)) s) (omega arith))

pub read_frame-frame_of :
    (ct rest : List ℕ) (s : Stream)
    → is_bad_length (length ct) ≡ false
    → length ct < 2 ^ 32
    → s.incoming ≡ frame_of ct ++ rest
    → read_frame s ≡ ok (ct, record s { incoming = rest })
unfolding read_frame put_u32 refuse_if
read_frame-frame_of ct rest s b l h =
    let v : le_value (le_bytes 4 (length ct % 2 ^ 32)) ≡ length ct =
      le_value-le_bytes 4 (length ct % 2 ^ 32) (omega arith) ∙ omega arith in
    let e =
      read_exact-field 4 (le_bytes 4 (length ct % 2 ^ 32)) (ct ++ rest) s
        (length-le_bytes 4 (length ct % 2 ^ 32))
        (h ∙ append_assoc (le_bytes 4 (length ct % 2 ^ 32)) ct rest) in
    >>=-steps (read_exact 4) _ s e (
      rw v (
        >>-steps (refuse_if (is_bad_length (length ct)) "invalid frame length")
          (read_exact (length ct)) (record s { incoming = ct ++ rest }) (refuse_if-false _ _ _ b)
          (read_exact-append ct rest (record s { incoming = ct ++ rest }) refl)))

abbrev pub ciphertext : Aead → List ℕ → ℕ → List ℕ → List ℕ
ciphertext aead key counter plain = elim (aead.encrypt key (nonce_for counter) plain) [
  | some ct ↦ ct
  | none ↦ []
]

-- A cipher's plaintext that is not too long is sent as one frame and received as it was.
pub record Travels (aead : Aead) (w : SecureWriter) (plain : List ℕ) : Type 0 where
  pub frame : List ℕ
  pub frame_is : frame ≡ frame_of (ciphertext aead w.key w.counter plain)
  pub after : SecureWriter
  pub sent : send aead w plain ≡ ok after
  pub appended : after.stream.outgoing ≡ w.stream.outgoing ++ frame
  pub room_left : after.stream.room + (length plain + 20) ≡ w.stream.room
  pub counted : after.counter ≡ next_counter w.counter
  pub key_kept : after.key ≡ w.key
  pub arrives :
      (s : Stream) (rest : List ℕ)
      → s.incoming ≡ frame ++ rest
      → recv aead (record { stream = s; key = w.key; counter = w.counter })
        ≡ ok (
          plain,
          record {
            stream = record s { incoming = rest };
            key = w.key;
            counter = next_counter w.counter;
          },
        )

after_recv-ok :
    (aead : Aead) (r : SecureReader) (s : Stream) (ct plain : List ℕ)
    → aead.decrypt r.key (nonce_for r.counter) ct ≡ some plain
    → after_recv aead r (ok (ct, s))
      ≡ ok (plain, record r { stream = s; counter = next_counter r.counter })
unfolding after_recv
after_recv-ok aead r s ct plain h = rw (h, after_recv) refl

pub send-Travels :
    (aead : Aead) (laws : IsAead aead) (w : SecureWriter) (plain : List ℕ)
    → length plain ≤ max_frame
    → length plain + 20 ≤ w.stream.room
    → Travels aead w plain
unfolding send recv after_send is_bad_length
send-Travels aead laws w plain h room =
    let (ct, e, l, d) = laws.encrypts w.key (nonce_for w.counter) plain h in
    let g : is_bad_length (length ct) ≡ false = ground arith in
    let head = length-le_bytes 4 (length ct % 2 ^ 32) in
    record {
      frame = frame_of ct;
      frame_is = ap frame_of (rw (e, ciphertext) refl);
      after = record w {
        stream = wrote ct (wrote (put_u32 (length ct % 2 ^ 32)) w.stream);
        counter = next_counter w.counter;
      };
      sent = rw (e, send, write_frame-wrote ct w.stream (omega arith)) refl;
      appended = append_assoc w.stream.outgoing (put_u32 (length ct % 2 ^ 32)) ct;
      room_left = unfold put_u32 in omega arith;
      counted = refl;
      key_kept = refl;
      arrives = λ s rest k. rw (read_frame-frame_of ct rest s g (omega arith) k) (
          after_recv-ok aead (record { stream = s; key = w.key; counter = w.counter })
            (record s { incoming = rest }) ct plain d);
    }
