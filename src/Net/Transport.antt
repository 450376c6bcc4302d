-- ===== src/Net/Transport.antt =====
-- crates/net/src/transport.rs: the encrypted connection between two nodes. A `TcpStream` is the
-- bytes that are still to come from the peer, the bytes that were written to it, and the number of
-- bytes that it takes before the connection breaks; its timeouts and its delay option are left out.
-- The ML-KEM of the fips203 crate and the ChaCha20-Poly1305 of the chacha20poly1305 crate are the
-- records `Kem` and `Aead`, and the output of SHAKE-256 is the parameter `xof`.
use summerpoem_cli.Prelude.{
  ℕ, zero, suc, ◌+◌, ◌-◌, ◌*◌, ◌%◌, ◌^◌, ◌≡◌, Bool, true, false, ◌||◌, Option, none, some, List, [],
  ◌∷◌, ◌++◌, length, take, drop, replicate, get_elem?, ltb, leb, ◌==◌, not, if◌then◌else◌,
}
use summerpoem_cli.Prelude.Result.{Result, ok, err}
use summerpoem_cli.Prelude.Text.{bytes}
use summerpoem_cli.Prelude.Equality.{bytes_eq}
use summerpoem_cli.Prelude.Checked.{u64_mod}
use summerpoem_cli.Core.Encode.{le_bytes, le_value, put_u32}
use summerpoem_cli.Core.Hash.{shake256}
use summerpoem_cli.Net.Message.{Message, encode}
use Prim.Native.String.{String}
pub mod Frames
pub mod Delivery
pub mod Handshake
pub mod Session
pub mod Integrity

abbrev pub magic : List ℕ
magic = bytes "SUMPNET1"

abbrev pub transport_version : ℕ
transport_version = 2

abbrev pub max_frame : ℕ
max_frame = 8 * 1024 * 1024

abbrev pub ek_len : ℕ
ek_len = 1184

abbrev pub ct_len : ℕ
ct_len = 1088

-- `io::Error`: those of the socket, and the program's own by their text.
pub data IoError : Type 0 where
  unexpected_eof write_zero : IoError
  other : String → IoError

-- The fips203 crate's ML-KEM-768. What is random is an argument; keys and ciphertexts are bytes.
pub record Kem : Type 0 where
  -- `try_keygen`: the encapsulation key and the decapsulation key
  pub keygen : List ℕ → Option (List ℕ × List ℕ)
  -- `EncapsKey::try_from_bytes` and `CipherText::try_from_bytes` accept the bytes
  pub is_encaps_key : List ℕ → Bool
  pub is_cipher_text : List ℕ → Bool
  -- `try_encaps`: the shared secret and the ciphertext
  pub encaps : List ℕ → List ℕ → Option (List ℕ × List ℕ)
  pub decaps : List ℕ → List ℕ → Option (List ℕ)

-- The chacha20poly1305 crate: `encrypt key nonce plaintext` and `decrypt key nonce ciphertext`.
pub record Aead : Type 0 where
  pub encrypt : List ℕ → List ℕ → List ℕ → Option (List ℕ)
  pub decrypt : List ℕ → List ℕ → List ℕ → Option (List ℕ)

pub record Stream : Type 0 where
  pub incoming : List ℕ
  pub outgoing : List ℕ
  pub room : ℕ

-- A part of the program that uses a stream.
abbrev pub Io : Type 0 → Type 0
Io A = Stream → Result IoError (A × Stream)

infixl 5 ◌>>=◌ ◌>>◌
unfoldable pub ◌>>=◌ : {A B : Type 0} → Io A → (A → Io B) → Io B
◌>>=◌ m f s = elim (m s) [ ok (a, s') ↦ f a s' | err e ↦ err e ]

unfoldable pub ◌>>◌ : {B : Type 0} → Io (Unit {0}) → Io B → Io B
unfolding ◌>>=◌
m >> k = m >>= λ _. k

unfoldable pub pure : {A : Type 0} → A → Io A
pure a s = ok (a, s)

unfoldable pub refuse_if : Bool → String → Io (Unit {0})
refuse_if bad text s = if bad then err (other text) else ok (tt, s)

-- `o.map_err(|_| other(text))?`
unfoldable pub ok_or : {A : Type 0} → Option A → String → Io A
ok_or none text s = err (other text)
ok_or (some a) text s = ok (a, s)

unfoldable pub read_exact : ℕ → Io (List ℕ)
read_exact n s =
    if ltb (length s.incoming) n
    then err unexpected_eof
    else ok (take n s.incoming, record s { incoming = drop n s.incoming })

unfoldable pub write_all : List ℕ → Io (Unit {0})
write_all bs s =
    if ltb s.room (length bs)
    then err write_zero
    else ok (tt, record s { outgoing = s.outgoing ++ bs; room = s.room - length bs })

unfoldable pub write_header : ℕ → Io (Unit {0})
unfolding write_all ◌>>=◌ ◌>>◌ pure
write_header network_id = do
  write_all magic
  write_all (transport_version ∷ network_id ∷ [])
  pure tt

-- Index `i` of the header, which has ten bytes.
unfoldable pub header_byte : ℕ → List ℕ → ℕ
header_byte i hdr = elim (get_elem? hdr i) [ some b ↦ b | none ↦ 0 ]

unfoldable pub read_and_check_header : ℕ → Io (Unit {0})
unfolding read_exact refuse_if ◌>>=◌ ◌>>◌ header_byte pure
read_and_check_header network_id = do
  hdr ← read_exact 10
  refuse_if (not (bytes_eq (take 8 hdr) magic)) "bad magic"
  refuse_if (not (header_byte 8 hdr == transport_version)) "transport version mismatch"
  refuse_if (not (header_byte 9 hdr == network_id)) "peer is on a different network"
  pure tt

unfoldable pub derive_key : (List ℕ → ℕ → List ℕ) → List ℕ → List ℕ → List ℕ
unfolding shake256
derive_key xof ss label = shake256 xof (bytes "sump/aead/v1/" ∷ label ∷ ss ∷ []) 32

-- A cipher is its key.
pub record SecureReader : Type 0 where
  pub stream : Stream
  pub key : List ℕ
  pub counter : ℕ

pub record SecureWriter : Type 0 where
  pub stream : Stream
  pub key : List ℕ
  pub counter : ℕ

unfoldable pub nonce_for : ℕ → List ℕ
nonce_for counter = le_bytes 8 counter ++ replicate 4 0

-- `self.counter += 1`, as it wraps.
unfoldable pub next_counter : ℕ → ℕ
next_counter counter = (counter + 1) % u64_mod

-- The two writes of `SecureWriter::send`.
unfoldable pub write_frame : List ℕ → Io (Unit {0})
unfolding write_all ◌>>=◌ ◌>>◌
write_frame ct = do write_all (put_u32 (length ct % 2 ^ 32)); write_all ct

-- What the writer is after its frame was written.
unfoldable pub after_send :
    SecureWriter → Result IoError (Unit {0} × Stream) → Result IoError SecureWriter
unfolding next_counter
after_send w (ok (u, s)) = ok (record w { stream = s; counter = next_counter w.counter })
after_send w (err e) = err e

unfoldable pub send : Aead → SecureWriter → List ℕ → Result IoError SecureWriter
unfolding nonce_for write_frame after_send
send aead w plaintext = elim (aead.encrypt w.key (nonce_for w.counter) plaintext) [
  | none ↦ err (other "encryption failure")
  | some ct ↦ after_send w (write_frame ct w.stream)
]

-- `!(16..=MAX_FRAME + 16).contains(&len)`
unfoldable pub is_bad_length : ℕ → Bool
is_bad_length len = ltb len 16 || ltb (max_frame + 16) len

-- The ciphertext of the next frame.
unfoldable pub read_frame : Io (List ℕ)
unfolding read_exact refuse_if is_bad_length ◌>>=◌ ◌>>◌
read_frame = do
  len_bytes ← read_exact 4
  refuse_if (is_bad_length (le_value len_bytes)) "invalid frame length"
  read_exact (le_value len_bytes)

-- What is returned once the frame is read.
unfoldable pub after_recv :
    Aead → SecureReader → Result IoError (List ℕ × Stream) → Result IoError (List ℕ × SecureReader)
unfolding nonce_for next_counter
after_recv aead r (err e) = err e
after_recv aead r (ok (ct, s)) = elim (aead.decrypt r.key (nonce_for r.counter) ct) [
  | none ↦ err (other "frame authentication failed")
  | some pt ↦ ok (pt, record r { stream = s; counter = next_counter r.counter })
]

unfoldable pub recv : Aead → SecureReader → Result IoError (List ℕ × SecureReader)
unfolding read_frame after_recv
recv aead r = after_recv aead r (read_frame r.stream)

-- The writer thread of `run_peer`, over the messages that it is handed: an error ends it.
unfoldable pub write_messages : Aead → SecureWriter → List Message → Result IoError SecureWriter
unfolding send
write_messages aead w [] = ok w
write_messages aead w (msg ∷ msgs) = elim (send aead w (encode msg)) [
  | ok w' ↦ write_messages aead w' msgs
  | err e ↦ err e
]

-- The frames that the reader loop of `run_peer` is given in so many rounds: an error ends it.
unfoldable pub read_frames : Aead → ℕ → SecureReader → List (List ℕ)
unfolding recv
read_frames aead zero r = []
read_frames aead (suc n) r = elim (recv aead r) [
  | ok (frame, r') ↦ frame ∷ read_frames aead n r'
  | err e ↦ []
]

-- `split`: both halves keep the stream.
unfoldable pub split : List ℕ → List ℕ → Io (SecureReader × SecureWriter)
split send_key recv_key s = ok (
  (
    record { stream = s; key = recv_key; counter = 0 },
    record { stream = s; key = send_key; counter = 0 },
  ),
  s,
)

unfoldable pub initiate :
    (List ℕ → ℕ → List ℕ) → Kem → List ℕ → ℕ → Io (SecureReader × SecureWriter)
unfolding write_header read_and_check_header read_exact refuse_if ok_or write_all split derive_key
    ◌>>=◌ ◌>>◌
initiate xof kem draw network_id = do
  write_header network_id
  read_and_check_header network_id
  ek ← read_exact ek_len
  refuse_if (not (kem.is_encaps_key ek)) "invalid ML-KEM encapsulation key"
  (ss, ct) ← ok_or (kem.encaps ek draw) "ML-KEM encapsulation failed"
  write_all ct
  split (derive_key xof ss (bytes "i2r")) (derive_key xof ss (bytes "r2i"))

unfoldable pub respond : (List ℕ → ℕ → List ℕ) → Kem → List ℕ → ℕ → Io (SecureReader × SecureWriter)
unfolding write_header read_and_check_header read_exact refuse_if ok_or write_all split derive_key
    ◌>>=◌ ◌>>◌
respond xof kem draw network_id = do
  read_and_check_header network_id
  write_header network_id
  (ek, dk) ← ok_or (kem.keygen draw) "ML-KEM keygen failed"
  write_all ek
  ct ← read_exact ct_len
  refuse_if (not (kem.is_cipher_text ct)) "invalid ML-KEM ciphertext"
  ss ← ok_or (kem.decaps dk ct) "ML-KEM decapsulation failed"
  split (derive_key xof ss (bytes "r2i")) (derive_key xof ss (bytes "i2r"))
