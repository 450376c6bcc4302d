-- ===== src/Net/Transport/Integrity.antt =====
-- What a reader is given when anyone may put bytes on the wire.
use summerpoem_cli.Prelude.{
  ℕ, zero, suc, ◌<◌, ◌≡◌, refl, sym, ap, ◌∙◌, arith, inl, inr, some, List, [], ◌∷◌, ◌++◌, map,
  length, take, drop, get_elem?, take-append_length, replicate, length-map, ◌⊎◌, Option-cases,
}
use summerpoem_cli.Prelude.Result.{Result, ok, err}
use summerpoem_cli.Prelude.Checked.{u64_mod}
use summerpoem_cli.Core.Encode.{le_value, le_bytes}
use summerpoem_cli.Core.Encode.Words.{length-le_bytes, le_value-le_bytes}
use summerpoem_cli.Net.Message.{Message, encode}
use summerpoem_cli.Net.Transport.{
  Aead, Stream, SecureReader, IoError, nonce_for, next_counter, after_recv, recv, read_frame,
  read_frames,
}

Result-cases : {E A : Type 0} (r : Result E A) → ((e : E) × (r ≡ err e)) ⊎ ((a : A) × (r ≡ ok a))
Result-cases (ok a) = inr (a, refl)
Result-cases (err e) = inl (e, refl)

-- The cipher is authentic under a key with which `sent` was encrypted, each plaintext with the nonce
-- of its number: nothing else decrypts.
pub record IsAuthentic (aead : Aead) (key : List ℕ) (sent : List (List ℕ)) : Type 0 where
  pub only_sent :
      (nonce ct plain : List ℕ)
      → aead.decrypt key nonce ct ≡ some plain
      → (i : ℕ) × (nonce ≡ nonce_for i) × (get_elem? sent i ≡ some plain)

-- A nonce tells its counter.
pub nonce_for-injective : (i j : ℕ) → i < u64_mod → j < u64_mod → nonce_for i ≡ nonce_for j → i ≡ j
unfolding nonce_for
nonce_for-injective i j hi hj h =
    let low : (k : ℕ) → k < u64_mod → le_value (take 8 (nonce_for k)) ≡ k = λ k hk.
      ap le_value (
        ap (λ n. take n (nonce_for k)) (sym (length-le_bytes 8 k))
        ∙ take-append_length (le_bytes 8 k) (replicate 4 0))
      ∙ le_value-le_bytes 8 k hk in
    sym (low i hi) ∙ ap (λ l. le_value (take 8 l)) h ∙ low j hj

get_elem?-lt : {A : Type 0} (xs : List A) (i : ℕ) {a : A} → get_elem? xs i ≡ some a → i < length xs
get_elem?-lt [] i h = cc
get_elem?-lt (x ∷ xs) zero h = omega arith
get_elem?-lt (x ∷ xs) (suc i) h = omega (arith, get_elem?-lt xs i h)

drop-get_elem? :
    {A : Type 0} (xs : List A) (i : ℕ) {a : A}
    → get_elem? xs i ≡ some a
    → drop i xs ≡ a ∷ drop (suc i) xs
drop-get_elem? [] i h = cc
drop-get_elem? (x ∷ xs) zero h = cc
drop-get_elem? (x ∷ xs) (suc i) h = drop-get_elem? xs i h

after_recv-decrypts :
    (aead : Aead) (r r' : SecureReader) (res : Result IoError (List ℕ × Stream)) (plain : List ℕ)
    → after_recv aead r res ≡ ok (plain, r')
    → (ct : List ℕ) × (aead.decrypt r.key (nonce_for r.counter) ct ≡ some plain)
      × (r'.key ≡ r.key)
      × (r'.counter ≡ next_counter r.counter)
unfolding after_recv
after_recv-decrypts aead r r' (err e) plain h = cc
after_recv-decrypts aead r r' (ok (ct, s)) plain h =
    elim (Option-cases (aead.decrypt r.key (nonce_for r.counter) ct)) [
      | inl e ↦ let k = rw (e, after_recv) at h in cc
      | inr (p, e) ↦ let k = rw (e, after_recv) at h in (ct, e ∙ cc, cc, cc)
    ]

-- From a counter on, the frames are those that were sent from there on, as far as they go.
frames-IsPrefix :
    (aead : Aead) (key : List ℕ) (sent : List (List ℕ))
    → IsAuthentic aead key sent
    → length sent < u64_mod
    → (n c : ℕ) (r : SecureReader) → r.key ≡ key
    → r.counter ≡ c
    → c < u64_mod
    → (rest : List (List ℕ)) × (read_frames aead n r ++ rest ≡ drop c sent)
unfolding read_frames recv next_counter
frames-IsPrefix aead key sent auth l zero c r hk hc b = (drop c sent, refl)
frames-IsPrefix aead key sent auth l (suc n) c r hk hc b = elim (Result-cases (recv aead r)) [
  | inl (e, h) ↦ (drop c sent, rw (h, read_frames) refl)
  | inr ((plain, r'), h) ↦
      let (ct, d, k, c') = after_recv-decrypts aead r r' (read_frame r.stream) plain h in
      let (i, ni, at) = auth.only_sent (nonce_for r.counter) ct plain (rw hk at d) in
      let same : i ≡ c =
        nonce_for-injective i c (omega (arith, get_elem?-lt sent i at)) b
          (sym ni ∙ ap nonce_for hc) in
      let found : get_elem? sent c ≡ some plain = cc in
      let below = get_elem?-lt sent c found in
      let (rest, e) =
        frames-IsPrefix aead key sent auth l n (suc c) r' (k ∙ hk) (c' ∙ omega arith)
          (omega arith) in
      (rest, rw (h, read_frames) (ap (λ l. plain ∷ l) e ∙ sym (drop-get_elem? sent c found)))
]

-- Under a key with which the messages were encrypted, fewer than 2^64 of them, and nothing else
-- that decrypts, a new reader is given a beginning of their sequence and nothing else, whatever
-- bytes come to it and however often it reads: nothing is forged, repeated, dropped or reordered.
pub read_frames-IsPrefix :
    (aead : Aead) (key : List ℕ) (msgs : List Message) (s : Stream) (n : ℕ)
    → IsAuthentic aead key (map encode msgs)
    → length msgs < u64_mod
    → (rest : List (List ℕ)) × (read_frames aead n (record { stream = s; key = key; counter = 0 })
          ++ rest
        ≡ map encode msgs)
read_frames-IsPrefix aead key msgs s n auth l =
    frames-IsPrefix aead key (map encode msgs) auth (omega (arith, length-map encode msgs)) n 0
      (record { stream = s; key = key; counter = 0 }) refl refl (omega arith)
