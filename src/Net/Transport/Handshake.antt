-- ===== src/Net/Transport/Handshake.antt =====
-- The handshake of two sides that follow the protocol.
use summerpoem_cli.Prelude.{
  ℕ, ◌+◌, ◌≤◌, ◌≡◌, ◌==◌, ==_iff, refl, arith, true, false, Option, some, List, [], ◌∷◌, ◌++◌,
  length, not,
}
use Prim.Native.String.{String}
use summerpoem_cli.Prelude.Result.{Result, ok, err}
use summerpoem_cli.Prelude.Text.{bytes}
use summerpoem_cli.Prelude.Equality.{bytes_eq}
use summerpoem_cli.Net.Transport.{
  IoError, other, Kem, Stream, magic, transport_version, ek_len, ct_len, ◌>>=◌, ◌>>◌, pure,
  refuse_if, ok_or, read_exact, write_all, write_header, header_byte, read_and_check_header,
  derive_key, split, initiate, respond,
}
use summerpoem_cli.Net.Transport.Frames.{
  >>=-steps, >>-steps, wrote, write_all-wrote, read_exact-field, refuse_if-false,
}

abbrev pub header : ℕ → List ℕ
header network_id = magic ++ (transport_version ∷ network_id ∷ [])

abbrev pub greeted : ℕ → Stream → Stream
greeted network_id s = wrote (transport_version ∷ network_id ∷ []) (wrote magic s)

-- The KEM is correct on these draws of the responder and of the initiator.
pub record Agrees (kem : Kem) (keygen_draw encaps_draw : List ℕ) : Type 0 where
  pub ek : List ℕ
  pub dk : List ℕ
  pub ss : List ℕ
  pub ct : List ℕ
  pub keygen_ok : kem.keygen keygen_draw ≡ some (ek, dk)
  pub length_ek : length ek ≡ ek_len
  pub ek_accepted : kem.is_encaps_key ek ≡ true
  pub encaps_ok : kem.encaps ek encaps_draw ≡ some (ss, ct)
  pub length_ct : length ct ≡ ct_len
  pub ct_accepted : kem.is_cipher_text ct ≡ true
  pub decaps_ok : kem.decaps dk ct ≡ some ss

write_header-greeted : (n : ℕ) (s : Stream) → 10 ≤ s.room → write_header n s ≡ ok (tt, greeted n s)
unfolding write_header pure
write_header-greeted n s h =
    >>-steps (write_all magic) _ s (write_all-wrote magic s (omega arith)) (
      >>-steps (write_all (transport_version ∷ n ∷ [])) _ (wrote magic s)
        (write_all-wrote (transport_version ∷ n ∷ []) (wrote magic s) (omega arith)) refl)

-- What the check makes of the header of a network `m`.
check-header :
    (n m : ℕ) (rest : List ℕ) (s : Stream) {r : Result IoError (Unit {0} × Stream)}
    → s.incoming ≡ header m ++ rest
    → (refuse_if (not (m == n)) "peer is on a different network" >> pure tt)
        (record s { incoming = rest })
      ≡ r
    → read_and_check_header n s ≡ r
unfolding read_and_check_header header_byte bytes_eq
check-header n m rest s h k =
    let s' : Stream = record s { incoming = rest } in
    let net = refuse_if (not (m == n)) "peer is on a different network" >> pure tt in
    >>=-steps (read_exact 10) _ s (read_exact-field 10 (header m) rest s refl h) (
      >>-steps (refuse_if false "bad magic") (refuse_if false "transport version mismatch" >> net)
        s' (refuse_if-false false "bad magic" s' refl)
        (>>-steps (refuse_if false "transport version mismatch") net s'
          (refuse_if-false false "transport version mismatch" s' refl) k))

same : (n : ℕ) → (n == n) ≡ true
same n = (==_iff n n).1 refl

check-accepts :
    (n : ℕ) (rest : List ℕ) (s : Stream)
    → s.incoming ≡ header n ++ rest
    → read_and_check_header n s ≡ ok (tt, record s { incoming = rest })
unfolding pure
check-accepts n rest s h = check-header n n rest s h (
    >>-steps (refuse_if (not (n == n)) "peer is on a different network") (pure tt) _
      (refuse_if-false _ _ _ (rw (same n) refl)) refl)

check-refuses :
    (n m : ℕ) (rest : List ℕ) (s : Stream)
    → ¬ (m ≡ n)
    → s.incoming ≡ header m ++ rest
    → read_and_check_header n s ≡ err (other "peer is on a different network")
unfolding pure refuse_if ◌>>◌ ◌>>=◌
check-refuses n m rest s d h =
    check-header n m rest s h (let e : (m == n) ≡ false = ground arith in rw e refl)

ok_or-some :
    {A : Type 0} (o : Option A) (text : String) (s : Stream) {a : A}
    → o ≡ some a
    → ok_or o text s ≡ ok (a, s)
unfolding ok_or
ok_or-some o text s h = rw h refl

module _ (xof : List ℕ → ℕ → List ℕ) (kem : Kem) (keygen_draw encaps_draw : List ℕ) where
  pub initiate-ok :
      (a : Agrees kem keygen_draw encaps_draw) (n : ℕ) (rest : List ℕ) (s : Stream)
      → s.incoming ≡ header n ++ (a.ek ++ rest)
      → 10 + ct_len ≤ s.room
      → let done : Stream = wrote a.ct (record (greeted n s) { incoming = rest }) in
        initiate xof kem encaps_draw n s
        ≡ split (derive_key xof a.ss (bytes "i2r")) (derive_key xof a.ss (bytes "r2i")) done
  unfolding initiate
  initiate-ok a n rest s h room =
      let s1 = greeted n s in
      let s2 : Stream = record s1 { incoming = a.ek ++ rest } in
      let s3 : Stream = record s1 { incoming = rest } in
      >>-steps (write_header n) _ s (write_header-greeted n s (omega arith)) (
        >>-steps (read_and_check_header n) _ s1 (check-accepts n (a.ek ++ rest) s1 h) (
          >>=-steps (read_exact ek_len) _ s2 (read_exact-field ek_len a.ek rest s2 a.length_ek refl)
            (>>-steps (refuse_if (not (kem.is_encaps_key a.ek)) "invalid ML-KEM encapsulation key")
              _ s3 (refuse_if-false _ _ s3 (rw a.ek_accepted refl))
              (>>=-steps (ok_or (kem.encaps a.ek encaps_draw) "ML-KEM encapsulation failed") _ s3
                (ok_or-some _ _ s3 a.encaps_ok)
                (>>-steps (write_all a.ct) _ s3
                  (write_all-wrote a.ct s3 (omega (arith, a.length_ct))) refl)))))

  pub respond-ok :
      (a : Agrees kem keygen_draw encaps_draw) (n : ℕ) (rest : List ℕ) (s : Stream)
      → s.incoming ≡ header n ++ (a.ct ++ rest)
      → 10 + ek_len ≤ s.room
      → let done : Stream = record (wrote a.ek (greeted n (record s { incoming = a.ct ++ rest }))) {
        incoming = rest;
      } in
        respond xof kem keygen_draw n s
        ≡ split (derive_key xof a.ss (bytes "r2i")) (derive_key xof a.ss (bytes "i2r")) done
  unfolding respond
  respond-ok a n rest s h room =
      let s1 : Stream = record s { incoming = a.ct ++ rest } in
      let s2 = greeted n s1 in
      let s3 = wrote a.ek s2 in
      let s4 : Stream = record s3 { incoming = rest } in
      >>-steps (read_and_check_header n) _ s (check-accepts n (a.ct ++ rest) s h) (
        >>-steps (write_header n) _ s1 (write_header-greeted n s1 (omega arith)) (
          >>=-steps (ok_or (kem.keygen keygen_draw) "ML-KEM keygen failed") _ s2
            (ok_or-some _ _ s2 a.keygen_ok)
            (>>-steps (write_all a.ek) _ s2 (write_all-wrote a.ek s2 (omega (arith, a.length_ek))) (
              >>=-steps (read_exact ct_len) _ s3
                (read_exact-field ct_len a.ct rest s3 a.length_ct refl)
                (>>-steps (refuse_if (not (kem.is_cipher_text a.ct)) "invalid ML-KEM ciphertext") _
                  s4 (refuse_if-false _ _ s4 (rw a.ct_accepted refl))
                  (>>=-steps (ok_or (kem.decaps a.dk a.ct) "ML-KEM decapsulation failed") _ s4
                    (ok_or-some _ _ s4 a.decaps_ok) refl))))))

-- A peer that sends the header of another network is refused by either side of the handshake,
-- where the connection takes the ten bytes of a header.
pub handshake_refuses :
    (xof : List ℕ → ℕ → List ℕ) (kem : Kem) (draw : List ℕ) (n m : ℕ) (rest : List ℕ) (s : Stream)
    → ¬ (m ≡ n)
    → s.incoming ≡ header m ++ rest
    → 10 ≤ s.room
    → (initiate xof kem draw n s ≡ err (other "peer is on a different network"))
      × (respond xof kem draw n s ≡ err (other "peer is on a different network"))
unfolding initiate respond
handshake_refuses xof kem draw n m rest s d h room = (
  >>-steps (write_header n) _ s (write_header-greeted n s room)
      (rw (check-refuses n m rest (greeted n s) d h, ◌>>◌, ◌>>=◌) refl),
  rw (check-refuses n m rest s d h, ◌>>◌, ◌>>=◌) refl,
)
