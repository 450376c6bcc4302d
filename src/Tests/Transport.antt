-- ===== src/Tests/Transport.antt =====
-- The transport's theorems at a small connection.
use summerpoem_cli.Prelude.{
  ℕ, ◌-◌, ◌≡◌, refl, ap, ◌∙◌, arith, true, none, some, List, [], ◌∷◌, ◌++◌, length, map, take,
  replicate, if◌then◌else◌, length-append, take-append_length, inl, inr, Bool-cases,
}
use summerpoem_cli.Prelude.Equality.{bytes_eq, bytes_eq_iff}
use summerpoem_cli.Net.Message.{Message, ping, pong, get_addr, encode}
use summerpoem_cli.Net.Transport.{Kem, Aead, nonce_for, initiate, respond, read_frames}
use summerpoem_cli.Net.Transport.Frames.{IsAead}
use summerpoem_cli.Net.Transport.Handshake.{Agrees}
use summerpoem_cli.Net.Transport.Session.{
  AllFit, Completes, fresh, initiator_bytes, responder_bytes, initiate-respond,
}
use summerpoem_cli.Net.Transport.Integrity.{IsAuthentic, read_frames-IsPrefix}
use summerpoem_cli.Tests.Run.{everything}

abbrev xof : List ℕ → ℕ → List ℕ
xof input n = take n (input ++ replicate n 0)

abbrev kem : Kem
kem = record {
  keygen = λ draw. some (replicate 1184 5, draw);
  is_encaps_key = λ ek. true;
  is_cipher_text = λ ct. true;
  encaps = λ ek draw. some (replicate 32 7, replicate 1088 9);
  decaps = λ dk ct. some (replicate 32 7);
}

abbrev cipher : Aead
cipher = record {
  encrypt = λ key nonce plain. some (plain ++ replicate 16 1);
  decrypt = λ key nonce ct. some (take (length ct - 16) ct);
}

-- A plaintext is what stands before the tag.
untagged :
    (plain : List ℕ)
    → take (length (plain ++ replicate 16 1) - 16) (plain ++ replicate 16 1) ≡ plain
untagged plain =
    let l : length (plain ++ replicate 16 1) - 16 ≡ length plain =
      omega (arith, length-append plain (replicate 16 1)) in
    ap (λ n. take n (plain ++ replicate 16 1)) l ∙ take-append_length plain (replicate 16 1)

cipher-IsAead : IsAead cipher
cipher-IsAead = record {
  encrypts = λ key nonce plain h. (
    plain ++ replicate 16 1,
    refl,
    length-append plain (replicate 16 1),
    ap some (untagged plain),
  );
}

kem-Agrees : Agrees kem (1 ∷ []) (2 ∷ [])
kem-Agrees = record {
  ek = replicate 1184 5;
  dk = 1 ∷ [];
  ss = replicate 32 7;
  ct = replicate 1088 9;
  keygen_ok = refl;
  length_ek = refl;
  ek_accepted = refl;
  encaps_ok = refl;
  length_ct = refl;
  ct_accepted = refl;
  decaps_ok = refl;
}

abbrev ours : List Message
ours = ping 7 ∷ get_addr ∷ []

abbrev theirs : List Message
theirs = pong 7 ∷ []

ours-AllFit : AllFit ours
unfolding everything
ours-AllFit = ((omega arith, (tt, tt)), (omega arith, (omega arith, tt)))

theirs-AllFit : AllFit theirs
unfolding everything
theirs-AllFit = ((omega arith, tt), (omega arith, tt))

initiate-respond_example :
    let sent = initiator_bytes xof cipher kem-Agrees.ss kem-Agrees.ct 1 ours in
    let sent' = responder_bytes xof cipher kem-Agrees.ss kem-Agrees.ek 1 theirs in
    Completes cipher (initiate xof kem (2 ∷ []) 1 (fresh (sent' ++ []) 10_000)) sent ours theirs
    × Completes cipher
        (respond xof kem (1 ∷ []) 1 (fresh (sent ++ (3 ∷ [])) 20_000))
        sent'
        theirs
        ours
unfolding everything
initiate-respond_example =
    initiate-respond xof kem cipher cipher-IsAead (1 ∷ []) (2 ∷ []) kem-Agrees 1 ours theirs []
      (3 ∷ []) 10_000 20_000 ours-AllFit theirs-AllFit (omega arith) (omega arith)

-- A cipher under a key with which two messages were encrypted.
abbrev logged : Aead
logged = record {
  encrypt = λ key nonce plain. some (plain ++ replicate 16 1);
  decrypt = λ key nonce ct.
      if bytes_eq nonce (nonce_for 0)
      then some (encode (ping 7))
      else if bytes_eq nonce (nonce_for 1)
      then some (encode get_addr)
      else none;
}

logged-IsAuthentic : IsAuthentic logged (9 ∷ []) (map encode ours)
logged-IsAuthentic = record {
  only_sent = λ nonce ct plain h. elim (Bool-cases (bytes_eq nonce (nonce_for 0))) [
    | inl e ↦ (0, (bytes_eq_iff nonce (nonce_for 0)).0 e, rw e at h)
    | inr e ↦ elim (Bool-cases (bytes_eq nonce (nonce_for 1))) [
      | inl e' ↦ (1, (bytes_eq_iff nonce (nonce_for 1)).0 e', rw (e, e') at h)
      | inr e' ↦ let k = rw (e, e') at h in cc
    ]
  ];
}

read_frames-IsPrefix_example :
    (rest : List (List ℕ)) × (read_frames logged 5
          (record { stream = fresh (replicate 100 16) 0; key = 9 ∷ []; counter = 0 })
        ++ rest
      ≡ map encode ours)
read_frames-IsPrefix_example =
    read_frames-IsPrefix logged (9 ∷ []) ours (fresh (replicate 100 16) 0) 5 logged-IsAuthentic
      (omega arith)
