-- ===== src/Net/Transport/Session.antt =====
-- A whole connection between two nodes: the handshake, and the messages of both sides after it.
use summerpoem_cli.Prelude.{
  ℕ, ◌+◌, ◌≤◌, ◌≡◌, refl, ap, ◌∙◌, arith, List, [], ◌++◌, map, length, All,
}
use mathlib.Core.List.{append_assoc}
use summerpoem_cli.Prelude.Result.{Result, ok}
use summerpoem_cli.Prelude.Text.{bytes}
use summerpoem_cli.Net.Message.{Message, decode}
use summerpoem_cli.Net.Message.RoundTrip.{MessageFits}
use summerpoem_cli.Net.Transport.{
  IoError, Aead, Kem, Stream, SecureReader, SecureWriter, ek_len, ct_len, derive_key, split,
  initiate, respond, write_messages, read_frames,
}
use summerpoem_cli.Net.Transport.Frames.{IsAead}
use summerpoem_cli.Net.Transport.Delivery.{
  IsSendable, wire_size, wire_of, write_messages-read_frames,
}
use summerpoem_cli.Net.Transport.Handshake.{Agrees, header, initiate-ok, respond-ok}

-- A side's messages were written, all it wrote is `sent`, and it reads the messages of the other.
pub record IsDone (aead : Aead) (r : SecureReader) (w : SecureWriter) (sent : List ℕ)
    (msgs theirs : List Message) : Type 0 where
  pub after : SecureWriter
  pub written : write_messages aead w msgs ≡ ok after
  pub all_sent : after.stream.outgoing ≡ sent
  pub received : map decode (read_frames aead (length theirs) r) ≡ map ok theirs

-- What a handshake comes to, and what the two halves of its connection do then.
abbrev pub Completes :
    Aead
    → Result IoError ((SecureReader × SecureWriter) × Stream)
    → List ℕ
    → (msgs theirs : List Message) → Type 0
Completes aead result sent msgs theirs =
    (r : SecureReader) × (w : SecureWriter) × (s : Stream) × (result ≡ ok ((r, w), s))
    × IsDone aead r w sent msgs theirs

abbrev pub fresh : List ℕ → ℕ → Stream
fresh incoming room = record { incoming = incoming; outgoing = []; room = room }

module _ (xof : List ℕ → ℕ → List ℕ) (aead : Aead) where
  -- What the initiator and the responder write in all.
  abbrev pub initiator_bytes : (ss ct : List ℕ) → ℕ → List Message → List ℕ
  initiator_bytes ss ct n msgs =
      header n ++ (ct ++ wire_of aead (derive_key xof ss (bytes "i2r")) 0 msgs)

  abbrev pub responder_bytes : (ss ek : List ℕ) → ℕ → List Message → List ℕ
  responder_bytes ss ek n msgs =
      header n ++ (ek ++ wire_of aead (derive_key xof ss (bytes "r2i")) 0 msgs)

-- Messages that can be sent over a connection and decoded at its other end.
abbrev pub AllFit : List Message → Type 0
AllFit msgs = All MessageFits msgs × All IsSendable msgs

side-IsDone :
    (aead : Aead) (laws : IsAead aead) (r : SecureReader) (w : SecureWriter)
    (msgs theirs : List Message) (rest : List ℕ) {sent : List ℕ}
    → AllFit msgs
    → AllFit theirs
    → wire_size msgs ≤ w.stream.room
    → r.stream.incoming ≡ wire_of aead r.key r.counter theirs ++ rest
    → w.stream.outgoing ++ wire_of aead w.key w.counter msgs ≡ sent
    → IsDone aead r w sent msgs theirs
side-IsDone aead laws r w msgs theirs rest (f, z) (f', z') room h e =
    let peer : SecureWriter = record {
      stream = fresh [] (wire_size theirs);
      key = r.key;
      counter = r.counter;
    } in
    let (w', written, sent, _) = write_messages-read_frames aead laws w msgs f z room in
    let (_, _, _, reads) = write_messages-read_frames aead laws peer theirs f' z' (omega arith) in
    record { after = w'; written = written; all_sent = sent ∙ e; received = reads r.stream rest h }

-- Two sides of one network that follow the protocol, on draws on which the KEM is correct and with a
-- cipher as documented, complete the handshake when each is sent what the other writes: each then
-- writes its messages without an error, what each wrote in all is what the other was sent, and the
-- frames that each reads decode to the messages of the other in their order. The messages are within
-- the decoder's limits and no longer than the largest frame, and both directions take the bytes.
pub initiate-respond :
    (xof : List ℕ → ℕ → List ℕ) (kem : Kem) (aead : Aead) (laws : IsAead aead)
    (keygen_draw encaps_draw : List ℕ) (a : Agrees kem keygen_draw encaps_draw) (n : ℕ)
    (ours theirs : List Message) (more more' : List ℕ) (room room' : ℕ)
    → AllFit ours
    → AllFit theirs
    → 10 + ct_len + wire_size ours ≤ room
    → 10 + ek_len + wire_size theirs ≤ room'
    → let sent = initiator_bytes xof aead a.ss a.ct n ours in
      let sent' = responder_bytes xof aead a.ss a.ek n theirs in
      Completes aead (initiate xof kem encaps_draw n (fresh (sent' ++ more) room)) sent ours theirs
      × Completes aead
          (respond xof kem keygen_draw n (fresh (sent ++ more') room'))
          sent'
          theirs
          ours
unfolding split
initiate-respond xof kem aead laws kd ed a n ours theirs more more' room room' f f' h h' =
    let i2r = derive_key xof a.ss (bytes "i2r") in
    let r2i = derive_key xof a.ss (bytes "r2i") in
    let wi = wire_of aead i2r 0 ours in
    let wr = wire_of aead r2i 0 theirs in
    (
      (
        _,
        _,
        _,
        initiate-ok xof kem kd ed a n (wr ++ more)
            (fresh (responder_bytes xof aead a.ss a.ek n theirs ++ more) room)
            (append_assoc (header n) (a.ek ++ wr) more
              ∙ ap (λ l. header n ++ l) (append_assoc a.ek wr more))
            (omega arith),
        side-IsDone aead laws _ _ ours theirs more f f' (omega (arith, a.length_ct)) refl
            (append_assoc (header n) a.ct wi),
      ),
      (
        _,
        _,
        _,
        respond-ok xof kem kd ed a n (wi ++ more')
            (fresh (initiator_bytes xof aead a.ss a.ct n ours ++ more') room')
            (append_assoc (header n) (a.ct ++ wi) more'
              ∙ ap (λ l. header n ++ l) (append_assoc a.ct wi more'))
            (omega arith),
        side-IsDone aead laws _ _ theirs ours more' f' f (omega (arith, a.length_ek)) refl
            (append_assoc (header n) a.ek wr),
      ),
    )
