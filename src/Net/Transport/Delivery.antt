-- ===== src/Net/Transport/Delivery.antt =====
-- The messages of one node as they come to the other.
use summerpoem_cli.Prelude.{
  ℕ, ◌+◌, ◌≤◌, ◌≡◌, refl, sym, ap, ◌∙◌, arith, List, [], ◌∷◌, ◌++◌, map, length, All,
}
use mathlib.Core.List.{append-nil, append_assoc}
use summerpoem_cli.Prelude.Result.{ok}
use summerpoem_cli.Net.Message.{Message, encode, decode}
use summerpoem_cli.Net.Message.RoundTrip.{MessageFits, decode-encode}
use summerpoem_cli.Net.Transport.{
  Aead, Stream, SecureReader, SecureWriter, max_frame, next_counter, write_messages, read_frames,
}
use summerpoem_cli.Net.Transport.Frames.{frame_of, ciphertext, IsAead, Travels, send-Travels}

-- What the messages take on the wire: a length, and a tag for each.
unfoldable pub wire_size : List Message → ℕ
wire_size [] = 0
wire_size (msg ∷ msgs) = (length (encode msg) + 20) + wire_size msgs

-- The bytes of the messages on the wire, from a counter on.
unfoldable pub wire_of : Aead → List ℕ → ℕ → List Message → List ℕ
wire_of aead key counter [] = []
wire_of aead key counter (msg ∷ msgs) =
    frame_of (ciphertext aead key counter (encode msg))
    ++ wire_of aead key (next_counter counter) msgs

abbrev pub IsSendable : Message → Type 0
IsSendable msg = length (encode msg) ≤ max_frame

-- The other side's reader, at the same place of the connection.
abbrev pub other_end : SecureWriter → Stream → SecureReader
other_end w s = record { stream = s; key = w.key; counter = w.counter }

record Sent (aead : Aead) (w : SecureWriter) (msgs : List Message) : Type 0 where
  pub wire : List ℕ
  pub wire_is : wire ≡ wire_of aead w.key w.counter msgs
  pub after : SecureWriter
  pub written : write_messages aead w msgs ≡ ok after
  pub appended : after.stream.outgoing ≡ w.stream.outgoing ++ wire
  pub arrives :
      (s : Stream) (rest : List ℕ)
      → s.incoming ≡ wire ++ rest
      → read_frames aead (length msgs) (other_end w s) ≡ map encode msgs

-- One message and then the others.
Sent-cons :
    (aead : Aead) (w : SecureWriter) (msg : Message) (msgs : List Message)
    → (t : Travels aead w (encode msg)) → Sent aead t.after msgs
    → Sent aead w (msg ∷ msgs)
unfolding write_messages read_frames wire_of
Sent-cons aead w msg msgs t more = record {
  wire = t.frame ++ more.wire;
  wire_is = rw (t.frame_is, more.wire_is, t.key_kept, t.counted) refl;
  after = more.after;
  written = rw (t.sent, write_messages) more.written;
  appended =
      more.appended
      ∙ ap (λ l. l ++ more.wire) t.appended
      ∙ append_assoc w.stream.outgoing t.frame more.wire;
  arrives = λ s rest h.
      let next = more.arrives (record s { incoming = more.wire ++ rest }) rest refl in
      rw (t.arrives s (more.wire ++ rest) (h ∙ append_assoc t.frame more.wire rest), read_frames)
        (ap (λ l. encode msg ∷ l) (rw (t.key_kept, t.counted) at next));
}

write_messages-Sent :
    (aead : Aead) (laws : IsAead aead) (w : SecureWriter) (msgs : List Message)
    → All IsSendable msgs
    → wire_size msgs ≤ w.stream.room
    → Sent aead w msgs
unfolding write_messages read_frames wire_size wire_of
write_messages-Sent aead laws w [] h room = record {
  wire = [];
  wire_is = refl;
  after = w;
  written = refl;
  appended = sym (append-nil w.stream.outgoing);
  arrives = λ s rest k. refl;
}
write_messages-Sent aead laws w (msg ∷ msgs) (h, hs) room =
    let t = send-Travels aead laws w (encode msg) h (omega arith) in
    let left = t.room_left in
    Sent-cons aead w msg msgs t (write_messages-Sent aead laws t.after msgs hs (omega arith))

decoded : (msgs : List Message) → All MessageFits msgs → map decode (map encode msgs) ≡ map ok msgs
decoded [] h = refl
decoded (msg ∷ msgs) (h, hs) =
    let e : decode (encode msg) ≡ ok msg =
      ap decode (sym (append-nil (encode msg))) ∙ decode-encode msg [] h in
    rw (e, decoded msgs hs) refl

-- With a cipher as documented and a connection that takes the bytes, the messages that the writer
-- thread is handed are written without an error, and a reader with the same key and counter, to
-- which those bytes come first, is given frames that decode to the same messages in their order. The
-- messages are within the decoder's limits and no longer than the largest frame.
pub write_messages-read_frames :
    (aead : Aead) (laws : IsAead aead) (w : SecureWriter) (msgs : List Message)
    → All MessageFits msgs
    → All IsSendable msgs
    → wire_size msgs ≤ w.stream.room
    → (w' : SecureWriter) × (write_messages aead w msgs ≡ ok w')
      × (w'.stream.outgoing ≡ w.stream.outgoing ++ wire_of aead w.key w.counter msgs)
      × ((s : Stream) (rest : List ℕ)
          → s.incoming ≡ wire_of aead w.key w.counter msgs ++ rest
          → map decode (read_frames aead (length msgs) (other_end w s)) ≡ map ok msgs)
write_messages-read_frames aead laws w msgs fits small room =
    let m = write_messages-Sent aead laws w msgs small room in
    (
      m.after,
      m.written,
      rw (← m.wire_is) m.appended,
      λ s rest h. ap (map decode) (m.arrives s rest (rw m.wire_is h)) ∙ decoded msgs fits,
    )
