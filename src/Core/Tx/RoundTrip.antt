-- ===== src/Core/Tx/RoundTrip.antt =====
-- Decoding a transaction gives back what was encoded.
use summerpoem_cli.Prelude.{
  ℕ, ◌^◌, ◌≤◌, ◌<◌, ◌≡◌, refl, sym, ap, arith, List, [], length, length-drop, All, some,
}
use mathlib.Core.List.{append-nil}
use summerpoem_cli.Prelude.Result.{ok}
use summerpoem_cli.Core.Encode.{
  Parser, Reader, new_reader, max_field_len, finish, remaining, put_u8,
}
use summerpoem_cli.Core.Encode.Reading.{
  Reads, Reads-pure, Reads->>=, Reads-silent, Reads-last, Reads-array, Reads-u8, Reads-u32,
  Reads-u64, Reads-vec, Reads-count, Reads-many, unread,
}
use summerpoem_cli.Core.Hash.{IsHash}
use summerpoem_cli.Core.Tx.{
  SigScheme, ml_dsa, slh_dsa, scheme_id, scheme_from_id, some_scheme, read_scheme, Lock, p2pkh,
  timelock, encode_lock, decode_lock, decode_p2pkh, decode_timelock, TxOutput, encode_output,
  decode_output, TxInput, encode_input, decode_input, TxBody, encode_body, decode_body, Witness,
  encode_witness, decode_witness, Transaction, encode_witness_section, encode_tx, decode_tx,
  decode_whole, decode_all, lift, max_tx_io,
}

-- The ranges of the Rust types: a hash has 32 bytes, a key hash 20, and integers their widths.
abbrev pub LockFits : Lock → Type 0
LockFits (p2pkh scheme pkh) = length pkh ≡ 20
LockFits (timelock scheme pkh height) = (length pkh ≡ 20) × (height < 2 ^ 64)

pub record OutputFits (o : TxOutput) : Type 0 where
  pub amount_fits : o.amount < 2 ^ 64
  pub lock_fits : LockFits o.lock

pub record InputFits (i : TxInput) : Type 0 where
  pub txid_fits : IsHash i.prevout.txid
  pub vout_fits : i.prevout.vout < 2 ^ 32

-- And the limits of the decoder on counts and lengths.
pub record BodyFits (b : TxBody) : Type 0 where
  pub version_fits : b.version < 2 ^ 32
  pub inputs_fit : All InputFits b.inputs
  pub inputs_count : length b.inputs ≤ max_tx_io
  pub outputs_fit : All OutputFits b.outputs
  pub outputs_count : length b.outputs ≤ max_tx_io
  pub locktime_fits : b.locktime < 2 ^ 64
  pub coinbase_data_fits : length b.coinbase_data ≤ max_field_len

pub record WitnessFits (w : Witness) : Type 0 where
  pub pubkey_fits : length w.pubkey ≤ max_field_len
  pub signature_fits : length w.signature ≤ max_field_len

pub record TxFits (tx : Transaction) : Type 0 where
  pub body_fits : BodyFits tx.body
  pub body_length : length (encode_body tx.body) ≤ max_field_len
  pub witnesses_fit : All WitnessFits tx.witnesses
  pub witnesses_count : length tx.witnesses ≤ max_tx_io

scheme_from_id-id : (s : SigScheme) → scheme_from_id (scheme_id s) ≡ some s
unfolding scheme_from_id scheme_id
scheme_from_id-id ml_dsa = refl
scheme_from_id-id slh_dsa = refl

Reads-scheme : (s : SigScheme) → Reads read_scheme (put_u8 (scheme_id s)) s
unfolding read_scheme some_scheme
Reads-scheme s = Reads-silent _ (Reads-u8 (scheme_id s)) (rw (scheme_from_id-id s) (Reads-pure s))

pub Reads-lock : (l : Lock) → LockFits l → Reads decode_lock (encode_lock l) l
unfolding decode_lock encode_lock decode_p2pkh decode_timelock
Reads-lock (p2pkh s pkh) h =
    Reads->>= _ (Reads-u8 0)
      (Reads->>= _ (Reads-scheme s) (Reads-last (p2pkh s) (Reads-array 20 pkh h)))
Reads-lock (timelock s pkh height) (h, k) = Reads->>= _ (Reads-u8 1) (
    Reads->>= _ (Reads-scheme s)
      (Reads->>= _ (Reads-array 20 pkh h) (Reads-last (timelock s pkh) (Reads-u64 height k))))

pub Reads-output : (o : TxOutput) → OutputFits o → Reads decode_output (encode_output o) o
unfolding decode_output encode_output
Reads-output o h =
    Reads->>= _ (Reads-u64 o.amount h.amount_fits)
      (Reads-last (λ l. record { amount = o.amount; lock = l }) (Reads-lock o.lock h.lock_fits))

pub Reads-input : (i : TxInput) → InputFits i → Reads decode_input (encode_input i) i
unfolding decode_input encode_input
Reads-input i h = Reads->>= _ (Reads-array 32 i.prevout.txid h.txid_fits) (
    Reads-last (λ v. record { prevout = record { txid = i.prevout.txid; vout = v } })
      (Reads-u32 i.prevout.vout h.vout_fits))

pub Reads-body : (b : TxBody) → BodyFits b → Reads decode_body (encode_body b) b
unfolding decode_body encode_body
Reads-body b h = Reads->>= _ (Reads-u32 b.version h.version_fits) (
    Reads->>= _ (Reads-count (length b.inputs) max_tx_io h.inputs_count (omega arith)) (
      Reads->>= _ (Reads-many decode_input encode_input InputFits Reads-input b.inputs h.inputs_fit)
        (Reads->>= _ (Reads-count (length b.outputs) max_tx_io h.outputs_count (omega arith)) (
          Reads->>= _
            (Reads-many decode_output encode_output OutputFits Reads-output b.outputs h.outputs_fit)
            (Reads->>= _ (Reads-u64 b.locktime h.locktime_fits)
              (Reads-last _ (Reads-vec b.coinbase_data h.coinbase_data_fits)))))))

pub Reads-witness : (w : Witness) → WitnessFits w → Reads decode_witness (encode_witness w) w
unfolding decode_witness encode_witness
Reads-witness w h =
    Reads->>= _ (Reads-vec w.pubkey h.pubkey_fits)
      (Reads-last _ (Reads-vec w.signature h.signature_fits))

nothing_left : (r : Reader) → unread r ≡ [] → finish r ≡ ok tt
unfolding finish remaining
nothing_left r u = ground (arith, length-drop r.pos r.buf, ap (λ l. length l) u)

-- A decoder that takes all of a byte string succeeds on it.
pub decode_whole-Reads :
    {A : Type 0} {d : Parser A} {bs : List ℕ} {a : A} → Reads d bs a → decode_whole d bs ≡ ok a
unfolding decode_whole
decode_whole-Reads {bs = bs} p =
    let (r, e, u) = p.run (new_reader bs) [] (sym (append-nil bs)) in
    rw (e, decode_whole) (rw (nothing_left r u) refl)

pub Reads-lift :
    {A : Type 0} {d : Parser A} {bs : List ℕ} {a : A}
    → Reads d bs a
    → Reads (lift (decode_whole d bs)) [] a
unfolding lift
Reads-lift p = rw (decode_whole-Reads p) (Reads-pure _)

pub Reads-tx : (tx : Transaction) → TxFits tx → Reads decode_tx (encode_tx tx) tx
unfolding decode_tx encode_tx encode_witness_section
Reads-tx tx h = Reads->>= _ (Reads-vec (encode_body tx.body) h.body_length) (
    Reads->>= _ (Reads-lift (Reads-body tx.body h.body_fits)) (
      Reads->>= _ (Reads-count (length tx.witnesses) max_tx_io h.witnesses_count (omega arith)) (
        Reads-last _ (
          Reads-many decode_witness encode_witness WitnessFits Reads-witness tx.witnesses
            h.witnesses_fit))))

-- Decoding all the bytes of an encoded transaction gives the transaction back, for every
-- transaction within the ranges of its Rust types and the decoder's limits.
pub decode_all-encode_tx : (tx : Transaction) → TxFits tx → decode_all (encode_tx tx) ≡ ok tx
unfolding decode_all
decode_all-encode_tx tx h = decode_whole-Reads (Reads-tx tx h)
