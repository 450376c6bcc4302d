-- ===== src/Core/Tx.antt =====
-- crates/core/src/tx.rs: transactions, their encoding and their hashes.
use summerpoem_cli.Prelude.{
  ℕ, ◌+◌, ◌-◌, ◌%◌, ◌^◌, ◌≤◌, ◌<◌, ◌≡◌, Bool, true, false, Option, none, some, List, [], ◌∷◌, ◌++◌,
  length, take, drop, get_elem?, ◌==◌, ltb, leb, ◌&&◌, if◌then◌else◌,
}
use summerpoem_cli.Prelude.Result.{Result, ok, err}
use summerpoem_cli.Prelude.Text.{bytes}
use summerpoem_cli.Prelude.Equality.{bytes_eq}
use summerpoem_cli.Core.Encode.{
  DecodeError, invalid, Reader, new_reader, Parser, ◌>>=◌, pure, fail, read_u8, read_array,
  read_u32, read_u64, read_vec, read_count, read_many, finish, put_u8, put_u32, put_u64, put_vec,
}
use summerpoem_cli.Core.Encode.Reading.{concat_map}
use summerpoem_cli.Core.Hash.{Hash256, sha3}
pub mod RoundTrip

abbrev pub txid_tag : List ℕ
txid_tag = bytes "sump/txid/v1"

abbrev pub sighash_tag : List ℕ
sighash_tag = bytes "sump/sighash/v1"

abbrev pub witness_tag : List ℕ
witness_tag = bytes "sump/witness/v1"

abbrev pub max_coinbase_extra : ℕ
max_coinbase_extra = 100

abbrev pub max_tx_io : ℕ
max_tx_io = 100_000

abbrev pub coinbase_version_marker : List ℕ
coinbase_version_marker = bytes "SUMP"

-- The three bytes at `end`, `end + 1` and `end + 2`, which the length test has made sure of.
unfoldable pub three_bytes : List ℕ → Option (ℕ × ℕ × ℕ)
three_bytes (a ∷ b ∷ c ∷ _) = some (a, b, c)
three_bytes _ = none

unfoldable pub coinbase_version : List ℕ → Option (ℕ × ℕ × ℕ)
unfolding three_bytes bytes_eq
coinbase_version coinbase_data =
    let start : ℕ = 8 in
    let end : ℕ = start + 4 in
    if leb (end + 3) (length coinbase_data)
      && bytes_eq (take (end - start) (drop start coinbase_data)) coinbase_version_marker
    then three_bytes (drop end coinbase_data)
    else none

pub record OutPoint : Type 0 where
  pub txid : Hash256
  pub vout : ℕ

pub data SigScheme : Type 0 where
  ml_dsa slh_dsa : SigScheme

unfoldable pub scheme_id : SigScheme → ℕ
scheme_id ml_dsa = 0
scheme_id slh_dsa = 1

unfoldable pub scheme_from_id : ℕ → Option SigScheme
scheme_from_id id = if id == 0 then some ml_dsa else if id == 1 then some slh_dsa else none

pub data Lock : Type 0 where
  -- pay to a key hash under a scheme
  p2pkh : SigScheme → List ℕ → Lock
  -- the same, but unspendable before a height
  timelock : SigScheme → List ℕ → ℕ → Lock

unfoldable pub lock_pkh : Lock → List ℕ
lock_pkh (p2pkh scheme pkh) = pkh
lock_pkh (timelock scheme pkh height) = pkh

unfoldable pub lock_scheme : Lock → SigScheme
lock_scheme (p2pkh scheme pkh) = scheme
lock_scheme (timelock scheme pkh height) = scheme

unfoldable pub encode_lock : Lock → List ℕ
encode_lock (p2pkh scheme pkh) = put_u8 0 ++ (put_u8 (scheme_id scheme) ++ pkh)
encode_lock (timelock scheme pkh height) =
    put_u8 1 ++ (put_u8 (scheme_id scheme) ++ (pkh ++ put_u64 height))

unfoldable pub some_scheme : Option SigScheme → Parser SigScheme
some_scheme none = fail (invalid "unknown signature scheme")
some_scheme (some scheme) = pure scheme

unfoldable pub read_scheme : Parser SigScheme
read_scheme = do id ← read_u8; some_scheme (scheme_from_id id)

unfoldable pub decode_p2pkh : Parser Lock
decode_p2pkh = do scheme ← read_scheme; pkh ← read_array 20; pure (p2pkh scheme pkh)

unfoldable pub decode_timelock : Parser Lock
decode_timelock = do
  scheme ← read_scheme
  pkh ← read_array 20
  height ← read_u64
  pure (timelock scheme pkh height)

unfoldable pub decode_lock : Parser Lock
decode_lock = do
  tag ← read_u8
  if tag == 0
      then decode_p2pkh
      else if tag == 1
      then decode_timelock
      else fail (invalid "unknown lock type")

pub record TxOutput : Type 0 where
  pub amount : ℕ
  pub lock : Lock

unfoldable pub encode_output : TxOutput → List ℕ
encode_output o = put_u64 o.amount ++ encode_lock o.lock

unfoldable pub decode_output : Parser TxOutput
decode_output = do
  amount ← read_u64
  lock ← decode_lock
  pure (record { amount = amount; lock = lock })

pub record TxInput : Type 0 where
  pub prevout : OutPoint

pub record TxBody : Type 0 where
  pub version : ℕ
  pub inputs : List TxInput
  pub outputs : List TxOutput
  pub locktime : ℕ
  pub coinbase_data : List ℕ

-- One round of the loop over the inputs in `TxBody::encode`, and of the one in `TxBody::decode`.
unfoldable pub encode_input : TxInput → List ℕ
encode_input i = i.prevout.txid ++ put_u32 i.prevout.vout

unfoldable pub decode_input : Parser TxInput
decode_input = do
  txid ← read_array 32
  vout ← read_u32
  pure (record { prevout = record { txid = txid; vout = vout } })

unfoldable pub encode_body : TxBody → List ℕ
encode_body b =
    put_u32 b.version
    ++ (put_u32 (length b.inputs % 2 ^ 32)
        ++ (concat_map encode_input b.inputs
            ++ (put_u32 (length b.outputs % 2 ^ 32)
                ++ (concat_map encode_output b.outputs
                    ++ (put_u64 b.locktime ++ put_vec b.coinbase_data)))))

unfoldable pub decode_body : Parser TxBody
decode_body = do
  version ← read_u32
  n_in ← read_count max_tx_io
  inputs ← read_many n_in decode_input
  n_out ← read_count max_tx_io
  outputs ← read_many n_out decode_output
  locktime ← read_u64
  coinbase_data ← read_vec
  pure (record {
    version = version;
    inputs = inputs;
    outputs = outputs;
    locktime = locktime;
    coinbase_data = coinbase_data;
  })

unfoldable pub is_coinbase : TxBody → Bool
is_coinbase b = elim b.inputs [ [] ↦ true | _ ∷ _ ↦ false ]

pub record Witness : Type 0 where
  pub pubkey : List ℕ
  pub signature : List ℕ

pub record Transaction : Type 0 where
  pub body : TxBody
  pub witnesses : List Witness

unfoldable pub encode_witness : Witness → List ℕ
encode_witness w = put_vec w.pubkey ++ put_vec w.signature

unfoldable pub encode_witness_section : Transaction → List ℕ
encode_witness_section tx =
    put_u32 (length tx.witnesses % 2 ^ 32) ++ concat_map encode_witness tx.witnesses

unfoldable pub encode_tx : Transaction → List ℕ
encode_tx tx = put_vec (encode_body tx.body) ++ encode_witness_section tx

unfoldable pub decode_witness : Parser Witness
decode_witness = do
  pubkey ← read_vec
  signature ← read_vec
  pure (record { pubkey = pubkey; signature = signature })

-- A decoder run on all of a byte string: `decode`, then `finish`.
unfoldable pub decode_whole : {A : Type 0} → Parser A → List ℕ → Result DecodeError A
decode_whole d bs = elim (d (new_reader bs)) [
  | ok (a, r) ↦ elim (finish r) [ ok _ ↦ ok a | err e ↦ err e ]
  | err e ↦ err e
]

-- `?` on a result that does not move the reader.
unfoldable pub lift : {A : Type 0} → Result DecodeError A → Parser A
lift (ok a) = pure a
lift (err e) = fail e

unfoldable pub decode_tx : Parser Transaction
decode_tx = do
  body_bytes ← read_vec
  body ← lift (decode_whole decode_body body_bytes)
  n_wit ← read_count max_tx_io
  witnesses ← read_many n_wit decode_witness
  pure (record { body = body; witnesses = witnesses })

unfoldable pub decode_all : List ℕ → Result DecodeError Transaction
decode_all = decode_whole decode_tx

unfoldable pub size : Transaction → ℕ
size tx = length (encode_tx tx)

module _ (digest : List ℕ → Hash256) where
  unfoldable pub txid : TxBody → Hash256
  txid b = sha3 digest (txid_tag ∷ encode_body b ∷ [])

  unfoldable pub sighash : TxBody → ℕ → TxOutput → Hash256
  sighash b input_index prev_output =
      sha3 digest
        (sighash_tag ∷ encode_body b ∷ (put_u32 input_index ++ encode_output prev_output) ∷ [])

  unfoldable pub witness_hash : Transaction → Hash256
  witness_hash tx = sha3 digest (witness_tag ∷ encode_witness_section tx ∷ [])
