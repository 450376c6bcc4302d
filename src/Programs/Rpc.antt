-- ===== src/Programs/Rpc.antt =====
-- The wallet RPC: `rpc_utxos` of crates/cli/src/dashboard.rs and its client `fetch_utxos` in
-- crates/wallet-cli/src/rpc.rs, between texts. What carries a request to the node and its answer back
-- is the argument `post`.
use summerpoem_cli.Prelude.{
  ℕ, ◌+◌, ◌%◌, ◌^◌, Bool, true, false, Option, none, some, List, [], ◌∷◌, ◌++◌, map, if◌then◌else◌,
}
use summerpoem_cli.Prelude.Text.{bytes}
use summerpoem_cli.Prelude.Result.{Result, ok, err, ◌>>=◌, ok_or}
use summerpoem_cli.Prelude.Dictionary.{insert, contains_key}
use summerpoem_cli.Core.Hex.{Hex, to_hex, from_hex, array_of}
use summerpoem_cli.Core.Encode.{DecodeError}
use summerpoem_cli.Core.Tx.{
  OutPoint, SigScheme, scheme_from_id, Lock, p2pkh, TxOutput, Transaction, txid, encode_tx,
  decode_all,
}
use summerpoem_cli.Crypto.{Primitives}
use summerpoem_cli.Node.Utxo.{Utxo, Utxos}
use summerpoem_cli.Node.Chain.{ChainState}
use summerpoem_cli.Node.Chain.Queries.{chain_height}
use summerpoem_cli.Node.Mempool.{MempoolError}
use summerpoem_cli.Net.Address.{HashSet}
use summerpoem_cli.Net.Message.{Message}
use summerpoem_cli.Net.Node.{Shared}
use summerpoem_cli.Wallet.{OwnedUtxo, KeyId, id_Eq, id_of_lock}
use summerpoem_cli.Programs.Json.{
  Json, boolean, number, string, array, object, Items, nil, cons, Fields, end, field, JsonParser,
  print, get_field, as_u64, as_bool, as_str, str_or_empty, as_array, json_escape,
}
pub mod Reply
pub mod Fetch

-- What `anyhow` reports, by the text that it is given or by its case.
pub data ClientError : Type 0 where
  unreachable unexpected_reply : ClientError
  bad_reply node_error rejected_tx : List ℕ → ClientError

pub record UtxoReply : Type 0 where
  pub height : ℕ
  pub maturity : ℕ
  pub utxos : List OwnedUtxo

-- `{"error":"..."}`
unfoldable pub error_json : List ℕ → Json
error_json text = object (field (bytes "error") (string text) end)

unfoldable pub insert_key : ℕ → Option (List ℕ) → HashSet KeyId → HashSet KeyId
insert_key scheme none want = want
insert_key scheme (some pkh) want = insert (scheme, pkh) tt want

unfoldable pub push_some : Option OwnedUtxo → List OwnedUtxo → List OwnedUtxo
push_some none utxos = utxos
push_some (some u) utxos = u ∷ utxos

unfoldable pub parse_reply : Result (List ℕ) Json → Result ClientError Json
parse_reply (err e) = err (bad_reply e)
parse_reply (ok v) = ok v

module _ (hex : Hex) where
  -- The loop over the requested keys.
  unfoldable pub wanted_keys : Items → HashSet KeyId → HashSet KeyId
  unfolding insert_key
  wanted_keys nil want = want
  wanted_keys (cons key keys) want =
      let scheme = as_u64 (get_field (bytes "scheme") key) 255 % 2 ^ 8 in
      let pkh = array_of 20 (hex.decode_hex (str_or_empty (get_field (bytes "pkh") key))) in
      wanted_keys keys (insert_key scheme pkh want)

  unfoldable pub utxo_json : OutPoint → Utxo → Json
  utxo_json op u =
      let (scheme, pkh) = id_of_lock u.output.lock in
      object (
        field (bytes "txid") (string (to_hex hex op.txid)) (
          field (bytes "vout") (number op.vout) (
            field (bytes "amount") (number u.output.amount) (
              field (bytes "scheme") (number scheme) (
                field (bytes "pkh") (string (hex.encode_hex pkh)) (
                  field (bytes "coinbase") (boolean u.coinbase)
                    (field (bytes "height") (number u.height) end)))))))

  -- The loop over the unspent outputs.
  unfoldable pub utxo_items : HashSet KeyId → Utxos → Items
  unfolding utxo_json
  utxo_items want [] = nil
  utxo_items want ((op, u) ∷ utxos) =
      let rest = utxo_items want utxos in
      if contains_key (id_of_lock u.output.lock) want then cons (utxo_json op u) rest else rest

  unfoldable pub reply_json : ChainState → HashSet KeyId → Json
  unfolding utxo_items
  reply_json chain want = object (
      field (bytes "height") (number (chain_height chain)) (
        field (bytes "maturity") (number chain.params.coinbase_maturity)
          (field (bytes "utxos") (array (utxo_items want chain.utxos)) end)))

  unfoldable pub answer_utxos : ChainState → Result (List ℕ) Json → List ℕ
  unfolding error_json reply_json wanted_keys
  answer_utxos chain (err e) = print (error_json (bytes "bad request: " ++ json_escape e))
  answer_utxos chain (ok v) =
      print (reply_json chain (wanted_keys (as_array (get_field (bytes "keys") v)) []))

  unfoldable pub rpc_utxos : JsonParser → ChainState → List ℕ → List ℕ
  unfolding answer_utxos
  rpc_utxos parse chain body = answer_utxos chain (parse body)

  unfoldable pub key_json : KeyId → Json
  key_json (scheme, pkh) = object (
      field (bytes "scheme") (number scheme)
        (field (bytes "pkh") (string (hex.encode_hex pkh)) end))

  unfoldable pub key_items : List KeyId → Items
  unfolding key_json
  key_items [] = nil
  key_items (id ∷ ids) = cons (key_json id) (key_items ids)

  unfoldable pub request_json : List KeyId → Json
  unfolding key_items
  request_json owned_ids = object (field (bytes "keys") (array (key_items owned_ids)) end)

  -- What `fetch_utxos` makes of the parts of an item that may be missing or wrong: `continue` is `none`.
  unfoldable pub read_utxo : Json → Option OwnedUtxo
  read_utxo it = elim (from_hex hex (str_or_empty (get_field (bytes "txid") it))) [
    | none ↦ none
    | some txid ↦ elim (array_of 20 (hex.decode_hex (str_or_empty (get_field (bytes "pkh") it)))) [
      | none ↦ none
      | some pkh ↦ elim (scheme_from_id (as_u64 (get_field (bytes "scheme") it) 0 % 2 ^ 8)) [
        | none ↦ none
        | some scheme ↦ some (record {
          outpoint = record { txid = txid; vout = as_u64 (get_field (bytes "vout") it) 0 % 2 ^ 32 };
          output = record {
            amount = as_u64 (get_field (bytes "amount") it) 0;
            lock = p2pkh scheme pkh;
          };
          coinbase = as_bool (get_field (bytes "coinbase") it) false;
          height = as_u64 (get_field (bytes "height") it) 0;
        })
      ]
    ]
  ]

  unfoldable pub read_utxos : Items → List OwnedUtxo
  unfolding read_utxo push_some
  read_utxos nil = []
  read_utxos (cons it items) = push_some (read_utxo it) (read_utxos items)

  -- A reply, or the node's error.
  unfoldable pub reply_of : Json → Option (List ℕ) → Result ClientError UtxoReply
  unfolding read_utxos
  reply_of v (some e) = err (node_error e)
  reply_of v none = ok (record {
    height = as_u64 (get_field (bytes "height") v) 0;
    maturity = as_u64 (get_field (bytes "maturity") v) 100;
    utxos = read_utxos (as_array (get_field (bytes "utxos") v));
  })

  unfoldable pub fetch_utxos :
      JsonParser
      → (List ℕ → List ℕ → Result ClientError (List ℕ))
      → List KeyId
      → Result ClientError UtxoReply
  unfolding request_json parse_reply reply_of
  fetch_utxos parse post owned_ids = do
    raw ← post (bytes "/api/utxos") (print (request_json owned_ids))
    v ← parse_reply (parse raw)
    reply_of v (as_str (get_field (bytes "error") v))
