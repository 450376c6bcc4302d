-- ===== src/Programs/Rpc/Fetch.antt =====
-- A light wallet's request to a node and the node's answer.
use summerpoem_cli.Prelude.{
  ℕ, ◌+◌, ◌<◌, ◌≡◌, refl, ap, ◌∙◌, arith, inl, inr, Bool, true, false, ◌&&◌, not, leb, ltb, ◌==◌,
  ◌||◌, List, [], ◌∷◌, map, All, Bool-cases,
}
use summerpoem_cli.Prelude.Text.{bytes}
use summerpoem_cli.Prelude.Equality.{bytes_eq}
use summerpoem_cli.Prelude.Result.{ok, ◌>>=◌}
use summerpoem_cli.Prelude.Checked.{u64_mod}
use summerpoem_cli.Prelude.Dictionary.{contains_key}
use summerpoem_cli.Core.Hex.{Hex, IsHex, IsPlainChar, to_hex}
use summerpoem_cli.Core.Tx.{OutPoint, SigScheme, ml_dsa, slh_dsa, scheme_id, lock_scheme, lock_pkh}
use summerpoem_cli.Node.Utxo.{Utxo, Utxos}
use summerpoem_cli.Node.Chain.{ChainState}
use summerpoem_cli.Node.Chain.Queries.{chain_height}
use summerpoem_cli.Net.Address.{HashSet}
use summerpoem_cli.Wallet.{KeyId, id_Eq, id_of_lock}
use summerpoem_cli.Programs.Json.{
  JsonParser, Reads, IsPlain, ItemsPlain, print, get_field, lookup, as_u64, as_str, as_array,
}
use summerpoem_cli.Programs.Ledger.{has_id, owned_utxos}
use summerpoem_cli.Programs.Rpc.{
  wanted_keys, utxo_json, utxo_items, reply_json, rpc_utxos, answer_utxos, key_json, key_items,
  request_json, reply_of, parse_reply, fetch_utxos,
}
use summerpoem_cli.Programs.Rpc.Reply.{
  KeyFits, EntryFits, relocked, contains_key-wanted_keys, read_utxos-utxo_items,
}

abbrev is_plain : List ℕ → Bool
is_plain [] = true
is_plain (c ∷ cs) = (leb 32 c && ltb c 127 && not (c == 34) && not (c == 92)) && is_plain cs

plain_text : (s : List ℕ) → is_plain s ≡ true → All IsPlainChar s
plain_text [] h = tt
plain_text (c ∷ cs) h =
    ((ground arith, ground arith, ground arith, ground arith), plain_text cs (ground arith))

-- The ranges of the Rust types, in a chain.
pub record ChainFits (chain : ChainState) : Type 0 where
  pub height_fits : chain_height chain + 1 < u64_mod
  pub maturity_fits : chain.params.coinbase_maturity < u64_mod
  pub entries_fit : All EntryFits chain.utxos

scheme_id-fits : (s : SigScheme) → scheme_id s < u64_mod
unfolding scheme_id
scheme_id-fits ml_dsa = omega arith
scheme_id-fits slh_dsa = omega arith

or_empty : (id : KeyId) (b : Bool) → (b || contains_key {V = Unit {0}} id []) ≡ b
unfolding contains_key
or_empty id true = refl
or_empty id false = refl

module _ (hex : Hex) (law : IsHex hex) where
  key_items-ItemsPlain : (ids : List KeyId) → All KeyFits ids → ItemsPlain (key_items hex ids)
  unfolding IsPlain key_items key_json
  key_items-ItemsPlain [] h = tt
  key_items-ItemsPlain ((scheme, pkh) ∷ ids) (h, hs) = (
    (
      plain_text (bytes "scheme") refl,
      omega (arith, h.scheme_fits),
      (plain_text (bytes "pkh") refl, law.plain pkh, tt),
    ),
    key_items-ItemsPlain ids hs,
  )

  utxo_json-IsPlain : (op : OutPoint) (u : Utxo) → EntryFits (op, u) → IsPlain (utxo_json hex op u)
  unfolding IsPlain utxo_json id_of_lock to_hex
  utxo_json-IsPlain op u h = (
    plain_text (bytes "txid") refl,
    law.plain op.txid,
    (
      plain_text (bytes "vout") refl,
      omega (arith, h.vout_fits),
      (
        plain_text (bytes "amount") refl,
        h.amount_fits,
        (
          plain_text (bytes "scheme") refl,
          scheme_id-fits (lock_scheme u.output.lock),
          (
            plain_text (bytes "pkh") refl,
            law.plain (lock_pkh u.output.lock),
            (
              plain_text (bytes "coinbase") refl,
              tt,
              (plain_text (bytes "height") refl, h.height_fits, tt),
            ),
          ),
        ),
      ),
    ),
  )

  utxo_items-ItemsPlain :
      (want : HashSet KeyId) (utxos : Utxos)
      → All EntryFits utxos
      → ItemsPlain (utxo_items hex want utxos)
  unfolding IsPlain utxo_items
  utxo_items-ItemsPlain want [] h = tt
  utxo_items-ItemsPlain want ((op, u) ∷ utxos) (h, hs) =
      let rest = utxo_items-ItemsPlain want utxos hs in
      elim (Bool-cases (contains_key (id_of_lock u.output.lock) want)) [
        | inl e ↦ rw (e, utxo_items) (utxo_json-IsPlain op u h, rest)
        | inr e ↦ rw (e, utxo_items) rest
      ]

  request_json-IsPlain : (ids : List KeyId) → All KeyFits ids → IsPlain (request_json hex ids)
  unfolding IsPlain request_json
  request_json-IsPlain ids h = (plain_text (bytes "keys") refl, key_items-ItemsPlain ids h, tt)

  reply_json-IsPlain :
      (chain : ChainState) (want : HashSet KeyId)
      → ChainFits chain
      → IsPlain (reply_json hex chain want)
  unfolding IsPlain reply_json
  reply_json-IsPlain chain want h = (
    plain_text (bytes "height") refl,
    omega (arith, h.height_fits),
    (
      plain_text (bytes "maturity") refl,
      h.maturity_fits,
      (plain_text (bytes "utxos") refl, utxo_items-ItemsPlain want chain.utxos h.entries_fit, tt),
    ),
  )

  request-served :
      (parse : JsonParser) (chain : ChainState) (ids : List KeyId)
      → Reads parse (request_json hex ids)
      → All KeyFits ids
      → rpc_utxos hex parse chain (print (request_json hex ids))
        ≡ print (reply_json hex chain (wanted_keys hex (key_items hex ids) []))
  unfolding rpc_utxos answer_utxos request_json get_field lookup as_array bytes_eq
  request-served parse chain ids request fit =
      ap (answer_utxos hex chain) (request.reads (request_json-IsPlain ids fit))

  reply-read :
      (chain : ChainState) (ids : List KeyId)
      → All KeyFits ids
      → All EntryFits chain.utxos
      → let v = reply_json hex chain (wanted_keys hex (key_items hex ids) []) in
        reply_of hex v (as_str (get_field (bytes "error") v))
        ≡ ok (record {
          height = chain_height chain;
          maturity = chain.params.coinbase_maturity;
          utxos = map relocked (owned_utxos ids chain.utxos);
        })
  unfolding reply_of reply_json get_field lookup as_array as_u64 as_str bytes_eq
  reply-read chain ids fit fits =
      let want = wanted_keys hex (key_items hex ids) [] in
      let same : (id : KeyId) → contains_key id want ≡ has_id id ids =
        λ id. contains_key-wanted_keys hex law id ids [] fit ∙ or_empty id (has_id id ids) in
      rw (read_utxos-utxo_items hex law ids want chain.utxos same fits) refl

  -- The node is asked for some keys by a text that its parser reads, and answers with a text that the
  -- client's parser reads: the client then has the node's height and maturity, and of every output
  -- of the chain under one of the keys all but a height in its lock, for which the answer has no
  -- place: each lock comes to it as a plain one. The hex crate reads back what it writes, and the
  -- numbers and lengths are in the ranges of their types.
  pub fetch_utxos-rpc_utxos :
      (parse : JsonParser) (chain : ChainState) (ids : List KeyId)
      → Reads parse (request_json hex ids)
      → Reads parse (reply_json hex chain (wanted_keys hex (key_items hex ids) []))
      → All KeyFits ids
      → ChainFits chain
      → fetch_utxos hex parse (λ path body. ok (rpc_utxos hex parse chain body)) ids
        ≡ ok (record {
          height = chain_height chain;
          maturity = chain.params.coinbase_maturity;
          utxos = map relocked (owned_utxos ids chain.utxos);
        })
  unfolding fetch_utxos parse_reply ◌>>=◌
  fetch_utxos-rpc_utxos parse chain ids request reply fit fits =
      let told =
        reply.reads (reply_json-IsPlain chain (wanted_keys hex (key_items hex ids) []) fits) in
      rw (request-served parse chain ids request fit, told)
        (reply-read chain ids fit fits.entries_fit)
