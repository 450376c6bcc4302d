-- ===== src/Programs/Rpc/Reply.antt =====
-- What a light wallet is told of its outputs.
use summerpoem_cli.Prelude.{
  ◌%◌, ◌^◌, ◌<◌, ◌≡◌, refl, ap, ◌∙◌, arith, inl, inr, Bool, true, false, ◌||◌, some, List, [], ◌∷◌,
  map, length, All, Bool-cases,
}
use summerpoem_cli.Prelude.Checked.{u64_mod}
use summerpoem_cli.Prelude.Dictionary.{insert, contains_key, contains_key-insert}
use summerpoem_cli.Prelude.Equality.{bytes_eq}
use summerpoem_cli.Core.Encode.Words.{IsByte}
use summerpoem_cli.Core.Hash.{IsHash}
use summerpoem_cli.Core.Hex.{Hex, IsHex, array_of-some, from_hex-to_hex}
use summerpoem_cli.Core.Tx.{
  OutPoint, SigScheme, ml_dsa, slh_dsa, scheme_id, scheme_from_id, p2pkh, lock_pkh, lock_scheme,
}
use summerpoem_cli.Node.Utxo.{Utxo, Utxos}
use summerpoem_cli.Net.Address.{HashSet}
use summerpoem_cli.Wallet.{OwnedUtxo, KeyId, id_eq, id_Eq, id_of_lock}
use summerpoem_cli.Programs.Json.{Items, cons, get_field, lookup, as_u64, as_bool, str_or_empty}
use summerpoem_cli.Programs.Ledger.{has_id, owned_entry, owned_utxos}
use summerpoem_cli.Programs.Rpc.{
  insert_key, wanted_keys, utxo_json, utxo_items, key_json, key_items, read_utxo, push_some,
  read_utxos,
}

-- The ranges of the Rust types.
pub record KeyFits (id : KeyId) : Type 0 where
  pub scheme_fits : id.0 < 256
  pub pkh_length : length id.1 ≡ 20
  pub pkh_bytes : All IsByte id.1

pub record EntryFits (entry : OutPoint × Utxo) : Type 0 where
  pub txid_length : IsHash entry.0.txid
  pub txid_bytes : All IsByte entry.0.txid
  pub vout_fits : entry.0.vout < 2 ^ 32
  pub amount_fits : entry.1.output.amount < u64_mod
  pub height_fits : entry.1.height < u64_mod
  pub pkh_length : length (lock_pkh entry.1.output.lock) ≡ 20
  pub pkh_bytes : All IsByte (lock_pkh entry.1.output.lock)

-- What the reply keeps of an output: its lock is a plain one.
unfoldable pub relocked : OwnedUtxo → OwnedUtxo
relocked u = record u {
  output = record u.output { lock = p2pkh (lock_scheme u.output.lock) (lock_pkh u.output.lock) };
}

or_left_comm : (a b c : Bool) → (a || (b || c)) ≡ ((b || a) || c)
or_left_comm true true c = refl
or_left_comm true false c = refl
or_left_comm false true c = refl
or_left_comm false false c = refl

scheme_of_id : (s : SigScheme) → scheme_from_id (scheme_id s % 2 ^ 8) ≡ some s
unfolding scheme_from_id scheme_id
scheme_of_id ml_dsa = refl
scheme_of_id slh_dsa = refl

module _ (hex : Hex) (law : IsHex hex) where
  wanted_keys-cons :
      (id : KeyId) (keys : Items) (want : HashSet KeyId)
      → KeyFits id
      → wanted_keys hex (cons (key_json hex id) keys) want
        ≡ wanted_keys hex keys (insert id tt want)
  unfolding wanted_keys key_json get_field lookup as_u64 str_or_empty insert_key bytes_eq
  wanted_keys-cons (scheme, pkh) keys want h =
      let small : scheme % 2 ^ 8 ≡ scheme = omega (arith, h.scheme_fits) in
      rw (law.decodes pkh h.pkh_bytes, array_of-some 20 pkh h.pkh_length, small) refl

  -- The node looks for the ids that were sent.
  pub contains_key-wanted_keys :
      (id : KeyId) (ids : List KeyId) (want : HashSet KeyId)
      → All KeyFits ids
      → contains_key id (wanted_keys hex (key_items hex ids) want)
        ≡ (has_id id ids || contains_key id want)
  unfolding key_items has_id wanted_keys
  contains_key-wanted_keys id [] want h = refl
  contains_key-wanted_keys id (i ∷ ids) want (h, hs) =
      ap (contains_key id) (wanted_keys-cons i (key_items hex ids) want h)
      ∙ contains_key-wanted_keys id ids (insert i tt want) hs
      ∙ ap (λ b. has_id id ids || b) (contains_key-insert id i tt want)
      ∙ or_left_comm (has_id id ids) (id_eq id i) (contains_key id want)

  read_utxo-utxo_json :
      (op : OutPoint) (u : Utxo)
      → EntryFits (op, u)
      → read_utxo hex (utxo_json hex op u) ≡ some (relocked (owned_entry op u))
  unfolding read_utxo utxo_json get_field lookup as_u64 as_bool str_or_empty relocked owned_entry
      id_of_lock bytes_eq
  read_utxo-utxo_json op u h =
      let small : op.vout % 2 ^ 32 ≡ op.vout = omega (arith, h.vout_fits) in
      rw
        (
          from_hex-to_hex hex law op.txid h.txid_length h.txid_bytes,
          read_utxo,
          law.decodes (lock_pkh u.output.lock) h.pkh_bytes,
          array_of-some 20 (lock_pkh u.output.lock) h.pkh_length,
          scheme_of_id (lock_scheme u.output.lock),
          small,
        )
        refl

  -- The client makes of the reply's items the wallet's outputs, with plain locks.
  pub read_utxos-utxo_items :
      (ids : List KeyId) (want : HashSet KeyId) (utxos : Utxos)
      → ((id : KeyId) → contains_key id want ≡ has_id id ids)
      → All EntryFits utxos
      → read_utxos hex (utxo_items hex want utxos) ≡ map relocked (owned_utxos ids utxos)
  unfolding read_utxos utxo_items owned_utxos push_some
  read_utxos-utxo_items ids want [] same h = refl
  read_utxos-utxo_items ids want ((op, u) ∷ utxos) same (h, hs) =
      let rest = read_utxos-utxo_items ids want utxos same hs in
      elim (Bool-cases (has_id (id_of_lock u.output.lock) ids)) [
        | inl e ↦
            rw (same (id_of_lock u.output.lock), e, read_utxo-utxo_json op u h)
              (ap (λ l. relocked (owned_entry op u) ∷ l) rest)
        | inr e ↦ rw (same (id_of_lock u.output.lock), e) rest
      ]
