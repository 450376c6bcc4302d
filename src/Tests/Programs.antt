-- ===== src/Tests/Programs.antt =====
-- The programs' theorems at a small chain.
use summerpoem_cli.Prelude.{
  ℕ, ◌+◌, ◌-◌, ◌*◌, ◌/◌, ◌%◌, ◌≤◌, ◌≡◌, refl, arith, Bool, true, false, ◌&&◌, none, some, Option,
  List, [], ◌∷◌, ◌++◌, length, map, replicate, if◌then◌else◌, ltb, All,
}
use summerpoem_cli.Prelude.Text.{bytes}
use summerpoem_cli.Prelude.Result.{ok, err}
use summerpoem_cli.Prelude.Equality.{bytes_eq, bytes_eq_iff}
use summerpoem_cli.Core.Encode.Words.{IsByte}
use summerpoem_cli.Core.Hex.{Hex, IsHex, IsPlainChar}
use summerpoem_cli.Core.Tx.{ml_dsa, Transaction, txid}
use summerpoem_cli.Tests.Sample.{digest, primitives, pow, params, genesis, coinbase, owner}
use summerpoem_cli.Node.Chain.{ChainState}
use summerpoem_cli.Node.Chain.Queries.{chain_height}
use summerpoem_cli.Node.Mempool.{validate_standalone_tx}
use summerpoem_cli.Wallet.{Wallet, KeyId, owned_ids}
use summerpoem_cli.Programs.Amount.{format_sump, parse_sump, amount_overflow}
use summerpoem_cli.Programs.Amount.RoundTrip.{parse_sump-format_sump}
use summerpoem_cli.Programs.Json.{Json, JsonParser, Reads, print}
use summerpoem_cli.Programs.Rpc.{
  wanted_keys, key_items, request_json, reply_json, rpc_utxos, fetch_utxos,
}
use summerpoem_cli.Programs.Rpc.Reply.{KeyFits, relocked}
use summerpoem_cli.Programs.Rpc.Fetch.{ChainFits, fetch_utxos-rpc_utxos}
use summerpoem_cli.Programs.Start.{load_state, save_state}
use summerpoem_cli.Programs.Start.Sound.{load_state-IsValid}
use summerpoem_cli.Core.Emission.{supply_cap}
use summerpoem_cli.Node.Store.{save_bytes}
use summerpoem_cli.Node.Utxo.{value}
use summerpoem_cli.Node.Chain.Active.{IsLinkedChain}
use summerpoem_cli.Node.Chain.Invariant.{IsValid}
use summerpoem_cli.Programs.Light.{hrp_for, recipient, query_balance, payment}
use summerpoem_cli.Programs.Light.Same.{IsPlainLock, node_of, Connects}
use summerpoem_cli.Programs.Light.Pays.{same, payment-validate_standalone_tx}
use summerpoem_cli.Programs.Ledger.{balance, send, owned_utxos, balances_for}
use summerpoem_cli.Programs.Ledger.Valid.{send-validate_standalone_tx}
use summerpoem_cli.Tests.Run.{everything}
use summerpoem_cli.Tests.Chain.{first_state, first_state-IsValid, never_zero}
use summerpoem_cli.Tests.Wallet.{crypto, signer, signer-IsSigner, wallet, plain}

parse_sump-format_sump_example : parse_sump (format_sump 150_000_007) ≡ ok 150_000_007
parse_sump-format_sump_example = parse_sump-format_sump 150_000_007 (omega arith)

-- A sign inside the decimals is taken.
signed_run : parse_sump (bytes "1.+5") ≡ ok 105_000_000
unfolding everything
signed_run = refl

too_much_run : parse_sump (bytes "184467440738") ≡ err amount_overflow
unfolding everything
too_much_run = refl

balance_run : balance crypto signer wallet first_state ≡ 1000
unfolding first_state everything
balance_run = refl

send-validate_standalone_tx_example :
    (tx : Transaction) × (send crypto signer wallet first_state ml_dsa (replicate 20 3) 300 20
      ≡ ok tx)
    × (validate_standalone_tx crypto first_state tx ≡ ok 20)
send-validate_standalone_tx_example =
    send-validate_standalone_tx crypto signer signer-IsSigner first_state first_state-IsValid wallet
      ml_dsa (replicate 20 3) 300 20 (omega arith) (omega (arith, balance_run))

-- A hex codec with the letters from A on.
abbrev letters : List ℕ → List ℕ
letters [] = []
letters (b ∷ bs) = (65 + b / 16 % 16) ∷ (65 + b % 16) ∷ letters bs

abbrev unletters : List ℕ → Option (List ℕ)
unletters [] = some []
unletters (c ∷ []) = none
unletters (c ∷ d ∷ cs) =
    let rest = unletters cs in
    elim rest [ none ↦ none | some bs ↦ some (((c - 65) * 16 + (d - 65)) ∷ bs) ]

abbrev hex : Hex
hex = record { encode_hex = letters; decode_hex = unletters }

unletters-letters : (bs : List ℕ) → All IsByte bs → unletters (letters bs) ≡ some bs
unletters-letters [] h = refl
unletters-letters (b ∷ bs) (h, hs) =
    let same : (65 + b / 16 % 16 - 65) * 16 + (65 + b % 16 - 65) ≡ b = omega arith in
    rw (unletters-letters bs hs, same) refl

letters-plain : (bs : List ℕ) → All IsPlainChar (letters bs)
letters-plain [] = tt
letters-plain (b ∷ bs) = (
  (omega arith, omega arith, omega arith, omega arith),
  ((omega arith, omega arith, omega arith, omega arith), letters-plain bs),
)

hex-IsHex : IsHex hex
hex-IsHex = record { decodes = unletters-letters; plain = letters-plain }

abbrev are_bytes : List ℕ → Bool
are_bytes [] = true
are_bytes (b ∷ bs) = ltb b 256 && are_bytes bs

are_bytes-IsByte : (bs : List ℕ) → are_bytes bs ≡ true → All IsByte bs
are_bytes-IsByte [] h = tt
are_bytes-IsByte (b ∷ bs) h = (ground arith, are_bytes-IsByte bs (ground arith))

-- A parser that knows two texts.
abbrev knows : Json → Json → JsonParser
knows j j' text = if bytes_eq text (print j) then ok j else ok j'

knows-Reads : (j j' : Json) → Reads (knows j j') j
knows-Reads j j' = record {
  reads = λ h.
      let e : bytes_eq (print j) (print j) ≡ true = (bytes_eq_iff (print j) (print j)).1 refl in
      rw e refl;
}

knows-Reads_other : (j j' : Json) → bytes_eq (print j') (print j) ≡ false → Reads (knows j j') j'
knows-Reads_other j j' e = record { reads = λ h. rw e refl }

-- The wallet of the main network, and a chain of it.
abbrev light : Wallet
light = record wallet { file = record wallet.file { network = bytes "mainnet" } }

unfoldable chain : ChainState
chain = record first_state { params = record first_state.params { address_hrp = bytes "sump" } }

abbrev ids : List KeyId
ids = owned_ids crypto signer light

key_fits :
    (id : KeyId) → ltb id.0 256 ≡ true → length id.1 ≡ 20 → are_bytes id.1 ≡ true → KeyFits id
key_fits id a b c = record {
  scheme_fits = ground arith;
  pkh_length = b;
  pkh_bytes = are_bytes-IsByte id.1 c;
}

ids-fit : All KeyFits ids
unfolding everything
ids-fit = (key_fits _ refl refl refl, (key_fits _ refl refl refl, tt))

hash_fits : (h : List ℕ) (n : ℕ) → are_bytes h ≡ true → length h ≡ n → All IsByte h × (length h ≡ n)
hash_fits h n a b = (are_bytes-IsByte h a, b)

chain-ChainFits : ChainFits chain
unfolding chain first_state everything
chain-ChainFits =
    let id = hash_fits (txid digest (coinbase 0 1000).body) 32 refl refl in
    let pkh = hash_fits owner 20 refl refl in
    record {
      height_fits = omega arith;
      maturity_fits = omega arith;
      entries_fit = (
        record {
          txid_length = id.1;
          txid_bytes = id.0;
          vout_fits = omega arith;
          amount_fits = omega arith;
          height_fits = omega arith;
          pkh_length = pkh.1;
          pkh_bytes = pkh.0;
        },
        tt,
      );
    }

abbrev request : Json
request = request_json hex ids

abbrev reply : Json
reply = reply_json hex chain (wanted_keys hex (key_items hex ids) [])

other_text : bytes_eq (print reply) (print request) ≡ false
unfolding chain first_state everything print
other_text = refl

fetch_utxos-rpc_utxos_example :
    fetch_utxos hex
      (knows request reply)
      (λ path body. ok (rpc_utxos hex (knows request reply) chain body))
      ids
    ≡ ok (record {
      height = chain_height chain;
      maturity = chain.params.coinbase_maturity;
      utxos = map relocked (owned_utxos ids chain.utxos);
    })
fetch_utxos-rpc_utxos_example =
    fetch_utxos-rpc_utxos hex hex-IsHex (knows request reply) chain ids (knows-Reads request reply)
      (knows-Reads_other request reply other_text) ids-fit chain-ChainFits

one_owned : All (λ u. IsPlainLock u.output.lock) (owned_utxos ids chain.utxos)
unfolding chain first_state everything
one_owned = (refl, tt)

main_network : hrp_for light.file.network ≡ ok chain.params.address_hrp
unfolding chain first_state everything
main_network = refl

connected : Connects hex (knows request reply) ids chain
connected = record {
  hex_law = hex-IsHex;
  request = knows-Reads request reply;
  reply = knows-Reads_other request reply other_text;
  ids_fit = ids-fit;
  chain_fits = chain-ChainFits;
}

light_balance : (balances_for chain ids).0 ≡ 1000
unfolding chain first_state everything
light_balance = refl

abbrev recipient_text : List ℕ
recipient_text = 4 ∷ bytes "sump" ++ (0 ∷ replicate 20 3)

recipient_run :
    recipient plain chain.params.address_hrp recipient_text ≡ ok (ml_dsa, replicate 20 3)
unfolding chain first_state everything
recipient_run = refl

chain-IsValid : IsValid chain
unfolding chain
chain-IsValid = record {
  index = first_state-IsValid.index;
  tip = first_state-IsValid.tip;
  backs = first_state-IsValid.backs;
}

payment-validate_standalone_tx_example :
    (query_balance crypto signer hex
        (knows request reply)
        (node_of hex (knows request reply) chain)
        light
      ≡ ok ((balances_for chain ids).0, (balances_for chain ids).1, chain_height chain))
    × (tx : Transaction) × (payment crypto signer hex
          (knows request reply)
          (node_of hex (knows request reply) chain)
          plain
          light
          recipient_text
          300
          20
        ≡ ok tx)
    × (validate_standalone_tx crypto chain tx ≡ ok 20)
    × (tx' : Transaction) × (send crypto signer light chain ml_dsa (replicate 20 3) 300 20 ≡ ok tx')
    × (validate_standalone_tx crypto chain tx' ≡ ok 20)
payment-validate_standalone_tx_example =
    payment-validate_standalone_tx crypto signer signer-IsSigner hex (knows request reply) light
      chain chain-IsValid chain chain-IsValid
      (record { same_height = refl; same_params = refl; same_utxos = same chain.utxos }) connected
      one_owned main_network plain recipient_text ml_dsa (replicate 20 3) 300 20 recipient_run
      (omega arith) (omega (arith, light_balance))

-- The chain file of a chain with its genesis block.
abbrev file : List ℕ
file = save_bytes 1 (genesis ∷ [])

load_run : load_state primitives pow params file ≡ ok first_state
unfolding first_state everything
load_run = refl

load_state-IsValid_example :
    IsValid first_state × IsLinkedChain first_state × (value first_state.utxos ≤ supply_cap)
load_state-IsValid_example =
    load_state-IsValid primitives pow params never_zero file first_state load_run

-- Saved again, the chain has the same file.
save_run : save_state first_state ≡ some file
unfolding first_state everything
save_run = refl
