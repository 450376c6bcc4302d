-- ===== src/Tests/Wallet.antt =====
-- The wallet's theorems at a concrete wallet.
use summerpoem_cli.Prelude.{
  ℕ, ◌≡◌, ◌≢◌, refl, arith, true, false, none, some, List, [], ◌∷◌, ◌++◌, length, take, drop,
  replicate, take-append_length, drop-append_length,
}
use summerpoem_cli.Prelude.Result.{ok, err}
use summerpoem_cli.Core.Tx.{ml_dsa, slh_dsa, p2pkh, Transaction}
use summerpoem_cli.Crypto.{Primitives, pubkey_hash}
use summerpoem_cli.Crypto.Keypair.{Signer, IsSigner}
use summerpoem_cli.Crypto.Address.{
  Bech32, ReadsBack, address_decode, scheme_for_version, address_decode-address_encode,
}
use summerpoem_cli.Node.Utxo.{Utxos}
use summerpoem_cli.Node.CheckTx.{check_tx}
use summerpoem_cli.Node.CheckTx.Inputs.{lookup_in}
use summerpoem_cli.Wallet.{insufficient, Wallet, OwnedUtxo, balances, candidates, build_send}
use summerpoem_cli.Wallet.Select.{worth}
use summerpoem_cli.Wallet.Payment.{entry, build_send-check_tx, build_send-insufficient}
use summerpoem_cli.Tests.Run.{everything}
use summerpoem_cli.Tests.Sample.{digest, params}

abbrev pub crypto : Primitives
crypto = record {
  digest = digest;
  mldsa_verify = λ pubkey msg sig ctx. true;
  slhdsa_verify = λ pubkey msg sig ctx. true;
}

abbrev pub signer : Signer
signer = record {
  mldsa_keygen = λ seed. (replicate 1312 5, seed);
  slhdsa_keygen = λ seed. (replicate 32 6, seed);
  mldsa_sign = λ sk msg ctx. replicate 2420 0;
  slhdsa_sign = λ sk msg ctx. replicate 7856 0;
}

pub signer-IsSigner : IsSigner crypto signer
signer-IsSigner = record {
  mldsa_pk = λ seed. refl;
  slhdsa_pk = λ seed. refl;
  mldsa_sig = λ sk msg ctx. refl;
  slhdsa_sig = λ sk msg ctx. refl;
  mldsa_correct = λ seed msg ctx. refl;
  slhdsa_correct = λ seed msg ctx. refl;
}

abbrev pub wallet : Wallet
wallet = record {
  file = record { network = []; seed_hex = []; next_index = 1 };
  seed = replicate 32 1;
}

abbrev coin : ℕ → ℕ → OwnedUtxo
coin vout amount = record {
  outpoint = record { txid = replicate 32 9; vout = vout };
  output = record { amount = amount; lock = p2pkh ml_dsa (pubkey_hash crypto (replicate 1312 5)) };
  coinbase = false;
  height = 0;
}

abbrev coins : List OwnedUtxo
coins = coin 0 300 ∷ coin 1 900 ∷ []

abbrev set : Utxos
set = ((coin 0 300).outpoint, entry (coin 0 300)) ∷ ((coin 1 900).outpoint, entry (coin 1 900)) ∷ []

coins-worth : worth (candidates crypto signer wallet coins 5 params.coinbase_maturity) ≡ 1200
unfolding everything worth
coins-worth = refl

build_send-check_tx_example :
    (tx : Transaction) × (build_send crypto signer wallet coins 5 params.coinbase_maturity ml_dsa
        (replicate 20 3)
        1000
        50
      ≡ ok tx)
    × (check_tx crypto params (lookup_in set) tx 5 tt ≡ ok 50)
unfolding everything worth
build_send-check_tx_example =
    build_send-check_tx crypto signer signer-IsSigner params wallet set 5 coins ml_dsa
      (replicate 20 3) 1000 50 (refl, (refl, tt)) ((refl, tt), (tt, tt)) (omega arith) (omega arith)
      (omega (arith, coins-worth))

build_send-insufficient_example :
    build_send crypto signer wallet coins 5 params.coinbase_maturity ml_dsa (replicate 20 3) 1200 50
    ≡ err (
        insufficient
          (worth (candidates crypto signer wallet coins 5 params.coinbase_maturity))
          1250)
unfolding everything worth
build_send-insufficient_example =
    build_send-insufficient crypto signer params wallet 5 coins ml_dsa (replicate 20 3) 1200 50
      (omega arith) (omega arith) (omega (arith, coins-worth))

-- An encoding that writes the length of the prefix before both.
abbrev pub plain : Bech32
plain = record {
  encode_text = λ hrp bytes. some (length hrp ∷ hrp ++ bytes);
  decode_text = λ text. elim text [ [] ↦ none | n ∷ rest ↦ some (take n rest, drop n rest) ];
}

plain-ReadsBack : (hrp : List ℕ) → ReadsBack plain hrp
plain-ReadsBack hrp bytes text e =
    let t : length hrp ∷ hrp ++ bytes ≡ text = cc in
    rw (← t, take-append_length hrp bytes, drop-append_length hrp bytes) refl

address_decode-address_encode_example :
    (address_decode plain (115 ∷ []) (1 ∷ 115 ∷ 1 ∷ replicate 20 3) ≡ some (1, replicate 20 3))
    × (scheme_for_version 1 ≡ some slh_dsa)
    × ((other : List ℕ)
        → (115 ∷ []) ≢ other
        → address_decode plain other (1 ∷ 115 ∷ 1 ∷ replicate 20 3) ≡ none)
unfolding everything
address_decode-address_encode_example =
    address_decode-address_encode plain (115 ∷ []) slh_dsa (replicate 20 3)
      (1 ∷ 115 ∷ 1 ∷ replicate 20 3) (plain-ReadsBack (115 ∷ [])) refl refl

-- A mature and an immature coinbase output, and an output of a payment.
abbrev mixed : List OwnedUtxo
mixed =
    record (coin 2 100) { coinbase = true; height = 7 }
    ∷ record (coin 3 50) { coinbase = true; height = 3 }
    ∷ record (coin 4 10) { height = 9 }
    ∷ []

mixed_run : balances mixed 10 5 ≡ (60, 100)
unfolding everything
mixed_run = refl
