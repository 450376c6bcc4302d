-- ===== src/Wallet.antt =====
-- crates/wallet/src/lib.rs: the keys of a wallet, balances and payments. The wallet file's JSON and
-- the file system are left out.
use summerpoem_cli.Prelude.{
  ℕ, zero, suc, ◌+◌, ◌-◌, ◌%◌, ◌^◌, ◌≡◌, ◌↔◌, arith, Bool, true, false, Option, none, some, List,
  [], ◌∷◌, ◌++◌, map, ltb, leb, ◌==◌, ==_iff, ◌&&◌, ◌||◌, not, if◌then◌else◌,
}
use summerpoem_cli.Prelude.Lists.{filter_by}
use summerpoem_cli.Prelude.Text.{bytes}
use summerpoem_cli.Prelude.Result.{Result, ok, err, ◌>>=◌, ◌>>◌, refuse_if, ok_or}
use summerpoem_cli.Prelude.Checked.{checked_add, u64_mod}
use summerpoem_cli.Prelude.Equality.{Eq, bytes_eq, bytes_eq_iff}
use summerpoem_cli.Prelude.Dictionary.{Dictionary, get, insert, contains_key}
use summerpoem_cli.Core.Encode.{le_bytes}
use summerpoem_cli.Core.Hash.{Hash256, sha3}
use summerpoem_cli.Core.Tx.{
  OutPoint, SigScheme, ml_dsa, slh_dsa, scheme_id, Lock, p2pkh, timelock, lock_pkh, lock_scheme,
  TxInput, TxOutput, TxBody, Witness, Transaction, sighash,
}
use summerpoem_cli.Crypto.{Primitives, pubkey_hash}
use summerpoem_cli.Crypto.Address.{Bech32, version_mldsa, version_slhdsa, address_encode}
use summerpoem_cli.Crypto.Keypair.{Signer, Keypair, from_seed, sign}
pub mod Keys
pub mod Select
pub mod Payment
pub mod Balances

pub data WalletError : Type 0 where
  -- have, need
  insufficient : ℕ → ℕ → WalletError
  overflow missing_key : WalletError

pub record WalletFile : Type 0 where
  pub network : List ℕ
  pub seed_hex : List ℕ
  pub next_index : ℕ

pub record Wallet : Type 0 where
  pub file : WalletFile
  pub seed : List ℕ

pub record OwnedUtxo : Type 0 where
  pub outpoint : OutPoint
  pub output : TxOutput
  pub coinbase : Bool
  pub height : ℕ

-- A scheme's id and a key hash.
abbrev pub KeyId : Type 0
KeyId = ℕ × List ℕ

unfoldable pub id_eq : KeyId → KeyId → Bool
id_eq (a, x) (b, y) = a == b && bytes_eq x y

pub id_eq_iff : (i j : KeyId) → (id_eq i j ≡ true) ↔ (i ≡ j)
unfolding id_eq
id_eq_iff (a, x) (b, y) = ground (arith, bytes_eq_iff x y)

instance abbrev pub id_Eq : Eq KeyId
id_Eq = record { beq = id_eq; beq_iff = id_eq_iff }

unfoldable pub id_of_lock : Lock → KeyId
id_of_lock l = (scheme_id (lock_scheme l), lock_pkh l)

unfoldable pub unlocked : Lock → ℕ → Bool
unlocked (timelock scheme pkh height) next_height = leb height next_height
unlocked (p2pkh scheme pkh) next_height = true

unfoldable pub spendable : OwnedUtxo → ℕ → ℕ → Bool
spendable u next_height maturity =
    (not u.coinbase || leb ((u.height + maturity) % u64_mod) next_height)
    && unlocked u.output.lock next_height

-- The loop of `balances`, from the sums `s` and `total` on.
unfoldable pub add_balances : ℕ → ℕ → List OwnedUtxo → ℕ → ℕ → ℕ × ℕ
add_balances next_height maturity [] s total = (s, total)
add_balances next_height maturity (u ∷ utxos) s total =
    add_balances next_height maturity utxos
      (if spendable u next_height maturity then (s + u.output.amount) % u64_mod else s)
      ((total + u.output.amount) % u64_mod)

unfoldable pub balances : List OwnedUtxo → ℕ → ℕ → ℕ × ℕ
balances utxos next_height maturity =
    let (s, total) = add_balances next_height maturity utxos 0 0 in
    (s, (total + (u64_mod - s)) % u64_mod)

-- `sort_by_key` with the reversed amounts: the largest first, and equal ones in their order.
unfoldable pub insert_by_amount : OwnedUtxo → List OwnedUtxo → List OwnedUtxo
insert_by_amount u [] = u ∷ []
insert_by_amount u (v ∷ vs) =
    let rest = insert_by_amount u vs in
    if leb v.output.amount u.output.amount then u ∷ v ∷ vs else v ∷ rest

unfoldable pub sort_by_amount : List OwnedUtxo → List OwnedUtxo
sort_by_amount [] = []
sort_by_amount (u ∷ us) = insert_by_amount u (sort_by_amount us)

-- The greedy loop, from the total so far on.
unfoldable pub select : ℕ → ℕ → List OwnedUtxo → List OwnedUtxo × ℕ
select need total [] = ([], total)
select need total (c ∷ candidates) =
    let (selected, total') = select need ((total + c.output.amount) % u64_mod) candidates in
    if leb need total then ([], total) else (c ∷ selected, total')

unfoldable pub inputs_of : List OwnedUtxo → List TxInput
inputs_of [] = []
inputs_of (u ∷ us) = record { prevout = u.outpoint } ∷ inputs_of us

module _ (p : Primitives) (k : Signer) where
  unfoldable pub key_seed : Wallet → SigScheme → ℕ → List ℕ
  key_seed wallet scheme index =
      sha3 p.digest
        (bytes "sump/wallet/key/v1" ∷ wallet.seed ∷ (scheme_id scheme ∷ []) ∷ le_bytes 4 index ∷ [])

  unfoldable pub key : Wallet → SigScheme → ℕ → Keypair
  key wallet scheme index = from_seed k scheme (key_seed wallet scheme index)

  -- `none` is an `expect` that fails.
  unfoldable pub address : Bech32 → Wallet → List ℕ → ℕ → Option (List ℕ)
  address b wallet hrp index =
      address_encode b hrp version_mldsa (pubkey_hash p (key wallet ml_dsa index).public)

  unfoldable pub vault_address : Bech32 → Wallet → List ℕ → ℕ → Option (List ℕ)
  vault_address b wallet hrp index =
      address_encode b hrp version_slhdsa (pubkey_hash p (key wallet slh_dsa index).public)

  -- The inner loop of `keys`, over the indices from `i` on, of which `n` are left.
  unfoldable pub keys_from : Wallet → SigScheme → ℕ → ℕ → List Keypair
  keys_from wallet scheme i zero = []
  keys_from wallet scheme i (suc n) = key wallet scheme i ∷ keys_from wallet scheme (suc i) n

  unfoldable pub keys : Wallet → List Keypair
  keys wallet =
      keys_from wallet ml_dsa 0 wallet.file.next_index
      ++ keys_from wallet slh_dsa 0 wallet.file.next_index

  unfoldable pub id_of : Keypair → KeyId
  id_of kp = (scheme_id kp.scheme, pubkey_hash p kp.public)

  -- The loop of `owned`.
  unfoldable pub insert_keys : List Keypair → Dictionary KeyId Keypair → Dictionary KeyId Keypair
  insert_keys [] m = m
  insert_keys (kp ∷ kps) m = insert_keys kps (insert (id_of kp) kp m)

  unfoldable pub owned : Wallet → Dictionary KeyId Keypair
  owned wallet = insert_keys (keys wallet) []

  unfoldable pub owned_ids : Wallet → List KeyId
  owned_ids wallet = map id_of (keys wallet)

  unfoldable pub candidates : Wallet → List OwnedUtxo → ℕ → ℕ → List OwnedUtxo
  candidates wallet utxos next_height maturity = sort_by_amount (
      filter_by (λ u. contains_key (id_of_lock u.output.lock) (owned wallet))
        (filter_by (λ u. spendable u next_height maturity) utxos))

  unfoldable pub outputs_of : Wallet → SigScheme → List ℕ → ℕ → ℕ → List TxOutput
  outputs_of wallet to_scheme to_pkh amount change =
      record { amount = amount; lock = p2pkh to_scheme to_pkh }
      ∷ (if ltb 0 change
          then record {
            amount = change;
            lock = p2pkh ml_dsa (pubkey_hash p (key wallet ml_dsa 0).public);
          }
            ∷ []
          else [])

  unfoldable pub body_of : Wallet → SigScheme → List ℕ → ℕ → ℕ → List OwnedUtxo → TxBody
  body_of wallet to_scheme to_pkh amount change selected = record {
    version = 1;
    inputs = inputs_of selected;
    outputs = outputs_of wallet to_scheme to_pkh amount change;
    locktime = 0;
    coinbase_data = [];
  }

  -- The loop over the selected outputs from index `i` on.
  unfoldable pub sign_inputs :
      Wallet → TxBody → ℕ → List OwnedUtxo → Result WalletError (List Witness)
  sign_inputs wallet body i [] = ok []
  sign_inputs wallet body i (u ∷ us) = do
    kp ← ok_or (get (id_of_lock u.output.lock) (owned wallet)) missing_key
    rest ← sign_inputs wallet body (suc i) us
    ok (
        record {
          pubkey = kp.public;
          signature = sign k kp (sighash p.digest body (i % 2 ^ 32) u.output);
        }
        ∷ rest)

  -- The end of `build_send`, with the outputs selected.
  unfoldable pub pay :
      Wallet → SigScheme → List ℕ → ℕ → ℕ → List OwnedUtxo × ℕ → Result WalletError Transaction
  pay wallet to_scheme to_pkh amount need (selected, total) = do
    refuse_if (ltb total need) (insufficient total need)
    let body = body_of wallet to_scheme to_pkh amount (total - need) selected
    witnesses ← sign_inputs wallet body 0 selected
    ok (record { body = body; witnesses = witnesses })

  unfoldable pub build_send :
      Wallet → List OwnedUtxo → ℕ → ℕ → SigScheme → List ℕ → ℕ → ℕ → Result WalletError Transaction
  build_send wallet utxos next_height maturity to_scheme to_pkh amount fee = do
    need ← ok_or (checked_add amount fee) overflow
    pay wallet to_scheme to_pkh amount need
        (select need 0 (candidates wallet utxos next_height maturity))
