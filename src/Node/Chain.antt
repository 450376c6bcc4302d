-- ===== src/Node/Chain.antt =====
-- `ChainState` of crates/node/src/chain.rs: the block index, the active chain and its unspent
-- outputs. The memo of proof-of-work contexts (`pow_light`) is left out: it changes no result.
-- A panic is an outcome of its own.
use summerpoem_cli.Prelude.{
  ℕ, zero, suc, ◌+◌, ◌-◌, ◌*◌, ◌/◌, ◌%◌, ◌^◌, Bool, true, false, Option, none, some, List, [], ◌∷◌,
  ◌++◌, length, get_elem?, ltb, leb, ◌==◌, not, if◌then◌else◌,
}
use summerpoem_cli.Prelude.Result.{Result, ok, err, ◌>>=◌, ◌>>◌, refuse_if, ok_or}
use summerpoem_cli.Prelude.Checked.{checked_add, u64_mod}
use summerpoem_cli.Prelude.Equality.{bytes_eq}
use summerpoem_cli.Prelude.Dictionary.{Dictionary, get, insert, remove, contains_key}
use summerpoem_cli.Prelude.Int.{ℤ, pos, sub_ℕ}
use summerpoem_cli.Core.Hash.{Hash256, zero_hash, to_u256}
use summerpoem_cli.Core.Compact.{bits_to_target, target_to_bits}
use summerpoem_cli.Core.Asert.{next_target}
use summerpoem_cli.Core.Params.{PowParams, Params, u256_max}
use summerpoem_cli.Core.Block.{Block, BlockHeader, header_hash, pow_message, size}
use summerpoem_cli.Crypto.{Primitives}
use summerpoem_cli.Node.Error.{
  ValidationError, unknown_parent, duplicate, wrong_bits, bad_bits, bad_pow, time_too_old,
  too_large, overflow, bad_genesis,
}
use summerpoem_cli.Node.Utxo.{Utxos}
use summerpoem_cli.Node.CheckTx.{Checked}
use summerpoem_cli.Node.Blocks.{validate_block_txs, check_roots}
use summerpoem_cli.Prelude.Equality.{bytes_Eq}
pub mod Walk
pub mod Index
pub mod Ledger
pub mod Invariant
pub mod Supply
pub mod Refusal
pub mod Heaviest
pub mod Queries
pub mod Active
pub mod Root
pub mod Sync

pub record BlockMeta : Type 0 where
  pub height : ℕ
  pub cum_work : ℕ
  pub time : ℕ
  pub parent : Hash256

pub record ChainState : Type 0 where
  pub params : Params
  pub all : Dictionary Hash256 Block
  pub meta : Dictionary Hash256 BlockMeta
  pub active : List Hash256
  pub utxos : Utxos
  pub supply : ℕ
  pub genesis_hash : Hash256

-- `refused` is the error that the source returns. `panicked` is an index or an `unwrap` that
-- fails, or a U256 that overflows; `stuck` is the model's: a loop ran out of fuel.
pub data Failure : Type 0 where
  refused : ValidationError → Failure
  panicked stuck : Failure

abbrev pub Outcome : Type 0 → Type 0
Outcome A = Result Failure A

unfoldable pub checked : {A : Type 0} → Checked A → Outcome A
checked (ok a) = ok a
checked (err e) = err (refused e)

unfoldable pub last? : List Hash256 → Option Hash256
last? [] = none
last? (h ∷ hs) = elim hs [ [] ↦ some h | _ ∷ _ ↦ last? hs ]

-- `U256::MAX / (target + 1)`
unfoldable pub work_from_target : ℕ → Outcome ℕ
work_from_target target = if ltb target u256_max then ok (u256_max / (target + 1)) else err panicked

-- An addition of U256.
unfoldable pub add_u256 : ℕ → ℕ → Outcome ℕ
add_u256 a b = if leb (a + b) u256_max then ok (a + b) else err panicked

-- `a as i64 - b as i64` for two u64, wrapping.
unfoldable pub i64_difference : ℕ → ℕ → ℤ
i64_difference a b =
    let d = (a + u64_mod - b) % u64_mod in if ltb d (2 ^ 63) then pos d else sub_ℕ d u64_mod

unfoldable pub insert_sorted : ℕ → List ℕ → List ℕ
insert_sorted t [] = t ∷ []
insert_sorted t (u ∷ us) = if leb t u then t ∷ u ∷ us else u ∷ insert_sorted t us

-- `sort_unstable`, on numbers.
unfoldable pub sort : List ℕ → List ℕ
sort [] = []
sort (t ∷ ts) = insert_sorted t (sort ts)

-- The loop of `median_time_past`: `n` rounds are left.
unfoldable pub past_times : Dictionary Hash256 BlockMeta → ℕ → Hash256 → List ℕ
past_times meta zero cur = []
past_times meta (suc n) cur = elim (get cur meta) [
  | none ↦ []
  | some m ↦
      m.time
      ∷ (elim (bytes_eq m.parent zero_hash) [ true ↦ [] | false ↦ past_times meta n m.parent ])
]

unfoldable pub median_time_past : ChainState → Hash256 → Outcome ℕ
median_time_past s from =
    let times = sort (past_times s.meta 11 from) in
    ok_or (get_elem? times (length times / 2)) panicked

unfoldable pub expected_bits : ChainState → Hash256 → Outcome ℕ
expected_bits s parent_hash = do
  parent ← ok_or (get parent_hash s.meta) (refused unknown_parent)
  genesis ← ok_or (get s.genesis_hash s.meta) panicked
  ok (
      target_to_bits (
        next_target s.params.pow_limit s.params.block_interval s.params.asert_tau
          (i64_difference parent.time genesis.time) parent.height s.params.pow_limit))

-- The last loop of `add_block`, from `cur` back to a block with no parent. Collecting in front
-- stands for the pushes and the reversal.
unfoldable pub walk_back :
    Dictionary Hash256 BlockMeta → ℕ → Hash256 → List Hash256 → Outcome (List Hash256)
walk_back meta zero cur chain = err stuck
walk_back meta (suc fuel) cur chain = elim (get cur meta) [
  | none ↦ err panicked
  | some m ↦ elim (bytes_eq m.parent zero_hash) [
    | true ↦ ok (cur ∷ chain)
    | false ↦ walk_back meta fuel m.parent (cur ∷ chain)
  ]
]

-- `self.meta.remove(&hash); self.all.remove(&hash)`
unfoldable pub forget : Hash256 → ChainState → ChainState
forget hash s = record s { meta = remove hash s.meta; all = remove hash s.all }

unfoldable pub remember : Hash256 → BlockMeta → Block → ChainState → ChainState
remember hash m block s = record s { meta = insert hash m s.meta; all = insert hash block s.all }

-- The end of the fast path, by the result of the block's validation and of adding to the supply.
unfoldable pub push_supply : Hash256 → Utxos → ChainState → Option ℕ → Outcome Bool × ChainState
push_supply hash utxos s none = (err (refused overflow), s)
push_supply hash utxos s (some supply) =
    (ok true, record s { active = s.active ++ (hash ∷ []); utxos = utxos; supply = supply })

unfoldable pub push_tip : Hash256 → ChainState → Checked (ℕ × Utxos) → Outcome Bool × ChainState
push_tip hash s (err e) = (err (refused e), forget hash s)
push_tip hash s (ok applied) = push_supply hash applied.1 s (checked_add s.supply applied.0)

-- The end of a reorganisation, by the result of applying the candidate chain.
unfoldable pub install :
    Hash256 → List Hash256 → ChainState → Outcome (Utxos × ℕ) → Outcome Bool × ChainState
install hash chain s (err e) = (err e, forget hash s)
install hash chain s (ok applied) =
    (ok true, record s { active = chain; utxos = applied.0; supply = applied.1 })

-- The proof of work of crates/pow: an epoch's hash of a message and a nonce.
abbrev pub PowFunction : Type 0
PowFunction = PowParams → ℕ → Hash256 → ℕ → Hash256

module _ (p : Primitives) (pow : PowFunction) where
  unfoldable pub check_pow : Params → BlockHeader → ℕ → Checked (Unit {0})
  check_pow params header height = do
    target ← ok_or (bits_to_target header.bits) bad_bits
    refuse_if (ltb params.pow_limit target) bad_bits
    refuse_if
        (ltb target (
          to_u256 (
            pow params.pow (height / params.pow.epoch_length) (pow_message p.digest header)
              header.nonce)))
        bad_pow

  -- The loop of `apply_chain` over the hashes that are left, from a height on.
  unfoldable pub apply_chain :
      Params → Dictionary Hash256 Block → ℕ → List Hash256 → Utxos → ℕ → Outcome (Utxos × ℕ)
  apply_chain params all height [] utxos supply = ok (utxos, supply)
  apply_chain params all height (hash ∷ chain) utxos supply = do
    block ← ok_or (get hash all) panicked
    applied ← checked (validate_block_txs p params block height utxos)
    supply' ← ok_or (checked_add supply applied.0) (refused overflow)
    apply_chain params all (suc height) chain applied.1 supply'

  unfoldable pub validate_genesis : Params → Block → Checked (Unit {0})
  validate_genesis params genesis = do
    refuse_if (not (bytes_eq genesis.header.prev zero_hash)) bad_genesis
    refuse_if (not (genesis.header.bits == target_to_bits params.pow_limit))
        (wrong_bits (target_to_bits params.pow_limit) genesis.header.bits)
    check_pow params genesis.header 0
    check_roots p params genesis
    refuse_if (ltb params.max_block_size (size genesis)) too_large

  -- `ChainState::new`
  unfoldable pub new_chain : Params → Block → Outcome ChainState
  new_chain params genesis =
      let ghash = header_hash p.digest genesis.header in
      do
        checked (validate_genesis params genesis)
        target ← ok_or (bits_to_target genesis.header.bits) (refused bad_bits)
        work ← work_from_target target
        applied ← apply_chain params (insert ghash genesis []) 0 (ghash ∷ []) [] 0
        ok (record {
          params = params;
          all = insert ghash genesis [];
          meta =
              insert ghash
                (record {
                  height = 0;
                  cum_work = work;
                  time = genesis.header.time;
                  parent = zero_hash;
                })
                [];
          active = ghash ∷ [];
          utxos = applied.0;
          supply = applied.1;
          genesis_hash = ghash;
        })

  -- The first part of `add_block`: what is checked before the block is stored. Returns its entry
  -- in the index.
  unfoldable pub check_header : Block → ChainState → Outcome BlockMeta
  check_header block s = do
    refuse_if (contains_key (header_hash p.digest block.header) s.all) (refused duplicate)
    parent ← ok_or (get block.header.prev s.meta) (refused unknown_parent)
    expected ← expected_bits s block.header.prev
    refuse_if (not (block.header.bits == expected))
        (refused (wrong_bits expected block.header.bits))
    mtp ← median_time_past s block.header.prev
    refuse_if (leb block.header.time mtp) (refused time_too_old)
    refuse_if (ltb s.params.max_block_size (size block)) (refused too_large)
    checked (check_roots p s.params block)
    checked (check_pow s.params block.header (parent.height + 1))
    target ← ok_or (bits_to_target block.header.bits) panicked
    work ← work_from_target target
    cum_work ← add_u256 parent.cum_work work
    ok (record {
      height = parent.height + 1;
      cum_work = cum_work;
      time = block.header.time;
      parent = block.header.prev;
    })

  -- The fast path: the block extends the tip. `s` has the block stored.
  unfoldable pub extend_tip : Hash256 → ℕ → Block → ChainState → Outcome Bool × ChainState
  extend_tip hash height block s =
      push_tip hash s (validate_block_txs p s.params block height s.utxos)

  -- The candidate chain is applied from the genesis block on; it replaces the active one if all
  -- of it is valid.
  unfoldable pub adopt : Hash256 → ChainState → Outcome (List Hash256) → Outcome Bool × ChainState
  adopt hash s (err e) = (err e, s)
  adopt hash s (ok chain) = install hash chain s (apply_chain s.params s.all 0 chain [] 0)

  unfoldable pub reorganize : Hash256 → ℕ → ChainState → Outcome Bool × ChainState
  reorganize hash height s = adopt hash s (walk_back s.meta (height + 1) hash [])

  -- The choice between a side chain, the fast path and a reorganisation.
  unfoldable pub choose_tip :
      Hash256
      → BlockMeta
      → Block
      → Hash256
      → ChainState
      → Option BlockMeta
      → Outcome Bool × ChainState
  choose_tip hash m block tip_hash s none = (err panicked, s)
  choose_tip hash m block tip_hash s (some tip) =
      if leb m.cum_work tip.cum_work
      then (ok false, s)
      else if bytes_eq m.parent tip_hash
      then extend_tip hash m.height block s
      else reorganize hash m.height s

  -- The second part of `add_block`, with the block stored and the tip's hash.
  unfoldable pub connect :
      Hash256 → BlockMeta → Block → ChainState → Option Hash256 → Outcome Bool × ChainState
  connect hash m block s none = (err panicked, s)
  connect hash m block s (some tip_hash) = choose_tip hash m block tip_hash s (get tip_hash s.meta)

  unfoldable pub store : Block → ChainState → Outcome BlockMeta → Outcome Bool × ChainState
  store block s (err e) = (err e, s)
  store block s (ok m) =
      let hash = header_hash p.digest block.header in
      connect hash m block (remember hash m block s) (last? s.active)

  unfoldable pub add_block : Block → ChainState → Outcome Bool × ChainState
  add_block block s = store block s (check_header block s)
