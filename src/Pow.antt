-- ===== src/Pow.antt =====
-- crates/pow/src/lib.rs: the memory-hard proof of work. A buffer is its list of bytes; the digest
-- and the extendable output of the sha3 crate are parameters. The progress output is left out.
use Prim.Native.Nat.{bit_xor}
use summerpoem_cli.Prelude.{
  ℕ, zero, suc, ◌+◌, ◌-◌, ◌*◌, ◌/◌, ◌%◌, ◌^◌, Bool, true, false, Option, none, some, List, [], ◌∷◌,
  ◌++◌, length, take, drop, ltb, leb, ◌==◌, ◌&&◌, not, if◌then◌else◌,
}
use summerpoem_cli.Prelude.Text.{bytes}
use summerpoem_cli.Prelude.Checked.{u64_mod}
use summerpoem_cli.Core.Encode.{le_value, le_bytes}
use summerpoem_cli.Core.Hash.{Hash256, zero_hash, to_u256, sha3, shake256}
use summerpoem_cli.Core.Params.{PowParams}
pub mod Dataset
pub mod Mine

abbrev pub item_len : ℕ
item_len = 64

abbrev pub page_len : ℕ
page_len = 128

abbrev pub cache_rounds : ℕ
cache_rounds = 2

abbrev pub pow_tag : List ℕ
pow_tag = bytes "sump/pow/v1"

unfoldable pub epoch_of_height : ℕ → ℕ → ℕ
epoch_of_height height epoch_length = height / epoch_length

-- `a.wrapping_mul(0x0100_0193) ^ b` on u32.
unfoldable pub fnv : ℕ → ℕ → ℕ
fnv a b = bit_xor (a * 0x01000193 % 2 ^ 32) b

-- `buf[off..off + n]`, and writing `xs` there.
unfoldable pub slice : ℕ → ℕ → List ℕ → List ℕ
slice off n buf = take n (drop off buf)

unfoldable pub write_at : ℕ → List ℕ → List ℕ → List ℕ
write_at off xs buf = take off buf ++ (xs ++ drop (off + length xs) buf)

-- The little-endian u32 at lane `k`.
unfoldable pub lane_at : List ℕ → ℕ → ℕ
lane_at buf k = le_value (slice (4 * k) 4 buf)

-- The lanes of `mix`, each folded with that of `other`.
unfoldable pub fnv_mix : List ℕ → List ℕ → List ℕ
fnv_mix (a ∷ b ∷ c ∷ d ∷ mix) (e ∷ f ∷ g ∷ h ∷ other) =
    le_bytes 4 (fnv (le_value (a ∷ b ∷ c ∷ d ∷ [])) (le_value (e ∷ f ∷ g ∷ h ∷ [])))
    ++ fnv_mix mix other
fnv_mix mix other = mix

unfoldable pub xor_bytes : List ℕ → List ℕ → List ℕ
xor_bytes (x ∷ xs) (y ∷ ys) = bit_xor x y ∷ xor_bytes xs ys
xor_bytes _ _ = []

pub record PowContext : Type 0 where
  pub params : PowParams
  pub epoch : ℕ
  pub seed : Hash256
  pub cache : List ℕ
  pub dataset : Option (List ℕ)

unfoldable pub cache_items : PowContext → ℕ
cache_items ctx = ctx.params.cache_bytes / item_len

unfoldable pub dataset_pages : PowContext → ℕ
dataset_pages ctx = ctx.params.dataset_bytes / page_len

module _ (digest : List ℕ → Hash256) (xof : List ℕ → ℕ → List ℕ) where
  -- The loop of `seed_for_epoch`, with the rounds that are left.
  unfoldable pub seed_rounds : ℕ → Hash256 → Hash256
  seed_rounds zero s = s
  seed_rounds (suc n) s = seed_rounds n (sha3 digest (bytes "sump/epochseed" ∷ s ∷ []))

  unfoldable pub seed_for_epoch : ℕ → Hash256
  seed_for_epoch epoch = seed_rounds (suc epoch) zero_hash

  -- The first loop of `gen_cache`: the items after `prev`.
  unfoldable pub chain_items : ℕ → List ℕ → List ℕ
  chain_items zero prev = []
  chain_items (suc n) prev =
      let item = shake256 xof (prev ∷ []) item_len in item ++ chain_items n item

  -- One step of a strengthening round, at item `i` of `n`.
  unfoldable pub strengthen : ℕ → ℕ → List ℕ → List ℕ
  strengthen n i cache =
      let v = le_value (slice (i * item_len) 4 cache) % n in
      let j = (i + n - 1) % n in
      let buf =
        xor_bytes (slice (j * item_len) item_len cache) (slice (v * item_len) item_len cache) in
      write_at (i * item_len) (shake256 xof (buf ∷ []) item_len) cache

  -- The steps from item `i` on, with those that are left.
  unfoldable pub strengthen_from : ℕ → ℕ → ℕ → List ℕ → List ℕ
  strengthen_from n zero i cache = cache
  strengthen_from n (suc left) i cache = strengthen_from n left (suc i) (strengthen n i cache)

  unfoldable pub strengthen_rounds : ℕ → ℕ → List ℕ → List ℕ
  strengthen_rounds n zero cache = cache
  strengthen_rounds n (suc rounds) cache = strengthen_rounds n rounds (strengthen_from n n 0 cache)

  -- No cache where the assertion on its size fails.
  unfoldable pub gen_cache : PowParams → Hash256 → Option (List ℕ)
  gen_cache params seed =
      let n = params.cache_bytes / item_len in
      let item = shake256 xof (bytes "sump/cache" ∷ seed ∷ []) item_len in
      if ltb n 2
      then none
      else some (strengthen_rounds n cache_rounds (item ++ chain_items (n - 1) item))

  -- The loop over the parents from `p` on, with those that are left.
  unfoldable pub mix_parents : PowContext → ℕ → ℕ → ℕ → List ℕ → List ℕ
  mix_parents ctx i zero p mix = mix
  mix_parents ctx i (suc left) p mix =
      let idx = fnv (bit_xor (i % 2 ^ 32) p) (lane_at mix (p % 16)) % cache_items ctx in
      mix_parents ctx i left (suc p) (fnv_mix mix (slice (idx * item_len) item_len ctx.cache))

  unfoldable pub dataset_item : PowContext → ℕ → List ℕ
  dataset_item ctx i =
      let start = slice (i % cache_items ctx * item_len) item_len ctx.cache in
      let mix = xor_bytes (take 8 start) (le_bytes 8 i) ++ drop 8 start in
      let mixed =
        mix_parents ctx i (ctx.params.parents % 2 ^ 32) 0 (shake256 xof (mix ∷ []) item_len) in
      shake256 xof (mixed ∷ []) item_len

  -- The loop of `gen_dataset` from item `i` on, with the items that are left.
  unfoldable pub items_from : PowContext → ℕ → ℕ → List ℕ
  items_from ctx zero i = []
  items_from ctx (suc left) i = dataset_item ctx i ++ items_from ctx left (suc i)

  unfoldable pub gen_dataset : PowContext → PowContext
  gen_dataset ctx = record ctx {
    dataset = some (items_from ctx (ctx.params.dataset_bytes / item_len) 0);
  }

  unfoldable pub light_context : PowParams → ℕ → Option (List ℕ) → Option PowContext
  light_context params epoch none = none
  light_context params epoch (some cache) = some (record {
    params = params;
    epoch = epoch;
    seed = seed_for_epoch epoch;
    cache = cache;
    dataset = none;
  })

  unfoldable pub new_light : PowParams → ℕ → Option PowContext
  new_light params epoch = light_context params epoch (gen_cache params (seed_for_epoch epoch))

  unfoldable pub full_context : Option PowContext → Option PowContext
  full_context none = none
  full_context (some ctx) = some (gen_dataset ctx)

  unfoldable pub new_full : PowParams → ℕ → Option PowContext
  new_full params epoch = full_context (new_light params epoch)

  unfoldable pub page : PowContext → ℕ → List ℕ
  page ctx idx = elim ctx.dataset [
    | some ds ↦ slice (idx * page_len) page_len ds
    | none ↦ dataset_item ctx (2 * idx) ++ dataset_item ctx (2 * idx + 1)
  ]

  -- The loop over the accesses from `a` on, with those that are left.
  unfoldable pub mix_pages : PowContext → ℕ → ℕ → ℕ → List ℕ → List ℕ
  mix_pages ctx s0 zero a mix = mix
  mix_pages ctx s0 (suc left) a mix =
      let idx = fnv (bit_xor a s0) (lane_at mix (a % 32)) % dataset_pages ctx in
      mix_pages ctx s0 left (suc a) (fnv_mix mix (page ctx idx))

  -- The 4:1 fold from word `k` on, with the words that are left.
  unfoldable pub compress : List ℕ → ℕ → ℕ → List ℕ
  compress mix zero k = []
  compress mix (suc left) k =
      let m : ℕ → ℕ = λ j. lane_at mix (4 * k + j) in
      le_bytes 4 (fnv (fnv (fnv (m 0) (m 1)) (m 2)) (m 3)) ++ compress mix left (suc k)

  -- The end of `compute`, from the mixed buffer on.
  unfoldable pub seal : List ℕ → List ℕ → Hash256
  seal seed64 mix = sha3 digest (pow_tag ∷ seed64 ∷ compress mix 8 0 ∷ [])

  -- None where the source divides by no pages.
  unfoldable pub compute : PowContext → Hash256 → ℕ → Option Hash256
  compute ctx pow_message nonce =
      let seed64 = shake256 xof (bytes "sump/mixseed" ∷ pow_message ∷ le_bytes 8 nonce ∷ []) 64 in
      let rounds = ctx.params.accesses % 2 ^ 32 in
      if dataset_pages ctx == 0 && not (rounds == 0)
      then none
      else some (seal seed64 (mix_pages ctx (le_value (take 4 seed64)) rounds 0 (seed64 ++ seed64)))

unfoldable pub meets_target : Hash256 → ℕ → Bool
meets_target hash target = leb (to_u256 hash) target

-- A round of `mine` by its hash, with the result of the rounds after it.
unfoldable pub try_nonce : ℕ → ℕ → Option (Option ℕ) → Option Hash256 → Option (Option ℕ)
try_nonce target nonce rest none = none
try_nonce target nonce rest (some hash) =
    if meets_target hash target then some (some nonce) else rest

module _ (digest : List ℕ → Hash256) (xof : List ℕ → ℕ → List ℕ) where
  -- The loop of `mine` from nonce `start + i` on, with the rounds that are left. The outer option
  -- is that of `compute`.
  unfoldable pub mine_from : PowContext → Hash256 → ℕ → ℕ → ℕ → ℕ → Option (Option ℕ)
  mine_from ctx pow_message target start zero i = some none
  mine_from ctx pow_message target start (suc left) i =
      let rest = mine_from ctx pow_message target start left (suc i) in
      let nonce = (start + i) % u64_mod in
      try_nonce target nonce rest (compute digest xof ctx pow_message nonce)

  unfoldable pub mine : PowContext → Hash256 → ℕ → ℕ → ℕ → Option (Option ℕ)
  mine ctx pow_message target start max_iters = mine_from ctx pow_message target start max_iters 0
