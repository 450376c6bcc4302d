-- ===== src/Pow/Dataset.antt =====
-- The light path and the full dataset give the same hash.
use Prim.Native.Nat.{bit_xor}
use summerpoem_cli.Prelude.{
  ℕ, zero, suc, ◌+◌, ◌-◌, ◌*◌, ◌/◌, ◌%◌, ◌^◌, ◌<◌, ◌≡◌, refl, sym, ◌∙◌, ap, arith, Bool, true,
  false, none, some, List, [], ◌∷◌, ◌++◌, length, take, drop, ◌==◌, ◌&&◌, not, if◌then◌else◌,
  length-append, take-append_length, drop-append_length, drop-drop,
}
use mathlib.Core.List.{append_assoc}
use mathlib.Core.Path.{subst}
use summerpoem_cli.Core.Hash.{Hash256, shake256}
use summerpoem_cli.Pow.{
  PowContext, dataset_pages, slice, dataset_item, items_from, gen_dataset, page, mix_pages, compute,
  fnv, fnv_mix, lane_at, seal,
}
use summerpoem_cli.Prelude.Text.{bytes}
use summerpoem_cli.Core.Encode.{le_bytes, le_value}

unless-congr :
    {A B : Type 0} {x y : A} (b : Bool) (f : A → B)
    → (b ≡ false → x ≡ y)
    → (if b then none else some (f x)) ≡ (if b then none else some (f y))
unless-congr true f h = refl
unless-congr false f h = ap (λ x. some (f x)) (h refl)

module _ (digest : List ℕ → Hash256) (xof : List ℕ → ℕ → List ℕ)
    (xof_length : (input : List ℕ) (n : ℕ) → length (xof input n) ≡ n) where
  length-dataset_item : (ctx : PowContext) (i : ℕ) → length (dataset_item digest xof ctx i) ≡ 64
  unfolding dataset_item shake256
  length-dataset_item ctx i = xof_length _ 64

  drop_one :
      (ctx : PowContext) (n i : ℕ)
      → drop 64 (items_from digest xof ctx (suc n) i) ≡ items_from digest xof ctx n (suc i)
  unfolding items_from
  drop_one ctx n i =
      let rest = items_from digest xof ctx n (suc i) in
      subst (λ l. drop l (dataset_item digest xof ctx i ++ rest) ≡ rest) (length-dataset_item ctx i)
        (drop-append_length (dataset_item digest xof ctx i) rest)

  drop_items :
      (ctx : PowContext) (k n m i j : ℕ)
      → n ≡ k + m
      → j ≡ i + k
      → drop (k * 64) (items_from digest xof ctx n i) ≡ items_from digest xof ctx m j
  drop_items ctx zero n m i j h e =
      let n_eq : n ≡ m = omega arith in let i_eq : i ≡ j = omega arith in rw (n_eq, i_eq) refl
  drop_items ctx (suc k) zero m i j h e = absurd (omega arith)
  drop_items ctx (suc k) (suc n) m i j h e =
      let split : suc k * 64 ≡ 64 + k * 64 = omega arith in
      rw (split, ← drop-drop, drop_one ctx n i)
        (drop_items ctx k n m (suc i) j (omega arith) (omega arith))

  take_two :
      (ctx : PowContext) (n i : ℕ)
      → take 128 (items_from digest xof ctx (suc (suc n)) i)
        ≡ dataset_item digest xof ctx i ++ dataset_item digest xof ctx (suc i)
  unfolding items_from
  take_two ctx n i =
      let a = dataset_item digest xof ctx i in
      let b = dataset_item digest xof ctx (suc i) in
      let rest = items_from digest xof ctx n (suc (suc i)) in
      let len : length (a ++ b) ≡ 128 =
        omega
          (arith, length-append a b, length-dataset_item ctx i, length-dataset_item ctx (suc i)) in
      ap (take 128) (sym (append_assoc a b rest))
      ∙ subst (λ l. take l ((a ++ b) ++ rest) ≡ a ++ b) len (take-append_length (a ++ b) rest)

  -- A page of the dataset is what the light path computes.
  page-gen_dataset :
      (ctx : PowContext) (idx : ℕ)
      → ctx.dataset ≡ none
      → idx < dataset_pages ctx
      → page digest xof (gen_dataset digest xof ctx) idx ≡ page digest xof ctx idx
  unfolding page gen_dataset slice dataset_pages
  page-gen_dataset ctx idx light h =
      let size = ctx.params.dataset_bytes / 64 in
      let m = size - (2 * idx + 2) in
      let items = items_from digest xof ctx size 0 in
      let offset : idx * 128 ≡ 2 * idx * 64 = omega arith in
      let room : size ≡ 2 * idx + suc (suc m) = omega arith in
      let next : suc (2 * idx) ≡ 2 * idx + 1 = omega arith in
      ap (λ o. take 128 (drop o items)) offset
      ∙ ap (take 128) (drop_items ctx (2 * idx) size (suc (suc m)) 0 (2 * idx) room (omega arith))
      ∙ take_two ctx m (2 * idx)
      ∙ ap (λ j. dataset_item digest xof ctx (2 * idx) ++ dataset_item digest xof ctx j) next
      ∙ sym (rw light refl)

  mix_pages-gen_dataset :
      (ctx : PowContext) (s0 left a : ℕ) (mix : List ℕ)
      → ctx.dataset ≡ none
      → (dataset_pages ctx == 0 && not (left == 0)) ≡ false
      → mix_pages digest xof (gen_dataset digest xof ctx) s0 left a mix
        ≡ mix_pages digest xof ctx s0 left a mix
  unfolding mix_pages gen_dataset dataset_pages
  mix_pages-gen_dataset ctx s0 zero a mix light h = refl
  mix_pages-gen_dataset ctx s0 (suc left) a mix light h =
      let idx = fnv (bit_xor a s0) (lane_at mix (a % 32)) % dataset_pages ctx in
      let some_pages : 0 < dataset_pages ctx = ground arith in
      let small : idx < dataset_pages ctx = omega arith in
      ap
        (λ buf. mix_pages digest xof (gen_dataset digest xof ctx) s0 left (suc a) (fnv_mix mix buf))
        (page-gen_dataset ctx idx light small)
      ∙ mix_pages-gen_dataset ctx s0 left (suc a) (fnv_mix mix (page digest xof ctx idx)) light
          (ground arith)

  -- A light context and the same one with its dataset made give the same hash of every message and
  -- nonce, and both none where there is no page; the extendable output has the length asked for.
  pub compute-gen_dataset :
      (ctx : PowContext) (pow_message : Hash256) (nonce : ℕ)
      → ctx.dataset ≡ none
      → compute digest xof (gen_dataset digest xof ctx) pow_message nonce
        ≡ compute digest xof ctx pow_message nonce
  unfolding compute gen_dataset dataset_pages
  compute-gen_dataset ctx pow_message nonce light =
      let rounds = ctx.params.accesses % 2 ^ 32 in
      let seed64 = shake256 xof (bytes "sump/mixseed" ∷ pow_message ∷ le_bytes 8 nonce ∷ []) 64 in
      unless-congr (dataset_pages ctx == 0 && not (rounds == 0)) (seal digest xof seed64)
        (mix_pages-gen_dataset ctx (le_value (take 4 seed64)) rounds 0 (seed64 ++ seed64) light)
