-- ===== src/Programs/Gpu.antt =====
-- crates/gpu/src/lib.rs: `GpuMiner::search`, with the kernel `sumphash_search` that it launches, of
-- crates/gpu/src/sumphash.cu. The CUDA driver is a parameter, and so is the kernel's function
-- `sumphash`, the device's own proof of work.
use summerpoem_cli.Prelude.{
  ℕ, ◌+◌, ◌-◌, ◌%◌, Bool, Option, none, some, List, [], ◌∷◌, ltb, leb, ◌==◌, ◌&&◌, not,
  if◌then◌else◌,
}
use summerpoem_cli.Prelude.Result.{Result, ok, ◌>>=◌}
use summerpoem_cli.Prelude.Checked.{u64_mod}
use summerpoem_cli.Core.Hash.{Hash256}
use summerpoem_cli.Pow.{meets_target}
pub mod Search

-- `sumphash` is the hash of a message and a nonce on the uploaded dataset. `threads` has the threads
-- of a launch for some nonces, in the order in which they come to the atomic minimum; `driver` is the
-- copying and the launch, which may fail.
pub record GpuMiner : Type 0 where
  pub sumphash : Hash256 → ℕ → Hash256
  pub threads : ℕ → List ℕ
  pub driver : Hash256 → ℕ → ℕ → ℕ → Result (Unit {0}) (Unit {0})

-- `u64::MAX`
abbrev pub not_found : ℕ
not_found = u64_mod - 1

unfoldable pub atomic_min : ℕ → ℕ → ℕ
atomic_min found nonce = if ltb nonce found then nonce else found

module _ (g : GpuMiner) (pow_message : Hash256) (target start count : ℕ) where
  -- A thread of `sumphash_search`, from the value of `found` to the next.
  unfoldable pub search_thread : ℕ → ℕ → ℕ
  unfolding atomic_min
  search_thread found tid =
      let nonce = (start + tid) % u64_mod in
      if leb count tid
      then found
      else if meets_target (g.sumphash pow_message nonce) target
      then atomic_min found nonce
      else found

  unfoldable pub run_threads : ℕ → List ℕ → ℕ
  unfolding search_thread
  run_threads found [] = found
  run_threads found (tid ∷ tids) = run_threads (search_thread found tid) tids

  -- The test of what the kernel has left.
  unfoldable pub found_nonce : ℕ → Option ℕ
  found_nonce n =
      if not (n == not_found) && (leb start n && ltb n ((start + count) % u64_mod))
      then some n
      else none

  unfoldable pub search : Result (Unit {0}) (Option ℕ)
  unfolding run_threads found_nonce
  search = do
    launched ← g.driver pow_message target start count
    ok (found_nonce (run_threads not_found (g.threads count)))
