-- ===== src/Programs/Start/Sound.antt =====
-- A node starts from a valid chain, whatever its chain file holds.
use summerpoem_cli.Prelude.{ℕ, ◌≡◌, ◌≢◌, ap, ◌≤◌, arith, List, [], ◌∷◌, Bool}
use mathlib.Core.Path.{subst}
use summerpoem_cli.Prelude.Result.{Result, ok, err, refuse_if, >>=-eq-ok, >>-eq-ok, ok-injective}
use summerpoem_cli.Core.Hash.{zero_hash}
use summerpoem_cli.Core.Block.{Block}
use summerpoem_cli.Core.Emission.{supply_cap}
use summerpoem_cli.Core.Params.{Params}
use summerpoem_cli.Crypto.{Primitives}
use summerpoem_cli.Node.Utxo.{value}
use summerpoem_cli.Node.Store.{load_bytes}
use summerpoem_cli.Node.Chain.{ChainState, Outcome, PowFunction, new_chain, add_block}
use summerpoem_cli.Node.Chain.Active.{IsLinkedChain}
use summerpoem_cli.Node.Chain.Invariant.{IsValid}
use summerpoem_cli.Node.Chain.Supply.{Reach, start, offered, Reach-IsValid, supply-le-supply_cap}
use summerpoem_cli.Node.Chain.Sync.{Reach-IsLinkedChain}
use summerpoem_cli.Programs.Start.{
  StateError, from_file, from_genesis, after_added, replay, load_chain, load_state,
}

from_genesis-eq-ok : (r : Outcome ChainState) {s : ChainState} → from_genesis r ≡ ok s → r ≡ ok s
unfolding from_genesis
from_genesis-eq-ok (ok a) h = ap ok (ok-injective h)
from_genesis-eq-ok (err e) h = cc

module _ (p : Primitives) (pow : PowFunction) (params : Params) where
  after_added-Reach :
      (genesis : Block) (next : ChainState → Result StateError ChainState)
      (r : Outcome Bool × ChainState) {s' : ChainState}
      → Reach p pow params genesis r.1
      → ((s : ChainState)
          → Reach p pow params genesis s
          → next s ≡ ok s'
          → Reach p pow params genesis s')
      → after_added p pow next r ≡ ok s'
      → Reach p pow params genesis s'
  unfolding after_added
  after_added-Reach genesis next (ok adopted, s) reached go h = go s reached h
  after_added-Reach genesis next (err e, s) reached go h = absurd cc

  replay-Reach :
      (genesis : Block) (blocks : List Block) (s s' : ChainState)
      → Reach p pow params genesis s
      → replay p pow blocks s ≡ ok s'
      → Reach p pow params genesis s'
  unfolding replay
  replay-Reach genesis [] s s' reached h =
      subst (λ x. Reach p pow params genesis x) (ok-injective h) reached
  replay-Reach genesis (b ∷ blocks) s s' reached h =
      after_added-Reach genesis (replay p pow blocks) (add_block p pow b s) (offered reached b)
        (λ s1 r1 h1. replay-Reach genesis blocks s1 s' r1 h1) h

  load_chain-Reach :
      (blocks : List Block) (s : ChainState)
      → load_chain p pow params blocks ≡ ok s
      → (genesis : Block) × Reach p pow params genesis s
  unfolding load_chain
  load_chain-Reach [] s h = absurd cc
  load_chain-Reach (genesis ∷ blocks) s h =
      let (s1, h1, h2) = >>=-eq-ok (from_genesis (new_chain p pow params genesis)) _ h in
      (genesis, replay-Reach genesis blocks s1 s (start s1 (from_genesis-eq-ok _ h1)) h2)

  load_state-Reach :
      (file : List ℕ) (s : ChainState)
      → load_state p pow params file ≡ ok s
      → (genesis : Block) × Reach p pow params genesis s
  unfolding load_state
  load_state-Reach file s h =
      let (r, _, h1) = >>=-eq-ok (from_file (load_bytes file)) _ h in
      let (_, h2) = >>-eq-ok (refuse_if _ _) _ h1 in load_chain-Reach r.1 s h2

  -- Whatever bytes a chain file holds, a state that is loaded from it is valid, its active chain leads
  -- from a block without a parent to its tip, and its unspent outputs are worth at most the cap. The
  -- digest is assumed never to be 32 zero bytes.
  pub load_state-IsValid :
      ((bs : List ℕ) → p.digest bs ≢ zero_hash)
      → (file : List ℕ) (s : ChainState) → load_state p pow params file ≡ ok s
      → IsValid s × IsLinkedChain s × (value s.utxos ≤ supply_cap)
  load_state-IsValid nz file s h =
      let (genesis, reached) = load_state-Reach file s h in
      let (a, b) = supply-le-supply_cap p pow params genesis nz reached in
      (
        Reach-IsValid p pow params genesis nz reached,
        (Reach-IsLinkedChain p pow params genesis nz reached).1,
        omega arith,
      )
