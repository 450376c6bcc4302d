-- ===== src/Node/Chain/Supply.antt =====
-- The supply cap, for every state that a node can reach.
use summerpoem_cli.Prelude.{ℕ, ◌≤◌, ◌≡◌, ◌≢◌, refl, sym, List, [], ◌∷◌, length, some, inl}
use mathlib.Core.Path.{subst}
use native.Mathlib.Nat.{le_trans}
use summerpoem_cli.Prelude.Result.{ok, ok_or, >>=-eq-ok, >>-eq-ok, ok-injective}
use summerpoem_cli.Prelude.Equality.{bytes_Eq, beq-of_ne}
use summerpoem_cli.Prelude.Dictionary.{
  get, insert, get-insert, get-insert_self, get-single, contains_key-of_get-some,
}
use summerpoem_cli.Core.Hash.{Hash256, zero_hash, sha3}
use summerpoem_cli.Core.Params.{Params}
use summerpoem_cli.Core.Block.{Block, header_hash}
use summerpoem_cli.Core.Emission.{supply_cap}
use summerpoem_cli.Core.Emission.Supply.{issued-le-supply_cap}
use summerpoem_cli.Crypto.{Primitives}
use summerpoem_cli.Node.Utxo.{value}
use summerpoem_cli.Node.Chain.{
  BlockMeta, ChainState, PowFunction, checked, last?, new_chain, add_block, apply_chain,
  work_from_target, validate_genesis,
}
use summerpoem_cli.Node.Chain.Walk.{IsLinked, IsIndex}
use summerpoem_cli.Node.Chain.Ledger.{apply_chain-Backs}
use summerpoem_cli.Node.Chain.Invariant.{IsValid, Backs-zero, add_block-IsValid}

-- The index of one block without a parent.
genesis-IsIndex :
    (g : Hash256) (m : BlockMeta) (block : Block)
    → g ≢ zero_hash
    → m.parent ≡ zero_hash
    → m.height ≡ 0
    → IsIndex (insert g block []) (insert g m [])
genesis-IsIndex g m block nz root zero_height = record {
  linked = λ h x e. only h x e;
  no_zero =
      rw (get-insert zero_hash g m [], beq-of_ne zero_hash g (λ e. nz (sym e)))
        (unfold get in refl);
  stored = λ h x e. contains_key-of_get-some h _ {v = block} (
      subst (λ k. get k (insert g block []) ≡ some block) (sym (get-single h g m e).0)
        (get-insert_self g block []));
}
  where
    only :
        (h : Hash256) (x : BlockMeta) → get h (insert g m []) ≡ some x → IsLinked (insert g m []) x
    only h x e =
        let same = (get-single h g m e).1 in
        subst (IsLinked (insert g m [])) same (inl (root, zero_height))

module _ (p : Primitives) (pow : PowFunction) (params : Params) (genesis : Block) where
  -- The states that a node reaches from the genesis block, by whatever blocks it is offered.
  pub data Reach : ChainState → Type 0 where
    start : (s : ChainState) → new_chain p pow params genesis ≡ ok s → Reach s
    offered : {s : ChainState} → Reach s → (block : Block) → Reach (add_block p pow block s).1

  module _ (never_zero : (bs : List ℕ) → p.digest bs ≢ zero_hash) where
    new_chain-IsValid : (s : ChainState) → new_chain p pow params genesis ≡ ok s → IsValid s
    unfolding new_chain
    new_chain-IsValid s h =
        let ghash = header_hash p.digest genesis.header in
        let (_, h₁) = >>-eq-ok (checked (validate_genesis p pow params genesis)) _ h in
        let (_, _, h₂) = >>=-eq-ok (ok_or _ _) _ h₁ in
        let (work, _, h₃) = >>=-eq-ok (work_from_target _) _ h₂ in
        let (applied, a, h₄) = >>=-eq-ok (apply_chain p pow params _ 0 (ghash ∷ []) [] 0) _ h₃ in
        let m : BlockMeta = record {
          height = 0;
          cum_work = work;
          time = genesis.header.time;
          parent = zero_hash;
        } in
        subst IsValid (ok-injective h₄) (record {
          index =
              genesis-IsIndex ghash m genesis (unfold header_hash sha3 in never_zero _) refl refl;
          tip = (ghash, m, unfold last? in refl, get-insert_self ghash m [], refl);
          backs =
              apply_chain-Backs p pow params _ 0 (ghash ∷ []) [] applied.0 0 applied.1 Backs-zero a;
        })

    pub Reach-IsValid : {s : ChainState} → Reach s → IsValid s
    Reach-IsValid (start s h) = new_chain-IsValid s h
    Reach-IsValid (offered r block) =
        add_block-IsValid p pow block _ (unfold header_hash sha3 in never_zero _) (Reach-IsValid r)

    -- In every state that a node reaches from a genesis block, whatever blocks it was offered, the
    -- unspent outputs are worth at most the supply, and the supply is at most the cap of 42
    -- million coins. The digest is assumed never to be 32 zero bytes.
    pub supply-le-supply_cap :
        {s : ChainState} → Reach s → (value s.utxos ≤ s.supply) × (s.supply ≤ supply_cap)
    supply-le-supply_cap {s} r =
        let b = (Reach-IsValid r).backs in
        (b.backed, le_trans b.issued_bound (issued-le-supply_cap (length s.active)))
