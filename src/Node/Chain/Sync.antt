-- ===== src/Node/Chain/Sync.antt =====
-- A node that is behind asks for, and is told, exactly the blocks that it lacks.
use summerpoem_cli.Prelude.{
  ℕ, zero, suc, ◌+◌, ◌-◌, ◌<◌, ◌≡◌, ◌≢◌, refl, sym, ◌∙◌, ap, arith, true, some, List, [], ◌∷◌, ◌++◌,
  length, take, get_elem?, lt→ltb, drop-append_length,
}
use mathlib.Core.Path.{subst}
use summerpoem_cli.Prelude.Result.{ok, ok_or, >>=-eq-ok, >>-eq-ok, ok-injective}
use summerpoem_cli.Prelude.Equality.{bytes_Eq, bytes_eq_iff}
use summerpoem_cli.Prelude.Dictionary.{Dictionary, get, get-insert_self, get-single}
use summerpoem_cli.Core.Hash.{Hash256, zero_hash, sha3}
use summerpoem_cli.Core.Params.{Params}
use summerpoem_cli.Core.Block.{Block, header_hash}
use summerpoem_cli.Crypto.{Primitives}
use summerpoem_cli.Node.Chain.{
  BlockMeta, ChainState, PowFunction, checked, new_chain, apply_chain, work_from_target,
  validate_genesis,
}
use summerpoem_cli.Node.Chain.Queries.{
  chain_height, is_at, is_active, found_or_zero, active_at, next_step, locator_from, locator,
  height_of, fork_height, hashes_after_locator,
}
use summerpoem_cli.Node.Chain.Active.{Linked, IsLinkedChain, add_block-IsLinkedChain}
use summerpoem_cli.Node.Chain.Root.{IsRoot, add_block-IsRoot, active-root}
use summerpoem_cli.Node.Chain.Supply.{Reach, start, offered, Reach-IsValid}

module _ (p : Primitives) (pow : PowFunction) (params : Params) (genesis : Block)
    (never_zero : (bs : List ℕ) → p.digest bs ≢ zero_hash) where
  new_chain-IsLinkedChain :
      (s : ChainState) → new_chain p pow params genesis ≡ ok s → IsLinkedChain s
  unfolding new_chain
  new_chain-IsLinkedChain s h =
      let ghash = header_hash p.digest genesis.header in
      let (_, h₁) = >>-eq-ok (checked (validate_genesis p pow params genesis)) _ h in
      let (_, _, h₂) = >>=-eq-ok (ok_or _ _) _ h₁ in
      let (work, _, h₃) = >>=-eq-ok (work_from_target _) _ h₂ in
      let (applied, a, h₄) = >>=-eq-ok (apply_chain p pow params _ 0 (ghash ∷ []) [] 0) _ h₃ in
      let m : BlockMeta = record {
        height = 0;
        cum_work = work;
        time = genesis.header.time;
        parent = zero_hash;
      } in
      subst IsLinkedChain (ok-injective h₄) ((m, get-insert_self ghash m [], refl, refl), tt)

  new_chain-IsRoot :
      (s : ChainState)
      → new_chain p pow params genesis ≡ ok s
      → IsRoot (header_hash p.digest genesis.header) s.meta
  unfolding new_chain
  new_chain-IsRoot s h =
      let ghash = header_hash p.digest genesis.header in
      let (_, h₁) = >>-eq-ok (checked (validate_genesis p pow params genesis)) _ h in
      let (_, _, h₂) = >>=-eq-ok (ok_or _ _) _ h₁ in
      let (_, _, h₃) = >>=-eq-ok (work_from_target _) _ h₂ in
      let (_, _, h₄) = >>=-eq-ok (apply_chain p pow params _ 0 (ghash ∷ []) [] 0) _ h₃ in
      subst (λ c. IsRoot ghash c.meta) (ok-injective h₄)
        (λ k x g zero_height. (get-single k ghash _ g).0)

  Reach-IsRoot :
      {s : ChainState}
      → Reach p pow params genesis s
      → IsRoot (header_hash p.digest genesis.header) s.meta
  Reach-IsRoot (start s h) = new_chain-IsRoot s h
  Reach-IsRoot (offered r block) =
      add_block-IsRoot p pow (header_hash p.digest genesis.header) block _
        (Reach-IsValid p pow params genesis never_zero r) (Reach-IsRoot r)

  Reach-path : {s : ChainState} → Reach p pow params genesis s → IsLinkedChain s
  Reach-path (start s h) = new_chain-IsLinkedChain s h
  Reach-path (offered r block) =
      add_block-IsLinkedChain p pow block _ (unfold header_hash sha3 in never_zero _)
        (Reach-IsValid p pow params genesis never_zero r) (Reach-path r)

  -- In every state that a node reaches from a genesis block, whatever blocks it was offered, the
  -- active chain leads from that block to the tip: its first hash is the genesis block's, and the
  -- hash at each height is indexed at that height, with the hash before as its parent. The digest is
  -- assumed never to be 32 zero bytes.
  pub Reach-IsLinkedChain :
      {s : ChainState}
      → Reach p pow params genesis s
      → (get_elem? s.active 0 ≡ some (header_hash p.digest genesis.header)) × IsLinkedChain s
  Reach-IsLinkedChain {s} r = (
    active-root (header_hash p.digest genesis.header) s
        (Reach-IsValid p pow params genesis never_zero r) (Reach-IsRoot r) (Reach-path r),
    Reach-path r,
  )

Linked-at :
    (meta : Dictionary Hash256 BlockMeta) (prev : Hash256) (n : ℕ) (l : List Hash256) (i : ℕ)
    (h : Hash256)
    → Linked meta prev n l
    → get_elem? l i ≡ some h
    → (m : BlockMeta) × (get h meta ≡ some m) × (m.height ≡ n + i)
Linked-at meta prev n [] i h p e = absurd cc
Linked-at meta prev n (x ∷ xs) zero h ((m, g, k, _), p) e =
    let same : x ≡ h = cc in (m, subst (λ y. get y meta ≡ some m) same g, omega arith)
Linked-at meta prev n (x ∷ xs) (suc i) h (_, p) e =
    let (m, g, k) = Linked-at meta x (suc n) xs i h p e in (m, g, omega arith)

-- A hash on the active chain is found active, at its height.
is_active-at :
    (s : ChainState) (i : ℕ) (h : Hash256)
    → IsLinkedChain s
    → get_elem? s.active i ≡ some h
    → (is_active h s ≡ true) × (height_of (get h s.meta) ≡ i)
unfolding is_active height_of is_at
is_active-at s i h l e =
    let (m, g, k) = Linked-at s.meta zero_hash 0 s.active i h l e in
    let k' : m.height ≡ i = k ∙ omega arith in
    let e' = subst (λ j. get_elem? s.active j ≡ some h) (sym k') e in
    (rw (g, is_active, e') ((bytes_eq_iff h h).1 refl), rw g k')

get_elem-append :
    (xs ys : List Hash256) (i : ℕ) → i < length xs → get_elem? (xs ++ ys) i ≡ get_elem? xs i
get_elem-append [] ys i h = absurd (omega arith)
get_elem-append (x ∷ xs) ys zero h = refl
get_elem-append (x ∷ xs) ys (suc i) h = get_elem-append xs ys i (omega arith)

get_elem-below :
    (xs : List Hash256) (i : ℕ) → i < length xs → get_elem? xs i ≡ some (active_at xs i)
unfolding active_at found_or_zero
get_elem-below [] i h = absurd (omega arith)
get_elem-below (x ∷ xs) zero h = refl
get_elem-below (x ∷ xs) (suc i) h = get_elem-below xs i (omega arith)

-- A locator begins with the tip.
locator_from-head :
    (n : ℕ) (active : List Hash256)
    → (rest : List Hash256) × (locator_from n active n 1 0 ++ (active_at active 0 ∷ [])
        ≡ active_at active n ∷ rest)
unfolding locator_from
locator_from-head zero active = ([], refl)
locator_from-head (suc n) active =
    let step = next_step 1 1 in
    let more = lt→ltb 0 (suc n) (omega arith) in
    (locator_from n active (suc n - step) step 1 ++ (active_at active 0 ∷ []), rw more refl)

fork_height-head :
    (s : ChainState) (h : Hash256) (hs : List Hash256) (n : ℕ)
    → is_active h s ≡ true
    → height_of (get h s.meta) ≡ n
    → fork_height (h ∷ hs) s ≡ n
unfolding fork_height
fork_height-head s h hs n a e = rw a e

-- Where a node's active chain is that of another one less some blocks at its end, its locator asks
-- for those: what the other one's answer holds is the hashes of the blocks that it lacks, oldest
-- first, as many as the answer may have.
pub hashes_after_locator-locator :
    (client server : ChainState) (behind : List Hash256) (max : ℕ)
    → IsLinkedChain server
    → 0 < length client.active
    → server.active ≡ client.active ++ behind
    → hashes_after_locator (locator client) max server ≡ take max behind
unfolding hashes_after_locator locator chain_height
hashes_after_locator-locator client server behind max linked some_block e =
    let n = length client.active - 1 in
    let tip = active_at client.active n in
    let below : n < length client.active = omega arith in
    let held : get_elem? server.active n ≡ some tip =
      ap (λ l. get_elem? l n) e
      ∙ get_elem-append client.active behind n below
      ∙ get_elem-below client.active n below in
    let (active, height) = is_active-at server n tip linked held in
    let (rest, head) = locator_from-head n client.active in
    let len : n + 1 ≡ length client.active = omega arith in
    rw (head, fork_height-head server tip rest n active height, e, len, drop-append_length) refl
