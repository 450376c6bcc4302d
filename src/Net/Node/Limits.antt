-- ===== src/Net/Node/Limits.antt =====
-- What a node sends is within what its peers' decoders take.
use summerpoem_cli.Prelude.{
  ℕ, zero, suc, ◌+◌, ◌^◌, ◌≤◌, ◌<◌, ◌≡◌, refl, arith, Bool, true, false, Option, some, none, List,
  [], ◌∷◌, ◌++◌, length, take, drop, ltb, ◌==◌, ◌&&◌, ◌||◌, not, if◌then◌else◌,
}
use mathlib.Core.Path.{subst}
use summerpoem_cli.Prelude.Lists.{filter_by}
use summerpoem_cli.Prelude.Result.{Result, ok, err}
use summerpoem_cli.Prelude.Equality.{bytes_Eq}
use summerpoem_cli.Prelude.Dictionary.{Dictionary, get, insert, contains_key}
use summerpoem_cli.Core.Hash.{Hash256}
use summerpoem_cli.Core.Tx.{Transaction, txid}
use summerpoem_cli.Core.Tx.RoundTrip.{TxFits}
use summerpoem_cli.Core.Block.{Block}
use summerpoem_cli.Core.Block.RoundTrip.{BlockFits}
use summerpoem_cli.Crypto.{Primitives}
use summerpoem_cli.Node.CheckTx.{is_empty}
use summerpoem_cli.Node.Chain.{ChainState, Outcome, PowFunction, add_block}
use summerpoem_cli.Node.Chain.Queries.{
  chain_height, locator, block_by_hash, contains_block, fork_height, hashes_after_locator,
}
use summerpoem_cli.Node.Chain.Queries.Length.{length-locator}
use summerpoem_cli.Node.Mempool.{Mempool, MempoolError, low_fee, full, conflict, invalid, insert_tx}
use summerpoem_cli.Net.Message.{
  SocketAddr, Message, hello, ping, pong, inv, get_data, get_blocks, block, tx, get_addr, addr,
  unknown, max_inv, max_locator, max_addrs,
}
use summerpoem_cli.Net.Address.{HashSet, items, is_reachable, addr_Eq}
use summerpoem_cli.Net.Node.{PeerHandle, Shared, send_to_all, broadcast}
use summerpoem_cli.Net.Node.Life.{after_block-shared}
use summerpoem_cli.Net.Node.Handle.{
  PeerState, Handled, Verdict, max_height, taken, orphan, known, faulty, verdict, after_block,
  after_tx, accept_block, announce, drop_self, learn_addr, learn_addrs, greet, handle_hello,
  handle_get_addr, handle_addr, handle_inv, send_blocks, send_txs, handle_get_data,
  handle_get_blocks, handle_block, handle_tx, handle_message, addr_sample, blocks_per_round,
}

-- The counts and lengths of a message are within what `decode` takes, those of a block and of a
-- transaction included, whose numbers and hashes are in the ranges of their types too.
abbrev pub IsWithinLimits : Message → Type 0
IsWithinLimits (inv blocks txs) = (length blocks ≤ max_inv) × (length txs ≤ max_inv)
IsWithinLimits (get_data blocks txs) = (length blocks ≤ max_inv) × (length txs ≤ max_inv)
IsWithinLimits (get_blocks hashes) = length hashes ≤ max_locator
IsWithinLimits (addr addrs) = length addrs ≤ max_addrs
IsWithinLimits (block b) = BlockFits b
IsWithinLimits (tx t) = TxFits t
IsWithinLimits msg = Unit {0}

-- So are the blocks and the transactions that a node has.
pub record HoldsLimits (s : Shared) : Type 0 where
  pub blocks_fit : (h : Hash256) (b : Block) → block_by_hash h s.chain ≡ some b → BlockFits b
  pub txs_fit : (h : Hash256) (t : Transaction) → get h s.mempool.txs ≡ some t → TxFits t

pub data AllWithin : List (ℕ × Message) → Type 0 where
  nothing : AllWithin []
  one_more :
      {msgs : List (ℕ × Message)} (id : ℕ) (msg : Message)
      → IsWithinLimits msg
      → AllWithin msgs
      → AllWithin ((id, msg) ∷ msgs)

within-append : {xs ys : List (ℕ × Message)} → AllWithin xs → AllWithin ys → AllWithin (xs ++ ys)
within-append nothing w = w
within-append (one_more id msg h v) w = one_more id msg h (within-append v w)

within-send_to_all :
    (msg : Message) (except : Option ℕ) (peers : Dictionary ℕ PeerHandle)
    → IsWithinLimits msg
    → AllWithin (send_to_all msg except peers)
unfolding send_to_all
within-send_to_all msg except [] h = nothing
within-send_to_all msg none ((id, q) ∷ peers) h =
    one_more id msg h (within-send_to_all msg none peers h)
within-send_to_all msg (some e) ((id, q) ∷ peers) h =
    let rest = within-send_to_all msg (some e) peers h in
    elim (id == e)
      as (λ r. AllWithin (
        if r then send_to_all msg (some e) peers else (id, msg) ∷ send_to_all msg (some e) peers)) [
          | true ↦ rest
          | false ↦ one_more id msg h rest
        ]

within-send_blocks :
    (id : ℕ) (hs : List Hash256) (chain : ChainState)
    → ((h : Hash256) (b : Block) → block_by_hash h chain ≡ some b → BlockFits b)
    → AllWithin (send_blocks id hs chain)
unfolding send_blocks
within-send_blocks id [] chain fits = nothing
within-send_blocks id (h ∷ hs) chain fits =
    let rest = within-send_blocks id hs chain fits in
    (elim (block_by_hash h chain)
        as (λ r.
          block_by_hash h chain ≡ r
          → AllWithin (elim r [
            | none ↦ send_blocks id hs chain
            | some b ↦ (id, block b) ∷ send_blocks id hs chain
          ])) [ none ↦ λ e. rest | some b ↦ λ e. one_more id (block b) (fits h b e) rest ])
      refl

within-send_txs :
    (id : ℕ) (hs : List Hash256) (pool : Mempool)
    → ((h : Hash256) (t : Transaction) → get h pool.txs ≡ some t → TxFits t)
    → AllWithin (send_txs id hs pool)
unfolding send_txs
within-send_txs id [] pool fits = nothing
within-send_txs id (h ∷ hs) pool fits =
    let rest = within-send_txs id hs pool fits in
    (elim (get h pool.txs)
        as (λ r.
          get h pool.txs ≡ r
          → AllWithin
              (elim r [ none ↦ send_txs id hs pool | some t ↦ (id, tx t) ∷ send_txs id hs pool ])) [
                | none ↦ λ e. rest
                | some t ↦ λ e. one_more id (tx t) (fits h t e) rest
              ])
      refl

learn_addrs-length :
    (addrs : List SocketAddr) (book : HashSet SocketAddr)
    → length (learn_addrs addrs book).0 ≤ length addrs
unfolding learn_addrs
learn_addrs-length [] book = omega arith
learn_addrs-length (a ∷ addrs) book =
    let new = is_reachable a && not (contains_key a book) in
    let l = learn_addrs-length addrs (if new then insert a tt book else book) in ground arith

filter_by-length :
    {A : Type 0} (keep : A → Bool) (xs : List A) → length (filter_by keep xs) ≤ length xs
unfolding filter_by
filter_by-length keep [] = omega arith
filter_by-length keep (x ∷ xs) = let l = filter_by-length keep xs in ground arith

pub take-length : {A : Type 0} (n : ℕ) (xs : List A) → length (take n xs) ≤ n
take-length zero xs = omega arith
take-length (suc n) [] = omega arith
take-length (suc n) (x ∷ xs) = let l = take-length n xs in omega arith

if-within :
    (b : Bool) (x y : Handled)
    → AllWithin x.sent
    → AllWithin y.sent
    → AllWithin (if b then x else y).sent
if-within true x y v w = v
if-within false x y v w = w

get_data-within :
    (id : ℕ) (blocks txs : List Hash256) (s : Shared) (peer : PeerState)
    → HoldsLimits s
    → AllWithin (handle_get_data id blocks txs s peer).sent
unfolding handle_get_data
get_data-within id blocks txs s peer fits =
    if-within (ltb max_inv (length blocks) || ltb max_inv (length txs)) _ _ nothing (
      within-append (within-send_blocks id blocks s.chain fits.blocks_fit)
        (within-send_txs id txs s.mempool fits.txs_fit))

after_block-within :
    (id : ℕ) (batch_done : Bool) (peer : PeerState) (s : Shared) (sent : List (ℕ × Message))
    (v : Verdict)
    → chain_height s.chain < 2 ^ 54
    → AllWithin sent
    → AllWithin (after_block id batch_done peer s sent v).sent
unfolding after_block
after_block-within id true peer s sent taken low w =
    within-append w (one_more id _ (length-locator s.chain low) nothing)
after_block-within id false peer s sent taken low w = within-append w nothing
after_block-within id batch_done peer s sent orphan low w =
    within-append w (one_more id _ (length-locator s.chain low) nothing)
after_block-within id batch_done peer s sent known low w = w
after_block-within id batch_done peer s sent (faulty e) low w = w

after_tx-within :
    (id : ℕ) (hash : Hash256) (s : Shared) (peer : PeerState) (r : Result MempoolError ℕ)
    (pool : Mempool)
    → AllWithin (after_tx id hash s peer (r, pool)).sent
unfolding after_tx broadcast
after_tx-within id hash s peer (ok fee) pool =
    within-send_to_all (inv [] (hash ∷ [])) (some id) s.peers (omega arith, omega arith)
after_tx-within id hash s peer (err (invalid e)) pool = nothing
after_tx-within id hash s peer (err MempoolError.duplicate) pool = nothing
after_tx-within id hash s peer (err conflict) pool = nothing
after_tx-within id hash s peer (err (low_fee n)) pool = nothing
after_tx-within id hash s peer (err full) pool = nothing

greet-within :
    (id height : ℕ) (tip : Hash256) (r : Shared × PeerState)
    → chain_height r.0.chain < 2 ^ 54
    → AllWithin (greet id height tip r).sent
unfolding greet
greet-within id height tip r low =
    one_more id get_addr tt
      (elim (ltb (chain_height r.0.chain) height && not (contains_block tip r.0.chain))
        as (λ ask. AllWithin (if ask then (id, get_blocks (locator r.0.chain)) ∷ [] else [])) [
          | true ↦ one_more id _ (length-locator r.0.chain low) nothing
          | false ↦ nothing
        ])

hello-within :
    (id height : ℕ) (tip : Hash256) (listen_port nonce : ℕ) (s : Shared) (peer : PeerState)
    → chain_height s.chain < 2 ^ 54
    → AllWithin (handle_hello id height tip listen_port nonce s peer).sent
unfolding handle_hello drop_self
hello-within id height tip listen_port nonce s peer low =
    let seen = record s { best_peer_height = max_height s.best_peer_height height } in
    let same : (learn_addr listen_port seen peer).0.chain ≡ s.chain =
      unfold learn_addr in ground arith in
    if-within (not (nonce == 0) && nonce == s.node_nonce) _ _ nothing
      (greet-within id height tip (learn_addr listen_port seen peer) (rw same low))

hello-chain :
    (id height : ℕ) (tip : Hash256) (listen_port nonce : ℕ) (s : Shared) (peer : PeerState)
    → (handle_hello id height tip listen_port nonce s peer).shared.chain ≡ s.chain
unfolding handle_hello drop_self learn_addr greet
hello-chain id height tip listen_port nonce s peer = ground arith

reply-within :
    (b : Bool) (reply : List (ℕ × Message)) → AllWithin reply → AllWithin (if b then [] else reply)
reply-within true reply w = nothing
reply-within false reply w = w

module _ (p : Primitives) (pow : PowFunction) where
  announce-within :
      (b : Block) (from : Option ℕ) (s : Shared) (r : Outcome Bool × ChainState)
      → AllWithin (announce p pow b from s r).2
  unfolding announce broadcast
  announce-within b from s (ok true, chain) =
      within-send_to_all _ from s.peers (omega arith, omega arith)
  announce-within b from s (ok false, chain) = nothing
  announce-within b from s (err e, chain) = nothing

  -- Whatever a node sends in answer to a message that is itself within the decoders' limits is within
  -- them too: no list of hashes or addresses is longer than its peers take, and the blocks and
  -- transactions are within the limits on their counts and lengths and in the ranges of their types,
  -- as those that the node has are assumed to be. The chain that it ends with is assumed lower than
  -- 2 ^ 54 blocks.
  pub handle_message-AllWithin :
      (id : ℕ) (msg : Message) (s : Shared) (peer : PeerState)
      → IsWithinLimits msg
      → HoldsLimits s
      → chain_height (handle_message p pow id msg s peer).shared.chain < 2 ^ 54
      → AllWithin (handle_message p pow id msg s peer).sent
  unfolding handle_message handle_get_addr handle_addr handle_inv handle_get_blocks handle_block
      handle_tx accept_block hashes_after_locator broadcast
  handle_message-AllWithin id (hello version height tip listen_port nonce) s peer v fits low =
      hello-within id height tip listen_port nonce s peer (
        subst (λ c. chain_height c < 2 ^ 54) (hello-chain id height tip listen_port nonce s peer)
          low)
  handle_message-AllWithin id get_addr s peer v fits low =
      let l = take-length addr_sample (items s.book) in
      reply-within (is_empty (take addr_sample (items s.book))) _
        (one_more id _ (omega arith) nothing)
  handle_message-AllWithin id (addr addrs) s peer v fits low =
      let l = learn_addrs-length (take max_addrs addrs) s.book in
      let m = take-length max_addrs addrs in
      reply-within (is_empty (learn_addrs (take max_addrs addrs) s.book).0) _
        (within-send_to_all _ (some id) s.peers (omega arith))
  handle_message-AllWithin id (ping n) s peer v fits low = one_more id (pong n) tt nothing
  handle_message-AllWithin id (pong n) s peer v fits low = nothing
  handle_message-AllWithin id (inv blocks txs) s peer (v, w) fits low =
      let wanted : Hash256 → Bool =
        λ h. not (contains_block h s.chain) && not (contains_key h peer.requested_blocks) in
      let missing : Hash256 → Bool = λ t. not (contains_key t s.mempool.txs) in
      let want_blocks = filter_by wanted blocks in
      let want_txs = filter_by missing txs in
      let l = filter_by-length wanted blocks in
      let m = filter_by-length missing txs in
      if-within (is_empty want_blocks && is_empty want_txs) _ _ nothing
        (one_more id (get_data want_blocks want_txs) (omega arith, omega arith) nothing)
  handle_message-AllWithin id (get_data blocks txs) s peer v fits low =
      get_data-within id blocks txs s peer fits
  handle_message-AllWithin id (get_blocks hashes) s peer v fits low =
      let l = take-length blocks_per_round (drop (fork_height hashes s.chain + 1) s.chain.active) in
      reply-within (is_empty (hashes_after_locator hashes blocks_per_round s.chain)) _
        (one_more id _ (omega arith, omega arith) nothing)
  handle_message-AllWithin id (block b) s peer v fits low =
      let r = accept_block p pow b (some id) s in
      after_block-within id _ _ r.1 r.2 (verdict r.0)
        (subst (λ x. chain_height x.chain < 2 ^ 54)
          (after_block-shared id _ _ r.1 r.2 (verdict r.0)) low)
        (announce-within b (some id) s (add_block p pow b s.chain))
  handle_message-AllWithin id (tx t) s peer v fits low =
      after_tx-within id (txid p.digest t.body) s peer _ (insert_tx p s.chain t s.mempool).1
  handle_message-AllWithin id unknown s peer v fits low = nothing
