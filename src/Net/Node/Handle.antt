-- ===== src/Net/Node/Handle.antt =====
-- `handle_message` of crates/net/src/node.rs, an arm of it at a time, with `accept_block` and
-- `submit_tx`. What an arm sends to its peer goes to the peer's own id, as broadcasts do.
use summerpoem_cli.Prelude.{
  ℕ, Bool, true, false, Option, none, some, List, [], ◌∷◌, ◌++◌, length, take, ltb, ◌==◌, ◌&&◌,
  ◌||◌, not, if◌then◌else◌,
}
use summerpoem_cli.Prelude.Lists.{filter_by}
use summerpoem_cli.Prelude.Result.{Result, ok, err}
use summerpoem_cli.Prelude.Equality.{bytes_Eq}
use summerpoem_cli.Prelude.Dictionary.{get, insert, remove, contains_key}
use summerpoem_cli.Core.Hash.{Hash256}
use summerpoem_cli.Core.Tx.{Transaction, txid}
use summerpoem_cli.Core.Block.{Block, header_hash}
use summerpoem_cli.Crypto.{Primitives}
use summerpoem_cli.Node.CheckTx.{is_empty}
use summerpoem_cli.Node.Error.{ValidationError, unknown_parent, duplicate}
use summerpoem_cli.Node.Chain.{ChainState, Failure, refused, Outcome, PowFunction, add_block}
use summerpoem_cli.Node.Chain.Queries.{
  chain_height, contains_block, block_by_hash, locator, hashes_after_locator,
}
use summerpoem_cli.Node.Mempool.{Mempool, MempoolError, invalid, insert_tx, update_for_block}
use summerpoem_cli.Net.Message.{
  SocketAddr, Message, hello, ping, pong, inv, get_data, get_blocks, block, tx, get_addr, addr,
  unknown, max_inv, max_addrs,
}
use summerpoem_cli.Net.Address.{addr_Eq, HashSet, items, is_reachable}
use summerpoem_cli.Net.Node.{Shared, broadcast}

abbrev pub blocks_per_round : ℕ
blocks_per_round = 500

abbrev pub addr_sample : ℕ
addr_sample = 200

pub record PeerState : Type 0 where
  pub requested_blocks : HashSet Hash256
  pub addr : SocketAddr
  pub outbound : Bool
  pub advertised : Option SocketAddr
  pub disconnect : Bool

-- Why a message is an error of the peer's. `crashed` is a panic of the node's own.
pub data Fault : Type 0 where
  oversized_get_data : Fault
  invalid_block invalid_tx : ValidationError → Fault
  crashed : Failure → Fault

-- What `handle_message` returns, changes and sends.
pub record Handled : Type 0 where
  pub result : Result Fault (Unit {0})
  pub shared : Shared
  pub peer : PeerState
  pub sent : List (ℕ × Message)

abbrev pub done : Shared → PeerState → List (ℕ × Message) → Handled
done s peer sent = record { result = ok tt; shared = s; peer = peer; sent = sent }

unfoldable pub insert_some : Option SocketAddr → HashSet SocketAddr → HashSet SocketAddr
insert_some none addrs = addrs
insert_some (some a) addrs = insert a tt addrs

-- A link to the node itself.
unfoldable pub drop_self : Shared → PeerState → Handled
drop_self s peer =
    done (record s { self_addrs = insert_some peer.advertised (insert peer.addr tt s.self_addrs) })
      (record peer { disconnect = true }) []

-- The address at which the peer listens.
unfoldable pub reachable_at : ℕ → PeerState → SocketAddr
reachable_at listen_port peer =
    if peer.outbound then peer.addr else record { ip = peer.addr.ip; port = listen_port }

unfoldable pub learn_addr : ℕ → Shared → PeerState → Shared × PeerState
learn_addr listen_port s peer =
    let a = reachable_at listen_port peer in
    if listen_port == 0 then (s, peer) else (
      record s { book = insert a tt s.book; connected = insert a tt s.connected },
      record peer { advertised = some a },
    )

unfoldable pub max_height : ℕ → ℕ → ℕ
max_height a b = if ltb a b then b else a

unfoldable pub greet : ℕ → ℕ → Hash256 → Shared × PeerState → Handled
greet id height tip (s, peer) =
    let ask = ltb (chain_height s.chain) height && not (contains_block tip s.chain) in
    done s peer ((id, get_addr) ∷ (if ask then (id, get_blocks (locator s.chain)) ∷ [] else []))

unfoldable pub handle_hello : ℕ → ℕ → Hash256 → ℕ → ℕ → Shared → PeerState → Handled
handle_hello id height tip listen_port nonce s peer =
    let seen = record s { best_peer_height = max_height s.best_peer_height height } in
    if not (nonce == 0) && nonce == s.node_nonce
    then drop_self s peer
    else greet id height tip (learn_addr listen_port seen peer)

unfoldable pub handle_get_addr : ℕ → Shared → PeerState → Handled
handle_get_addr id s peer =
    let sample = take addr_sample (items s.book) in
    done s peer (if is_empty sample then [] else (id, addr sample) ∷ [])

-- The loop over the addresses: the new ones, in order, and the book with them.
unfoldable pub learn_addrs :
    List SocketAddr → HashSet SocketAddr → List SocketAddr × HashSet SocketAddr
learn_addrs [] book = ([], book)
learn_addrs (a ∷ addrs) book =
    let new = is_reachable a && not (contains_key a book) in
    let (fresh, book') = learn_addrs addrs (if new then insert a tt book else book) in
    (if new then a ∷ fresh else fresh, book')

unfoldable pub handle_addr : ℕ → List SocketAddr → Shared → PeerState → Handled
handle_addr id addrs s peer =
    let (fresh, book) = learn_addrs (take max_addrs addrs) s.book in
    let s' = record s { book = book } in
    done s' peer (if is_empty fresh then [] else broadcast (addr fresh) (some id) s')

unfoldable pub request_all : List Hash256 → HashSet Hash256 → HashSet Hash256
request_all [] requested = requested
request_all (h ∷ hs) requested = request_all hs (insert h tt requested)

unfoldable pub handle_inv : ℕ → List Hash256 → List Hash256 → Shared → PeerState → Handled
handle_inv id blocks txs s peer =
    let want_blocks =
      filter_by (λ h. not (contains_block h s.chain) && not (contains_key h peer.requested_blocks))
        blocks in
    let want_txs = filter_by (λ t. not (contains_key t s.mempool.txs)) txs in
    if is_empty want_blocks && is_empty want_txs
    then done s peer []
    else done s (record peer { requested_blocks = request_all want_blocks peer.requested_blocks })
        ((id, get_data want_blocks want_txs) ∷ [])

unfoldable pub send_blocks : ℕ → List Hash256 → ChainState → List (ℕ × Message)
send_blocks id [] chain = []
send_blocks id (h ∷ hs) chain = elim (block_by_hash h chain) [
  | none ↦ send_blocks id hs chain
  | some b ↦ (id, block b) ∷ send_blocks id hs chain
]

unfoldable pub send_txs : ℕ → List Hash256 → Mempool → List (ℕ × Message)
send_txs id [] pool = []
send_txs id (h ∷ hs) pool = elim (get h pool.txs) [
  | none ↦ send_txs id hs pool
  | some t ↦ (id, tx t) ∷ send_txs id hs pool
]

unfoldable pub handle_get_data : ℕ → List Hash256 → List Hash256 → Shared → PeerState → Handled
handle_get_data id blocks txs s peer =
    if ltb max_inv (length blocks) || ltb max_inv (length txs)
    then record { result = err oversized_get_data; shared = s; peer = peer; sent = [] }
    else done s peer (send_blocks id blocks s.chain ++ send_txs id txs s.mempool)

unfoldable pub handle_get_blocks : ℕ → List Hash256 → Shared → PeerState → Handled
handle_get_blocks id hashes s peer =
    let found = hashes_after_locator hashes blocks_per_round s.chain in
    done s peer (if is_empty found then [] else (id, inv found []) ∷ [])

-- The arms of the `match` on what `accept_block` has returned: the block is taken, its parent is
-- unknown, it is known, or it is a fault.
pub data Verdict : Type 0 where
  taken orphan known : Verdict
  faulty : Fault → Verdict

unfoldable pub verdict : Outcome Bool → Verdict
verdict (ok new_tip) = taken
verdict (err (refused unknown_parent)) = orphan
verdict (err (refused duplicate)) = known
verdict (err (refused e)) = faulty (invalid_block e)
verdict (err e) = faulty (crashed e)

unfoldable pub after_block : ℕ → Bool → PeerState → Shared → List (ℕ × Message) → Verdict → Handled
after_block id batch_done peer s sent taken =
    done s peer (sent ++ (if batch_done then (id, get_blocks (locator s.chain)) ∷ [] else []))
after_block id batch_done peer s sent orphan =
    done s (record peer { requested_blocks = [] })
      (sent ++ ((id, get_blocks (locator s.chain)) ∷ []))
after_block id batch_done peer s sent known = done s peer sent
after_block id batch_done peer s sent (faulty e) = record {
  result = err e;
  shared = s;
  peer = peer;
  sent = sent;
}

-- The arms of the `match` on what the pool has returned.
unfoldable pub after_tx :
    ℕ → Hash256 → Shared → PeerState → Result MempoolError ℕ × Mempool → Handled
after_tx id hash s peer (ok fee, pool) =
    let s' = record s { mempool = pool } in
    done s' peer (broadcast (inv [] (hash ∷ [])) (some id) s')
after_tx id hash s peer (err (invalid e), pool) = record {
  result = err (invalid_tx e);
  shared = record s { mempool = pool };
  peer = peer;
  sent = [];
}
after_tx id hash s peer (err e, pool) = done (record s { mempool = pool }) peer []

module _ (p : Primitives) (pow : PowFunction) where
  -- The end of `accept_block`, by what `add_block` has returned.
  unfoldable pub announce :
      Block
      → Option ℕ
      → Shared
      → Outcome Bool × ChainState
      → Outcome Bool × Shared × List (ℕ × Message)
  announce b from s (ok true, chain) =
      let s' = record s { chain = chain; mempool = update_for_block p chain b s.mempool } in
      (ok true, s', broadcast (inv (header_hash p.digest b.header ∷ []) []) from s')
  announce b from s (ok false, chain) = (ok false, record s { chain = chain }, [])
  announce b from s (err e, chain) = (err e, record s { chain = chain }, [])

  unfoldable pub accept_block :
      Block → Option ℕ → Shared → Outcome Bool × Shared × List (ℕ × Message)
  accept_block b from s = announce b from s (add_block p pow b s.chain)

  unfoldable pub handle_block : ℕ → Block → Shared → PeerState → Handled
  handle_block id b s peer =
      let requested = remove (header_hash p.digest b.header) peer.requested_blocks in
      let r = accept_block b (some id) s in
      after_block id (is_empty requested) (record peer { requested_blocks = requested }) r.1 r.2
        (verdict r.0)

  unfoldable pub handle_tx : ℕ → Transaction → Shared → PeerState → Handled
  handle_tx id t s peer =
      after_tx id (txid p.digest t.body) s peer (insert_tx p s.chain t s.mempool)

  unfoldable pub handle_message : ℕ → Message → Shared → PeerState → Handled
  handle_message id (hello version height tip listen_port nonce) s peer =
      handle_hello id height tip listen_port nonce s peer
  handle_message id get_addr s peer = handle_get_addr id s peer
  handle_message id (addr addrs) s peer = handle_addr id addrs s peer
  handle_message id (ping n) s peer = done s peer ((id, pong n) ∷ [])
  handle_message id (pong n) s peer = done s peer []
  handle_message id (inv blocks txs) s peer = handle_inv id blocks txs s peer
  handle_message id (get_data blocks txs) s peer = handle_get_data id blocks txs s peer
  handle_message id (get_blocks hashes) s peer = handle_get_blocks id hashes s peer
  handle_message id (block b) s peer = handle_block id b s peer
  handle_message id (tx t) s peer = handle_tx id t s peer
  handle_message id unknown s peer = done s peer []
