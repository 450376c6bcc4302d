-- ===== src/Net/Node.antt =====
-- crates/net/src/node.rs: the state that a node's threads share, with the limits on connections and
-- the bans. Sockets and threads are left out: what a thread does under its locks is a function of
-- the shared state, in which `now` is the time in seconds, and what is put into the outboxes of
-- peers is a list of messages with the peers' ids. Log lines and the chain file are left out too.
use summerpoem_cli.Prelude.{
  ℕ, suc, ◌+◌, ◌-◌, ◌*◌, Bool, true, false, Option, none, some, List, [], ◌∷◌, ◌++◌, take, length,
  ltb, leb, ◌==◌, ◌&&◌, ◌||◌, not, if◌then◌else◌,
}
use summerpoem_cli.Prelude.Lists.{filter_by}
use summerpoem_cli.Prelude.Dictionary.{Dictionary, get, insert, remove, contains_key, total}
use summerpoem_cli.Core.Params.{network_id}
use summerpoem_cli.Node.Chain.{ChainState}
use summerpoem_cli.Node.Chain.Queries.{chain_height}
use summerpoem_cli.Node.Mempool.{Mempool}
use summerpoem_cli.Net.Message.{IpAddr, SocketAddr, Message}
use summerpoem_cli.Net.Address.{ℕ_Eq, ip_Eq, addr_Eq, HashSet, items, is_reachable}
pub mod Handle
pub mod Run
pub mod Caps
pub mod Life
pub mod Ledger
pub mod Bans
pub mod Blame
pub mod Limits
pub mod Delivery

abbrev pub target_peers : ℕ
target_peers = 8

abbrev pub max_inbound : ℕ
max_inbound = 117

abbrev pub max_per_ip : ℕ
max_per_ip = 5

abbrev pub ban_score : ℕ
ban_score = 100

abbrev pub ban_duration : ℕ
ban_duration = 24 * 3600

-- Without the sender of the outbox: what is sent is returned.
pub record PeerHandle : Type 0 where
  pub addr : SocketAddr
  pub outbound : Bool

pub record Shared : Type 0 where
  pub network_id : ℕ
  pub chain : ChainState
  pub mempool : Mempool
  pub peers : Dictionary ℕ PeerHandle
  pub next_peer_id : ℕ
  pub listen_port : ℕ
  pub best_peer_height : ℕ
  pub book : HashSet SocketAddr
  pub connected : HashSet SocketAddr
  pub self_addrs : HashSet SocketAddr
  pub inbound : Dictionary IpAddr ℕ
  pub scores : Dictionary IpAddr ℕ
  pub banned : Dictionary IpAddr ℕ
  pub node_nonce : ℕ

-- `NetNode::new`, over the nonce that it draws.
unfoldable pub new_node : ChainState → ℕ → Shared
new_node chain nonce = record {
  network_id = network_id chain.params.network;
  chain = chain;
  mempool = record { txs = []; spends = []; bytes = 0 };
  peers = [];
  next_peer_id = 1;
  listen_port = 0;
  best_peer_height = chain_height chain;
  book = [];
  connected = [];
  self_addrs = [];
  inbound = [];
  scores = [];
  banned = [];
  node_nonce = nonce;
}

unfoldable pub or_zero : Option ℕ → ℕ
or_zero none = 0
or_zero (some n) = n

unfoldable pub ban_state : ℕ → IpAddr → Shared → Option ℕ → Bool × Shared
ban_state now ip s none = (false, s)
ban_state now ip s (some until) =
    if ltb now until then (true, s) else (false, record s { banned = remove ip s.banned })

unfoldable pub is_banned : ℕ → IpAddr → Shared → Bool × Shared
is_banned now ip s = ban_state now ip s (get ip s.banned)

-- Points are never negative, so scores are natural numbers.
unfoldable pub misbehave : ℕ → IpAddr → ℕ → Shared → Shared
misbehave now ip points s =
    let score = or_zero (get ip s.scores) + points in
    if leb ban_score score
    then record s { scores = remove ip s.scores; banned = insert ip (now + ban_duration) s.banned }
    else record s { scores = insert ip score s.scores }

unfoldable pub dec_count : IpAddr → Dictionary IpAddr ℕ → Option ℕ → Dictionary IpAddr ℕ
dec_count ip inbound none = inbound
dec_count ip inbound (some c) = if c - 1 == 0 then remove ip inbound else insert ip (c - 1) inbound

unfoldable pub dec_inbound : IpAddr → Shared → Shared
dec_inbound ip s = record s { inbound = dec_count ip s.inbound (get ip s.inbound) }

-- The inbound and per-address caps of the accept loop.
unfoldable pub count_inbound : IpAddr → Shared → Bool × Shared
count_inbound ip s =
    let per_ip = or_zero (get ip s.inbound) in
    if leb max_inbound (total (λ c. c) s.inbound) || leb max_per_ip per_ip
    then (false, s)
    else (true, record s { inbound = insert ip (per_ip + 1) s.inbound })

unfoldable pub accept_unless : IpAddr → Bool × Shared → Bool × Shared
accept_unless ip (true, s) = (false, s)
accept_unless ip (false, s) = count_inbound ip s

-- The accept loop's decision on a connection: whether a thread is started for it.
unfoldable pub accept : ℕ → IpAddr → Shared → Bool × Shared
accept now ip s = accept_unless ip (is_banned now ip s)

unfoldable pub dial_unless : SocketAddr → Bool × Shared → Bool × Shared
dial_unless target (true, s) = (false, s)
dial_unless target (false, s) =
    if contains_key target s.self_addrs || contains_key target s.connected
    then (false, s)
    else (true, record s { connected = insert target tt s.connected })

-- `dial`, up to the thread that it starts.
unfoldable pub dial : ℕ → SocketAddr → Shared → Bool × Shared
dial now target s = dial_unless target (is_banned now target.ip s)

-- What the thread does where the connection or the handshake fails.
unfoldable pub dial_failed : SocketAddr → Shared → Shared
dial_failed target s = record s { connected = remove target s.connected }

-- The addresses that a round of the discovery thread dials.
unfoldable pub candidates : Shared → List SocketAddr
candidates s =
    let have = length s.peers in
    let free : SocketAddr → Bool =
      λ a. not (contains_key a s.connected) && not (contains_key a s.self_addrs) in
    if ltb have target_peers then take (target_peers - have) (filter_by free (items s.book)) else []

unfoldable pub dial_all : ℕ → List SocketAddr → Shared → Shared
dial_all now [] s = s
dial_all now (a ∷ addrs) s = dial_all now addrs (dial now a s).1

unfoldable pub discover : ℕ → Shared → Shared
discover now s = dial_all now (candidates s) s

-- The first loop of `start_discovery`, over the addresses that the seeds resolve to.
unfoldable pub add_seeds : List SocketAddr → HashSet SocketAddr → HashSet SocketAddr
add_seeds [] book = book
add_seeds (a ∷ addrs) book = add_seeds addrs (if is_reachable a then insert a tt book else book)

-- A message to every peer but one.
unfoldable pub send_to_all : Message → Option ℕ → Dictionary ℕ PeerHandle → List (ℕ × Message)
send_to_all msg except [] = []
send_to_all msg except ((id, _) ∷ peers) =
    let rest = send_to_all msg except peers in
    elim except [ none ↦ (id, msg) ∷ rest | some e ↦ if id == e then rest else (id, msg) ∷ rest ]

unfoldable pub broadcast : Message → Option ℕ → Shared → List (ℕ × Message)
broadcast msg except s = send_to_all msg except s.peers
