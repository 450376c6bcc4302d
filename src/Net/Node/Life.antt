-- ===== src/Net/Node/Life.antt =====
-- The life of a node: everything that its threads do to the shared state, in any order.
use summerpoem_cli.Prelude.{
  ℕ, ◌≡◌, refl, sym, ap, ◌∙◌, arith, Bool, true, false, Option, none, some, List, [], ◌∷◌, ◌++◌,
}
use mathlib.Core.Path.{subst}
use summerpoem_cli.Prelude.Result.{Result, ok, err}
use summerpoem_cli.Prelude.Dictionary.{Dictionary}
use summerpoem_cli.Core.Encode.{DecodeError}
use summerpoem_cli.Core.Hash.{Hash256}
use summerpoem_cli.Core.Tx.{Transaction, txid}
use summerpoem_cli.Core.Block.{Block}
use summerpoem_cli.Crypto.{Primitives}
use summerpoem_cli.Node.Chain.{ChainState, Outcome, PowFunction, add_block}
use summerpoem_cli.Node.Mempool.{Mempool, MempoolError, low_fee, full, conflict, invalid, insert_tx}
use summerpoem_cli.Net.Message.{
  IpAddr, SocketAddr, Message, hello, ping, pong, inv, get_data, get_blocks, block, tx, get_addr,
  addr, unknown, decode,
}
use summerpoem_cli.Net.Address.{addr_Eq}
use summerpoem_cli.Net.Node.{
  Shared, new_node, misbehave, dec_inbound, accept, dial_unless, is_banned, dial, dial_failed,
  dial_all, discover, candidates,
}
use summerpoem_cli.Net.Node.Handle.{
  PeerState, Fault, oversized_get_data, invalid_block, invalid_tx, crashed, Verdict, taken, orphan,
  known, faulty, verdict, drop_self, learn_addr, greet, handle_hello, handle_get_addr, handle_addr,
  handle_inv, handle_get_data, handle_get_blocks, announce, accept_block, after_block, handle_block,
  after_tx, handle_tx, handle_message,
}
use summerpoem_cli.Net.Node.Run.{
  start_peer, end_round, end_peer, on_message, on_frame, after_submit, submit_tx, submit_block,
}
use summerpoem_cli.Net.Node.Caps.{
  opened, IsCounted, empty-IsCounted, is_banned-inbound, accept-IsCounted, dec_inbound-IsCounted,
}

-- Everything but the accept loop and the end of its threads leaves the counts alone.
abbrev SameCounts : Shared → Shared → Type 0
SameCounts s s' = s'.inbound ≡ s.inbound

misbehave-SameCounts :
    (now : ℕ) (ip : IpAddr) (points : ℕ) (s : Shared) → SameCounts s (misbehave now ip points s)
unfolding misbehave
misbehave-SameCounts now ip points s = ground arith

dial_unless-SameCounts :
    (target : SocketAddr) (r : Bool × Shared) → SameCounts r.1 (dial_unless target r).1
unfolding dial_unless
dial_unless-SameCounts target (true, s) = refl
dial_unless-SameCounts target (false, s) = ground arith

dial-SameCounts : (now : ℕ) (target : SocketAddr) (s : Shared) → SameCounts s (dial now target s).1
unfolding dial
dial-SameCounts now target s =
    dial_unless-SameCounts target (is_banned now target.ip s) ∙ is_banned-inbound now target.ip s

dial_all-SameCounts :
    (now : ℕ) (addrs : List SocketAddr) (s : Shared) → SameCounts s (dial_all now addrs s)
unfolding dial_all
dial_all-SameCounts now [] s = refl
dial_all-SameCounts now (a ∷ addrs) s =
    dial_all-SameCounts now addrs (dial now a s).1 ∙ dial-SameCounts now a s

hello-SameCounts :
    (id height : ℕ) (tip : Hash256) (listen_port nonce : ℕ) (s : Shared) (peer : PeerState)
    → SameCounts s (handle_hello id height tip listen_port nonce s peer).shared
unfolding handle_hello drop_self learn_addr greet
hello-SameCounts id height tip listen_port nonce s peer = ground arith

pub after_block-shared :
    (id : ℕ) (batch_done : Bool) (peer : PeerState) (s : Shared) (sent : List (ℕ × Message))
    (v : Verdict)
    → (after_block id batch_done peer s sent v).shared ≡ s
unfolding after_block
after_block-shared id batch_done peer s sent taken = refl
after_block-shared id batch_done peer s sent orphan = refl
after_block-shared id batch_done peer s sent known = refl
after_block-shared id batch_done peer s sent (faulty e) = refl

-- The pool is replaced, whatever it has returned.
pub after_tx-shared :
    (id : ℕ) (hash : Hash256) (s : Shared) (peer : PeerState) (r : Result MempoolError ℕ)
    (pool : Mempool)
    → (after_tx id hash s peer (r, pool)).shared ≡ record s { mempool = pool }
unfolding after_tx
after_tx-shared id hash s peer (ok fee) pool = refl
after_tx-shared id hash s peer (err (invalid e)) pool = refl
after_tx-shared id hash s peer (err MempoolError.duplicate) pool = refl
after_tx-shared id hash s peer (err conflict) pool = refl
after_tx-shared id hash s peer (err (low_fee n)) pool = refl
after_tx-shared id hash s peer (err full) pool = refl

module _ (p : Primitives) (pow : PowFunction) where
  announce-SameCounts :
      (b : Block) (from : Option ℕ) (s : Shared) (r : Outcome Bool × ChainState)
      → SameCounts s (announce p pow b from s r).1
  unfolding announce
  announce-SameCounts b from s (ok true, chain) = refl
  announce-SameCounts b from s (ok false, chain) = refl
  announce-SameCounts b from s (err e, chain) = refl

  accept_block-SameCounts :
      (b : Block) (from : Option ℕ) (s : Shared) → SameCounts s (accept_block p pow b from s).1
  unfolding accept_block
  accept_block-SameCounts b from s = announce-SameCounts b from s (add_block p pow b s.chain)

  handle_message-SameCounts :
      (id : ℕ) (msg : Message) (s : Shared) (peer : PeerState)
      → SameCounts s (handle_message p pow id msg s peer).shared
  unfolding handle_message handle_get_addr handle_addr handle_inv handle_get_data handle_get_blocks
      handle_block handle_tx
  handle_message-SameCounts id (hello version height tip listen_port nonce) s peer =
      hello-SameCounts id height tip listen_port nonce s peer
  handle_message-SameCounts id get_addr s peer = refl
  handle_message-SameCounts id (addr addrs) s peer = refl
  handle_message-SameCounts id (ping n) s peer = refl
  handle_message-SameCounts id (pong n) s peer = refl
  handle_message-SameCounts id (inv blocks txs) s peer = ground arith
  handle_message-SameCounts id (get_data blocks txs) s peer = ground arith
  handle_message-SameCounts id (get_blocks hashes) s peer = refl
  handle_message-SameCounts id (block b) s peer =
      ap (λ x. x.inbound)
        (after_block-shared id _ _ _ _ (verdict (accept_block p pow b (some id) s).0))
      ∙ accept_block-SameCounts b (some id) s
  handle_message-SameCounts id (tx t) s peer =
      ap (λ x. x.inbound)
        (after_tx-shared id (txid p.digest t.body) s peer _ (insert_tx p s.chain t s.mempool).1)
  handle_message-SameCounts id unknown s peer = refl

  end_round-SameCounts :
      (now : ℕ) (peer : PeerState) (sent : List (ℕ × Message)) (s : Shared)
      (r : Result Fault (Unit {0}))
      → SameCounts s (end_round now peer sent s r).shared
  unfolding end_round
  end_round-SameCounts now peer sent s (ok tt) = refl
  end_round-SameCounts now peer sent s (err (crashed e)) = refl
  end_round-SameCounts now peer sent s (err oversized_get_data) =
      misbehave-SameCounts now peer.addr.ip 100 s
  end_round-SameCounts now peer sent s (err (invalid_block e)) =
      misbehave-SameCounts now peer.addr.ip 100 s
  end_round-SameCounts now peer sent s (err (invalid_tx e)) =
      misbehave-SameCounts now peer.addr.ip 100 s

  on_message-SameCounts :
      (now id : ℕ) (s : Shared) (peer : PeerState) (r : Result DecodeError Message)
      → SameCounts s (on_message p pow now id s peer r).shared
  unfolding on_message
  on_message-SameCounts now id s peer (err e) = misbehave-SameCounts now peer.addr.ip 100 s
  on_message-SameCounts now id s peer (ok msg) =
      end_round-SameCounts now _ _ _ (handle_message p pow id msg s peer).result
      ∙ handle_message-SameCounts id msg s peer

  after_submit-SameCounts :
      (hash : Hash256) (s : Shared) (r : Result MempoolError ℕ × Mempool)
      → SameCounts s (after_submit p pow hash s r).1
  unfolding after_submit
  after_submit-SameCounts hash s (ok fee, pool) = refl
  after_submit-SameCounts hash s (err e, pool) = refl

  -- What a node comes to, from a chain and no connections on, with the addresses of the inbound connections that
  -- are open: the accept loop decides on a connection, a connection of its ends, or any other thread
  -- does its part under the locks.
  pub data Life (chain : ChainState) : Shared → List IpAddr → Type 0 where
    fresh : (nonce : ℕ) → Life chain (new_node chain nonce) []
    accepting :
        {s : Shared} {links : List IpAddr}
        → Life chain s links
        → (now : ℕ) (ip : IpAddr)
        → Life chain (accept now ip s).1 (opened (accept now ip s).0 ip links)
    ending :
        {s : Shared} (before : List IpAddr) (ip : IpAddr) (after : List IpAddr)
        → Life chain s (before ++ (ip ∷ after))
        → Life chain (dec_inbound ip s) (before ++ after)
    dialling :
        {s : Shared} {links : List IpAddr}
        → Life chain s links
        → (now : ℕ) (target : SocketAddr) → Life chain (dial now target s).1 links
    failing :
        {s : Shared} {links : List IpAddr}
        → Life chain s links
        → (target : SocketAddr) → Life chain (dial_failed target s) links
    discovering :
        {s : Shared} {links : List IpAddr}
        → Life chain s links
        → (now : ℕ) → Life chain (discover now s) links
    starting :
        {s : Shared} {links : List IpAddr}
        → Life chain s links
        → (a : SocketAddr) (outbound : Bool) → Life chain (start_peer a outbound s).1 links
    receiving :
        {s : Shared} {links : List IpAddr}
        → Life chain s links
        → (now id : ℕ) (frame : List ℕ) (peer : PeerState)
        → Life chain (on_frame p pow now id frame s peer).shared links
    stopping :
        {s : Shared} {links : List IpAddr}
        → Life chain s links
        → (id : ℕ) (peer : PeerState) → Life chain (end_peer id peer s) links
    submitting :
        {s : Shared} {links : List IpAddr}
        → Life chain s links
        → (t : Transaction) → Life chain (submit_tx p pow t s).1 links
    mining :
        {s : Shared} {links : List IpAddr}
        → Life chain s links
        → (b : Block) → Life chain (submit_block p pow b s).1 links

  recount :
      (m m' : Dictionary IpAddr ℕ) (links : List IpAddr)
      → m' ≡ m
      → IsCounted m links
      → IsCounted m' links
  recount m m' links e v = subst (λ x. IsCounted x links) (sym e) v

  -- In every state of a node's life its table counts the inbound connections that are open, address
  -- by address; there are at most 117 of them, and at most 5 from one address.
  pub Life-IsCounted :
      {chain : ChainState} {s : Shared} {links : List IpAddr}
      → Life chain s links
      → IsCounted s.inbound links
  unfolding new_node dial_failed start_peer end_peer on_frame discover submit_tx submit_block
  Life-IsCounted (fresh nonce) = empty-IsCounted
  Life-IsCounted (accepting r now ip) = accept-IsCounted now ip _ _ (Life-IsCounted r)
  Life-IsCounted (ending before ip after r) =
      dec_inbound-IsCounted ip _ before after (Life-IsCounted r)
  Life-IsCounted (dialling {s} r now target) =
      recount _ _ _ (dial-SameCounts now target s) (Life-IsCounted r)
  Life-IsCounted (failing r target) = Life-IsCounted r
  Life-IsCounted (discovering {s} r now) =
      recount _ _ _ (dial_all-SameCounts now (candidates s) s) (Life-IsCounted r)
  Life-IsCounted (starting r a outbound) = Life-IsCounted r
  Life-IsCounted (receiving {s} r now id frame peer) =
      recount _ _ _ (on_message-SameCounts now id s peer (decode frame)) (Life-IsCounted r)
  Life-IsCounted (stopping r id peer) = Life-IsCounted r
  Life-IsCounted (submitting {s} r t) =
      recount _ _ _
        (after_submit-SameCounts (txid p.digest t.body) s (insert_tx p s.chain t s.mempool))
        (Life-IsCounted r)
  Life-IsCounted (mining {s} r b) =
      recount _ _ _ (accept_block-SameCounts b none s) (Life-IsCounted r)
