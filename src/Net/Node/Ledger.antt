-- ===== src/Net/Node/Ledger.antt =====
-- What peers can do to a node's chain and pool.
use summerpoem_cli.Prelude.{
  ℕ, ◌≡◌, ◌≢◌, refl, sym, ◌∙◌, arith, Bool, true, false, Option, none, some, List, [], ◌∷◌,
}
use mathlib.Core.Path.{subst}
use summerpoem_cli.Prelude.Result.{Result, ok, err}
use summerpoem_cli.Core.Encode.{DecodeError}
use summerpoem_cli.Core.Hash.{Hash256, zero_hash, sha3}
use summerpoem_cli.Core.Tx.{txid}
use summerpoem_cli.Core.Block.{Block, header_hash}
use summerpoem_cli.Crypto.{Primitives}
use summerpoem_cli.Node.Chain.{ChainState, Outcome, PowFunction, add_block}
use summerpoem_cli.Node.Chain.Invariant.{IsValid, add_block-IsValid}
use summerpoem_cli.Node.Mempool.{Mempool, MempoolError, insert_tx}
use summerpoem_cli.Node.Mempool.Invariant.{
  IsPool, empty, Reach-IsPool, insert_tx-IsPool, update_for_block-IsPool,
}
use summerpoem_cli.Net.Message.{
  IpAddr, SocketAddr, Message, hello, ping, pong, inv, get_data, get_blocks, block, tx, get_addr,
  addr, unknown, decode,
}
use summerpoem_cli.Net.Node.{
  Shared, new_node, misbehave, dec_inbound, accept, accept_unless, count_inbound, ban_state,
  dial_unless, is_banned, dial, dial_failed, dial_all, discover, candidates,
}
use summerpoem_cli.Net.Node.Handle.{
  PeerState, Fault, oversized_get_data, invalid_block, invalid_tx, crashed, drop_self, learn_addr,
  greet, handle_hello, handle_get_addr, handle_addr, handle_inv, handle_get_data, handle_get_blocks,
  verdict, announce, accept_block, handle_block, handle_tx, handle_message,
}
use summerpoem_cli.Net.Node.Run.{
  start_peer, end_round, end_peer, on_message, on_frame, after_submit, submit_tx, submit_block,
}
use summerpoem_cli.Net.Node.Life.{
  Life, fresh, accepting, ending, dialling, failing, discovering, starting, receiving, stopping,
  submitting, mining, after_block-shared, after_tx-shared,
}

-- The chain is valid and the pool is one.
pub record IsSound (s : Shared) : Type 0 where
  pub chain : IsValid s.chain
  pub pool : IsPool s.mempool

-- Chain and pool are as they were.
record SameLedger (s s' : Shared) : Type 0 where
  same_chain : s'.chain ≡ s.chain
  same_pool : s'.mempool ≡ s.mempool

IsSound-same : (s s' : Shared) → SameLedger s s' → IsSound s → IsSound s'
IsSound-same s s' e v = record {
  chain = subst IsValid (sym e.same_chain) v.chain;
  pool = subst IsPool (sym e.same_pool) v.pool;
}

SameLedger-trans : (s t u : Shared) → SameLedger s t → SameLedger t u → SameLedger s u
SameLedger-trans s t u a b = record {
  same_chain = b.same_chain ∙ a.same_chain;
  same_pool = b.same_pool ∙ a.same_pool;
}

misbehave-SameLedger :
    (now : ℕ) (ip : IpAddr) (points : ℕ) (s : Shared) → SameLedger s (misbehave now ip points s)
unfolding misbehave
misbehave-SameLedger now ip points s = record {
  same_chain = ground arith;
  same_pool = ground arith;
}

ban_state-SameLedger :
    (now : ℕ) (ip : IpAddr) (s : Shared) (r : Option ℕ) → SameLedger s (ban_state now ip s r).1
unfolding ban_state
ban_state-SameLedger now ip s none = record { same_chain = refl; same_pool = refl }
ban_state-SameLedger now ip s (some until) = record {
  same_chain = ground arith;
  same_pool = ground arith;
}

is_banned-SameLedger : (now : ℕ) (ip : IpAddr) (s : Shared) → SameLedger s (is_banned now ip s).1
unfolding is_banned
is_banned-SameLedger now ip s = ban_state-SameLedger now ip s _

accept_unless-SameLedger : (ip : IpAddr) (r : Bool × Shared) → SameLedger r.1 (accept_unless ip r).1
unfolding accept_unless count_inbound
accept_unless-SameLedger ip (true, s) = record { same_chain = refl; same_pool = refl }
accept_unless-SameLedger ip (false, s) = record {
  same_chain = ground arith;
  same_pool = ground arith;
}

accept-SameLedger : (now : ℕ) (ip : IpAddr) (s : Shared) → SameLedger s (accept now ip s).1
unfolding accept
accept-SameLedger now ip s =
    SameLedger-trans s (is_banned now ip s).1 _ (is_banned-SameLedger now ip s)
      (accept_unless-SameLedger ip (is_banned now ip s))

dial_unless-SameLedger :
    (target : SocketAddr) (r : Bool × Shared) → SameLedger r.1 (dial_unless target r).1
unfolding dial_unless
dial_unless-SameLedger target (true, s) = record { same_chain = refl; same_pool = refl }
dial_unless-SameLedger target (false, s) = record {
  same_chain = ground arith;
  same_pool = ground arith;
}

dial-SameLedger : (now : ℕ) (target : SocketAddr) (s : Shared) → SameLedger s (dial now target s).1
unfolding dial
dial-SameLedger now target s =
    SameLedger-trans s (is_banned now target.ip s).1 _ (is_banned-SameLedger now target.ip s)
      (dial_unless-SameLedger target (is_banned now target.ip s))

dial_all-SameLedger :
    (now : ℕ) (addrs : List SocketAddr) (s : Shared) → SameLedger s (dial_all now addrs s)
unfolding dial_all
dial_all-SameLedger now [] s = record { same_chain = refl; same_pool = refl }
dial_all-SameLedger now (a ∷ addrs) s =
    SameLedger-trans s (dial now a s).1 _ (dial-SameLedger now a s)
      (dial_all-SameLedger now addrs (dial now a s).1)

hello-SameLedger :
    (id height : ℕ) (tip : Hash256) (listen_port nonce : ℕ) (s : Shared) (peer : PeerState)
    → SameLedger s (handle_hello id height tip listen_port nonce s peer).shared
unfolding handle_hello drop_self learn_addr greet
hello-SameLedger id height tip listen_port nonce s peer = record {
  same_chain = ground arith;
  same_pool = ground arith;
}

module _ (p : Primitives) (pow : PowFunction)
    (never_zero : (bs : List ℕ) → p.digest bs ≢ zero_hash) where
  announce-IsSound :
      (b : Block) (from : Option ℕ) (s : Shared) (r : Outcome Bool × ChainState)
      → IsValid r.1
      → IsSound s
      → IsSound (announce p pow b from s r).1
  unfolding announce
  announce-IsSound b from s (ok true, chain) c v = record {
    chain = c;
    pool = update_for_block-IsPool p chain b s.mempool v.pool;
  }
  announce-IsSound b from s (ok false, chain) c v = record { chain = c; pool = v.pool }
  announce-IsSound b from s (err e, chain) c v = record { chain = c; pool = v.pool }

  accept_block-IsSound :
      (b : Block) (from : Option ℕ) (s : Shared)
      → IsSound s
      → IsSound (accept_block p pow b from s).1
  unfolding accept_block
  accept_block-IsSound b from s v =
      announce-IsSound b from s (add_block p pow b s.chain)
        (add_block-IsValid p pow b s.chain (unfold header_hash sha3 in never_zero _) v.chain) v

  handle_message-IsSound :
      (id : ℕ) (msg : Message) (s : Shared) (peer : PeerState)
      → IsSound s
      → IsSound (handle_message p pow id msg s peer).shared
  unfolding handle_message handle_get_addr handle_addr handle_inv handle_get_data handle_get_blocks
      handle_block handle_tx
  handle_message-IsSound id (hello version height tip listen_port nonce) s peer v =
      IsSound-same s _ (hello-SameLedger id height tip listen_port nonce s peer) v
  handle_message-IsSound id get_addr s peer v = v
  handle_message-IsSound id (addr addrs) s peer v = record { chain = v.chain; pool = v.pool }
  handle_message-IsSound id (ping n) s peer v = v
  handle_message-IsSound id (pong n) s peer v = v
  handle_message-IsSound id (inv blocks txs) s peer v =
      IsSound-same s _ (record { same_chain = ground arith; same_pool = ground arith }) v
  handle_message-IsSound id (get_data blocks txs) s peer v =
      IsSound-same s _ (record { same_chain = ground arith; same_pool = ground arith }) v
  handle_message-IsSound id (get_blocks hashes) s peer v = v
  handle_message-IsSound id (block b) s peer v =
      subst IsSound
        (sym (after_block-shared id _ _ _ _ (verdict (accept_block p pow b (some id) s).0)))
        (accept_block-IsSound b (some id) s v)
  handle_message-IsSound id (tx t) s peer v =
      let r = insert_tx p s.chain t s.mempool in
      subst IsSound (sym (after_tx-shared id (txid p.digest t.body) s peer r.0 r.1))
        (record { chain = v.chain; pool = insert_tx-IsPool p s.chain t s.mempool v.pool })
  handle_message-IsSound id unknown s peer v = v

  end_round-IsSound :
      (now : ℕ) (peer : PeerState) (sent : List (ℕ × Message)) (s : Shared)
      (r : Result Fault (Unit {0}))
      → IsSound s
      → IsSound (end_round now peer sent s r).shared
  unfolding end_round
  end_round-IsSound now peer sent s (ok tt) v = v
  end_round-IsSound now peer sent s (err (crashed e)) v = v
  end_round-IsSound now peer sent s (err oversized_get_data) v =
      IsSound-same s _ (misbehave-SameLedger now peer.addr.ip 100 s) v
  end_round-IsSound now peer sent s (err (invalid_block e)) v =
      IsSound-same s _ (misbehave-SameLedger now peer.addr.ip 100 s) v
  end_round-IsSound now peer sent s (err (invalid_tx e)) v =
      IsSound-same s _ (misbehave-SameLedger now peer.addr.ip 100 s) v

  on_message-IsSound :
      (now id : ℕ) (s : Shared) (peer : PeerState) (r : Result DecodeError Message)
      → IsSound s
      → IsSound (on_message p pow now id s peer r).shared
  unfolding on_message
  on_message-IsSound now id s peer (err e) v =
      IsSound-same s _ (misbehave-SameLedger now peer.addr.ip 100 s) v
  on_message-IsSound now id s peer (ok msg) v =
      end_round-IsSound now _ _ _ (handle_message p pow id msg s peer).result
        (handle_message-IsSound id msg s peer v)

  after_submit-IsSound :
      (hash : Hash256) (s : Shared) (r : Result MempoolError ℕ × Mempool)
      → IsPool r.1
      → IsSound s
      → IsSound (after_submit p pow hash s r).1
  unfolding after_submit
  after_submit-IsSound hash s (ok fee, pool) q v = record { chain = v.chain; pool = q }
  after_submit-IsSound hash s (err e, pool) q v = record { chain = v.chain; pool = q }

  -- Whatever bytes its peers send, in whatever order its threads run, a node that starts with a
  -- valid chain has a valid chain and a pool within its invariant. The digest is assumed never to be
  -- 32 zero bytes.
  pub Life-IsSound :
      {chain : ChainState} {s : Shared} {links : List IpAddr}
      → IsValid chain
      → Life p pow chain s links
      → IsSound s
  unfolding new_node dial_failed start_peer end_peer on_frame discover submit_tx submit_block
      dec_inbound
  Life-IsSound v (fresh nonce) = record { chain = v; pool = Reach-IsPool p empty }
  Life-IsSound v (accepting {s} r now ip) =
      IsSound-same s _ (accept-SameLedger now ip s) (Life-IsSound v r)
  Life-IsSound v (ending {s} before ip after r) =
      let w = Life-IsSound v r in record { chain = w.chain; pool = w.pool }
  Life-IsSound v (dialling {s} r now target) =
      IsSound-same s _ (dial-SameLedger now target s) (Life-IsSound v r)
  Life-IsSound v (failing r target) =
      let w = Life-IsSound v r in record { chain = w.chain; pool = w.pool }
  Life-IsSound v (discovering {s} r now) =
      IsSound-same s _ (dial_all-SameLedger now (candidates s) s) (Life-IsSound v r)
  Life-IsSound v (starting r a outbound) =
      let w = Life-IsSound v r in record { chain = w.chain; pool = w.pool }
  Life-IsSound v (receiving {s} r now id frame peer) =
      on_message-IsSound now id s peer (decode frame) (Life-IsSound v r)
  Life-IsSound v (stopping r id peer) =
      let w = Life-IsSound v r in record { chain = w.chain; pool = w.pool }
  Life-IsSound v (submitting {s} r t) =
      let w = Life-IsSound v r in
      after_submit-IsSound (txid p.digest t.body) s (insert_tx p s.chain t s.mempool)
        (insert_tx-IsPool p s.chain t s.mempool w.pool) w
  Life-IsSound v (mining {s} r b) = accept_block-IsSound b none s (Life-IsSound v r)
