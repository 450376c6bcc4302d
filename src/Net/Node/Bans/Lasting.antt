-- ===== src/Net/Node/Bans/Lasting.antt =====
-- A ban lasts: nothing that the node's threads do lifts it before its time.
use summerpoem_cli.Prelude.{
  ℕ, ◌+◌, ◌<◌, ◌≤◌, ◌≡◌, refl, ap, ◌∙◌, arith, inl, inr, Bool, true, false, Option, none, some,
  List, [], ◌∷◌, ltb, leb, Bool-cases,
}
use mathlib.Core.Path.{subst}
use summerpoem_cli.Prelude.Result.{Result, ok, err}
use summerpoem_cli.Prelude.Dictionary.{get, get-insert, get-remove}
use summerpoem_cli.Core.Encode.{DecodeError}
use summerpoem_cli.Core.Hash.{Hash256}
use summerpoem_cli.Core.Tx.{Transaction, txid}
use summerpoem_cli.Core.Block.{Block}
use summerpoem_cli.Crypto.{Primitives}
use summerpoem_cli.Node.Chain.{ChainState, Outcome, PowFunction, add_block}
use summerpoem_cli.Node.Mempool.{Mempool, MempoolError, insert_tx}
use summerpoem_cli.Net.Message.{
  IpAddr, SocketAddr, Message, hello, ping, pong, inv, get_data, get_blocks, block, tx, get_addr,
  addr, unknown, decode,
}
use summerpoem_cli.Net.Address.{ip_Eq, ip_eq}
use summerpoem_cli.Net.Node.{
  Shared, ban_score, ban_duration, or_zero, misbehave, ban_state, is_banned, dec_inbound,
  count_inbound, accept_unless, accept, dial_unless, dial, dial_failed, candidates, dial_all,
  discover,
}
use summerpoem_cli.Net.Node.Life.{after_block-shared, after_tx-shared}
use summerpoem_cli.Net.Node.Handle.{
  PeerState, Fault, oversized_get_data, invalid_block, invalid_tx, crashed, verdict, announce,
  accept_block, drop_self, learn_addr, greet, handle_hello, handle_get_addr, handle_addr,
  handle_inv, handle_get_data, handle_get_blocks, handle_block, handle_tx, handle_message,
}
use summerpoem_cli.Net.Node.Run.{
  start_peer, end_round, end_peer, on_message, on_frame, after_submit, submit_tx, submit_block,
}
use summerpoem_cli.Net.Node.Bans.{Refused, banned-Refused, IsFaulty, faulty-banned}

-- The address is banned up to a time, or longer.
abbrev IsBanned : ℕ → IpAddr → Shared → Type 0
IsBanned end ip s = (until : ℕ) × (get ip s.banned ≡ some until) × (end ≤ until)

IsBanned-same :
    (end : ℕ) (ip : IpAddr) (s s' : Shared)
    → s'.banned ≡ s.banned
    → IsBanned end ip s
    → IsBanned end ip s'
IsBanned-same end ip s s' e (until, g, l) = (until, ap (get ip) e ∙ g, l)

module _ (now end : ℕ) (ip : IpAddr) (early : now < end) where
  -- Looking an address up lifts a ban only after its time.
  ban_state-IsBanned :
      (other : IpAddr) (s : Shared) (r : Option ℕ)
      → get other s.banned ≡ r
      → IsBanned end ip s
      → IsBanned end ip (ban_state now other s r).1
  unfolding ban_state
  ban_state-IsBanned other s none e b = b
  ban_state-IsBanned other s (some until) e (u, g, l) = elim (Bool-cases (ltb now until)) [
    | inl holds ↦ rw holds (u, g, l)
    | inr over ↦ elim (Bool-cases (ip_eq ip other)) [
      | inl same ↦
          let k : get other s.banned ≡ some u =
            subst (λ a. get a s.banned ≡ some u) ((ip_Eq.beq_iff ip other).0 same) g in
          let t : until ≡ u = cc in absurd (ground arith)
      | inr differs ↦ rw over (u, rw (get-remove ip other s.banned, differs) g, l)
    ]
  ]

  is_banned-IsBanned :
      (other : IpAddr) (s : Shared) → IsBanned end ip s → IsBanned end ip (is_banned now other s).1
  unfolding is_banned
  is_banned-IsBanned other s b = ban_state-IsBanned other s _ refl b

  accept_unless-IsBanned :
      (other : IpAddr) (r : Bool × Shared)
      → IsBanned end ip r.1
      → IsBanned end ip (accept_unless other r).1
  unfolding accept_unless count_inbound
  accept_unless-IsBanned other (true, s) b = b
  accept_unless-IsBanned other (false, s) b =
      IsBanned-same end ip s (accept_unless other (false, s)).1 (ground arith) b

  dial_unless-IsBanned :
      (target : SocketAddr) (r : Bool × Shared)
      → IsBanned end ip r.1
      → IsBanned end ip (dial_unless target r).1
  unfolding dial_unless
  dial_unless-IsBanned target (true, s) b = b
  dial_unless-IsBanned target (false, s) b =
      IsBanned-same end ip s (dial_unless target (false, s)).1 (ground arith) b

  dial-IsBanned :
      (target : SocketAddr) (s : Shared) → IsBanned end ip s → IsBanned end ip (dial now target s).1
  unfolding dial
  dial-IsBanned target s b = dial_unless-IsBanned target _ (is_banned-IsBanned target.ip s b)

  dial_all-IsBanned :
      (addrs : List SocketAddr) (s : Shared)
      → IsBanned end ip s
      → IsBanned end ip (dial_all now addrs s)
  unfolding dial_all
  dial_all-IsBanned [] s b = b
  dial_all-IsBanned (a ∷ addrs) s b = dial_all-IsBanned addrs (dial now a s).1 (dial-IsBanned a s b)

-- A new ban is for a day from now on, and so no shorter than an older one.
misbehave-IsBanned :
    (now end points : ℕ) (ip other : IpAddr) (s : Shared)
    → end ≤ now + ban_duration
    → IsBanned end ip s
    → IsBanned end ip (misbehave now other points s)
unfolding misbehave
misbehave-IsBanned now end points ip other s day (u, g, l) = elim (Bool-cases (ip_eq ip other)) [
  | inl same ↦ elim (Bool-cases (leb ban_score (or_zero (get other s.scores) + points))) [
    | inl full ↦ rw full (now + ban_duration, rw (get-insert ip other _ s.banned, same) refl, day)
    | inr some_left ↦ rw some_left (u, g, l)
  ]
  | inr differs ↦ elim (Bool-cases (leb ban_score (or_zero (get other s.scores) + points))) [
    | inl full ↦ rw full (u, rw (get-insert ip other _ s.banned, differs) g, l)
    | inr some_left ↦ rw some_left (u, g, l)
  ]
]

abbrev SameBans : Shared → Shared → Type 0
SameBans s s' = s'.banned ≡ s.banned

hello-SameBans :
    (id height : ℕ) (tip : Hash256) (listen_port nonce : ℕ) (s : Shared) (peer : PeerState)
    → SameBans s (handle_hello id height tip listen_port nonce s peer).shared
unfolding handle_hello drop_self learn_addr greet
hello-SameBans id height tip listen_port nonce s peer = ground arith

module _ (p : Primitives) (pow : PowFunction) where
  announce-SameBans :
      (b : Block) (from : Option ℕ) (s : Shared) (r : Outcome Bool × ChainState)
      → SameBans s (announce p pow b from s r).1
  unfolding announce
  announce-SameBans b from s (ok true, chain) = refl
  announce-SameBans b from s (ok false, chain) = refl
  announce-SameBans b from s (err e, chain) = refl

  accept_block-SameBans :
      (b : Block) (from : Option ℕ) (s : Shared) → SameBans s (accept_block p pow b from s).1
  unfolding accept_block
  accept_block-SameBans b from s = announce-SameBans b from s (add_block p pow b s.chain)

  after_submit-SameBans :
      (hash : Hash256) (s : Shared) (r : Result MempoolError ℕ × Mempool)
      → SameBans s (after_submit p pow hash s r).1
  unfolding after_submit
  after_submit-SameBans hash s (ok fee, pool) = refl
  after_submit-SameBans hash s (err e, pool) = refl

  handle_message-SameBans :
      (id : ℕ) (msg : Message) (s : Shared) (peer : PeerState)
      → SameBans s (handle_message p pow id msg s peer).shared
  unfolding handle_message handle_get_addr handle_addr handle_inv handle_get_data handle_get_blocks
      handle_block handle_tx
  handle_message-SameBans id (hello version height tip listen_port nonce) s peer =
      hello-SameBans id height tip listen_port nonce s peer
  handle_message-SameBans id get_addr s peer = refl
  handle_message-SameBans id (addr addrs) s peer = refl
  handle_message-SameBans id (ping n) s peer = refl
  handle_message-SameBans id (pong n) s peer = refl
  handle_message-SameBans id (inv blocks txs) s peer = ground arith
  handle_message-SameBans id (get_data blocks txs) s peer = ground arith
  handle_message-SameBans id (get_blocks hashes) s peer = refl
  handle_message-SameBans id (block b) s peer =
      ap (λ x. x.banned)
        (after_block-shared id _ _ _ _ (verdict (accept_block p pow b (some id) s).0))
      ∙ accept_block-SameBans b (some id) s
  handle_message-SameBans id (tx t) s peer =
      ap (λ x. x.banned)
        (after_tx-shared id (txid p.digest t.body) s peer _ (insert_tx p s.chain t s.mempool).1)
  handle_message-SameBans id unknown s peer = refl

  module _ (now end : ℕ) (ip : IpAddr) (day : end ≤ now + ban_duration) where
    end_round-IsBanned :
        (peer : PeerState) (sent : List (ℕ × Message)) (s : Shared) (r : Result Fault (Unit {0}))
        → IsBanned end ip s
        → IsBanned end ip (end_round now peer sent s r).shared
    unfolding end_round
    end_round-IsBanned peer sent s (ok tt) b = b
    end_round-IsBanned peer sent s (err (crashed e)) b = b
    end_round-IsBanned peer sent s (err oversized_get_data) b =
        misbehave-IsBanned now end ban_score ip peer.addr.ip s day b
    end_round-IsBanned peer sent s (err (invalid_block e)) b =
        misbehave-IsBanned now end ban_score ip peer.addr.ip s day b
    end_round-IsBanned peer sent s (err (invalid_tx e)) b =
        misbehave-IsBanned now end ban_score ip peer.addr.ip s day b

    on_message-IsBanned :
        (id : ℕ) (s : Shared) (peer : PeerState) (r : Result DecodeError Message)
        → IsBanned end ip s
        → IsBanned end ip (on_message p pow now id s peer r).shared
    unfolding on_message
    on_message-IsBanned id s peer (err e) b =
        misbehave-IsBanned now end ban_score ip peer.addr.ip s day b
    on_message-IsBanned id s peer (ok msg) b =
        let h = handle_message p pow id msg s peer in
        end_round-IsBanned h.peer h.sent h.shared h.result
          (IsBanned-same end ip s h.shared (handle_message-SameBans id msg s peer) b)

  -- What a thread of the node does under its locks at a time.
  pub data Turn (now : ℕ) (s : Shared) : Shared → Type 0 where
    accepting : (other : IpAddr) → Turn now s (accept now other s).1
    leaving : (other : IpAddr) → Turn now s (dec_inbound other s)
    dialling : (target : SocketAddr) → Turn now s (dial now target s).1
    failing : (target : SocketAddr) → Turn now s (dial_failed target s)
    discovering : Turn now s (discover now s)
    starting : (a : SocketAddr) (outbound : Bool) → Turn now s (start_peer a outbound s).1
    receiving :
        (id : ℕ) (frame : List ℕ) (peer : PeerState)
        → Turn now s (on_frame p pow now id frame s peer).shared
    stopping : (id : ℕ) (peer : PeerState) → Turn now s (end_peer id peer s)
    submitting : (t : Transaction) → Turn now s (submit_tx p pow t s).1
    mining : (b : Block) → Turn now s (submit_block p pow b s).1

  -- Any turns of the threads, at times from one to another.
  pub data Turns (since later : ℕ) (s : Shared) : Shared → Type 0 where
    none_yet : Turns since later s s
    turn :
        {t u : Shared} (now : ℕ)
        → Turns since later s t
        → since ≤ now
        → now ≤ later
        → Turn now t u
        → Turns since later s u

  Turn-IsBanned :
      {now : ℕ} (end : ℕ) (ip : IpAddr) {s s' : Shared}
      → Turn now s s'
      → now < end
      → end ≤ now + ban_duration
      → IsBanned end ip s
      → IsBanned end ip s'
  unfolding accept dec_inbound dial_failed discover start_peer end_peer on_frame submit_tx
      submit_block
  Turn-IsBanned {now} end ip {s} (accepting other) early day b =
      accept_unless-IsBanned now end ip early other _
        (is_banned-IsBanned now end ip early other s b)
  Turn-IsBanned end ip (leaving other) early day b = b
  Turn-IsBanned {now} end ip {s} (dialling target) early day b =
      dial-IsBanned now end ip early target s b
  Turn-IsBanned end ip (failing target) early day b = b
  Turn-IsBanned {now} end ip {s} discovering early day b =
      dial_all-IsBanned now end ip early (candidates s) s b
  Turn-IsBanned end ip (starting a outbound) early day b = b
  Turn-IsBanned {now} end ip {s} (receiving id frame peer) early day b =
      on_message-IsBanned now end ip day id s peer (decode frame) b
  Turn-IsBanned end ip (stopping id peer) early day b = b
  Turn-IsBanned end ip {s} {s'} (submitting t) early day b =
      IsBanned-same end ip s s'
        (after_submit-SameBans (txid p.digest t.body) s (insert_tx p s.chain t s.mempool)) b
  Turn-IsBanned end ip {s} {s'} (mining m) early day b =
      IsBanned-same end ip s s' (accept_block-SameBans m none s) b

  Turns-IsBanned :
      (since later : ℕ) (ip : IpAddr) {s s' : Shared}
      → Turns since later s s'
      → later < since + ban_duration
      → IsBanned (since + ban_duration) ip s
      → IsBanned (since + ban_duration) ip s'
  Turns-IsBanned since later ip none_yet soon b = b
  Turns-IsBanned since later ip (turn now before l m step) soon b =
      Turn-IsBanned (since + ban_duration) ip step (omega arith) (omega arith)
        (Turns-IsBanned since later ip before soon b)

  -- A peer that sends bytes that are no message, or a message whose handling is an error and no
  -- panic, is done with: its loop ends, and until a day has passed since then, whatever the node's
  -- threads do meanwhile, the node accepts no connection from its address and dials no port of it.
  pub fault-bans :
      (now later id : ℕ) (frame : List ℕ) (s : Shared) (peer : PeerState) (s' : Shared)
      → IsFaulty p pow id frame s peer
      → later < now + ban_duration
      → Turns now later (on_frame p pow now id frame s peer).shared s'
      → ((on_frame p pow now id frame s peer).goes_on ≡ false) × Refused later peer.addr.ip s'
  fault-bans now later id frame s peer s' h soon turns =
      let (stops, b) = faulty-banned p pow now id frame s peer h in
      let (until, g, l) =
        Turns-IsBanned now later peer.addr.ip turns soon (now + ban_duration, b, omega arith) in
      (stops, banned-Refused later until peer.addr.ip s' g (omega arith))
