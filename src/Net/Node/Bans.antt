-- ===== src/Net/Node/Bans.antt =====
-- What a fault costs a peer.
use summerpoem_cli.Prelude.{
  ℕ, ◌+◌, ◌<◌, ◌≡◌, ◌≢◌, ◌⊎◌, inl, inr, refl, ap, ◌∙◌, arith, Bool, true, false, some, List, leb,
  lt→ltb,
}
use summerpoem_cli.Prelude.Result.{Result, ok, err}
use summerpoem_cli.Prelude.Dictionary.{get, get-insert_self}
use summerpoem_cli.Core.Encode.{DecodeError}
use summerpoem_cli.Crypto.{Primitives}
use summerpoem_cli.Node.Chain.{Failure, PowFunction}
use summerpoem_cli.Core.Hash.{Hash256}
use summerpoem_cli.Core.Tx.{txid}
use summerpoem_cli.Node.Mempool.{Mempool, MempoolError, low_fee, full, conflict, invalid, insert_tx}
use summerpoem_cli.Net.Message.{
  IpAddr, Message, hello, ping, pong, inv, get_data, get_blocks, block, tx, get_addr, addr, unknown,
  decode,
}
use summerpoem_cli.Net.Address.{ip_Eq}
use summerpoem_cli.Net.Node.{
  Shared, ban_score, ban_duration, or_zero, misbehave, ban_state, is_banned, accept_unless, accept,
  dial_unless, dial,
}
use summerpoem_cli.Net.Node.Handle.{
  PeerState, Fault, oversized_get_data, invalid_block, invalid_tx, crashed, Verdict, taken, orphan,
  known, faulty, verdict, after_block, after_tx, accept_block, drop_self, learn_addr, greet,
  handle_hello, handle_get_addr, handle_addr, handle_inv, handle_get_data, handle_get_blocks,
  handle_block, handle_tx, handle_message,
}
use summerpoem_cli.Net.Node.Run.{end_round, on_message, on_frame}
pub mod Lasting

-- A fault's full score bans at once, whatever the score was.
misbehave-banned :
    (now : ℕ) (ip : IpAddr) (s : Shared)
    → get ip (misbehave now ip ban_score s).banned ≡ some (now + ban_duration)
unfolding misbehave
misbehave-banned now ip s =
    let full : leb ban_score (or_zero (get ip s.scores) + ban_score) ≡ true = ground arith in
    rw full (get-insert_self ip (now + ban_duration) s.banned)

is_banned-until :
    (now until : ℕ) (ip : IpAddr) (s : Shared)
    → get ip s.banned ≡ some until
    → now < until
    → is_banned now ip s ≡ (true, s)
unfolding is_banned ban_state
is_banned-until now until ip s g h = let early = lt→ltb now until h in rw (g, ban_state, early) refl

-- Neither side opens a connection: the address is not accepted and not dialled at this time.
abbrev pub Refused : ℕ → IpAddr → Shared → Type 0
Refused now ip s =
    ((accept now ip s).0 ≡ false)
    × ((port : ℕ) → (dial now (record { ip = ip; port = port }) s).0 ≡ false)

pub banned-Refused :
    (now until : ℕ) (ip : IpAddr) (s : Shared)
    → get ip s.banned ≡ some until
    → now < until
    → Refused now ip s
unfolding accept dial accept_unless dial_unless
banned-Refused now until ip s g h =
    let b = is_banned-until now until ip s g h in (rw b refl, λ port. rw b refl)

after_block-addr :
    (id : ℕ) (batch_done : Bool) (peer : PeerState) (s : Shared) (sent : List (ℕ × Message))
    (v : Verdict)
    → (after_block id batch_done peer s sent v).peer.addr ≡ peer.addr
unfolding after_block
after_block-addr id batch_done peer s sent taken = refl
after_block-addr id batch_done peer s sent orphan = refl
after_block-addr id batch_done peer s sent known = refl
after_block-addr id batch_done peer s sent (faulty e) = refl

after_tx-addr :
    (id : ℕ) (hash : Hash256) (s : Shared) (peer : PeerState) (r : Result MempoolError ℕ)
    (pool : Mempool)
    → (after_tx id hash s peer (r, pool)).peer.addr ≡ peer.addr
unfolding after_tx
after_tx-addr id hash s peer (ok fee) pool = refl
after_tx-addr id hash s peer (err (invalid e)) pool = refl
after_tx-addr id hash s peer (err MempoolError.duplicate) pool = refl
after_tx-addr id hash s peer (err conflict) pool = refl
after_tx-addr id hash s peer (err (low_fee n)) pool = refl
after_tx-addr id hash s peer (err full) pool = refl

end_round-err :
    (now : ℕ) (peer : PeerState) (sent : List (ℕ × Message)) (s : Shared) (f : Fault)
    → ((failure : Failure) → f ≢ crashed failure)
    → ((end_round now peer sent s (err f)).goes_on ≡ false)
      × ((end_round now peer sent s (err f)).shared ≡ misbehave now peer.addr.ip ban_score s)
unfolding end_round
end_round-err now peer sent s oversized_get_data n = (refl, refl)
end_round-err now peer sent s (invalid_block e) n = (refl, refl)
end_round-err now peer sent s (invalid_tx e) n = (refl, refl)
end_round-err now peer sent s (crashed e) n = absurd (n e refl)

module _ (p : Primitives) (pow : PowFunction) where
  -- The frame is no message, or a message whose handling is an error of the peer's.
  abbrev pub IsFaulty : ℕ → List ℕ → Shared → PeerState → Type 0
  IsFaulty id frame s peer =
      ((e : DecodeError) × (decode frame ≡ err e))
      ⊎ ((msg : Message) × (f : Fault) × (decode frame ≡ ok msg)
          × ((handle_message p pow id msg s peer).result ≡ err f)
          × ((failure : Failure) → f ≢ crashed failure))

  handle_message-addr :
      (id : ℕ) (msg : Message) (s : Shared) (peer : PeerState)
      → (handle_message p pow id msg s peer).peer.addr ≡ peer.addr
  unfolding handle_message handle_hello drop_self learn_addr greet handle_get_addr handle_addr
      handle_inv handle_get_data handle_get_blocks handle_block handle_tx
  handle_message-addr id (hello version height tip listen_port nonce) s peer = ground arith
  handle_message-addr id get_addr s peer = refl
  handle_message-addr id (addr addrs) s peer = refl
  handle_message-addr id (ping n) s peer = refl
  handle_message-addr id (pong n) s peer = refl
  handle_message-addr id (inv blocks txs) s peer = ground arith
  handle_message-addr id (get_data blocks txs) s peer = ground arith
  handle_message-addr id (get_blocks hashes) s peer = refl
  handle_message-addr id (block b) s peer =
      after_block-addr id _ _ _ _ (verdict (accept_block p pow b (some id) s).0)
  handle_message-addr id (tx t) s peer =
      after_tx-addr id (txid p.digest t.body) s peer _ (insert_tx p s.chain t s.mempool).1
  handle_message-addr id unknown s peer = refl

  faulty-misbehave :
      (now id : ℕ) (frame : List ℕ) (s : Shared) (peer : PeerState)
      → IsFaulty id frame s peer
      → ((on_frame p pow now id frame s peer).goes_on ≡ false)
        × (s' : Shared) × ((on_frame p pow now id frame s peer).shared
            ≡ misbehave now peer.addr.ip ban_score s')
  unfolding on_frame on_message end_round
  faulty-misbehave now id frame s peer (inl (e, h)) = (rw h refl, s, rw h refl)
  faulty-misbehave now id frame s peer (inr (msg, f, h, r, n)) =
      let m = handle_message p pow id msg s peer in
      let (stops, e) = end_round-err now m.peer m.sent m.shared f n in
      (
        rw (h, r) stops,
        m.shared,
        rw (h, r)
            (e
              ∙ ap (λ a. misbehave now a.ip ban_score m.shared)
                  (handle_message-addr id msg s peer)),
      )

  -- The loop of such a peer ends, and its address is banned for a day.
  pub faulty-banned :
      (now id : ℕ) (frame : List ℕ) (s : Shared) (peer : PeerState)
      → IsFaulty id frame s peer
      → ((on_frame p pow now id frame s peer).goes_on ≡ false)
        × (get peer.addr.ip (on_frame p pow now id frame s peer).shared.banned
            ≡ some (now + ban_duration))
  faulty-banned now id frame s peer h =
      let (stops, s', e) = faulty-misbehave now id frame s peer h in
      (stops, ap (λ x. get peer.addr.ip x.banned) e ∙ misbehave-banned now peer.addr.ip s')
