-- ===== src/Net/Node/Run.antt =====
-- `run_peer` of crates/net/src/node.rs: a peer is registered and greeted, its frames are handled one
-- after the other, and it is taken out again. `submit_tx` and `submit_block` are the node's own.
use summerpoem_cli.Prelude.{
  ℕ, ◌+◌, ◌%◌, Bool, false, Option, none, some, List, [], ◌∷◌, not, if◌then◌else◌,
}
use summerpoem_cli.Prelude.Result.{Result, ok, err}
use summerpoem_cli.Prelude.Checked.{u64_mod}
use summerpoem_cli.Prelude.Dictionary.{insert, remove}
use summerpoem_cli.Core.Encode.{DecodeError}
use summerpoem_cli.Core.Hash.{Hash256}
use summerpoem_cli.Core.Tx.{Transaction, txid}
use summerpoem_cli.Core.Block.{Block}
use summerpoem_cli.Crypto.{Primitives}
use summerpoem_cli.Node.Chain.{Outcome, PowFunction, last?}
use summerpoem_cli.Node.Chain.Queries.{chain_height, found_or_zero}
use summerpoem_cli.Node.Mempool.{Mempool, MempoolError, insert_tx}
use summerpoem_cli.Net.Message.{SocketAddr, Message, hello, inv, decode}
use summerpoem_cli.Net.Address.{ℕ_Eq, addr_Eq, HashSet}
use summerpoem_cli.Net.Node.{Shared, ban_score, misbehave, broadcast}
use summerpoem_cli.Net.Node.Handle.{PeerState, Fault, crashed, accept_block, handle_message}

abbrev pub protocol_version : ℕ
protocol_version = 2

-- The peer's id, the state with the peer in the table, the state of its reader thread, and the
-- greeting. The tip of a chain with its genesis block is there.
unfoldable pub start_peer : SocketAddr → Bool → Shared → ℕ × Shared × PeerState × List (ℕ × Message)
start_peer a outbound s =
    let id = s.next_peer_id in
    (
      id,
      record s {
        peers = insert id (record { addr = a; outbound = outbound }) s.peers;
        next_peer_id = (id + 1) % u64_mod;
      },
      record {
        requested_blocks = [];
        addr = a;
        outbound = outbound;
        advertised = if outbound then some a else none;
        disconnect = false;
      },
      (
        id,
        hello protocol_version (chain_height s.chain) (found_or_zero (last? s.chain.active))
            s.listen_port s.node_nonce,
      )
          ∷ [],
    )

-- What a round of the reader loop leaves: whether it goes on, the states, and what is sent.
pub record Round : Type 0 where
  pub goes_on : Bool
  pub shared : Shared
  pub peer : PeerState
  pub sent : List (ℕ × Message)

-- An error costs the peer its score. After a panic in `handle_message` nothing more is done.
unfoldable pub end_round :
    ℕ → PeerState → List (ℕ × Message) → Shared → Result Fault (Unit {0}) → Round
end_round now peer sent s (ok tt) = record {
  goes_on = not peer.disconnect;
  shared = s;
  peer = peer;
  sent = sent;
}
end_round now peer sent s (err (crashed e)) = record {
  goes_on = false;
  shared = s;
  peer = peer;
  sent = sent;
}
end_round now peer sent s (err e) = record {
  goes_on = false;
  shared = misbehave now peer.addr.ip ban_score s;
  peer = peer;
  sent = sent;
}

unfoldable pub remove_some : Option SocketAddr → HashSet SocketAddr → HashSet SocketAddr
remove_some none addrs = addrs
remove_some (some a) addrs = remove a addrs

-- After the loop.
unfoldable pub end_peer : ℕ → PeerState → Shared → Shared
end_peer id peer s = record s {
  peers = remove id s.peers;
  connected = remove_some peer.advertised s.connected;
}

module _ (p : Primitives) (pow : PowFunction) where
  unfoldable pub on_message : ℕ → ℕ → Shared → PeerState → Result DecodeError Message → Round
  on_message now id s peer (err e) = record {
    goes_on = false;
    shared = misbehave now peer.addr.ip ban_score s;
    peer = peer;
    sent = [];
  }
  on_message now id s peer (ok msg) =
      let h = handle_message p pow id msg s peer in end_round now h.peer h.sent h.shared h.result

  -- A round of the reader loop on the bytes of a frame.
  unfoldable pub on_frame : ℕ → ℕ → List ℕ → Shared → PeerState → Round
  on_frame now id frame s peer = on_message now id s peer (decode frame)

  unfoldable pub after_submit :
      Hash256
      → Shared
      → Result MempoolError ℕ × Mempool
      → Result MempoolError ℕ × Shared × List (ℕ × Message)
  after_submit hash s (ok fee, pool) =
      let s' = record s { mempool = pool } in (ok fee, s', broadcast (inv [] (hash ∷ [])) none s')
  after_submit hash s (err e, pool) = (err e, record s { mempool = pool }, [])

  unfoldable pub submit_tx :
      Transaction → Shared → Result MempoolError ℕ × Shared × List (ℕ × Message)
  submit_tx t s = after_submit (txid p.digest t.body) s (insert_tx p s.chain t s.mempool)

  unfoldable pub submit_block : Block → Shared → Outcome Bool × Shared × List (ℕ × Message)
  submit_block b s = accept_block p pow b none s
