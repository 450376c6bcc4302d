-- ===== src/Tests/Network.antt =====
-- The node's theorems at a concrete network.
use summerpoem_cli.Prelude.{
  ℕ, ◌<◌, ◌^◌, ◌≡◌, refl, arith, inr, length, get_elem?, false, List, [], ◌∷◌, ◌++◌, none, some,
}
use summerpoem_cli.Prelude.Result.{ok, err}
use summerpoem_cli.Node.Chain.Queries.{chain_height, locator, block_by_hash}
use summerpoem_cli.Node.Chain.Active.{IsLinkedChain}
use summerpoem_cli.Node.Chain.Sync.{Reach-IsLinkedChain}
use summerpoem_cli.Node.Error.{no_inputs}
use summerpoem_cli.Net.Message.{IpAddr, v4, get_blocks, get_data, inv, block, tx, encode, decode}
use summerpoem_cli.Net.Node.{Shared, new_node, accept, discover}
use summerpoem_cli.Net.Node.Caps.{IsCounted}
use summerpoem_cli.Net.Node.Life.{Life, fresh, receiving, Life-IsCounted}
use summerpoem_cli.Net.Node.Ledger.{IsSound, Life-IsSound}
use summerpoem_cli.Net.Node.Handle.{PeerState, invalid_tx, handle_message}
use summerpoem_cli.Net.Node.Run.{on_frame, end_peer}
use summerpoem_cli.Net.Node.Bans.{Refused}
use summerpoem_cli.Net.Node.Bans.Lasting.{
  Turns, none_yet, turn, accepting, stopping, discovering, fault-bans,
}
use summerpoem_cli.Net.Node.Blame.{Earns, handle_message-earned}
use summerpoem_cli.Net.Node.Limits.{AllWithin, HoldsLimits, handle_message-AllWithin}
use summerpoem_cli.Net.Node.Delivery.{IsMissing, missing-delivered}
use mathlib.Core.Path.{subst}
use summerpoem_cli.Prelude.Dictionary.{get, insert, get-single}
use summerpoem_cli.Prelude.Equality.{bytes_Eq}
use summerpoem_cli.Core.Block.{header_hash}
use summerpoem_cli.Core.Block.RoundTrip.{BlockFits}
use summerpoem_cli.Tests.Run.{everything}
use summerpoem_cli.Tests.Sample.{digest, primitives, pow, params, coinbase, genesis}
use summerpoem_cli.Tests.Chain.{
  first_state, second, second_state, bits_of, never_zero, second_reached, first_state-IsValid,
}

second_height : chain_height second_state ≡ 1
unfolding second_state second first_state bits_of everything
second_height = refl

second_low : chain_height second_state < 2 ^ 54
second_low = omega (arith, second_height)

Reach-IsLinkedChain_example :
    (get_elem? second_state.active 0 ≡ some (header_hash digest genesis.header))
    × IsLinkedChain second_state
Reach-IsLinkedChain_example =
    Reach-IsLinkedChain primitives pow params genesis never_zero second_reached

behind : List (List ℕ)
unfolding second_state second first_state bits_of everything
behind = elim second_state.active [ [] ↦ [] | h ∷ hs ↦ hs ]

first_active : 0 < length first_state.active
unfolding first_state everything
first_active = omega arith

second_active : second_state.active ≡ first_state.active ++ behind
unfolding behind second_state second first_state bits_of everything
second_active = refl

abbrev home : IpAddr
home = v4 (10 ∷ 0 ∷ 0 ∷ 7 ∷ [])

abbrev peer : PeerState
peer = record {
  requested_blocks = [];
  addr = record { ip = home; port = 9000 };
  outbound = false;
  advertised = none;
  disconnect = false;
}

abbrev node : Shared
node = new_node first_state 11

-- Two connections from one address are accepted, and a frame comes in.
two_links :
    Life primitives pow first_state
      (on_frame primitives pow 8 1 (255 ∷ []) (accept 7 home (accept 6 home node).1).1 peer).shared
      (home ∷ home ∷ [])
unfolding first_state everything
two_links = receiving (Life.accepting (Life.accepting (fresh 11) 6 home) 7 home) 8 1 (255 ∷ []) peer

Life-IsCounted_example :
    IsCounted
      (on_frame primitives pow 8 1
        (255 ∷ [])
        (accept 7 home (accept 6 home node).1).1
        peer).shared.inbound
      (home ∷ home ∷ [])
Life-IsCounted_example = Life-IsCounted primitives pow two_links

Life-IsSound_example :
    IsSound
      (on_frame primitives pow 8 1 (255 ∷ []) (accept 7 home (accept 6 home node).1).1 peer).shared
Life-IsSound_example = Life-IsSound primitives pow never_zero first_state-IsValid two_links

invalid_run :
    (handle_message primitives pow 1 (tx (coinbase 1 500)) node peer).result
    ≡ err (invalid_tx no_inputs)
unfolding first_state everything
invalid_run = refl

handle_message-earned_example :
    Earns primitives pow node (tx (coinbase 1 500)) (invalid_tx no_inputs)
handle_message-earned_example =
    handle_message-earned primitives pow 1 (tx (coinbase 1 500)) node peer (invalid_tx no_inputs)
      invalid_run

-- An invalid transaction, as the frame that brings it.
abbrev frame : List ℕ
frame = encode (tx (coinbase 1 500))

frame_run : decode frame ≡ ok (tx (coinbase 1 500))
unfolding everything
frame_run = refl

abbrev faulted : Shared
faulted = (on_frame primitives pow 100 1 frame node peer).shared

-- The connection ends, the peer calls again, and the node looks for peers.
abbrev afterwards : Shared
afterwards = discover 150 (accept 130 home (end_peer 1 peer faulted)).1

meanwhile : Turns primitives pow 100 200 faulted afterwards
meanwhile =
    turn 150
      (turn 130 (turn 101 none_yet (omega arith) (omega arith) (stopping 1 peer)) (omega arith)
        (omega arith) (accepting home))
      (omega arith) (omega arith) discovering

fault-bans_example :
    ((on_frame primitives pow 100 1 frame node peer).goes_on ≡ false) × Refused 200 home afterwards
fault-bans_example =
    fault-bans primitives pow 100 200 1 frame node peer afterwards
      (inr (tx (coinbase 1 500), invalid_tx no_inputs, frame_run, invalid_run, λ e. cc))
      (omega arith) meanwhile

genesis-BlockFits : BlockFits genesis
unfolding everything
genesis-BlockFits = record {
  header_fits = record {
    version_fits = omega arith;
    prev_fits = refl;
    tx_root_fits = refl;
    witness_root_fits = refl;
    time_fits = omega arith;
    bits_fit = omega arith;
    nonce_fits = omega arith;
  };
  transactions_fit = (
    record {
      body_fits = record {
        version_fits = omega arith;
        inputs_fit = tt;
        inputs_count = omega arith;
        outputs_fit = (record { amount_fits = omega arith; lock_fits = refl }, tt);
        outputs_count = omega arith;
        locktime_fits = omega arith;
        coinbase_data_fits = omega arith;
      };
      body_length = omega arith;
      witnesses_fit = tt;
      witnesses_count = omega arith;
    },
    tt,
  );
  transactions_count = omega arith;
}

abbrev genesis_hash : List ℕ
genesis_hash = header_hash digest genesis.header

first_blocks : first_state.all ≡ insert genesis_hash genesis []
unfolding first_state everything
first_blocks = refl

node-HoldsLimits : HoldsLimits node
unfolding new_node block_by_hash get
node-HoldsLimits = record {
  blocks_fit = λ h b e.
      subst BlockFits
        (get-single h genesis_hash genesis (subst (λ m. get h m ≡ some b) first_blocks e)).1
        genesis-BlockFits;
  txs_fit = λ h t e. absurd cc;
}

asked_low :
    chain_height
      (handle_message primitives pow 1 (get_data (genesis_hash ∷ []) []) node peer).shared.chain
    < 2 ^ 54
unfolding first_state everything
asked_low = omega arith

-- The node is asked for the block that it has.
handle_message-AllWithin_example :
    AllWithin (handle_message primitives pow 1 (get_data (genesis_hash ∷ []) []) node peer).sent
handle_message-AllWithin_example =
    handle_message-AllWithin primitives pow 1 (get_data (genesis_hash ∷ []) []) node peer
      (omega arith, omega arith) node-HoldsLimits asked_low

abbrev second_hash : List ℕ
second_hash = header_hash digest second.header

second_appended : second_state.active ≡ first_state.active ++ (second_hash ∷ [])
unfolding second_state second first_state bits_of everything
second_appended = refl

second-IsMissing : IsMissing node peer second_hash
unfolding second first_state bits_of everything
second-IsMissing = (refl, refl)

second_held : block_by_hash second_hash second_state ≡ some second
unfolding second_state second first_state bits_of everything
second_held = refl

missing-delivered_example :
    ((handle_message primitives pow 1
        (get_blocks (locator first_state))
        (new_node second_state 12)
        peer).sent
      ≡ (1, inv (second_hash ∷ []) []) ∷ [])
    × ((handle_message primitives pow 2
          (inv (second_hash ∷ []) [])
          (new_node first_state 11)
          peer).sent
        ≡ (2, get_data (second_hash ∷ []) []) ∷ [])
    × ((handle_message primitives pow 1
          (get_data (second_hash ∷ []) [])
          (new_node second_state 12)
          peer).sent
        ≡ (1, block second) ∷ [])
unfolding new_node
missing-delivered_example =
    missing-delivered primitives pow 1 2 (new_node first_state 11) (new_node second_state 12) peer
      peer second_hash [] (second ∷ [])
      (Reach-IsLinkedChain primitives pow params genesis never_zero second_reached).1 first_active
      second_appended (second-IsMissing, tt) (second_held, tt)
