-- ===== src/Net/Node/Delivery.antt =====
-- A round of synchronisation between two nodes: a locator, an inventory, a request and blocks.
use summerpoem_cli.Prelude.{
  ℕ, zero, suc, ◌≤◌, ◌<◌, ◌≡◌, refl, ap, ◌∙◌, arith, Bool, true, false, some, List, [], ◌∷◌, ◌++◌,
  length, take, ltb, ◌&&◌, not, All,
}
use summerpoem_cli.Prelude.Lists.{filter_by}
use summerpoem_cli.Prelude.Equality.{bytes_Eq}
use summerpoem_cli.Prelude.Dictionary.{contains_key}
use summerpoem_cli.Core.Hash.{Hash256}
use summerpoem_cli.Core.Block.{Block}
use summerpoem_cli.Crypto.{Primitives}
use summerpoem_cli.Node.CheckTx.{is_empty}
use summerpoem_cli.Node.Chain.{ChainState, PowFunction}
use summerpoem_cli.Node.Chain.Active.{IsLinkedChain}
use summerpoem_cli.Node.Chain.Queries.{contains_block, block_by_hash, locator}
use summerpoem_cli.Node.Chain.Sync.{hashes_after_locator-locator}
use summerpoem_cli.Net.Message.{Message, inv, get_data, get_blocks, block, max_inv}
use summerpoem_cli.Net.Node.{Shared}
use summerpoem_cli.Net.Node.Limits.{take-length}
use summerpoem_cli.Net.Node.Handle.{
  PeerState, blocks_per_round, handle_get_blocks, handle_inv, handle_get_data, send_blocks,
  send_txs, handle_message,
}

-- The blocks are those that the chain has under the hashes.
abbrev pub AreBlocks : ChainState → List Hash256 → List Block → Type 0
AreBlocks s [] [] = Unit {0}
AreBlocks s [] (b ∷ bs) = ⊥
AreBlocks s (h ∷ hs) [] = ⊥
AreBlocks s (h ∷ hs) (b ∷ bs) = (block_by_hash h s ≡ some b) × AreBlocks s hs bs

abbrev pub messages : ℕ → List Block → List (ℕ × Message)
messages id [] = []
messages id (b ∷ bs) = (id, block b) ∷ messages id bs

-- The client neither has the block nor has it asked this peer for it.
abbrev pub IsMissing : Shared → PeerState → Hash256 → Type 0
IsMissing c peer h =
    (contains_block h c.chain ≡ false) × (contains_key h peer.requested_blocks ≡ false)

All-take : (P : Hash256 → Type 0) (n : ℕ) (hs : List Hash256) → All P hs → All P (take n hs)
All-take P zero hs a = tt
All-take P (suc n) [] a = tt
All-take P (suc n) (h ∷ hs) (x, a) = (x, All-take P n hs a)

AreBlocks-take :
    (s : ChainState) (n : ℕ) (hs : List Hash256) (bs : List Block)
    → AreBlocks s hs bs
    → AreBlocks s (take n hs) (take n bs)
AreBlocks-take s zero hs bs a = tt
AreBlocks-take s (suc n) [] [] a = tt
AreBlocks-take s (suc n) [] (b ∷ bs) a = absurd a
AreBlocks-take s (suc n) (h ∷ hs) [] a = absurd a
AreBlocks-take s (suc n) (h ∷ hs) (b ∷ bs) (x, a) = (x, AreBlocks-take s n hs bs a)

filter_by-all :
    (keep : Hash256 → Bool) (hs : List Hash256)
    → All (λ h. keep h ≡ true) hs
    → filter_by keep hs ≡ hs
unfolding filter_by
filter_by-all keep [] a = refl
filter_by-all keep (h ∷ hs) (x, a) = rw (x, filter_by-all keep hs a) refl

send_blocks-messages :
    (id : ℕ) (s : ChainState) (hs : List Hash256) (bs : List Block)
    → AreBlocks s hs bs
    → send_blocks id hs s ≡ messages id bs
unfolding send_blocks
send_blocks-messages id s [] [] a = refl
send_blocks-messages id s [] (b ∷ bs) a = absurd a
send_blocks-messages id s (h ∷ hs) [] a = absurd a
send_blocks-messages id s (h ∷ hs) (b ∷ bs) (x, a) =
    rw (send_blocks, x, send_blocks-messages id s hs bs a) refl

append-nil : (xs : List (ℕ × Message)) → xs ++ [] ≡ xs
append-nil [] = refl
append-nil (x ∷ xs) = ap (λ ys. x ∷ ys) (append-nil xs)

-- Not in the chain and not asked for.
wanted :
    (c : Shared) (peer : PeerState) (hs : List Hash256)
    → All (IsMissing c peer) hs
    → All
        (λ h. (not (contains_block h c.chain) && not (contains_key h peer.requested_blocks)) ≡ true)
        hs
wanted c peer [] a = tt
wanted c peer (h ∷ hs) ((x, y), a) = (rw (x, y) refl, wanted c peer hs a)

module _ (p : Primitives) (pow : PowFunction) where
  inventory :
      (id : ℕ) (client server : Shared) (there : PeerState) (h : Hash256) (hs : List Hash256)
      → IsLinkedChain server.chain
      → 0 < length client.chain.active
      → server.chain.active ≡ client.chain.active ++ (h ∷ hs)
      → (handle_message p pow id (get_blocks (locator client.chain)) server there).sent
        ≡ (id, inv (take blocks_per_round (h ∷ hs)) []) ∷ []
  unfolding handle_message handle_get_blocks is_empty
  inventory id client server there h hs linked some_block e =
      rw
        (hashes_after_locator-locator client.chain server.chain (h ∷ hs) blocks_per_round linked
          some_block e)
        refl

  request :
      (id : ℕ) (client : Shared) (here : PeerState) (h : Hash256) (hs : List Hash256)
      → All (IsMissing client here) (h ∷ hs)
      → (handle_message p pow id (inv (h ∷ hs) []) client here).sent
        ≡ (id, get_data (h ∷ hs) []) ∷ []
  unfolding handle_message handle_inv is_empty
  request id client here h hs a =
      rw (filter_by-all _ (h ∷ hs) (wanted client here (h ∷ hs) a)) (unfold filter_by in refl)

  delivery :
      (id : ℕ) (server : Shared) (there : PeerState) (hs : List Hash256) (bs : List Block)
      → length hs ≤ max_inv
      → AreBlocks server.chain hs bs
      → (handle_message p pow id (get_data hs []) server there).sent ≡ messages id bs
  unfolding handle_message handle_get_data send_txs
  delivery id server there hs bs small a =
      let test : ltb max_inv (length hs) ≡ false = ground arith in
      rw test
        (append-nil (send_blocks id hs server.chain) ∙ send_blocks-messages id server.chain hs bs a)

  -- A client whose active chain is a server's less some blocks at its end gets them: the server
  -- answers its locator with the first 500 of their hashes, the client answers those with a request
  -- for all of them, and the server sends the blocks, in order. The server's active chain is linked
  -- and it has the blocks; the client has an active chain, has none of the blocks and has not asked
  -- this peer for one.
  pub missing-delivered :
      (id id' : ℕ) (client server : Shared) (here there : PeerState) (h : Hash256)
      (hs : List Hash256) (bs : List Block)
      → IsLinkedChain server.chain
      → 0 < length client.chain.active
      → server.chain.active ≡ client.chain.active ++ (h ∷ hs)
      → All (IsMissing client here) (h ∷ hs)
      → AreBlocks server.chain (h ∷ hs) bs
      → ((handle_message p pow id (get_blocks (locator client.chain)) server there).sent
          ≡ (id, inv (take blocks_per_round (h ∷ hs)) []) ∷ [])
        × ((handle_message p pow id' (inv (take blocks_per_round (h ∷ hs)) []) client here).sent
            ≡ (id', get_data (take blocks_per_round (h ∷ hs)) []) ∷ [])
        × ((handle_message p pow id
              (get_data (take blocks_per_round (h ∷ hs)) [])
              server
              there).sent
            ≡ messages id (take blocks_per_round bs))
  missing-delivered id id' client server here there h hs bs linked some_block e m a =
      let n = take-length blocks_per_round (h ∷ hs) in
      (
        inventory id client server there h hs linked some_block e,
        request id' client here h (take 499 hs) (m.0, All-take (IsMissing client here) 499 hs m.1),
        delivery id server there (take blocks_per_round (h ∷ hs)) (take blocks_per_round bs)
            (omega arith) (AreBlocks-take server.chain blocks_per_round (h ∷ hs) bs a),
      )
