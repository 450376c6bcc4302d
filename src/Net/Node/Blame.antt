-- ===== src/Net/Node/Blame.antt =====
-- Which messages are errors of the peer's.
use summerpoem_cli.Prelude.{
  ℕ, ◌<◌, ◌≡◌, ◌≢◌, ◌⊎◌, inl, inr, refl, sym, ◌∙◌, arith, Bool, true, false, Option, some, List,
  length, dec_lt,
}
use mathlib.Core.Path.{subst}
use summerpoem_cli.Prelude.Result.{Result, ok, err, ◌>>◌, refuse_if}
use summerpoem_cli.Prelude.Dictionary.{contains_key}
use summerpoem_cli.Prelude.Equality.{bytes_Eq}
use summerpoem_cli.Core.Hash.{Hash256}
use summerpoem_cli.Core.Tx.{Transaction, txid}
use summerpoem_cli.Core.Block.{Block}
use summerpoem_cli.Crypto.{Primitives}
use summerpoem_cli.Node.Error.{ValidationError, unknown_parent, duplicate}
use summerpoem_cli.Node.CheckTx.{Checked}
use summerpoem_cli.Node.Chain.{
  ChainState, Failure, refused, panicked, stuck, Outcome, PowFunction, add_block,
}
use summerpoem_cli.Node.Mempool.{
  Mempool, MempoolError, low_fee, full, conflict, invalid, check_fee, validate_standalone_tx,
  check_insert, any_spent, add_checked, insert_tx,
}
use summerpoem_cli.Net.Message.{
  Message, hello, ping, pong, inv, get_data, get_blocks, block, tx, get_addr, addr, unknown,
  max_inv,
}
use summerpoem_cli.Net.Node.{Shared}
use summerpoem_cli.Net.Node.Handle.{
  PeerState, Fault, oversized_get_data, invalid_block, invalid_tx, crashed, Verdict, taken, orphan,
  known, faulty, verdict, after_block, after_tx, accept_block, announce, drop_self, learn_addr,
  greet, handle_hello, handle_get_addr, handle_addr, handle_inv, handle_get_data, handle_get_blocks,
  handle_block, handle_tx, handle_message,
}

verdict-refused :
    (e : ValidationError)
    → (e ≡ unknown_parent)
      ⊎ (e ≡ duplicate)
      ⊎ ((e ≢ unknown_parent)
          × (e ≢ duplicate)
          × (verdict (err (refused e)) ≡ faulty (invalid_block e)))
unfolding verdict
verdict-refused unknown_parent = inl refl
verdict-refused duplicate = inr (inl refl)
verdict-refused e = inr (inr (cc, cc, refl))

-- A block is blamed for no other error than its own.
verdict-faulty :
    (o : Outcome Bool) (f : Fault)
    → verdict o ≡ faulty f
    → ((e : ValidationError) × (o ≡ err (refused e))
        × (e ≢ unknown_parent)
        × (e ≢ duplicate)
        × (f ≡ invalid_block e))
      ⊎ ((failure : Failure) × (o ≡ err failure)
          × (((e : ValidationError) → failure ≢ refused e) × (f ≡ crashed failure)))
unfolding verdict
verdict-faulty (ok new_tip) f h = absurd (cc)
verdict-faulty (err (refused e)) f h = elim (verdict-refused e) [
  | inl u ↦
      let h' : orphan ≡ faulty f = subst (λ x. verdict (err (refused x)) ≡ faulty f) u h in
      absurd (cc)
  | inr (inl d) ↦
      let h' : known ≡ faulty f = subst (λ x. verdict (err (refused x)) ≡ faulty f) d h in
      absurd (cc)
  | inr (inr (u, d, v)) ↦ inl (e, refl, u, d, cc)
]
verdict-faulty (err panicked) f h = inr (panicked, refl, (λ e. cc, cc))
verdict-faulty (err stuck) f h = inr (stuck, refl, (λ e. cc, cc))

after_block-err :
    (id : ℕ) (batch_done : Bool) (peer : PeerState) (s : Shared) (sent : List (ℕ × Message))
    (v : Verdict) (f : Fault)
    → (after_block id batch_done peer s sent v).result ≡ err f
    → v ≡ faulty f
unfolding after_block
after_block-err id batch_done peer s sent taken f h = absurd (cc)
after_block-err id batch_done peer s sent orphan f h = absurd (cc)
after_block-err id batch_done peer s sent known f h = absurd (cc)
after_block-err id batch_done peer s sent (faulty e) f h = cc

after_tx-err :
    (id : ℕ) (hash : Hash256) (s : Shared) (peer : PeerState) (r : Result MempoolError ℕ)
    (pool : Mempool) (f : Fault)
    → (after_tx id hash s peer (r, pool)).result ≡ err f
    → (e : ValidationError) × (r ≡ err (invalid e)) × (f ≡ invalid_tx e)
unfolding after_tx
after_tx-err id hash s peer (ok fee) pool f h = absurd (cc)
after_tx-err id hash s peer (err (invalid e)) pool f h = (e, refl, cc)
after_tx-err id hash s peer (err MempoolError.duplicate) pool f h = absurd (cc)
after_tx-err id hash s peer (err conflict) pool f h = absurd (cc)
after_tx-err id hash s peer (err (low_fee n)) pool f h = absurd (cc)
after_tx-err id hash s peer (err full) pool f h = absurd (cc)

get_data-err :
    (id : ℕ) (blocks txs : List Hash256) (s : Shared) (peer : PeerState) (f : Fault)
    → (handle_get_data id blocks txs s peer).result ≡ err f
    → ((max_inv < length blocks) ⊎ (max_inv < length txs)) × (f ≡ oversized_get_data)
unfolding handle_get_data
get_data-err id blocks txs s peer f h = elim (dec_lt max_inv (length blocks)) [
  | yes l ↦ (inl l, ground arith)
  | no n ↦ elim (dec_lt max_inv (length txs)) [
    | yes l ↦ (inr l, ground arith)
    | no m ↦ absurd (ground arith)
  ]
]

check_fee-invalid :
    (t : Transaction) (pool : Mempool) (r : Checked ℕ) (e : ValidationError)
    → check_fee t pool r ≡ err (invalid e)
    → r ≡ err e
unfolding check_fee
check_fee-invalid t pool (err d) e h = cc
check_fee-invalid t pool (ok fee) e h = absurd (ground arith)

refuse_if-passes :
    {A E : Type 0} (b : Bool) (d e : E) (rest : Result E A)
    → d ≢ e
    → (refuse_if b d >> rest) ≡ err e
    → rest ≡ err e
unfolding refuse_if ◌>>◌
refuse_if-passes true d e rest n h = absurd (n (cc))
refuse_if-passes false d e rest n h = h

module _ (p : Primitives) (pow : PowFunction) where
  -- What earns a peer that sent a message a fault: more hashes in a request than the decoder takes,
  -- a block that the chain refuses although it knows its parent and has not seen it, or a transaction
  -- that is not valid by itself. A failure of the node's own on a block is passed on as well.
  pub data Earns (s : Shared) : Message → Fault → Type 0 where
    greedy :
        (blocks txs : List Hash256)
        → (max_inv < length blocks) ⊎ (max_inv < length txs)
        → Earns s (get_data blocks txs) oversized_get_data
    bad_block :
        (b : Block) (e : ValidationError)
        → (add_block p pow b s.chain).0 ≡ err (refused e)
        → e ≢ unknown_parent
        → e ≢ duplicate
        → Earns s (block b) (invalid_block e)
    failed_block :
        (b : Block) (failure : Failure)
        → (add_block p pow b s.chain).0 ≡ err failure
        → ((e : ValidationError) → failure ≢ refused e)
        → Earns s (block b) (crashed failure)
    bad_tx :
        (t : Transaction) (e : ValidationError)
        → validate_standalone_tx p s.chain t ≡ err e
        → Earns s (tx t) (invalid_tx e)

  announce-outcome :
      (b : Block) (from : Option ℕ) (s : Shared) (r : Outcome Bool × ChainState)
      → (announce p pow b from s r).0 ≡ r.0
  unfolding announce
  announce-outcome b from s (ok true, chain) = refl
  announce-outcome b from s (ok false, chain) = refl
  announce-outcome b from s (err e, chain) = refl

  add_checked-outcome :
      (t : Transaction) (pool : Mempool) (r : Result MempoolError ℕ)
      → (add_checked p t pool r).0 ≡ r
  unfolding add_checked
  add_checked-outcome t pool (err e) = refl
  add_checked-outcome t pool (ok fee) = refl

  insert_tx-invalid :
      (s : ChainState) (t : Transaction) (pool : Mempool) (e : ValidationError)
      → (insert_tx p s t pool).0 ≡ err (invalid e)
      → validate_standalone_tx p s t ≡ err e
  unfolding insert_tx check_insert
  insert_tx-invalid s t pool e h =
      let c : check_insert p s t pool ≡ err (invalid e) =
        sym (add_checked-outcome t pool (check_insert p s t pool)) ∙ h in
      check_fee-invalid t pool (validate_standalone_tx p s t) e (
        refuse_if-passes (any_spent t.body.inputs pool.spends) conflict _ _ (cc) (
          refuse_if-passes (contains_key (txid p.digest t.body) pool.txs) MempoolError.duplicate _ _
            (cc) c))

  -- The handling of a message is an error only for a request for more hashes than the decoder takes,
  -- a block that `add_block` refuses for another reason than an unknown parent or a known block, or
  -- fails on, and a transaction that is not valid by itself.
  pub handle_message-earned :
      (id : ℕ) (msg : Message) (s : Shared) (peer : PeerState) (f : Fault)
      → (handle_message p pow id msg s peer).result ≡ err f
      → Earns s msg f
  unfolding handle_message handle_hello drop_self learn_addr greet handle_get_addr handle_addr
      handle_inv handle_get_data handle_get_blocks handle_block handle_tx accept_block
  handle_message-earned id (hello version height tip listen_port nonce) s peer f h =
      absurd (ground arith)
  handle_message-earned id get_addr s peer f h = absurd (cc)
  handle_message-earned id (addr addrs) s peer f h = absurd (cc)
  handle_message-earned id (ping n) s peer f h = absurd (cc)
  handle_message-earned id (pong n) s peer f h = absurd (cc)
  handle_message-earned id (inv blocks txs) s peer f h = absurd (ground arith)
  handle_message-earned id (get_data blocks txs) s peer f h =
      let (many, e) = get_data-err id blocks txs s peer f h in
      subst (Earns s (get_data blocks txs)) (sym e) (greedy blocks txs many)
  handle_message-earned id (get_blocks hashes) s peer f h = absurd (cc)
  handle_message-earned id (block b) s peer f h =
      let o = announce-outcome b (some id) s (add_block p pow b s.chain) in
      elim (verdict-faulty (accept_block p pow b (some id) s).0 f
        (after_block-err id _ _ _ _ _ f h)) [
          | inl (e, r, u, d, w) ↦ subst (Earns s (block b)) (sym w) (bad_block b e (sym o ∙ r) u d)
          | inr (failure, r, (n, w)) ↦
              subst (Earns s (block b)) (sym w) (failed_block b failure (sym o ∙ r) n)
        ]
  handle_message-earned id (tx t) s peer f h =
      let (e, r, w) =
        after_tx-err id (txid p.digest t.body) s peer (insert_tx p s.chain t s.mempool).0
          (insert_tx p s.chain t s.mempool).1 f h in
      subst (Earns s (tx t)) (sym w) (bad_tx t e (insert_tx-invalid s.chain t s.mempool e r))
  handle_message-earned id unknown s peer f h = absurd (cc)
