-- ===== src/Node/Miner/Template.antt =====
-- What `add_block` asks of a block, and a template has.
use summerpoem_cli.Prelude.{
  ℕ, ◌+◌, ◌-◌, ◌%◌, ◌≤◌, ◌<◌, ◌≡◌, refl, sym, ap, ◌∙◌, arith, true, false, some, List, [], ◌++◌,
  length, map, take, ltb, ◌==◌, All, length-append, take-append_length, if◌then◌else◌,
}
use mathlib.Core.Path.{subst}
use summerpoem_cli.Prelude.Result.{
  ok, ◌>>=◌, ◌>>◌, refuse_if, ok_or, >>=-eq-ok, ok_or-eq-ok, ok-injective,
}
use summerpoem_cli.Prelude.Checked.{checked_add, u64_mod}
use summerpoem_cli.Prelude.Equality.{bytes_Eq, beq_refl}
use summerpoem_cli.Core.Emission.{block_reward}
use summerpoem_cli.Core.Encode.{le_bytes, le_value}
use summerpoem_cli.Core.Encode.Words.{length-le_bytes, le_value-le_bytes}
use summerpoem_cli.Core.Params.{Params}
use summerpoem_cli.Core.Tx.{Transaction, txid, is_coinbase, coinbase_version_marker}
use summerpoem_cli.Core.Block.{Block, compute_tx_root, compute_witness_root}
use summerpoem_cli.Crypto.{Primitives}
use summerpoem_cli.Node.Utxo.{Utxos, value, outpoint_Eq, add_outputs}
use summerpoem_cli.Node.CheckTx.{is_empty, sum_outputs}
use summerpoem_cli.Node.Blocks.{
  check_unique, bad_height_prefix, check_coinbase, check_payout, validate_txs, validate_block_txs,
  check_roots,
}
use summerpoem_cli.Node.Blocks.Conserve.{value-apply_txs}
use summerpoem_cli.Node.Chain.{ChainState, panicked, last?, median_time_past, expected_bits}
use summerpoem_cli.Node.Chain.Queries.{chain_height}
use summerpoem_cli.Node.Miner.{
  coinbase_of, template_data, include, seal, unsealed, template_txs, build_block_template,
}
use summerpoem_cli.Node.Miner.Inclusion.{IsNew, include-apply_txs}

seal-check_roots :
    (p : Primitives) (params : Params) (b : Block) → check_roots p params (seal p.digest b) ≡ ok tt
unfolding check_roots seal compute_tx_root compute_witness_root refuse_if ◌>>◌ ◌>>=◌
seal-check_roots p params b =
    rw (beq_refl (compute_tx_root p.digest b), beq_refl (compute_witness_root p.digest b)) refl

template_data-prefix :
    (height : ℕ) (version : List ℕ)
    → height < u64_mod
    → length version ≤ 96
    → bad_height_prefix (template_data height version) height ≡ false
unfolding bad_height_prefix template_data
template_data-prefix height version h v =
    let head = le_bytes 8 height in
    let rest = coinbase_version_marker ++ version in
    let eight : length head ≡ 8 = length-le_bytes 8 height in
    let all = length-append head rest in
    let tail = length-append coinbase_version_marker version in
    let front : take 8 (head ++ rest) ≡ head =
      subst (λ n. take n (head ++ rest) ≡ head) eight (take-append_length head rest) in
    let number : le_value (take 8 (head ++ rest)) ≡ height =
      ap le_value front ∙ le_value-le_bytes 8 height h in
    ground (arith, number)

coinbase_of-check_coinbase :
    (amount height : ℕ) (pkh version : List ℕ)
    → height < u64_mod
    → length version ≤ 96
    → check_coinbase (coinbase_of amount pkh (template_data height version)) height ≡ ok tt
unfolding check_coinbase coinbase_of is_coinbase is_empty refuse_if ◌>>◌ ◌>>=◌
coinbase_of-check_coinbase amount height pkh version h v =
    rw (template_data-prefix height version h v) refl

coinbase_of-check_payout :
    (p : Primitives) (params : Params) (height fees : ℕ) (pkh coinbase_data : List ℕ)
    → 0 < block_reward height + fees
    → block_reward height + fees < u64_mod
    → check_payout p params
        (coinbase_of ((block_reward height + fees) % u64_mod) pkh coinbase_data)
        height
        fees
      ≡ ok (block_reward height + fees)
unfolding check_payout coinbase_of sum_outputs refuse_if ◌>>=◌ ◌>>◌ ok_or checked_add
coinbase_of-check_payout p params height fees pkh coinbase_data a b =
    let exact : (block_reward height + fees) % u64_mod ≡ block_reward height + fees = omega arith in
    let nonzero : (block_reward height + fees == 0) ≡ false = ground arith in
    let fits : ltb (block_reward height + fees) u64_mod ≡ true = ground arith in
    let same : ltb (block_reward height + fees) (block_reward height + fees) ≡ false =
      ground arith in
    let from_zero : 0 + (block_reward height + fees) ≡ block_reward height + fees = omega arith in
    rw (exact, nonzero, from_zero, fits, same) refl

module _ (p : Primitives) (s : ChainState) where
  -- The block is on the tip, its difficulty and time are what the chain asks for, its roots are right,
  -- and its transactions apply, with the whole reward minted.
  pub record IsReady (b : Block) : Type 0 where
    pub tip : last? s.active ≡ some b.header.prev
    pub bits : expected_bits s b.header.prev ≡ ok b.header.bits
    pub time : (mtp : ℕ) × (median_time_past s b.header.prev ≡ ok mtp) × (mtp < b.header.time)
    pub roots : check_roots p s.params b ≡ ok tt
    pub txs :
        (u' : Utxos) × (validate_block_txs p s.params b (chain_height s + 1) s.utxos
          ≡ ok (block_reward (chain_height s + 1), u'))

  template_txs-valid :
      (txs : List Transaction) (pkh version : List ℕ)
      → chain_height s + 1 < u64_mod
      → length version ≤ 96
      → 0 < block_reward (chain_height s + 1)
      → value s.utxos + block_reward (chain_height s + 1) < u64_mod
      → All (IsNew p s.utxos) txs
      → check_unique [] (map (λ t. txid p.digest t.body) (template_txs p s txs pkh version)) ≡ ok tt
      → (u' : Utxos) × (validate_txs p s.params
            (template_txs p s txs pkh version)
            (chain_height s + 1)
            s.utxos
          ≡ ok (block_reward (chain_height s + 1), u'))
  unfolding template_txs validate_txs ◌>>=◌ ◌>>◌
  template_txs-valid txs pkh version h v r b n unique =
      let height = chain_height s + 1 in
      let budget = s.params.max_block_size - 4096 in
      let fees = (include p s [] 0 budget txs).1 in
      let (u', applied) =
        include-apply_txs p s txs [] 0 budget s.utxos (omega arith) n (λ op w g untouched. g)
          (omega arith) in
      let paid = value-apply_txs p s.params height _ 0 s.utxos fees u' applied in
      let coinbase =
        coinbase_of-check_coinbase ((block_reward height + fees) % u64_mod) height pkh version h
          v in
      let payout =
        coinbase_of-check_payout p s.params height fees pkh (template_data height version)
          (omega arith) (omega arith) in
      let minted : block_reward height + fees - fees ≡ block_reward height = omega arith in
      let cb =
        coinbase_of ((block_reward height + fees) % u64_mod) pkh (template_data height version) in
      (
        add_outputs (txid p.digest cb.body) height true 0 cb.body.outputs u',
        rw (coinbase, unique, applied, payout, minted) refl,
      )

  -- A template that `build_block_template` returns passes the tests of `add_block` but those of size
  -- and proof of work: it is on the tip with the expected bits, later than the median time, its roots
  -- are right, and its transactions, whatever the candidates were, are accepted on the tip's unspent
  -- outputs, with the whole reward minted. The reward is assumed not to be zero, the height, the
  -- second after the median time, and the reward with the value of the unspent outputs below 2 ^ 64,
  -- the version at most 96 bytes, the ids of the template's transactions distinct, and no candidate's
  -- id that of an unspent output.
  pub build_block_template-IsReady :
      (txs : List Transaction) (pkh version : List ℕ) (now : ℕ) (b : Block) (past : ℕ)
      → build_block_template p s txs pkh now version ≡ ok b
      → median_time_past s b.header.prev ≡ ok past
      → past + 1 < u64_mod
      → chain_height s + 1 < u64_mod
      → length version ≤ 96
      → 0 < block_reward (chain_height s + 1)
      → value s.utxos + block_reward (chain_height s + 1) < u64_mod
      → All (IsNew p s.utxos) txs
      → check_unique [] (map (λ t. txid p.digest t.body) b.transactions) ≡ ok tt
      → IsReady b
  unfolding build_block_template validate_block_txs seal unsealed
  build_block_template-IsReady txs pkh version now b past e mp no_wrap h v r c n unique =
      let (tip, t, e₁) = >>=-eq-ok (ok_or (last? s.active) panicked) _ e in
      let (mtp, m, e₂) = >>=-eq-ok (median_time_past s tip) _ e₁ in
      let (bits, d, e₃) = >>=-eq-ok (expected_bits s tip) _ e₂ in
      let earliest = (mtp + 1) % u64_mod in
      let time = if ltb now earliest then earliest else now in
      let built = ok-injective e₃ in
      let same : mtp ≡ past =
        ok-injective (sym m ∙ ap (median_time_past s) (ap (λ x. x.header.prev) built) ∙ mp) in
      let late : mtp < time = ground arith in
      let unique' =
        subst (λ x. check_unique [] (map (λ t. txid p.digest t.body) x.transactions) ≡ ok tt)
          (sym built) unique in
      subst IsReady built (record {
        tip = ok_or-eq-ok _ _ t;
        bits = d;
        time = (mtp, m, late);
        roots =
            seal-check_roots p s.params (unsealed tip time bits (template_txs p s txs pkh version));
        txs = template_txs-valid txs pkh version h v r c n unique';
      })
