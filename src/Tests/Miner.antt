-- ===== src/Tests/Miner.antt =====
-- The template's theorem at a concrete chain.
use summerpoem_cli.Prelude.{
  ◌+◌, ◌<◌, ◌≡◌, refl, sym, ap, ◌∙◌, arith, false, [], ◌∷◌, Bool-cases, inl, inr, map,
}
use summerpoem_cli.Prelude.Result.{ok, err}
use summerpoem_cli.Prelude.Equality.{bytes_eq, bytes_eq_iff}
use summerpoem_cli.Prelude.Dictionary.{get}
use summerpoem_cli.Prelude.Checked.{u64_mod}
use summerpoem_cli.Core.Emission.{block_reward}
use summerpoem_cli.Core.Tx.{OutPoint, Transaction, txid}
use summerpoem_cli.Core.Block.{Block}
use summerpoem_cli.Node.Utxo.{Utxo, value, outpoint_eq, outpoint_eq_iff, outpoint_Eq}
use summerpoem_cli.Node.Blocks.{check_unique}
use summerpoem_cli.Node.Chain.{Outcome, median_time_past}
use summerpoem_cli.Node.Chain.Queries.{chain_height}
use summerpoem_cli.Node.Miner.{build_block_template}
use summerpoem_cli.Node.Miner.Inclusion.{IsNew}
use summerpoem_cli.Node.Miner.Template.{IsReady, build_block_template-IsReady}
use summerpoem_cli.Tests.Run.{everything}
use summerpoem_cli.Tests.Sample.{digest, primitives, owner, genesis, spend}
use summerpoem_cli.Tests.Chain.{first_state}

abbrev block_of : Outcome Block → Block
block_of (ok b) = b
block_of (err e) = genesis

template : Block
template =
    block_of (build_block_template primitives first_state (spend ∷ []) owner 1060 (1 ∷ 2 ∷ 3 ∷ []))

template_run :
    build_block_template primitives first_state (spend ∷ []) owner 1060 (1 ∷ 2 ∷ 3 ∷ [])
    ≡ ok template
unfolding template first_state everything
template_run = refl

median_run : median_time_past first_state template.header.prev ≡ ok 1000
unfolding template first_state everything
median_run = refl

low : chain_height first_state + 1 < u64_mod
unfolding first_state everything
low = omega arith

rewarded : 0 < block_reward (chain_height first_state + 1)
unfolding first_state everything
rewarded = omega arith

small : value first_state.utxos + block_reward (chain_height first_state + 1) < u64_mod
unfolding first_state everything
small = omega arith

distinct_ids : check_unique [] (map (λ t. txid digest t.body) template.transactions) ≡ ok tt
unfolding template first_state everything
distinct_ids = refl

single-IsNew :
    (k : OutPoint) (w : Utxo) (tx : Transaction)
    → bytes_eq k.txid (txid digest tx.body) ≡ false
    → IsNew primitives ((k, w) ∷ []) tx
unfolding get
single-IsNew k w tx n op v g e = elim (Bool-cases (outpoint_eq op k)) [
  | inl same ↦
      let q : k.txid ≡ txid digest tx.body =
        ap (λ o. o.txid) (sym ((outpoint_eq_iff op k).0 same)) ∙ e in
      let t = (bytes_eq_iff k.txid (txid digest tx.body)).1 q in cc
  | inr differs ↦ let g' = rw differs at g in cc
]

spend-IsNew : IsNew primitives first_state.utxos spend
unfolding first_state everything
spend-IsNew = single-IsNew _ _ spend refl

build_block_template-IsReady_example : IsReady primitives first_state template
build_block_template-IsReady_example =
    build_block_template-IsReady primitives first_state (spend ∷ []) owner (1 ∷ 2 ∷ 3 ∷ []) 1060
      template 1000 template_run median_run (omega arith) low (omega arith) rewarded small
      (spend-IsNew, tt) distinct_ids
