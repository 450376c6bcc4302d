-- ===== src/Node/Chain/Invariant.antt =====
-- The invariant of the chain state, and that `add_block` keeps it on every path.
use summerpoem_cli.Prelude.{
  ℕ, suc, ◌+◌, ◌≡◌, ◌≢◌, refl, sym, ap, ◌∙◌, arith, Bool, true, false, Option, none, some, List, [],
  ◌∷◌, ◌++◌, length, length-append, leb, if◌then◌else◌,
}
use mathlib.Core.Path.{subst}
use summerpoem_cli.Prelude.Result.{
  ok, err, refuse_if, ok_or, >>=-eq-ok, >>-eq-ok, refuse_if-eq-ok, ok_or-eq-ok, ok-injective,
}
use summerpoem_cli.Prelude.Checked.{checked_add}
use summerpoem_cli.Prelude.Equality.{bytes_eq, bytes_Eq, bytes_eq_iff}
use summerpoem_cli.Prelude.Dictionary.{
  get, insert, contains_key, get-insert_self, get-insert_new, total,
}
use summerpoem_cli.Core.Emission.Supply.{issued}
use summerpoem_cli.Core.Hash.{Hash256, zero_hash}
use summerpoem_cli.Core.Block.{Block, header_hash}
use summerpoem_cli.Crypto.{Primitives}
use summerpoem_cli.Node.Utxo.{Utxos}
use summerpoem_cli.Node.CheckTx.{Checked}
use summerpoem_cli.Node.Blocks.{validate_block_txs}
use summerpoem_cli.Node.Chain.{
  BlockMeta, ChainState, Outcome, PowFunction, last?, forget, remember, push_supply, push_tip,
  install, walk_back, apply_chain, check_header, extend_tip, adopt, reorganize, choose_tip, connect,
  store, add_block,
}
use summerpoem_cli.Node.Chain.Walk.{IsIndex, walk_back-total}
use summerpoem_cli.Node.Chain.Index.{entry_fresh, insert-IsIndex, removed-entry, remove-IsIndex}
use summerpoem_cli.Node.Chain.Ledger.{Backs, Backs-suc, apply_chain-Backs}

-- The active chain ends in an indexed block, whose height counts the chain.
abbrev pub HasTip : ChainState → Type 0
HasTip s =
    (h : Hash256) × (m : BlockMeta) × (last? s.active ≡ some h)
    × (get h s.meta ≡ some m)
    × (suc m.height ≡ length s.active)

-- The index is linked, the active chain ends at its height, and the supply is within the schedule
-- and covers the unspent outputs.
pub record IsValid (s : ChainState) : Type 0 where
  pub index : IsIndex s.all s.meta
  pub tip : HasTip s
  pub backs : Backs s.supply (length s.active) s.utxos

-- Both branches of a test.
IsValid-if :
    (b : Bool) (x y : Outcome Bool × ChainState)
    → (b ≡ true → IsValid x.1)
    → (b ≡ false → IsValid y.1)
    → IsValid (if b then x else y).1
IsValid-if true x y f g = f refl
IsValid-if false x y f g = g refl

pub some-eq : {A : Type 0} {a b : A} → some a ≡ some b → a ≡ b
some-eq h = cc

pub last?-append : (l : List Hash256) (h : Hash256) → last? (l ++ (h ∷ [])) ≡ some h
unfolding last?
last?-append [] h = refl
last?-append (x ∷ []) h = refl
last?-append (x ∷ y ∷ l) h = last?-append (y ∷ l) h

pub Backs-zero : Backs 0 0 []
unfolding issued total
Backs-zero = record { issued_bound = omega arith; backed = omega arith; unique = tt }

-- A block that has passed the header checks, and the entry made for it.
pub record IsNew (s : ChainState) (hash : Hash256) (m : BlockMeta) : Type 0 where
  pub fresh : contains_key hash s.all ≡ false
  pub parent : BlockMeta
  pub parent_entry : get m.parent s.meta ≡ some parent
  pub above : m.height ≡ suc parent.height

module _ (s : ChainState) (v : IsValid s) (hash : Hash256) (nonzero : hash ≢ zero_hash)
    (m : BlockMeta) (block : Block) (n : IsNew s hash m) where
  pub stored_entry :
      (k : Hash256) {x : BlockMeta} → get k s.meta ≡ some x → get k (insert hash m s.meta) ≡ some x
  stored_entry k g = get-insert_new k hash m s.meta (entry_fresh v.index hash m block n.fresh) g

  pub remember-IsValid : IsValid (remember hash m block s)
  unfolding remember
  remember-IsValid =
      let (h, t, l, g, e) = v.tip in
      record {
        index = insert-IsIndex v.index hash m block n.fresh nonzero n.parent_entry n.above;
        tip = (h, t, l, stored_entry h g, e);
        backs = v.backs;
      }

  forget-IsValid : IsValid (forget hash (remember hash m block s))
  unfolding remember forget
  forget-IsValid =
      let (h, t, l, g, e) = v.tip in
      record {
        index = remove-IsIndex v.index hash m block n.fresh;
        tip = (h, t, l, removed-entry v.index hash m block n.fresh h ∙ g, e);
        backs = v.backs;
      }

  module _ (p : Primitives) where
    push_supply-IsValid :
        (utxos : Utxos) (minted : ℕ) (r : Option ℕ)
        → validate_block_txs p s.params block m.height s.utxos ≡ ok (minted, utxos)
        → checked_add s.supply minted ≡ r
        → m.height ≡ length s.active
        → IsValid (push_supply hash utxos (remember hash m block s) r).1
    unfolding push_supply
    push_supply-IsValid utxos minted none h a e = remember-IsValid
    push_supply-IsValid utxos minted (some supply) h a e =
        unfold remember in
        record {
          index = remember-IsValid.index;
          tip = (
            hash,
            m,
            last?-append s.active hash,
            get-insert_self hash m s.meta,
            omega (arith, length-append s.active (hash ∷ [])),
          );
          backs =
              subst (λ k. Backs supply k utxos) (omega (arith, length-append s.active (hash ∷ [])))
                (Backs-suc p s.params block m.height s.utxos utxos s.supply minted supply
                  (subst (λ k. Backs s.supply k s.utxos) (sym e) v.backs) h a);
        }

    push_tip-IsValid :
        (r : Checked (ℕ × Utxos))
        → validate_block_txs p s.params block m.height s.utxos ≡ r
        → m.height ≡ length s.active
        → IsValid (push_tip hash (remember hash m block s) r).1
    unfolding push_tip remember
    push_tip-IsValid (err x) h e = forget-IsValid
    push_tip-IsValid (ok applied) h e =
        push_supply-IsValid applied.1 applied.0 (checked_add s.supply applied.0) h refl e

    module _ (pow : PowFunction) where
      install-IsValid :
          (chain : List Hash256) (r : Outcome (Utxos × ℕ))
          → last? chain ≡ some hash
          → length chain ≡ suc m.height
          → apply_chain p pow s.params (insert hash block s.all) 0 chain [] 0 ≡ r
          → IsValid (install hash chain (remember hash m block s) r).1
      unfolding install
      install-IsValid chain (err x) l len h = forget-IsValid
      install-IsValid chain (ok applied) l len h =
          unfold remember in
          record {
            index = remember-IsValid.index;
            tip = (hash, m, l, get-insert_self hash m s.meta, sym len);
            backs =
                subst (λ k. Backs applied.1 k applied.0) (omega arith)
                  (apply_chain-Backs p pow s.params (insert hash block s.all) 0 chain [] applied.0 0
                    applied.1 Backs-zero h);
          }

      reorganize-IsValid : IsValid (reorganize p pow hash m.height (remember hash m block s)).1
      unfolding reorganize adopt remember last?
      reorganize-IsValid =
          let (chain, w, len, l) =
            walk_back-total _ _ remember-IsValid.index m.height hash m []
              (get-insert_self hash m s.meta) refl in
          let e : suc m.height ≡ m.height + 1 = omega arith in
          let w' = subst (λ k. walk_back (insert hash m s.meta) k hash [] ≡ ok chain) e w in
          subst (λ r. IsValid (adopt p pow hash (remember hash m block s) r).1) (sym w')
            (install-IsValid chain _ l (omega arith) refl)

      -- Where the block's parent is the tip, its height is the length of the active chain.
      pub tip_above :
          (tip_hash : Hash256)
          → last? s.active ≡ some tip_hash
          → m.parent ≡ tip_hash
          → m.height ≡ length s.active
      tip_above tip_hash l e =
          let (h, x, l', g, len) = v.tip in
          let h_eq : h ≡ tip_hash = some-eq (sym l' ∙ l) in
          let g' : get m.parent s.meta ≡ some x =
            subst (λ k. get k s.meta ≡ some x) (h_eq ∙ sym e) g in
          let same : n.parent ≡ x = some-eq (sym n.parent_entry ∙ g') in
          n.above ∙ ap (λ b. suc b.height) same ∙ len

      choose_tip-IsValid :
          (tip_hash : Hash256) (tip : Option BlockMeta)
          → last? s.active ≡ some tip_hash
          → IsValid (choose_tip p pow hash m block tip_hash (remember hash m block s) tip).1
      unfolding choose_tip extend_tip remember
      choose_tip-IsValid tip_hash none l = remember-IsValid
      choose_tip-IsValid tip_hash (some tip) l =
          let s' = remember hash m block s in
          let fast = extend_tip p pow hash m.height block s' in
          let slow = reorganize p pow hash m.height s' in
          IsValid-if (leb m.cum_work tip.cum_work) (ok false, s')
            (if bytes_eq m.parent tip_hash then fast else slow) (λ _. remember-IsValid)
            (λ _.
              IsValid-if (bytes_eq m.parent tip_hash) fast slow
                (λ same. push_tip-IsValid _ refl (tip_above tip_hash l ((bytes_eq_iff _ _).0 same)))
                (λ _. reorganize-IsValid))

      connect-IsValid :
          (tip : Option Hash256)
          → last? s.active ≡ tip
          → IsValid (connect p pow hash m block (remember hash m block s) tip).1
      unfolding connect
      connect-IsValid none l = remember-IsValid
      connect-IsValid (some tip_hash) l = choose_tip-IsValid tip_hash _ l

module _ (p : Primitives) (pow : PowFunction) where
  -- What the header checks have shown of a block that passes them.
  pub check_header-IsNew :
      (block : Block) (s : ChainState) (m : BlockMeta)
      → check_header p pow block s ≡ ok m
      → IsNew s (header_hash p.digest block.header) m
  unfolding check_header
  check_header-IsNew block s m h =
      let (f, h₁) = >>-eq-ok (refuse_if _ _) _ h in
      let (parent, g, h₂) = >>=-eq-ok (ok_or _ _) _ h₁ in
      let (_, _, h₃) = >>=-eq-ok _ _ h₂ in
      let (_, h₄) = >>-eq-ok (refuse_if _ _) _ h₃ in
      let (_, _, h₅) = >>=-eq-ok _ _ h₄ in
      let (_, h₆) = >>-eq-ok (refuse_if _ _) _ h₅ in
      let (_, h₇) = >>-eq-ok (refuse_if _ _) _ h₆ in
      let (_, h₈) = >>-eq-ok _ _ h₇ in
      let (_, h₉) = >>-eq-ok _ _ h₈ in
      let (_, _, h₁₀) = >>=-eq-ok _ _ h₉ in
      let (_, _, h₁₁) = >>=-eq-ok _ _ h₁₀ in
      let (_, _, h₁₂) = >>=-eq-ok _ _ h₁₁ in
      let e = ok-injective h₁₂ in
      let e_parent : block.header.prev ≡ m.parent = ap (λ x. x.parent) e in
      let e_height : parent.height + 1 ≡ m.height = ap (λ x. x.height) e in
      record {
        fresh = refuse_if-eq-ok _ _ f;
        parent = parent;
        parent_entry = subst (λ k. get k s.meta ≡ some parent) e_parent (ok_or-eq-ok _ _ g);
        above = omega arith;
      }

  store-IsValid :
      (block : Block) (s : ChainState) (r : Outcome BlockMeta)
      → header_hash p.digest block.header ≢ zero_hash
      → IsValid s
      → check_header p pow block s ≡ r
      → IsValid (store p pow block s r).1
  unfolding store
  store-IsValid block s (err e) nz v h = v
  store-IsValid block s (ok m) nz v h =
      connect-IsValid s v _ nz m block (check_header-IsNew block s m h) p pow _ refl

  -- Whatever block is offered, and whether it is refused, kept aside or becomes the tip, a valid
  -- state stays valid, if the block's header does not hash to zero.
  pub add_block-IsValid :
      (block : Block) (s : ChainState)
      → header_hash p.digest block.header ≢ zero_hash
      → IsValid s
      → IsValid (add_block p pow block s).1
  unfolding add_block
  add_block-IsValid block s nz v = store-IsValid block s _ nz v refl
