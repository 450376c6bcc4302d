-- ===== src/Node/Utxo/Value.antt =====
-- What spending and adding outputs does to the value of the set.
use summerpoem_cli.Prelude.{
  ℕ, suc, ◌+◌, ◌%◌, ◌^◌, ◌≤◌, ◌≡◌, arith, Bool, false, some, List, [], ◌∷◌, All,
}
use summerpoem_cli.Prelude.Dictionary.{
  get, insert, remove, get-remove, total-remove, total-insert-le,
}
use summerpoem_cli.Core.Hash.{Hash256}
use summerpoem_cli.Core.Tx.{OutPoint, TxInput, TxOutput}
use summerpoem_cli.Node.Utxo.{
  Utxo, Utxos, outpoint_eq, amount_of, value, spend_inputs, add_outputs, outpoint_Eq,
}

-- The input spends none of the listed ones' outputs.
abbrev pub Fresh : TxInput → List TxInput → Type 0
Fresh x xs = All (λ y. outpoint_eq y.prevout x.prevout ≡ false) xs

-- No output is spent twice.
abbrev pub Distinct : List TxInput → Type 0
Distinct [] = Unit {0}
Distinct (x ∷ xs) = Fresh x xs × Distinct xs

-- Every input is in the set, and their amounts add up to `n`.
abbrev pub Provide : Utxos → List TxInput → ℕ → Type 0
Provide u [] n = n ≡ 0
Provide u (x ∷ xs) n =
    (v : Utxo) × (rest : ℕ) × (get x.prevout u ≡ some v)
    × Provide u xs rest
    × (n ≡ amount_of v + rest)

-- Removing an output that no listed input spends leaves their amounts.
Provide-remove :
    (u : Utxos) (x : TxInput) (xs : List TxInput) (n : ℕ)
    → Fresh x xs
    → Provide u xs n
    → Provide (remove x.prevout u) xs n
Provide-remove u x [] n f p = p
Provide-remove u x (y ∷ ys) n (f, fs) (v, rest, g, p, e) =
    (v, rest, rw (get-remove y.prevout x.prevout u, f) g, Provide-remove u x ys rest fs p, e)

-- Spending distinct inputs takes their whole value out.
pub value-spend_inputs :
    (u : Utxos) (xs : List TxInput) (n : ℕ)
    → Distinct xs
    → Provide u xs n
    → value (spend_inputs xs u) + n ≤ value u
unfolding spend_inputs
value-spend_inputs u [] n d p = omega arith
value-spend_inputs u (x ∷ xs) n (f, d) (v, rest, g, p, e) = omega (
  arith,
  value-spend_inputs (remove x.prevout u) xs rest d (Provide-remove u x xs rest f p),
  total-remove amount_of x.prevout v u g,
)

unfoldable pub output_sum : List TxOutput → ℕ
output_sum [] = 0
output_sum (o ∷ outputs) = o.amount + output_sum outputs

-- Adding outputs adds at most their value.
pub value-add_outputs :
    (txid : Hash256) (height : ℕ) (coinbase : Bool) (vout : ℕ) (outputs : List TxOutput) (u : Utxos)
    → value (add_outputs txid height coinbase vout outputs u) ≤ value u + output_sum outputs
unfolding add_outputs output_sum
value-add_outputs txid height coinbase vout [] u = omega arith
value-add_outputs txid height coinbase vout (o ∷ outputs) u =
    let k : OutPoint = record { txid = txid; vout = vout % 2 ^ 32 } in
    let w : Utxo = record { output = o; height = height; coinbase = coinbase } in
    omega (
      arith,
      value-add_outputs txid height coinbase (suc vout) outputs (insert k w u),
      total-insert-le amount_of k w u,
    )
