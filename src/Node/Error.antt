-- ===== src/Node/Error.antt =====
-- crates/node/src/error.rs: why a block or a transaction is refused.
use summerpoem_cli.Prelude.{ℕ}
use summerpoem_cli.Core.Encode.{DecodeError}
use summerpoem_cli.Core.Tx.{OutPoint}

pub data ValidationError : Type 0 where
  unknown_parent duplicate : ValidationError
  -- expected, got
  wrong_bits : ℕ → ℕ → ValidationError
  bad_bits bad_pow time_too_old too_large bad_merkle_root bad_witness_root : ValidationError
  missing_coinbase extra_coinbase bad_coinbase_data coinbase_overpay : ValidationError
  no_inputs no_outputs duplicate_tx : ValidationError
  unknown_input : OutPoint → ValidationError
  immature_coinbase : ValidationError
  timelocked : ℕ → ValidationError
  witness_mismatch wrong_pubkey bad_signature insufficient_inputs overflow : ValidationError
  zero_output bad_genesis : ValidationError
  decode : DecodeError → ValidationError
