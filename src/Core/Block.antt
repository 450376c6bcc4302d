-- ===== src/Core/Block.antt =====
-- crates/core/src/block.rs: headers, blocks and their hashes.
use summerpoem_cli.Prelude.{ℕ, ◌-◌, ◌%◌, ◌^◌, List, [], ◌∷◌, ◌++◌, map, length, take}
use summerpoem_cli.Prelude.Result.{Result}
use summerpoem_cli.Prelude.Text.{bytes}
use summerpoem_cli.Core.Encode.{
  DecodeError, Parser, ◌>>=◌, pure, read_array, read_u32, read_u64, read_count, read_many, put_u32,
  put_u64,
}
use summerpoem_cli.Core.Encode.Reading.{concat_map}
use summerpoem_cli.Core.Hash.{Hash256, sha3}
use summerpoem_cli.Core.Merkle.{merkle_root}
use summerpoem_cli.Core.Tx.{Transaction, encode_tx, decode_tx, decode_whole, txid, witness_hash}
pub mod RoundTrip

abbrev pub header_tag : List ℕ
header_tag = bytes "sump/header/v1"

abbrev pub pow_msg_tag : List ℕ
pow_msg_tag = bytes "sump/powmsg/v1"

abbrev pub max_block_txs : ℕ
max_block_txs = 1_000_000

pub record BlockHeader : Type 0 where
  pub version : ℕ
  pub prev : Hash256
  pub tx_root : Hash256
  pub witness_root : Hash256
  pub time : ℕ
  pub bits : ℕ
  pub nonce : ℕ

unfoldable pub encode_header : BlockHeader → List ℕ
encode_header h =
    put_u32 h.version
    ++ (h.prev
        ++ (h.tx_root
            ++ (h.witness_root ++ (put_u64 h.time ++ (put_u32 h.bits ++ put_u64 h.nonce)))))

unfoldable pub decode_header : Parser BlockHeader
decode_header = do
  version ← read_u32
  prev ← read_array 32
  tx_root ← read_array 32
  witness_root ← read_array 32
  time ← read_u64
  bits ← read_u32
  nonce ← read_u64
  pure (record {
    version = version;
    prev = prev;
    tx_root = tx_root;
    witness_root = witness_root;
    time = time;
    bits = bits;
    nonce = nonce;
  })

pub record Block : Type 0 where
  pub header : BlockHeader
  pub transactions : List Transaction

unfoldable pub encode_block : Block → List ℕ
encode_block b =
    encode_header b.header
    ++ (put_u32 (length b.transactions % 2 ^ 32) ++ concat_map encode_tx b.transactions)

unfoldable pub decode_block : Parser Block
decode_block = do
  header ← decode_header
  n ← read_count max_block_txs
  transactions ← read_many n decode_tx
  pure (record { header = header; transactions = transactions })

unfoldable pub decode_all : List ℕ → Result DecodeError Block
decode_all = decode_whole decode_block

unfoldable pub size : Block → ℕ
size b = length (encode_block b)

module _ (digest : List ℕ → Hash256) where
  -- `BlockHeader::hash`
  unfoldable pub header_hash : BlockHeader → Hash256
  header_hash h = sha3 digest (header_tag ∷ encode_header h ∷ [])

  unfoldable pub pow_message : BlockHeader → Hash256
  pow_message h =
      let encoded = encode_header h in
      sha3 digest (pow_msg_tag ∷ take (length encoded - 8) encoded ∷ [])

  unfoldable pub compute_tx_root : Block → Hash256
  compute_tx_root b = merkle_root digest (map (λ t. txid digest t.body) b.transactions)

  unfoldable pub compute_witness_root : Block → Hash256
  compute_witness_root b = merkle_root digest (map (witness_hash digest) b.transactions)
