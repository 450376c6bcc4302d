-- ===== src/Core/Block/RoundTrip.antt =====
-- Decoding a block gives back what was encoded; the mined message leaves the nonce out.
use summerpoem_cli.Prelude.{
  ℕ, ◌-◌, ◌^◌, ◌≤◌, ◌<◌, ◌≡◌, arith, List, ◌++◌, length, take, All, length-append,
  take-append_length,
}
use mathlib.Core.List.{append_assoc}
use summerpoem_cli.Prelude.Result.{ok}
use summerpoem_cli.Core.Encode.{put_u32, put_u64}
use summerpoem_cli.Core.Encode.Words.{length-le_bytes}
use summerpoem_cli.Core.Encode.Reading.{
  Reads, Reads->>=, Reads-last, Reads-array, Reads-u32, Reads-u64, Reads-count, Reads-many,
}
use summerpoem_cli.Core.Hash.{Hash256, IsHash}
use summerpoem_cli.Core.Tx.{encode_tx, decode_tx}
use summerpoem_cli.Core.Tx.RoundTrip.{TxFits, Reads-tx, decode_whole-Reads}
use summerpoem_cli.Core.Block.{
  BlockHeader, encode_header, decode_header, Block, encode_block, decode_block, decode_all,
  pow_message, max_block_txs,
}

-- The ranges of the Rust types of a header.
pub record HeaderFits (h : BlockHeader) : Type 0 where
  pub version_fits : h.version < 2 ^ 32
  pub prev_fits : IsHash h.prev
  pub tx_root_fits : IsHash h.tx_root
  pub witness_root_fits : IsHash h.witness_root
  pub time_fits : h.time < 2 ^ 64
  pub bits_fit : h.bits < 2 ^ 32
  pub nonce_fits : h.nonce < 2 ^ 64

pub record BlockFits (b : Block) : Type 0 where
  pub header_fits : HeaderFits b.header
  pub transactions_fit : All TxFits b.transactions
  pub transactions_count : length b.transactions ≤ max_block_txs

pub Reads-header : (h : BlockHeader) → HeaderFits h → Reads decode_header (encode_header h) h
unfolding decode_header encode_header
Reads-header h f = Reads->>= _ (Reads-u32 h.version f.version_fits) (
    Reads->>= _ (Reads-array 32 h.prev f.prev_fits) (
      Reads->>= _ (Reads-array 32 h.tx_root f.tx_root_fits) (
        Reads->>= _ (Reads-array 32 h.witness_root f.witness_root_fits) (
          Reads->>= _ (Reads-u64 h.time f.time_fits) (
            Reads->>= _ (Reads-u32 h.bits f.bits_fit)
              (Reads-last _ (Reads-u64 h.nonce f.nonce_fits)))))))

pub Reads-block : (b : Block) → BlockFits b → Reads decode_block (encode_block b) b
unfolding decode_block encode_block
Reads-block b f = Reads->>= _ (Reads-header b.header f.header_fits) (
    Reads->>= _
      (Reads-count (length b.transactions) max_block_txs f.transactions_count (omega arith))
      (Reads-last _
        (Reads-many decode_tx encode_tx TxFits Reads-tx b.transactions f.transactions_fit)))

-- Decoding all the bytes of an encoded block gives the block back, for every block within the
-- ranges of its Rust types and the decoder's limits.
pub decode_all-encode_block : (b : Block) → BlockFits b → decode_all (encode_block b) ≡ ok b
unfolding decode_all
decode_all-encode_block b f = decode_whole-Reads (Reads-block b f)

-- The encoded header without its last eight bytes.
abbrev header_front : BlockHeader → List ℕ
header_front h =
    put_u32 h.version
    ++ (h.prev ++ (h.tx_root ++ (h.witness_root ++ (put_u64 h.time ++ put_u32 h.bits))))

length-put_u64 : (v : ℕ) → length (put_u64 v) ≡ 8
unfolding put_u64
length-put_u64 v = length-le_bytes 8 v

encode_header-split : (h : BlockHeader) → encode_header h ≡ header_front h ++ put_u64 h.nonce
unfolding encode_header
encode_header-split h = simp append_assoc

take_front : (xs ys : List ℕ) → length ys ≡ 8 → take (length (xs ++ ys) - 8) (xs ++ ys) ≡ xs
take_front xs ys h =
    let n : length (xs ++ ys) - 8 ≡ length xs = omega (arith, length-append xs ys) in
    rw n (take-append_length xs ys)

pub truncated :
    (h : BlockHeader) → take (length (encode_header h) - 8) (encode_header h) ≡ header_front h
truncated h =
    rw (encode_header-split h) (take_front (header_front h) (put_u64 h.nonce) (length-put_u64 _))

-- The message that is mined does not depend on the nonce: two headers that differ in it alone
-- have the same message.
pub pow_message_nonce :
    (digest : List ℕ → Hash256) (h : BlockHeader) (n : ℕ)
    → pow_message digest (record h { nonce = n }) ≡ pow_message digest h
unfolding pow_message
pow_message_nonce digest h n = rw (truncated h, truncated (record h { nonce = n }))
