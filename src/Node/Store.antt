-- ===== src/Node/Store.antt =====
-- crates/node/src/store.rs: the bytes of the chain file. Writing and reading the file are left out:
-- `save_bytes` is what `save` writes, and `load_bytes` what `load` makes of what it has read.
use summerpoem_cli.Prelude.{
  ℕ, ◌%◌, ◌^◌, List, [], ◌∷◌, ◌++◌, length, take, drop, ltb, ◌||◌, not, if◌then◌else◌,
}
use summerpoem_cli.Prelude.Result.{Result, ok, err}
use summerpoem_cli.Prelude.Equality.{bytes_eq}
use summerpoem_cli.Prelude.Text.{bytes}
use summerpoem_cli.Core.Encode.{
  DecodeError, Reader, new_reader, Parser, ◌>>=◌, read_bytes, read_u32, read_many, put_u32,
  first_byte,
}
use summerpoem_cli.Core.Encode.Reading.{concat_map}
use summerpoem_cli.Core.Tx.{lift}
use summerpoem_cli.Core.Block.{Block, encode_block, decode_all}
pub mod RoundTrip

abbrev pub magic : List ℕ
magic = bytes "SUMPCHN1"

-- The two causes that `load` gives for invalid data.
pub data LoadError : Type 0 where
  not_chain_file : LoadError
  bad_block : DecodeError → LoadError

unfoldable pub stored_block : Block → List ℕ
stored_block b = put_u32 (length (encode_block b) % 2 ^ 32) ++ encode_block b

unfoldable pub save_bytes : ℕ → List Block → List ℕ
save_bytes network_id blocks =
    magic ++ (network_id ∷ (put_u32 (length blocks % 2 ^ 32) ++ concat_map stored_block blocks))

unfoldable pub load_block : Parser Block
load_block = do len ← read_u32; raw ← read_bytes len; lift (decode_all raw)

unfoldable pub load_blocks : Parser (List Block)
load_blocks = do count ← read_u32; read_many count load_block

-- The end of `load`, by the result of its reads. It does not look at what is left.
unfoldable pub loaded :
    ℕ → Result DecodeError (List Block × Reader) → Result LoadError (ℕ × List Block)
loaded network_id (ok (blocks, r)) = ok (network_id, blocks)
loaded network_id (err e) = err (bad_block e)

unfoldable pub load_bytes : List ℕ → Result LoadError (ℕ × List Block)
load_bytes file =
    if ltb (length file) 13 || not (bytes_eq (take 8 file) magic)
    then err not_chain_file
    else loaded (first_byte (drop 8 file)) (load_blocks (new_reader (drop 9 file)))
