-- ===== src/Node/Store/RoundTrip.antt =====
-- Loading what was saved.
use summerpoem_cli.Prelude.{
  ℕ, ◌%◌, ◌^◌, ◌<◌, ◌≡◌, refl, sym, arith, List, [], ◌∷◌, ◌++◌, length, ltb, length-append, false,
  All,
}
use mathlib.Core.List.{append-nil}
use summerpoem_cli.Prelude.Result.{ok}
use summerpoem_cli.Prelude.Equality.{bytes_eq}
use summerpoem_cli.Core.Encode.{new_reader, put_u32, first_byte}
use summerpoem_cli.Core.Encode.Words.{length-le_bytes}
use summerpoem_cli.Core.Encode.Reading.{
  Reads, Reads->>=, Reads-silent, Reads-bytes, Reads-u32, Reads-many, concat_map,
}
use summerpoem_cli.Core.Tx.RoundTrip.{Reads-lift}
use summerpoem_cli.Core.Block.{Block, encode_block, decode_all}
use summerpoem_cli.Core.Block.RoundTrip.{BlockFits, Reads-block}
use summerpoem_cli.Node.Store.{
  magic, stored_block, save_bytes, load_block, load_blocks, loaded, load_bytes,
}

-- A block within the ranges and limits of its codec, whose length is a u32.
pub record StoredFits (b : Block) : Type 0 where
  pub block_fits : BlockFits b
  pub length_fits : length (encode_block b) < 2 ^ 32

whole : (n : ℕ) → n < 2 ^ 32 → n % 2 ^ 32 ≡ n
whole n h = omega arith

Reads-stored : (b : Block) → StoredFits b → Reads load_block (stored_block b) b
unfolding load_block stored_block decode_all
Reads-stored b h = rw (whole _ h.length_fits) (
    Reads->>= _ (Reads-u32 _ h.length_fits)
      (Reads-silent _ (Reads-bytes (encode_block b)) (Reads-lift (Reads-block b h.block_fits))))

Reads-blocks :
    (blocks : List Block)
    → length blocks < 2 ^ 32
    → All StoredFits blocks
    → Reads load_blocks (put_u32 (length blocks % 2 ^ 32) ++ concat_map stored_block blocks) blocks
unfolding load_blocks
Reads-blocks blocks n h = rw (whole _ n) (
    Reads->>= _ (Reads-u32 _ n)
      (Reads-many load_block stored_block StoredFits Reads-stored blocks h))

long_enough :
    (network_id n : ℕ) (rest : List ℕ)
    → ltb (length (magic ++ (network_id ∷ (put_u32 n ++ rest)))) 13 ≡ false
unfolding put_u32
long_enough network_id n rest = ground (arith, length-append (put_u32 n) rest, length-le_bytes 4 n)

-- Loading the bytes that were saved gives the network and the blocks back,
-- for fewer than 2 ^ 32 blocks that are each within the ranges of their Rust types and the
-- decoder's limits and encode to fewer than 2 ^ 32 bytes.
pub load_bytes-save_bytes :
    (network_id : ℕ) (blocks : List Block)
    → length blocks < 2 ^ 32
    → All StoredFits blocks
    → load_bytes (save_bytes network_id blocks) ≡ ok (network_id, blocks)
unfolding load_bytes save_bytes bytes_eq first_byte
load_bytes-save_bytes network_id blocks n h =
    let body = put_u32 (length blocks % 2 ^ 32) ++ concat_map stored_block blocks in
    let (r, e, u) = (Reads-blocks blocks n h).run (new_reader body) [] (sym (append-nil body)) in
    rw (long_enough network_id (length blocks % 2 ^ 32) (concat_map stored_block blocks), e)
      (unfold loaded in refl)
