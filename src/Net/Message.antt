-- ===== src/Net/Message.antt =====
-- crates/net/src/message.rs: the messages between nodes and their bytes. `IpAddr` and `SocketAddr`
-- are those of Rust's library, without the flow label and the scope of an IPv6 socket address,
-- which `SocketAddr::new` sets to zero.
use summerpoem_cli.Prelude.{
  ℕ, ◌%◌, ◌^◌, Option, none, some, List, [], ◌∷◌, ◌++◌, length, take, drop, replicate, ltb, ◌==◌,
  if◌then◌else◌,
}
use summerpoem_cli.Prelude.Result.{Result, ok, err}
use summerpoem_cli.Prelude.Equality.{bytes_eq}
use summerpoem_cli.Core.Encode.{
  DecodeError, Reader, new_reader, remaining, Parser, ◌>>=◌, pure, le_value, le_bytes, read_array,
  read_u8, read_u32, read_u64, read_count, read_many, put_u8, put_u32, put_u64,
}
use summerpoem_cli.Core.Encode.Reading.{concat_map}
use summerpoem_cli.Core.Hash.{Hash256}
use summerpoem_cli.Core.Tx.{Transaction, encode_tx, decode_tx}
use summerpoem_cli.Core.Block.{Block, encode_block, decode_block}
pub mod RoundTrip

abbrev pub max_inv : ℕ
max_inv = 2_000

abbrev pub max_locator : ℕ
max_locator = 64

abbrev pub max_addrs : ℕ
max_addrs = 1_000

-- An address as its octets, in the order of the network.
pub data IpAddr : Type 0 where
  v4 v6 : List ℕ → IpAddr

pub record SocketAddr : Type 0 where
  pub ip : IpAddr
  pub port : ℕ

pub data Message : Type 0 where
  hello : (version height : ℕ) (tip : Hash256) (listen_port nonce : ℕ) → Message
  ping pong : ℕ → Message
  inv get_data : (blocks txs : List Hash256) → Message
  get_blocks : (locator : List Hash256) → Message
  block : Block → Message
  tx : Transaction → Message
  get_addr : Message
  addr : List SocketAddr → Message
  unknown : Message

abbrev pub mapped_prefix : List ℕ
mapped_prefix = replicate 10 0 ++ (255 ∷ 255 ∷ [])

-- `to_ipv6_mapped` of an IPv4 address, and an IPv6 address as it is.
unfoldable pub octets : IpAddr → List ℕ
octets (v4 a) = mapped_prefix ++ a
octets (v6 a) = a

-- `to_ipv4_mapped`, with its result or the IPv6 address.
unfoldable pub unmapped : List ℕ → IpAddr
unmapped a = if bytes_eq (take 12 a) mapped_prefix then v4 (drop 12 a) else v6 a

unfoldable pub put_u16 : ℕ → List ℕ
unfolding le_bytes
put_u16 v = le_bytes 2 v

unfoldable pub read_u16 : Parser ℕ
read_u16 = do b ← read_array 2; pure (le_value b)

unfoldable pub put_addr : SocketAddr → List ℕ
put_addr a = octets a.ip ++ put_u16 a.port

unfoldable pub read_addr : Parser SocketAddr
read_addr = do a ← read_array 16; port ← read_u16; pure (record { ip = unmapped a; port = port })

unfoldable pub put_hashes : List Hash256 → List ℕ
put_hashes hashes = put_u32 (length hashes % 2 ^ 32) ++ concat_map (λ h. h) hashes

unfoldable pub read_hashes : ℕ → Parser (List Hash256)
read_hashes max = do n ← read_count max; read_many n (read_array 32)

unfoldable pub encode : Message → List ℕ
encode (hello version height tip listen_port nonce) =
    put_u8 1
    ++ (put_u32 version ++ (put_u64 height ++ (tip ++ (put_u16 listen_port ++ put_u64 nonce))))
encode (ping n) = put_u8 2 ++ put_u64 n
encode (pong n) = put_u8 3 ++ put_u64 n
encode (inv blocks txs) = put_u8 4 ++ (put_hashes blocks ++ put_hashes txs)
encode (get_data blocks txs) = put_u8 5 ++ (put_hashes blocks ++ put_hashes txs)
encode (get_blocks locator) = put_u8 6 ++ put_hashes locator
encode (block b) = put_u8 7 ++ encode_block b
encode (tx t) = put_u8 8 ++ encode_tx t
encode get_addr = put_u8 9
encode (addr addrs) = put_u8 10 ++ (put_u32 (length addrs % 2 ^ 32) ++ concat_map put_addr addrs)
encode unknown = []

-- The nonce of a hello, which an older peer leaves out.
unfoldable pub read_nonce : Parser ℕ
read_nonce r = if ltb (remaining r) 8 then ok (0, r) else read_u64 r

unfoldable pub decode_hello : Parser Message
decode_hello = do
  version ← read_u32
  height ← read_u64
  tip ← read_array 32
  listen_port ← read_u16
  nonce ← read_nonce
  pure (hello version height tip listen_port nonce)

unfoldable pub decode_hashes : (List Hash256 → List Hash256 → Message) → Parser Message
decode_hashes make = do
  blocks ← read_hashes max_inv
  txs ← read_hashes max_inv
  pure (make blocks txs)

unfoldable pub decode_addr : Parser Message
decode_addr = do n ← read_count max_addrs; addrs ← read_many n read_addr; pure (addr addrs)

-- The arms of the `match` on the tag.
unfoldable pub decode_tagged : ℕ → Parser Message
decode_tagged tag =
    if tag == 1
    then decode_hello
    else if tag == 2
    then (do n ← read_u64; pure (ping n))
    else if tag == 3
    then (do n ← read_u64; pure (pong n))
    else if tag == 4
    then decode_hashes inv
    else if tag == 5
    then decode_hashes get_data
    else if tag == 6
    then (do l ← read_hashes max_locator; pure (get_blocks l))
    else if tag == 7
    then (do b ← decode_block; pure (block b))
    else if tag == 8
    then (do t ← decode_tx; pure (tx t))
    else if tag == 9
    then pure get_addr
    else if tag == 10
    then decode_addr
    else pure unknown

unfoldable pub result_of : {A : Type 0} → Result DecodeError (A × Reader) → Result DecodeError A
result_of (ok (a, r)) = ok a
result_of (err e) = err e

-- What is left after the message is not looked at.
unfoldable pub decode : List ℕ → Result DecodeError Message
decode bytes = result_of ((read_u8 >>= decode_tagged) (new_reader bytes))
