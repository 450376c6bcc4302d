-- ===== src/Net/Message/RoundTrip.antt =====
-- Decoding a message gives back what was encoded, whatever follows.
use summerpoem_cli.Prelude.{
  ℕ, ◌%◌, ◌^◌, ◌≤◌, ◌<◌, ◌≡◌, refl, ap, arith, List, ◌++◌, length, take, ltb, length-drop,
  length-append, false, All,
}
use summerpoem_cli.Prelude.Result.{ok}
use summerpoem_cli.Prelude.Equality.{bytes_eq}
use summerpoem_cli.Core.Encode.{
  Reader, new_reader, remaining, ◌>>=◌, read_u8, read_array, put_u64, put_u32,
}
use summerpoem_cli.Core.Encode.Words.{length-le_bytes}
use summerpoem_cli.Core.Encode.Reading.{
  unread, Reads, Reads-pure, Reads->>=, Reads-silent, Reads-last, Reads-array, Reads-word, Reads-u8,
  Reads-u32, Reads-u64, Reads-count, Reads-many, concat_map,
}
use summerpoem_cli.Core.Hash.{Hash256, IsHash}
use summerpoem_cli.Core.Tx.RoundTrip.{TxFits, Reads-tx}
use summerpoem_cli.Core.Block.RoundTrip.{BlockFits, Reads-block}
use summerpoem_cli.Net.Message.{
  max_inv, max_locator, max_addrs, IpAddr, v4, v6, SocketAddr, Message, hello, ping, pong, inv,
  get_data, get_blocks, block, tx, get_addr, addr, unknown, mapped_prefix, octets, unmapped,
  put_u16, read_u16, put_addr, read_addr, put_hashes, read_hashes, encode, read_nonce, decode_hello,
  decode_hashes, decode_addr, decode_tagged, result_of, decode,
}

-- An IPv6 address that is no mapped IPv4 one, and the sizes of both.
abbrev pub IpFits : IpAddr → Type 0
IpFits (v4 a) = length a ≡ 4
IpFits (v6 a) = (length a ≡ 16) × (bytes_eq (take 12 a) mapped_prefix ≡ false)

pub record AddrFits (a : SocketAddr) : Type 0 where
  pub ip_fits : IpFits a.ip
  pub port_fits : a.port < 2 ^ 16

-- At most as many hashes as the reader takes.
pub record HashesFit (max : ℕ) (hs : List Hash256) : Type 0 where
  pub count : length hs ≤ max
  pub sizes : All IsHash hs

-- The ranges of the Rust types and the limits of the decoder. The sentinel for unknown messages is
-- never encoded.
abbrev pub MessageFits : Message → Type 0
MessageFits (hello version height tip listen_port nonce) =
    (version < 2 ^ 32) × (height < 2 ^ 64) × IsHash tip × (listen_port < 2 ^ 16) × (nonce < 2 ^ 64)
MessageFits (ping n) = n < 2 ^ 64
MessageFits (pong n) = n < 2 ^ 64
MessageFits (inv blocks txs) = HashesFit max_inv blocks × HashesFit max_inv txs
MessageFits (get_data blocks txs) = HashesFit max_inv blocks × HashesFit max_inv txs
MessageFits (get_blocks locator) = HashesFit max_locator locator
MessageFits (block b) = BlockFits b
MessageFits (tx t) = TxFits t
MessageFits get_addr = Unit {0}
MessageFits (addr addrs) = (length addrs ≤ max_addrs) × All AddrFits addrs
MessageFits unknown = ⊥

length-octets : (a : IpAddr) → IpFits a → length (octets a) ≡ 16
unfolding octets
length-octets (v4 a) h = omega (arith, length-append mapped_prefix a)
length-octets (v6 a) (h, _) = h

unmapped-octets : (a : IpAddr) → IpFits a → unmapped (octets a) ≡ a
unfolding octets unmapped bytes_eq
unmapped-octets (v4 a) h = refl
unmapped-octets (v6 a) (_, h) = rw h refl

Reads-u16 : (v : ℕ) → v < 2 ^ 16 → Reads read_u16 (put_u16 v) v
unfolding read_u16 put_u16
Reads-u16 v h = Reads-word 2 v (omega arith)

Reads-addr : (a : SocketAddr) → AddrFits a → Reads read_addr (put_addr a) a
unfolding read_addr put_addr
Reads-addr a h = Reads->>= _ (Reads-array 16 (octets a.ip) (length-octets a.ip h.ip_fits)) (
    Reads-silent _ (Reads-u16 a.port h.port_fits)
      (rw (unmapped-octets a.ip h.ip_fits) (Reads-pure a)))

Reads-hashes :
    (max : ℕ) (hs : List Hash256)
    → HashesFit max hs
    → max < 2 ^ 32
    → Reads (read_hashes max) (put_hashes hs) hs
unfolding read_hashes put_hashes
Reads-hashes max hs h m =
    Reads->>= _ (Reads-count (length hs) max h.count m)
      (Reads-many (read_array 32) (λ x. x) IsHash (Reads-array 32) hs h.sizes)

nonce_left :
    (r : Reader) (n : ℕ) (rest : List ℕ)
    → unread r ≡ put_u64 n ++ rest
    → ltb (remaining r) 8 ≡ false
unfolding remaining put_u64
nonce_left r n rest u = ground (
  arith,
  length-drop r.pos r.buf,
  ap (λ l. length l) u,
  length-append (put_u64 n) rest,
  length-le_bytes 8 n,
)

-- Where eight bytes are left, the nonce is read.
Reads-nonce : (n : ℕ) → n < 2 ^ 64 → Reads read_nonce (put_u64 n) n
unfolding read_nonce
Reads-nonce n h = record {
  run = λ r rest u. rw (nonce_left r n rest u) ((Reads-u64 n h).run r rest u);
}

Reads-hello :
    (version height : ℕ) (tip : Hash256) (listen_port nonce : ℕ)
    → MessageFits (hello version height tip listen_port nonce)
    → Reads decode_hello
        (put_u32 version ++ (put_u64 height ++ (tip ++ (put_u16 listen_port ++ put_u64 nonce))))
        (hello version height tip listen_port nonce)
unfolding decode_hello
Reads-hello version height tip listen_port nonce (a, b, c, d, e) =
    Reads->>= _ (Reads-u32 version a) (
      Reads->>= _ (Reads-u64 height b) (
        Reads->>= _ (Reads-array 32 tip c)
          (Reads->>= _ (Reads-u16 listen_port d) (Reads-last _ (Reads-nonce nonce e)))))

Reads-two_hashes :
    (make : List Hash256 → List Hash256 → Message) (blocks txs : List Hash256)
    → HashesFit max_inv blocks
    → HashesFit max_inv txs
    → Reads (decode_hashes make) (put_hashes blocks ++ put_hashes txs) (make blocks txs)
unfolding decode_hashes
Reads-two_hashes make blocks txs b t =
    Reads->>= _ (Reads-hashes max_inv blocks b (omega arith))
      (Reads-last (make blocks) (Reads-hashes max_inv txs t (omega arith)))

Reads-addrs :
    (addrs : List SocketAddr)
    → MessageFits (addr addrs)
    → Reads decode_addr (put_u32 (length addrs % 2 ^ 32) ++ concat_map put_addr addrs) (addr addrs)
unfolding decode_addr
Reads-addrs addrs (n, h) =
    Reads->>= _ (Reads-count (length addrs) max_addrs n (omega arith))
      (Reads-last addr (Reads-many read_addr put_addr AddrFits Reads-addr addrs h))

Reads-message : (m : Message) → MessageFits m → Reads (read_u8 >>= decode_tagged) (encode m) m
unfolding decode_tagged encode
Reads-message (hello v ht t p n) h = Reads->>= _ (Reads-u8 1) (Reads-hello v ht t p n h)
Reads-message (ping n) h = Reads->>= _ (Reads-u8 2) (Reads-last ping (Reads-u64 n h))
Reads-message (pong n) h = Reads->>= _ (Reads-u8 3) (Reads-last pong (Reads-u64 n h))
Reads-message (inv b t) (hb, ht) = Reads->>= _ (Reads-u8 4) (Reads-two_hashes inv b t hb ht)
Reads-message (get_data b t) (hb, ht) =
    Reads->>= _ (Reads-u8 5) (Reads-two_hashes get_data b t hb ht)
Reads-message (get_blocks l) h =
    Reads->>= _ (Reads-u8 6) (Reads-last get_blocks (Reads-hashes max_locator l h (omega arith)))
Reads-message (block b) h = Reads->>= _ (Reads-u8 7) (Reads-last block (Reads-block b h))
Reads-message (tx t) h = Reads->>= _ (Reads-u8 8) (Reads-last tx (Reads-tx t h))
Reads-message get_addr h = Reads-silent _ (Reads-u8 9) (Reads-pure get_addr)
Reads-message (addr addrs) h = Reads->>= _ (Reads-u8 10) (Reads-addrs addrs h)
Reads-message unknown h = absurd h

-- An encoded message decodes to itself whatever bytes follow it, for every message within the
-- ranges of its Rust types and the decoder's limits but the sentinel for unknown ones, and with no
-- IPv4-mapped IPv6 address.
pub decode-encode : (m : Message) (rest : List ℕ) → MessageFits m → decode (encode m ++ rest) ≡ ok m
unfolding decode
decode-encode m rest h =
    let (r, e, u) = (Reads-message m h).run (new_reader (encode m ++ rest)) rest refl in
    rw e (unfold result_of in refl)
