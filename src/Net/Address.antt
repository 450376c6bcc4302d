-- ===== src/Net/Address.antt =====
-- Socket addresses as keys, and sets of keys (`HashSet`), as crates/net/src/node.rs uses them.
use summerpoem_cli.Prelude.{
  ℕ, ◌≡◌, ◌↔◌, Bool, true, false, List, [], ◌∷◌, replicate, ◌==◌, ==_iff, ◌&&◌, not, arith,
}
use summerpoem_cli.Prelude.Equality.{Eq, bytes_eq, bytes_eq_iff}
use summerpoem_cli.Prelude.Dictionary.{Dictionary}
use summerpoem_cli.Net.Message.{IpAddr, v4, v6, SocketAddr}

instance abbrev pub ℕ_Eq : Eq ℕ
ℕ_Eq = record { beq = ◌==◌; beq_iff = ==_iff }

unfoldable pub ip_eq : IpAddr → IpAddr → Bool
ip_eq (v4 a) (v4 b) = bytes_eq a b
ip_eq (v6 a) (v6 b) = bytes_eq a b
ip_eq _ _ = false

pub ip_eq_iff : (a b : IpAddr) → (ip_eq a b ≡ true) ↔ (a ≡ b)
unfolding ip_eq
ip_eq_iff (v4 a) (v4 b) = ground (arith, bytes_eq_iff a b)
ip_eq_iff (v4 a) (v6 b) = ground arith
ip_eq_iff (v6 a) (v4 b) = ground arith
ip_eq_iff (v6 a) (v6 b) = ground (arith, bytes_eq_iff a b)

instance abbrev pub ip_Eq : Eq IpAddr
ip_Eq = record { beq = ip_eq; beq_iff = ip_eq_iff }

unfoldable pub addr_eq : SocketAddr → SocketAddr → Bool
addr_eq a b = ip_eq a.ip b.ip && a.port == b.port

pub addr_eq_iff : (a b : SocketAddr) → (addr_eq a b ≡ true) ↔ (a ≡ b)
unfolding addr_eq
addr_eq_iff a b = ground (arith, ip_eq_iff a.ip b.ip)

instance abbrev pub addr_Eq : Eq SocketAddr
addr_Eq = record { beq = addr_eq; beq_iff = addr_eq_iff }

abbrev pub HashSet : Type 0 → Type 0
HashSet K = Dictionary K (Unit {0})

-- The items of a set, in its own order.
unfoldable pub items : {K : Type 0} → HashSet K → List K
items [] = []
items ((k, _) ∷ s) = k ∷ items s

-- `IpAddr::is_unspecified`, of octets.
unfoldable pub is_unspecified : IpAddr → Bool
is_unspecified (v4 a) = bytes_eq a (replicate 4 0)
is_unspecified (v6 a) = bytes_eq a (replicate 16 0)

-- `a.port() != 0 && !a.ip().is_unspecified()`
unfoldable pub is_reachable : SocketAddr → Bool
is_reachable a = not (a.port == 0) && not (is_unspecified a.ip)
