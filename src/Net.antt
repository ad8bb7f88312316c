-- ===== src/Net.antt =====
-- What the server and the connections exchange: addresses of `std::net`, `NetworkMessage` of
-- src/server.rs and `UserMessage` of src/connection.rs.
use havok_rust.Base.{ℕ, ◌≡◌, ◌↔◌, Bytes, Bool, true, false, ◌&&◌, Option, ◌==◌, Eq, nat_eq, arith}
use havok_rust.Base.HashMap.{HashMap}

-- `IpAddr`, by the number that the address is.
pub data IpAddr : Type 0 where
  v4 v6 : ℕ → IpAddr

-- `SocketAddr`; the flow label and scope of an IPv6 address are 0 for an IPv4 address.
pub record SocketAddr : Type 0 where
  pub ip : IpAddr
  pub port : ℕ
  pub flowinfo : ℕ
  pub scope_id : ℕ

abbrev pub eq_ip : IpAddr → IpAddr → Bool
eq_ip (v4 a) (v4 b) = a == b
eq_ip (v6 a) (v6 b) = a == b
eq_ip _ _ = false

pub eq_ip_iff : (a b : IpAddr) → (eq_ip a b ≡ true) ↔ (a ≡ b)
eq_ip_iff (v4 a) (v4 b) = ground arith
eq_ip_iff (v6 a) (v6 b) = ground arith
eq_ip_iff _ _ = ground arith

instance abbrev pub ip_eq : Eq IpAddr
ip_eq = record { eq = eq_ip; eq_iff = eq_ip_iff }

abbrev pub eq_addr : SocketAddr → SocketAddr → Bool
eq_addr a b =
    eq_ip a.ip b.ip && (a.port == b.port && (a.flowinfo == b.flowinfo && a.scope_id == b.scope_id))

pub eq_addr_iff : (a b : SocketAddr) → (eq_addr a b ≡ true) ↔ (a ≡ b)
eq_addr_iff a b = ground (arith, eq_ip_iff a.ip b.ip)

instance abbrev pub addr_eq : Eq SocketAddr
addr_eq = record { eq = eq_addr; eq_iff = eq_addr_iff }

-- `struct NetworkMessage`; the field `data` is `payload` here.
pub record NetworkMessage : Type 0 where
  pub dest : SocketAddr
  pub payload : Bytes

-- `struct UserMessage`.
pub record UserMessage : Type 0 where
  pub bytes : Bytes
  pub string : Bytes
  pub jinja : Option (HashMap Bytes Bytes)
