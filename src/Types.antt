-- ===== src/Types.antt =====
-- src/types.rs and the addresses of src/udp/mod.rs: what is configured of a peer and an interface.
use wireguard_rs.Base.{
  ℕ, ◌*◌, ◌≡◌, Bool, true, false, ◌↔◌, Option, none, some, List, [], ltb, if◌then◌else◌, Eq, Bytes,
  bytes_eq, bytes_eq_iff, replicate, arith,
}
use wireguard_rs.Consts.{second}

-- `IpAddr`, by its octets.
pub data IpAddr : Type 0 where
  v4 : Bytes → IpAddr
  v6 : Bytes → IpAddr

abbrev pub ip_eq : IpAddr → IpAddr → Bool
ip_eq (v4 a) (v4 b) = bytes_eq a b
ip_eq (v4 a) (v6 b) = false
ip_eq (v6 a) (v4 b) = false
ip_eq (v6 a) (v6 b) = bytes_eq a b

pub ip_eq_iff : (a b : IpAddr) → (ip_eq a b ≡ true) ↔ (a ≡ b)
ip_eq_iff (v4 a) (v4 b) = ground (arith, bytes_eq_iff a b)
ip_eq_iff (v4 a) (v6 b) = ground arith
ip_eq_iff (v6 a) (v4 b) = ground arith
ip_eq_iff (v6 a) (v6 b) = ground (arith, bytes_eq_iff a b)

instance abbrev pub eq_ip : Eq IpAddr
eq_ip = record { beq = ip_eq; beq_iff = ip_eq_iff }

abbrev pub octets : IpAddr → Bytes
octets (v4 a) = a
octets (v6 a) = a

pub record SocketAddr : Type 0 where
  pub ip : IpAddr
  pub port : ℕ

-- An address with the local address that packets from it came in by. The constructor of the source
-- follows the kind of the address; `pktinfo` is a structure of libc, kept as its bytes.
pub data Endpoint : Type 0 where
  ep4 : SocketAddr → Option Bytes → Endpoint
  ep6 : SocketAddr → Option Bytes → Endpoint

abbrev pub addr : Endpoint → SocketAddr
addr (ep4 sock _) = sock
addr (ep6 sock _) = sock

abbrev pub to_cleared_pktinfo : Endpoint → Endpoint
to_cleared_pktinfo (ep4 sock _) = ep4 sock none
to_cleared_pktinfo (ep6 sock _) = ep6 sock none

abbrev pub endpoint_of : IpAddr → SocketAddr → Endpoint
endpoint_of (v4 _) sock = ep4 sock none
endpoint_of (v6 _) sock = ep6 sock none

-- `Endpoint::from(addr)`
abbrev pub from_addr : SocketAddr → Endpoint
from_addr sock = endpoint_of sock.ip sock

pub record PeerInfo : Type 0 where
  pub pub_key : Bytes
  pub psk : Option Bytes
  pub endpoint : Option Endpoint
  pub allowed_ips : List (IpAddr × ℕ)
  pub keepalive : Option ℕ

-- `PeerInfo::default`
abbrev pub default_info : PeerInfo
default_info = record {
  pub_key = replicate 32 0;
  psk = none;
  endpoint = none;
  allowed_ips = [];
  keepalive = none;
}

abbrev pub keepalive_duration : Option ℕ → Option ℕ
keepalive_duration none = none
keepalive_duration (some keepalive) = if ltb 0 keepalive then some (keepalive * second) else none

abbrev pub persistent_keepalive : PeerInfo → Option ℕ
persistent_keepalive info = keepalive_duration info.keepalive

pub record InterfaceInfo : Type 0 where
  pub private_key : Option Bytes
  pub pub_key : Option Bytes
  pub listen_port : Option ℕ
  pub fwmark : Option ℕ
