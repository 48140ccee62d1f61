-- ===== src/Router.antt =====
-- src/router.rs: the allowed IPs of all peers, in two tables of treebitmap. A peer is the number of
-- its `Rc`, and two are compared by their public keys.
use wireguard_rs.Base.{ℕ, Option, none, some, List, [], ◌∷◌, Result, Error, ok_or, Bytes, bytes_eq}
use wireguard_rs.Base.Fallible.{◌>>=◌, ensure}
use wireguard_rs.Crates.{Crates}
use wireguard_rs.Types.{IpAddr, v4, v6}
use wireguard_rs.IpPacket.{IpPacket, source, destination}
use wireguard_rs.IpPacket

pub record Router (T : Type 0) : Type 0 where
  pub ip4_map : T
  pub ip6_map : T

module _ {N T : Type 0} (crates : Crates N T) where
  abbrev pub default_router : Router T
  default_router = record { ip4_map = crates.empty_table; ip6_map = crates.empty_table }

  unfoldable pub add_allowed_ip : IpAddr → ℕ → ℕ → Router T → Router T
  add_allowed_ip (v4 addr) mask peer r = record r {
    ip4_map = crates.table_insert r.ip4_map addr mask peer;
  }
  add_allowed_ip (v6 addr) mask peer r = record r {
    ip6_map = crates.table_insert r.ip6_map addr mask peer;
  }

  unfoldable pub add_allowed_ips : List (IpAddr × ℕ) → ℕ → Router T → Router T
  unfolding add_allowed_ip
  add_allowed_ips [] peer r = r
  add_allowed_ips ((addr, mask) ∷ ips) peer r =
      add_allowed_ips ips peer (add_allowed_ip addr mask peer r)

  unfoldable pub remove_allowed_ip : IpAddr → ℕ → Router T → Router T
  remove_allowed_ip (v4 addr) mask r = record r {
    ip4_map = crates.table_remove r.ip4_map addr mask;
  }
  remove_allowed_ip (v6 addr) mask r = record r {
    ip6_map = crates.table_remove r.ip6_map addr mask;
  }

  unfoldable pub remove_allowed_ips : List (IpAddr × ℕ) → Router T → Router T
  unfolding remove_allowed_ip
  remove_allowed_ips [] r = r
  remove_allowed_ips ((addr, mask) ∷ ips) r = remove_allowed_ips ips (remove_allowed_ip addr mask r)

  abbrev pub clear : Router T → Router T
  clear r = record { ip4_map = crates.empty_table; ip6_map = crates.empty_table }

  unfoldable pub get_peer_from_ip : IpAddr → Router T → Option ℕ
  get_peer_from_ip (v4 ip) r = crates.longest_match r.ip4_map ip
  get_peer_from_ip (v6 ip) r = crates.longest_match r.ip6_map ip

  -- What both uses of a parsed packet do: look one of its addresses up.
  pub lookup_packet : (IpPacket → IpAddr) → Option IpPacket → Router T → Option ℕ
  unfolding get_peer_from_ip
  lookup_packet side none r = none
  lookup_packet side (some packet) r = get_peer_from_ip (side packet) r

  unfoldable pub route_to_peer : Bytes → Router T → Option ℕ
  unfolding lookup_packet
  route_to_peer packet r = lookup_packet destination (IpPacket.new crates packet) r

  -- `key_of` gives the public key of a peer.
  unfoldable pub validate_source : (ℕ → Bytes) → Bytes → ℕ → Router T → Result (Unit {0})
  unfolding lookup_packet
  validate_source key_of packet peer r = do
    routed_peer ←
        ok_or (lookup_packet source (IpPacket.new crates packet) r) Error.no_peer_found_on_route
    ensure (bytes_eq (key_of routed_peer) (key_of peer)) Error.peer_mismatch
