-- ===== src/IpPacket.antt =====
-- src/ip_packet.rs: the version nibble chooses the parser.
use wireguard_rs.Base.{
  ℕ, ◌+◌, ◌/◌, ◌%◌, ◌^◌, Option, none, some, [], ◌∷◌, Bytes, ◌==◌, if◌then◌else◌,
}
use wireguard_rs.Crates.{Crates, Ipv4Packet, Ipv6Packet}
use wireguard_rs.Types.{IpAddr}

pub data IpPacket : Type 0 where
  v4 : Ipv4Packet → IpPacket
  v6 : Ipv6Packet → IpPacket

abbrev map_v4 : Option Ipv4Packet → Option IpPacket
map_v4 none = none
map_v4 (some p) = some (v4 p)

abbrev map_v6 : Option Ipv6Packet → Option IpPacket
map_v6 none = none
map_v6 (some p) = some (v6 p)

module _ {N T : Type 0} (crates : Crates N T) where
  unfoldable pub new : Bytes → Option IpPacket
  new [] = none
  new (first ∷ rest) =
      if first / 16 == 4
      then map_v4 (crates.ipv4_packet (first ∷ rest))
      else if first / 16 == 6
      then map_v6 (crates.ipv6_packet (first ∷ rest))
      else none

abbrev pub source : IpPacket → IpAddr
source (v4 p) = IpAddr.v4 p.source
source (v6 p) = IpAddr.v6 p.source

abbrev pub destination : IpPacket → IpAddr
destination (v4 p) = IpAddr.v4 p.destination
destination (v6 p) = IpAddr.v6 p.destination

-- `40 + payload_length` is an addition of `u16`, which wraps in a release build.
abbrev pub length : IpPacket → ℕ
length (v4 p) = p.total_length
length (v6 p) = (40 + p.payload_length) % 2 ^ 16
