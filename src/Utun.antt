-- ===== src/Utun.antt =====
-- Packets of the tunnel device, of src/interface/mod.rs.
use wireguard_rs.Base.{◌/◌, [], ◌∷◌, Result, ok, err, Error, Bytes, drop, ◌==◌, if◌then◌else◌}

pub data UtunPacket : Type 0 where
  inet4 : Bytes → UtunPacket
  inet6 : Bytes → UtunPacket

abbrev pub utun_payload : UtunPacket → Bytes
utun_payload (inet4 payload) = payload
utun_payload (inet6 payload) = payload

-- The version nibble of the first byte; both callers index it, and panic where there is none.
unfoldable pub from : Bytes → Result UtunPacket
from [] = err Error.panicked
from (first ∷ rest) =
    if first / 16 == 4
    then ok (inet4 (first ∷ rest))
    else if first / 16 == 6
    then ok (inet6 (first ∷ rest))
    else err Error.unrecognized_ip_version

-- `VecUtunCodec::decode` skips the four bytes that the device puts in front.
unfoldable pub decode : Bytes → Result UtunPacket
unfolding from
decode buf = from (drop 4 buf)
