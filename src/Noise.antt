-- ===== src/Noise.antt =====
-- src/noise.rs: how the sessions of snow are set up.
use wireguard_rs.Base.{Option, none, some, Result, Bytes, replicate}
use wireguard_rs.Crates.{Crates}

-- `psk.unwrap_or_else(|| [0u8; 32])`
abbrev pub psk_or_zero : Option Bytes → Bytes
psk_or_zero none = replicate 32 0
psk_or_zero (some psk) = psk

module _ {N T : Type 0} (crates : Crates N T) where
  abbrev pub build_initiator : Bytes → Bytes → Option Bytes → Result N
  build_initiator local_privkey remote_pubkey psk =
      crates.build_initiator local_privkey remote_pubkey (psk_or_zero psk)

  abbrev pub build_responder : Bytes → Result N
  build_responder local_privkey = crates.build_responder local_privkey
