-- ===== src/Crates.antt =====
-- What the program uses of third-party crates: snow, blake2-rfc, chacha20-poly1305-aead,
-- x25519-dalek, rips-packets and treebitmap. A session of snow is an `N`, a routing table a `T`.
pub mod Laws
pub mod Sample
use wireguard_rs.Base.{ℕ, ◌≡◌, List, Option, Result, ok, Bytes, length, Bool}

-- What the program reads of a packet that rips-packets has parsed.
pub record Ipv4Packet : Type 0 where
  pub source : Bytes
  pub destination : Bytes
  pub total_length : ℕ

pub record Ipv6Packet : Type 0 where
  pub source : Bytes
  pub destination : Bytes
  pub payload_length : ℕ

-- A method of snow that takes `&mut self` gives the session afterwards, also where it fails.
-- `write_message session payload room` fails where the message would not fit `room` bytes.
pub record Crates (N T : Type 0) : Type 0 where
  pub build_initiator : Bytes → Bytes → Bytes → Result N
  pub build_responder : Bytes → Result N
  pub set_psk : N → ℕ → Bytes → N × Result (Unit {0})
  pub write_message : N → Bytes → ℕ → N × Result Bytes
  pub read_message : N → Bytes → ℕ → N × Result Bytes
  pub into_transport_mode : N → Result N
  pub is_handshake_finished : N → Bool
  pub sending_nonce : N → Result ℕ
  pub set_receiving_nonce : N → ℕ → N × Result (Unit {0})
  pub get_remote_static : N → Option Bytes
  pub blake2s : ℕ → Bytes → Bytes → Bytes
  pub aead_encrypt : Bytes → Bytes → Bytes → Bytes → Result (Bytes × Bytes)
  pub aead_decrypt : Bytes → Bytes → Bytes → Bytes → Bytes → Result Bytes
  pub generate_public : Bytes → Bytes
  pub ipv4_packet : Bytes → Option Ipv4Packet
  pub ipv6_packet : Bytes → Option Ipv6Packet
  pub empty_table : T
  pub table_insert : T → Bytes → ℕ → ℕ → T
  pub table_remove : T → Bytes → ℕ → T
  pub longest_match : T → Bytes → Option ℕ
