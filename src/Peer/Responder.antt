-- ===== src/Peer/Responder.antt =====
-- src/peer.rs: reading a handshake initiation, before the peer that it is for is known.
use wireguard_rs.Base.{ℕ, Result, ok, Error, ok_or, Bytes, length, ◌==◌}
use wireguard_rs.Base.Fallible.{◌>>=◌, ◌>>◌, ensure}
use wireguard_rs.Timestamp.{Tai64n}
use wireguard_rs.Crates.{Crates}
use wireguard_rs.Noise.{build_responder}
use wireguard_rs.Message.{sender_index, initiation_noise_bytes}

pub record IncompleteIncomingHandshake (N : Type 0) : Type 0 where
  pub their_index : ℕ
  pub timestamp : Tai64n
  pub noise : N

module _ {N T : Type 0} (crates : Crates N T) where
  -- `noise.get_remote_static().expect(…)`
  unfoldable pub their_pubkey : IncompleteIncomingHandshake N → Result Bytes
  their_pubkey h = ok_or (crates.get_remote_static h.noise) Error.panicked

  unfoldable pub process_incoming_handshake : Bytes → Bytes → Result (IncompleteIncomingHandshake N)
  process_incoming_handshake private_key packet = do
    noise ← build_responder crates private_key
    let read = crates.read_message noise (initiation_noise_bytes packet) 12
    timestamp ← read.1
    ensure (length timestamp == 12) Error.incorrect_payload_length
    ok (record {
      their_index = sender_index packet;
      timestamp = record { tai64n = timestamp };
      noise = read.0;
    })
