-- ===== src/Peer/Transport.antt =====
-- src/peer.rs: data packets in both directions.
use wireguard_rs.Base.{
  ℕ, ◌+◌, ◌-◌, ◌%◌, ◌^◌, Bool, true, false, none, some, [], ◌∷◌, ◌++◌, Result, ok, Error, ok_or,
  Bytes, length, take, replicate, copy_at, to_le, ltb, ◌==◌, if◌then◌else◌,
}
use wireguard_rs.Base.Fallible
use wireguard_rs.Base.Monad.{M, get, modify, try, ensure, ◌>>=◌, ◌>>◌}
use wireguard_rs.Consts.{
  reject_after_messages, reject_after_time, padding_multiple, transport_overhead,
  transport_header_size,
}
use wireguard_rs.Timestamp.{timestamp_now, elapsed}
use wireguard_rs.Types.{Endpoint}
use wireguard_rs.Crates.{Crates}
use wireguard_rs.IpPacket.{IpPacket}
use wireguard_rs.IpPacket
use wireguard_rs.AntiReplay
use wireguard_rs.Message.{our_index, nonce, payload}
use wireguard_rs.Peer.{
  Peer, Session, SessionType, SessionTransition, no_transition, transition, index_of, find_session,
  put_session,
}

abbrev pub is_empty : Bytes → Bool
is_empty [] = true
is_empty (b ∷ bs) = false

-- A method of the session that `find_session` lends: its changes stay in the peer.
abbrev pub put_back :
    {N A : Type 0} → SessionType → Peer N → Session N × Result A → Peer N × Result A
put_back kind p (session, result) = (put_session kind session p, result)

abbrev pub with_session : {N A : Type 0} → SessionType → Session N → M (Session N) A → M (Peer N) A
with_session kind session m p = put_back kind p (m session)

abbrev pub padding : ℕ → ℕ
padding len = if len % padding_multiple == 0 then 0 else padding_multiple - len % padding_multiple

-- The 16 bytes of the header, in a buffer of `room` bytes.
unfoldable pub header : ℕ → ℕ → ℕ → Bytes
header their_index n room =
    copy_at 8 (to_le 8 n) (copy_at 4 (to_le 4 their_index) (copy_at 0 (4 ∷ []) (replicate room 0)))

module _ {N : Type 0} where
  -- `session.anti_replay.update(nonce)?`
  abbrev pub update_anti_replay : ℕ → M (Session N) (Unit {0})
  update_anti_replay n session =
      let updated = AntiReplay.update session.anti_replay n in
      (record session { anti_replay = updated.0 }, updated.1)

  -- The timers after an authenticated packet.
  unfoldable pub note_received : ℕ → Bytes → Peer N → Peer N
  note_received now raw_packet p = record p {
    timers = record (p.timers) {
      data_received = if is_empty raw_packet then p.timers.data_received else timestamp_now now;
      authenticated_received = timestamp_now now;
      authenticated_traversed = timestamp_now now;
      keepalive_sent = false;
    };
  }

  -- The first packet of the next session makes it the current one.
  unfoldable pub rotate : ℕ → SessionType → Peer N → Peer N × SessionTransition
  rotate now SessionType.past p = (p, no_transition)
  rotate now SessionType.current p = (p, no_transition)
  rotate now SessionType.next p = (
    record p {
      sessions = record { next = none; current = p.sessions.next; past = p.sessions.current };
      timers = record (p.timers) { handshake_completed = timestamp_now now };
    },
    transition (index_of p.sessions.past),
  )

  abbrev pub rotated : ℕ → SessionType → M (Peer N) SessionTransition
  rotated now kind p = ((rotate now kind p).0, ok (rotate now kind p).1)

  unfoldable pub note_sent : ℕ → Bytes → ℕ → Peer N → Peer N
  note_sent now packet len p = record p {
    tx_bytes = (p.tx_bytes + len) % 2 ^ 64;
    timers = record (p.timers) {
      data_sent = if is_empty packet then p.timers.data_sent else timestamp_now now;
      authenticated_traversed = timestamp_now now;
    };
  }

module _ {N T : Type 0} (crates : Crates N T) where
  -- A call on the noise state of the session, which changes it also where it fails.
  abbrev pub set_noise : {A : Type 0} → Session N → N × Result A → Session N × Result A
  set_noise session (noise, result) = (record session { noise = noise }, result)

  abbrev pub set_receiving_nonce : ℕ → M (Session N) (Unit {0})
  set_receiving_nonce n session = set_noise session (crates.set_receiving_nonce session.noise n)

  abbrev pub read_message : Bytes → ℕ → M (Session N) Bytes
  read_message bytes room session = set_noise session (crates.read_message session.noise bytes room)

  abbrev pub write_message : Bytes → ℕ → M (Session N) Bytes
  write_message bytes room session =
      set_noise session (crates.write_message session.noise bytes room)

  -- The buffer has the length of the whole message: the plaintext, then zeros. It is cut to the
  -- length that the IP header claims.
  unfoldable pub truncated : Bytes → ℕ → Result Bytes
  truncated [] room = ok []
  truncated (b ∷ bs) room =
      Fallible.◌>>=◌ (ok_or (IpPacket.new crates (b ∷ bs)) Error.invalid_ip_packet)
        λ ip. ok (take (IpPacket.length ip) ((b ∷ bs) ++ replicate (room - length (b ∷ bs)) 0))

  -- The checks on a session and the decryption, in the order of the source.
  unfoldable pub receive : ℕ → Bytes → M (Session N) Bytes
  receive now packet = do
    session ← get
    ensure (crates.is_handshake_finished session.noise) Error.session_not_ready
    ensure (ltb (nonce packet) reject_after_messages) Error.exceeded_reject_after_messages
    ensure (ltb (elapsed now session.birthday) reject_after_time) Error.exceeded_reject_after_time
    update_anti_replay (nonce packet)
    set_receiving_nonce (nonce packet)
    plaintext ← read_message (payload packet) (length packet)
    try (truncated plaintext (length packet))

  unfoldable pub handle_incoming_transport :
      ℕ → Endpoint → Bytes → M (Peer N) (Bytes × SessionTransition)
  unfolding receive truncated note_received rotate
  handle_incoming_transport now addr packet = do
    p ← get
    found ← try (ok_or (find_session (our_index packet) p) Error.no_session_with_index)
    raw_packet ← with_session (found.1) (found.0) (receive now packet)
    modify (note_received now raw_packet)
    moved ← rotated now (found.1)
    modify (λ q. record q {
      rx_bytes = (q.rx_bytes + length packet) % 2 ^ 64;
      info = record (q.info) { endpoint = some addr };
    })
    try (ok (raw_packet, moved))

  -- The packet, and the length of the encrypted part.
  unfoldable pub send : ℕ → Bytes → M (Session N) (Bytes × ℕ)
  unfolding header
  send now packet = do
    session ← get
    let padded_len = length packet + padding (length packet)
    n ← try (crates.sending_nonce session.noise)
    ensure (ltb n reject_after_messages) Error.exceeded_reject_after_messages
    ensure (ltb (elapsed now session.birthday) reject_after_time) Error.exceeded_reject_after_time
    message ←
        write_message (packet ++ replicate (padding (length packet)) 0)
          (padded_len + transport_overhead - 16)
    let out_packet =
        copy_at 16 message (header session.their_index n (padded_len + transport_overhead))
    try (ok (take (transport_header_size + length message) out_packet, length message))

  unfoldable pub handle_outgoing_transport : ℕ → Bytes → M (Peer N) (Endpoint × Bytes)
  unfolding send note_sent
  handle_outgoing_transport now packet = do
    p ← get
    session ← try (ok_or p.sessions.current Error.no_current_session)
    endpoint ← try (ok_or p.info.endpoint Error.no_known_peer_endpoint)
    sent ← with_session SessionType.current session (send now packet)
    modify (note_sent now packet (sent.1))
    try (ok (endpoint, sent.0))
