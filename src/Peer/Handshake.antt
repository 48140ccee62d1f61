-- ===== src/Peer/Handshake.antt =====
-- src/peer.rs: the two sides of the handshake.
use wireguard_rs.Base.{
  ℕ, ◌+◌, Option, none, some, [], ◌∷◌, ok, Error, ok_or, Bytes, take, replicate, copy_at, to_le,
}
use wireguard_rs.Base.Monad.{M, get, modify, try, ensure, ◌>>=◌, ◌>>◌}
use wireguard_rs.Timestamp.{Tai64n, tai64n_lt, timestamp_now}
use wireguard_rs.Types.{Endpoint}
use wireguard_rs.Crates.{Crates}
use wireguard_rs.Noise.{build_initiator, psk_or_zero}
use wireguard_rs.Message.{sender_index, response_noise_bytes}
use wireguard_rs.Cookie.{build_macs, consume_reply}
use wireguard_rs.Peer.Responder.{IncompleteIncomingHandshake}
use wireguard_rs.Peer.{Peer, Session, Sessions, new_session, with_their_index, index_of}

module _ {N : Type 0} where
  -- What becomes of the old `next`.
  unfoldable pub park : Session N → Sessions N → Option (Session N) → Sessions N × Option ℕ
  park session s none = (record s { next = some session }, none)
  park session s (some old) = (record s { next = some session; past = some old }, index_of s.past)

  -- Puts a session into `next`; an old `next` moves to `past`, and the session there is dead.
  unfoldable pub replace_next : Session N → Sessions N → Sessions N × Option ℕ
  unfolding park
  replace_next session s = park session s s.next

  -- `mem::replace` of the sessions, in the monad.
  abbrev pub install_next : Session N → M (Peer N) (Option ℕ)
  install_next session p = (
    record p { sessions = (replace_next session p.sessions).0 },
    ok (replace_next session p.sessions).1,
  )

  -- `ensure!(&timestamp > last_tai64n, …)` where there is a last one.
  abbrev pub newer : Tai64n → Option Tai64n → M (Peer N) (Unit {0})
  newer timestamp none = try (ok tt)
  newer timestamp (some last) = ensure (tai64n_lt last timestamp) Error.handshake_timestamp_earlier

  -- `mem::replace(&mut self.sessions.next, None)`
  abbrev pub take_next : M (Peer N) (Option (Session N))
  take_next p = (record p { sessions = record (p.sessions) { next = none } }, ok p.sessions.next)

  -- The new session becomes current, the old one past; the old past one is dead.
  abbrev pub install_current : Session N → M (Peer N) (Option ℕ)
  install_current session p = (
    record p {
      sessions = record (p.sessions) { current = some session; past = p.sessions.current };
    },
    ok (index_of p.sessions.past),
  )

  -- What a completed handshake leaves on both sides.
  abbrev pub authenticated : ℕ → Endpoint → Peer N → Peer N
  authenticated now addr p = record p {
    info = record (p.info) { endpoint = some addr };
    timers = record (p.timers) {
      authenticated_received = timestamp_now now;
      authenticated_traversed = timestamp_now now;
    };
  }

-- Writes `mac1` and, where there is one, `mac2`.
abbrev pub copy_macs : ℕ → Bytes → Option Bytes → Bytes → Bytes
copy_macs at mac1 none packet = copy_at at mac1 packet
copy_macs at mac1 (some mac2) packet = copy_at (at + 16) mac2 (copy_at at mac1 packet)

module _ {N T : Type 0} (crates : Crates N T) where
  -- `self.cookie.build_macs(&packet[..at])`, and the copies into the packet.
  abbrev pub add_macs : ℕ → ℕ → Bytes → M (Peer N) Bytes
  add_macs now at packet p =
      let (cookie, mac1, mac2) = build_macs crates now (take at packet) p.cookie in
      (record p { cookie = cookie }, ok (copy_macs at mac1 mac2 packet))

  -- `tai64n` is `Tai64n::now()`.
  unfoldable pub initiate_new_session :
      ℕ → Tai64n → Bytes → ℕ → M (Peer N) (Endpoint × Bytes × Option ℕ)
  initiate_new_session now tai64n private_key index = do
    p ← get
    noise ← try (build_initiator crates private_key p.info.pub_key p.info.psk)
    endpoint ← try (ok_or p.info.endpoint Error.no_known_peer_endpoint)
    let header = copy_at 4 (to_le 4 index) (copy_at 0 (1 ∷ []) (replicate 148 0))
    let written = crates.write_message noise tai64n.tai64n 140
    message ← try (written.1)
    packet ← add_macs now 116 (copy_at 8 message header)
    dead_index ← install_next (new_session (written.0) index)
    try (ok (endpoint, packet, dead_index))

  -- The response, and the session after writing it.
  unfoldable pub get_response_packet : ℕ → Session N → M (Peer N) (Bytes × Session N)
  get_response_packet now session = do
    let header =
        copy_at 8 (to_le 4 session.their_index)
          (copy_at 4 (to_le 4 session.our_index) (copy_at 0 (2 ∷ []) (replicate 92 0)))
    let written = crates.write_message session.noise [] 80
    message ← try (written.1)
    packet ← add_macs now 60 (copy_at 12 message header)
    try (ok (packet, record session { noise = written.0 }))

  abbrev pub into_transport : Session N → M (Peer N) (Session N)
  into_transport session = do
    noise ← try (crates.into_transport_mode session.noise)
    try (ok (record session { noise = noise }))

  unfoldable pub complete_incoming_handshake :
      ℕ → Endpoint → ℕ → IncompleteIncomingHandshake N → M (Peer N) (Bytes × Option ℕ)
  complete_incoming_handshake now addr index incomplete = do
    p ← get
    newer incomplete.timestamp p.last_handshake_tai64n
    let keyed = crates.set_psk incomplete.noise 2 (psk_or_zero p.info.psk)
    _ ← try (keyed.1)
    let next_session = record (with_their_index (keyed.0) index incomplete.their_index) {
      birthday = timestamp_now now;
    }
    response ← get_response_packet now next_session
    transport ← into_transport (response.1)
    dead_index ← install_next transport
    modify (λ q. record (authenticated now addr q) {
      last_handshake_tai64n = some incomplete.timestamp;
    })
    try (ok (response.0, dead_index))

  -- `cookie.consume_reply`
  unfoldable pub consume_cookie_reply : ℕ → Bytes → M (Peer N) (Unit {0})
  consume_cookie_reply now reply p =
      let consumed = consume_reply crates now reply p.cookie in
      (record p { cookie = consumed.0 }, consumed.1)

  unfoldable pub process_incoming_handshake_response : ℕ → Endpoint → Bytes → M (Peer N) (Option ℕ)
  process_incoming_handshake_response now addr packet = do
    old_next ← take_next
    session ← try (ok_or old_next Error.no_next_session)
    let read = crates.read_message session.noise (response_noise_bytes packet) 0
    _ ← try (read.1)
    transport ← into_transport (record session { noise = read.0 })
    modify (λ p. record (authenticated now addr p) {
      timers = record ((authenticated now addr p).timers) {
        handshake_completed = timestamp_now now;
      };
    })
    install_current
        (record transport { their_index = sender_index packet; birthday = timestamp_now now })
