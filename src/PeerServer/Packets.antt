-- ===== src/PeerServer/Packets.antt =====
-- src/interface/peer_server.rs: packets from the network and from the tunnel device.
use wireguard_rs.Base.{
  ℕ, Bool, true, false, not, ◌&&◌, List, [], ◌∷◌, ◌++◌, Result, ok, err, Error, ok_or, Bytes,
  eq_nat, length, leb, if◌then◌else◌,
}
use wireguard_rs.Base.Maps.{lookup}
use wireguard_rs.Base.Monad.{M, get, modify, try, pure, ensure, attempt, ◌>>=◌, ◌>>◌}
use wireguard_rs.Consts.{wipe_after_time, max_content_size}
use wireguard_rs.Types.{Endpoint}
use wireguard_rs.Crates.{Crates}
use wireguard_rs.Message.{
  Message, initiation, response, cookie_reply, transport, try_from, our_index,
}
use wireguard_rs.Router.{route_to_peer, validate_source}
use wireguard_rs.Timer.{wipe}
use wireguard_rs.Utun.{UtunPacket, utun_payload}
use wireguard_rs.Peer.{
  SessionTransition, no_transition, transition, queue_egress, needs_new_handshake,
  ready_for_transport,
}
use wireguard_rs.Peer.Transport.{handle_incoming_transport, handle_outgoing_transport, is_empty}
use wireguard_rs.PeerServer.{
  PeerServer, Inputs, with_state, with_peer, read_peer, change_peer, send_to_peer, send_to_tunnel,
  send_after, remove_dead,
}
use wireguard_rs.PeerServer.Handshakes.{send_handshake_init, flush_queue}

module _ {N T : Type 0} (crates : Crates N T) where
  unfoldable pub send_encrypted : Result (Endpoint × Bytes) → M (PeerServer N T) (Unit {0})
  send_encrypted (ok message) = send_to_peer message
  send_encrypted (err e) = pure tt

  -- `for packet in outgoing`: a packet that cannot be encrypted is dropped, and the loop goes on.
  unfoldable pub send_drained : ℕ → ℕ → List UtunPacket → M (PeerServer N T) (Unit {0})
  unfolding send_encrypted
  send_drained now peer_ref [] = pure tt
  send_drained now peer_ref (packet ∷ rest) = do
    result ←
        attempt (with_peer peer_ref (handle_outgoing_transport crates now (utun_payload packet)))
    send_encrypted result
    send_drained now peer_ref rest

  unfoldable pub handle_transition : ℕ → ℕ → SessionTransition → M (PeerServer N T) (Unit {0})
  unfolding send_drained
  handle_transition now peer_ref no_transition = pure tt
  handle_transition now peer_ref (transition dead_index) = do
    with_state (remove_dead dead_index)
    s ← get
    change_peer peer_ref (λ p. record p { outgoing_queue = [] })
    send_drained now peer_ref (s.peers peer_ref).outgoing_queue
    _ ← send_after now wipe_after_time (wipe peer_ref)
    pure tt

  -- A handshake that is due, with its errors.
  abbrev pub handshake_if : Bool → Inputs → ℕ → M (PeerServer N T) (Unit {0})
  handshake_if true inputs peer_ref = do _ ← send_handshake_init crates inputs peer_ref; pure tt
  handshake_if false inputs peer_ref = pure tt

  -- Keepalives stop here; other packets must come from an allowed source.
  unfoldable pub deliver : ℕ → Bytes → M (PeerServer N T) (Unit {0})
  deliver peer_ref raw_packet = do
    s ← get
    if is_empty raw_packet then pure tt else (do
      _ ← try (
          validate_source crates (λ r. (s.peers r).info.pub_key) raw_packet peer_ref s.state.router)
      send_to_tunnel raw_packet)

  unfoldable pub handle_ingress_transport :
      Inputs → Endpoint → Bytes → M (PeerServer N T) (Unit {0})
  unfolding handle_transition deliver
  handle_ingress_transport inputs from packet = do
    s ← get
    peer_ref ← try (ok_or (lookup (our_index packet) s.state.index_map) Error.unknown_our_index)
    received ← with_peer peer_ref (handle_incoming_transport crates inputs.now from packet)
    handle_transition inputs.now peer_ref (received.1)
    needs_handshake ← read_peer peer_ref (needs_new_handshake crates inputs.now false)
    handshake_if needs_handshake inputs peer_ref
    deliver peer_ref (received.0)

  unfoldable pub queue_ingress_handshake : Endpoint → Message → M (PeerServer N T) (Unit {0})
  queue_ingress_handshake from message =
      modify (λ s. record s { handshakes = s.handshakes ++ (from, message) ∷ [] })

  unfoldable pub route_message : Inputs → Endpoint → Message → M (PeerServer N T) (Unit {0})
  unfolding handle_ingress_transport queue_ingress_handshake
  route_message inputs from (transport packet) = handle_ingress_transport inputs from packet
  route_message inputs from (initiation packet) = queue_ingress_handshake from (initiation packet)
  route_message inputs from (response packet) = queue_ingress_handshake from (response packet)
  route_message inputs from (cookie_reply packet) =
      queue_ingress_handshake from (cookie_reply packet)

  unfoldable pub handle_ingress_packet : Inputs → Endpoint → Bytes → M (PeerServer N T) (Unit {0})
  unfolding route_message
  handle_ingress_packet inputs from packet = do
    message ← try (try_from packet)
    route_message inputs from message

  unfoldable pub handle_egress_packet : Inputs → UtunPacket → M (PeerServer N T) (Unit {0})
  handle_egress_packet inputs packet = do
    ensure
        (not (is_empty (utun_payload packet))
          && leb (length (utun_payload packet)) max_content_size)
        Error.egress_size
    s ← get
    peer_ref ←
        try
          (ok_or (route_to_peer crates (utun_payload packet) s.state.router) Error.no_route_to_peer)
    needs_handshake ← read_peer peer_ref (needs_new_handshake crates inputs.now true)
    change_peer peer_ref (queue_egress packet)
    ready ← read_peer peer_ref (ready_for_transport crates inputs.now)
    s' ← get
    if ready
        then flush_queue crates inputs.now peer_ref (s'.peers peer_ref).outgoing_queue
        else pure tt
    handshake_if needs_handshake inputs peer_ref
