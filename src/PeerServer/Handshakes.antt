-- ===== src/PeerServer/Handshakes.antt =====
-- src/interface/peer_server.rs: handshake messages in, and initiations out.
use wireguard_rs.Base.{
  ℕ, Bool, not, List, [], ◌∷◌, Result, ok, Error, ok_or, is_ok, Bytes, eq_nat, eq_bytes, take, drop,
  ltb, if◌then◌else◌,
}
use wireguard_rs.Base.Maps.{lookup}
use wireguard_rs.Base.Monad.{M, get, try, fail, pure, ensure, ◌>>=◌, ◌>>◌}
use wireguard_rs.Consts.{rekey_timeout, wipe_after_time}
use wireguard_rs.Timestamp.{elapsed, timestamp_now}
use wireguard_rs.Types.{Endpoint, addr, octets, IpAddr}
use wireguard_rs.Crates.{Crates}
use wireguard_rs.Message.{
  Message, initiation, response, cookie_reply, transport, sender_index, initiation_mac1,
  response_mac1, read_u32, reply_receiver_index,
}
use wireguard_rs.Cookie.{verify_mac1, verify_mac2, generate_reply, Validator}
use wireguard_rs.RateLimiter.{allow}
use wireguard_rs.Timer.{rekey, wipe}
use wireguard_rs.Utun.{UtunPacket, utun_payload}
use wireguard_rs.Peer.{ready_for_transport}
use wireguard_rs.Peer.Responder.{process_incoming_handshake, their_pubkey}
use wireguard_rs.Peer.Handshake.{
  initiate_new_session, complete_incoming_handshake, process_incoming_handshake_response,
  consume_cookie_reply,
}
use wireguard_rs.Peer.Transport.{handle_outgoing_transport}
use wireguard_rs.PeerServer.{
  PeerServer, Inputs, with_state, with_peer, read_peer, change_peer, send_to_peer, unused_index,
  send_after, under_load, remove_dead, insert_index,
}

module _ {N T : Type 0} (crates : Crates N T) where
  abbrev put_cookie :
      {A : Type 0} → PeerServer N T → Validator × Result A → PeerServer N T × Result A
  put_cookie s (cookie, result) = (record s { cookie = cookie }, result)

  unfoldable pub send_cookie_reply : Inputs → Endpoint → Bytes → ℕ → M (PeerServer N T) (Unit {0})
  send_cookie_reply inputs from mac1 index = do
    s ← get
    reply ← λ s. put_cookie s (
        generate_reply crates inputs.now inputs.secret inputs.reply_nonce index mac1
          (octets (addr from).ip) s.cookie)
    send_to_peer (from, reply)

  abbrev rate_limited : ℕ → IpAddr → M (PeerServer N T) Bool
  rate_limited now ip s = (
    record s { rate_limiter = (allow now ip s.rate_limiter).0 },
    ok (allow now ip s.rate_limiter).1,
  )

  -- What both handlers do under load: check `mac2`, answer with a cookie, or ask the rate limiter.
  unfoldable pub admit_under_load :
      Inputs → Endpoint → Bytes → Bytes → M (PeerServer N T) (Unit {0})
  unfolding send_cookie_reply
  admit_under_load inputs from packet mac1 = do
    s ← get
    if is_ok (verify_mac2 crates inputs.now s.cookie packet (octets (addr from).ip))
        then (do
          allowed ← rate_limited inputs.now (addr from).ip
          ensure allowed Error.rejected_by_rate_limiter)
        else (do
          send_cookie_reply inputs from mac1 (sender_index packet)
          fail Error.cookie_request_sent)

  -- `mac1` is checked first; `at` is where it stands.
  unfoldable pub admit : Inputs → Endpoint → ℕ → Bytes → Bytes → M (PeerServer N T) (Unit {0})
  unfolding admit_under_load
  admit inputs from at packet mac1 = do
    s ← get
    _ ← try (verify_mac1 crates s.cookie (take at packet) (take 16 (drop at packet)))
    loaded ← under_load inputs.now
    if loaded then admit_under_load inputs from packet mac1 else pure tt

  unfoldable pub handle_ingress_handshake_init :
      Inputs → Endpoint → Bytes → M (PeerServer N T) (Unit {0})
  unfolding admit
  handle_ingress_handshake_init inputs from packet = do
    admit inputs from 116 packet (initiation_mac1 packet)
    s ← get
    private_key ← try (ok_or s.state.interface_info.private_key Error.no_private_key)
    handshake ← try (process_incoming_handshake crates private_key packet)
    pubkey ← try (their_pubkey crates handshake)
    peer_ref ← try (ok_or (lookup pubkey s.state.pubkey_map) Error.unknown_peer_pubkey)
    index ← unused_index inputs.draws
    completed ←
        with_peer peer_ref (complete_incoming_handshake crates inputs.now from index handshake)
    with_state (remove_dead (completed.1))
    with_state (insert_index index peer_ref)
    send_to_peer (from, completed.0)

  -- `while let Some(packet) = peer.outgoing_queue.pop_front()`, on the queue that is left.
  unfoldable pub flush_queue : ℕ → ℕ → List UtunPacket → M (PeerServer N T) (Unit {0})
  flush_queue now peer_ref [] = pure tt
  flush_queue now peer_ref (packet ∷ rest) = do
    change_peer peer_ref (λ p. record p { outgoing_queue = rest })
    message ← with_peer peer_ref (handle_outgoing_transport crates now (utun_payload packet))
    send_to_peer message
    flush_queue now peer_ref rest

  -- The first packets of a new session: the queued ones, or else a keepalive.
  unfoldable pub confirm_session : ℕ → ℕ → List UtunPacket → M (PeerServer N T) (Unit {0})
  unfolding flush_queue
  confirm_session now peer_ref [] = do
    message ← with_peer peer_ref (handle_outgoing_transport crates now [])
    send_to_peer message
  confirm_session now peer_ref (packet ∷ rest) = flush_queue now peer_ref (packet ∷ rest)

  unfoldable pub handle_ingress_handshake_resp :
      Inputs → Endpoint → Bytes → M (PeerServer N T) (Unit {0})
  unfolding admit confirm_session
  handle_ingress_handshake_resp inputs from packet = do
    admit inputs from 60 packet (response_mac1 packet)
    s ← get
    peer_ref ← try (ok_or (lookup (read_u32 8 packet) s.state.index_map) Error.unknown_our_index)
    dead_index ←
        with_peer peer_ref (process_incoming_handshake_response crates inputs.now from packet)
    with_state (remove_dead dead_index)
    ready ← read_peer peer_ref (ready_for_transport crates inputs.now)
    s' ← get
    if ready
        then confirm_session inputs.now peer_ref (s'.peers peer_ref).outgoing_queue
        else pure tt
    _ ← send_after inputs.now wipe_after_time (wipe peer_ref)
    pure tt

  unfoldable pub handle_ingress_cookie_reply : Inputs → Bytes → M (PeerServer N T) (Unit {0})
  handle_ingress_cookie_reply inputs packet = do
    s ← get
    peer_ref ←
        try (ok_or (lookup (reply_receiver_index packet) s.state.index_map) Error.unknown_our_index)
    with_peer peer_ref (consume_cookie_reply crates inputs.now packet)

  unfoldable pub dispatch : Inputs → Endpoint → Message → M (PeerServer N T) (Unit {0})
  unfolding handle_ingress_handshake_init handle_ingress_handshake_resp handle_ingress_cookie_reply
  dispatch inputs from (initiation packet) = handle_ingress_handshake_init inputs from packet
  dispatch inputs from (response packet) = handle_ingress_handshake_resp inputs from packet
  dispatch inputs from (cookie_reply packet) = handle_ingress_cookie_reply inputs packet
  dispatch inputs from (transport packet) = fail Error.panicked

  unfoldable pub handle_ingress_handshake :
      Inputs → Endpoint → Message → M (PeerServer N T) (Unit {0})
  unfolding dispatch
  handle_ingress_handshake inputs from message = do
    _ ← under_load inputs.now
    dispatch inputs from message

  unfoldable pub send_handshake_init : Inputs → ℕ → M (PeerServer N T) ℕ
  send_handshake_init inputs peer_ref = do
    s ← get
    ensure
        (not
          (ltb (elapsed inputs.now (s.peers peer_ref).timers.handshake_initialized) rekey_timeout))
        Error.rekey_timeout
    private_key ← try (ok_or s.state.interface_info.private_key Error.no_private_key)
    new_index ← unused_index inputs.draws
    started ←
        with_peer peer_ref
          (initiate_new_session crates inputs.now inputs.tai64n private_key new_index)
    with_state (insert_index new_index peer_ref)
    with_state (remove_dead (started.2))
    send_to_peer (started.0, started.1)
    change_peer peer_ref (λ p. record p {
      timers = record (p.timers) { handshake_initialized = timestamp_now inputs.now };
    })
    _ ← send_after inputs.now rekey_timeout (rekey peer_ref new_index)
    pure new_index
