-- ===== src/Peer/Identity.antt =====
-- src/peer.rs: what no method of a peer changes, its public key and its allowed addresses.
use wireguard_rs.Base.{
  ℕ, ◌≡◌, Option, none, some, List, Result, Bytes, length, ltb, Bool-cases, inl, inr,
}
use wireguard_rs.Base.Monad.{M}
use wireguard_rs.Base.Preserves.{Preserves, bind-Preserves, seq-Preserves, ensure-Preserves}
use wireguard_rs.Consts.{max_queued_packets}
use wireguard_rs.Timestamp.{Tai64n}
use wireguard_rs.Types.{Endpoint, IpAddr}
use wireguard_rs.Crates.{Crates}
use wireguard_rs.Utun.{UtunPacket}
use wireguard_rs.Peer.{Peer, Session, SessionType, put_session, queue_egress}
use wireguard_rs.Peer.Responder.{IncompleteIncomingHandshake}
use wireguard_rs.Peer.Handshake.{
  initiate_new_session, complete_incoming_handshake, process_incoming_handshake_response,
  consume_cookie_reply, get_response_packet, newer,
}
use wireguard_rs.Peer.Transport.{
  handle_incoming_transport, handle_outgoing_transport, rotate, note_received, note_sent, put_back,
  with_session, send, receive,
}

module _ {N : Type 0} (key : Bytes) (ips : List (IpAddr × ℕ)) where
  abbrev pub Named : Peer N → Type 0
  Named p = (p.info.pub_key ≡ key) × (p.info.allowed_ips ≡ ips)

  put_session-Named :
      (kind : SessionType) (s : Session N) (p : Peer N) → Named p → Named (put_session kind s p)
  unfolding put_session
  put_session-Named SessionType.past s p h = h
  put_session-Named SessionType.current s p h = h
  put_session-Named SessionType.next s p h = h

  with_session-Named :
      {A : Type 0} (kind : SessionType) (s : Session N) (m : M (Session N) A)
      → Preserves Named (with_session kind s m)
  with_session-Named {A} kind s m p h = lent (m s)
    where
      lent : (r : Session N × Result A) → Named (put_back kind p r).0
      lent (s', res) = put_session-Named kind s' p h

  rotate-Named : (now : ℕ) (kind : SessionType) (p : Peer N) → Named p → Named (rotate now kind p).0
  unfolding rotate
  rotate-Named now SessionType.past p h = h
  rotate-Named now SessionType.current p h = h
  rotate-Named now SessionType.next p h = h

  pub queue_egress-Named :
      (packet : UtunPacket) (p : Peer N) → Named p → Named (queue_egress packet p)
  unfolding queue_egress
  queue_egress-Named packet p h =
      elim (Bool-cases (ltb (length p.outgoing_queue) max_queued_packets)) [
        | inl room ↦ rw room h
        | inr full ↦ rw full h
      ]

module _ {N T : Type 0} (crates : Crates N T) (key : Bytes) (ips : List (IpAddr × ℕ)) where
  pub handle_outgoing_transport-Named :
      (now : ℕ) (packet : Bytes)
      → Preserves (Named key ips) (handle_outgoing_transport crates now packet)
  unfolding handle_outgoing_transport note_sent
  handle_outgoing_transport-Named now packet =
      bind-Preserves (Named key ips) _ _ (λ p h. h)
        λ p₀.
          bind-Preserves (Named key ips) _ _ (λ p h. h)
            λ session.
              bind-Preserves (Named key ips) _ _ (λ p h. h)
                λ endpoint.
                  bind-Preserves (Named key ips) _ _
                    (with_session-Named key ips SessionType.current session
                      (send crates now packet))
                    λ sent. seq-Preserves (Named key ips) _ _ (λ p h. h) (λ p h. h)

  pub handle_incoming_transport-Named :
      (now : ℕ) (from : Endpoint) (packet : Bytes)
      → Preserves (Named key ips) (handle_incoming_transport crates now from packet)
  unfolding handle_incoming_transport note_received
  handle_incoming_transport-Named now from packet =
      bind-Preserves (Named key ips) _ _ (λ p h. h)
        λ p₀.
          bind-Preserves (Named key ips) _ _ (λ p h. h)
            λ found.
              bind-Preserves (Named key ips) _ _
                (with_session-Named key ips (found.1) (found.0) (receive crates now packet))
                λ raw.
                  seq-Preserves (Named key ips) _ _ (λ p h. h)
                    (bind-Preserves (Named key ips) _ _ (rotate-Named key ips now (found.1))
                      λ moved. seq-Preserves (Named key ips) _ _ (λ p h. h) (λ p h. h))

  pub initiate_new_session-Named :
      (now : ℕ) (tai64n : Tai64n) (private_key : Bytes) (index : ℕ)
      → Preserves (Named key ips) (initiate_new_session crates now tai64n private_key index)
  unfolding initiate_new_session
  initiate_new_session-Named now tai64n private_key index =
      bind-Preserves (Named key ips) _ _ (λ p h. h)
        λ p₀.
          bind-Preserves (Named key ips) _ _ (λ p h. h)
            λ noise.
              bind-Preserves (Named key ips) _ _ (λ p h. h)
                λ endpoint.
                  bind-Preserves (Named key ips) _ _ (λ p h. h)
                    λ message.
                      bind-Preserves (Named key ips) _ _ (λ p h. h)
                        λ packet. bind-Preserves (Named key ips) _ _ (λ p h. h) λ dead p h. h

  newer-Named :
      (t : Tai64n) (last : Option Tai64n) → Preserves {S = Peer N} (Named key ips) (newer t last)
  newer-Named t none p h = h
  newer-Named t (some last) p h = ensure-Preserves (Named key ips) _ _ p h

  pub complete_incoming_handshake-Named :
      (now : ℕ) (from : Endpoint) (index : ℕ) (h : IncompleteIncomingHandshake N)
      → Preserves (Named key ips) (complete_incoming_handshake crates now from index h)
  unfolding complete_incoming_handshake get_response_packet
  complete_incoming_handshake-Named now from index handshake =
      bind-Preserves (Named key ips) _ _ (λ p h. h)
        λ p₀. seq-Preserves (Named key ips) _ _ (newer-Named _ _) (
          bind-Preserves (Named key ips) _ _ (λ p h. h)
            λ _.
              bind-Preserves (Named key ips) _ _
                (bind-Preserves (Named key ips) _ _ (λ p h. h)
                  λ _. bind-Preserves (Named key ips) _ _ (λ p h. h) λ _ p h. h)
                λ response.
                  bind-Preserves (Named key ips) _ _
                    (bind-Preserves (Named key ips) _ _ (λ p h. h) λ _ p h. h)
                    λ transport.
                      bind-Preserves (Named key ips) _ _ (λ p h. h)
                        λ dead. seq-Preserves (Named key ips) _ _ (λ p h. h) (λ p h. h))

  pub process_incoming_handshake_response-Named :
      (now : ℕ) (from : Endpoint) (packet : Bytes)
      → Preserves (Named key ips) (process_incoming_handshake_response crates now from packet)
  unfolding process_incoming_handshake_response
  process_incoming_handshake_response-Named now from packet =
      bind-Preserves (Named key ips) _ _ (λ p h. h)
        λ old.
          bind-Preserves (Named key ips) _ _ (λ p h. h)
            λ session.
              bind-Preserves (Named key ips) _ _ (λ p h. h)
                λ _.
                  bind-Preserves (Named key ips) _ _
                    (bind-Preserves (Named key ips) _ _ (λ p h. h) λ _ p h. h)
                    λ transport. seq-Preserves (Named key ips) _ _ (λ p h. h) (λ p h. h)

  pub consume_cookie_reply-Named :
      (now : ℕ) (reply : Bytes) → Preserves (Named key ips) (consume_cookie_reply crates now reply)
  unfolding consume_cookie_reply
  consume_cookie_reply-Named now reply p h = h
