-- ===== src/PeerServer/Stable/Reactions.antt =====
-- src/interface/peer_server.rs: what the handlers of timers, events, handshakes and packets from the
-- tunnel leave true. What is proper to a property are the steps that change the index map, `Indexed`.
mod Ticks
pub use Ticks.*
use wireguard_rs.Base.{
  ℕ, refl, Bool, true, false, Option, none, some, is_none, List, [], ◌∷◌, Result, ok, err, Bytes,
}
use wireguard_rs.Base.Preserves.{
  Preserves, bind-Preserves, seq-Preserves, branch-Preserves, ensure-Preserves,
}
use wireguard_rs.Types.{Endpoint}
use wireguard_rs.Crates.{Crates}
use wireguard_rs.Message.{Message, initiation, response, cookie_reply, transport}
use wireguard_rs.Utun.{UtunPacket}
use wireguard_rs.Peer
use wireguard_rs.Peer.Handshake.{consume_cookie_reply}
use wireguard_rs.PeerServer.{PeerServer, Inputs, UdpChannel}
use wireguard_rs.PeerServer.Handshakes.{
  handle_ingress_cookie_reply, handle_ingress_handshake, dispatch,
}
use wireguard_rs.PeerServer.Packets.{handle_egress_packet, handshake_if}
use wireguard_rs.PeerServer.Events.{
  ChannelMessage, clear_private_key, new_private_key, new_listen_port, new_fwmark,
  new_persistent_keepalive, new_peer, handle_incoming_event, start_keepalive, cancel_old,
  mark_socket, unwrap_rebind, install_key,
}
use wireguard_rs.PeerServer.Poll.{pop_handshake}
use wireguard_rs.PeerServer.Stable.{
  alike, queue_egress-Alike, change_peer-Preserves, with_peer-Preserves, send_after-Preserves,
  under_load-Preserves, restart_persistent-Preserves, rebind-Preserves, send_keepalive-Preserves,
  flush_queue-Preserves,
}

module _ {N T : Type 0} (crates : Crates N T) (P : PeerServer N T → Type 0)
    (kept : Indexed crates P) where
  start_keepalive-Preserves :
      (inputs : Inputs) (peer_ref : ℕ) (k : Option ℕ)
      → Preserves P (start_keepalive crates inputs peer_ref k)
  unfolding start_keepalive
  start_keepalive-Preserves inputs peer_ref none = λ s h. h
  start_keepalive-Preserves inputs peer_ref (some keepalive) =
      restart_persistent-Preserves P kept.closed inputs keepalive peer_ref

  pub handle_incoming_event-Preserves :
      (inputs : Inputs) (m : ChannelMessage) → Preserves P (handle_incoming_event crates inputs m)
  unfolding handle_incoming_event cancel_old mark_socket install_key unwrap_rebind
  handle_incoming_event-Preserves inputs new_private_key =
      bind-Preserves P _ _ (λ s h. h) λ s. install _
    where
      unwrapped : (r : PeerServer N T × Result (Unit {0})) → P r.0 → P (unwrap_rebind crates r).0
      unwrapped (s, ok u) h = h
      unwrapped (s, err e) h = h

      install : (k : Option Bytes) → Preserves P (install_key crates inputs k)
      install none = λ s h. kept.closed.bound s _ _ h
      install (some key) =
          seq-Preserves P _ _ (λ s h. kept.closed.guarded s _ h)
            (bind-Preserves P _ _ (λ s h. h)
              λ s.
                branch-Preserves P (is_none s.udp) _ _
                  (λ s h. unwrapped _ (rebind-Preserves P kept.closed inputs s h)) (λ s h. h))
  handle_incoming_event-Preserves inputs (new_peer peer_ref) =
      bind-Preserves P _ _ (send_after-Preserves P kept.closed _ _ _)
        λ _. bind-Preserves P _ _ (λ s h. h) λ s. start_keepalive-Preserves inputs peer_ref _
  handle_incoming_event-Preserves inputs (new_persistent_keepalive peer_ref) =
      bind-Preserves P _ _ (λ s h. h)
        λ s. seq-Preserves P _ _ (cancelled _) (
          seq-Preserves P _ _ (start_keepalive-Preserves inputs peer_ref _) (
            branch-Preserves P _ _ _ (send_keepalive-Preserves P kept.closed crates inputs peer_ref)
              (λ s h. h)))
    where
      cancelled : (handle : Option ℕ) → Preserves P (cancel_old crates handle)
      cancelled none = λ s h. h
      cancelled (some handle) = λ s h. kept.closed.timed s _ h
  handle_incoming_event-Preserves inputs (new_listen_port port) =
      rebind-Preserves P kept.closed inputs
  handle_incoming_event-Preserves inputs (new_fwmark mark) =
      bind-Preserves P _ _ (λ s h. h) λ s. marked s.udp
    where
      marked : (udp : Option UdpChannel) → Preserves P (mark_socket crates inputs mark udp)
      marked none = λ s h. h
      marked (some udp) = bind-Preserves P _ _ (λ s h. h) λ _ s h. kept.closed.bound s _ _ h
  handle_incoming_event-Preserves inputs clear_private_key = λ s h. h

  pub handshake_if-Preserves :
      (b : Bool) (inputs : Inputs) (peer_ref : ℕ)
      → Preserves P (handshake_if crates b inputs peer_ref)
  handshake_if-Preserves true inputs peer_ref =
      bind-Preserves P _ _ (kept.started inputs peer_ref) λ _ s h. h
  handshake_if-Preserves false inputs peer_ref = λ s h. h

  pub handle_egress_packet-Preserves :
      (inputs : Inputs) (packet : UtunPacket)
      → Preserves P (handle_egress_packet crates inputs packet)
  unfolding handle_egress_packet
  handle_egress_packet-Preserves inputs packet = seq-Preserves P _ _ (ensure-Preserves P _ _) (
      bind-Preserves P _ _ (λ s h. h)
        λ _.
          bind-Preserves P _ _ (λ s h. h)
            λ peer_ref.
              bind-Preserves P _ _ (λ s h. h)
                λ needed.
                  seq-Preserves P _ _
                    (change_peer-Preserves P kept.closed peer_ref _ (queue_egress-Alike packet))
                    (bind-Preserves P _ _ (λ s h. h)
                      λ ready.
                        bind-Preserves P _ _ (λ s h. h)
                          λ _.
                            seq-Preserves P _ _
                              (branch-Preserves P ready _ _
                                (flush_queue-Preserves P kept.closed crates inputs.now peer_ref _)
                                (λ s h. h))
                              (handshake_if-Preserves needed inputs peer_ref)))

  pub handle_ingress_handshake-Preserves :
      (inputs : Inputs) (from : Endpoint) (message : Message)
      → Preserves P (handle_ingress_handshake crates inputs from message)
  unfolding handle_ingress_handshake handle_ingress_cookie_reply consume_cookie_reply
  handle_ingress_handshake-Preserves inputs from message =
      bind-Preserves P _ _ (under_load-Preserves P kept.closed inputs.now) λ _. dispatched message
    where
      dispatched : (m : Message) → Preserves P (dispatch crates inputs from m)
      dispatched (initiation p) = kept.answered inputs from p
      dispatched (response p) = kept.promoted inputs from p
      dispatched (cookie_reply p) =
          bind-Preserves P _ _ (λ s h. h)
            λ _.
              bind-Preserves P _ _ (λ s h. h)
                λ peer_ref. with_peer-Preserves P kept.closed peer_ref _ (λ q. alike q _ refl refl)
      dispatched (transport p) = λ s h. h

  pub pop_handshake-Preserves :
      (inputs : Inputs) (queue : List (Endpoint × Message)) (s : PeerServer N T)
      → P s
      → P (pop_handshake crates inputs queue s)
  unfolding pop_handshake
  pop_handshake-Preserves inputs [] s h = h
  pop_handshake-Preserves inputs ((from, message) ∷ rest) s h =
      handle_ingress_handshake-Preserves inputs from message (record s { handshakes = rest })
        (kept.closed.queued s rest h)
