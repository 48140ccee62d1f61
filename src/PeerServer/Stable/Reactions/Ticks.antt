-- ===== src/PeerServer/Stable/Reactions/Ticks.antt =====
-- src/interface/peer_server.rs: the handlers of timers, for any property that the shared steps and the
-- handlers of handshakes leave true.
use wireguard_rs.Base.{
  ℕ, refl, Bool, true, false, if◌then◌else◌, Option, none, some, is_some, is_none, Error, Bytes,
  eq_nat, ltb, leb,
}
use wireguard_rs.Base.Monad.{pure, get_cases}
use wireguard_rs.Base.Preserves.{
  Preserves, bind-Preserves, seq-Preserves, branch-Preserves, ensure-Preserves,
}
use wireguard_rs.Consts.{
  wipe_after_time, stale_session_timeout, rekey_timeout, max_handshake_attempts, keepalive_timeout,
}
use wireguard_rs.Timestamp.{elapsed}
use wireguard_rs.Types.{Endpoint}
use wireguard_rs.Crates.{Crates}
use wireguard_rs.Timer.{TimerMessage, rekey, passive_keep_alive, persistent_keep_alive, wipe}
use wireguard_rs.Peer.{Peer, Session, SessionType, queue_egress}
use wireguard_rs.Peer
use wireguard_rs.PeerServer.{PeerServer, Inputs}
use wireguard_rs.PeerServer.Handshakes.{
  handle_ingress_handshake_init, handle_ingress_handshake_resp, send_handshake_init,
}
use wireguard_rs.PeerServer.Events.{
  check_rekey, handle_rekey, handle_passive_keepalive, handle_persistent_keepalive, handle_wipe,
  handle_timer, persistent_tick, wipe_peer, again,
}
use wireguard_rs.PeerServer.Stable.{
  Closed, alike, change_peer-Preserves, send_after-Preserves, again-Preserves,
  restart_persistent-Preserves, send_keepalive-Preserves,
}

module _ {N T : Type 0} (crates : Crates N T) where
  pub record Indexed (P : PeerServer N T → Type 0) : Type 0 where
    pub closed : Closed P
    pub started :
        (inputs : Inputs) (peer_ref : ℕ) → Preserves P (send_handshake_init crates inputs peer_ref)
    pub answered :
        (inputs : Inputs) (from : Endpoint) (packet : Bytes)
        → Preserves P (handle_ingress_handshake_init crates inputs from packet)
    pub promoted :
        (inputs : Inputs) (from : Endpoint) (packet : Bytes)
        → Preserves P (handle_ingress_handshake_resp crates inputs from packet)
    pub wiped :
        (peer_ref : ℕ) (s : PeerServer N T)
        → P s
        → P (wipe_peer peer_ref (Peer.wipe (s.peers peer_ref).sessions) s).0

module _ {N T : Type 0} (crates : Crates N T) (P : PeerServer N T → Type 0)
    (kept : Indexed crates P) where
  check_rekey-Preserves :
      (inputs : Inputs) (peer_ref our_index : ℕ) (found : Option (Session N × SessionType))
      → Preserves P (check_rekey crates inputs peer_ref our_index found)
  unfolding check_rekey
  check_rekey-Preserves inputs peer_ref our_index (some (session, SessionType.next)) =
      bind-Preserves P _ _ (λ s h. h)
        λ s.
          let timers = (s.peers peer_ref).timers in
          branch-Preserves P (ltb (elapsed inputs.now timers.handshake_initialized) rekey_timeout) _
            _ (again-Preserves P kept.closed inputs _ _ _)
            (branch-Preserves P (leb max_handshake_attempts timers.handshake_attempts) _ _
              (λ s h. h)
              (change_peer-Preserves P kept.closed peer_ref _ (λ p. alike p _ refl refl)))
  check_rekey-Preserves inputs peer_ref our_index (some (session, SessionType.current)) =
      bind-Preserves P _ _ (λ s h. h)
        λ s.
          let received = elapsed inputs.now (s.peers peer_ref).timers.authenticated_received in
          branch-Preserves P (ltb received (elapsed inputs.now (s.peers peer_ref).timers.data_sent))
            _ _ (again-Preserves P kept.closed inputs _ _ _)
            (branch-Preserves P (leb received stale_session_timeout) _ _
              (again-Preserves P kept.closed inputs _ _ _) (λ s h. h))
  check_rekey-Preserves inputs peer_ref our_index (some (session, SessionType.past)) = λ s h. h
  check_rekey-Preserves inputs peer_ref our_index none = λ s h. h

  handle_rekey-Preserves :
      (inputs : Inputs) (peer_ref our_index : ℕ)
      → Preserves P (handle_rekey crates inputs peer_ref our_index)
  unfolding handle_rekey
  handle_rekey-Preserves inputs peer_ref our_index =
      bind-Preserves P _ _ (λ s h. h)
        λ s.
          seq-Preserves P _ _ (check_rekey-Preserves inputs peer_ref our_index _)
            (bind-Preserves P _ _ (kept.started inputs peer_ref) λ _ s h. h)

  handle_passive_keepalive-Preserves :
      (inputs : Inputs) (peer_ref : ℕ)
      → Preserves P (handle_passive_keepalive crates inputs peer_ref)
  unfolding handle_passive_keepalive
  handle_passive_keepalive-Preserves inputs peer_ref =
      bind-Preserves P _ _ (λ s h. h)
        λ s.
          let peer = s.peers peer_ref in
          let received = elapsed inputs.now peer.timers.data_received in
          seq-Preserves P _ _
            (branch-Preserves P (is_none peer.sessions.current) _ _ (wait _ _) (
              branch-Preserves P (is_some peer.info.keepalive) _ _ (wait _ _) (
                branch-Preserves P peer.timers.keepalive_sent _ _ (wait _ _) (
                  branch-Preserves P (ltb (elapsed inputs.now peer.timers.data_sent) received) _ _
                    (wait _ _)
                    (branch-Preserves P (ltb received keepalive_timeout) _ _ (wait _ _) (
                      change_peer-Preserves P kept.closed peer_ref _
                        (λ p. alike p _ refl refl)))))))
            (seq-Preserves P _ _ (send_keepalive-Preserves P kept.closed crates inputs peer_ref)
              (bind-Preserves P _ _ (send_after-Preserves P kept.closed _ _ _) λ _ s h. h))
    where
      wait :
          (delay : ℕ) (e : Error) → Preserves P (again inputs delay (passive_keep_alive peer_ref) e)
      wait delay e = again-Preserves P kept.closed inputs delay (passive_keep_alive peer_ref) e

  handle_persistent_keepalive-Preserves :
      (inputs : Inputs) (peer_ref : ℕ)
      → Preserves P (handle_persistent_keepalive crates inputs peer_ref)
  unfolding handle_persistent_keepalive persistent_tick
  handle_persistent_keepalive-Preserves inputs peer_ref =
      bind-Preserves P _ _ (λ s h. h) λ s. tick _
    where
      tick : (k : Option ℕ) → Preserves P (persistent_tick crates inputs peer_ref k)
      tick none = λ s h. h
      tick (some keepalive) =
          bind-Preserves P _ _ (λ s h. h)
            λ s.
              seq-Preserves P _ _
                (branch-Preserves P
                  (ltb (elapsed inputs.now (s.peers peer_ref).timers.authenticated_traversed)
                    keepalive)
                  _ _
                  (seq-Preserves P _ _
                    (restart_persistent-Preserves P kept.closed inputs _ peer_ref) (λ s h. h))
                  (λ s h. h))
                (seq-Preserves P _ _ (send_keepalive-Preserves P kept.closed crates inputs peer_ref)
                  (restart_persistent-Preserves P kept.closed inputs _ peer_ref))

  handle_wipe-Preserves :
      (inputs : Inputs) (peer_ref : ℕ) → Preserves P (handle_wipe crates inputs peer_ref)
  unfolding handle_wipe
  handle_wipe-Preserves inputs peer_ref s h =
      get_cases (λ r. P r.0) _ s
        (due
          (leb wipe_after_time (elapsed inputs.now (s.peers peer_ref).timers.handshake_completed)))
    where
      due :
          (b : Bool)
          → P
              ((if b then wipe_peer peer_ref (Peer.wipe (s.peers peer_ref).sessions) else pure tt)
                s).0
      due true = kept.wiped peer_ref s h
      due false = h

  pub handle_timer-Preserves :
      (inputs : Inputs) (alive : ℕ → Bool) (m : TimerMessage)
      → Preserves P (handle_timer crates inputs alive m)
  unfolding handle_timer
  handle_timer-Preserves inputs alive (rekey peer_ref our_index) =
      seq-Preserves P _ _ (ensure-Preserves P _ _)
        (handle_rekey-Preserves inputs peer_ref our_index)
  handle_timer-Preserves inputs alive (passive_keep_alive peer_ref) =
      seq-Preserves P _ _ (ensure-Preserves P _ _)
        (handle_passive_keepalive-Preserves inputs peer_ref)
  handle_timer-Preserves inputs alive (persistent_keep_alive peer_ref) =
      seq-Preserves P _ _ (ensure-Preserves P _ _)
        (handle_persistent_keepalive-Preserves inputs peer_ref)
  handle_timer-Preserves inputs alive (wipe peer_ref) =
      seq-Preserves P _ _ (ensure-Preserves P _ _) (handle_wipe-Preserves inputs peer_ref)
