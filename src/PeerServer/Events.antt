-- ===== src/PeerServer/Events.antt =====
-- src/interface/peer_server.rs: timers and configuration events.
use wireguard_rs.Base.{
  ℕ, suc, ◌-◌, Bool, true, false, Option, none, some, is_some, is_none, List, [], ◌∷◌, Result, ok,
  err, Error, Bytes, eq_nat, ltb, leb, ◌==◌, if◌then◌else◌,
}
use wireguard_rs.Base.Maps.{remove}
use wireguard_rs.Base.Monad.{M, get, modify, try, fail, pure, ensure, ◌>>=◌, ◌>>◌}
use wireguard_rs.Consts.{
  rekey_timeout, keepalive_timeout, stale_session_timeout, wipe_after_time, max_handshake_attempts,
}
use wireguard_rs.Timestamp.{elapsed}
use wireguard_rs.Types.{persistent_keepalive}
use wireguard_rs.Crates.{Crates}
use wireguard_rs.Cookie.{new_validator}
use wireguard_rs.Timer.{TimerMessage, persistent_keep_alive, passive_keep_alive, rekey, wipe}
use wireguard_rs.Timer
use wireguard_rs.Peer.{Peer, Session, Sessions, SessionType, find_session}
use wireguard_rs.Peer
use wireguard_rs.Peer.Transport.{handle_outgoing_transport}
use wireguard_rs.PeerServer.{
  PeerServer, Inputs, UdpChannel, with_state, with_peer, change_peer, send_to_peer, send_after,
}
use wireguard_rs.PeerServer.Handshakes.{send_handshake_init}

pub data ChannelMessage : Type 0 where
  clear_private_key : ChannelMessage
  new_private_key : ChannelMessage
  new_listen_port : ℕ → ChannelMessage
  new_fwmark : ℕ → ChannelMessage
  new_persistent_keepalive : ℕ → ChannelMessage
  new_peer : ℕ → ChannelMessage

-- `for index in indices { index_map.remove(&index) }`
unfoldable pub remove_all : List ℕ → List (ℕ × ℕ) → List (ℕ × ℕ)
remove_all [] index_map = index_map
remove_all (index ∷ indices) index_map = remove_all indices (remove index index_map)

-- `port.unwrap_or(0)`, `fwmark.unwrap_or(0)`
abbrev pub or_zero : Option ℕ → ℕ
or_zero none = 0
or_zero (some n) = n

abbrev pub is_port : Option ℕ → ℕ → Bool
is_port none port = false
is_port (some p) port = p == port

module _ {N T : Type 0} where
  unfoldable pub rebind : Inputs → M (PeerServer N T) (Unit {0})
  rebind inputs = do
    s ← get
    let port = or_zero s.state.interface_info.listen_port
    let fwmark = or_zero s.state.interface_info.fwmark
    if is_none s.state.interface_info.private_key
        then modify (λ s. record s { udp = none; port = none })
        else if is_port s.port port
        then pure tt
        else (do
          _ ← try (inputs.bind port)
          _ ← try (if fwmark == 0 then ok tt else inputs.set_mark fwmark)
          modify (λ s. record s {
            udp =
                some
                  (record { bound_port = port; mark = if fwmark == 0 then none else some fwmark });
            port = some port;
          }))

  -- A new timer whose handle the peer keeps.
  unfoldable pub restart_persistent : Inputs → ℕ → ℕ → M (PeerServer N T) (Unit {0})
  restart_persistent inputs wait peer_ref = do
    handle ← send_after inputs.now wait (persistent_keep_alive peer_ref)
    change_peer peer_ref
        (λ p. record p { timers = record (p.timers) { persistent_timer = some handle } })

  -- `self.timer.send_after(…); bail!(…)`
  unfoldable pub again : Inputs → ℕ → TimerMessage → Error → M (PeerServer N T) (Unit {0})
  again inputs wait message e = do _ ← send_after inputs.now wait message; fail e

  -- The sessions go, and their indices from the map.
  unfoldable pub wipe_peer : ℕ → Sessions N × List ℕ → M (PeerServer N T) (Unit {0})
  unfolding remove_all
  wipe_peer peer_ref wiped = do
    change_peer peer_ref (λ p. record p { sessions = wiped.0 })
    with_state (λ state. record state { index_map = remove_all (wiped.1) state.index_map })

module _ {N T : Type 0} (crates : Crates N T) where
  unfoldable pub send_keepalive : Inputs → ℕ → M (PeerServer N T) (Unit {0})
  send_keepalive inputs peer_ref = do
    message ← with_peer peer_ref (handle_outgoing_transport crates inputs.now [])
    send_to_peer message

  -- The `match` on the session that the rekey timer was set for.
  unfoldable pub check_rekey :
      Inputs → ℕ → ℕ → Option (Session N × SessionType) → M (PeerServer N T) (Unit {0})
  check_rekey inputs peer_ref our_index (some (session, SessionType.next)) = do
    s ← get
    let timers = (s.peers peer_ref).timers
    let since = elapsed inputs.now timers.handshake_initialized
    if ltb since rekey_timeout
        then again inputs (rekey_timeout - since) (rekey peer_ref our_index)
            Error.too_soon_since_last_init
        else if leb max_handshake_attempts timers.handshake_attempts
        then fail Error.giving_up
        else change_peer peer_ref (λ p. record p {
          timers = record (p.timers) { handshake_attempts = suc p.timers.handshake_attempts };
        })
  check_rekey inputs peer_ref our_index (some (session, SessionType.current)) = do
    s ← get
    let timers = (s.peers peer_ref).timers
    let since_last_send = elapsed inputs.now timers.data_sent
    let since_last_auth_recv = elapsed inputs.now timers.authenticated_received
    if ltb since_last_auth_recv since_last_send
        then again inputs stale_session_timeout (rekey peer_ref our_index) Error.stale_rekey_tick
        else if leb since_last_auth_recv stale_session_timeout
        then again inputs (stale_session_timeout - since_last_auth_recv) (rekey peer_ref our_index)
            Error.stale_rekey_tick
        else pure tt
  check_rekey inputs peer_ref our_index (some (session, SessionType.past)) = fail Error.dead_session
  check_rekey inputs peer_ref our_index none = fail Error.dead_session

  unfoldable pub handle_rekey : Inputs → ℕ → ℕ → M (PeerServer N T) (Unit {0})
  unfolding check_rekey
  handle_rekey inputs peer_ref our_index = do
    s ← get
    check_rekey inputs peer_ref our_index (find_session our_index (s.peers peer_ref))
    _ ← send_handshake_init crates inputs peer_ref
    pure tt

  unfoldable pub handle_passive_keepalive : Inputs → ℕ → M (PeerServer N T) (Unit {0})
  handle_passive_keepalive inputs peer_ref = do
    s ← get
    let peer = s.peers peer_ref
    let since_last_recv = elapsed inputs.now peer.timers.data_received
    let since_last_send = elapsed inputs.now peer.timers.data_sent
    let message = passive_keep_alive peer_ref
    if is_none peer.sessions.current
        then again inputs keepalive_timeout message Error.passive_keepalive_skip
        else if is_some peer.info.keepalive
        then again inputs keepalive_timeout message Error.passive_keepalive_skip
        else if peer.timers.keepalive_sent
        then again inputs keepalive_timeout message Error.passive_keepalive_tick
        else if ltb since_last_send since_last_recv
        then again inputs keepalive_timeout message Error.passive_keepalive_tick
        else if ltb since_last_recv keepalive_timeout
        then again inputs (keepalive_timeout - since_last_recv) message Error.passive_keepalive_tick
        else change_peer peer_ref
            (λ p. record p { timers = record (p.timers) { keepalive_sent = true } })
    send_keepalive inputs peer_ref
    _ ← send_after inputs.now keepalive_timeout message
    pure tt

  unfoldable pub persistent_tick : Inputs → ℕ → Option ℕ → M (PeerServer N T) (Unit {0})
  persistent_tick inputs peer_ref none = fail Error.no_persistent_keepalive
  persistent_tick inputs peer_ref (some keepalive) = do
    s ← get
    let since_last_auth_any = elapsed inputs.now (s.peers peer_ref).timers.authenticated_traversed
    if ltb since_last_auth_any keepalive
        then (do
          restart_persistent inputs (keepalive - since_last_auth_any) peer_ref
          fail Error.persistent_keepalive_tick)
        else pure tt
    send_keepalive inputs peer_ref
    restart_persistent inputs keepalive peer_ref

  unfoldable pub handle_persistent_keepalive : Inputs → ℕ → M (PeerServer N T) (Unit {0})
  unfolding persistent_tick
  handle_persistent_keepalive inputs peer_ref = do
    s ← get
    persistent_tick inputs peer_ref (persistent_keepalive (s.peers peer_ref).info)

  unfoldable pub handle_wipe : Inputs → ℕ → M (PeerServer N T) (Unit {0})
  unfolding wipe_peer
  handle_wipe inputs peer_ref = do
    s ← get
    let wiped = Peer.wipe (s.peers peer_ref).sessions
    if leb wipe_after_time (elapsed inputs.now (s.peers peer_ref).timers.handshake_completed)
        then wipe_peer peer_ref wiped
        else pure tt

  -- `alive` tells whether the weak reference of the message can be upgraded.
  unfoldable pub handle_timer : Inputs → (ℕ → Bool) → TimerMessage → M (PeerServer N T) (Unit {0})
  unfolding handle_rekey handle_passive_keepalive handle_persistent_keepalive handle_wipe
  handle_timer inputs alive (rekey peer_ref our_index) = do
    ensure (alive peer_ref) Error.peer_no_longer_there
    handle_rekey inputs peer_ref our_index
  handle_timer inputs alive (passive_keep_alive peer_ref) = do
    ensure (alive peer_ref) Error.peer_no_longer_there
    handle_passive_keepalive inputs peer_ref
  handle_timer inputs alive (persistent_keep_alive peer_ref) = do
    ensure (alive peer_ref) Error.peer_no_longer_there
    handle_persistent_keepalive inputs peer_ref
  handle_timer inputs alive (wipe peer_ref) = do
    ensure (alive peer_ref) Error.peer_no_longer_there
    handle_wipe inputs peer_ref

  unfoldable pub start_keepalive : Inputs → ℕ → Option ℕ → M (PeerServer N T) (Unit {0})
  start_keepalive inputs peer_ref none = pure tt
  start_keepalive inputs peer_ref (some keepalive) = restart_persistent inputs keepalive peer_ref

  unfoldable pub cancel_old : Option ℕ → M (PeerServer N T) (Unit {0})
  cancel_old none = pure tt
  cancel_old (some handle) = modify (λ s. record s { timer = Timer.cancel handle s.timer })

  unfoldable pub mark_socket : Inputs → ℕ → Option UdpChannel → M (PeerServer N T) (Unit {0})
  mark_socket inputs mark none = pure tt
  mark_socket inputs mark (some udp) = do
    _ ← try (inputs.set_mark mark)
    modify (λ s. record s { udp = some (record udp { mark = some mark }) })

  -- A failing `rebind().unwrap()` panics.
  unfoldable pub unwrap_rebind :
      PeerServer N T × Result (Unit {0}) → PeerServer N T × Result (Unit {0})
  unwrap_rebind (s, ok u) = (s, ok u)
  unwrap_rebind (s, err e) = (s, err Error.panicked)

  unfoldable pub install_key : Inputs → Option Bytes → M (PeerServer N T) (Unit {0})
  unfolding unwrap_rebind
  install_key inputs none = modify (λ s. record s { udp = none; port = none })
  install_key inputs (some pub_key) = do
    modify (λ s. record s { cookie = new_validator crates pub_key })
    s ← get
    if is_none s.udp then (λ s. unwrap_rebind (rebind inputs s)) else pure tt

  unfoldable pub handle_incoming_event : Inputs → ChannelMessage → M (PeerServer N T) (Unit {0})
  unfolding start_keepalive cancel_old mark_socket install_key rebind
  handle_incoming_event inputs new_private_key = do
    s ← get
    install_key inputs s.state.interface_info.pub_key
  handle_incoming_event inputs (new_peer peer_ref) = do
    _ ← send_after inputs.now keepalive_timeout (passive_keep_alive peer_ref)
    s ← get
    start_keepalive inputs peer_ref (persistent_keepalive (s.peers peer_ref).info)
  handle_incoming_event inputs (new_persistent_keepalive peer_ref) = do
    s ← get
    cancel_old (s.peers peer_ref).timers.persistent_timer
    start_keepalive inputs peer_ref (persistent_keepalive (s.peers peer_ref).info)
    if is_some (persistent_keepalive (s.peers peer_ref).info)
        then send_keepalive inputs peer_ref
        else pure tt
  handle_incoming_event inputs (new_listen_port port) = rebind inputs
  handle_incoming_event inputs (new_fwmark mark) = do s ← get; mark_socket inputs mark s.udp
  handle_incoming_event inputs clear_private_key = pure tt
