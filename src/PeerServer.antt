-- ===== src/PeerServer.antt =====
-- src/interface/peer_server.rs: the state of the server, and what its handlers share. The handlers
-- are in the child modules.
pub mod Handshakes
pub mod Packets
pub mod Events
pub mod Poll
pub mod Admission
pub mod Stable
pub mod Frame
pub mod Indices
use wireguard_rs.Base.{
  ℕ, ◌+◌, ◌≡◌, Bool, true, false, not, Option, none, some, is_some, List, [], ◌∷◌, ◌++◌, Result, ok,
  err, Error, ok_or, Bytes, length, ltb, ◌==◌, if◌then◌else◌,
}
use wireguard_rs.Base.Maps.{lookup, remove}
use wireguard_rs.Base.Maps
use wireguard_rs.Base.Monad.{M, get, modify, try, fail, ◌>>=◌, ◌>>◌}
use wireguard_rs.Base.{eq_nat}
use wireguard_rs.Consts.{under_load_queue_size, under_load_time}
use wireguard_rs.Timestamp.{Tai64n}
use wireguard_rs.Types.{Endpoint, InterfaceInfo}
use wireguard_rs.Crates.{Crates}
use wireguard_rs.Message.{Message}
use wireguard_rs.Cookie.{Validator}
use wireguard_rs.RateLimiter.{RateLimiter}
use wireguard_rs.Router.{Router}
use wireguard_rs.Timer.{Timer, TimerMessage}
use wireguard_rs.Timer
use wireguard_rs.Utun.{UtunPacket}
use wireguard_rs.Peer.{Peer}

-- `State` of src/interface/mod.rs. A `SharedPeer` is the number of its `Rc`.
pub record State (T : Type 0) : Type 0 where
  pub pubkey_map : List (Bytes × ℕ)
  pub index_map : List (ℕ × ℕ)
  pub router : Router T
  pub interface_info : InterfaceInfo

-- A bound socket: its port, and the mark set on it.
pub record UdpChannel : Type 0 where
  pub bound_port : ℕ
  pub mark : Option ℕ

-- `peers` holds the contents of each `Rc`, and `next_rc` is the number of the next. `egress` and `tunnel` are what was sent to the network
-- and to the tunnel device, in order.
pub record PeerServer (N T : Type 0) : Type 0 where
  pub state : State T
  pub peers : ℕ → Peer N
  pub next_rc : ℕ
  pub udp : Option UdpChannel
  pub port : Option ℕ
  pub handshakes : List (Endpoint × Message)
  pub timer : Timer
  pub cookie : Validator
  pub rate_limiter : RateLimiter
  pub under_load_until : ℕ
  pub egress : List (Endpoint × Bytes)
  pub tunnel : List Bytes

-- What a call reads of the world: the clocks, the random generator, and what the system answers.
pub record Inputs : Type 0 where
  pub now : ℕ
  pub tai64n : Tai64n
  pub secret : Bytes
  pub reply_nonce : Bytes
  pub draws : List ℕ
  pub bind : ℕ → Result (Unit {0})
  pub set_mark : ℕ → Result (Unit {0})

-- The loop of `unused_index`, over the draws of the generator.
unfoldable pub first_unused : List ℕ → List (ℕ × ℕ) → Result ℕ
first_unused [] index_map = err Error.no_more_draws
first_unused (tentative ∷ draws) index_map =
    let rest = first_unused draws index_map in
    if not (is_some (lookup tentative index_map)) then ok tentative else rest

abbrev pub update_peer {ℓ} : {A : Type ℓ} → ℕ → A → (ℕ → A) → ℕ → A
update_peer r p peers q = if q == r then p else peers q

module _ {N T : Type 0} where
  abbrev pub with_state : (State T → State T) → M (PeerServer N T) (Unit {0})
  with_state f s = (record s { state = f s.state }, ok tt)

  abbrev pub put_peer {κ} :
      {A : Type κ} → ℕ → PeerServer N T → Peer N × Result A → PeerServer N T × Result A
  put_peer r s (p, result) = (record s { peers = update_peer r p s.peers }, result)

  -- A method of a peer, through its `RefCell`.
  unfoldable pub with_peer : {A : Type 0} → ℕ → M (Peer N) A → M (PeerServer N T) A
  with_peer r m s = put_peer r s (m (s.peers r))

  abbrev pub read_peer : {A : Type 0} → ℕ → (Peer N → Result A) → M (PeerServer N T) A
  read_peer r f s = (s, f (s.peers r))

  unfoldable pub change_peer : ℕ → (Peer N → Peer N) → M (PeerServer N T) (Unit {0})
  change_peer r f s = (record s { peers = update_peer r (f (s.peers r)) s.peers }, ok tt)

  unfoldable pub send_to_peer : Endpoint × Bytes → M (PeerServer N T) (Unit {0})
  send_to_peer payload s =
      if is_some s.udp
      then (record s { egress = s.egress ++ payload ∷ [] }, ok tt)
      else (s, err Error.no_udp_socket)

  unfoldable pub send_to_tunnel : Bytes → M (PeerServer N T) (Unit {0})
  send_to_tunnel packet s = (record s { tunnel = s.tunnel ++ packet ∷ [] }, ok tt)

  unfoldable pub unused_index : List ℕ → M (PeerServer N T) ℕ
  unfolding first_unused
  unused_index draws s = (s, first_unused draws s.state.index_map)

  -- The handle of the new timer is the result.
  unfoldable pub send_after : ℕ → ℕ → TimerMessage → M (PeerServer N T) ℕ
  send_after now delay message s =
      let sent = Timer.send_after now delay message s.timer in
      (record s { timer = sent.0 }, ok sent.1)

  unfoldable pub under_load : ℕ → M (PeerServer N T) Bool
  under_load now s =
      let until =
        if ltb under_load_queue_size (length s.handshakes)
        then now + under_load_time
        else s.under_load_until in
      (record s { under_load_until = until }, ok (ltb now until))

module _ {T : Type 0} where
  -- `index_map.remove(&index)`, where there is an index.
  unfoldable pub remove_dead : Option ℕ → State T → State T
  remove_dead none state = state
  remove_dead (some index) state = record state { index_map = remove index state.index_map }

  unfoldable pub insert_index : ℕ → ℕ → State T → State T
  insert_index index peer state = record state {
    index_map = Maps.insert index peer state.index_map;
  }
