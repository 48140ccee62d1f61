-- ===== src/Peer.antt =====
-- src/peer.rs: a peer with its three sessions. Handshakes are in `Handshake`, data in `Transport`.
pub mod Responder
pub mod Handshake
pub mod Transport
pub mod Rotation
pub mod Completion
pub mod Guards
pub mod Sending
pub mod Ready
pub mod Identity
pub mod Delivery
use wireguard_rs.Base.{
  ℕ, ◌+◌, ◌≡◌, Bool, true, false, not, ◌&&◌, Option, none, some, is_some, is_none, List, [], ◌∷◌,
  ◌++◌, Result, ok, err, Error, Bytes, length, ltb, leb, ◌==◌, if◌then◌else◌,
}
use wireguard_rs.Base.Fallible.{◌>>=◌}
use wireguard_rs.Consts.{
  max_queued_packets, max_handshake_attempts, rekey_after_time, rekey_after_time_recv,
  rekey_after_messages, reject_after_time, reject_after_messages,
}
use wireguard_rs.Timestamp.{Tai64n, Timestamp, unset, elapsed}
use wireguard_rs.Types.{PeerInfo}
use wireguard_rs.Crates.{Crates}
use wireguard_rs.AntiReplay.{AntiReplay}
use wireguard_rs.AntiReplay
use wireguard_rs.Cookie.{Generator, new_generator}
use wireguard_rs.Utun.{UtunPacket}

pub data SessionType : Type 0 where
  past current next : SessionType

pub data SessionTransition : Type 0 where
  no_transition : SessionTransition
  transition : Option ℕ → SessionTransition

-- A timer handle is the number of its timer.
pub record Timers : Type 0 where
  pub data_sent : Timestamp
  pub data_received : Timestamp
  pub authenticated_received : Timestamp
  pub authenticated_traversed : Timestamp
  pub egress_queued : Timestamp
  pub handshake_completed : Timestamp
  pub handshake_initialized : Timestamp
  pub persistent_timer : Option ℕ
  pub handshake_attempts : ℕ
  pub keepalive_sent : Bool

abbrev pub default_timers : Timers
default_timers = record {
  data_sent = unset;
  data_received = unset;
  authenticated_received = unset;
  authenticated_traversed = unset;
  egress_queued = unset;
  handshake_completed = unset;
  handshake_initialized = unset;
  persistent_timer = none;
  handshake_attempts = 0;
  keepalive_sent = false;
}

pub record Session (N : Type 0) : Type 0 where
  pub noise : N
  pub our_index : ℕ
  pub their_index : ℕ
  pub anti_replay : AntiReplay
  pub birthday : Timestamp

pub record Sessions (N : Type 0) : Type 0 where
  pub past : Option (Session N)
  pub current : Option (Session N)
  pub next : Option (Session N)

pub record Peer (N : Type 0) : Type 0 where
  pub info : PeerInfo
  pub sessions : Sessions N
  pub timers : Timers
  pub tx_bytes : ℕ
  pub rx_bytes : ℕ
  pub last_handshake_tai64n : Option Tai64n
  pub outgoing_queue : List UtunPacket
  pub cookie : Generator

-- `Result::unwrap`
abbrev pub unwrap {ℓ} : {A : Type ℓ} → Result A → Result A
unwrap (ok a) = ok a
unwrap (err e) = err Error.panicked

-- `Option` as an iterator
abbrev pub to_list {ℓ} : {A : Type ℓ} → Option A → List A
to_list none = []
to_list (some a) = a ∷ []

abbrev pub or_else {ℓ} : {A : Type ℓ} → Option A → Option A → Option A
or_else none b = b
or_else (some a) b = some a

module _ {N : Type 0} where
  -- `Session::with_their_index`; `Session::new` is this with 0.
  abbrev pub with_their_index : N → ℕ → ℕ → Session N
  with_their_index noise our_index their_index = record {
    noise = noise;
    our_index = our_index;
    their_index = their_index;
    anti_replay = AntiReplay.new;
    birthday = unset;
  }

  abbrev pub new_session : N → ℕ → Session N
  new_session noise our_index = with_their_index noise our_index 0

  -- `opt.map(|session| session.our_index)`
  abbrev pub index_of : Option (Session N) → Option ℕ
  index_of none = none
  index_of (some s) = some s.our_index

  unfoldable pub wipe : Sessions N → Sessions N × List ℕ
  wipe s = (
    record { past = none; current = none; next = none },
    to_list (index_of s.past) ++ (to_list (index_of s.current) ++ to_list (index_of s.next)),
  )

  unfoldable pub get_mapped_indices : Peer N → List ℕ
  get_mapped_indices p =
      to_list (index_of p.sessions.past)
      ++ (to_list (index_of p.sessions.current) ++ to_list (index_of p.sessions.next))

  -- `Some(s) if s.our_index == our_index`
  abbrev pub matching : ℕ → SessionType → Option (Session N) → Option (Session N × SessionType)
  matching our_index kind none = none
  matching our_index kind (some s) = if s.our_index == our_index then some (s, kind) else none

  unfoldable pub find_session : ℕ → Peer N → Option (Session N × SessionType)
  find_session our_index p = or_else (matching our_index next p.sessions.next) (
      or_else (matching our_index current p.sessions.current)
        (matching our_index past p.sessions.past))

  -- Writes through the `&mut Session` that `find_session` gives.
  unfoldable pub put_session : SessionType → Session N → Peer N → Peer N
  put_session past s p = record p { sessions = record (p.sessions) { past = some s } }
  put_session current s p = record p { sessions = record (p.sessions) { current = some s } }
  put_session next s p = record p { sessions = record (p.sessions) { next = some s } }

  unfoldable pub queue_egress : UtunPacket → Peer N → Peer N
  queue_egress packet p =
      if ltb (length p.outgoing_queue) max_queued_packets
      then record p {
        outgoing_queue = p.outgoing_queue ++ packet ∷ [];
        timers = record (p.timers) { handshake_attempts = 0 };
      }
      else p

module _ {N T : Type 0} (crates : Crates N T) where
  unfoldable pub new_peer : PeerInfo → Peer N
  new_peer info = record {
    info = info;
    sessions = record { past = none; current = none; next = none };
    timers = default_timers;
    tx_bytes = 0;
    rx_bytes = 0;
    last_handshake_tai64n = none;
    outgoing_queue = [];
    cookie = new_generator crates info.pub_key;
  }

  unfoldable pub nonce_reaches : ℕ → Option (Session N) → Result Bool
  nonce_reaches limit none = ok false
  nonce_reaches limit (some s) = do
    nonce ← unwrap (crates.sending_nonce s.noise)
    ok (leb limit nonce)

  unfoldable pub needs_new_handshake : ℕ → Bool → Peer N → Result Bool
  unfolding nonce_reaches
  needs_new_handshake now sending p =
      let since = elapsed now p.timers.handshake_completed in
      if is_some p.sessions.next
      then ok (leb max_handshake_attempts p.timers.handshake_attempts)
      else if is_none p.sessions.current
      then ok true
      else if sending && ltb rekey_after_time since
      then ok true
      else if not sending && ltb rekey_after_time_recv since
      then ok true
      else nonce_reaches rekey_after_messages p.sessions.current

  unfoldable pub session_ready : ℕ → Option (Session N) → Result Bool
  unfolding nonce_reaches
  session_ready now none = ok false
  session_ready now (some s) =
      if ltb (elapsed now s.birthday) reject_after_time
      then (do reached ← nonce_reaches reject_after_messages (some s); ok (not reached))
      else ok false

  unfoldable pub ready_for_transport : ℕ → Peer N → Result Bool
  unfolding session_ready
  ready_for_transport now p = session_ready now p.sessions.current
