-- ===== src/PeerServer/Stable.antt =====
-- src/interface/peer_server.rs: properties of the server that hold on through the changes which most
-- handlers make - of the contents of a peer, the queues, the timers, the socket, the guards - and the
-- steps that the handlers share.
pub mod Reactions
pub mod Loose
use wireguard_rs.Base.{
  ℕ, ◌≤◌, ◌≡◌, refl, ap, Option, is_some, is_none, List, [], ◌∷◌, Result, ok, err, Error, Bytes,
  arith, Bool-cases, inl, inr, ltb, length,
}
use wireguard_rs.Base.Monad.{M}
use wireguard_rs.Base.Preserves.{
  Preserves, bind-Preserves, seq-Preserves, branch-Preserves, ensure-Preserves,
}
use wireguard_rs.Consts.{max_queued_packets}
use wireguard_rs.Types.{Endpoint}
use wireguard_rs.Crates.{Crates}
use wireguard_rs.Message.{Message}
use wireguard_rs.Cookie.{Validator}
use wireguard_rs.RateLimiter.{RateLimiter}
use wireguard_rs.Timer.{Timer, TimerMessage}
use wireguard_rs.Utun.{UtunPacket, utun_payload}
use wireguard_rs.Peer.{Peer, queue_egress}
use wireguard_rs.Peer.Rotation.{held}
use wireguard_rs.Peer.Transport.{handle_outgoing_transport}
use wireguard_rs.Peer.Sending.{held-handle_outgoing_transport}
use wireguard_rs.Peer.Identity.{Named, handle_outgoing_transport-Named}
use wireguard_rs.PeerServer.{
  PeerServer, Inputs, UdpChannel, update_peer, with_peer, change_peer, put_peer, send_to_peer,
  send_after, under_load,
}
use wireguard_rs.PeerServer.Handshakes.{
  admit, admit_under_load, send_cookie_reply, flush_queue, confirm_session,
}
use wireguard_rs.PeerServer.Packets.{send_drained, send_encrypted}
use wireguard_rs.PeerServer.Events.{
  again, restart_persistent, rebind, send_keepalive, is_port, or_zero,
}

module _ {N : Type 0} where
  -- What a peer may become: of the same name, and with no session index more.
  pub record Alike (p q : Peer N) : Type 0 where
    pub named : Named p.info.pub_key p.info.allowed_ips q
    pub no_more : (i : ℕ) → held i q.sessions ≤ held i p.sessions

  -- For a change that touches neither.
  pub alike : (p q : Peer N) → q.info ≡ p.info → q.sessions ≡ p.sessions → Alike p q
  alike p q info sessions = record {
    named = (ap (λ x. x.pub_key) info, ap (λ x. x.allowed_ips) info);
    no_more = λ i. omega (arith, ap (held i) sessions);
  }

  pub queue_egress-Alike : (packet : UtunPacket) (p : Peer N) → Alike p (queue_egress packet p)
  unfolding queue_egress
  queue_egress-Alike packet p =
      elim (Bool-cases (ltb (length p.outgoing_queue) max_queued_packets)) [
        | inl room ↦ rw room (alike p _ refl refl)
        | inr full ↦ rw full (alike p _ refl refl)
      ]

module _ {N T : Type 0} where
  pub record Closed (P : PeerServer N T → Type 0) : Type 0 where
    pub peer :
        (s : PeerServer N T) (r : ℕ) (q : Peer N)
        → Alike (s.peers r) q
        → P s
        → P (record s { peers = update_peer r q s.peers })
    pub sent :
        (s : PeerServer N T) (e : List (Endpoint × Bytes)) → P s → P (record s { egress = e })
    pub timed : (s : PeerServer N T) (t : Timer) → P s → P (record s { timer = t })
    pub bound :
        (s : PeerServer N T) (u : Option UdpChannel) (p : Option ℕ)
        → P s
        → P (record s { udp = u; port = p })
    pub guarded : (s : PeerServer N T) (c : Validator) → P s → P (record s { cookie = c })
    pub limited : (s : PeerServer N T) (l : RateLimiter) → P s → P (record s { rate_limiter = l })
    pub loaded : (s : PeerServer N T) (n : ℕ) → P s → P (record s { under_load_until = n })
    pub queued :
        (s : PeerServer N T) (q : List (Endpoint × Message)) → P s → P (record s { handshakes = q })

module _ {N T : Type 0} (P : PeerServer N T → Type 0) (closed : Closed P) where
  pub change_peer-Preserves :
      (r : ℕ) (f : Peer N → Peer N) → ((p : Peer N) → Alike p (f p)) → Preserves P (change_peer r f)
  unfolding change_peer
  change_peer-Preserves r f kept s h = closed.peer s r (f (s.peers r)) (kept (s.peers r)) h

  pub with_peer-Preserves :
      {A : Type 0} (r : ℕ) (m : M (Peer N) A)
      → ((p : Peer N) → Alike p (m p).0)
      → Preserves P (with_peer r m)
  unfolding with_peer
  with_peer-Preserves {A} r m kept s h = put (m (s.peers r)) (kept (s.peers r))
    where
      put : (x : Peer N × Result A) → Alike (s.peers r) x.0 → P (put_peer r s x).0
      put (q, res) k = closed.peer s r q k h

  pub send_to_peer-Preserves : (payload : Endpoint × Bytes) → Preserves P (send_to_peer payload)
  unfolding send_to_peer
  send_to_peer-Preserves payload s h = elim (Bool-cases (is_some s.udp)) [
    | inl bound ↦ rw bound (closed.sent s _ h)
    | inr free ↦ rw free h
  ]

  pub send_after-Preserves :
      (now delay : ℕ) (message : TimerMessage) → Preserves P (send_after now delay message)
  unfolding send_after
  send_after-Preserves now delay message s h = closed.timed s _ h

  pub under_load-Preserves : (now : ℕ) → Preserves P (under_load now)
  unfolding under_load
  under_load-Preserves now s h = closed.loaded s _ h

  pub again-Preserves :
      (inputs : Inputs) (wait : ℕ) (m : TimerMessage) (e : Error)
      → Preserves P (again inputs wait m e)
  unfolding again
  again-Preserves inputs wait m e = bind-Preserves P _ _ (send_after-Preserves _ _ _) λ _ s h. h

  pub restart_persistent-Preserves :
      (inputs : Inputs) (wait peer_ref : ℕ) → Preserves P (restart_persistent inputs wait peer_ref)
  unfolding restart_persistent
  restart_persistent-Preserves inputs wait peer_ref =
      bind-Preserves P _ _ (send_after-Preserves _ _ _)
        λ _. change_peer-Preserves peer_ref _ (λ p. alike p _ refl refl)

  pub rebind-Preserves : (inputs : Inputs) → Preserves P (rebind inputs)
  unfolding rebind
  rebind-Preserves inputs =
      bind-Preserves P _ _ (λ s h. h)
        λ s.
          branch-Preserves P (is_none s.state.interface_info.private_key) _ _
            (λ s h. closed.bound s _ _ h)
            (branch-Preserves P (is_port s.port (or_zero s.state.interface_info.listen_port)) _ _
              (λ s h. h)
              (bind-Preserves P _ _ (λ s h. h)
                λ _. bind-Preserves P _ _ (λ s h. h) λ _ s h. closed.bound s _ _ h))

module _ {N T : Type 0} (P : PeerServer N T → Type 0) (closed : Closed P)
    (crates : Crates N T) where
  pub outgoing-Preserves :
      (now peer_ref : ℕ) (packet : Bytes)
      → Preserves P (with_peer peer_ref (handle_outgoing_transport crates now packet))
  outgoing-Preserves now peer_ref packet = with_peer-Preserves P closed peer_ref _ λ p. record {
    named = handle_outgoing_transport-Named crates _ _ now packet p (refl, refl);
    no_more = λ i. omega (arith, held-handle_outgoing_transport crates now packet p i);
  }

  pub send_keepalive-Preserves :
      (inputs : Inputs) (peer_ref : ℕ) → Preserves P (send_keepalive crates inputs peer_ref)
  unfolding send_keepalive
  send_keepalive-Preserves inputs peer_ref =
      bind-Preserves P _ _ (outgoing-Preserves inputs.now peer_ref [])
        (send_to_peer-Preserves P closed)

  send_cookie_reply-Preserves :
      (inputs : Inputs) (from : Endpoint) (mac1 : Bytes) (index : ℕ)
      → Preserves P (send_cookie_reply crates inputs from mac1 index)
  unfolding send_cookie_reply
  send_cookie_reply-Preserves inputs from mac1 index =
      bind-Preserves P _ _ (λ s h. h)
        λ _.
          bind-Preserves P _ _ (λ s h. closed.guarded s _ h)
            λ reply. send_to_peer-Preserves P closed (from, reply)

  pub admit-Preserves :
      (inputs : Inputs) (from : Endpoint) (at : ℕ) (packet mac1 : Bytes)
      → Preserves P (admit crates inputs from at packet mac1)
  unfolding admit admit_under_load
  admit-Preserves inputs from at packet mac1 =
      bind-Preserves P _ _ (λ s h. h)
        λ _.
          bind-Preserves P _ _ (λ s h. h)
            λ _. bind-Preserves P _ _ (under_load-Preserves P closed inputs.now) λ loaded.
              branch-Preserves P loaded _ _
                (bind-Preserves P _ _ (λ s h. h)
                  λ s.
                    branch-Preserves P _ _ _
                      (bind-Preserves P _ _ (λ s h. closed.limited s _ h)
                        λ allowed. ensure-Preserves P allowed _)
                      (seq-Preserves P _ _ (send_cookie_reply-Preserves inputs from mac1 _)
                        (λ s h. h)))
                (λ s h. h)

  pub flush_queue-Preserves :
      (now peer_ref : ℕ) (queue : List UtunPacket)
      → Preserves P (flush_queue crates now peer_ref queue)
  unfolding flush_queue
  flush_queue-Preserves now peer_ref [] = λ s h. h
  flush_queue-Preserves now peer_ref (packet ∷ rest) =
      seq-Preserves P _ _ (change_peer-Preserves P closed peer_ref _ (λ p. alike p _ refl refl)) (
        bind-Preserves P _ _ (outgoing-Preserves now peer_ref _) λ message.
          seq-Preserves P _ _ (send_to_peer-Preserves P closed message)
            (flush_queue-Preserves now peer_ref rest))

  pub confirm_session-Preserves :
      (now peer_ref : ℕ) (queue : List UtunPacket)
      → Preserves P (confirm_session crates now peer_ref queue)
  unfolding confirm_session
  confirm_session-Preserves now peer_ref [] =
      bind-Preserves P _ _ (outgoing-Preserves now peer_ref []) (send_to_peer-Preserves P closed)
  confirm_session-Preserves now peer_ref (packet ∷ rest) =
      flush_queue-Preserves now peer_ref (packet ∷ rest)

  pub send_drained-Preserves :
      (now peer_ref : ℕ) (queue : List UtunPacket)
      → Preserves P (send_drained crates now peer_ref queue)
  unfolding send_drained
  send_drained-Preserves now peer_ref [] = λ s h. h
  send_drained-Preserves now peer_ref (packet ∷ rest) =
      bind-Preserves P _ _ (outgoing-Preserves now peer_ref (utun_payload packet))
        λ result. seq-Preserves P _ _ (encrypted result) (send_drained-Preserves now peer_ref rest)
    where
      encrypted : (r : Result (Endpoint × Bytes)) → Preserves P (send_encrypted crates r)
      encrypted (ok message) = send_to_peer-Preserves P closed message
      encrypted (err e) = λ s h. h
