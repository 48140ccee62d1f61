-- ===== src/Peer/Ready.antt =====
-- src/peer.rs: `ready_for_transport` as the promise that `handle_outgoing_transport` keeps.
use wireguard_rs.Base.{
  ℕ, ◌+◌, ◌-◌, ◌≤◌, ◌≡◌, refl, ap, Bool, true, false, not, Option, none, some, ◌++◌, Result, ok,
  err, ok_or, Error, Bytes, length, ltb, leb, replicate, is_ok, arith, if◌then◌else◌, length-append,
  length-replicate,
}
use wireguard_rs.Base.Fallible
use wireguard_rs.Base.Monad.{
  get_cases, ensure_cases, bind_cases, pass_cases, modify_cases, known_cases,
}
use wireguard_rs.Consts.{reject_after_messages, reject_after_time, transport_overhead}
use wireguard_rs.Timestamp.{elapsed}
use wireguard_rs.Types.{Endpoint}
use wireguard_rs.Crates.{Crates}
use wireguard_rs.Peer.{
  Peer, Session, SessionType, ready_for_transport, session_ready, nonce_reaches, unwrap,
}
use wireguard_rs.Peer.Transport.{send, handle_outgoing_transport, padding, put_back}

module _ {N T : Type 0} (crates : Crates N T) where
  -- snow encrypts in this session whatever makes, with its tag, a message of 65535 bytes at most, the
  -- longest that it knows, and fits the buffer.
  abbrev pub Writes : N → Type 0
  Writes noise =
      (bytes : Bytes) (room : ℕ)
      → length bytes + 16 ≤ room
      → length bytes + 16 ≤ 65535
      → is_ok (crates.write_message noise bytes room).1 ≡ true

  -- A session that is ready is young enough and has numbers left.
  pub record Usable (now : ℕ) (s : Session N) : Type 0 where
    pub young : ltb (elapsed now s.birthday) reject_after_time ≡ true
    pub number : ℕ
    pub next : crates.sending_nonce s.noise ≡ ok number
    pub few : ltb number reject_after_messages ≡ true

  session_ready-Usable :
      (now : ℕ) (s : Session N) → session_ready crates now (some s) ≡ ok true → Usable now s
  unfolding session_ready nonce_reaches
  session_ready-Usable now s h =
      by_age (ltb (elapsed now s.birthday) reject_after_time) refl (crates.sending_nonce s.noise)
        refl h
    where
      reached : Result ℕ → Result Bool
      reached r =
          Fallible.◌>>=◌ (Fallible.◌>>=◌ (unwrap r) λ n. ok (leb reject_after_messages n))
            λ b. ok (not b)

      by_age :
          (young : Bool)
          → ltb (elapsed now s.birthday) reject_after_time ≡ young
          → (r : Result ℕ) → crates.sending_nonce s.noise ≡ r
          → (if young then reached r else ok false) ≡ ok true
          → Usable now s
      by_age true young (ok n) next h = record {
        young = young;
        number = n;
        next = next;
        few = ground (arith, h);
      }
      by_age true young (err e) next h = absurd (ground arith)
      by_age false young r next h = absurd (ground arith)

  send-is_ok :
      (now : ℕ) (packet : Bytes) (s : Session N)
      → Usable now s
      → length packet + padding (length packet) + 16 ≤ 65535
      → Writes s.noise
      → is_ok (send crates now packet s).1 ≡ true
  unfolding send
  send-is_ok now packet s u short writes = get_cases P _ s (
      pass_cases P _ _ s (ap (λ r. (s, r)) u.next) (
        ensure_cases P _ _ _ s (λ h. absurd (ground (arith, h, u.few)))
          λ _.
            ensure_cases P _ _ _ s (λ h. absurd (ground (arith, h, u.young)))
              λ _.
                bind_cases P _ _ s (λ s' e h. absurd (fails e (ap (λ r. r.1) h)))
                  (λ s' message h. refl)))
    where
      P : Session N × Result (Bytes × ℕ) → Type 0
      P r = is_ok r.1 ≡ true

      plaintext : Bytes
      plaintext = packet ++ replicate (padding (length packet)) 0

      room : ℕ
      room = length packet + padding (length packet) + transport_overhead - 16

      fits : length plaintext + 16 ≤ room
      fits = omega (
        arith,
        length-append packet (replicate (padding (length packet)) 0),
        length-replicate {A = ℕ} (padding (length packet)) 0,
      )

      small : length plaintext + 16 ≤ 65535
      small = omega (
        arith,
        short,
        length-append packet (replicate (padding (length packet)) 0),
        length-replicate {A = ℕ} (padding (length packet)) 0,
      )

      fails : (e : Error) → (crates.write_message s.noise plaintext room).1 ≡ err e → ⊥
      fails e h = ground (arith, writes plaintext room fits small, h)

  Current : ℕ → Peer N → Type 0
  Current now p = (s : Session N) × (p.sessions.current ≡ some s) × Usable now s

  ready_for_transport-Current :
      (now : ℕ) (p : Peer N) → ready_for_transport crates now p ≡ ok true → Current now p
  unfolding ready_for_transport session_ready Current
  ready_for_transport-Current now p = by_session p.sessions.current refl
    where
      by_session :
          (current : Option (Session N))
          → p.sessions.current ≡ current
          → session_ready crates now current ≡ ok true
          → Current now p
      by_session none at h = absurd (ground (arith, h))
      by_session (some s) at h = (s, at, session_ready-Usable now s h)

  is_ok-put_back :
      {A : Type 0} (kind : SessionType) (p : Peer N) (r : Session N × Result A)
      → is_ok r.1 ≡ true
      → is_ok (put_back kind p r).1 ≡ true
  is_ok-put_back kind p (s, result) h = h

  -- A peer that is ready for transport sends every packet that makes, padded and with its tag, at most
  -- 65535 bytes, and to its endpoint, where it has one and snow encrypts in the current session all that
  -- gives a message of that size and fits the buffer.
  pub handle_outgoing_transport-ready :
      (now : ℕ) (packet : Bytes) (p : Peer N) (endpoint : Endpoint)
      → ready_for_transport crates now p ≡ ok true
      → p.info.endpoint ≡ some endpoint
      → length packet + padding (length packet) + 16 ≤ 65535
      → ((s : Session N) → p.sessions.current ≡ some s → Writes s.noise)
      → (out : Bytes) × ((handle_outgoing_transport crates now packet p).1 ≡ ok (endpoint, out))
  unfolding handle_outgoing_transport Current
  handle_outgoing_transport-ready now packet p endpoint ready known short writes =
      let (s, at, usable) = ready_for_transport-Current now p ready in
      get_cases P _ p (
        pass_cases P _ _ p (ap (λ o. (p, ok_or o Error.no_current_session)) at) (
          pass_cases P _ _ p (ap (λ o. (p, ok_or o Error.no_known_peer_endpoint)) known) (
            known_cases P (λ r. is_ok r.1 ≡ true) _ _ p
              (is_ok-put_back SessionType.current p (send crates now packet s)
                (send-is_ok now packet s usable short (writes s at)))
              (λ q e h. absurd (ground (arith, h)))
              λ q sent _. modify_cases P _ _ q (sent.0, refl))))
    where
      P : Peer N × Result (Endpoint × Bytes) → Type 0
      P r = (out : Bytes) × (r.1 ≡ ok (endpoint, out))
