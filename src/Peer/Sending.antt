-- ===== src/Peer/Sending.antt =====
-- src/peer.rs, `handle_outgoing_transport`: the packet that is sent, and what it needs.
use wireguard_rs.Base.{
  ℕ, ◌+◌, ◌-◌, ◌^◌, ◌<◌, ◌≤◌, ◌≡◌, refl, sym, ap, ◌∙◌, true, some, [], ◌∷◌, ◌++◌, Result, ok, err,
  Bytes, length, ltb, arith, take, slice, copy_at, replicate, length-replicate,
}
use wireguard_rs.Base.Copies.{drop-take, slice-copy_at_self, slice-copy_at_before}
use wireguard_rs.Base.Fallible.{ok_or-eq_ok}
use wireguard_rs.Base.Monad.{
  known_cases, get_cases, try_cases, ensure_cases, modify_cases, bind_cases,
}
use wireguard_rs.Consts.{reject_after_messages, reject_after_time, transport_overhead}
use wireguard_rs.Timestamp.{elapsed}
use wireguard_rs.Types.{Endpoint}
use wireguard_rs.Crates.{Crates}
use wireguard_rs.Crates.Laws.{NoiseLaws}
use wireguard_rs.Message.{our_index, nonce, payload}
use wireguard_rs.Message.Layout.{
  read_of_slice, slice-take, length-headed, headed-first, headed-index, headed-number,
  from_le-slice,
}
use wireguard_rs.Peer.{Peer, Session, SessionType, put_session}
use wireguard_rs.Peer.Rotation.{held}
use wireguard_rs.Peer.Guards.{slot, held-put_session}
use wireguard_rs.Peer.Transport.{
  header, padding, send, handle_outgoing_transport, note_sent, put_back,
}

-- A data packet for a session, as its receiver reads it.
abbrev pub Carries : ℕ → ℕ → Bytes → Bytes → Type 0
Carries index n message packet =
    (take 1 packet ≡ 4 ∷ [])
    × (our_index packet ≡ index)
    × (nonce packet ≡ n)
    × (payload packet ≡ message)

module _ (index n room : ℕ) (message : Bytes) (fits : 16 + length message ≤ room) where
  packed : Bytes
  packed = take (16 + length message) (copy_at 16 message (header index n room))

  zeros : length {A = ℕ} (replicate room 0) ≡ room
  zeros = length-replicate room 0

  length-header : length (header index n room) ≡ room
  unfolding header
  length-header = length-headed 8 4 index n (replicate room 0) (omega (arith, zeros)) ∙ zeros

  -- A field of the header.
  field :
      (from to : ℕ)
      → from ≤ to
      → to ≤ 16
      → slice from to packed ≡ slice from to (header index n room)
  unfolding packed
  field from to f h =
      slice-take from to (16 + length message) _ f (omega arith)
      ∙ slice-copy_at_before 16 from to message (header index n room) f h
          (omega (arith, length-header))

  packed-Carries : index < 256 ^ 4 → n < 256 ^ 8 → Carries index n message packed
  unfolding packed header
  packed-Carries small bounded = (
    field 0 1 (omega arith) (omega arith) ∙ headed-first 8 4 index n (replicate room 0) space,
    read_of_slice 4 4 index packed small
        (field 4 8 (omega arith) (omega arith) ∙ headed-index 8 4 index n (replicate room 0) space),
    from_le-slice 8 8 n packed bounded (
        field 8 16 (omega arith) (omega arith)
        ∙ headed-number 8 4 index n (replicate room 0) space),
    drop-take _ 16 (16 + length message)
        ∙ slice-copy_at_self 16 (16 + length message) message (header index n room) refl
            (omega (arith, length-header)),
  )
    where
      space : 16 ≤ length {A = ℕ} (replicate room 0)
      space = omega (arith, zeros)

module _ {N T : Type 0} (crates : Crates N T) (laws : NoiseLaws crates) where
  -- The message is the ciphertext of the packet, padded with zeros to a multiple of 16 bytes.
  abbrev pub Encrypts : Session N → Bytes → Bytes → Type 0
  Encrypts s plain message =
      (crates.write_message s.noise (plain ++ replicate (padding (length plain)) 0)
        (length plain + padding (length plain) + transport_overhead - 16)).1
      ≡ ok message

  -- What a session gives for a packet: only a young session with numbers left sends.
  abbrev pub Sealed : ℕ → Bytes → Session N → Session N × Result (Bytes × ℕ) → Type 0
  Sealed now plain s (s', ok (packet, len)) =
      (n : ℕ) × (message : Bytes) × (crates.sending_nonce s.noise ≡ ok n)
      × (ltb n reject_after_messages ≡ true)
      × (ltb (elapsed now s.birthday) reject_after_time ≡ true)
      × Encrypts s plain message
      × Carries s.their_index n message packet
  Sealed now plain s (s', err e) = s'.our_index ≡ s.our_index

  send-Sealed :
      (now : ℕ) (packet : Bytes) (s : Session N)
      → s.their_index < 256 ^ 4
      → Sealed now packet s (send crates now packet s)
  unfolding send packed
  send-Sealed now packet s small = get_cases P _ s (
      try_cases P _ _ s (λ e _. refl)
        λ n number.
          ensure_cases P _ _ _ s (λ _. refl)
            λ few.
              ensure_cases P _ _ _ s (λ _. refl)
                λ young.
                  bind_cases P _ _ s (λ s' e h. ap (λ r. (r.0).our_index) (sym h))
                    λ s' message h. (
                      n,
                      message,
                      number,
                      few,
                      young,
                      ap (λ r. r.1) h,
                      packed-Carries s.their_index n
                          (length packet + padding (length packet) + transport_overhead) message
                          (omega
                            (arith, laws.fits _ _ _ _ message (ap (λ r. ((r.0).noise, r.1)) h)))
                          small (below few),
                    ))
    where
      P : Session N × Result (Bytes × ℕ) → Type 0
      P = Sealed now packet s

      below : {n : ℕ} → ltb n reject_after_messages ≡ true → n < 256 ^ 8
      below h = ground arith

  -- What a sent packet carries, and what stays where none is sent.
  abbrev pub Sent : ℕ → Bytes → Peer N → Peer N × Result (Endpoint × Bytes) → Type 0
  Sent now plain p (q, ok (endpoint, packet)) =
      (p.info.endpoint ≡ some endpoint)
      × ((s : Session N) × (n : ℕ) × (message : Bytes) × (p.sessions.current ≡ some s)
          × (crates.sending_nonce s.noise ≡ ok n)
          × (ltb n reject_after_messages ≡ true)
          × (ltb (elapsed now s.birthday) reject_after_time ≡ true)
          × Encrypts s plain message
          × Carries s.their_index n message packet)
  Sent now plain p (q, err e) =
      (q.info ≡ p.info) × (q.timers ≡ p.timers) × (q.tx_bytes ≡ p.tx_bytes)

  -- A packet goes to the known endpoint, by the current session, which has to be younger than
  -- `REJECT_AFTER_TIME` and to have a next number below `REJECT_AFTER_MESSAGES`. Its message is the
  -- ciphertext of the plaintext padded to a multiple of 16 bytes; the receiver reads its type, the
  -- session index, that number and that ciphertext back from it. Where nothing is sent, the endpoint,
  -- the timers and the sent bytes stay. This is for a `their_index` of 32 bits, and where snow writes no
  -- more than the buffer holds.
  pub handle_outgoing_transport-Sent :
      (now : ℕ) (packet : Bytes) (p : Peer N)
      → ((s : Session N) → p.sessions.current ≡ some s → s.their_index < 256 ^ 4)
      → Sent now packet p (handle_outgoing_transport crates now packet p)
  unfolding handle_outgoing_transport put_session
  handle_outgoing_transport-Sent now packet p small = get_cases P _ p (
      try_cases P _ _ p (λ e _. (refl, refl, refl))
        λ s current.
          try_cases P _ _ p (λ e _. (refl, refl, refl))
            λ endpoint known.
              known_cases P (Lent s) _ _ p
                (lent s (send crates now packet s)
                  (send-Sealed now packet s (small s (ok_or-eq_ok _ _ _ current))))
                (λ q e kept. kept)
                λ q sent (n, message, number, few, young, written, carried). modify_cases P _ _ q (
                  ok_or-eq_ok _ _ _ known,
                  (s, n, message, ok_or-eq_ok _ _ _ current, number, few, young, written, carried),
                ))
    where
      P : Peer N × Result (Endpoint × Bytes) → Type 0
      P = Sent now packet p

      Lent : Session N → Peer N × Result (Bytes × ℕ) → Type 0
      Lent s (q, ok sent) = Sealed now packet s (s, ok sent)
      Lent s (q, err e) = (q.info ≡ p.info) × (q.timers ≡ p.timers) × (q.tx_bytes ≡ p.tx_bytes)

      lent :
          (s : Session N) (r : Session N × Result (Bytes × ℕ))
          → Sealed now packet s r
          → Lent s (put_back SessionType.current p r)
      lent s (s', ok (out, len)) sealed = sealed
      lent s (s', err e) sealed = (refl, refl, refl)

module _ {N T : Type 0} (crates : Crates N T) where
  our_index-send :
      (now : ℕ) (packet : Bytes) (s : Session N)
      → ((send crates now packet s).0).our_index ≡ s.our_index
  unfolding send
  our_index-send now packet s = get_cases P _ s (
      try_cases P _ _ s (λ e _. refl)
        λ n _.
          ensure_cases P _ _ _ s (λ _. refl)
            λ _.
              ensure_cases P _ _ _ s (λ _. refl)
                λ _.
                  bind_cases P _ _ s (λ s' e h. ap (λ r. (r.0).our_index) (sym h))
                    λ s' message h. ap (λ r. (r.0).our_index) (sym h))
    where
      P : Session N × Result (Bytes × ℕ) → Type 0
      P r = (r.0).our_index ≡ s.our_index

  -- Sending changes no session index.
  pub held-handle_outgoing_transport :
      (now : ℕ) (packet : Bytes) (p : Peer N) (i : ℕ)
      → held i (handle_outgoing_transport crates now packet p).0.sessions ≡ held i p.sessions
  unfolding handle_outgoing_transport note_sent slot
  held-handle_outgoing_transport now packet p i = get_cases P _ p (
      try_cases P _ _ p (λ e _. refl)
        λ s current.
          try_cases P _ _ p (λ e _. refl)
            λ endpoint _.
              known_cases P (λ r. held i (r.0).sessions ≡ held i p.sessions) _ _ p
                (lent s (ok_or-eq_ok _ _ _ current)) (λ q e kept. kept)
                λ q sent kept. modify_cases P _ _ q kept)
    where
      P : Peer N × Result (Endpoint × Bytes) → Type 0
      P r = held i (r.0).sessions ≡ held i p.sessions

      lent :
          (s : Session N)
          → p.sessions.current ≡ some s
          → held i (put_back SessionType.current p (send crates now packet s)).0.sessions
            ≡ held i p.sessions
      lent s current =
          held-put_session i SessionType.current s (send crates now packet s).0 p current
            (our_index-send now packet s)
