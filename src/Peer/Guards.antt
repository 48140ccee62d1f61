-- ===== src/Peer/Guards.antt =====
-- src/peer.rs, `handle_incoming_transport`: what a data packet must pass, and what it changes.
use wireguard_rs.Base.{
  ℕ, ◌+◌, ◌≡◌, refl, sym, ap, ◌∙◌, true, Option, none, some, Result, ok, err, Bytes, length, ltb,
  arith, ◌⊎◌, inl, inr,
}
use wireguard_rs.Base.Fallible.{ok_or-eq_ok}
use wireguard_rs.Base.Monad.{
  known_cases, get_cases, try_cases, then_known_cases, ensure_cases, modify_cases, pass_cases,
}
use wireguard_rs.Consts.{reject_after_messages, reject_after_time}
use wireguard_rs.Timestamp.{elapsed}
use wireguard_rs.Types.{Endpoint}
use wireguard_rs.Crates.{Crates}
use wireguard_rs.AntiReplay
use wireguard_rs.Message.{our_index, nonce}
use wireguard_rs.Peer.{
  Peer, Session, Sessions, SessionType, SessionTransition, no_transition, transition, index_of,
  to_list, find_session, put_session, matching, or_else,
}
use wireguard_rs.Peer.Rotation.{count, held}
use wireguard_rs.Peer.Transport.{
  receive, handle_incoming_transport, note_received, rotate, truncated, put_back,
}

abbrev pub dead : SessionTransition → Option ℕ
dead no_transition = none
dead (transition i) = i

or_else-eq_some :
    {A : Type 0} (a b : Option A) (x : A) → or_else a b ≡ some x → (a ≡ some x) ⊎ (b ≡ some x)
or_else-eq_some none b x e = inr e
or_else-eq_some (some a) b x e = inl e

module _ {N : Type 0} where
  unfoldable pub slot : SessionType → Sessions N → Option (Session N)
  slot SessionType.past s = s.past
  slot SessionType.current s = s.current
  slot SessionType.next s = s.next

  -- The other fields of the peer.
  Beside : Peer N → Peer N → Type 0
  Beside p q = (q.info ≡ p.info) × (q.timers ≡ p.timers) × (q.rx_bytes ≡ p.rx_bytes)

  matching-eq_some :
      (i : ℕ) (k : SessionType) (o : Option (Session N)) (s : Session N) (kind : SessionType)
      → matching i k o ≡ some (s, kind)
      → (o ≡ some s) × (k ≡ kind)
  matching-eq_some i k none s kind e = cc
  matching-eq_some i k (some t) s kind e = ground arith

  matching-slot :
      (i : ℕ) (k : SessionType) (t : Sessions N) (s : Session N) (kind : SessionType)
      → matching i k (slot k t) ≡ some (s, kind)
      → slot kind t ≡ some s
  matching-slot i k t s kind e =
      let (at, same) = matching-eq_some i k (slot k t) s kind e in
      ap (λ c. slot c t) (sym same) ∙ at

  find_session-slot :
      (i : ℕ) (p : Peer N) (s : Session N) (kind : SessionType)
      → find_session i p ≡ some (s, kind)
      → slot kind p.sessions ≡ some s
  unfolding find_session slot
  find_session-slot i p s kind e =
      elim (or_else-eq_some (matching i SessionType.next p.sessions.next) _ _ e) [
        | inl h ↦ matching-slot i SessionType.next p.sessions s kind h
        | inr rest ↦
            elim (or_else-eq_some (matching i SessionType.current p.sessions.current) _ _ rest) [
              | inl h ↦ matching-slot i SessionType.current p.sessions s kind h
              | inr h ↦ matching-slot i SessionType.past p.sessions s kind h
            ]
      ]

  pub held-put_session :
      (i : ℕ) (kind : SessionType) (s s' : Session N) (p : Peer N)
      → slot kind p.sessions ≡ some s
      → s'.our_index ≡ s.our_index
      → held i (put_session kind s' p).sessions ≡ held i p.sessions
  unfolding put_session slot
  held-put_session i SessionType.past s s' p e same = ground (arith, ap index_of e)
  held-put_session i SessionType.current s s' p e same = ground (arith, ap index_of e)
  held-put_session i SessionType.next s s' p e same = ground (arith, ap index_of e)

  put_session-Beside :
      (kind : SessionType) (s : Session N) (p : Peer N) → Beside p (put_session kind s p)
  unfolding put_session Beside
  put_session-Beside SessionType.past s p = (refl, refl, refl)
  put_session-Beside SessionType.current s p = (refl, refl, refl)
  put_session-Beside SessionType.next s p = (refl, refl, refl)

module _ {N T : Type 0} (crates : Crates N T) where
  held-rotate :
      (i now : ℕ) (kind : SessionType) (p : Peer N)
      → held i (rotate now kind p).0.sessions + count i (to_list (dead (rotate now kind p).1))
        ≡ held i p.sessions
  unfolding rotate
  held-rotate i now SessionType.past p = ground arith
  held-rotate i now SessionType.current p = ground arith
  held-rotate i now SessionType.next p = ground arith

  sessions-note_received :
      (now : ℕ) (raw : Bytes) (p : Peer N) → (note_received now raw p).sessions ≡ p.sessions
  unfolding note_received
  sessions-note_received now raw p = refl

  -- What a session asks of a packet.
  abbrev pub Passes : ℕ → Bytes → Session N → Type 0
  Passes now packet s =
      (crates.is_handshake_finished s.noise ≡ true)
      × (ltb (nonce packet) reject_after_messages ≡ true)
      × (ltb (elapsed now s.birthday) reject_after_time ≡ true)
      × ((AntiReplay.update s.anti_replay (nonce packet)).1 ≡ ok tt)

  abbrev pub Received : ℕ → Bytes → Session N → Session N × Result Bytes → Type 0
  Received now packet s (s', ok raw) =
      (s'.our_index ≡ s.our_index)
      × (s'.anti_replay ≡ (AntiReplay.update s.anti_replay (nonce packet)).0)
      × Passes now packet s
  Received now packet s (s', err e) = s'.our_index ≡ s.our_index

  pub receive-Received :
      (now : ℕ) (packet : Bytes) (s : Session N)
      → Received now packet s (receive crates now packet s)
  unfolding receive
  receive-Received now packet s = get_cases P _ s (
      ensure_cases P _ _ _ s (λ _. refl)
        λ finished.
          ensure_cases P _ _ _ s (λ _. refl)
            λ few.
              ensure_cases P _ _ _ s (λ _. refl)
                λ young.
                  then_known_cases P Updated _ _ s (refl, refl, refl) (λ s' e (same, _, _). same)
                    λ s' (same, window, fresh).
                      then_known_cases P (Kept s') _ _ s' (refl, refl)
                        (λ t e (same', _). same' ∙ same)
                        λ t (same', window').
                          known_cases P (Kept t) _ _ t (refl, refl)
                            (λ u e (same'', _). same'' ∙ same' ∙ same)
                            λ u plaintext (same'', window'').
                              try_result (truncated crates plaintext (length packet)) u
                                (same'' ∙ same' ∙ same) (window'' ∙ window' ∙ window)
                                (finished, few, young, sym fresh))
    where
      P : Session N × Result Bytes → Type 0
      P = Received now packet s

      Updated : Session N × Result (Unit {0}) → Type 0
      Updated r =
          ((r.0).our_index ≡ s.our_index)
          × ((r.0).anti_replay ≡ (AntiReplay.update s.anti_replay (nonce packet)).0)
          × (r.1 ≡ (AntiReplay.update s.anti_replay (nonce packet)).1)

      Kept : {A : Type 0} → Session N → Session N × Result A → Type 0
      Kept s r = ((r.0).our_index ≡ s.our_index) × ((r.0).anti_replay ≡ s.anti_replay)

      try_result :
          (r : Result Bytes) (u : Session N)
          → u.our_index ≡ s.our_index
          → u.anti_replay ≡ (AntiReplay.update s.anti_replay (nonce packet)).0
          → Passes now packet s
          → P (u, r)
      try_result (ok raw) u same window passes = (same, window, passes)
      try_result (err e) u same window passes = same

  -- What a data packet has passed where it is taken, and what stays where it is not.
  abbrev pub Delivered :
      ℕ → Endpoint → Bytes → Peer N → Peer N × Result (Bytes × SessionTransition) → Type 0
  Delivered now addr packet p (q, ok (raw, moved)) =
      ((s : Session N) × (kind : SessionType) × (find_session (our_index packet) p ≡ some (s, kind))
        × Passes now packet s)
      × ((i : ℕ) → held i q.sessions + count i (to_list (dead moved)) ≡ held i p.sessions)
      × (q.info.endpoint ≡ some addr)
  Delivered now addr packet p (q, err e) =
      ((i : ℕ) → held i q.sessions ≡ held i p.sessions)
      × (q.info ≡ p.info)
      × (q.timers ≡ p.timers)
      × (q.rx_bytes ≡ p.rx_bytes)

  Lent : ℕ → Bytes → Session N → Peer N → Peer N × Result Bytes → Type 0
  Lent now packet s p (q, ok raw) =
      ((i : ℕ) → held i q.sessions ≡ held i p.sessions) × Passes now packet s
  Lent now packet s p (q, err e) = ((i : ℕ) → held i q.sessions ≡ held i p.sessions) × Beside p q

  put_back-Lent :
      (now : ℕ) (packet : Bytes) (s : Session N) (kind : SessionType) (p : Peer N)
      → slot kind p.sessions ≡ some s
      → (r : Session N × Result Bytes) → Received now packet s r
      → Lent now packet s p (put_back kind p r)
  unfolding Lent
  put_back-Lent now packet s kind p at (s', ok raw) (same, _, passes) =
      (λ i. held-put_session i kind s s' p at same, passes)
  put_back-Lent now packet s kind p at (s', err e) same =
      (λ i. held-put_session i kind s s' p at same, put_session-Beside kind s' p)

  -- A data packet is taken only if its index is that of a session whose handshake is finished, which is
  -- younger than `REJECT_AFTER_TIME`, and whose window accepts the number of the packet, a number below
  -- `REJECT_AFTER_MESSAGES`. No session index is lost but the one that is handed over, and the endpoint
  -- becomes the source of the packet. Where it is refused, the endpoint, the timers, the received bytes
  -- and the session indices stay.
  pub handle_incoming_transport-Delivered :
      (now : ℕ) (addr : Endpoint) (packet : Bytes) (p : Peer N)
      → Delivered now addr packet p (handle_incoming_transport crates now addr packet p)
  unfolding handle_incoming_transport Lent Beside
  handle_incoming_transport-Delivered now addr packet p = get_cases P _ p (
      try_cases P _ _ p (λ e _. (λ i. refl, refl, refl, refl))
        λ (s, kind) found.
          known_cases P (Lent now packet s p) _ _ p
            (put_back-Lent now packet s kind p
              (find_session-slot _ p s kind (ok_or-eq_ok _ _ _ found)) _
              (receive-Received now packet s))
            (λ q e (kept, beside). (kept, beside.0, beside.1, beside.2))
            λ q raw (kept, passes). modify_cases P _ _ q (
              pass_cases P _ _ _ refl (
                modify_cases P _ _ _ (
                  (s, kind, ok_or-eq_ok _ _ _ found, passes),
                  (λ i.
                      held-rotate i now kind (note_received now raw q)
                      ∙ ap (held i) (sessions-note_received now raw q)
                      ∙ kept i),
                  refl,
                ))))
    where
      P : Peer N × Result (Bytes × SessionTransition) → Type 0
      P = Delivered now addr packet p
