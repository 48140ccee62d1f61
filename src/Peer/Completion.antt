-- ===== src/Peer/Completion.antt =====
-- src/peer.rs, `complete_incoming_handshake`: what it needs of the timestamp of an initiation, and what
-- it leaves in the peer.
use wireguard_rs.Base.{
  ℕ, ◌+◌, ◌≡◌, refl, subst, ap, ◌∙◌, true, false, Option, none, some, [], ◌∷◌, Result, ok, err,
  Error, Bytes, bytes_lt, arith,
}
use wireguard_rs.Base.Monad.{
  known_cases, get_cases, try_cases, then_cases, ensure_cases, modify_cases, pass_cases, M, ◌>>◌,
}
use wireguard_rs.Timestamp.{Tai64n, tai64n_lt}
use wireguard_rs.Types.{Endpoint}
use wireguard_rs.Crates.{Crates}
use wireguard_rs.Peer.{Peer, Session, to_list}
use wireguard_rs.Peer.Responder.{IncompleteIncomingHandshake}
use wireguard_rs.Peer.Rotation.{count, held, replace_next-count, Parked, replace_next-Parked}
use wireguard_rs.Peer.Handshake.{
  complete_incoming_handshake, get_response_packet, newer, into_transport, replace_next,
}

-- Strictly after the last initiation, where there was one.
abbrev pub IsLater : Tai64n → Option Tai64n → Type 0
IsLater t none = Unit {0}
IsLater t (some last) = tai64n_lt last t ≡ true

abbrev pub Keeps : {N : Type 0} → Peer N → Peer N → Type 0
Keeps p q = (q.sessions ≡ p.sessions) × (q.last_handshake_tai64n ≡ p.last_handshake_tai64n)

-- A step that changes neither, and whose session, read off its result, has the index.
abbrev pub KeepsIndex : {N A : Type 0} → (A → Session N) → ℕ → Peer N → Peer N × Result A → Type 0
KeepsIndex f index p (q, ok a) = Keeps p q × ((f a).our_index ≡ index)
KeepsIndex f index p (q, err e) = Keeps p q

Keeps-trans : {N : Type 0} (p q r : Peer N) → Keeps p q → Keeps q r → Keeps p r
Keeps-trans p q r (a, b) (c, d) = (c ∙ a, d ∙ b)

newer_cases :
    {N B : Type 0} (P : Peer N × Result B → Type 0) (t : Tai64n) (last : Option Tai64n)
    (k : M (Peer N) B) (p : Peer N)
    → ((e : Error) → P (p, err e))
    → (IsLater t last → P (k p))
    → P ((newer t last >> k) p)
newer_cases P t none k p failed went =
    then_cases P (newer t none) k p (λ s' e h. subst P (ap (λ r. (r.0, err e)) h) (failed e))
      (λ s' h. subst (λ s. P (k s)) (ap (λ r. r.0) h) (went tt))
newer_cases P t (some last) k p failed went =
    ensure_cases P (tai64n_lt last t) Error.handshake_timestamp_earlier k p (λ _. failed _)
      (λ later. went later)

newer_refused :
    {N B : Type 0} (t : Tai64n) (before : Option Tai64n) (last : Tai64n) (k : M (Peer N) B)
    (p : Peer N)
    → before ≡ some last
    → tai64n_lt last t ≡ false
    → (newer t before >> k) p ≡ (p, err Error.handshake_timestamp_earlier)
newer_refused t none last k p e stale = ground arith
newer_refused t (some l) last k p e stale =
    ensure_cases (λ r. r ≡ (p, err Error.handshake_timestamp_earlier)) (tai64n_lt l t) _ k p
      (λ _. refl) (λ later. ground arith)

module _ {N T : Type 0} (crates : Crates N T) where
  get_response_packet-KeepsIndex :
      (now : ℕ) (session : Session N) (p : Peer N)
      → KeepsIndex (λ r. r.1) session.our_index p (get_response_packet crates now session p)
  unfolding get_response_packet
  get_response_packet-KeepsIndex now session p =
      try_cases P _ _ p (λ e _. (refl, refl))
        λ message _. pass_cases P _ _ p refl ((refl, refl), refl)
    where
      P : Peer N × Result (Bytes × Session N) → Type 0
      P = KeepsIndex (λ r. r.1) session.our_index p

  into_transport-KeepsIndex :
      (session : Session N) (p : Peer N)
      → KeepsIndex (λ s. s) session.our_index p (into_transport crates session p)
  into_transport-KeepsIndex session p =
      try_cases (KeepsIndex (λ s. s) session.our_index p) _ _ p (λ e _. (refl, refl))
        λ noise _. ((refl, refl), refl)

  -- What a run of `complete_incoming_handshake` leaves.
  abbrev pub Completed : ℕ → Tai64n → Peer N → Peer N × Result (Bytes × Option ℕ) → Type 0
  Completed index t p (q, ok (packet, dead)) =
      IsLater t p.last_handshake_tai64n
      × (q.last_handshake_tai64n ≡ some t)
      × ((i : ℕ)
          → held i q.sessions + count i (to_list dead) ≡ held i p.sessions + count i (index ∷ []))
      × Parked index p.sessions q.sessions dead
  Completed index t p (q, err e) = Keeps p q

  -- A handshake is completed only if its timestamp is strictly after the last one, which it replaces;
  -- a session with the new index is pending then, what was pending is the past session, the index of the
  -- one that was past is handed over as dead, the current session stays, and so does the past one where
  -- nothing was pending. Where it fails, the sessions and the last timestamp stay.
  pub complete_incoming_handshake-Completed :
      (now : ℕ) (addr : Endpoint) (index : ℕ) (h : IncompleteIncomingHandshake N) (p : Peer N)
      → Completed index h.timestamp p (complete_incoming_handshake crates now addr index h p)
  unfolding complete_incoming_handshake
  complete_incoming_handshake-Completed now addr index h p = get_cases P _ p (
      newer_cases P h.timestamp p.last_handshake_tai64n _ p (λ e. (refl, refl))
        λ later.
          try_cases P _ _ p (λ e _. (refl, refl))
            λ _ _.
              known_cases P (KeepsIndex (λ r. r.1) index p) _ _ p
                (get_response_packet-KeepsIndex now _ p) (λ q e kept. kept)
                λ q r (kept, at_index).
                  known_cases P (KeepsIndex (λ s. s) (r.1).our_index q) _ _ q
                    (into_transport-KeepsIndex (r.1) q)
                    (λ q' e kept'. Keeps-trans p q q' kept kept')
                    λ q' session (kept', at_index'). pass_cases P _ _ q' refl (
                      modify_cases P _ _ _ (
                        later,
                        refl,
                        λ i.
                            replace_next-count i session q'.sessions
                            ∙ ap (λ s. held i s + count i (session.our_index ∷ []))
                                (kept'.0 ∙ kept.0)
                            ∙ ap (λ j. held i p.sessions + count i (j ∷ [])) (at_index' ∙ at_index),
                        subst
                            (λ s.
                              Parked index s (replace_next session q'.sessions).0
                                (replace_next session q'.sessions).1)
                            (kept'.0 ∙ kept.0)
                            (subst
                              (λ j.
                                Parked j q'.sessions (replace_next session q'.sessions).0
                                  (replace_next session q'.sessions).1)
                              (at_index' ∙ at_index) (replace_next-Parked session q'.sessions)),
                      )))
    where
      P : Peer N × Result (Bytes × Option ℕ) → Type 0
      P = Completed index h.timestamp p

bytes_lt_irrefl : (xs : Bytes) → bytes_lt xs xs ≡ false
bytes_lt_irrefl [] = refl
bytes_lt_irrefl (x ∷ xs) = ground (arith, bytes_lt_irrefl xs)

module _ {N T : Type 0} (crates : Crates N T) where
  stale_refused :
      (now : ℕ) (addr : Endpoint) (index : ℕ) (h : IncompleteIncomingHandshake N) (p : Peer N)
      (last : Tai64n)
      → p.last_handshake_tai64n ≡ some last
      → tai64n_lt last h.timestamp ≡ false
      → complete_incoming_handshake crates now addr index h p
        ≡ (p, err Error.handshake_timestamp_earlier)
  unfolding complete_incoming_handshake
  stale_refused now addr index h p last e stale =
      get_cases P _ p (newer_refused h.timestamp p.last_handshake_tai64n last _ p e stale)
    where
      P : Peer N × Result (Bytes × Option ℕ) → Type 0
      P r = r ≡ (p, err Error.handshake_timestamp_earlier)

  -- An initiation is answered at most once: after it was completed, one with the same timestamp is
  -- refused, and the peer stays as it is.
  pub replayed_initiation_refused :
      (now : ℕ) (addr : Endpoint) (index : ℕ) (h : IncompleteIncomingHandshake N) (p q : Peer N)
      (response : Bytes × Option ℕ)
      → complete_incoming_handshake crates now addr index h p ≡ (q, ok response)
      → (now' : ℕ) (addr' : Endpoint) (index' : ℕ) (h' : IncompleteIncomingHandshake N)
      → h'.timestamp ≡ h.timestamp
      → complete_incoming_handshake crates now' addr' index' h' q
        ≡ (q, err Error.handshake_timestamp_earlier)
  replayed_initiation_refused now addr index h p q (packet, dead) e now' addr' index' h' same =
      let done =
        subst (Completed crates index h.timestamp p) e
          (complete_incoming_handshake-Completed crates now addr index h p) in
      stale_refused now' addr' index' h' q h.timestamp (done.1)
        (ap (λ t. tai64n_lt h.timestamp t) same ∙ bytes_lt_irrefl h.timestamp.tai64n)
