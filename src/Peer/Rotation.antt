-- ===== src/Peer/Rotation.antt =====
-- src/peer.rs: the indices of the three sessions. What leaves the sessions is handed to the caller,
-- which keeps the map from indices to peers by it.
use wireguard_rs.Base.{
  ℕ, ◌+◌, ◌≡◌, refl, sym, ap, ◌∙◌, Option, none, some, List, [], ◌∷◌, ◌++◌, Result, ok, err, Error,
  Bytes, is_some, ◌==◌, if◌then◌else◌, arith,
}
use wireguard_rs.Base.Fallible.{ok_or-eq_ok}
use wireguard_rs.Base.Monad.{known_cases, get_cases, try_cases, modify_cases, pass_cases}
use wireguard_rs.Timestamp.{Tai64n}
use wireguard_rs.Types.{Endpoint}
use wireguard_rs.Crates.{Crates}
use wireguard_rs.Peer.{Peer, Session, Sessions, or_else, index_of, to_list, get_mapped_indices}
use wireguard_rs.Peer.Handshake.{
  park, replace_next, initiate_new_session, process_incoming_handshake_response, into_transport,
}

-- How often a number stands in a list.
abbrev pub count : ℕ → List ℕ → ℕ
count i [] = 0
count i (x ∷ xs) = (if x == i then 1 else 0) + count i xs

pub count-append : (i : ℕ) (xs ys : List ℕ) → count i (xs ++ ys) ≡ count i xs + count i ys
count-append i [] ys = omega arith
count-append i (x ∷ xs) ys = omega (arith, count-append i xs ys)

module _ {N : Type 0} where
  -- How many of the three sessions have the index.
  abbrev pub held : ℕ → Sessions N → ℕ
  held i s =
      count i (to_list (index_of s.past))
      + count i (to_list (index_of s.current))
      + count i (to_list (index_of s.next))

  pub count-get_mapped_indices :
      (i : ℕ) (p : Peer N) → count i (get_mapped_indices p) ≡ held i p.sessions
  unfolding get_mapped_indices
  count-get_mapped_indices i p = ground (
    arith,
    count-append i (to_list (index_of p.sessions.past))
        (to_list (index_of p.sessions.current) ++ to_list (index_of p.sessions.next)),
    count-append i (to_list (index_of p.sessions.current)) (to_list (index_of p.sessions.next)),
  )

  pub replace_next-count :
      (i : ℕ) (session : Session N) (s : Sessions N)
      → held i (replace_next session s).0 + count i (to_list (replace_next session s).1)
        ≡ held i s + count i (session.our_index ∷ [])
  unfolding replace_next
  replace_next-count i session s = ground arith

  -- A session of the index is pending; the one that was pending before it is the past one now, and the
  -- index of the one that was past is dead. The current one stays.
  abbrev pub Parked : ℕ → Sessions N → Sessions N → Option ℕ → Type 0
  Parked index before after dead =
      (index_of after.next ≡ some index)
      × (after.current ≡ before.current)
      × (after.past ≡ or_else before.next before.past)
      × (dead ≡ (if is_some before.next then index_of before.past else none))

  pub replace_next-Parked :
      (session : Session N) (s : Sessions N)
      → Parked session.our_index s (replace_next session s).0 (replace_next session s).1
  unfolding replace_next
  replace_next-Parked session s = by_next s.next refl
    where
      by_next :
          (pending : Option (Session N))
          → s.next ≡ pending
          → Parked session.our_index s (park session s pending).0 (park session s pending).1
      by_next none e = rw e (refl, refl, refl, refl)
      by_next (some old) e = rw e (refl, refl, refl, refl)

  promote-count :
      (i : ℕ) (s q : Sessions N) (j : ℕ)
      → q ≡ record s { next = none }
      → index_of s.next ≡ some j
      → count i (to_list (index_of q.current))
          + count i (j ∷ [])
          + count i (to_list (index_of q.next))
          + count i (to_list (index_of q.past))
        ≡ held i s
  promote-count i s q j e pending =
      ground (arith, ap (λ r. r.past) e, ap (λ r. r.current) e, ap (λ r. r.next) e)

  -- A result with a dead index, for a peer that had `before` and was given `index`.
  abbrev pub Balanced : Sessions N → List ℕ → Peer N × Result (Option ℕ) → Type 0
  Balanced before index (p, ok dead) =
      (i : ℕ) → held i p.sessions + count i (to_list dead) ≡ held i before + count i index
  Balanced before index (p, err e) = p.sessions ≡ before

  -- The same result with what becomes of each session.
  abbrev pub Rotated : ℕ → Sessions N → Peer N × Result (Option ℕ) → Type 0
  Rotated index before (p, ok dead) = Parked index before p.sessions dead
  Rotated index before (p, err e) = p.sessions ≡ before

  abbrev pub dead_of :
      {A : Type 0} → (A → Option ℕ) → Peer N × Result A → Peer N × Result (Option ℕ)
  dead_of f (p, ok a) = (p, ok (f a))
  dead_of f (p, err e) = (p, err e)

module _ {N T : Type 0} (crates : Crates N T) where
  -- The indices balance.
  pub initiate_new_session-Balanced :
      (now : ℕ) (tai64n : Tai64n) (private_key : Bytes) (index : ℕ) (p : Peer N)
      → Balanced p.sessions
          (index ∷ [])
          (dead_of (λ r. r.2) (initiate_new_session crates now tai64n private_key index p))
  unfolding initiate_new_session
  initiate_new_session-Balanced now tai64n private_key index p = get_cases P _ p (
      try_cases P _ _ p (λ e _. refl)
        λ noise _.
          try_cases P _ _ p (λ e _. refl)
            λ endpoint _.
              try_cases P _ _ p (λ e _. refl)
                λ message _.
                  pass_cases P _ _ p refl
                    (pass_cases P _ _ _ refl (λ i. replace_next-count i _ p.sessions)))
    where
      P : Peer N × Result (Endpoint × Bytes × Option ℕ) → Type 0
      P r = Balanced p.sessions (index ∷ []) (dead_of (λ r. r.2) r)

  -- An initiation that is sent makes a session with its new index the pending one; what was pending is
  -- the past session then, and the index of the session that was past is handed over as dead; the current
  -- session stays, and where nothing was pending the past one too, with no dead index. An initiation
  -- that fails leaves the sessions alone.
  pub initiate_new_session-Rotated :
      (now : ℕ) (tai64n : Tai64n) (private_key : Bytes) (index : ℕ) (p : Peer N)
      → Rotated index p.sessions
          (dead_of (λ r. r.2) (initiate_new_session crates now tai64n private_key index p))
  unfolding initiate_new_session
  initiate_new_session-Rotated now tai64n private_key index p = get_cases P _ p (
      try_cases P _ _ p (λ e _. refl)
        λ noise _.
          try_cases P _ _ p (λ e _. refl)
            λ endpoint _.
              try_cases P _ _ p (λ e _. refl)
                λ message _.
                  pass_cases P _ _ p refl
                    (pass_cases P _ _ _ refl (replace_next-Parked _ p.sessions)))
    where
      P : Peer N × Result (Endpoint × Bytes × Option ℕ) → Type 0
      P r = Rotated index p.sessions (dead_of (λ r. r.2) r)

  -- Without its pending session, and with a session of the same index at hand.
  abbrev pub Left : Peer N → Session N → Peer N × Result (Session N) → Type 0
  Left p session (q, ok s) =
      (q.sessions ≡ record (p.sessions) { next = none }) × (s.our_index ≡ session.our_index)
  Left p session (q, err e) = q.sessions ≡ record (p.sessions) { next = none }

  into_transport-Left :
      (p q : Peer N) (session : Session N)
      → q.sessions ≡ record (p.sessions) { next = none }
      → Left p session (into_transport crates session q)
  into_transport-Left p q session e =
      try_cases (Left p session) _ _ q (λ _ _. e) λ noise _. (e, refl)

  -- What a handshake response does to the sessions.
  abbrev pub Promoted : Peer N → Peer N × Result (Option ℕ) → Type 0
  Promoted p (q, ok dead) =
      ((i : ℕ) → held i q.sessions + count i (to_list dead) ≡ held i p.sessions)
      × (q.sessions.next ≡ none)
      × (q.sessions.past ≡ p.sessions.current)
      × (index_of q.sessions.current ≡ index_of p.sessions.next)
  Promoted p (q, err e) = q.sessions ≡ record (p.sessions) { next = none }

  -- A response that is accepted makes the pending session the current one and the current one the past
  -- one, and hands the index of the old past one over. One that is refused leaves the peer without its
  -- pending session and the others as they were.
  pub process_incoming_handshake_response-Promoted :
      (now : ℕ) (addr : Endpoint) (packet : Bytes) (p : Peer N)
      → Promoted p (process_incoming_handshake_response crates now addr packet p)
  unfolding process_incoming_handshake_response
  process_incoming_handshake_response-Promoted now addr packet p = pass_cases P _ _ p refl (
      try_cases P _ _ _ (λ e _. refl)
        λ session found.
          try_cases P _ _ _ (λ e _. refl)
            λ _ _.
              known_cases P (Left p session) _ _ _ (into_transport-Left p _ _ refl)
                (λ q e left. left)
                λ q transport left. modify_cases P _ _ _ (
                  (λ i. promote-count i p.sessions q.sessions transport.our_index (left.0) (
                      ap index_of (ok_or-eq_ok p.sessions.next session Error.no_next_session found)
                      ∙ ap some (sym left.1))),
                  ap (λ s. s.next) (left.0),
                  ap (λ s. s.current) (left.0),
                  ap some left.1
                      ∙ sym (
                          ap index_of
                            (ok_or-eq_ok p.sessions.next session Error.no_next_session found)),
                ))
    where
      P : Peer N × Result (Option ℕ) → Type 0
      P = Promoted p
