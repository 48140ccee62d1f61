-- ===== src/PeerServer/Indices.antt =====
-- src/interface/peer_server.rs: the map from session indices to peers, against the sessions of the
-- peers: an invariant, and what changes of a peer and of the map do to it.
pub mod Flows
pub mod Traffic
pub mod Clocks
pub mod Rules
use wireguard_rs.Base.{
  eq_nat, ℕ, ◌+◌, ◌≤◌, ◌≡◌, refl, sym, subst, ap, ◌∙◌, false, Option, none, some, List, [], ◌∷◌,
  ◌==◌, arith, Bool-cases, inl, inr, ==_iff,
}
use wireguard_rs.Base.Maps.{
  lookup, insert, remove, lookup-insert, lookup-remove, lookup-insert_self,
}
use wireguard_rs.Peer.{Peer, to_list}
use wireguard_rs.Peer.Rotation.{count, held}
use wireguard_rs.PeerServer.{update_peer}

abbrev pub without : Option ℕ → List (ℕ × ℕ) → List (ℕ × ℕ)
without none index_map = index_map
without (some j) index_map = remove j index_map

lookup-without :
    (dead : Option ℕ) (i : ℕ) (index_map : List (ℕ × ℕ))
    → count i (to_list dead) ≡ 0
    → lookup i (without dead index_map) ≡ lookup i index_map
lookup-without none i index_map h = refl
lookup-without (some j) i index_map h = ground (arith, lookup-remove j i index_map)

other_key :
    (i index r : ℕ) (index_map : List (ℕ × ℕ))
    → count i (index ∷ []) ≡ 0
    → lookup i (insert index r index_map) ≡ lookup i index_map
other_key i index r index_map h = ground (arith, lookup-insert index i r index_map)

pub le_self : (n : ℕ) → n ≤ n
le_self n = omega arith

module _ {N : Type 0} where
  -- No index is held twice by a peer, and the map leads from each held index to its peer.
  pub record Mapped (peers : ℕ → Peer N) (index_map : List (ℕ × ℕ)) : Type 0 where
    pub once : (r i : ℕ) → held i (peers r).sessions ≤ 1
    pub found : (r i : ℕ) → 1 ≤ held i (peers r).sessions → lookup i index_map ≡ some r

  -- A peer that holds no more than before.
  pub shrink :
      (peers : ℕ → Peer N) (index_map : List (ℕ × ℕ)) (r : ℕ) (q : Peer N)
      → ((i : ℕ) → held i q.sessions ≤ held i (peers r).sessions)
      → Mapped peers index_map
      → Mapped (update_peer r q peers) index_map
  shrink peers index_map r q less m = record {
    once = λ r' i. elim (Bool-cases (r' == r)) [
      | inl same ↦ ground (arith, m.once r i, less i)
      | inr other ↦ ground (arith, m.once r' i)
    ];
    found = λ r' i h. elim (Bool-cases (r' == r)) [
      | inl same ↦ ground (arith, m.found r i, less i, h)
      | inr other ↦ ground (arith, m.found r' i, h)
    ];
  }

  one_holder :
      (peers : ℕ → Peer N) (index_map : List (ℕ × ℕ))
      → Mapped peers index_map
      → (r r' i : ℕ) → 1 ≤ held i (peers r).sessions
      → 1 ≤ held i (peers r').sessions
      → r ≡ r'
  one_holder peers index_map m r r' i h h' = let e = sym (m.found r i h) ∙ m.found r' i h' in cc

  -- Indices that leave the sessions of a peer may leave the map.
  pub retire_all :
      (peers : ℕ → Peer N) (index_map after : List (ℕ × ℕ)) (r : ℕ) (q : Peer N) (gone : List ℕ)
      → ((i : ℕ) → count i gone ≡ 0 → lookup i after ≡ lookup i index_map)
      → ((i : ℕ) → held i q.sessions + count i gone ≡ held i (peers r).sessions)
      → Mapped peers index_map
      → Mapped (update_peer r q peers) after
  retire_all peers index_map after r q gone same balance m = record {
    once = less.once;
    found = λ r' i h. same i (absent r' i h) ∙ less.found r' i h;
  }
    where
      less : Mapped (update_peer r q peers) index_map
      less = shrink peers index_map r q (λ i. omega (arith, balance i)) m

      absent : (r' i : ℕ) → 1 ≤ held i (update_peer r q peers r').sessions → count i gone ≡ 0
      absent r' i h = elim (Bool-cases (r' == r)) [
        | inl same ↦ ground (arith, m.once r i, balance i, h)
        | inr other ↦ ground (arith, balance i, h, one_holder peers index_map m r r' i)
      ]

  pub retire :
      (peers : ℕ → Peer N) (index_map : List (ℕ × ℕ)) (r : ℕ) (q : Peer N) (dead : Option ℕ)
      → ((i : ℕ) → held i q.sessions + count i (to_list dead) ≡ held i (peers r).sessions)
      → Mapped peers index_map
      → Mapped (update_peer r q peers) (without dead index_map)
  retire peers index_map r q dead =
      retire_all peers index_map (without dead index_map) r q (to_list dead)
        (λ i h. lookup-without dead i index_map h)

  -- A fresh index enters the sessions and the map, in whichever order the map is changed.
  pub enrol :
      (peers : ℕ → Peer N) (index_map after : List (ℕ × ℕ)) (r index : ℕ) (q : Peer N)
      (dead : Option ℕ)
      → lookup index index_map ≡ none
      → ((i : ℕ)
          → count i (index ∷ []) ≡ 0
          → count i (to_list dead) ≡ 0
          → lookup i after ≡ lookup i index_map)
      → (count index (to_list dead) ≡ 0 → lookup index after ≡ some r)
      → ((i : ℕ)
          → held i q.sessions + count i (to_list dead)
            ≡ held i (peers r).sessions + count i (index ∷ []))
      → Mapped peers index_map
      → Mapped (update_peer r q peers) after
  enrol peers index_map after r index q dead fresh same new balance m = record {
    once = λ r' i. elim (Bool-cases (r' == r)) [
      | inl is ↦ ground (arith, m.once r i, balance i, vacant r i)
      | inr other ↦ ground (arith, m.once r' i)
    ];
    found = λ r' i h. elim (Bool-cases (index == i)) [
      | inl at ↦ at_index r' i ((==_iff index i).0 at) h
      | inr away ↦ elsewhere r' i away h
    ];
  }
    where
      free : (r' : ℕ) → 1 ≤ held index (peers r').sessions → ⊥
      free r' h = let e = sym fresh ∙ m.found r' index h in cc

      vacant : (r' i : ℕ) → index ≡ i → held i (peers r').sessions ≡ 0
      vacant r' i e = subst (λ i. held i (peers r').sessions ≡ 0) e (ground (arith, free r'))

      at_index :
          (r' i : ℕ)
          → index ≡ i
          → 1 ≤ held i (update_peer r q peers r').sessions
          → lookup i after ≡ some r'
      at_index r' i e h = elim (Bool-cases (r' == r)) [
        | inl is ↦
            subst (λ i. lookup i after ≡ some r') e
              (new (ground (arith, balance i, vacant r i e, h))
                ∙ ap some (sym ((==_iff r' r).0 is)))
        | inr other ↦ absurd (ground (arith, vacant r' i e, h))
      ]

      elsewhere :
          (r' i : ℕ)
          → (index == i) ≡ false
          → 1 ≤ held i (update_peer r q peers r').sessions
          → lookup i after ≡ some r'
      elsewhere r' i away h = elim (Bool-cases (r' == r)) [
        | inl is ↦
            same i (ground arith) (ground (arith, balance i, m.once r i, h))
            ∙ m.found r i (ground (arith, balance i, m.once r i, h))
            ∙ ap some (sym ((==_iff r' r).0 is))
        | inr other ↦
            same i (ground arith)
              (ground (arith, balance i, h, one_holder peers index_map m r r' i))
            ∙ m.found r' i (ground (arith, h))
      ]

  pub enrol_after :
      (peers : ℕ → Peer N) (index_map : List (ℕ × ℕ)) (r index : ℕ) (q : Peer N) (dead : Option ℕ)
      → lookup index index_map ≡ none
      → ((i : ℕ)
          → held i q.sessions + count i (to_list dead)
            ≡ held i (peers r).sessions + count i (index ∷ []))
      → Mapped peers index_map
      → Mapped (update_peer r q peers) (insert index r (without dead index_map))
  enrol_after peers index_map r index q dead fresh balance =
      enrol peers index_map (insert index r (without dead index_map)) r index q dead fresh
        (λ i away none_dead. other_key i index r _ away ∙ lookup-without dead i index_map none_dead)
        (λ _. lookup-insert_self index r (without dead index_map)) balance

  pub enrol_before :
      (peers : ℕ → Peer N) (index_map : List (ℕ × ℕ)) (r index : ℕ) (q : Peer N) (dead : Option ℕ)
      → lookup index index_map ≡ none
      → ((i : ℕ)
          → held i q.sessions + count i (to_list dead)
            ≡ held i (peers r).sessions + count i (index ∷ []))
      → Mapped peers index_map
      → Mapped (update_peer r q peers) (without dead (insert index r index_map))
  enrol_before peers index_map r index q dead fresh balance =
      enrol peers index_map (without dead (insert index r index_map)) r index q dead fresh
        (λ i away none_dead. lookup-without dead i _ none_dead ∙ other_key i index r index_map away)
        (λ none_dead. lookup-without dead index _ none_dead ∙ lookup-insert_self index r index_map)
        balance
