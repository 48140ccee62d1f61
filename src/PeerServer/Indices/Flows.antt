-- ===== src/PeerServer/Indices/Flows.antt =====
-- src/interface/peer_server.rs: the index map in the handlers of handshakes.
use wireguard_rs.Base.{
  ◌++◌, ℕ, ◌≡◌, ◌≤◌, Option-cases, inl, inr, refl, sym, subst, ap, Option, none, some, List, [],
  ◌∷◌, Result, ok, err, arith, eq_nat, Bytes,
}
use wireguard_rs.Base.Maps.{lookup, insert}
use wireguard_rs.Base.Monad.{M, next_step, ◌>>=◌, then_pass_cases}
use wireguard_rs.Types.{Endpoint}
use wireguard_rs.Crates.{Crates}
use wireguard_rs.Peer.{Peer}
use wireguard_rs.Peer.Rotation.{
  count, held, Balanced, dead_of, Promoted, initiate_new_session-Balanced,
  process_incoming_handshake_response-Promoted,
}
use wireguard_rs.Peer.Handshake.{process_incoming_handshake_response}
use wireguard_rs.Peer.Completion.{Completed, complete_incoming_handshake-Completed}
use wireguard_rs.PeerServer.{
  PeerServer, update_peer, State, Inputs, unused_index, first_unused, send_after, remove_dead,
  insert_index,
}
use wireguard_rs.PeerServer.Handshakes.{
  handle_ingress_handshake_init, handle_ingress_handshake_resp, send_handshake_init,
}
use wireguard_rs.PeerServer.Stable.{
  send_to_peer-Preserves, admit-Preserves, confirm_session-Preserves,
}
use wireguard_rs.PeerServer.Indices.{Mapped, enrol_after, enrol_before, without, le_self, shrink}
use wireguard_rs.PeerServer.Indices.Rules.{
  Good, Good-Closed, Keeps, bind-Keeps, seq-Keeps, branch-Keeps, ensure-Keeps, change_peer-Keeps,
  retire-Keeps, Retires, peer_cases,
}

-- A drawn index is in nobody's use.
pub first_unused-lookup :
    (draws : List ℕ) (index_map : List (ℕ × ℕ)) (i : ℕ)
    → first_unused draws index_map ≡ ok i
    → lookup i index_map ≡ none
unfolding first_unused
first_unused-lookup [] index_map i e = absurd cc
first_unused-lookup (d ∷ draws) index_map i e =
    ground (arith, first_unused-lookup draws index_map i)

remove_dead-without :
    {T : Type 0} (dead : Option ℕ) (state : State T)
    → (remove_dead dead state).index_map ≡ without dead state.index_map
unfolding remove_dead
remove_dead-without none state = refl
remove_dead-without (some j) state = refl

-- The loop ends, at the latest at the first draw that is free, with one of the draws up to there, and
-- with one that is not in the map.
pub first_unused-ends :
    (before after : List ℕ) (free : ℕ) (index_map : List (ℕ × ℕ))
    → lookup free index_map ≡ none
    → (i : ℕ) × (first_unused (before ++ free ∷ after) index_map ≡ ok i)
      × (1 ≤ count i (before ++ free ∷ []))
      × (lookup i index_map ≡ none)
unfolding first_unused
first_unused-ends [] after free index_map h = (free, ground (arith, h), ground arith, h)
first_unused-ends (d ∷ before) after free index_map h = elim (Option-cases (lookup d index_map)) [
  | inl unused ↦ (d, rw unused refl, ground arith, unused)
  | inr (r, taken) ↦
      let (i, e, drawn, unused) = first_unused-ends before after free index_map h in
      (i, rw taken e, omega (arith, drawn), unused)
]

module _ {N T : Type 0} where
  pub unused_cases :
      {B : Type 0} (draws : List ℕ) (k : ℕ → M (PeerServer N T) B) (s : PeerServer N T)
      → Good s
      → ((index : ℕ) → lookup index s.state.index_map ≡ none → Good (k index s).0)
      → Good ((unused_index draws >>= k) s).0
  unfolding ◌>>=◌ unused_index
  unused_cases draws k s g went = cases (first_unused draws s.state.index_map) refl
    where
      cases :
          (r : Result ℕ) → first_unused draws s.state.index_map ≡ r → Good (next_step (s, r) k).0
      cases (ok i) e = went i (first_unused-lookup draws s.state.index_map i e)
      cases (err f) e = g

abbrev GoodAfter : {N T A : Type 0} → PeerServer N T × Result A → Type 0
GoodAfter r = Good r.0

module _ {N T : Type 0} (crates : Crates N T) where
  response-Retires :
      (packet : Bytes) (now : ℕ) (from : Endpoint) (p : Peer N)
      → Retires (λ dead. dead) p (process_incoming_handshake_response crates now from packet p)
  response-Retires packet now from p =
      cases (process_incoming_handshake_response crates now from packet p)
        (process_incoming_handshake_response-Promoted crates now from packet p)
    where
      cases : (r : Peer N × Result (Option ℕ)) → Promoted crates p r → Retires (λ dead. dead) p r
      cases (q, ok dead) (balance, _, _, _) = balance
      cases (q, err e) lost = λ i. omega (arith, ap (held i) lost)

  pub handle_ingress_handshake_init-Keeps :
      (inputs : Inputs) (from : Endpoint) (packet : Bytes)
      → Keeps {N = N} {T = T} (handle_ingress_handshake_init crates inputs from packet)
  unfolding handle_ingress_handshake_init insert_index
  handle_ingress_handshake_init-Keeps inputs from packet =
      seq-Keeps _ _ (admit-Preserves Good Good-Closed crates inputs from 116 packet _) (
        bind-Keeps _ _ (λ s g. g)
          λ s₁.
            bind-Keeps _ _ (λ s g. g)
              λ private_key.
                bind-Keeps _ _ (λ s g. g)
                  λ handshake.
                    bind-Keeps _ _ (λ s g. g)
                      λ pubkey.
                        bind-Keeps _ _ (λ s g. g)
                          λ peer_ref s g. unused_cases inputs.draws _ s g λ index fresh.
                            peer_cases GoodAfter
                              (Completed crates index handshake.timestamp (s.peers peer_ref))
                              peer_ref _ _ s
                              (complete_incoming_handshake-Completed crates inputs.now from index
                                handshake (s.peers peer_ref))
                              (λ q e kept.
                                shrink s.peers s.state.index_map peer_ref q
                                  (λ i. omega (arith, ap (held i) (kept.0))) g)
                              (λ q (response, dead) (_, _, balance, _).
                                then_pass_cases GoodAfter _ _ _ refl (
                                  then_pass_cases GoodAfter _ _ _ refl (
                                    send_to_peer-Preserves Good Good-Closed _ _ (
                                      subst
                                        (λ m.
                                          Mapped (update_peer peer_ref q s.peers)
                                            (insert index peer_ref m))
                                        (sym (remove_dead-without dead s.state))
                                        (enrol_after s.peers s.state.index_map peer_ref index q dead
                                          fresh balance g))))))

  pub send_handshake_init-Keeps :
      (inputs : Inputs) (peer_ref : ℕ)
      → Keeps {N = N} {T = T} (send_handshake_init crates inputs peer_ref)
  unfolding send_handshake_init insert_index send_after
  send_handshake_init-Keeps inputs peer_ref =
      bind-Keeps _ _ (λ s g. g)
        λ s₀. seq-Keeps _ _ (ensure-Keeps _ _) (
          bind-Keeps _ _ (λ s g. g)
            λ private_key s g. unused_cases inputs.draws _ s g λ index fresh.
              peer_cases GoodAfter
                (λ r. Balanced (s.peers peer_ref).sessions (index ∷ []) (dead_of (λ r. r.2) r))
                peer_ref _ _ s
                (initiate_new_session-Balanced crates inputs.now inputs.tai64n private_key index
                  (s.peers peer_ref))
                (λ q e kept.
                  shrink s.peers s.state.index_map peer_ref q (λ i. omega (arith, ap (held i) kept))
                    g)
                (λ q (endpoint, packet, dead) balance. then_pass_cases GoodAfter _ _ _ refl (
                  then_pass_cases GoodAfter _ _ _ refl (
                    seq-Keeps _ _ (send_to_peer-Preserves Good Good-Closed _)
                      (seq-Keeps _ _ (change_peer-Keeps peer_ref _ (λ p i. le_self _))
                        (bind-Keeps _ _ (λ s g. g) λ _ s g. g))
                      _
                      (subst (Mapped (update_peer peer_ref q s.peers))
                        (sym (remove_dead-without dead _))
                        (enrol_before s.peers s.state.index_map peer_ref index q dead fresh balance
                          g))))))

  pub handle_ingress_handshake_resp-Keeps :
      (inputs : Inputs) (from : Endpoint) (packet : Bytes)
      → Keeps {N = N} {T = T} (handle_ingress_handshake_resp crates inputs from packet)
  unfolding handle_ingress_handshake_resp send_after
  handle_ingress_handshake_resp-Keeps inputs from packet =
      seq-Keeps _ _ (admit-Preserves Good Good-Closed crates inputs from 60 packet _) (
        bind-Keeps _ _ (λ s g. g)
          λ s₁.
            bind-Keeps _ _ (λ s g. g)
              λ peer_ref.
                retire-Keeps peer_ref _ (λ dead. dead) _ (response-Retires packet inputs.now from)
                  λ dead.
                    bind-Keeps _ _ (λ s g. g)
                      λ ready.
                        bind-Keeps _ _ (λ s g. g)
                          λ s₂.
                            seq-Keeps _ _
                              (branch-Keeps ready _ _
                                (confirm_session-Preserves Good Good-Closed crates inputs.now
                                  peer_ref _)
                                (λ s g. g))
                              (bind-Keeps _ _ (λ s g. g) λ _ s g. g))
