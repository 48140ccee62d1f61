-- ===== src/PeerServer/Frame/Ingress.antt =====
-- src/interface/peer_server.rs and src/router.rs: which packets reach the tunnel device.
use wireguard_rs.Base.{
  ℕ, ◌≡◌, refl, sym, subst, ap, ◌∙◌, Option, none, some, [], ◌∷◌, ◌++◌, Result, ok, err, Error,
  Bytes, ok_or, bytes_eq, bytes_eq_iff, Bool-cases, ◌⊎◌, inl, inr, eq_nat, arith,
}
use wireguard_rs.Base.Fallible
use wireguard_rs.Base.Fallible.{ok_or-eq_ok}
use wireguard_rs.Base.Maps.{lookup}
use wireguard_rs.Base.Monad.{try, get_cases, try_cases, known_cases, then_known_cases, ◌>>=◌}
use wireguard_rs.Types.{Endpoint}
use wireguard_rs.Crates.{Crates}
use wireguard_rs.IpPacket.{IpPacket, source}
use wireguard_rs.IpPacket
use wireguard_rs.Message.{our_index}
use wireguard_rs.Router.{Router, lookup_packet, validate_source}
use wireguard_rs.Peer.{Peer, SessionTransition}
use wireguard_rs.Peer.Identity.{Named, handle_incoming_transport-Named}
use wireguard_rs.Peer.Transport.{handle_incoming_transport, is_empty}
use wireguard_rs.PeerServer.{PeerServer, Inputs, send_to_tunnel}
use wireguard_rs.PeerServer.Packets.{handle_ingress_transport, deliver}
use wireguard_rs.PeerServer.Stable.Loose.{Loose-Indexed, handle_transition-Preserves}
use wireguard_rs.PeerServer.Stable.Reactions.{handshake_if-Preserves}
use wireguard_rs.PeerServer.Indices.Rules.{peer_cases, with_sessions_of}
use wireguard_rs.PeerServer.Frame.{Framed, Quiet, Quiet-Loose}

module _ {N T : Type 0} (crates : Crates N T) where
  -- The route of a source leads to a peer with the key of the peer that it came from.
  abbrev pub FromAllowed : (ℕ → Bytes) → Bytes → ℕ → Router T → Type 0
  FromAllowed key_of raw r router =
      (q : ℕ) × (lookup_packet crates source (IpPacket.new crates raw) router ≡ some q)
      × (key_of q ≡ key_of r)

  validate_source-FromAllowed :
      (key_of : ℕ → Bytes) (raw : Bytes) (r : ℕ) (router : Router T) (u : Unit {0})
      → validate_source crates key_of raw r router ≡ ok u
      → FromAllowed key_of raw r router
  unfolding validate_source
  validate_source-FromAllowed key_of raw r router u =
      found (lookup_packet crates source (IpPacket.new crates raw) router) refl
    where
      found :
          (o : Option ℕ)
          → lookup_packet crates source (IpPacket.new crates raw) router ≡ o
          → (Fallible.◌>>=◌
              (ok_or o Error.no_peer_found_on_route)
              λ q. Fallible.ensure (bytes_eq (key_of q) (key_of r)) Error.peer_mismatch)
            ≡ ok u
          → FromAllowed key_of raw r router
      found none at h = absurd (ground arith)
      found (some q) at h = elim (Bool-cases (bytes_eq (key_of q) (key_of r))) [
        | inl same ↦ (q, at, (bytes_eq_iff _ _).0 same)
        | inr other ↦ absurd (ground (arith, h, other))
      ]

  -- A packet that a session has decrypted, and whose source belongs to the peer of that session.
  abbrev pub Authentic : Inputs → Endpoint → Bytes → PeerServer N T → Bytes → Type 0
  Authentic inputs from packet s raw =
      (r : ℕ) × (moved : SessionTransition) × (lookup (our_index packet) s.state.index_map ≡ some r)
      × ((handle_incoming_transport crates inputs.now from packet (s.peers r)).1 ≡ ok (raw, moved))
      × FromAllowed (λ q. (s.peers q).info.pub_key) raw r s.state.router

  -- What a data packet may do to the tunnel.
  abbrev pub Delivering : Inputs → Endpoint → Bytes → PeerServer N T → PeerServer N T → Type 0
  Delivering inputs from packet s after =
      Framed s after
      × ((after.tunnel ≡ s.tunnel)
          ⊎ ((raw : Bytes) × (after.tunnel ≡ s.tunnel ++ raw ∷ [])
              × Authentic inputs from packet s raw))

  module _ (inputs : Inputs) (from : Endpoint) (packet : Bytes) (s₀ : PeerServer N T) where
    deliver-Delivering :
        (r : ℕ) (raw : Bytes) (moved : SessionTransition) (s : PeerServer N T)
        → lookup (our_index packet) s₀.state.index_map ≡ some r
        → (handle_incoming_transport crates inputs.now from packet (s₀.peers r)).1 ≡ ok (raw, moved)
        → Quiet s₀ s
        → Delivering inputs from packet s₀ (deliver crates r raw s).0
    unfolding deliver send_to_tunnel ◌>>=◌
    deliver-Delivering r raw moved s at opened (framed, same) = elim (Bool-cases (is_empty raw)) [
      | inl keepalive ↦ rw keepalive (framed, inl same)
      | inr other ↦ rw other (
          checked (validate_source crates (λ q. (s.peers q).info.pub_key) raw r s.state.router)
            (validate_source-FromAllowed _ raw r s.state.router))
    ]
      where
        checked :
            (res : Result (Unit {0}))
            → ((u : Unit {0})
                → res ≡ ok u
                → FromAllowed (λ q. (s.peers q).info.pub_key) raw r s.state.router)
            → Delivering inputs from packet s₀ ((try res >>= λ _. send_to_tunnel raw) s).0
        checked (err e) allowed = (framed, inl same)
        checked (ok u) allowed =
            let (q, routed, key) = allowed u refl in
            let (_, router, _, _, named) = framed in
            (
              framed,
              inr (
                raw,
                ap (λ t. t ++ raw ∷ []) same,
                (
                  r,
                  moved,
                  at,
                  opened,
                  (
                    q,
                    subst (λ t. lookup_packet crates source (IpPacket.new crates raw) t ≡ some q)
                        router routed,
                    sym (named q).0 ∙ key ∙ (named r).0,
                  ),
                ),
              ),
            )

    pub handle_ingress_transport-Delivering :
        Delivering inputs from packet s₀ (handle_ingress_transport crates inputs from packet s₀).0
    unfolding handle_ingress_transport
    handle_ingress_transport-Delivering = get_cases P _ s₀ (
        try_cases P _ _ s₀ (λ e _. quiet s₀ still)
          λ r at.
            peer_cases P
              (λ x. handle_incoming_transport crates inputs.now from packet (s₀.peers r) ≡ x) r _ _
              s₀ refl
              (λ q e opened. quiet (with_sessions_of r q s₀) (lent r q (ap (λ x. x.0) opened)))
              λ q (raw, moved) opened.
                then_known_cases P K _ _ _
                  (handle_transition-Preserves crates (Quiet s₀) (Quiet-Loose s₀) inputs.now r moved
                    (with_sessions_of r q s₀) (lent r q (ap (λ x. x.0) opened)))
                  (λ s e h. quiet s h)
                  λ s h.
                    known_cases P K _ _ s h (λ s e h. quiet s h)
                      λ s needed h.
                        then_known_cases P K _ _ s
                          (handshake_if-Preserves crates (Quiet s₀)
                            (Loose-Indexed crates (Quiet s₀) (Quiet-Loose s₀)) needed inputs r s h)
                          (λ s e h. quiet s h)
                          λ s h.
                            deliver-Delivering r raw moved s (ok_or-eq_ok _ _ _ at)
                              (ap (λ x. x.1) opened) h)
      where
        P : PeerServer N T × Result (Unit {0}) → Type 0
        P x = Delivering inputs from packet s₀ x.0

        K : {A : Type 0} → PeerServer N T × Result A → Type 0
        K x = Quiet s₀ x.0

        still : Quiet s₀ s₀
        still = ((refl, refl, refl, refl, λ r. (refl, refl)), refl)

        quiet : (s : PeerServer N T) → Quiet s₀ s → Delivering inputs from packet s₀ s
        quiet s (framed, same) = (framed, inl same)

        lent :
            (r : ℕ) (q : Peer N)
            → (handle_incoming_transport crates inputs.now from packet (s₀.peers r)).0 ≡ q
            → Quiet s₀ (with_sessions_of r q s₀)
        lent r q e =
            (Quiet-Loose s₀).renamed s₀ r q
              (subst (Named (s₀.peers r).info.pub_key (s₀.peers r).info.allowed_ips) e (
                handle_incoming_transport-Named crates _ _ inputs.now from packet (s₀.peers r)
                  (refl, refl)))
              still
