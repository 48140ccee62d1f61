-- ===== src/PeerServer/Indices/Traffic.antt =====
-- src/interface/peer_server.rs: the index map in the handlers of data packets and in the dispatch of
-- messages.
use wireguard_rs.Base.{
  ◌+◌, ◌≡◌, refl, ◌∙◌, ◌++◌, ℕ, List, [], ◌∷◌, Result, ok, err, arith, eq_nat, Bytes,
}
use wireguard_rs.Types.{Endpoint}
use wireguard_rs.Crates.{Crates}
use wireguard_rs.Message.{Message, initiation, response, cookie_reply, transport}
use wireguard_rs.Peer.{Peer, SessionTransition, no_transition, transition, queue_egress}
use wireguard_rs.Base.Maps.{lookup, remove, lookup-remove}
use wireguard_rs.Base.Monad.{then_pass_cases}
use wireguard_rs.Peer
use wireguard_rs.Peer.{Sessions, to_list, index_of}
use wireguard_rs.Peer.Rotation.{held, count, count-append}
use wireguard_rs.Peer.Transport.{handle_incoming_transport, is_empty}
use wireguard_rs.Peer.Guards.{Delivered, handle_incoming_transport-Delivered, dead}
use wireguard_rs.PeerServer.{change_peer, PeerServer, Inputs, send_to_tunnel, send_after}
use wireguard_rs.PeerServer.Packets.{
  handle_transition, deliver, handle_ingress_transport, handle_ingress_packet, route_message,
}
use wireguard_rs.PeerServer.Events.{remove_all, wipe_peer}
use wireguard_rs.PeerServer.Stable.{send_drained-Preserves}
use wireguard_rs.PeerServer.Stable.Reactions.{Indexed, handshake_if-Preserves}
use wireguard_rs.PeerServer.Indices.{le_self, retire_all}
use wireguard_rs.PeerServer.Indices.Rules.{
  Good, Good-Closed, Keeps, Retires, bind-Keeps, seq-Keeps, branch-Keeps, change_peer-Keeps,
  then_after, GoodWithout, remove_dead-Good, handover-Keeps,
}
use wireguard_rs.PeerServer.Indices.Flows.{
  send_handshake_init-Keeps, handle_ingress_handshake_init-Keeps,
  handle_ingress_handshake_resp-Keeps,
}

pub lookup-remove_all :
    (i : ℕ) (gone : List ℕ) (index_map : List (ℕ × ℕ))
    → count i gone ≡ 0
    → lookup i (remove_all gone index_map) ≡ lookup i index_map
unfolding remove_all
lookup-remove_all i [] index_map h = refl
lookup-remove_all i (j ∷ gone) index_map h =
    lookup-remove_all i gone (remove j index_map) (omega arith)
    ∙ ground (arith, lookup-remove j i index_map)

count-wipe :
    {N : Type 0} (i : ℕ) (s : Sessions N)
    → held i (Peer.wipe s).0 + count i (Peer.wipe s).1 ≡ held i s
unfolding Peer.wipe
count-wipe i s = ground (
  arith,
  count-append i (to_list (index_of s.past))
      (to_list (index_of s.current) ++ to_list (index_of s.next)),
  count-append i (to_list (index_of s.current)) (to_list (index_of s.next)),
)

module _ {N T : Type 0} where
  wipe_peer-Good :
      (peer_ref : ℕ) (s : PeerServer N T)
      → Good s
      → Good (wipe_peer peer_ref (Peer.wipe (s.peers peer_ref).sessions) s).0
  unfolding wipe_peer change_peer
  wipe_peer-Good peer_ref s g =
      let wiped = Peer.wipe (s.peers peer_ref).sessions in
      then_pass_cases (λ r. Good r.0) _ _ s refl
        (retire_all s.peers s.state.index_map (remove_all (wiped.1) s.state.index_map) peer_ref
          (record (s.peers peer_ref) { sessions = wiped.0 }) (wiped.1)
          (λ i h. lookup-remove_all i (wiped.1) s.state.index_map h)
          (λ i. count-wipe i (s.peers peer_ref).sessions) g)

  pub Good-Indexed : (crates : Crates N T) → Indexed crates Good
  Good-Indexed crates = record {
    closed = Good-Closed;
    started = send_handshake_init-Keeps crates;
    answered = handle_ingress_handshake_init-Keeps crates;
    promoted = handle_ingress_handshake_resp-Keeps crates;
    wiped = wipe_peer-Good;
  }

module _ {N T : Type 0} (crates : Crates N T) where
  deliver-Keeps : (peer_ref : ℕ) (raw : Bytes) → Keeps {N = N} {T = T} (deliver crates peer_ref raw)
  unfolding deliver send_to_tunnel
  deliver-Keeps peer_ref raw =
      bind-Keeps _ _ (λ s g. g)
        λ _. branch-Keeps (is_empty raw) _ _ (λ s g. g) (bind-Keeps _ _ (λ s g. g) λ _ s g. g)

  incoming-Retires :
      (now : ℕ) (from : Endpoint) (packet : Bytes) (p : Peer N)
      → Retires (λ r. dead r.1) p (handle_incoming_transport crates now from packet p)
  incoming-Retires now from packet p =
      cases (handle_incoming_transport crates now from packet p)
        (handle_incoming_transport-Delivered crates now from packet p)
    where
      cases :
          (r : Peer N × Result (Bytes × SessionTransition))
          → Delivered crates now from packet p r
          → Retires (λ r. dead r.1) p r
      cases (q, ok (raw, moved)) (_, balance, _) = balance
      cases (q, err e) (same, _, _, _) = λ i. omega (arith, same i)

  handle_transition-Good :
      (now peer_ref : ℕ) (moved : SessionTransition) (s : PeerServer N T)
      → GoodWithout (dead moved) s
      → Good (handle_transition crates now peer_ref moved s).0
  unfolding handle_transition send_after
  handle_transition-Good now peer_ref no_transition s g = g
  handle_transition-Good now peer_ref (transition gone) s g =
      then_after _ _ s (remove_dead-Good gone s g) (
        bind-Keeps _ _ (λ s g. g)
          λ _. seq-Keeps _ _ (change_peer-Keeps peer_ref _ (λ p i. le_self _)) (
            seq-Keeps _ _ (send_drained-Preserves Good Good-Closed crates now peer_ref _)
              (bind-Keeps _ _ (λ s g. g) λ _ s g. g)))

  pub handle_ingress_transport-Keeps :
      (inputs : Inputs) (from : Endpoint) (packet : Bytes)
      → Keeps {N = N} {T = T} (handle_ingress_transport crates inputs from packet)
  unfolding handle_ingress_transport
  handle_ingress_transport-Keeps inputs from packet =
      bind-Keeps _ _ (λ s g. g)
        λ _.
          bind-Keeps _ _ (λ s g. g)
            λ peer_ref.
              handover-Keeps peer_ref _ (λ r. dead r.1) _ (incoming-Retires inputs.now from packet)
                λ received s g.
                  then_after _ _ s (handle_transition-Good inputs.now peer_ref (received.1) s g) (
                    bind-Keeps _ _ (λ s g. g)
                      λ needed.
                        seq-Keeps _ _
                          (handshake_if-Preserves crates Good (Good-Indexed crates) needed inputs
                            peer_ref)
                          (deliver-Keeps peer_ref _))

  pub handle_ingress_packet-Keeps :
      (inputs : Inputs) (from : Endpoint) (packet : Bytes)
      → Keeps {N = N} {T = T} (handle_ingress_packet crates inputs from packet)
  unfolding handle_ingress_packet
  handle_ingress_packet-Keeps inputs from packet = bind-Keeps _ _ (λ s g. g) routed
    where
      routed : (m : Message) → Keeps {N = N} {T = T} (route_message crates inputs from m)
      routed (transport p) = handle_ingress_transport-Keeps inputs from p
      routed (initiation p) = λ s g. g
      routed (response p) = λ s g. g
      routed (cookie_reply p) = λ s g. g
