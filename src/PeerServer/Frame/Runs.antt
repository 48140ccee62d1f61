-- ===== src/PeerServer/Frame/Runs.antt =====
-- src/interface/peer_server.rs: the tunnel device and the configuration over any sequence of inputs.
use wireguard_rs.Base.{
  ◌≡◌, refl, sym, ap, ◌∙◌, List, [], ◌∷◌, ◌++◌, ok, Bytes, Bool-cases, ◌⊎◌, inl, inr, is_some,
}
use wireguard_rs.Base.Monad.{try_cases}
use mathlib.Core.List.{append_assoc, append-nil}
use wireguard_rs.Types.{Endpoint}
use wireguard_rs.Crates.{Crates}
use wireguard_rs.Message.{Message, initiation, response, cookie_reply, transport, try_from}
use wireguard_rs.PeerServer.{PeerServer, Inputs}
use wireguard_rs.PeerServer.Packets.{
  handle_ingress_packet, handle_ingress_transport, handle_egress_packet, route_message,
  queue_ingress_handshake,
}
use wireguard_rs.PeerServer.Events.{handle_timer, handle_incoming_event}
use wireguard_rs.PeerServer.Poll.{
  pop_handshake, Input, ingress, handshake, egress, timer, event, receive_packet, react, run,
}
use wireguard_rs.PeerServer.Stable.Loose.{Loose-Indexed}
use wireguard_rs.PeerServer.Stable.Reactions.{
  handle_egress_packet-Preserves, handle_timer-Preserves, handle_incoming_event-Preserves,
  pop_handshake-Preserves,
}
use wireguard_rs.PeerServer.Frame.{Framed, Quiet, Quiet-Loose}
use wireguard_rs.PeerServer.Frame.Ingress.{
  Authentic, Delivering, handle_ingress_transport-Delivering,
}

module _ {N T : Type 0} (crates : Crates N T) where
  -- An input that is a data packet, whose content is `raw`.
  abbrev pub Accepted : Inputs × Input → PeerServer N T → Bytes → Type 0
  Accepted (inputs, input) s raw =
      (from : Endpoint) × (packet : Bytes) × (body : Bytes) × (input ≡ ingress from packet)
      × (try_from packet ≡ ok (transport body))
      × Authentic crates inputs from body s raw

  -- What one reaction may do to the configuration and to the tunnel.
  abbrev pub Reacted : Inputs × Input → PeerServer N T → PeerServer N T → Type 0
  Reacted i s after =
      Framed s after
      × ((after.tunnel ≡ s.tunnel)
          ⊎ ((raw : Bytes) × (after.tunnel ≡ s.tunnel ++ raw ∷ []) × Accepted i s raw))

  pub still : (s : PeerServer N T) → Quiet s s
  still s = ((refl, refl, refl, refl, λ r. (refl, refl)), refl)

  quiet : (i : Inputs × Input) (s after : PeerServer N T) → Quiet s after → Reacted i s after
  quiet i s after (framed, same) = (framed, inl same)

  handle_ingress_packet-Reacted :
      (inputs : Inputs) (from : Endpoint) (packet : Bytes) (s : PeerServer N T)
      → Reacted
          (inputs, ingress from packet)
          s
          (handle_ingress_packet crates inputs from packet s).0
  unfolding handle_ingress_packet route_message queue_ingress_handshake
  handle_ingress_packet-Reacted inputs from packet s =
      try_cases (λ r. Reacted i s r.0) _ _ s (λ e _. quiet i s s (still s)) routed
    where
      i : Inputs × Input
      i = (inputs, ingress from packet)

      accepted :
          (body : Bytes) (after : PeerServer N T)
          → try_from packet ≡ ok (transport body)
          → Delivering crates inputs from body s after
          → Reacted i s after
      accepted body after read (framed, inl same) = (framed, inl same)
      accepted body after read (framed, inr (raw, added, authentic)) =
          (framed, inr (raw, added, (from, packet, body, refl, read, authentic)))

      routed :
          (m : Message)
          → try_from packet ≡ ok m
          → Reacted i s (route_message crates inputs from m s).0
      routed (transport body) read =
          accepted body (handle_ingress_transport crates inputs from body s).0 read
            (handle_ingress_transport-Delivering crates inputs from body s)
      routed (initiation p) read =
          quiet i s (queue_ingress_handshake crates from (initiation p) s).0 (still s)
      routed (response p) read =
          quiet i s (queue_ingress_handshake crates from (response p) s).0 (still s)
      routed (cookie_reply p) read =
          quiet i s (queue_ingress_handshake crates from (cookie_reply p) s).0 (still s)

  receive_packet-Reacted :
      (inputs : Inputs) (from : Endpoint) (packet : Bytes) (s : PeerServer N T)
      → Reacted (inputs, ingress from packet) s (receive_packet crates inputs from packet s)
  unfolding receive_packet
  receive_packet-Reacted inputs from packet s = elim (Bool-cases (is_some s.udp)) [
    | inl bound ↦ rw bound (handle_ingress_packet-Reacted inputs from packet s)
    | inr free ↦ rw free (quiet (inputs, ingress from packet) s s (still s))
  ]

  pub react-Reacted : (i : Inputs × Input) (s : PeerServer N T) → Reacted i s (react crates i s)
  unfolding react
  react-Reacted (inputs, ingress from packet) s = receive_packet-Reacted inputs from packet s
  react-Reacted (inputs, handshake) s =
      quiet (inputs, handshake) s (pop_handshake crates inputs s.handshakes s)
        (pop_handshake-Preserves crates (Quiet s) (Loose-Indexed crates (Quiet s) (Quiet-Loose s))
          inputs s.handshakes s (still s))
  react-Reacted (inputs, egress packet) s =
      quiet (inputs, egress packet) s ((handle_egress_packet crates inputs packet s).0)
        (handle_egress_packet-Preserves crates (Quiet s)
          (Loose-Indexed crates (Quiet s) (Quiet-Loose s)) inputs packet s (still s))
  react-Reacted (inputs, timer alive message) s =
      quiet (inputs, timer alive message) s ((handle_timer crates inputs alive message s).0)
        (handle_timer-Preserves crates (Quiet s) (Loose-Indexed crates (Quiet s) (Quiet-Loose s))
          inputs alive message s (still s))
  react-Reacted (inputs, event message) s =
      quiet (inputs, event message) s ((handle_incoming_event crates inputs message s).0)
        (handle_incoming_event-Preserves crates (Quiet s)
          (Loose-Indexed crates (Quiet s) (Quiet-Loose s)) inputs message s (still s))

  -- Each of the packets was accepted by the state that the inputs before it have led to.
  abbrev pub AcceptedIn : List (Inputs × Input) → PeerServer N T → List Bytes → Type 0
  AcceptedIn [] s raws = raws ≡ []
  AcceptedIn (i ∷ is) s raws =
      AcceptedIn is (react crates i s) raws
      ⊎ ((raw : Bytes) × (rest : List Bytes) × (raws ≡ raw ∷ rest)
          × Accepted i s raw
          × AcceptedIn is (react crates i s) rest)

  abbrev pub Delivered : List (Inputs × Input) → PeerServer N T → PeerServer N T → Type 0
  Delivered is s after =
      (raws : List Bytes) × (after.tunnel ≡ s.tunnel ++ raws) × AcceptedIn is s raws

  -- Whatever the server reacts to, in whichever order: what it adds to the tunnel are contents of data
  -- packets, in the order of their arrival, each decrypted at its arrival by a session that its index
  -- leads to, and with a source whose route then leads to a peer with the public key of the peer of
  -- that session.
  pub run-Delivered :
      (is : List (Inputs × Input)) (s : PeerServer N T) → Delivered is s (run crates is s)
  unfolding run
  run-Delivered [] s = ([], sym (append-nil s.tunnel), refl)
  run-Delivered (i ∷ is) s = added (react-Reacted i s) (run-Delivered is (react crates i s))
    where
      added :
          Reacted i s (react crates i s)
          → Delivered is (react crates i s) (run crates is (react crates i s))
          → Delivered (i ∷ is) s (run crates is (react crates i s))
      added (_, inl same) (raws, all, accepted) =
          (raws, all ∙ ap (λ t. t ++ raws) same, inl accepted)
      added (_, inr (raw, one, good)) (raws, all, accepted) = (
        raw ∷ raws,
        all ∙ ap (λ t. t ++ raws) one ∙ append_assoc s.tunnel (raw ∷ []) raws,
        inr (raw, raws, refl, good, accepted),
      )
