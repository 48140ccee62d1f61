-- ===== src/PeerServer/Indices/Clocks.antt =====
-- src/interface/peer_server.rs: the index map over any sequence of inputs.
use wireguard_rs.Base.{List, [], ◌∷◌, Bool-cases, inl, inr, Bytes, is_some}
use wireguard_rs.Types.{Endpoint}
use wireguard_rs.Crates.{Crates}
use wireguard_rs.PeerServer.{PeerServer, Inputs}
use wireguard_rs.PeerServer.Indices.{Mapped}
use wireguard_rs.PeerServer.Indices.Rules.{Good}
use wireguard_rs.PeerServer.Indices.Traffic.{Good-Indexed, handle_ingress_packet-Keeps}
use wireguard_rs.PeerServer.Poll.{
  Input, ingress, handshake, egress, timer, event, receive_packet, react, run,
}
use wireguard_rs.PeerServer.Stable.Reactions.{
  handle_egress_packet-Preserves, handle_timer-Preserves, handle_incoming_event-Preserves,
  pop_handshake-Preserves,
}

module _ {N T : Type 0} (crates : Crates N T) where
  receive_packet-Good :
      (inputs : Inputs) (from : Endpoint) (packet : Bytes) (s : PeerServer N T)
      → Good s
      → Good (receive_packet crates inputs from packet s)
  unfolding receive_packet
  receive_packet-Good inputs from packet s g = elim (Bool-cases (is_some s.udp)) [
    | inl bound ↦ rw bound (handle_ingress_packet-Keeps crates inputs from packet s g)
    | inr free ↦ rw free g
  ]

  pub react-Good : (i : Inputs × Input) (s : PeerServer N T) → Good s → Good (react crates i s)
  unfolding react
  react-Good (inputs, ingress from packet) = receive_packet-Good inputs from packet
  react-Good (inputs, handshake) =
      λ s g. pop_handshake-Preserves crates Good (Good-Indexed crates) inputs s.handshakes s g
  react-Good (inputs, egress packet) =
      handle_egress_packet-Preserves crates Good (Good-Indexed crates) inputs packet
  react-Good (inputs, timer alive message) =
      handle_timer-Preserves crates Good (Good-Indexed crates) inputs alive message
  react-Good (inputs, event message) =
      handle_incoming_event-Preserves crates Good (Good-Indexed crates) inputs message

  -- Whatever the server reacts to, and in whichever order: if at the start each session index was held
  -- once and the map led from it to its peer, then this is so at the end.
  pub run-Mapped :
      (is : List (Inputs × Input)) (s : PeerServer N T)
      → Mapped s.peers s.state.index_map
      → Mapped (run crates is s).peers (run crates is s).state.index_map
  unfolding run
  run-Mapped [] s g = g
  run-Mapped (i ∷ is) s g = run-Mapped is (react crates i s) (react-Good i s g)
