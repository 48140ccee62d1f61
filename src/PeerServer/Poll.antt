-- ===== src/PeerServer/Poll.antt =====
-- src/interface/peer_server.rs: `poll`, as a sequence of reactions. What a poll finds ready in its
-- streams, and in which order, is left open.
use wireguard_rs.Base.{ℕ, Bool, is_some, List, [], ◌∷◌, Bytes, if◌then◌else◌}
use wireguard_rs.Types.{Endpoint}
use wireguard_rs.Crates.{Crates}
use wireguard_rs.Message.{Message}
use wireguard_rs.Utun.{UtunPacket}
use wireguard_rs.Timer.{TimerMessage}
use wireguard_rs.PeerServer.{PeerServer, Inputs}
use wireguard_rs.PeerServer.Handshakes.{handle_ingress_handshake}
use wireguard_rs.PeerServer.Packets.{handle_ingress_packet, handle_egress_packet}
use wireguard_rs.PeerServer.Events.{ChannelMessage, handle_timer, handle_incoming_event}

-- A datagram, the oldest handshake message of the queue, a packet of the tunnel, a timer that has
-- fired, a change of the configuration.
pub data Input : Type 0 where
  ingress : Endpoint → Bytes → Input
  handshake : Input
  egress : UtunPacket → Input
  timer : (ℕ → Bool) → TimerMessage → Input
  event : ChannelMessage → Input

module _ {N T : Type 0} (crates : Crates N T) where
  -- `if let Some((addr, message)) = self.handshakes.pop_front()`
  unfoldable pub pop_handshake :
      Inputs → List (Endpoint × Message) → PeerServer N T → PeerServer N T
  pop_handshake inputs [] s = s
  pop_handshake inputs ((from, message) ∷ rest) s =
      (handle_ingress_handshake crates inputs from message (record s { handshakes = rest })).0

  -- `if self.udp.is_some()`
  unfoldable pub receive_packet : Inputs → Endpoint → Bytes → PeerServer N T → PeerServer N T
  receive_packet inputs from packet s =
      if is_some s.udp then (handle_ingress_packet crates inputs from packet s).0 else s

  -- The error of a handler is logged, and the loop goes on.
  unfoldable pub react : Inputs × Input → PeerServer N T → PeerServer N T
  unfolding pop_handshake receive_packet
  react (inputs, ingress from packet) s = receive_packet inputs from packet s
  react (inputs, handshake) s = pop_handshake inputs s.handshakes s
  react (inputs, egress packet) s = (handle_egress_packet crates inputs packet s).0
  react (inputs, timer alive message) s = (handle_timer crates inputs alive message s).0
  react (inputs, event message) s = (handle_incoming_event crates inputs message s).0

  unfoldable pub run : List (Inputs × Input) → PeerServer N T → PeerServer N T
  unfolding react
  run [] s = s
  run (i ∷ is) s = run is (react i s)
