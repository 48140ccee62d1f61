-- ===== src/Tests/Server.antt =====
-- An instance of the theorem on the whole server: a packet from the tunnel, a data packet, an
-- initiation, a rekey timer and two configuration events.
use wireguard_rs.Peer.Rotation.{count}
use wireguard_rs.Base.{
  ◌++◌, ◌≡◌, refl, true, none, List, [], ◌∷◌, replicate, arith, eq_nat, ok, ◌≤◌, ℕ,
}
use wireguard_rs.Base.Maps.{lookup}
use wireguard_rs.Utun.{inet4}
use wireguard_rs.Timer.{rekey}
use wireguard_rs.Crates.Sample.{sample}
use wireguard_rs.PeerServer.{Inputs, first_unused}
use wireguard_rs.PeerServer.Events.{new_private_key, new_peer}
use wireguard_rs.PeerServer.Indices.{Mapped}
use wireguard_rs.PeerServer.Indices.Flows.{first_unused-ends}
use wireguard_rs.PeerServer.Poll.{Input, ingress, handshake, egress, timer, event, run}
use wireguard_rs.PeerServer.Indices.Clocks.{run-Mapped}
use wireguard_rs.PeerServer.Handshakes.{
  handle_ingress_handshake_init, handle_ingress_handshake_resp,
}
use wireguard_rs.PeerServer.Frame.Runs.{Delivered, run-Delivered}
use wireguard_rs.PeerServer.Admission.{Guarded, handle_ingress_handshake-Guarded}
use wireguard_rs.Tests.{server, inputs, localhost, data_packet}

abbrev work : List (Inputs × Input)
work =
    (inputs, event new_private_key)
    ∷ (inputs, egress (inet4 (69 ∷ 0 ∷ 0 ∷ 20 ∷ [])))
    ∷ (inputs, ingress localhost data_packet)
    ∷ (inputs, ingress localhost (1 ∷ replicate 147 0))
    ∷ (inputs, handshake)
    ∷ (inputs, timer (λ r. true) (rekey 0 3))
    ∷ (inputs, event (new_peer 0))
    ∷ []

server-Mapped : Mapped server.peers server.state.index_map
unfolding lookup
server-Mapped = record { once = λ r i. ground arith; found = λ r i h. ground arith }

run-Mapped_example : Mapped (run sample work server).peers (run sample work server).state.index_map
run-Mapped_example = run-Mapped sample work server server-Mapped

nine_is_free : lookup 9 server.state.index_map ≡ none
unfolding lookup
nine_is_free = refl

first_unused-ends_example :
    (i : ℕ) × (first_unused ((3 ∷ 1 ∷ []) ++ 9 ∷ []) server.state.index_map ≡ ok i)
    × (1 ≤ count i ((3 ∷ 1 ∷ []) ++ 9 ∷ []))
    × (lookup i server.state.index_map ≡ none)
first_unused-ends_example = first_unused-ends (3 ∷ 1 ∷ []) [] 9 server.state.index_map nine_is_free

run-Delivered_example : Delivered sample work server (run sample work server)
run-Delivered_example = run-Delivered sample work server

handle_ingress_handshake-Guarded_example :
    Guarded sample inputs localhost
      (1 ∷ replicate 147 0)
      server
      116
      (handle_ingress_handshake_init sample inputs localhost (1 ∷ replicate 147 0) server)
    × Guarded sample inputs localhost
        (1 ∷ replicate 147 0)
        server
        60
        (handle_ingress_handshake_resp sample inputs localhost (1 ∷ replicate 147 0) server)
handle_ingress_handshake-Guarded_example =
    handle_ingress_handshake-Guarded sample inputs localhost (1 ∷ replicate 147 0) server
