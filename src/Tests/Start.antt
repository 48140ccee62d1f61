-- ===== src/Tests/Start.antt =====
-- An instance of the theorem on the start of an interface: a peer is added, sends, and is removed.
use wireguard_rs.Base.{ℕ, ◌++◌, false, none, List, [], ◌∷◌, ok}
use wireguard_rs.Base.Maps.{eq_bytes}
use wireguard_rs.Crates.Sample.{sample_key}
use wireguard_rs.PeerServer.Poll.{ingress}
use wireguard_rs.Config.{Command, UpdateEvent}
use wireguard_rs.Config.Text.{ascii}
use wireguard_rs.Config.System.{Happening, command, received, reaction}
use wireguard_rs.Config.Files.{Files}
use wireguard_rs.Config.Service
use wireguard_rs.Interface.{Runtime, Running, new, new_server, default_state}
use wireguard_rs.Tests.{localhost, inputs, data_packet}
use wireguard_rs.Tests.Routes.{Table, crates, joining}
use wireguard_rs.Tests.Service.{os, before}

-- The device takes the next free name.
abbrev runtime : Runtime
runtime = record {
  core = ok tt;
  connect = λ name. ok tt;
  stream_name = λ name. ok (name ++ ascii "7");
}

abbrev files : Files
unfolding Service.new
files = (Service.new os none (ascii "utun7") before).0

abbrev running : Running ℕ Table
unfolding new_server
running = record {
  name = ascii "utun7";
  system = record { server = new_server crates 5 (default_state crates); channel = [] };
  service = record { interface_name = ascii "utun7" };
}

abbrev events : List Happening
events =
    command (Command.set 1 (UpdateEvent.update_peer joining false ∷ []))
    ∷ received inputs
    ∷ reaction (inputs, ingress localhost data_packet)
    ∷ command (Command.set 1 (UpdateEvent.remove_peer sample_key ∷ []))
    ∷ []
