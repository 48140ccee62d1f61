-- ===== src/Config/System.antt =====
-- src/interface/config.rs: the commands of a connection, and the channel by which the service tells
-- the server of src/interface/peer_server.rs what has changed.
use wireguard_rs.Base.{Option, List, [], ◌∷◌, ◌++◌, Result, ok, err}
use wireguard_rs.Base.Monad.{M, ◌>>◌, pure}
use wireguard_rs.Crates.{Crates}
use wireguard_rs.Peer.{to_list}
use wireguard_rs.PeerServer.{PeerServer, Inputs}
use wireguard_rs.PeerServer.Events.{ChannelMessage}
use wireguard_rs.PeerServer.Poll.{Input, event, react}
use wireguard_rs.Config.{UpdateEvent, Command, handle_update}

-- `channel` holds what was sent to the server and not yet received, oldest first.
pub record System (N T : Type 0) : Type 0 where
  pub server : PeerServer N T
  pub channel : List ChannelMessage

module _ {N T : Type 0} where
  -- The message of an update goes to the channel.
  abbrev pub notify :
      System N T → PeerServer N T × Result (Option ChannelMessage) → System N T × Result (Unit {0})
  notify sys (server, ok message) =
      (record { server = server; channel = sys.channel ++ to_list message }, ok tt)
  notify sys (server, err e) = (record sys { server = server }, err e)

module _ {N T : Type 0} (crates : Crates N T) where
  unfoldable pub update_item : UpdateEvent → M (System N T) (Unit {0})
  unfolding handle_update
  update_item item sys = notify sys (handle_update crates item sys.server)

  -- `for item in &items`, which returns at the first error.
  unfoldable pub update_items : List UpdateEvent → M (System N T) (Unit {0})
  unfolding update_item
  update_items [] = pure tt
  update_items (item ∷ items) = do update_item item; update_items items

  unfoldable pub configure : Command → System N T → System N T
  unfolding update_items
  configure (Command.set version items) sys = (update_items items sys).0
  configure (Command.get version) sys = sys

  -- `config_rx` gives the server its next message.
  unfoldable pub deliver : Inputs → List ChannelMessage → System N T → System N T
  unfolding react
  deliver inputs [] sys = sys
  deliver inputs (message ∷ rest) sys = record {
    server = react crates (inputs, event message) sys.server;
    channel = rest;
  }

-- What happens next: a reaction of the server, a message that it receives, a command.
pub data Happening : Type 0 where
  reaction : Inputs × Input → Happening
  received : Inputs → Happening
  command : Command → Happening

module _ {N T : Type 0} (crates : Crates N T) where
  unfoldable pub happen : Happening → System N T → System N T
  unfolding deliver configure react
  happen (reaction i) sys = record sys { server = react crates i sys.server }
  happen (received inputs) sys = deliver crates inputs sys.channel sys
  happen (command c) sys = configure crates c sys

  unfoldable pub history : List Happening → System N T → System N T
  unfolding happen
  history [] sys = sys
  history (h ∷ hs) sys = history hs (happen h sys)
