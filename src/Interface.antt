-- ===== src/Interface.antt =====
-- src/interface/mod.rs: `Interface`, up to the running of its futures, and `PeerServer::new` of
-- src/interface/peer_server.rs.
pub mod Start
use wireguard_rs.Base.{ℕ, Option, none, [], Result, Bytes, replicate}
use wireguard_rs.Base.Monad.{M, try, pure, ◌>>=◌, ◌>>◌}
use wireguard_rs.Types.{default_info}
use wireguard_rs.Crates.{Crates}
use wireguard_rs.Cookie.{new_validator}
use wireguard_rs.RateLimiter.{new_limiter}
use wireguard_rs.Router.{default_router}
use wireguard_rs.Timer.{new_timer}
use wireguard_rs.Peer.{new_peer}
use wireguard_rs.PeerServer.{PeerServer, State}
use wireguard_rs.Config.System.{System}
use wireguard_rs.Config.Files.{Os, Files}
use wireguard_rs.Config.Service.{ConfigurationService}
use wireguard_rs.Config.Service

pub record Interface (T : Type 0) : Type 0 where
  pub name : Bytes
  pub state : State T

-- What the reactor and the tunnel device answer, by the name that the device is asked for.
pub record Runtime : Type 0 where
  pub core : Result (Unit {0})
  pub connect : Bytes → Result (Unit {0})
  pub stream_name : Bytes → Result Bytes

-- What is there when the reactor begins.
pub record Running (N T : Type 0) : Type 0 where
  pub name : Bytes
  pub system : System N T
  pub service : ConfigurationService

module _ {N T : Type 0} (crates : Crates N T) where
  abbrev pub default_state : State T
  default_state = record {
    pubkey_map = [];
    index_map = [];
    router = default_router crates;
    interface_info = record {
      private_key = none;
      pub_key = none;
      listen_port = none;
      fwmark = none;
    };
  }

  -- `Interface::new`
  unfoldable pub new : Bytes → Interface T
  new name = record { name = name; state = default_state }

  -- `PeerServer::new`, which no error leaves; no peer is allocated.
  unfoldable pub new_server : ℕ → State T → PeerServer N T
  unfolding new_validator
  new_server now shared_state = record {
    state = shared_state;
    peers = λ peer_ref. new_peer crates default_info;
    next_rc = 0;
    udp = none;
    port = none;
    handshakes = [];
    timer = new_timer;
    cookie = new_validator crates (replicate 32 0);
    rate_limiter = new_limiter;
    under_load_until = now;
    egress = [];
    tunnel = [];
  }

  unfoldable pub start : Os → Runtime → ℕ → Option Bytes → Interface T → M Files (Running N T)
  unfolding new_server Service.new
  start os runtime now name_file interface = do
    try runtime.core
    let server = new_server now interface.state
    try (runtime.connect interface.name)
    interface_name ← try (runtime.stream_name interface.name)
    service ← Service.new os name_file interface_name
    pure (record {
      name = interface_name;
      system = record { server = server; channel = [] };
      service = service;
    })

-- The end of `start`: the reactor drops its futures.
unfoldable pub finish : {N T : Type 0} → Os → Running N T → Files → Files
unfolding Service.drop
finish os running files = Service.drop os running.service files
