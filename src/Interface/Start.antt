-- ===== src/Interface/Start.antt =====
-- src/interface/mod.rs: what holds from the start of an interface.
use wireguard_rs.Base.{ℕ, ◌≡◌, some, [], eq_bytes}
use wireguard_rs.Base.Maps.{lookup}
use wireguard_rs.Crates.{Crates}
use wireguard_rs.Config.System.{System}
use wireguard_rs.Config.Files.{Files, Kind}
use wireguard_rs.Config.Service.{socket_path}
use wireguard_rs.Config.Service.Steps.{kind_of}
use wireguard_rs.Interface.{Running, new_server, default_state}

module _ {N T : Type 0} (crates : Crates N T) where
  fresh : ℕ → System N T
  fresh now = record { server = new_server crates now (default_state crates); channel = [] }

  abbrev Started : ℕ → Files → Running N T → Type 0
  Started now files running =
      (running.system ≡ fresh now)
      × (kind_of (lookup (socket_path running.name files) files) ≡ some Kind.socket)
