-- ===== src/Config/Printer.antt =====
-- `to_config_string` of src/peer.rs, and the replies of src/interface/config.rs.
use wireguard_rs.Base.{
  ℕ, ◌-◌, ◌/◌, ◌%◌, Bool, true, false, Option, none, some, List, [], ◌∷◌, ◌++◌, Result, ok, err,
  Bytes, leb, if◌then◌else◌,
}
use wireguard_rs.Consts.{second}
use wireguard_rs.Timestamp.{elapsed, is_set}
use wireguard_rs.Types.{IpAddr, Endpoint, addr}
use wireguard_rs.Crates.{Crates}
use wireguard_rs.Peer.{Peer}
use wireguard_rs.PeerServer.{PeerServer}
use wireguard_rs.Config.{Command}
use wireguard_rs.Config.System.{System, update_items}
use wireguard_rs.Config.Text.{Formats, ascii, show_uint}

-- `format!("{}={}\n", key, value)`
abbrev pub line : Bytes → Bytes → Bytes
line key value = key ++ b'=' ∷ value ++ b'\n' ∷ []

abbrev pub line_if : Bytes → Option Bytes → Bytes
line_if key none = []
line_if key (some value) = line key value

abbrev pub map_some : {A B : Type 0} → (A → B) → Option A → Option B
map_some f none = none
map_some f (some a) = some (f a)

module _ (formats : Formats) where
  -- `{}:{}` of the address and the port
  abbrev pub show_endpoint : Endpoint → Bytes
  show_endpoint e = formats.show_ip (addr e).ip ++ b':' ∷ show_uint (addr e).port

  abbrev pub show_allowed_ip : IpAddr × ℕ → Bytes
  show_allowed_ip (ip, cidr) = formats.show_ip ip ++ b'/' ∷ show_uint cidr

  unfoldable pub allowed_lines : List (IpAddr × ℕ) → Bytes
  allowed_lines [] = []
  allowed_lines (ip ∷ ips) = line (ascii "allowed_ip") (show_allowed_ip ip) ++ allowed_lines ips

  -- `system_now` is the system time in nanoseconds from the epoch.
  abbrev pub handshake_lines : Bool → ℕ → ℕ → Bytes
  handshake_lines false system_now ago = []
  handshake_lines true system_now ago =
      if leb ago system_now
      then line (ascii "last_handshake_time_sec") (show_uint ((system_now - ago) / second))
        ++ line (ascii "last_handshake_time_nsec") (show_uint ((system_now - ago) % second))
      else []

  unfoldable pub to_config_string : {N : Type 0} → ℕ → ℕ → Peer N → Bytes
  unfolding allowed_lines
  to_config_string now system_now p =
      line (ascii "public_key") (formats.to_hex p.info.pub_key)
      ++ line_if (ascii "preshared_key") (map_some formats.to_hex p.info.psk)
      ++ line_if (ascii "endpoint") (map_some show_endpoint p.info.endpoint)
      ++ line_if (ascii "persistent_keepalive_interval") (map_some show_uint p.info.keepalive)
      ++ allowed_lines p.info.allowed_ips
      ++ line (ascii "tx_bytes") (show_uint p.tx_bytes)
      ++ line (ascii "rx_bytes") (show_uint p.rx_bytes)
      ++ handshake_lines (is_set p.timers.handshake_completed) system_now
          (elapsed now p.timers.handshake_completed)

  unfoldable pub peers_lines : {N : Type 0} → ℕ → ℕ → (ℕ → Peer N) → List (Bytes × ℕ) → Bytes
  unfolding to_config_string
  peers_lines now system_now peers [] = []
  peers_lines now system_now peers ((key, r) ∷ rest) =
      to_config_string now system_now (peers r) ++ peers_lines now system_now peers rest

  -- The branch of `Command::Get`.
  unfoldable pub get_reply : {N T : Type 0} → ℕ → ℕ → PeerServer N T → Bytes
  unfolding peers_lines
  get_reply now system_now s =
      line_if (ascii "private_key") (map_some formats.to_hex s.state.interface_info.private_key)
      ++ line_if (ascii "listen_port") (map_some show_uint s.state.interface_info.listen_port)
      ++ peers_lines now system_now s.peers s.state.pubkey_map
      ++ ascii "errno=0\n\n"

  abbrev pub set_reply : Result (Unit {0}) → Bytes
  set_reply (ok u) = ascii "errno=0\nerrno=0\n\n"
  set_reply (err e) = ascii "errno=1\nerrno=1\n\n"

  module _ {N T : Type 0} (crates : Crates N T) where
    -- What the service answers to a command.
    unfoldable pub respond : ℕ → ℕ → Command → System N T → Bytes
    unfolding get_reply update_items
    respond now system_now (Command.set version items) sys =
        set_reply (update_items crates items sys).1
    respond now system_now (Command.get version) sys = get_reply now system_now sys.server
