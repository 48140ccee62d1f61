-- ===== src/Config/Parser.antt =====
-- src/interface/config.rs: `UpdateEvent::from`, and the two commands.
use wireguard_rs.Base.{
  ℕ, ◌^◌, Bool, true, false, Option, none, some, List, [], ◌∷◌, ◌++◌, Result, ok, err, Error, ok_or,
  Bytes, bytes_eq, if◌then◌else◌,
}
use wireguard_rs.Base.Fallible.{◌>>=◌}
use wireguard_rs.Types.{PeerInfo, default_info, from_addr, IpAddr}
use wireguard_rs.Config.{UpdateEvent, Command}
use wireguard_rs.Config.Text.{Formats, ascii, split_once, read_uint}

-- The variables of the loop.
pub record Pending : Type 0 where
  pub events : List UpdateEvent
  pub pending_peer : Bool
  pub remove_pending_peer : Bool
  pub replace_allowed_ips : Bool
  pub info : PeerInfo

abbrev pub start : Pending
start = record {
  events = [];
  pending_peer = false;
  remove_pending_peer = false;
  replace_allowed_ips = false;
  info = default_info;
}

abbrev pub push : UpdateEvent → Pending → Pending
push event p = record p { events = p.events ++ event ∷ [] }

-- The `match` on `(pending_peer, remove_pending_peer)`.
abbrev pub flush_if : Bool → Bool → Pending → Pending
flush_if true true p = push (UpdateEvent.remove_peer p.info.pub_key) p
flush_if true false p = push (UpdateEvent.update_peer p.info p.replace_allowed_ips) p
flush_if false remove p = p

abbrev pub flush : Pending → Pending
flush p = flush_if p.pending_peer p.remove_pending_peer p

abbrev pub next_peer : Bytes → Pending → Pending
next_peer key p = record {
  events = (flush p).events;
  pending_peer = true;
  remove_pending_peer = false;
  replace_allowed_ips = false;
  info = record default_info { pub_key = key };
}

module _ (formats : Formats) where
  abbrev pub read_key : Bytes → Result Bytes
  read_key value = ok_or (formats.from_hex value) Error.third_party

  abbrev pub read_allowed_ip : Option (Bytes × Bytes) → Result (IpAddr × ℕ)
  read_allowed_ip none = err Error.ip_cidr_format
  read_allowed_ip (some (ip, cidr)) = do
    addr ← ok_or (formats.read_ip ip) Error.parse_error
    mask ← read_uint (2 ^ 32) cidr
    ok (addr, mask)

  -- One turn of the loop.
  unfoldable pub read_item : Bytes × Bytes → Pending → Result Pending
  unfolding read_uint split_once
  read_item (key, value) p =
      if bytes_eq key (ascii "private_key")
      then (do k ← read_key value; ok (push (UpdateEvent.private_key k) p))
      else if bytes_eq key (ascii "listen_port")
      then (do port ← read_uint (2 ^ 16) value; ok (push (UpdateEvent.listen_port port) p))
      else if bytes_eq key (ascii "fwmark")
      then (do mark ← read_uint (2 ^ 32) value; ok (push (UpdateEvent.fwmark mark) p))
      else if bytes_eq key (ascii "replace_peers")
      then ok (push UpdateEvent.remove_all_peers p)
      else if bytes_eq key (ascii "preshared_key")
      then (do k ← read_key value; ok (record p { info = record (p.info) { psk = some k } }))
      else if bytes_eq key (ascii "persistent_keepalive_interval")
      then (do
        seconds ← read_uint (2 ^ 16) value
        ok (record p { info = record (p.info) { keepalive = some seconds } }))
      else if bytes_eq key (ascii "endpoint")
      then (do
        sock ← ok_or (formats.read_socket_addr value) Error.parse_error
        ok (record p { info = record (p.info) { endpoint = some (from_addr sock) } }))
      else if bytes_eq key (ascii "replace_allowed_ips")
      then ok (record p { replace_allowed_ips = true })
      else if bytes_eq key (ascii "remove")
      then ok (record p { remove_pending_peer = true })
      else if bytes_eq key (ascii "public_key")
      then (do k ← read_key value; ok (next_peer k p))
      else if bytes_eq key (ascii "allowed_ip")
      then (do
        allowed ← read_allowed_ip (split_once b'/' value)
        ok (record p {
          info = record (p.info) { allowed_ips = p.info.allowed_ips ++ allowed ∷ [] };
        }))
      else ok p

  -- The loop.
  unfoldable pub read_items : List (Bytes × Bytes) → Pending → Result Pending
  unfolding read_item
  read_items [] p = ok p
  read_items (item ∷ items) p = do q ← read_item item p; read_items items q

  -- `UpdateEvent::from`
  unfoldable pub from : List (Bytes × Bytes) → Result (List UpdateEvent)
  unfolding read_items
  from items = do p ← read_items items start; ok (flush p).events

  -- `items.remove(0)`, and the `match` on the command. Versions are 64-bit.
  unfoldable pub read_command : List (Bytes × Bytes) → Result Command
  unfolding from read_uint
  read_command [] = err Error.panicked
  read_command ((cmd, version) ∷ items) =
      if bytes_eq cmd (ascii "get")
      then (do v ← read_uint (2 ^ 64) version; ok (Command.get v))
      else if bytes_eq cmd (ascii "set")
      then (do v ← read_uint (2 ^ 64) version; events ← from items; ok (Command.set v events))
      else err Error.invalid_command
