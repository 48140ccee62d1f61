-- ===== src/Config.antt =====
-- src/interface/config.rs: `UpdateEvent`, and what an update does to the shared state.
pub mod Text
pub mod Parser
pub mod Codec
pub mod Framing
pub mod Panics
pub mod Decimals
pub mod Lines
pub mod RoundTrip
pub mod Printer
pub mod System
pub mod Indices
pub mod Registry
pub mod Refusal
pub mod Routes
pub mod History
pub mod Files
pub mod Service
use wireguard_rs.Base.{
  ℕ, suc, Bool, true, false, not, ◌&&◌, Option, none, some, is_some, List, [], ◌∷◌, ◌++◌, Result,
  ok, err, Error, Bytes, length, replicate, leb, ◌==◌, bytes_eq, eq_bytes, if◌then◌else◌,
}
use wireguard_rs.Base.Maps.{lookup, insert, remove}
use wireguard_rs.Base.Monad.{M, get as get_state, pure, fail, ensure, ◌>>=◌, ◌>>◌}
use wireguard_rs.Consts.{max_peers_per_device}
use wireguard_rs.Types.{PeerInfo}
use wireguard_rs.Crates.{Crates}
use wireguard_rs.Router.{Router, add_allowed_ips, remove_allowed_ips}
use wireguard_rs.Router
use wireguard_rs.Peer.{Peer, get_mapped_indices, new_peer, or_else}
use wireguard_rs.PeerServer.{PeerServer, State, with_state}
use wireguard_rs.PeerServer
use wireguard_rs.PeerServer.Events.{ChannelMessage, remove_all}

pub data UpdateEvent : Type 0 where
  private_key : Bytes → UpdateEvent
  fwmark : ℕ → UpdateEvent
  listen_port : ℕ → UpdateEvent
  update_peer : PeerInfo → Bool → UpdateEvent
  remove_peer : Bytes → UpdateEvent
  remove_all_peers : UpdateEvent

-- The number is the version that the command names, a `usize`.
pub data Command : Type 0 where
  set : ℕ → List UpdateEvent → Command
  get : ℕ → Command

-- A keepalive is compared as an `Option<u16>`.
abbrev pub keepalive_eq : Option ℕ → Option ℕ → Bool
keepalive_eq none none = true
keepalive_eq none (some b) = false
keepalive_eq (some a) none = false
keepalive_eq (some a) (some b) = a == b

-- What an update makes of the `info` that a peer has.
abbrev pub merged : Bool → PeerInfo → PeerInfo → PeerInfo
merged replace_allowed_ips info old = record info {
  allowed_ips =
      if replace_allowed_ips then info.allowed_ips else info.allowed_ips ++ old.allowed_ips;
  endpoint = or_else info.endpoint old.endpoint;
  keepalive = or_else info.keepalive old.keepalive;
  psk = or_else info.psk old.psk;
}

abbrev pub keepalive_message : PeerInfo → PeerInfo → ℕ → Option ChannelMessage
keepalive_message info old peer_ref =
    if is_some info.keepalive && not (keepalive_eq old.keepalive info.keepalive)
    then some (ChannelMessage.new_persistent_keepalive peer_ref)
    else none

abbrev pub is_own_key : Bytes → Option Bytes → Bool
is_own_key pub_key none = false
is_own_key pub_key (some own) = bytes_eq own pub_key

module _ {N T : Type 0} (crates : Crates N T) where
  unfoldable pub clear_peer_refs : Peer N → State T → State T
  unfolding remove_all remove_allowed_ips
  clear_peer_refs peer state = record state {
    index_map = remove_all (get_mapped_indices peer) state.index_map;
    router = remove_allowed_ips crates peer.info.allowed_ips state.router;
  }

  -- A reference that was taken out of `pubkey_map`. What the peer holds stays in the store: others may
  -- keep its `Rc`, and whether a `Weak` still leads to it is an input of the handlers of timers.
  unfoldable pub clear_removed : ℕ → M (PeerServer N T) (Unit {0})
  unfolding clear_peer_refs
  clear_removed peer_ref = do s ← get_state; with_state (clear_peer_refs (s.peers peer_ref))

  unfoldable pub take_peer : Bytes → M (PeerServer N T) (Unit {0})
  take_peer pub_key =
      with_state (λ state. record state { pubkey_map = remove pub_key state.pubkey_map })

  abbrev pub remove_self : Option ℕ → M (PeerServer N T) (Unit {0})
  remove_self none = pure tt
  remove_self (some peer_ref) = clear_removed peer_ref

  abbrev pub unset_private_key : State T → State T
  unset_private_key state = record state {
    interface_info = record (state.interface_info) { private_key = none; pub_key = none };
  }

  abbrev pub put_private_key : Bytes → Bytes → State T → State T
  put_private_key key own state = record state {
    interface_info = record (state.interface_info) { private_key = some key; pub_key = some own };
  }

  unfoldable pub set_private_key : Bytes → M (PeerServer N T) (Option ChannelMessage)
  unfolding clear_removed take_peer
  set_private_key key =
      let own = crates.generate_public key in
      if bytes_eq key (replicate 32 0)
      then (do with_state unset_private_key; pure (some ChannelMessage.clear_private_key))
      else (do
        with_state (put_private_key key own)
        s ← get_state
        take_peer own
        remove_self (lookup own s.state.pubkey_map)
        pure (some ChannelMessage.new_private_key))

  abbrev pub replaced_routes : Bool → PeerInfo → Router T → Router T
  replaced_routes true old router = remove_allowed_ips crates old.allowed_ips router
  replaced_routes false old router = router

  unfoldable pub update_existing : PeerInfo → Bool → ℕ → M (PeerServer N T) (Option ChannelMessage)
  unfolding add_allowed_ips remove_allowed_ips
  update_existing info replace_allowed_ips peer_ref s =
      let peer = s.peers peer_ref in
      let after = merged replace_allowed_ips info peer.info in
      let router = replaced_routes replace_allowed_ips peer.info s.state.router in
      (
        record s {
          state = record (s.state) {
            router = add_allowed_ips crates after.allowed_ips peer_ref router;
          };
          peers = PeerServer.update_peer peer_ref (record peer { info = after }) s.peers;
        },
        ok (keepalive_message info peer.info peer_ref),
      )

  unfoldable pub add_peer : PeerInfo → M (PeerServer N T) (Option ChannelMessage)
  unfolding add_allowed_ips
  add_peer info s =
      let peer_ref = s.next_rc in
      (
        record s {
          state = record (s.state) {
            pubkey_map = insert info.pub_key peer_ref s.state.pubkey_map;
            router = add_allowed_ips crates info.allowed_ips peer_ref s.state.router;
          };
          peers = PeerServer.update_peer peer_ref (new_peer crates info) s.peers;
          next_rc = suc peer_ref;
        },
        ok (some (ChannelMessage.new_peer peer_ref)),
      )

  abbrev pub update_or_add : PeerInfo → Bool → Option ℕ → M (PeerServer N T) (Option ChannelMessage)
  update_or_add info replace_allowed_ips (some peer_ref) =
      update_existing info replace_allowed_ips peer_ref
  update_or_add info replace_allowed_ips none = do
    s ← get_state
    if is_own_key info.pub_key s.state.interface_info.pub_key then pure none else (do
      ensure (not (leb max_peers_per_device (length s.state.pubkey_map))) Error.max_peers_per_device
      add_peer info)

  unfoldable pub clear_all : M (PeerServer N T) (Unit {0})
  clear_all = with_state (λ state. record state {
    pubkey_map = [];
    index_map = [];
    router = Router.clear crates state.router;
  })

  abbrev pub remove_known : Bytes → Option ℕ → M (PeerServer N T) (Option ChannelMessage)
  remove_known pub_key none = fail Error.nonexistent_peer
  remove_known pub_key (some peer_ref) = do take_peer pub_key; clear_removed peer_ref; pure none

  unfoldable pub handle_update : UpdateEvent → M (PeerServer N T) (Option ChannelMessage)
  unfolding set_private_key update_existing add_peer clear_all
  handle_update (UpdateEvent.private_key key) = set_private_key key
  handle_update (UpdateEvent.listen_port port) = do
    with_state (λ state. record state {
      interface_info = record (state.interface_info) { listen_port = some port };
    })
    pure (some (ChannelMessage.new_listen_port port))
  handle_update (UpdateEvent.fwmark mark) = do
    with_state (λ state. record state {
      interface_info = record (state.interface_info) { fwmark = some mark };
    })
    pure (some (ChannelMessage.new_fwmark mark))
  handle_update (UpdateEvent.update_peer info replace_allowed_ips) = do
    s ← get_state
    update_or_add info replace_allowed_ips (lookup info.pub_key s.state.pubkey_map)
  handle_update UpdateEvent.remove_all_peers = do clear_all; pure none
  handle_update (UpdateEvent.remove_peer pub_key) = do
    s ← get_state
    remove_known pub_key (lookup pub_key s.state.pubkey_map)
