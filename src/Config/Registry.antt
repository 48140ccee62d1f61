-- ===== src/Config/Registry.antt =====
-- src/interface/config.rs: the map from public keys to peers under the updates.
mod Entries
pub use Entries.*
use wireguard_rs.Base.{
  ℕ, ◌<◌, ◌≡◌, refl, Bool, true, false, Option, none, some, Error, not, leb, length, bytes_eq,
  replicate, Bytes, arith, eq_bytes, ==_iff, if◌then◌else◌,
}
use wireguard_rs.Base.Maps.{lookup}
use wireguard_rs.Base.Monad.{pure, ensure, ◌>>=◌, ◌>>◌}
use wireguard_rs.Base.Preserves.{branch-Preserves}
use wireguard_rs.Consts.{max_peers_per_device}
use wireguard_rs.Types.{PeerInfo}
use wireguard_rs.Crates.{Crates}
use wireguard_rs.Peer.{new_peer}
use wireguard_rs.PeerServer.{PeerServer, with_state}
use wireguard_rs.PeerServer
use wireguard_rs.PeerServer.Events.{ChannelMessage}
use wireguard_rs.Config.{
  UpdateEvent, handle_update, clear_peer_refs, clear_removed, take_peer, set_private_key,
  update_existing, add_peer, clear_all, is_own_key, put_private_key, remove_self, update_or_add,
  remove_known,
}

module _ {N T : Type 0} (crates : Crates N T) where
  abbrev pub InOrder : PeerServer N T → Type 0
  InOrder s = Registered s.state.pubkey_map s.peers s.next_rc s.state.interface_info.pub_key

  -- What was taken out of the map loses its other references.
  take-InOrder :
      (key : Bytes) (peer_ref : ℕ) (s : PeerServer N T)
      → lookup key s.state.pubkey_map ≡ some peer_ref
      → InOrder s
      → InOrder ((take_peer crates key >> clear_removed crates peer_ref) s).0
  unfolding take_peer clear_removed clear_peer_refs ◌>>=◌ ◌>>◌
  take-InOrder key peer_ref s at g = forget key s.state.pubkey_map s.peers s.next_rc _ g

  -- A peer with the new public key of the interface is taken out.
  own_key-InOrder :
      (key own : Bytes) (self : Option ℕ) (message : Option ChannelMessage) (s : PeerServer N T)
      → lookup own s.state.pubkey_map ≡ self
      → InOrder s
      → InOrder
          ((with_state (put_private_key crates key own)
              >> (take_peer crates own >> (remove_self crates self >> pure message)))
            s).0
  unfolding take_peer clear_removed clear_peer_refs ◌>>=◌ ◌>>◌
  own_key-InOrder key own none message s at g =
      disown _ _ _ _ _ (λ k h. removed_self own k s.state.pubkey_map h)
        (forget own s.state.pubkey_map s.peers s.next_rc _ g)
  own_key-InOrder key own (some peer_ref) message s at g =
      disown _ _ _ _ _ (λ k h. removed_self own k s.state.pubkey_map h)
        (forget own s.state.pubkey_map s.peers s.next_rc _ g)

  set_private_key-InOrder :
      (key : Bytes) (s : PeerServer N T) → InOrder s → InOrder (set_private_key crates key s).0
  unfolding set_private_key ◌>>=◌ ◌>>◌
  set_private_key-InOrder key =
      branch-Preserves InOrder (bytes_eq key (replicate 32 0)) _ _
        (λ s g. disown s.state.pubkey_map s.peers s.next_rc _ none (λ k h. absurd (ground arith)) g)
        (λ s g.
          own_key-InOrder key _ (lookup (crates.generate_public key) s.state.pubkey_map) _ s refl g)

  update_existing-InOrder :
      (info : PeerInfo) (replace : Bool) (peer_ref : ℕ) (s : PeerServer N T)
      → lookup info.pub_key s.state.pubkey_map ≡ some peer_ref
      → InOrder s
      → InOrder (update_existing crates info replace peer_ref s).0
  unfolding update_existing
  update_existing-InOrder info replace peer_ref s at g = record {
    keyed = λ k r h.
        ground (arith, ==_iff r peer_ref, g.keyed k r, g.keyed info.pub_key peer_ref, at, h);
    allocated = g.allocated;
    not_self = g.not_self;
    few = g.few;
  }

  add_peer-InOrder :
      (info : PeerInfo) (s : PeerServer N T)
      → is_own_key info.pub_key s.state.interface_info.pub_key ≡ false
      → length s.state.pubkey_map < max_peers_per_device
      → InOrder s
      → InOrder (add_peer crates info s).0
  unfolding add_peer new_peer
  add_peer-InOrder info s other room g =
      register info _ s.state.pubkey_map s.peers s.next_rc _ key other room g
    where
      key : (new_peer crates info).info.pub_key ≡ info.pub_key
      key = refl

  clear_all-InOrder : (s : PeerServer N T) → InOrder s → InOrder (clear_all crates s).0
  unfolding clear_all lookup
  clear_all-InOrder s g = record {
    keyed = λ k r h. ground arith;
    allocated = λ k r h. ground arith;
    not_self = λ k h. refl;
    few = omega arith;
  }

  update_or_add-InOrder :
      (info : PeerInfo) (replace : Bool) (found : Option ℕ) (s : PeerServer N T)
      → lookup info.pub_key s.state.pubkey_map ≡ found
      → InOrder s
      → InOrder (update_or_add crates info replace found s).0
  unfolding ◌>>=◌ ◌>>◌ ensure
  update_or_add-InOrder info replace (some peer_ref) s at g =
      update_existing-InOrder info replace peer_ref s at g
  update_or_add-InOrder info replace none s at g =
      added (is_own_key info.pub_key s.state.interface_info.pub_key) refl
        (leb max_peers_per_device (length s.state.pubkey_map)) refl
    where
      added :
          (own : Bool)
          → is_own_key info.pub_key s.state.interface_info.pub_key ≡ own
          → (full : Bool) → leb max_peers_per_device (length s.state.pubkey_map) ≡ full
          → InOrder
              ((if own
                  then pure none
                  else (ensure (not full) Error.max_peers_per_device >> add_peer crates info))
                s).0
      added true self full space = g
      added false other true space = g
      added false other false space = add_peer-InOrder info s other (ground arith) g

  -- Every update, whether it succeeds or fails, leaves each peer under its own key and its `Rc`
  -- allocated, the interface itself not among the peers, and no more than 2^20 of them.
  pub handle_update-Registered :
      (update : UpdateEvent) (s : PeerServer N T)
      → Registered s.state.pubkey_map s.peers s.next_rc s.state.interface_info.pub_key
      → let after = (handle_update crates update s).0 in
        Registered after.state.pubkey_map after.peers after.next_rc
          after.state.interface_info.pub_key
  unfolding handle_update ◌>>=◌ ◌>>◌
  handle_update-Registered (UpdateEvent.private_key key) s g = set_private_key-InOrder key s g
  handle_update-Registered (UpdateEvent.listen_port port) s g = g
  handle_update-Registered (UpdateEvent.fwmark mark) s g = g
  handle_update-Registered (UpdateEvent.update_peer info replace) s g =
      update_or_add-InOrder info replace (lookup info.pub_key s.state.pubkey_map) s refl g
  handle_update-Registered UpdateEvent.remove_all_peers s g = clear_all-InOrder s g
  handle_update-Registered (UpdateEvent.remove_peer pub_key) s g =
      known (lookup pub_key s.state.pubkey_map) refl
    where
      known :
          (found : Option ℕ)
          → lookup pub_key s.state.pubkey_map ≡ found
          → InOrder (remove_known crates pub_key found s).0
      known none at = g
      known (some peer_ref) at = take-InOrder pub_key peer_ref s at g
