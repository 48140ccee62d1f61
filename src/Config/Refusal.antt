-- ===== src/Config/Refusal.antt =====
-- src/interface/config.rs: the updates that are refused, and what a command does that contains one.
use wireguard_rs.Base.{
  ℕ, ◌≡◌, refl, ap, Bool, true, false, not, ◌||◌, Option, none, some, is_some, List, [], ◌∷◌, ◌++◌,
  Result, ok, err, is_ok, Error, leb, ltb, length, arith, eq_bytes, if◌then◌else◌, bytes_eq,
  replicate,
}
use wireguard_rs.Base.Maps.{lookup}
use wireguard_rs.Base.Monad.{M, pure, ensure, next_step, ◌>>=◌, ◌>>◌}
use wireguard_rs.Consts.{max_peers_per_device}
use wireguard_rs.Types.{PeerInfo}
use wireguard_rs.Crates.{Crates}
use wireguard_rs.PeerServer.{PeerServer}
use wireguard_rs.PeerServer.Events.{ChannelMessage}
use wireguard_rs.Config.{
  UpdateEvent, handle_update, clear_removed, take_peer, set_private_key, update_existing, add_peer,
  clear_all, is_own_key, remove_self, update_or_add, remove_known,
}
use wireguard_rs.Config.System.{System, notify, update_item, update_items}

abbrev pub refusal : UpdateEvent → Error
refusal (UpdateEvent.remove_peer pub_key) = Error.nonexistent_peer
refusal update = Error.max_peers_per_device

module _ {N T : Type 0} where
  -- A known peer can be removed. A peer can be changed if it is known, ignored if it is the interface
  -- itself, and added if there is room.
  abbrev pub accepts : UpdateEvent → PeerServer N T → Bool
  accepts (UpdateEvent.remove_peer pub_key) s = is_some (lookup pub_key s.state.pubkey_map)
  accepts (UpdateEvent.update_peer info replace) s =
      is_some (lookup info.pub_key s.state.pubkey_map)
      || is_own_key info.pub_key s.state.interface_info.pub_key
      || ltb (length s.state.pubkey_map) max_peers_per_device
  accepts update s = true

  -- What comes of an update: where it is not accepted, an error and nothing else.
  abbrev pub Settled :
      Bool → UpdateEvent → PeerServer N T → PeerServer N T × Result (Option ChannelMessage) → Type 0
  Settled true update s r = is_ok r.1 ≡ true
  Settled false update s r = r ≡ (s, err (refusal update))

module _ {N T : Type 0} (crates : Crates N T) where
  remove_self-is_ok :
      (found : Option ℕ) (message : ChannelMessage) (s : PeerServer N T)
      → is_ok ((remove_self crates found >> pure (some message)) s).1 ≡ true
  unfolding clear_removed ◌>>=◌ ◌>>◌
  remove_self-is_ok none message s = refl
  remove_self-is_ok (some peer_ref) message s = refl

  branch-is_ok :
      {A : Type 0} (b : Bool) (m k : M (PeerServer N T) A) (s : PeerServer N T)
      → is_ok (m s).1 ≡ true
      → is_ok (k s).1 ≡ true
      → is_ok ((if b then m else k) s).1 ≡ true
  branch-is_ok true m k s taken other = taken
  branch-is_ok false m k s taken other = other

  update_or_add-Settled :
      (info : PeerInfo) (replace : Bool) (found : Option ℕ) (s : PeerServer N T)
      → lookup info.pub_key s.state.pubkey_map ≡ found
      → Settled
          (accepts (UpdateEvent.update_peer info replace) s)
          (UpdateEvent.update_peer info replace)
          s
          (update_or_add crates info replace found s)
  unfolding update_existing add_peer ◌>>=◌ ◌>>◌ ensure
  update_or_add-Settled info replace (some peer_ref) s at = rw at refl
  update_or_add-Settled info replace none s at = rw at (
      added (is_own_key info.pub_key s.state.interface_info.pub_key)
        (ltb (length s.state.pubkey_map) max_peers_per_device)
        (not (leb max_peers_per_device (length s.state.pubkey_map))) (ground arith))
    where
      added :
          (own room free : Bool)
          → free ≡ room
          → Settled (own || room) (UpdateEvent.update_peer info replace) s (
              (if own
                  then pure none
                  else (ensure free Error.max_peers_per_device >> add_peer crates info))
                s)
      added true room free same = refl
      added false true true same = refl
      added false false false same = refl
      added false true false same = absurd (ground arith)
      added false false true same = absurd (ground arith)

  -- An update fails exactly if it removes a peer that is not there, or adds one, not the interface
  -- itself, where there are 2^20 already; then nothing has changed.
  pub handle_update-Settled :
      (update : UpdateEvent) (s : PeerServer N T)
      → Settled (accepts update s) update s (handle_update crates update s)
  unfolding handle_update set_private_key clear_removed take_peer clear_all ◌>>=◌ ◌>>◌
  handle_update-Settled (UpdateEvent.private_key key) s =
      branch-is_ok (bytes_eq key (replicate 32 0)) _ _ s refl
        (remove_self-is_ok (lookup (crates.generate_public key) s.state.pubkey_map) _ _)
  handle_update-Settled (UpdateEvent.listen_port port) s = refl
  handle_update-Settled (UpdateEvent.fwmark mark) s = refl
  handle_update-Settled (UpdateEvent.update_peer info replace) s =
      update_or_add-Settled info replace (lookup info.pub_key s.state.pubkey_map) s refl
  handle_update-Settled UpdateEvent.remove_all_peers s = refl
  handle_update-Settled (UpdateEvent.remove_peer pub_key) s =
      known (lookup pub_key s.state.pubkey_map)
    where
      known :
          (found : Option ℕ)
          → Settled
              (is_some found)
              (UpdateEvent.remove_peer pub_key)
              s
              (remove_known crates pub_key found s)
      known none = refl
      known (some peer_ref) = refl

module _ {N T : Type 0} (crates : Crates N T) where
  update_item-refused :
      (item : UpdateEvent) (sys : System N T)
      → accepts item sys.server ≡ false
      → update_item crates item sys ≡ (sys, err (refusal item))
  unfolding update_item
  update_item-refused item sys h =
      unchanged (accepts item sys.server) h (handle_update crates item sys.server)
        (handle_update-Settled crates item sys.server)
    where
      unchanged :
          (b : Bool)
          → b ≡ false
          → (r : PeerServer N T × Result (Option ChannelMessage)) → Settled b item sys.server r
          → notify sys r ≡ (sys, err (refusal item))
      unchanged true h r settled = absurd (ground arith)
      unchanged false h r settled = ap (notify sys) settled

  -- All items before the first that is refused are done and their messages sent, and none after it.
  pub update_items-stops :
      (items rest : List UpdateEvent) (item : UpdateEvent) (sys : System N T)
      → is_ok (update_items crates items sys).1 ≡ true
      → accepts item (update_items crates items sys).0.server ≡ false
      → update_items crates (items ++ item ∷ rest) sys
        ≡ ((update_items crates items sys).0, err (refusal item))
  unfolding update_items ◌>>=◌ ◌>>◌
  update_items-stops [] rest item sys h refused =
      ap (λ r. next_step r (λ _. update_items crates rest)) (update_item-refused item sys refused)
  update_items-stops (first ∷ items) rest item sys h refused =
      later (λ t. update_items-stops items rest item t) (update_item crates first sys) h refused
    where
      later :
          ((t : System N T)
            → is_ok (update_items crates items t).1 ≡ true
            → accepts item (update_items crates items t).0.server ≡ false
            → update_items crates (items ++ item ∷ rest) t
              ≡ ((update_items crates items t).0, err (refusal item)))
          → (r : System N T × Result (Unit {0}))
          → is_ok (next_step r (λ _. update_items crates items)).1 ≡ true
          → accepts item (next_step r (λ _. update_items crates items)).0.server ≡ false
          → next_step r (λ _. update_items crates (items ++ item ∷ rest))
            ≡ ((next_step r (λ _. update_items crates items)).0, err (refusal item))
      later go (sys, ok u) h refused = go sys h refused
      later go (sys, err e) h refused = absurd (ground arith)
