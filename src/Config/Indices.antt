-- ===== src/Config/Indices.antt =====
-- src/interface/config.rs: the index map while peers come and go.
use wireguard_rs.Base.{
  ℕ, ◌≡◌, refl, subst, Bool, true, false, ◌&&◌, ◌||◌, is_none, Bool-cases, inl, inr, Option, none,
  some, List, [], ◌∷◌, Result, ok, err, not, leb, length, bytes_eq, replicate, Bytes, arith,
  eq_bytes, eq_nat,
}
use wireguard_rs.Base.Maps.{lookup}
use wireguard_rs.Base.Monad.{◌>>=◌, ◌>>◌, then_cases}
use wireguard_rs.Consts.{max_peers_per_device}
use wireguard_rs.Types.{PeerInfo}
use wireguard_rs.Crates.{Crates}
use wireguard_rs.Peer.{new_peer}
use wireguard_rs.Peer.Rotation.{held}
use wireguard_rs.PeerServer.{PeerServer}
use wireguard_rs.PeerServer.Events.{ChannelMessage}
use wireguard_rs.PeerServer.Poll.{event}
use wireguard_rs.PeerServer.Indices.{Mapped, shrink, le_self}
use wireguard_rs.PeerServer.Indices.Rules.{
  Good, Keeps, bind-Keeps, seq-Keeps, branch-Keeps, ensure-Keeps,
}
use wireguard_rs.PeerServer.Indices.Clocks.{react-Good}
use wireguard_rs.Config.{
  UpdateEvent, Command, handle_update, take_peer, set_private_key, update_existing, add_peer,
  is_own_key, update_or_add, remove_known,
}
use wireguard_rs.Config.System.{
  System, Happening, reaction, received, command, notify, update_item, update_items, configure,
  deliver, happen, history,
}

module _ {N T : Type 0} (crates : Crates N T) where
  new_peer-held : (info : PeerInfo) (i : ℕ) → held i (new_peer crates info).sessions ≡ 0
  unfolding new_peer
  new_peer-held info i = refl

  -- Does an update take no peer out?
  abbrev pub takes_none : UpdateEvent → PeerServer N T → Bool
  takes_none (UpdateEvent.private_key key) s =
      bytes_eq key (replicate 32 0)
      || is_none (lookup (crates.generate_public key) s.state.pubkey_map)
  takes_none (UpdateEvent.listen_port port) s = true
  takes_none (UpdateEvent.fwmark mark) s = true
  takes_none (UpdateEvent.update_peer info replace) s = true
  takes_none UpdateEvent.remove_all_peers s = false
  takes_none (UpdateEvent.remove_peer pub_key) s = is_none (lookup pub_key s.state.pubkey_map)

  unfoldable pub items_take_none : List UpdateEvent → System N T → Bool
  unfolding update_item
  items_take_none [] sys = true
  items_take_none (item ∷ items) sys =
      takes_none item sys.server && items_take_none items (update_item crates item sys).0

  abbrev pub command_takes_none : Command → System N T → Bool
  unfolding items_take_none
  command_takes_none (Command.set version items) sys = items_take_none items sys
  command_takes_none (Command.get version) sys = true

  abbrev pub happening_takes_none : Happening → System N T → Bool
  unfolding command_takes_none
  happening_takes_none (reaction i) sys = true
  happening_takes_none (received inputs) sys = true
  happening_takes_none (command c) sys = command_takes_none c sys

  -- No command of the history takes a peer out, in the state in which it comes.
  unfoldable pub history_takes_none : List Happening → System N T → Bool
  unfolding happen happening_takes_none
  history_takes_none [] sys = true
  history_takes_none (h ∷ hs) sys =
      happening_takes_none h sys && history_takes_none hs (happen crates h sys)

  set_private_key-Good :
      (key : Bytes) (s : PeerServer N T)
      → takes_none (UpdateEvent.private_key key) s ≡ true
      → Good s
      → Good (set_private_key crates key s).0
  unfolding set_private_key take_peer ◌>>=◌ ◌>>◌
  set_private_key-Good key s h g = elim (Bool-cases (bytes_eq key (replicate 32 0))) [
    | inl unset ↦ rw unset g
    | inr other ↦ rw (other, absent other) g
  ]
    where
      absent :
          bytes_eq key (replicate 32 0) ≡ false
          → lookup (crates.generate_public key) s.state.pubkey_map ≡ none
      absent other = ground (arith, h, other)

  update_existing-Keeps :
      (info : PeerInfo) (replace : Bool) (peer_ref : ℕ)
      → Keeps {N = N} {T = T} (update_existing crates info replace peer_ref)
  unfolding update_existing
  update_existing-Keeps info replace peer_ref s g =
      shrink s.peers s.state.index_map peer_ref _ (λ i. le_self _) g

  add_peer-Keeps : (info : PeerInfo) → Keeps {N = N} {T = T} (add_peer crates info)
  unfolding add_peer
  add_peer-Keeps info s g =
      shrink s.peers s.state.index_map s.next_rc _ (λ i. omega (arith, new_peer-held info i)) g

  update_or_add-Keeps :
      (info : PeerInfo) (replace : Bool) (found : Option ℕ)
      → Keeps {N = N} {T = T} (update_or_add crates info replace found)
  update_or_add-Keeps info replace (some peer_ref) = update_existing-Keeps info replace peer_ref
  update_or_add-Keeps info replace none =
      bind-Keeps _ _ (λ s g. g)
        λ s.
          branch-Keeps (is_own_key info.pub_key s.state.interface_info.pub_key) _ _ (λ s g. g)
            (seq-Keeps _ _
              (ensure-Keeps (not (leb max_peers_per_device (length s.state.pubkey_map))) _)
              (add_peer-Keeps info))

  handle_update-Good :
      (update : UpdateEvent) (s : PeerServer N T)
      → takes_none update s ≡ true
      → Good s
      → Good (handle_update crates update s).0
  unfolding handle_update ◌>>=◌ ◌>>◌
  handle_update-Good (UpdateEvent.private_key key) s h g = set_private_key-Good key s h g
  handle_update-Good (UpdateEvent.listen_port port) s h g = g
  handle_update-Good (UpdateEvent.fwmark mark) s h g = g
  handle_update-Good (UpdateEvent.update_peer info replace) s h g =
      update_or_add-Keeps info replace (lookup info.pub_key s.state.pubkey_map) s g
  handle_update-Good UpdateEvent.remove_all_peers s h g = absurd (ground arith)
  handle_update-Good (UpdateEvent.remove_peer pub_key) s h g = known _ h
    where
      known :
          (found : Option ℕ) → is_none found ≡ true → Good (remove_known crates pub_key found s).0
      known none h = g
      known (some peer_ref) h = absurd (ground arith)

  update_items-Good :
      (items : List UpdateEvent) (sys : System N T)
      → items_take_none items sys ≡ true
      → Good sys.server
      → Good (update_items crates items sys).0.server
  unfolding update_items update_item items_take_none
  update_items-Good [] sys none_taken g = g
  update_items-Good (item ∷ items) sys none_taken g =
      then_cases (λ r. Good r.0.server) _ _ sys
        (λ after e h. subst (λ r. Good r.0.server) h updated)
        (λ after h.
          update_items-Good items after
            (subst (λ r. items_take_none items r.0 ≡ true) h (ground (arith, none_taken)))
            (subst (λ r. Good r.0.server) h updated))
    where
      kept :
          (r : PeerServer N T × Result (Option ChannelMessage))
          → Good r.0
          → Good (notify sys r).0.server
      kept (server, ok message) g = g
      kept (server, err e) g = g

      updated : Good (update_item crates item sys).0.server
      updated =
          kept (handle_update crates item sys.server)
            (handle_update-Good item sys.server (ground (arith, none_taken)) g)

  happen-Good :
      (h : Happening) (sys : System N T)
      → happening_takes_none h sys ≡ true
      → Good sys.server
      → Good (happen crates h sys).server
  unfolding happen deliver configure command_takes_none
  happen-Good (reaction i) sys none_taken g = react-Good crates i sys.server g
  happen-Good (received inputs) sys none_taken g = delivered sys.channel
    where
      delivered : (channel : List ChannelMessage) → Good (deliver crates inputs channel sys).server
      delivered [] = g
      delivered (message ∷ rest) = react-Good crates (inputs, event message) sys.server g
  happen-Good (command c) sys none_taken g = configured c none_taken
    where
      configured :
          (c : Command) → command_takes_none c sys ≡ true → Good (configure crates c sys).server
      configured (Command.set version items) none_taken = update_items-Good items sys none_taken g
      configured (Command.get version) none_taken = g

  -- Whatever happens without that a command takes a peer out, in whichever order: reactions of the
  -- server, commands that add and change peers, and the messages about them: if at the start each
  -- session index was held once and the map led from it to its peer, then this is so at the end.
  pub history-Mapped :
      (hs : List Happening) (sys : System N T)
      → history_takes_none hs sys ≡ true
      → Mapped sys.server.peers sys.server.state.index_map
      → let after = (history crates hs sys).server in Mapped after.peers after.state.index_map
  unfolding history history_takes_none happening_takes_none
  history-Mapped [] sys none_taken g = g
  history-Mapped (h ∷ hs) sys none_taken g =
      history-Mapped hs (happen crates h sys) (ground (arith, none_taken))
        (happen-Good h sys (ground (arith, none_taken)) g)
