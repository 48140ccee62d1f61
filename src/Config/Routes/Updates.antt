-- ===== src/Config/Routes/Updates.antt =====
-- src/interface/config.rs: the routes after each update.
use wireguard_rs.Base.{
  ℕ, ◌≡◌, refl, sym, ap, ◌∙◌, Bool, true, false, Option, none, some, Bytes, Error, length, leb,
  replicate, eq_bytes, bytes_eq, bytes_eq_iff, if◌then◌else◌, not, arith,
}
use wireguard_rs.Base.Maps.{lookup, lookup-remove}
use wireguard_rs.Base.Monad.{pure, ensure, ◌>>=◌, ◌>>◌}
use wireguard_rs.Base.Preserves.{branch-Preserves}
use wireguard_rs.Consts.{max_peers_per_device}
use wireguard_rs.Types.{IpAddr, v4, v6, PeerInfo}
use wireguard_rs.Crates.{Crates}
use wireguard_rs.Crates.Laws.{TableLaws}
use wireguard_rs.Router.{Router, get_peer_from_ip, route_to_peer, lookup_packet}
use wireguard_rs.IpPacket.{IpPacket, destination}
use wireguard_rs.IpPacket
use wireguard_rs.Peer.{new_peer}
use wireguard_rs.PeerServer.{PeerServer, with_state}
use wireguard_rs.PeerServer.Events.{ChannelMessage}
use wireguard_rs.Config.{
  UpdateEvent, handle_update, clear_peer_refs, clear_removed, take_peer, set_private_key,
  update_existing, add_peer, is_own_key, put_private_key, remove_self, update_or_add, remove_known,
}
use wireguard_rs.Config.Registry.{Registered}
use wireguard_rs.Config.Routes.{
  Family, family4, family6, route, covered, route-clear, route-remove_allowed_ips,
}
use wireguard_rs.Config.Routes.Kept.{Routed, unregister-Routed, register-Routed, change-Routed}

module _ {N T : Type 0} (crates : Crates N T) (laws : TableLaws crates) where
  abbrev pub Sound : PeerServer N T → Type 0
  Sound s = Routed crates laws s.state.pubkey_map s.peers s.state.router

  take-Sound :
      (key : Bytes) (peer_ref : ℕ) (s : PeerServer N T)
      → lookup key s.state.pubkey_map ≡ some peer_ref
      → Sound s
      → Sound ((take_peer crates key >> clear_removed crates peer_ref) s).0
  unfolding take_peer clear_removed clear_peer_refs ◌>>=◌ ◌>>◌
  take-Sound key peer_ref s at routed =
      unregister-Routed crates laws key peer_ref s.state.pubkey_map s.peers s.state.router at routed

  -- A key that no peer has is not among the entries.
  absent-Sound :
      (key : Bytes) (s : PeerServer N T)
      → lookup key s.state.pubkey_map ≡ none
      → Sound s
      → Sound (take_peer crates key s).0
  unfolding take_peer
  absent-Sound key s at routed f n r h =
      let e = routed f n r h in
      record {
        key = e.key;
        known = ground (
          arith,
          lookup-remove key e.key s.state.pubkey_map,
          bytes_eq_iff key e.key,
          at,
          e.known,
        );
        allowed = e.allowed;
      }

  own_key-Sound :
      (key own : Bytes) (self : Option ℕ) (message : Option ChannelMessage) (s : PeerServer N T)
      → lookup own s.state.pubkey_map ≡ self
      → Sound s
      → Sound
          ((with_state (put_private_key crates key own)
              >> (take_peer crates own >> (remove_self crates self >> pure message)))
            s).0
  unfolding take_peer clear_removed clear_peer_refs ◌>>=◌ ◌>>◌
  own_key-Sound key own none message s at routed = absent-Sound own s at routed
  own_key-Sound key own (some peer_ref) message s at routed =
      unregister-Routed crates laws own peer_ref s.state.pubkey_map s.peers s.state.router at routed

  set_private_key-Sound :
      (key : Bytes) (s : PeerServer N T) → Sound s → Sound (set_private_key crates key s).0
  unfolding set_private_key ◌>>=◌ ◌>>◌
  set_private_key-Sound key =
      branch-Preserves Sound (bytes_eq key (replicate 32 0)) _ _ (λ s routed. routed)
        (λ s routed.
          own_key-Sound key _ (lookup (crates.generate_public key) s.state.pubkey_map) _ s refl
            routed)

  update_or_add-Sound :
      (info : PeerInfo) (replace : Bool) (found : Option ℕ) (s : PeerServer N T)
      → lookup info.pub_key s.state.pubkey_map ≡ found
      → Registered s.state.pubkey_map s.peers s.next_rc s.state.interface_info.pub_key
      → Sound s
      → Sound (update_or_add crates info replace found s).0
  unfolding update_existing add_peer new_peer ◌>>=◌ ◌>>◌ ensure
  update_or_add-Sound info replace (some peer_ref) s at g routed =
      change-Routed crates laws info replace peer_ref _ s.state.pubkey_map s.peers s.state.router
        refl at routed
  update_or_add-Sound info replace none s at g routed =
      added (is_own_key info.pub_key s.state.interface_info.pub_key)
        (leb max_peers_per_device (length s.state.pubkey_map))
    where
      added :
          (own full : Bool)
          → Sound
              ((if own
                  then pure none
                  else (ensure (not full) Error.max_peers_per_device >> add_peer crates info))
                s).0
      added true full = routed
      added false true = routed
      added false false =
          register-Routed crates laws info s.next_rc _ _ s.state.pubkey_map s.peers s.state.router
            refl at g routed

  -- Where a table maps networks to values: every update leaves each route leading to a registered peer
  -- that has the network among its allowed ones, where this was so and the peers were in order.
  pub handle_update-Routed :
      (update : UpdateEvent) (s : PeerServer N T)
      → Registered s.state.pubkey_map s.peers s.next_rc s.state.interface_info.pub_key
      → Routed crates laws s.state.pubkey_map s.peers s.state.router
      → let after = (handle_update crates update s).0 in
        Routed crates laws after.state.pubkey_map after.peers after.state.router
  unfolding handle_update ◌>>=◌ ◌>>◌
  handle_update-Routed (UpdateEvent.private_key key) s g routed = set_private_key-Sound key s routed
  handle_update-Routed (UpdateEvent.listen_port port) s g routed = routed
  handle_update-Routed (UpdateEvent.fwmark mark) s g routed = routed
  handle_update-Routed (UpdateEvent.update_peer info replace) s g routed =
      update_or_add-Sound info replace (lookup info.pub_key s.state.pubkey_map) s refl g routed
  handle_update-Routed UpdateEvent.remove_all_peers s g routed =
      λ f n r h. let e = sym (route-clear crates laws f n s.state.router) ∙ h in cc
  handle_update-Routed (UpdateEvent.remove_peer pub_key) s g routed =
      known (lookup pub_key s.state.pubkey_map) refl
    where
      known :
          (found : Option ℕ)
          → lookup pub_key s.state.pubkey_map ≡ found
          → Sound (remove_known crates pub_key found s).0
      known none at = routed
      known (some peer_ref) at = take-Sound pub_key peer_ref s at routed

  -- Removing a peer takes every route at a network among its allowed ones away, whoever it leads to,
  -- and no other.
  pub route-remove_peer :
      (key : Bytes) (peer_ref : ℕ) (s : PeerServer N T) (f : Family) (n : Bytes)
      → lookup key s.state.pubkey_map ≡ some peer_ref
      → route crates laws f n (handle_update crates (UpdateEvent.remove_peer key) s).0.state.router
        ≡ (if covered crates laws f n (s.peers peer_ref).info.allowed_ips
            then none
            else route crates laws f n s.state.router)
  unfolding handle_update clear_removed take_peer clear_peer_refs ◌>>=◌ ◌>>◌
  route-remove_peer key peer_ref s f n at =
      rw at (
        route-remove_allowed_ips crates laws f n (s.peers peer_ref).info.allowed_ips s.state.router)

  -- An address is in a network of its family.
  abbrev pub holds_ip : Family → Bytes → IpAddr → Bool
  holds_ip family4 n (v4 ip) = laws.holds n ip
  holds_ip family4 n (v6 ip) = false
  holds_ip family6 n (v4 ip) = false
  holds_ip family6 n (v6 ip) = laws.holds n ip

  -- A peer is registered, and has an address among a network that it allows.
  pub record Serves (s : PeerServer N T) (r : ℕ) (ip : IpAddr) : Type 0 where
    pub key : Bytes
    pub known : lookup key s.state.pubkey_map ≡ some r
    pub family : Family
    pub net : Bytes
    pub allowed : covered crates laws family net (s.peers r).info.allowed_ips ≡ true
    pub inside : holds_ip family net ip ≡ true

  matched :
      (ip : IpAddr) (router : Router T) (r : ℕ)
      → get_peer_from_ip crates ip router ≡ some r
      → (f : Family) × (n : Bytes) × (route crates laws f n router ≡ some r)
        × (holds_ip f n ip ≡ true)
  unfolding get_peer_from_ip
  matched (v4 ip) router r h =
      let (n, e, inside) = laws.match_exact router.ip4_map ip r h in (family4, n, e, inside)
  matched (v6 ip) router r h =
      let (n, e, inside) = laws.match_exact router.ip6_map ip r h in (family6, n, e, inside)

  -- Where a table gives the value of a network that holds the address, and every route leads to a
  -- registered peer that has the network among its allowed ones: a packet is routed only to a registered
  -- peer, one that allows a network with the destination of the packet in it.
  pub route_to_peer-Serves :
      (packet : Bytes) (p : IpPacket) (s : PeerServer N T) (r : ℕ)
      → Routed crates laws s.state.pubkey_map s.peers s.state.router
      → IpPacket.new crates packet ≡ some p
      → route_to_peer crates packet s.state.router ≡ some r
      → Serves s r (destination p)
  unfolding route_to_peer
  route_to_peer-Serves packet p s r routed parsed h =
      let (f, n, led, inside) =
        matched (destination p) s.state.router r
          (sym (ap (λ o. lookup_packet crates destination o s.state.router) parsed) ∙ h) in
      let e = routed f n r led in
      record {
        key = e.key;
        known = e.known;
        family = f;
        net = n;
        allowed = e.allowed;
        inside = inside;
      }
