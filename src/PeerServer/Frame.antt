-- ===== src/PeerServer/Frame.antt =====
-- src/interface/peer_server.rs: what no reaction of the server changes - the configuration, the map
-- from keys to peers, the routes, and the names of the peers - and which put nothing in the tunnel.
pub mod Ingress
pub mod Runs
use wireguard_rs.Base.{ℕ, ◌≡◌, sym, ◌∙◌, ap, ◌==◌, ==_iff, Bool-cases, inl, inr}
use wireguard_rs.Peer.{Peer}
use wireguard_rs.Peer
use wireguard_rs.Peer.Identity.{Named}
use wireguard_rs.PeerServer.{PeerServer, update_peer}
use wireguard_rs.PeerServer.Stable.Loose.{Loose}
use wireguard_rs.PeerServer.Stable.{Closed}

module _ {N T : Type 0} where
  -- The state of the configuration is that of `s₀`.
  abbrev pub Framed : PeerServer N T → PeerServer N T → Type 0
  Framed s₀ s =
      (s.state.pubkey_map ≡ s₀.state.pubkey_map)
      × (s.state.router ≡ s₀.state.router)
      × (s.state.interface_info ≡ s₀.state.interface_info)
      × (s.next_rc ≡ s₀.next_rc)
      × ((r : ℕ) → Named (s₀.peers r).info.pub_key (s₀.peers r).info.allowed_ips (s.peers r))

  -- And the tunnel holds what it held.
  abbrev pub Quiet : PeerServer N T → PeerServer N T → Type 0
  Quiet s₀ s = Framed s₀ s × (s.tunnel ≡ s₀.tunnel)

  update_peer-Named :
      (s₀ s : PeerServer N T) (r : ℕ) (q : Peer N)
      → Named (s.peers r).info.pub_key (s.peers r).info.allowed_ips q
      → Framed s₀ s
      → Framed s₀ (record s { peers = update_peer r q s.peers })
  update_peer-Named s₀ s r q (key, ips) (map, router, info, next, named) = (
    map,
    router,
    info,
    next,
    λ r'. elim (Bool-cases (r' == r)) [
      | inl same ↦
          let e = (==_iff r' r).0 same in
          rw same (
            key ∙ ap (λ x. (s.peers x).info.pub_key) (sym e) ∙ (named r').0,
            ips ∙ ap (λ x. (s.peers x).info.allowed_ips) (sym e) ∙ (named r').1,
          )
      | inr other ↦ rw other (named r')
    ],
  )

module _ {N T : Type 0} (s₀ : PeerServer N T) where
  Quiet-Closed : Closed (Quiet s₀)
  Quiet-Closed = record {
    peer = λ s r q a (framed, same). (update_peer-Named s₀ s r q a.named framed, same);
    sent = λ s e h. h;
    timed = λ s t h. h;
    bound = λ s u p h. h;
    guarded = λ s c h. h;
    limited = λ s l h. h;
    loaded = λ s n h. h;
    queued = λ s q h. h;
  }

  pub Quiet-Loose : Loose (Quiet s₀)
  Quiet-Loose = record {
    closed = Quiet-Closed;
    indexed = λ s m h. h;
    renamed = λ s r q named (framed, same). (update_peer-Named s₀ s r q named framed, same);
  }
