-- ===== src/Config/Routes/Kept.antt =====
-- src/interface/config.rs: where the routes lead while peers come and go.
use wireguard_rs.Base.{
  ℕ, ◌≡◌, sym, ap, ◌∙◌, Bool, true, false, Option, none, some, List, Bytes, eq_bytes, bytes_eq_iff,
  arith, if◌then◌else◌, Bool-cases, inl, inr, ◌==◌, ==_iff,
}
use wireguard_rs.Base.Maps.{lookup, insert, remove, lookup-insert, lookup-remove}
use wireguard_rs.Types.{IpAddr, PeerInfo}
use wireguard_rs.Crates.{Crates}
use wireguard_rs.Crates.Laws.{TableLaws}
use wireguard_rs.Router.{Router, add_allowed_ips, remove_allowed_ips}
use wireguard_rs.Peer.{Peer}
use wireguard_rs.PeerServer
use wireguard_rs.Config.{merged, replaced_routes}
use wireguard_rs.Config.Registry.{Registered}
use wireguard_rs.Config.Routes.{
  Family, route, covered, route-add_allowed_ips, route-remove_allowed_ips, covered-append,
}

module _ {N T : Type 0} (crates : Crates N T) (laws : TableLaws crates) where
  -- Why a route may lead to a peer: it is registered, and the network is one of its allowed ones.
  pub record Entitled (pubkey_map : List (Bytes × ℕ)) (peers : ℕ → Peer N) (f : Family) (n : Bytes)
      (r : ℕ) : Type 0 where
    pub key : Bytes
    pub known : lookup key pubkey_map ≡ some r
    pub allowed : covered crates laws f n (peers r).info.allowed_ips ≡ true

  abbrev pub Routed : List (Bytes × ℕ) → (ℕ → Peer N) → Router T → Type 0
  Routed pubkey_map peers router =
      (f : Family) (n : Bytes) (r : ℕ)
      → route crates laws f n router ≡ some r
      → Entitled pubkey_map peers f n r

  -- No route at a network that is not among the allowed ones of a peer leads to it.
  not-Entitled :
      (pubkey_map : List (Bytes × ℕ)) (peers : ℕ → Peer N) (f : Family) (n : Bytes) (r peer_ref : ℕ)
      → covered crates laws f n (peers peer_ref).info.allowed_ips ≡ false
      → Entitled pubkey_map peers f n r
      → (r == peer_ref) ≡ false
  not-Entitled pubkey_map peers f n r peer_ref free e = ground (arith, e.allowed, ==_iff r peer_ref)

  -- A peer that goes, with its routes.
  pub unregister-Routed :
      (key : Bytes) (peer_ref : ℕ) (pubkey_map : List (Bytes × ℕ)) (peers : ℕ → Peer N)
      (router : Router T)
      → lookup key pubkey_map ≡ some peer_ref
      → Routed pubkey_map peers router
      → Routed
          (remove key pubkey_map)
          peers
          (remove_allowed_ips crates (peers peer_ref).info.allowed_ips router)
  unregister-Routed key peer_ref pubkey_map peers router at routed f n r h =
      let gone = peers peer_ref in
      let path = route-remove_allowed_ips crates laws f n gone.info.allowed_ips router in
      let e = routed f n r (ground (arith, path, h)) in
      elim (Bool-cases (r == peer_ref)) [
        | inl same ↦ absurd (ground (arith, path, h, e.allowed, ==_iff r peer_ref, same))
        | inr other ↦ record {
          key = e.key;
          known = ground (
            arith,
            lookup-remove key e.key pubkey_map,
            bytes_eq_iff key e.key,
            at,
            e.known,
            ==_iff r peer_ref,
            other,
          );
          allowed = e.allowed;
        }
      ]

  -- A peer that comes.
  pub register-Routed :
      (info : PeerInfo) (next_rc : ℕ) (own : Option Bytes) (q : Peer N)
      (pubkey_map : List (Bytes × ℕ)) (peers : ℕ → Peer N) (router : Router T)
      → q.info.allowed_ips ≡ info.allowed_ips
      → lookup info.pub_key pubkey_map ≡ none
      → Registered pubkey_map peers next_rc own
      → Routed pubkey_map peers router
      → Routed
          (insert info.pub_key next_rc pubkey_map)
          (PeerServer.update_peer next_rc q peers)
          (add_allowed_ips crates info.allowed_ips next_rc router)
  register-Routed info next_rc own q pubkey_map peers router same new g routed f n r h =
      let path = route-add_allowed_ips crates laws f n info.allowed_ips next_rc router in
      elim (Bool-cases (covered crates laws f n info.allowed_ips)) [
        | inl its ↦ record {
          key = info.pub_key;
          known = ground (
            arith,
            path,
            its,
            h,
            lookup-insert info.pub_key info.pub_key next_rc pubkey_map,
            bytes_eq_iff info.pub_key info.pub_key,
          );
          allowed = allowed_at (next_of path its h) its;
        }
        | inr other ↦
            let e = routed f n r (ground (arith, path, other, h)) in
            let old = g.allocated e.key r e.known in
            record {
              key = e.key;
              known = ground (
                arith,
                lookup-insert info.pub_key e.key next_rc pubkey_map,
                bytes_eq_iff info.pub_key e.key,
                new,
                e.known,
              );
              allowed = ground (arith, old, e.allowed, ==_iff r next_rc);
            }
      ]
    where
      next_of :
          route crates laws f n (add_allowed_ips crates info.allowed_ips next_rc router) ≡ (
            if covered crates laws f n info.allowed_ips
            then some next_rc
            else route crates laws f n router)
          → covered crates laws f n info.allowed_ips ≡ true
          → route crates laws f n (add_allowed_ips crates info.allowed_ips next_rc router) ≡ some r
          → (r == next_rc) ≡ true
      next_of path its h = ground (arith, path, its, h)

      allowed_at :
          (r == next_rc) ≡ true
          → covered crates laws f n info.allowed_ips ≡ true
          → covered crates laws f n (PeerServer.update_peer next_rc q peers r).info.allowed_ips
            ≡ true
      allowed_at here its = rw here (rw same its)

  -- A peer that is changed. Routes to it that are not its own any more have gone before.
  replace-Routed :
      (key : Bytes) (ips : List (IpAddr × ℕ)) (peer_ref : ℕ) (q : Peer N)
      (pubkey_map : List (Bytes × ℕ)) (peers : ℕ → Peer N) (router inner : Router T)
      → q.info.allowed_ips ≡ ips
      → lookup key pubkey_map ≡ some peer_ref
      → ((f : Family) (n : Bytes) (r : ℕ)
          → covered crates laws f n ips ≡ false
          → route crates laws f n inner ≡ some r
          → (route crates laws f n router ≡ some r) × ((r == peer_ref) ≡ false))
      → Routed pubkey_map peers router
      → Routed pubkey_map
          (PeerServer.update_peer peer_ref q peers)
          (add_allowed_ips crates ips peer_ref inner)
  replace-Routed key ips peer_ref q pubkey_map peers router inner same at others routed f n r h =
      let path = route-add_allowed_ips crates laws f n ips peer_ref inner in
      elim (Bool-cases (covered crates laws f n ips)) [
        | inl its ↦
            let here : r ≡ peer_ref = ground (arith, path, its, h) in
            record {
              key = key;
              known = at ∙ ap some (sym here);
              allowed = rw ((==_iff r peer_ref).1 here) (rw same its);
            }
        | inr free ↦
            let before = others f n r free (ground (arith, path, free, h)) in
            let e = routed f n r (before.0) in
            record { key = e.key; known = e.known; allowed = rw before.1 e.allowed }
      ]

  pub change-Routed :
      (info : PeerInfo) (replace : Bool) (peer_ref : ℕ) (q : Peer N) (pubkey_map : List (Bytes × ℕ))
      (peers : ℕ → Peer N) (router : Router T)
      → q.info.allowed_ips ≡ (merged replace info (peers peer_ref).info).allowed_ips
      → lookup info.pub_key pubkey_map ≡ some peer_ref
      → Routed pubkey_map peers router
      → Routed pubkey_map (PeerServer.update_peer peer_ref q peers) (
          add_allowed_ips crates
            (merged replace info (peers peer_ref).info).allowed_ips
            peer_ref
            (replaced_routes crates replace (peers peer_ref).info router))
  change-Routed info true peer_ref q pubkey_map peers router same at routed =
      replace-Routed info.pub_key _ peer_ref q pubkey_map peers router _ same at
        (λ f n r free h.
          let old = (peers peer_ref).info.allowed_ips in
          let path = route-remove_allowed_ips crates laws f n old router in
          let before : route crates laws f n router ≡ some r = ground (arith, path, h) in
          let gone : covered crates laws f n old ≡ false = ground (arith, path, h) in
          (before, not-Entitled pubkey_map peers f n r peer_ref gone (routed f n r before)))
        routed
  change-Routed info false peer_ref q pubkey_map peers router same at routed =
      replace-Routed info.pub_key _ peer_ref q pubkey_map peers router router same at
        (λ f n r free h. (
          h,
          not-Entitled pubkey_map peers f n r peer_ref
              (ground (
                arith,
                free,
                covered-append crates laws f n info.allowed_ips (peers peer_ref).info.allowed_ips,
              ))
              (routed f n r h),
        ))
        routed
