-- ===== src/Config/Routes.antt =====
-- src/interface/config.rs and src/router.rs: the routes under the updates, for a table that keeps its
-- laws.
pub mod Kept
pub mod Updates
use wireguard_rs.Base.{
  ℕ, suc, ◌+◌, ◌<◌, ◌≡◌, refl, sym, subst, ap, ◌∙◌, Bool, true, false, not, Option, none, some,
  List, [], ◌∷◌, ◌++◌, Bytes, Eq, eq_bytes, bytes_eq, bytes_eq_iff, arith, if◌then◌else◌,
  Bool-cases, ◌⊎◌, inl, inr, ◌==◌, ==_iff, ok, err, Result,
}
use wireguard_rs.Base.Maps.{lookup}
use wireguard_rs.Types.{IpAddr, v4, v6, PeerInfo}
use wireguard_rs.Crates.{Crates}
use wireguard_rs.Crates.Laws.{TableLaws}
use wireguard_rs.Router.{
  Router, add_allowed_ip, add_allowed_ips, remove_allowed_ip, remove_allowed_ips, clear,
  get_peer_from_ip,
}

-- A network of one of the two tables.
pub data Family : Type 0 where
  family4 family6 : Family

module _ {N T : Type 0} (crates : Crates N T) (laws : TableLaws crates) where
  -- Where a router leads at one network.
  abbrev pub route : Family → Bytes → Router T → Option ℕ
  route family4 n router = laws.exact n router.ip4_map
  route family6 n router = laws.exact n router.ip6_map

  -- Whether an allowed address is that network.
  abbrev pub covers : Family → Bytes → IpAddr × ℕ → Bool
  covers family4 n (v4 ip, mask) = bytes_eq (laws.net ip mask) n
  covers family4 n (v6 ip, mask) = false
  covers family6 n (v4 ip, mask) = false
  covers family6 n (v6 ip, mask) = bytes_eq (laws.net ip mask) n

  abbrev pub covered : Family → Bytes → List (IpAddr × ℕ) → Bool
  covered f n [] = false
  covered f n (ip ∷ ips) = if covers f n ip then true else covered f n ips

  route-add_allowed_ip :
      (f : Family) (n : Bytes) (ip : IpAddr) (mask r : ℕ) (router : Router T)
      → route f n (add_allowed_ip crates ip mask r router)
        ≡ (if covers f n (ip, mask) then some r else route f n router)
  unfolding add_allowed_ip
  route-add_allowed_ip family4 n (v4 ip) mask r router = laws.exact-insert n _ ip mask r
  route-add_allowed_ip family4 n (v6 ip) mask r router = refl
  route-add_allowed_ip family6 n (v4 ip) mask r router = refl
  route-add_allowed_ip family6 n (v6 ip) mask r router = laws.exact-insert n _ ip mask r

  route-remove_allowed_ip :
      (f : Family) (n : Bytes) (ip : IpAddr) (mask : ℕ) (router : Router T)
      → route f n (remove_allowed_ip crates ip mask router)
        ≡ (if covers f n (ip, mask) then none else route f n router)
  unfolding remove_allowed_ip
  route-remove_allowed_ip family4 n (v4 ip) mask router = laws.exact-remove n _ ip mask
  route-remove_allowed_ip family4 n (v6 ip) mask router = refl
  route-remove_allowed_ip family6 n (v4 ip) mask router = refl
  route-remove_allowed_ip family6 n (v6 ip) mask router = laws.exact-remove n _ ip mask

  pub route-clear :
      (f : Family) (n : Bytes) (router : Router T) → route f n (clear crates router) ≡ none
  route-clear family4 n router = laws.exact-empty n
  route-clear family6 n router = laws.exact-empty n

  pub route-add_allowed_ips :
      (f : Family) (n : Bytes) (ips : List (IpAddr × ℕ)) (r : ℕ) (router : Router T)
      → route f n (add_allowed_ips crates ips r router)
        ≡ (if covered f n ips then some r else route f n router)
  unfolding add_allowed_ips
  route-add_allowed_ips f n [] r router = refl
  route-add_allowed_ips f n ((ip, mask) ∷ ips) r router = ground (
    arith,
    route-add_allowed_ip f n ip mask r router,
    route-add_allowed_ips f n ips r (add_allowed_ip crates ip mask r router),
  )

  pub route-remove_allowed_ips :
      (f : Family) (n : Bytes) (ips : List (IpAddr × ℕ)) (router : Router T)
      → route f n (remove_allowed_ips crates ips router)
        ≡ (if covered f n ips then none else route f n router)
  unfolding remove_allowed_ips
  route-remove_allowed_ips f n [] router = refl
  route-remove_allowed_ips f n ((ip, mask) ∷ ips) router = ground (
    arith,
    route-remove_allowed_ip f n ip mask router,
    route-remove_allowed_ips f n ips (remove_allowed_ip crates ip mask router),
  )

  pub covered-append :
      (f : Family) (n : Bytes) (xs ys : List (IpAddr × ℕ))
      → covered f n ys ≡ true
      → covered f n (xs ++ ys) ≡ true
  covered-append f n [] ys h = h
  covered-append f n (x ∷ xs) ys h = ground (arith, covered-append f n xs ys h)
