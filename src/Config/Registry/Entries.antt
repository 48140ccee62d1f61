-- ===== src/Config/Registry/Entries.antt =====
-- src/interface/config.rs: the entries of the map from public keys to peers, one by one.
use wireguard_rs.Base.{
  ℕ, suc, ◌≤◌, ◌<◌, ◌≡◌, sym, ◌∙◌, false, Option, none, some, List, length, bytes_eq_iff, Bytes,
  arith, eq_bytes, eq_nat, ==_iff,
}
use wireguard_rs.Base.Maps.{
  lookup, insert, remove, lookup-insert, lookup-remove, length-insert, length-remove,
}
use wireguard_rs.Consts.{max_peers_per_device}
use wireguard_rs.Types.{PeerInfo}
use wireguard_rs.Peer.{Peer}
use wireguard_rs.PeerServer.{PeerServer, State, with_state}
use wireguard_rs.PeerServer
use wireguard_rs.Config.{is_own_key}

pub removed_self :
    (own k : Bytes) (pubkey_map : List (Bytes × ℕ))
    → some own ≡ some k
    → lookup k (remove own pubkey_map) ≡ none
removed_self own k pubkey_map h =
    ground (arith, lookup-remove own k pubkey_map, bytes_eq_iff own k, h)

module _ {N : Type 0} where
  -- Each peer is registered under its own key, its `Rc` has been allocated, and there are not too many.
  pub record Registered (pubkey_map : List (Bytes × ℕ)) (peers : ℕ → Peer N) (next_rc : ℕ)
      (own : Option Bytes) : Type 0 where
    pub keyed : (k : Bytes) (r : ℕ) → lookup k pubkey_map ≡ some r → (peers r).info.pub_key ≡ k
    pub allocated : (k : Bytes) (r : ℕ) → lookup k pubkey_map ≡ some r → r < next_rc
    pub not_self : (k : Bytes) → own ≡ some k → lookup k pubkey_map ≡ none
    pub few : length pubkey_map ≤ max_peers_per_device

  -- Two keys never lead to one peer.
  pub one_key :
      (pubkey_map : List (Bytes × ℕ)) (peers : ℕ → Peer N) (next_rc : ℕ) (own : Option Bytes)
      → Registered pubkey_map peers next_rc own
      → (j k : Bytes) (r : ℕ) → lookup j pubkey_map ≡ some r
      → lookup k pubkey_map ≡ some r
      → j ≡ k
  one_key pubkey_map peers next_rc own g j k r a b = sym (g.keyed j r a) ∙ g.keyed k r b

  pub forget :
      (key : Bytes) (pubkey_map : List (Bytes × ℕ)) (peers : ℕ → Peer N) (next_rc : ℕ)
      (own : Option Bytes)
      → Registered pubkey_map peers next_rc own
      → Registered (remove key pubkey_map) peers next_rc own
  forget key pubkey_map peers next_rc own g = record {
    keyed = λ k r h. ground (arith, lookup-remove key k pubkey_map, g.keyed k r, h);
    allocated = λ k r h. ground (arith, lookup-remove key k pubkey_map, g.allocated k r, h);
    not_self = λ k h. ground (arith, lookup-remove key k pubkey_map, g.not_self k h);
    few = omega (arith, length-remove key pubkey_map, g.few);
  }

  pub disown :
      (pubkey_map : List (Bytes × ℕ)) (peers : ℕ → Peer N) (next_rc : ℕ) (before own : Option Bytes)
      → ((k : Bytes) → own ≡ some k → lookup k pubkey_map ≡ none)
      → Registered pubkey_map peers next_rc before
      → Registered pubkey_map peers next_rc own
  disown pubkey_map peers next_rc before own absent g = record {
    keyed = g.keyed;
    allocated = g.allocated;
    not_self = absent;
    few = g.few;
  }

  pub register :
      (info : PeerInfo) (q : Peer N) (pubkey_map : List (Bytes × ℕ)) (peers : ℕ → Peer N)
      (next_rc : ℕ) (own : Option Bytes)
      → q.info.pub_key ≡ info.pub_key
      → is_own_key info.pub_key own ≡ false
      → length pubkey_map < max_peers_per_device
      → Registered pubkey_map peers next_rc own
      → Registered
          (insert info.pub_key next_rc pubkey_map)
          (PeerServer.update_peer next_rc q peers)
          (suc next_rc)
          own
  register info q pubkey_map peers next_rc own same other room g = record {
    keyed = λ k r h. ground (
      arith,
      lookup-insert info.pub_key k next_rc pubkey_map,
      bytes_eq_iff info.pub_key k,
      ==_iff r next_rc,
      g.keyed k r,
      g.allocated k r,
      same,
      h,
    );
    allocated = λ k r h.
        ground (arith, lookup-insert info.pub_key k next_rc pubkey_map, g.allocated k r, h);
    not_self = λ k h. ground (
      arith,
      lookup-insert info.pub_key k next_rc pubkey_map,
      g.not_self k h,
      bytes_eq_iff k info.pub_key,
      bytes_eq_iff info.pub_key k,
      other,
      h,
    );
    few = omega (arith, length-insert info.pub_key next_rc pubkey_map, g.few, room);
  }
