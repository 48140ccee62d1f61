-- ===== src/PeerServer/Indices/Rules.antt =====
-- src/interface/peer_server.rs: rules for the steps of a handler, by which the map from session indices
-- stays complete.
use wireguard_rs.Base.{
  ℕ, ◌+◌, ◌≤◌, ◌≡◌, Bool, true, false, Option, none, some, Result, ok, err, Error, if◌then◌else◌,
  eq_nat,
}
use wireguard_rs.Base.Monad.{M, pure, ◌>>=◌, ◌>>◌, ensure, next_step}
use wireguard_rs.Base.Preserves.{
  Preserves, bind-Preserves, then_after_lem, seq-Preserves, branch-Preserves, ensure-Preserves,
}
use wireguard_rs.Peer.{Peer, to_list}
use wireguard_rs.Peer.Rotation.{count, held}
use wireguard_rs.PeerServer.{
  PeerServer, update_peer, remove_dead, put_peer, with_peer, change_peer, with_state,
}
use wireguard_rs.PeerServer.Stable.{Closed}
use wireguard_rs.PeerServer.Indices.{Mapped, without, shrink, retire}

-- A method of a peer that hands out the index it no longer needs.
abbrev pub Retires : {N A : Type 0} → (A → Option ℕ) → Peer N → Peer N × Result A → Type 0
Retires dead p (q, ok a) =
    (i : ℕ) → held i q.sessions + count i (to_list (dead a)) ≡ held i p.sessions
Retires dead p (q, err e) = (i : ℕ) → held i q.sessions ≤ held i p.sessions

module _ {N T : Type 0} where
  abbrev pub Good : PeerServer N T → Type 0
  Good s = Mapped s.peers s.state.index_map

  -- A step after which the map is still complete, whether it succeeds or fails.
  abbrev pub Keeps : {A : Type 0} → M (PeerServer N T) A → Type 0
  Keeps = Preserves Good

  pub Good-Closed : Closed {N = N} {T = T} Good
  Good-Closed = record {
    peer = λ s r q a g. shrink s.peers s.state.index_map r q a.no_more g;
    sent = λ s e g. g;
    timed = λ s t g. g;
    bound = λ s u p g. g;
    guarded = λ s c g. g;
    limited = λ s l g. g;
    loaded = λ s n g. g;
    queued = λ s q g. g;
  }

  pub bind-Keeps :
      {A B : Type 0} (m : M (PeerServer N T) A) (f : A → M (PeerServer N T) B)
      → Keeps m
      → ((a : A) → Keeps (f a))
      → Keeps (m >>= f)
  bind-Keeps = bind-Preserves Good

  -- From the state that the first step leaves.
  pub then_after :
      {B : Type 0} (m : M (PeerServer N T) (Unit {0})) (k : M (PeerServer N T) B)
      (s : PeerServer N T)
      → Good (m s).0
      → Keeps k
      → Good ((m >> k) s).0
  then_after = then_after_lem Good

  pub seq-Keeps :
      {B : Type 0} (m : M (PeerServer N T) (Unit {0})) (k : M (PeerServer N T) B)
      → Keeps m
      → Keeps k
      → Keeps (m >> k)
  seq-Keeps = seq-Preserves Good

  pub branch-Keeps :
      {A : Type 0} (b : Bool) (m k : M (PeerServer N T) A)
      → Keeps m
      → Keeps k
      → Keeps (if b then m else k)
  branch-Keeps = branch-Preserves Good

  pub pure-Keeps : {A : Type 0} (a : A) → Keeps (pure a)
  pure-Keeps a s g = g

  pub if_after :
      {A : Type 0} (b : Bool) (m k : M (PeerServer N T) A) (s : PeerServer N T)
      → Good (m s).0
      → Good (k s).0
      → Good ((if b then m else k) s).0
  if_after true m k s gm gk = gm
  if_after false m k s gm gk = gk

  pub ensure-Keeps : (b : Bool) (e : Error) → Keeps (ensure b e)
  ensure-Keeps = ensure-Preserves Good

  abbrev pub with_sessions_of : ℕ → Peer N → PeerServer N T → PeerServer N T
  with_sessions_of r q s = record s { peers = update_peer r q s.peers }

  -- A method of a peer, of which something is known.
  pub peer_cases :
      {A B : Type 0} (P : PeerServer N T × Result B → Type 0) (R : Peer N × Result A → Type 0)
      (r : ℕ) (m : M (Peer N) A) (f : A → M (PeerServer N T) B) (s : PeerServer N T)
      → R (m (s.peers r))
      → ((q : Peer N) (e : Error) → R (q, err e) → P (with_sessions_of r q s, err e))
      → ((q : Peer N) (a : A) → R (q, ok a) → P (f a (with_sessions_of r q s)))
      → P ((with_peer r m >>= f) s)
  unfolding ◌>>=◌ with_peer
  peer_cases {A} {B} P R r m f s = cases (m (s.peers r))
    where
      cases :
          (x : Peer N × Result A)
          → R x
          → ((q : Peer N) (e : Error) → R (q, err e) → P (with_sessions_of r q s, err e))
          → ((q : Peer N) (a : A) → R (q, ok a) → P (f a (with_sessions_of r q s)))
          → P (next_step (put_peer r s x) f)
      cases (q, ok a) known failed went = went q a known
      cases (q, err e) known failed went = failed q e known

  pub with_peer-Keeps :
      {A : Type 0} (r : ℕ) (m : M (Peer N) A)
      → ((p : Peer N) (i : ℕ) → held i (m p).0.sessions ≤ held i p.sessions)
      → Keeps (with_peer r m)
  unfolding with_peer
  with_peer-Keeps r m less s g = cases (m (s.peers r)) (less (s.peers r))
    where
      cases :
          {A : Type 0} (x : Peer N × Result A)
          → ((i : ℕ) → held i (x.0).sessions ≤ held i (s.peers r).sessions)
          → Good (put_peer r s x).0
      cases (q, res) h = shrink s.peers s.state.index_map r q h g

  pub change_peer-Keeps :
      (r : ℕ) (f : Peer N → Peer N)
      → ((p : Peer N) (i : ℕ) → held i (f p).sessions ≤ held i p.sessions)
      → Keeps (change_peer r f)
  unfolding change_peer
  change_peer-Keeps r f less s g =
      shrink s.peers s.state.index_map r (f (s.peers r)) (less (s.peers r)) g

  -- The map is complete but for an index that is to go.
  abbrev pub GoodWithout : Option ℕ → PeerServer N T → Type 0
  GoodWithout dead s = Mapped s.peers (without dead s.state.index_map)

  pub remove_dead-Good :
      (dead : Option ℕ) (s : PeerServer N T)
      → GoodWithout dead s
      → Good (record s { state = remove_dead dead s.state })
  unfolding remove_dead
  remove_dead-Good none s g = g
  remove_dead-Good (some j) s g = g

  -- The steps after a method that hands an index over.
  pub handover-Keeps :
      {A B : Type 0} (r : ℕ) (m : M (Peer N) A) (dead : A → Option ℕ) (f : A → M (PeerServer N T) B)
      → ((p : Peer N) → Retires dead p (m p))
      → ((a : A) (s : PeerServer N T) → GoodWithout (dead a) s → Good (f a s).0)
      → Keeps (with_peer r m >>= f)
  handover-Keeps r m dead f retires hand s g =
      peer_cases (λ r. Good r.0) (Retires dead (s.peers r)) r m f s (retires (s.peers r))
        (λ q e less. shrink s.peers s.state.index_map r q less g)
        (λ q a balance. hand a _ (retire s.peers s.state.index_map r q (dead a) balance g))

  -- The index that a peer hands over goes from the map at once.
  pub retire-Keeps :
      {A B : Type 0} (r : ℕ) (m : M (Peer N) A) (dead : A → Option ℕ) (k : A → M (PeerServer N T) B)
      → ((p : Peer N) → Retires dead p (m p))
      → ((a : A) → Keeps (k a))
      → Keeps (with_peer r m >>= λ a. with_state (remove_dead (dead a)) >> k a)
  retire-Keeps r m dead k retires kk =
      handover-Keeps r m dead _ retires
        λ a s g. then_after _ (k a) s (remove_dead-Good (dead a) s g) (kk a)
