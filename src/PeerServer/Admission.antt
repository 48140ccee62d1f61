-- ===== src/PeerServer/Admission.antt =====
-- src/interface/peer_server.rs: what a handshake message needs before anything is computed for it, and
-- what a message that is turned away leaves.
use wireguard_rs.Base.{
  ℕ, ◌≡◌, refl, ap, Bool, true, false, [], ◌∷◌, ◌++◌, Result, ok, err, is_ok, Bytes, take, drop,
  ◌⊎◌, inl, inr, is_some, Bool-cases, if◌then◌else◌,
}
use wireguard_rs.Base.Monad.{
  M, get_cases, try_cases, known_cases, ensure_last, pass_cases, then_known_cases, pure, ◌>>◌,
}
use wireguard_rs.Types.{Endpoint, addr, octets}
use wireguard_rs.Crates.{Crates}
use wireguard_rs.Message.{initiation_mac1, response_mac1, sender_index}
use wireguard_rs.Cookie.{verify_mac1, verify_mac2}
use wireguard_rs.RateLimiter.{allow}
use wireguard_rs.PeerServer.{PeerServer, Inputs, under_load, send_to_peer}
use wireguard_rs.PeerServer.Handshakes.{
  admit, admit_under_load, send_cookie_reply, handle_ingress_handshake_init,
  handle_ingress_handshake_resp,
}

module _ {N T : Type 0} (crates : Crates N T) (inputs : Inputs) (from : Endpoint) (at : ℕ)
    (packet : Bytes) where
  -- The first MAC stands at `at`.
  abbrev pub Mac1 : PeerServer N T → Type 0
  Mac1 s = is_ok (verify_mac1 crates s.cookie (take at packet) (take 16 (drop at packet))) ≡ true

  abbrev pub Mac2 : PeerServer N T → Type 0
  Mac2 s = is_ok (verify_mac2 crates inputs.now s.cookie packet (octets (addr from).ip)) ≡ true

  abbrev pub Loaded : Bool → PeerServer N T → Type 0
  Loaded b s = (under_load inputs.now s).1 ≡ ok b

  -- The first MAC is right; and under load the second one too, and the source is not too busy.
  abbrev pub Admissible : PeerServer N T → Type 0
  Admissible s =
      Mac1 s
      × (Loaded false s ⊎ (Mac2 s × ((allow inputs.now (addr from).ip s.rate_limiter).1 ≡ true)))

  -- At most a cookie reply was sent to the source, and that under load, for a right first MAC.
  abbrev pub Replied : PeerServer N T → PeerServer N T → Type 0
  Replied s after =
      (after.egress ≡ s.egress)
      ⊎ ((reply : Bytes) × (after.egress ≡ s.egress ++ (from, reply) ∷ []) × Mac1 s × Loaded true s)

  abbrev pub TurnedAway : PeerServer N T → PeerServer N T → Type 0
  TurnedAway s after =
      (after.peers ≡ s.peers)
      × (after.state ≡ s.state)
      × (after.timer ≡ s.timer)
      × (after.tunnel ≡ s.tunnel)
      × Replied s after

  abbrev pub Admitted : PeerServer N T → PeerServer N T × Result (Unit {0}) → Type 0
  Admitted s (after, ok u) = Admissible s
  Admitted s (after, err e) = TurnedAway s after

  -- What the steps on the way to a refusal leave.
  abbrev Alike : PeerServer N T → PeerServer N T → Type 0
  Alike s t =
      (t.peers ≡ s.peers)
      × (t.state ≡ s.state)
      × (t.timer ≡ s.timer)
      × (t.tunnel ≡ s.tunnel)
      × (t.egress ≡ s.egress)

  unsent : (s t : PeerServer N T) → Alike s t → TurnedAway s t
  unsent s t (peers, state, timer, tunnel, egress) = (peers, state, timer, tunnel, inl egress)

  send_cookie_reply-TurnedAway :
      (s t : PeerServer N T) (mac1 : Bytes) (index : ℕ)
      → Mac1 s
      → Loaded true s
      → Alike s t
      → TurnedAway s (send_cookie_reply crates inputs from mac1 index t).0
  unfolding send_cookie_reply send_to_peer
  send_cookie_reply-TurnedAway s t mac1 index right loaded same = get_cases P _ t (
      known_cases P (λ r. Alike s r.0) _ _ t same (λ t' e h. unsent s t' h)
        λ t' reply (peers, state, timer, tunnel, egress). elim (Bool-cases (is_some t'.udp)) [
          | inl bound ↦ rw bound (
            peers,
            state,
            timer,
            tunnel,
            inr (reply, ap (λ e. e ++ (from, reply) ∷ []) egress, right, loaded),
          )
          | inr free ↦ rw free (unsent s t' (peers, state, timer, tunnel, egress))
        ])
    where
      P : PeerServer N T × Result (Unit {0}) → Type 0
      P r = TurnedAway s r.0

  admit-Admitted :
      (mac1 : Bytes) (s : PeerServer N T) → Admitted s (admit crates inputs from at packet mac1 s)
  unfolding admit admit_under_load under_load
  admit-Admitted mac1 s = get_cases P _ s (
      try_cases P _ _ s (λ e _. unsent s s (refl, refl, refl, refl, refl))
        λ u checked. pass_cases P _ _ s refl (loaded (ap is_ok checked) _ refl))
    where
      P : PeerServer N T × Result (Unit {0}) → Type 0
      P = Admitted s

      after : PeerServer N T
      after = (under_load inputs.now s).0

      limited : PeerServer N T
      limited = record after { rate_limiter = (allow inputs.now (addr from).ip s.rate_limiter).0 }

      asked : Mac1 s → Loaded true s → P (admit_under_load crates inputs from packet mac1 after)
      asked right busy =
          get_cases P _ after
            (elim (Bool-cases
              (is_ok (verify_mac2 crates inputs.now s.cookie packet (octets (addr from).ip)))) [
                | inl valid ↦ rw valid (
                    pass_cases P _ _ after refl (
                      ensure_last P _ _ limited
                        (λ _. unsent s limited (refl, refl, refl, refl, refl))
                        (λ allowed. (right, inr (valid, allowed)))))
                | inr wrong ↦ rw wrong (
                    then_known_cases P (λ r. TurnedAway s r.0) _ _ after
                      (send_cookie_reply-TurnedAway s after mac1 (sender_index packet) right busy
                        (refl, refl, refl, refl, refl))
                      (λ t e h. h) (λ t h. h))
              ])

      loaded :
          Mac1 s
          → (b : Bool) → Loaded b s
          → P ((if b then admit_under_load crates inputs from packet mac1 else pure tt) after)
      loaded right true busy = asked right busy
      loaded right false idle = (right, inl idle)

module _ {N T : Type 0} (crates : Crates N T) (inputs : Inputs) (from : Endpoint) (packet : Bytes)
    (s : PeerServer N T) where
  -- A message was admissible, or it failed and was turned away.
  abbrev pub Guarded : ℕ → PeerServer N T × Result (Unit {0}) → Type 0
  Guarded at r =
      Admissible crates inputs from at packet s
      ⊎ ((is_ok r.1 ≡ false) × TurnedAway crates inputs from at packet s r.0)

  admit-Guarded :
      (at : ℕ) (mac1 : Bytes) (k : M (PeerServer N T) (Unit {0}))
      → Guarded at ((admit crates inputs from at packet mac1 >> k) s)
  admit-Guarded at mac1 k =
      then_known_cases (Guarded at) (Admitted crates inputs from at packet s) _ k s
        (admit-Admitted crates inputs from at packet mac1 s) (λ after e h. inr (refl, h))
        (λ after h. inl h)

  -- For an initiation or a response: either its first MAC is right, and under load also its second one
  -- and the rate limiter lets its source through; or it fails, the peers, the configuration with its
  -- maps, the timers and the tunnel stay, and nothing is sent but, under load and for a right first MAC,
  -- a cookie reply to the source.
  pub handle_ingress_handshake-Guarded :
      Guarded 116 (handle_ingress_handshake_init crates inputs from packet s)
      × Guarded 60 (handle_ingress_handshake_resp crates inputs from packet s)
  unfolding handle_ingress_handshake_init handle_ingress_handshake_resp
  handle_ingress_handshake-Guarded =
      (admit-Guarded 116 (initiation_mac1 packet) _, admit-Guarded 60 (response_mac1 packet) _)
