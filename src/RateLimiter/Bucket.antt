-- ===== src/RateLimiter/Bucket.antt =====
-- How much the rate limiter lets through.
use wireguard_rs.Base.{
  ℕ, suc, ◌+◌, ◌-◌, ◌*◌, ◌%◌, ◌≤◌, ◌≡◌, refl, ◌∙◌, true, false, none, some, List, [], ◌∷◌, min, ltb,
  if◌then◌else◌, Bool-cases, inl, inr, arith,
}
use wireguard_rs.Base.Maps.{lookup, lookup-insert_self}
use wireguard_rs.Consts.{second}
use wireguard_rs.Timestamp.{timestamp_now}
use wireguard_rs.Types.{IpAddr, eq_ip}
use wireguard_rs.RateLimiter.{RateLimiter, packet_cost, max_tokens, spend, allow}

-- Packets from one address at the given times, each time no earlier than the one before; and how
-- many of them pass.
abbrev pub passed : IpAddr → List ℕ → RateLimiter → ℕ
passed ip [] limiter = 0
passed ip (now ∷ times) limiter =
    let rest = passed ip times (allow now ip limiter).0 in
    if (allow now ip limiter).1 then suc rest else rest

-- `since` is the time of the packet before.
abbrev pub Ordered : ℕ → List ℕ → Type 0
Ordered since [] = Unit {0}
Ordered since (now ∷ times) = (since ≤ now) × Ordered now times

abbrev pub end_time : ℕ → List ℕ → ℕ
end_time since [] = since
end_time since (now ∷ times) = end_time now times

-- An entry that `allow` has left at the time `since`.
pub record Holds (ip : IpAddr) (since tokens : ℕ) (limiter : RateLimiter) : Type 0 where
  pub entry :
      lookup ip limiter.table ≡ some (record { last_time = timestamp_now since; tokens = tokens })

allow_known :
    (ip : IpAddr) (since tokens now : ℕ) (limiter : RateLimiter)
    → Holds ip since tokens limiter
    → let full = min max_tokens (tokens + (now - since) % second) in
      ((allow now ip limiter).1 ≡ ltb packet_cost full)
      × Holds ip now
          (if ltb packet_cost full then full - packet_cost else full)
          (allow now ip limiter).0
unfolding allow spend
allow_known ip since tokens now limiter h =
    elim (Bool-cases (ltb packet_cost (min max_tokens (tokens + (now - since) % second)))) [
      | inl enough ↦
          rw (h.entry, allow)
            (rw enough (refl, record { entry = lookup-insert_self ip _ limiter.table }))
      | inr short ↦
          rw (h.entry, allow)
            (rw short (refl, record { entry = lookup-insert_self ip _ limiter.table }))
    ]

allow_unknown :
    (ip : IpAddr) (now : ℕ) (limiter : RateLimiter)
    → lookup ip limiter.table ≡ none
    → ((allow now ip limiter).1 ≡ true)
      × Holds ip now (max_tokens - packet_cost) (allow now ip limiter).0
unfolding allow
allow_unknown ip now limiter h =
    rw (h, allow) (refl, record { entry = lookup-insert_self ip _ limiter.table })

le-end_time : (since : ℕ) (times : List ℕ) → Ordered since times → since ≤ end_time since times
le-end_time since [] o = omega arith
le-end_time since (now ∷ times) o = omega (arith, o.0, le-end_time now times o.1)

passed_known :
    (ip : IpAddr) (times : List ℕ) (since tokens : ℕ) (limiter : RateLimiter)
    → Holds ip since tokens limiter
    → Ordered since times
    → passed ip times limiter * packet_cost ≤ tokens + (end_time since times - since)
passed_known ip [] since tokens limiter h o = omega arith
passed_known ip (now ∷ times) since tokens limiter h o =
    elim (Bool-cases (ltb packet_cost (min max_tokens (tokens + (now - since) % second)))) [
      | inl enough ↦
          let ih =
            passed_known ip times now _ (allow now ip limiter).0
              (rw enough at (allow_known ip since tokens now limiter h).1) o.1 in
          rw ((allow_known ip since tokens now limiter h).0, enough)
            (ground (arith, ih, o.0, le-end_time now times o.1))
      | inr short ↦
          let ih =
            passed_known ip times now _ (allow now ip limiter).0
              (rw short at (allow_known ip since tokens now limiter h).1) o.1 in
          rw ((allow_known ip since tokens now limiter h).0, short)
            (ground (arith, ih, o.0, le-end_time now times o.1))
    ]

-- From an address that is not in the table, the packets that pass, each counted at its cost of
-- 1/20 s, never exceed the burst of five and the time from the first packet to the last.
pub passed-le :
    (ip : IpAddr) (start : ℕ) (times : List ℕ) (limiter : RateLimiter)
    → lookup ip limiter.table ≡ none
    → Ordered start times
    → passed ip (start ∷ times) limiter * packet_cost ≤ max_tokens + (end_time start times - start)
passed-le ip start times limiter h o =
    let first = allow_unknown ip start limiter h in
    let rest = passed_known ip times start _ (allow start ip limiter).0 first.1 o in
    rw first.0 (omega (arith, rest))

-- Only the part of a second is counted: an address whose tokens do not cover a packet is refused
-- however many whole seconds it has been silent.
pub allow_whole_seconds :
    (ip : IpAddr) (since tokens seconds : ℕ) (limiter : RateLimiter)
    → Holds ip since tokens limiter
    → tokens ≤ packet_cost
    → (allow (since + seconds * second) ip limiter).1 ≡ false
allow_whole_seconds ip since tokens seconds limiter h few =
    (allow_known ip since tokens (since + seconds * second) limiter h).0 ∙ ground arith
