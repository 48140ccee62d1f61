-- ===== src/RateLimiter.antt =====
-- src/ratelimiter.rs: a token bucket to each source address. Times are nanoseconds.
pub mod Bucket
use wireguard_rs.Base.{
  ℕ, ◌+◌, ◌-◌, ◌*◌, ◌/◌, ◌%◌, Bool, true, false, Option, none, some, List, [], ◌∷◌, min, ltb, leb,
  if◌then◌else◌,
}
use wireguard_rs.Base.Maps.{lookup, insert}
use wireguard_rs.Consts.{second}
use wireguard_rs.Timestamp.{Timestamp, timestamp_now, elapsed}
use wireguard_rs.Types.{IpAddr, eq_ip}

abbrev pub packets_per_second : ℕ
packets_per_second = 20

abbrev pub packets_burstable : ℕ
packets_burstable = 5

abbrev pub packet_cost : ℕ
packet_cost = 1000000000 / packets_per_second

abbrev pub max_tokens : ℕ
max_tokens = packet_cost * packets_burstable

abbrev pub gc_interval : ℕ
gc_interval = second

pub record Entry : Type 0 where
  pub last_time : Timestamp
  pub tokens : ℕ

pub record RateLimiter : Type 0 where
  pub table : List (IpAddr × Entry)

abbrev pub new_limiter : RateLimiter
new_limiter = record { table = [] }

-- `subsec_nanos`
abbrev pub subsec_nanos : ℕ → ℕ
subsec_nanos d = d % second

-- The entry after its tokens are filled up.
abbrev pub refilled : ℕ → Entry → Entry
refilled now entry = record {
  tokens = min max_tokens (entry.tokens + subsec_nanos (elapsed now entry.last_time));
  last_time = timestamp_now now;
}

-- What `allow` does with the entry that it has found.
unfoldable pub spend : Entry → Entry × Bool
spend entry =
    if ltb packet_cost entry.tokens
    then (record entry { tokens = entry.tokens - packet_cost }, true)
    else (entry, false)

allow_entry : ℕ → IpAddr → RateLimiter → Option Entry → RateLimiter × Bool
allow_entry now addr limiter (some entry) =
    let (entry', allowed) = spend (refilled now entry) in
    (record { table = insert addr entry' limiter.table }, allowed)
allow_entry now addr limiter none =
    let entry : Entry = record {
      last_time = timestamp_now now;
      tokens = max_tokens - packet_cost;
    } in
    (record { table = insert addr entry limiter.table }, true)

unfoldable pub allow : ℕ → IpAddr → RateLimiter → RateLimiter × Bool
unfolding allow_entry
allow now addr limiter = allow_entry now addr limiter (lookup addr limiter.table)

-- `table.retain(|_, entry| entry.last_time.elapsed() <= GC_INTERVAL)`
retain : ℕ → List (IpAddr × Entry) → List (IpAddr × Entry)
retain now [] = []
retain now ((ip, entry) ∷ table) =
    let rest = retain now table in
    if leb (elapsed now entry.last_time) gc_interval then (ip, entry) ∷ rest else rest

unfoldable pub handle_gc : ℕ → RateLimiter → RateLimiter
unfolding retain
handle_gc now limiter = record { table = retain now limiter.table }

-- `poll`, from whether the interval has sent a message.
unfoldable pub poll : ℕ → Bool → RateLimiter → RateLimiter
unfolding handle_gc
poll now sent limiter = if sent then handle_gc now limiter else limiter
