-- ===== src/Timestamp.antt =====
-- src/timestamp.rs: TAI64N stamps of handshakes, and instants that may be unset. An `Instant` is a
-- number of nanoseconds; the current one is an argument, `now`.
pub mod Order
use wireguard_rs.Base.{
  ℕ, ◌+◌, ◌-◌, ◌*◌, Bool, Option, none, some, ◌++◌, is_some, Bytes, to_be, bytes_lt,
}
use wireguard_rs.Consts.{second}

abbrev pub tai64n_base : ℕ
tai64n_base = 4611686018427387914

-- The 12 bytes of a stamp, compared as arrays are.
pub record Tai64n : Type 0 where
  pub tai64n : Bytes

-- `Tai64n::now` at a system time of `secs` seconds and `nanos` nanoseconds.
unfoldable pub tai64n_now : ℕ → ℕ → Tai64n
tai64n_now secs nanos = record { tai64n = to_be 8 (tai64n_base + secs) ++ to_be 4 nanos }

abbrev pub tai64n_lt : Tai64n → Tai64n → Bool
tai64n_lt a b = bytes_lt a.tai64n b.tai64n

abbrev pub forever : ℕ
forever = 0xffffffff * second

abbrev pub Timestamp : Type 0
Timestamp = Option ℕ

abbrev pub unset : Timestamp
unset = none

-- `Timestamp::now`
abbrev pub timestamp_now : ℕ → Timestamp
timestamp_now now = some now

abbrev pub is_set : Timestamp → Bool
is_set t = is_some t

-- `elapsed` of an unset timestamp is forever.
abbrev pub elapsed : ℕ → Timestamp → ℕ
elapsed now none = forever
elapsed now (some time) = now - time
