-- ===== src/Tests/Small.antt =====
-- Instances of the theorems on messages, cookies, the rate limiter and timers, and the test vector of
-- HChaCha20.
use wireguard_rs.Base.{
  ltb, ◌+◌, ◌-◌, ◌*◌, ◌≤◌, ◌≡◌, ◌↔◌, refl, true, false, none, some, [], ◌∷◌, ◌++◌, Result, ok, err,
  Error, Bytes, replicate, arith, List, ℕ,
}
use wireguard_rs.Base.Maps.{lookup}
use wireguard_rs.Consts.{second}
use wireguard_rs.Timestamp.{tai64n_now, tai64n_lt}
use wireguard_rs.Timestamp.Order.{tai64n_lt-tai64n_now}
use wireguard_rs.Types.{IpAddr, v4, eq_ip}
use wireguard_rs.Crates.Sample.{sample, sample-CryptoLaws, sample_key}
use wireguard_rs.Message.{initiation, try_from}
use wireguard_rs.Message.Accept.{IsReadFrom, try_from-IsReadFrom, try_from-panics}
use wireguard_rs.Xchacha.{encrypt, hchacha20}
use wireguard_rs.Cookie.{
  build_macs, verify_mac1, verify_mac2, generate_reply, consume_reply, is_secret_valid,
  new_validator, new_generator,
}
use wireguard_rs.Cookie.Laws.{verify_mac1-build_macs, verify_mac2-build_macs}
use wireguard_rs.RateLimiter.{RateLimiter, new_limiter, allow, max_tokens, packet_cost}
use wireguard_rs.RateLimiter.Bucket.{Holds, passed, end_time, passed-le, allow_whole_seconds}
use wireguard_rs.Timer.{Timer, passive_keep_alive, wipe, send_after, cancel, fired}
use wireguard_rs.Timer.Firing.{fired-cancel}
use wireguard_rs.Tests.{cookie, validator}

abbrev initiation_packet : Bytes
initiation_packet = 1 ∷ replicate 147 0

try_from-IsReadFrom_example :
    (try_from initiation_packet ≡ ok (initiation initiation_packet))
    ↔ IsReadFrom (initiation initiation_packet) initiation_packet
try_from-IsReadFrom_example = try_from-IsReadFrom initiation_packet (initiation initiation_packet)

try_from-panics_example : (try_from [] ≡ err Error.panicked) ↔ (◌≡◌ {A = Bytes} [] [])
try_from-panics_example = try_from-panics []

verify_mac1-build_macs_example :
    (verify_mac1 sample (new_validator sample sample_key) (5 ∷ 6 ∷ []) (replicate 16 0) ≡ ok tt)
    ↔ (replicate 16 0 ≡ (build_macs sample second (5 ∷ 6 ∷ []) (new_generator sample sample_key)).1)
verify_mac1-build_macs_example =
    verify_mac1-build_macs sample sample_key second (5 ∷ 6 ∷ []) (replicate 16 0)

abbrev ok_bytes : Result Bytes → Bytes
ok_bytes (ok b) = b
ok_bytes (err e) = []

abbrev reply : Bytes
reply =
    ok_bytes
      (generate_reply sample second (replicate 16 3) (replicate 24 4) 6 (replicate 16 9)
        (127 ∷ 0 ∷ 0 ∷ 1 ∷ []) validator).1

has_reply :
    (generate_reply sample second
      (replicate 16 3)
      (replicate 24 4)
      6
      (replicate 16 9)
      (127 ∷ 0 ∷ 0 ∷ 1 ∷ [])
      validator).1
    ≡ ok reply
unfolding generate_reply encrypt
has_reply = refl

still_valid :
    is_secret_valid
      (2 * second)
      (generate_reply sample second
        (replicate 16 3)
        (replicate 24 4)
        6
        (replicate 16 9)
        (127 ∷ 0 ∷ 0 ∷ 1 ∷ [])
        validator).0.mac2.secret_time
    ≡ true
unfolding generate_reply
still_valid = refl

verify_mac2-build_macs_example :
    let v' =
      (generate_reply sample second
        (replicate 16 3)
        (replicate 24 4)
        6
        (replicate 16 9)
        (127 ∷ 0 ∷ 0 ∷ 1 ∷ [])
        validator).0 in
    let consumed = consume_reply sample second reply cookie in
    let macs = build_macs sample (2 * second) (5 ∷ 6 ∷ []) consumed.0 in
    (consumed.1 ≡ ok tt)
    × (mac2 : Bytes) × (macs.2 ≡ some mac2)
    × (verify_mac2 sample (2 * second) v' (((5 ∷ 6 ∷ []) ++ macs.1) ++ mac2) (127 ∷ 0 ∷ 0 ∷ 1 ∷ [])
        ≡ ok tt)
verify_mac2-build_macs_example =
    verify_mac2-build_macs sample sample-CryptoLaws validator cookie second (2 * second)
      (replicate 16 3) (replicate 24 4) 6 (replicate 16 9) (127 ∷ 0 ∷ 0 ∷ 1 ∷ []) reply (5 ∷ 6 ∷ [])
      refl refl refl has_reply still_valid (omega arith)

abbrev home : IpAddr
home = v4 (127 ∷ 0 ∷ 0 ∷ 1 ∷ [])

not_seen : lookup home new_limiter.table ≡ none
unfolding lookup
not_seen = refl

passed-le_example :
    passed home (0 ∷ 0 ∷ 0 ∷ 0 ∷ 0 ∷ 0 ∷ second ∷ []) new_limiter * packet_cost
    ≤ max_tokens + (end_time 0 (0 ∷ 0 ∷ 0 ∷ 0 ∷ 0 ∷ second ∷ []) - 0)
passed-le_example =
    passed-le home 0 (0 ∷ 0 ∷ 0 ∷ 0 ∷ 0 ∷ second ∷ []) new_limiter not_seen
      (omega arith, (omega arith, (omega arith, (omega arith, (omega arith, (omega arith, tt))))))

abbrev spent : RateLimiter
spent = record { table = (home, record { last_time = some 0; tokens = 0 }) ∷ [] }

is_spent : Holds home 0 0 spent
unfolding lookup
is_spent = record { entry = refl }

allow_whole_seconds_example : (allow (0 + 3600 * second) home spent).1 ≡ false
allow_whole_seconds_example = allow_whole_seconds home 0 0 3600 spent is_spent (omega arith)

hchacha20_vector :
    hchacha20
      (0 ∷ 1 ∷ 2 ∷ 3 ∷ 4 ∷ 5 ∷ 6 ∷ 7 ∷ 8 ∷ 9 ∷ 10 ∷ 11 ∷ 12 ∷ 13 ∷ 14 ∷ 15 ∷ 16 ∷ 17 ∷ 18 ∷ 19 ∷ 20
        ∷ 21 ∷ 22 ∷ 23 ∷ 24 ∷ 25 ∷ 26 ∷ 27 ∷ 28 ∷ 29 ∷ 30 ∷ 31 ∷ [])
      (0x00 ∷ 0x00 ∷ 0x00 ∷ 0x09 ∷ 0x00 ∷ 0x00 ∷ 0x00 ∷ 0x4a ∷ 0x00 ∷ 0x00 ∷ 0x00 ∷ 0x00 ∷ 0x31
        ∷ 0x41 ∷ 0x59 ∷ 0x27 ∷ [])
    ≡ 0x82 ∷ 0x41 ∷ 0x3b ∷ 0x42 ∷ 0x27 ∷ 0xb2 ∷ 0x7b ∷ 0xfe ∷ 0xd3 ∷ 0x0e ∷ 0x42 ∷ 0x50 ∷ 0x8a
      ∷ 0x87 ∷ 0x7d ∷ 0x73 ∷ 0xa0 ∷ 0xf9 ∷ 0xe4 ∷ 0xd5 ∷ 0x8a ∷ 0x74 ∷ 0xa8 ∷ 0x53 ∷ 0xc1 ∷ 0x2e
      ∷ 0xc4 ∷ 0x13 ∷ 0x26 ∷ 0xd3 ∷ 0xec ∷ 0xdc ∷ []
unfolding hchacha20
hchacha20_vector = refl

-- A passive keepalive is pending when a wipe is set.
abbrev one_pending : Timer
one_pending = record {
  next_id = 1;
  pending =
      record { id = 0; due = 7 * second; message = passive_keep_alive 0; canceled = false } ∷ [];
  channel = [];
}

-- The keepalive is woken, then the wipe, too early and in its time.
abbrev wakings : List (ℕ × ℕ)
wakings = (7 * second, 0) ∷ (8 * second, 1) ∷ (20 * second, 1) ∷ []

fired-cancel_example :
    fired wakings (
      cancel
        (send_after second (5 * second) (wipe 0) one_pending).1
        (send_after second (5 * second) (wipe 0) one_pending).0)
    ≡ fired wakings one_pending
fired-cancel_example =
    fired-cancel second (5 * second) (wipe 0) one_pending wakings (omega arith, tt)

tai64n_lt-tai64n_now_example :
    tai64n_lt (tai64n_now 1543255751 999999999) (tai64n_now 1543255752 5)
    ≡ ltb (1543255751 * second + 999999999) (1543255752 * second + 5)
tai64n_lt-tai64n_now_example =
    tai64n_lt-tai64n_now 1543255751 999999999 1543255752 5 (omega arith) (omega arith) (omega arith)
      (omega arith)
