-- ===== src/Timestamp/Order.antt =====
-- src/timestamp.rs: the order of TAI64N stamps, which are compared byte by byte.
use native.Mathlib.Nat.{
  pow-suc, div-div-eq-div-mul, div-eq_of_lt, div-mul-le_self, le-div_iff_mul-le, one-le-pow,
}
use mathlib.Core.List.{append-nil}
use wireguard_rs.Base.{
  ℕ, zero, suc, ◌+◌, ◌*◌, ◌/◌, ◌%◌, ◌^◌, ◌<◌, ◌≤◌, ◌≡◌, sym, ap, ap₂, ◌∙◌, Bool, true, false, [],
  ◌++◌, Bytes, to_be, bytes_lt, ltb, arith, Bool-cases, inl, inr, if◌then◌else◌,
}
use wireguard_rs.Consts.{second}
use wireguard_rs.Timestamp.{tai64n_base, tai64n_now, tai64n_lt}

-- The first of two comparisons that decides.
abbrev order_then : ℕ → ℕ → Bool → Bool
order_then a b rest = if ltb a b then true else if ltb b a then false else rest

div_mono : (k : ℕ) {a b : ℕ} → 0 < k → a ≤ b → a / k ≤ b / k
div_mono k {a} {b} positive h =
    (le-div_iff_mul-le positive).1 (omega (arith, h, div-mul-le_self a k))

power_positive : (k : ℕ) → 0 < 256 ^ k
power_positive k = one-le-pow k 256 (omega arith)

lt_of_quotient : (k : ℕ) {a b : ℕ} → 0 < k → a / k < b / k → a < b
lt_of_quotient k {a} {b} positive h = elim (Bool-cases (ltb a b)) [
  | inl below ↦ ground (arith, below)
  | inr above ↦
      absurd (omega (arith, h, div_mono k {a = b} {b = a} positive (ground (arith, above))))
]

-- The quotients of numbers whose higher bytes are the same.
same_high : (k a b : ℕ) → a / 256 ^ suc k ≡ b / 256 ^ suc k → a / 256 ^ k / 256 ≡ b / 256 ^ k / 256
same_high k a b h =
    div-div-eq-div-mul a (256 ^ k) 256
    ∙ sym (ap (λ n. a / n) (pow-suc 256 k))
    ∙ h
    ∙ ap (λ n. b / n) (pow-suc 256 k)
    ∙ sym (div-div-eq-div-mul b (256 ^ k) 256)

-- Numbers with the same higher bytes are compared by their last `k` bytes.
bytes_lt-to_be :
    (k a b : ℕ) (xs ys : Bytes)
    → a / 256 ^ k ≡ b / 256 ^ k
    → bytes_lt (to_be k a ++ xs) (to_be k b ++ ys) ≡ order_then a b (bytes_lt xs ys)
bytes_lt-to_be zero a b xs ys h = ground (arith, h)
bytes_lt-to_be (suc k) a b xs ys h = by_digit (same_high k a b h) (bytes_lt-to_be k a b xs ys)
  where
    digit : ℕ → ℕ
    digit n = n / 256 ^ k % 256

    by_digit :
        a / 256 ^ k / 256 ≡ b / 256 ^ k / 256
        → (a / 256 ^ k ≡ b / 256 ^ k
            → bytes_lt (to_be k a ++ xs) (to_be k b ++ ys) ≡ order_then a b (bytes_lt xs ys))
        → order_then (digit a) (digit b) (bytes_lt (to_be k a ++ xs) (to_be k b ++ ys))
          ≡ order_then a b (bytes_lt xs ys)
    by_digit high rest = elim (Bool-cases (ltb (digit a) (digit b))) [
      | inl below ↦ ground (
        arith,
        below,
        lt_of_quotient (256 ^ k) {a = a} {b = b} (power_positive k) (ground (arith, high, below)),
      )
      | inr not_below ↦ elim (Bool-cases (ltb (digit b) (digit a))) [
        | inl above ↦ ground (
          arith,
          above,
          lt_of_quotient (256 ^ k) {a = b} {b = a} (power_positive k) (ground (arith, high, above)),
        )
        | inr not_above ↦
            ground (arith, not_below, not_above, rest (ground (arith, high, not_below, not_above)))
      ]
    ]

-- Seconds, then nanoseconds, are compared as the whole times are.
order_then-time :
    (secs nanos secs' nanos' : ℕ)
    → nanos < second
    → nanos' < second
    → order_then (tai64n_base + secs) (tai64n_base + secs') (order_then nanos nanos' false)
      ≡ ltb (secs * second + nanos) (secs' * second + nanos')
order_then-time secs nanos secs' nanos' few few' = ground arith

bytes_lt-to_be_whole :
    (k a b : ℕ)
    → a < 256 ^ k
    → b < 256 ^ k
    → bytes_lt (to_be k a) (to_be k b) ≡ order_then a b false
bytes_lt-to_be_whole k a b small small' =
    ap₂ bytes_lt (sym (append-nil (to_be k a))) (sym (append-nil (to_be k b)))
    ∙ bytes_lt-to_be k a b [] [] (div-eq_of_lt small ∙ sym (div-eq_of_lt small'))

-- The stamps of two system times are ordered as the times are, where the seconds with the base of
-- TAI64 fit an i64 and the nanoseconds are less than a second.
pub tai64n_lt-tai64n_now :
    (secs nanos secs' nanos' : ℕ)
    → tai64n_base + secs < 2 ^ 63
    → tai64n_base + secs' < 2 ^ 63
    → nanos < second
    → nanos' < second
    → tai64n_lt (tai64n_now secs nanos) (tai64n_now secs' nanos')
      ≡ ltb (secs * second + nanos) (secs' * second + nanos')
unfolding tai64n_now
tai64n_lt-tai64n_now secs nanos secs' nanos' fit fit' few few' =
    bytes_lt-to_be 8 (tai64n_base + secs) (tai64n_base + secs') (to_be 4 nanos) (to_be 4 nanos')
      (div-eq_of_lt (omega (arith, fit)) ∙ sym (div-eq_of_lt (omega (arith, fit'))))
    ∙ ap (order_then (tai64n_base + secs) (tai64n_base + secs'))
        (bytes_lt-to_be_whole 4 nanos nanos' (omega (arith, few)) (omega (arith, few')))
    ∙ order_then-time secs nanos secs' nanos' few few'
