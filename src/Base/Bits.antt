-- ===== src/Base/Bits.antt =====
-- Bits of a word: what `&` with a power of two or a mask and `|` with a power of two mean.
mod Digits
use Digits.{bit_and_half, bit_or_half}
use Prim.Native.Nat.{ℕ, zero, suc, ◌+◌, ◌-◌, ◌*◌, ◌/◌, ◌%◌, ◌^◌, ◌≤◌, ◌<◌, bit_and, bit_or}
use mathlib.Core.Path.{◌≡◌, refl, ap, ◌∙◌}
use mathlib.Core.Logic.{◌≢◌}
use native.Mathlib.Nat.{pow-suc, pow-succ', one-le-pow, div-add-mod', div-div-eq-div-mul}
use native.Mathlib.Omega.{arith}

-- Bit `k` of a number.
unfoldable pub bit : ℕ → ℕ → ℕ
bit w zero = w % 2
bit w (suc k) = bit (w / 2) k

pub bit-lt : (w k : ℕ) → bit w k < 2
unfolding bit
bit-lt w zero = omega arith
bit-lt w (suc k) = bit-lt (w / 2) k

pub bit-zero : (k : ℕ) → bit 0 k ≡ 0
unfolding bit
bit-zero zero = refl
bit-zero (suc k) = bit-zero k

bit_and-zero_below : (n w : ℕ) → w ≤ n → bit_and w 0 ≡ 0
bit_and-zero_below n zero h = refl
bit_and-zero_below zero (suc w) h = absurd (omega arith)
bit_and-zero_below (suc n) (suc w) h =
    omega (arith, bit_and_half (suc w) 0, bit_and-zero_below n (suc w / 2) (omega arith))

bit_or-zero_below : (n w : ℕ) → w ≤ n → bit_or w 0 ≡ w
bit_or-zero_below n zero h = refl
bit_or-zero_below zero (suc w) h = absurd (omega arith)
bit_or-zero_below (suc n) (suc w) h =
    omega (arith, bit_or_half (suc w) 0, bit_or-zero_below n (suc w / 2) (omega arith))

pow-half : (k : ℕ) → (2 ^ suc k / 2 ≡ 2 ^ k) × (2 ^ suc k % 2 ≡ 0)
pow-half k = omega (arith, pow-suc 2 k)

-- `w & (1 << k)` is bit `k`, in its place.
pub bit_and-pow : (w k : ℕ) → bit_and w (2 ^ k) ≡ bit w k * 2 ^ k
unfolding bit
bit_and-pow w zero =
    omega (arith, bit_and_half w 1, bit_and-zero_below (w / 2) (w / 2) (omega arith))
bit_and-pow w (suc k) = omega (
  arith,
  bit_and_half w (2 ^ suc k),
  pow-half k,
  ap (λ (t : ℕ). bit_and (w / 2) t) (pow-half k).0,
  bit_and-pow (w / 2) k,
  ap (λ (t : ℕ). bit (w / 2) k * t) (pow-suc 2 k),
)

bit_or-pow_half : (w k : ℕ) → bit_or w (2 ^ suc k) / 2 ≡ bit_or (w / 2) (2 ^ k)
bit_or-pow_half w k =
    omega (
      arith,
      bit_or_half w (2 ^ suc k),
      pow-half k,
      ap (λ (t : ℕ). bit_or (w / 2) t) (pow-half k).0,
    )

-- `w | (1 << k)` has bit `k`, and the other bits of `w`.
pub bit-bit_or_pow_self : (w k : ℕ) → bit (bit_or w (2 ^ k)) k ≡ 1
unfolding bit
bit-bit_or_pow_self w zero = omega (arith, bit_or_half w 1)
bit-bit_or_pow_self w (suc k) =
    ap (λ (t : ℕ). bit t k) (bit_or-pow_half w k) ∙ bit-bit_or_pow_self (w / 2) k

pub bit-bit_or_pow_ne : (w k j : ℕ) → k ≢ j → bit (bit_or w (2 ^ k)) j ≡ bit w j
unfolding bit
bit-bit_or_pow_ne w zero zero h = absurd (h refl)
bit-bit_or_pow_ne w zero (suc j) h =
    ap (λ (t : ℕ). bit t j)
      (omega (arith, bit_or_half w 1, bit_or-zero_below (w / 2) (w / 2) (omega arith)))
bit-bit_or_pow_ne w (suc k) zero h = omega (arith, bit_or_half w (2 ^ suc k), pow-half k)
bit-bit_or_pow_ne w (suc k) (suc j) h =
    ap (λ (t : ℕ). bit t j) (bit_or-pow_half w k)
    ∙ bit-bit_or_pow_ne (w / 2) k j (λ e. h (ap suc e))

-- `w | (1 << k)` fits the width of `w` and `1 << k`.
pub bit_or-pow_lt : (n k w : ℕ) → w < 2 ^ n → k < n → bit_or w (2 ^ k) < 2 ^ n
bit_or-pow_lt zero k w h lt = absurd (omega arith)
bit_or-pow_lt (suc n) zero w h lt =
    omega (arith, bit_or_half w 1, bit_or-zero_below (w / 2) (w / 2) (omega arith), pow-suc 2 n)
bit_or-pow_lt (suc n) (suc k) w h lt = omega (
  arith,
  bit_or_half w (2 ^ suc k),
  pow-half k,
  pow-suc 2 n,
  ap (λ (t : ℕ). bit_or (w / 2) t) (pow-half k).0,
  bit_or-pow_lt n k (w / 2) (omega (arith, pow-suc 2 n)) (omega arith),
)

mod_double : (w p : ℕ) → w % (2 * p) ≡ w / 2 % p * 2 + w % 2
mod_double w p = omega (
  arith,
  div-add-mod' w (2 * p),
  div-add-mod' (w / 2) p,
  ap (λ (t : ℕ). t * (2 * p)) (div-div-eq-div-mul w 2 p),
)

-- `w & (2^k - 1)` is `w % 2^k`.
pub bit_and_mask : (k w : ℕ) → bit_and w (2 ^ k - 1) ≡ w % 2 ^ k
bit_and_mask zero w = omega (arith, bit_and-zero_below w w (omega arith))
bit_and_mask (suc k) w = omega (
  arith,
  bit_and_half w (2 ^ suc k - 1),
  pow-succ' 2 k,
  one-le-pow k 2 (omega arith),
  ap (λ (t : ℕ). bit_and (w / 2) t) mask_half,
  bit_and_mask k (w / 2),
  ap (λ (t : ℕ). w % t) (pow-succ' 2 k) ∙ mod_double w (2 ^ k),
)
  where
    mask_half : (2 ^ suc k - 1) / 2 ≡ 2 ^ k - 1
    mask_half = omega (arith, pow-suc 2 k, one-le-pow k 2 (omega arith))
