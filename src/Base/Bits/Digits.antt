-- ===== src/Base/Bits/Digits.antt =====
-- One step of the native bit operations: halve both numbers.
use Prim.Native.Nat.{
  ℕ, zero, suc, ◌+◌, ◌*◌, ◌/◌, ◌%◌, ◌≤◌, bit_and, bit_or, min, max, digits, bit_and-bitwise,
  bit_or-bitwise,
}
use mathlib.Core.Path.{◌≡◌, refl, ap}
use native.Mathlib.Omega.{arith}

-- Any two amounts of fuel that reach the number give the same digits.
same_digits :
    (rest : ℕ → ℕ) (op : ℕ → ℕ → ℕ) (a f g b : ℕ)
    → a ≤ f
    → a ≤ g
    → digits rest op f a b ≡ digits rest op g a b
same_digits rest op zero zero zero b p q = refl
same_digits rest op zero zero (suc g) b p q = refl
same_digits rest op zero (suc f) zero b p q = refl
same_digits rest op zero (suc f) (suc g) b p q = refl
same_digits rest op (suc a) zero g b p q = absurd (omega arith)
same_digits rest op (suc a) (suc f) zero b p q = absurd (omega arith)
same_digits rest op (suc a) (suc f) (suc g) b p q =
    ap (λ (t : ℕ). t * 2 + op (suc a % 2) (b % 2))
      (same_digits rest op (suc a / 2) f g (b / 2) (omega arith) (omega arith))

pub bit_and_half : (a b : ℕ) → bit_and a b ≡ bit_and (a / 2) (b / 2) * 2 + min (a % 2) (b % 2)
bit_and_half zero b = simp bit_and-bitwise (omega arith)
bit_and_half (suc a) b = omega (
  arith,
  bit_and-bitwise (suc a) b,
  bit_and-bitwise (suc a / 2) (b / 2),
  same_digits (λ (x : ℕ). zero) min (suc a / 2) a (suc a / 2) (b / 2) (omega arith) (omega arith),
)

pub bit_or_half : (a b : ℕ) → bit_or a b ≡ bit_or (a / 2) (b / 2) * 2 + max (a % 2) (b % 2)
bit_or_half zero b = simp bit_or-bitwise (omega arith)
bit_or_half (suc a) b = omega (
  arith,
  bit_or-bitwise (suc a) b,
  bit_or-bitwise (suc a / 2) (b / 2),
  same_digits (λ (x : ℕ). x) max (suc a / 2) a (suc a / 2) (b / 2) (omega arith) (omega arith),
)
