-- ===== src/Config/Decimals.antt =====
-- src/interface/config.rs and src/peer.rs: numbers that are printed and parsed.
use wireguard_rs.Base.{
  ℕ, zero, suc, ◌+◌, ◌-◌, ◌*◌, ◌/◌, ◌%◌, ◌^◌, ◌<◌, ◌≡◌, refl, sym, ap, ◌∙◌, true, some, [], ◌∷◌,
  ◌++◌, ok, Bytes, ltb, arith, Bool-cases, inl, inr,
}
use wireguard_rs.Config.Text.{is_digit, digits_onto, read_uint, show_digits, show_uint}

abbrev tens : ℕ → ℕ
tens zero = 1
tens (suc k) = 10 * tens k

digits_onto-append :
    (n m c : ℕ) (xs : Bytes)
    → digits_onto n xs ≡ some m
    → is_digit c ≡ true
    → digits_onto n (xs ++ c ∷ []) ≡ some (10 * m + (c - b'0'))
unfolding digits_onto
digits_onto-append n m c [] h d = ground (arith, h, d)
digits_onto-append n m c (x ∷ xs) h d = elim (Bool-cases (is_digit x)) [
  | inl digit ↦
      rw digit (digits_onto-append (10 * n + (x - b'0')) m c xs (ground (arith, h, digit)) d)
  | inr other ↦ absurd (ground (arith, h, other))
]

-- Enough digits print the number.
digits_onto-show_digits : (fuel n : ℕ) → n < tens fuel → digits_onto 0 (show_digits fuel n) ≡ some n
unfolding show_digits digits_onto
digits_onto-show_digits zero n h = ground (arith, h)
digits_onto-show_digits (suc fuel) n h = elim (Bool-cases (ltb n 10)) [
  | inl small ↦ rw small (ground (arith, small))
  | inr large ↦ rw large (
      digits_onto-append 0 (n / 10) (b'0' + n % 10) (show_digits fuel (n / 10))
        (digits_onto-show_digits fuel (n / 10) (omega (arith, h))) (ground arith)
      ∙ ap some (omega arith))
]

read_uint-digits_onto :
    (bound n c : ℕ) (cs : Bytes)
    → digits_onto 0 (c ∷ cs) ≡ some n
    → n < bound
    → read_uint bound (c ∷ cs) ≡ ok n
unfolding read_uint digits_onto
read_uint-digits_onto bound n c cs h small = elim (Bool-cases (is_digit c)) [
  | inl digit ↦ ground (arith, digit, h, small)
  | inr other ↦ absurd (ground (arith, other, h))
]

show_digits-cons : (fuel n : ℕ) → (c : ℕ) × (cs : Bytes) × (show_digits (suc fuel) n ≡ c ∷ cs)
unfolding show_digits
show_digits-cons fuel n = elim (Bool-cases (ltb n 10)) [
  | inl small ↦ (b'0' + n, [], rw small refl)
  | inr large ↦
      let (c, cs, e) = front (show_digits fuel (n / 10)) (b'0' + n % 10) in (c, cs, rw large e)
]
  where
    front : (xs : Bytes) (d : ℕ) → (c : ℕ) × (cs : Bytes) × (xs ++ d ∷ [] ≡ c ∷ cs)
    front [] d = (d, [], refl)
    front (x ∷ xs) d = (x, xs ++ d ∷ [], refl)

-- A 64-bit number that is printed parses back, at every width that it fits.
pub read_uint-show_uint :
    (bound n : ℕ) → n < bound → n < 2 ^ 64 → read_uint bound (show_uint n) ≡ ok n
read_uint-show_uint bound n small fits =
    let (c, cs, e) = show_digits-cons 19 n in
    ap (read_uint bound) e
    ∙ read_uint-digits_onto bound n c cs
        (ap (digits_onto 0) (sym e) ∙ digits_onto-show_digits 20 n (omega (arith, fits))) small
