-- ===== src/Base/Copies.antt =====
-- What a range of a list holds after a copy into the list.
use Prim.Native.Nat.{ℕ, zero, suc, ◌+◌, ◌-◌, ◌≤◌}
use mathlib.Core.Path.{◌≡◌, refl, ap, ◌∙◌, sym}
use mathlib.Core.List.{List, [], ◌∷◌, ◌++◌}
use native.Mathlib.Omega.{arith}
use wireguard_rs.Base.Lists.{length, take, drop, length-take, length-drop}
use wireguard_rs.Base.Slices.{slice, copy_at}

abbrev no_items {ℓ} : {A : Type ℓ} → List A
no_items = []

module _ {ℓ} {A : Type ℓ} where
  pub take_all : (xs : List A) (n : ℕ) → length xs ≤ n → take n xs ≡ xs
  take_all [] zero h = refl
  take_all [] (suc n) h = refl
  take_all (x ∷ xs) zero h = absurd (omega arith)
  take_all (x ∷ xs) (suc n) h = ap (◌∷◌ x) (take_all xs n (omega arith))

  pub take-append_le : (xs ys : List A) (n : ℕ) → n ≤ length xs → take n (xs ++ ys) ≡ take n xs
  take-append_le xs ys zero h = refl
  take-append_le [] ys (suc n) h = absurd (omega arith)
  take-append_le (x ∷ xs) ys (suc n) h = ap (◌∷◌ x) (take-append_le xs ys n (omega arith))

  pub drop-append_le :
      (xs ys : List A) (n : ℕ) → n ≤ length xs → drop n (xs ++ ys) ≡ drop n xs ++ ys
  drop-append_le xs ys zero h = refl
  drop-append_le [] ys (suc n) h = absurd (omega arith)
  drop-append_le (x ∷ xs) ys (suc n) h = drop-append_le xs ys n (omega arith)

  pub drop-append_ge :
      (xs ys : List A) (n : ℕ) → length xs ≤ n → drop n (xs ++ ys) ≡ drop (n - length xs) ys
  drop-append_ge [] ys n h = ap (λ (k : ℕ). drop k ys) (omega arith)
  drop-append_ge (x ∷ xs) ys zero h = absurd (omega arith)
  drop-append_ge (x ∷ xs) ys (suc n) h =
      drop-append_ge xs ys n (omega arith) ∙ ap (λ (k : ℕ). drop k ys) (omega arith)

  drop-nil : (n : ℕ) → drop n (no_items {A = A}) ≡ []
  drop-nil zero = refl
  drop-nil (suc n) = refl

  take-nil : (n : ℕ) → take n (no_items {A = A}) ≡ []
  take-nil zero = refl
  take-nil (suc n) = refl

  pub drop-drop : (xs : List A) (n m : ℕ) → drop m (drop n xs) ≡ drop (n + m) xs
  drop-drop xs zero m = ap (λ (k : ℕ). drop k xs) (omega arith)
  drop-drop [] (suc n) m = drop-nil m ∙ sym (drop-nil (suc n + m))
  drop-drop (x ∷ xs) (suc n) m =
      drop-drop xs n m ∙ ap (λ (k : ℕ). drop k (x ∷ xs)) {x = suc (n + m)} (omega arith)

  pub drop-take : (xs : List A) (a b : ℕ) → drop a (take b xs) ≡ take (b - a) (drop a xs)
  drop-take xs zero b = ap (λ (k : ℕ). take k xs) (omega arith)
  drop-take xs (suc a) zero =
      ap (λ (k : ℕ). take k (drop (suc a) xs)) {x = 0} {y = 0 - suc a} (omega arith)
  drop-take [] (suc a) (suc b) = sym (take-nil (suc b - suc a))
  drop-take (x ∷ xs) (suc a) (suc b) =
      drop-take xs a b ∙ ap (λ (k : ℕ). take k (drop a xs)) (omega arith)

  pub take-take : (xs : List A) (a b : ℕ) → a ≤ b → take a (take b xs) ≡ take a xs
  take-take xs zero b h = refl
  take-take xs (suc a) zero h = absurd (omega arith)
  take-take [] (suc a) (suc b) h = refl
  take-take (x ∷ xs) (suc a) (suc b) h = ap (◌∷◌ x) (take-take xs a b (omega arith))

  -- The range that was written.
  pub slice-copy_at_self :
      (at to : ℕ) (src xs : List A)
      → at + length src ≡ to
      → to ≤ length xs
      → slice at to (copy_at at src xs) ≡ src
  slice-copy_at_self at to src xs e h =
      ap (take (to - at)) start
      ∙ take-append_le src (drop (at + length src) xs) (to - at) (omega arith)
      ∙ take_all src (to - at) (omega arith)
    where
      start : drop at (copy_at at src xs) ≡ src ++ drop (at + length src) xs
      start =
          drop-append_ge (take at xs) (src ++ drop (at + length src) xs) at
            (omega (arith, length-take at xs))
          ∙ ap (λ (k : ℕ). drop k (src ++ drop (at + length src) xs)) {y = 0}
              (omega (arith, length-take at xs))

  -- A range before it.
  pub slice-copy_at_before :
      (at from to : ℕ) (src xs : List A)
      → from ≤ to
      → to ≤ at
      → at ≤ length xs
      → slice from to (copy_at at src xs) ≡ slice from to xs
  slice-copy_at_before at from to src xs f h k =
      ap (take (to - from)) (
        drop-append_le (take at xs) (src ++ drop (at + length src) xs) from
          (omega (arith, length-take at xs)))
      ∙ take-append_le (drop from (take at xs)) (src ++ drop (at + length src) xs) (to - from)
          (omega (arith, length-drop from (take at xs), length-take at xs))
      ∙ ap (take (to - from)) (drop-take xs from at)
      ∙ take-take (drop from xs) (to - from) (at - from) (omega arith)

  -- A range behind it.
  pub slice-copy_at_after :
      (at from to : ℕ) (src xs : List A)
      → at + length src ≤ from
      → at ≤ length xs
      → slice from to (copy_at at src xs) ≡ slice from to xs
  slice-copy_at_after at from to src xs h k = ap (take (to - from)) behind
    where
      behind : drop from (copy_at at src xs) ≡ drop from xs
      behind =
          drop-append_ge (take at xs) (src ++ drop (at + length src) xs) from
            (omega (arith, length-take at xs))
          ∙ drop-append_ge src (drop (at + length src) xs) (from - length (take at xs))
              (omega (arith, length-take at xs))
          ∙ drop-drop xs (at + length src) (from - length (take at xs) - length src)
          ∙ ap (λ (n : ℕ). drop n xs) (omega (arith, length-take at xs))
