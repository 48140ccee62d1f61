-- ===== src/Message/Layout.antt =====
-- src/message.rs: fields that are read back from a message that was put together by copies.
use wireguard_rs.Base.{
  ℕ, zero, suc, ◌+◌, ◌-◌, ◌*◌, ◌^◌, ◌<◌, ◌≤◌, ◌≡◌, refl, sym, ap, ◌∙◌, [], ◌∷◌, ◌++◌, Bytes, length,
  take, drop, slice, copy_at, to_le, from_le, from_le-to_le, length-to_le, length-copy_at, arith,
}
use wireguard_rs.Base.Copies.{drop-take, take-take, slice-copy_at_self, slice-copy_at_before}

from_le-take : (k : ℕ) (bs : Bytes) → from_le k (take k bs) ≡ from_le k bs
from_le-take zero bs = refl
from_le-take (suc k) [] = refl
from_le-take (suc k) (b ∷ bs) = ap (λ n. b + 256 * n) (from_le-take k bs)

append-nil : (xs : Bytes) → xs ++ [] ≡ xs
append-nil [] = refl
append-nil (x ∷ xs) = ap (◌∷◌ x) (append-nil xs)

pub from_le-slice :
    (k at n : ℕ) (bs : Bytes)
    → n < 256 ^ k
    → take k (drop at bs) ≡ to_le k n
    → from_le k (take k (drop at bs)) ≡ n
from_le-slice k at n bs h e =
    ap (from_le k) (e ∙ sym (append-nil (to_le k n))) ∙ from_le-to_le k n [] h

-- An integer that was written where it is read.
pub read_of_slice :
    (k at n : ℕ) (bs : Bytes)
    → n < 256 ^ k
    → take k (drop at bs) ≡ to_le k n
    → from_le k (drop at bs) ≡ n
read_of_slice k at n bs h e = sym (from_le-take k (drop at bs)) ∙ from_le-slice k at n bs h e

pub slice-take :
    (from to n : ℕ) (bs : Bytes) → from ≤ to → to ≤ n → slice from to (take n bs) ≡ slice from to bs
slice-take from to n bs f h =
    ap (take (to - from)) (drop-take bs from n)
    ∙ take-take (drop from bs) (to - from) (n - from) (omega arith)

-- A header of a type byte, a number of 4 bytes at 4 and a number of `k` bytes at 8.
module _ (k first index n : ℕ) (bs : Bytes) (room : 8 + k ≤ length bs) where
  abbrev typed : Bytes
  typed = copy_at 0 (first ∷ []) bs

  abbrev indexed : Bytes
  indexed = copy_at 4 (to_le 4 index) typed

  abbrev pub headed : Bytes
  headed = copy_at 8 (to_le k n) indexed

  length-typed : length typed ≡ length bs
  length-typed = length-copy_at 0 (first ∷ []) bs (omega arith)

  length-indexed : length indexed ≡ length bs
  length-indexed =
      length-copy_at 4 (to_le 4 index) typed (omega (arith, length-typed, length-to_le 4 index))
      ∙ length-typed

  pub length-headed : length headed ≡ length bs
  length-headed =
      length-copy_at 8 (to_le k n) indexed (omega (arith, length-indexed, length-to_le k n))
      ∙ length-indexed

  pub headed-first : slice 0 1 headed ≡ first ∷ []
  headed-first =
      slice-copy_at_before 8 0 1 (to_le k n) indexed (omega arith) (omega arith)
        (omega (arith, length-indexed))
      ∙ slice-copy_at_before 4 0 1 (to_le 4 index) typed (omega arith) (omega arith)
          (omega (arith, length-typed))
      ∙ slice-copy_at_self 0 1 (first ∷ []) bs refl (omega arith)

  pub headed-index : slice 4 8 headed ≡ to_le 4 index
  headed-index =
      slice-copy_at_before 8 4 8 (to_le k n) indexed (omega arith) (omega arith)
        (omega (arith, length-indexed))
      ∙ slice-copy_at_self 4 8 (to_le 4 index) typed (omega (arith, length-to_le 4 index))
          (omega (arith, length-typed))

  pub headed-number : slice 8 (8 + k) headed ≡ to_le k n
  headed-number =
      slice-copy_at_self 8 (8 + k) (to_le k n) indexed (omega (arith, length-to_le k n))
        (omega (arith, length-indexed))
