-- ===== src/Base/Slices.antt =====
-- Byte slices: ranges, copies, and the integers that `byteorder` reads and writes.
use Prim.Native.Nat.{ℕ, zero, suc, ◌+◌, ◌-◌, ◌*◌, ◌/◌, ◌%◌, ◌^◌, ◌≤◌, ◌<◌}
use mathlib.Core.Path.{◌≡◌, refl, ap, ap₂, ◌∙◌}
use mathlib.Core.Bool.{Bool, true, false}
use mathlib.Core.List.{List, [], ◌∷◌, ◌++◌}
use native.Mathlib.Nat.{pow-suc}
use native.Mathlib.Omega.{arith}
use wireguard_rs.Base.Lists.{length, take, drop, length-append, length-take, length-drop}
use wireguard_rs.Base.Maps.{Bytes}
use wireguard_rs.Base.Tests.{if◌then◌else◌, ltb}

-- `&xs[from..to]`, for a range inside `xs`.
abbrev pub slice {ℓ} : {A : Type ℓ} → ℕ → ℕ → List A → List A
slice from to xs = take (to - from) (drop from xs)

-- `xs[at..at + src.len()].copy_from_slice(src)`
abbrev pub copy_at {ℓ} : {A : Type ℓ} → ℕ → List A → List A → List A
copy_at at src xs = take at xs ++ (src ++ drop (at + length src) xs)

-- `LittleEndian::write_uN` and `read_uN`, in `k` bytes.
abbrev pub to_le : ℕ → ℕ → Bytes
to_le zero n = []
to_le (suc k) n = (n % 256) ∷ to_le k (n / 256)

abbrev pub from_le : ℕ → Bytes → ℕ
from_le zero bs = 0
from_le (suc k) [] = 0
from_le (suc k) (b ∷ bs) = b + 256 * from_le k bs

-- `BigEndian::write_iN` of a number that is not negative.
abbrev pub to_be : ℕ → ℕ → Bytes
to_be zero n = []
to_be (suc k) n = (n / 256 ^ k % 256) ∷ to_be k n

-- `PartialOrd` of byte arrays.
abbrev pub bytes_lt : Bytes → Bytes → Bool
bytes_lt [] [] = false
bytes_lt [] (y ∷ ys) = true
bytes_lt (x ∷ xs) [] = false
bytes_lt (x ∷ xs) (y ∷ ys) = if ltb x y then true else if ltb y x then false else bytes_lt xs ys

abbrev pub IsBytes : Bytes → Type 0
IsBytes [] = Unit {0}
IsBytes (b ∷ bs) = (b < 256) × IsBytes bs

pub length-to_le : (k n : ℕ) → length (to_le k n) ≡ k
length-to_le zero n = refl
length-to_le (suc k) n = ap suc (length-to_le k (n / 256))

pub from_le-to_le : (k n : ℕ) (rest : Bytes) → n < 256 ^ k → from_le k (to_le k n ++ rest) ≡ n
from_le-to_le zero n rest h = omega arith
from_le-to_le (suc k) n rest h =
    omega (arith, from_le-to_le k (n / 256) rest (omega (arith, pow-suc 256 k)))

pub to_le-from_le :
    (k : ℕ) (bs : Bytes) → IsBytes bs → k ≤ length bs → to_le k (from_le k bs) ≡ take k bs
to_le-from_le zero bs b h = refl
to_le-from_le (suc k) [] b h = absurd (omega arith)
to_le-from_le (suc k) (x ∷ bs) b h =
    ap₂ ◌∷◌ (omega (arith, b.0)) (ap (to_le k) quotient ∙ to_le-from_le k bs b.1 (omega arith))
  where
    quotient : (x + 256 * from_le k bs) / 256 ≡ from_le k bs
    quotient = omega (arith, b.0)

pub length-copy_at {ℓ} :
    {A : Type ℓ} (at : ℕ) (src xs : List A)
    → at + length src ≤ length xs
    → length (copy_at at src xs) ≡ length xs
length-copy_at at src xs h = omega (
  arith,
  length-append (take at xs) (src ++ drop (at + length src) xs),
  length-append src (drop (at + length src) xs),
  length-take at xs,
  length-drop (at + length src) xs,
)
