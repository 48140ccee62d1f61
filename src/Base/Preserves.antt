-- ===== src/Base/Preserves.antt =====
-- Properties of the state that a method leaves true, whether it succeeds or fails.
use mathlib.Core.Path.{subst}
use mathlib.Core.Bool.{Bool, true, false}
use wireguard_rs.Base.Tests.{if◌then◌else◌}
use wireguard_rs.Base.Errors.{Error}
use wireguard_rs.Base.Monad.{M, get, ensure, ◌>>=◌, ◌>>◌, bind_cases, then_cases}

module _ {S : Type 0} (P : S → Type 0) where
  abbrev pub Preserves : {A : Type 0} → M S A → Type 0
  Preserves m = (s : S) → P s → P (m s).0

  pub bind-Preserves :
      {A B : Type 0} (m : M S A) (f : A → M S B)
      → Preserves m
      → ((a : A) → Preserves (f a))
      → Preserves (m >>= f)
  bind-Preserves m f first next s p =
      bind_cases (λ r. P r.0) m f s (λ s' e h. subst (λ r. P r.0) h (first s p))
        (λ s' a h. next a s' (subst (λ r. P r.0) h (first s p)))

  -- A step that reads the state, and what then happens in that state.
  pub get-Preserves :
      {A : Type 0} (f : S → M S A) → ((s : S) → P s → P (f s s).0) → Preserves (get >>= f)
  unfolding ◌>>=◌
  get-Preserves f h s p = h s p

  -- From the state that the first step leaves.
  pub then_after_lem :
      {B : Type 0} (m : M S (Unit {0})) (k : M S B) (s : S)
      → P (m s).0
      → Preserves k
      → P ((m >> k) s).0
  then_after_lem m k s p next =
      then_cases (λ r. P r.0) m k s (λ s' e h. subst (λ r. P r.0) h p)
        (λ s' h. next s' (subst (λ r. P r.0) h p))

  pub seq-Preserves :
      {B : Type 0} (m : M S (Unit {0})) (k : M S B) → Preserves m → Preserves k → Preserves (m >> k)
  seq-Preserves m k first next s p = then_after_lem m k s (first s p) next

  pub branch-Preserves :
      {A : Type 0} (b : Bool) (m k : M S A)
      → Preserves m
      → Preserves k
      → Preserves (if b then m else k)
  branch-Preserves true m k taken other = taken
  branch-Preserves false m k taken other = other

  pub ensure-Preserves : (b : Bool) (e : Error) → Preserves (ensure b e)
  unfolding ensure
  ensure-Preserves true e s p = p
  ensure-Preserves false e s p = p
