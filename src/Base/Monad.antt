-- ===== src/Base/Monad.antt =====
-- Methods that take `&mut self` and return a `Result`: what was changed before a `?` or a `bail!`
-- stays changed.
use mathlib.Core.Path.{◌≡◌, refl, sym, subst, ap, ◌∙◌}
use mathlib.Core.Bool.{Bool, true, false}
use wireguard_rs.Base.Errors.{Error, Result, ok, err}

abbrev pub M : Type 0 → Type 0 → Type 0
M S A = S → S × Result A

abbrev pub pure : {S A : Type 0} → A → M S A
pure a s = (s, ok a)

-- `bail!`
abbrev pub fail : {S A : Type 0} → Error → M S A
fail e s = (s, err e)

abbrev pub next_step : {S A B : Type 0} → S × Result A → (A → M S B) → S × Result B
next_step (s, ok a) f = f a s
next_step (s, err e) f = (s, err e)

infixl 5 ◌>>=◌ ◌>>◌
unfoldable pub ◌>>=◌ : {S A B : Type 0} → M S A → (A → M S B) → M S B
◌>>=◌ m f s = next_step (m s) f

unfoldable pub ◌>>◌ : {S B : Type 0} → M S (Unit {0}) → M S B → M S B
unfolding ◌>>=◌
m >> k = m >>= λ _. k

abbrev pub get : {S : Type 0} → M S S
get s = (s, ok s)

abbrev pub modify : {S : Type 0} → (S → S) → M S (Unit {0})
modify f s = (f s, ok tt)

-- The `?` on a result that changes nothing.
abbrev pub try : {S A : Type 0} → Result A → M S A
try r s = (s, r)

-- A `match` on the result, which goes on after an error.
abbrev pub attempt : {S A : Type 0} → M S A → M S (Result A)
attempt m s = ((m s).0, ok (m s).1)

-- `ensure!`
unfoldable pub ensure : {S : Type 0} → Bool → Error → M S (Unit {0})
ensure true e s = (s, ok tt)
ensure false e s = (s, err e)

-- A property of the result of a chain, from its first step: where that fails, the chain ends.
module _ {ℓ} {S B : Type 0} (P : S × Result B → Type ℓ) where
  pub bind_cases :
      {A : Type 0} (m : M S A) (f : A → M S B) (s : S)
      → ((s' : S) (e : Error) → m s ≡ (s', err e) → P (s', err e))
      → ((s' : S) (a : A) → m s ≡ (s', ok a) → P (f a s'))
      → P ((m >>= f) s)
  unfolding ◌>>=◌
  bind_cases {A} m f s = split (m s)
    where
      split :
          (r : S × Result A)
          → ((s' : S) (e : Error) → r ≡ (s', err e) → P (s', err e))
          → ((s' : S) (a : A) → r ≡ (s', ok a) → P (f a s'))
          → P (next_step r f)
      split (s', ok a) failed went = went s' a refl
      split (s', err e) failed went = failed s' e refl

  -- A step of which something is known.
  pub known_cases :
      {A : Type 0} (R : S × Result A → Type 0) (m : M S A) (f : A → M S B) (s : S)
      → R (m s)
      → ((s' : S) (e : Error) → R (s', err e) → P (s', err e))
      → ((s' : S) (a : A) → R (s', ok a) → P (f a s'))
      → P ((m >>= f) s)
  known_cases R m f s known failed went =
      bind_cases m f s (λ s' e h. failed s' e (subst R h known))
        (λ s' a h. went s' a (subst R h known))

  -- A step that is seen to succeed.
  pub pass_cases :
      {A : Type 0} (m : M S A) (f : A → M S B) (s : S) {s' : S} {a : A}
      → m s ≡ (s', ok a)
      → P (f a s')
      → P ((m >>= f) s)
  unfolding ◌>>=◌
  pass_cases m f s e h = subst (λ r. P (next_step r f)) (sym e) h

  pub get_cases : (f : S → M S B) (s : S) → P (f s s) → P ((get >>= f) s)
  unfolding ◌>>=◌
  get_cases f s h = h

  pub try_cases :
      {A : Type 0} (r : Result A) (f : A → M S B) (s : S)
      → ((e : Error) → r ≡ err e → P (s, err e))
      → ((a : A) → r ≡ ok a → P (f a s))
      → P ((try r >>= f) s)
  unfolding ◌>>=◌
  try_cases (ok a) f s failed went = went a refl
  try_cases (err e) f s failed went = failed e refl

  pub then_cases :
      (m : M S (Unit {0})) (k : M S B) (s : S)
      → ((s' : S) (e : Error) → m s ≡ (s', err e) → P (s', err e))
      → ((s' : S) → m s ≡ (s', ok tt) → P (k s'))
      → P ((m >> k) s)
  unfolding ◌>>◌
  then_cases m k s failed went = bind_cases m (λ _. k) s failed (λ s' u e. went s' e)

  pub then_known_cases :
      (R : S × Result (Unit {0}) → Type 0) (m : M S (Unit {0})) (k : M S B) (s : S)
      → R (m s)
      → ((s' : S) (e : Error) → R (s', err e) → P (s', err e))
      → ((s' : S) → R (s', ok tt) → P (k s'))
      → P ((m >> k) s)
  then_known_cases R m k s known failed went =
      then_cases m k s (λ s' e h. failed s' e (subst R h known)) (λ s' h. went s' (subst R h known))

  pub then_pass_cases :
      (m : M S (Unit {0})) (k : M S B) (s : S) {s' : S}
      → m s ≡ (s', ok tt)
      → P (k s')
      → P ((m >> k) s)
  then_pass_cases m k s {s'} e h =
      then_cases m k s (λ t f h'. absurd (clash t f (sym e ∙ h')))
        (λ t h'. subst (λ r. P (k r.0)) (sym e ∙ h') h)
    where
      clash : (t : S) (f : Error) → ◌≡◌ {A = S × Result (Unit {0})} (s', ok tt) (t, err f) → ⊥
      clash t f h' = let e = ap (λ r. r.1) h' in cc

  pub ensure_cases :
      (b : Bool) (e : Error) (k : M S B) (s : S)
      → (b ≡ false → P (s, err e))
      → (b ≡ true → P (k s))
      → P ((ensure b e >> k) s)
  unfolding ◌>>◌ ensure
  ensure_cases true e k s failed went = went refl
  ensure_cases false e k s failed went = failed refl

  pub modify_cases : (f : S → S) (k : M S B) (s : S) → P (k (f s)) → P ((modify f >> k) s)
  unfolding ◌>>◌
  modify_cases f k s h = h

-- A test at the end of a chain.
pub ensure_last {ℓ} :
    {S : Type 0} (P : S × Result (Unit {0}) → Type ℓ) (b : Bool) (e : Error) (s : S)
    → (b ≡ false → P (s, err e))
    → (b ≡ true → P (s, ok tt))
    → P (ensure b e s)
unfolding ensure
ensure_last P true e s failed went = went refl
ensure_last P false e s failed went = failed refl
