-- ===== src/Base/Fallible.antt =====
-- `?`, `ensure!` and `bail!` in functions that change no state.
use mathlib.Core.Path.{◌≡◌, refl}
use mathlib.Core.Bool.{Bool, true, false}
use mathlib.Core.Option.{Option, none, some}
use wireguard_rs.Base.Errors.{Error, Result, ok, err, ok_or}

abbrev pub ensure : Bool → Error → Result (Unit {0})
ensure true e = ok tt
ensure false e = err e

infixl 5 ◌>>=◌ ◌>>◌
-- The `?`: an error is the result of the whole chain.
abbrev pub ◌>>=◌ {u w} : {V : Type u} {W : Type w} → Result V → (V → Result W) → Result W
◌>>=◌ (ok v) rest = rest v
◌>>=◌ (err e) rest = err e

abbrev pub ◌>>◌ {w} : {W : Type w} → Result (Unit {0}) → Result W → Result W
◌>>◌ checked rest = checked >>= λ _. rest

-- A chain succeeds only if its first step does.
pub bind-eq_ok {u w} :
    {V : Type u} {W : Type w} (first : Result V) (rest : V → Result W) {out : W}
    → (first >>= rest) ≡ ok out
    → (v : V) × (first ≡ ok v) × (rest v ≡ ok out)
bind-eq_ok (err e) rest h = cc
bind-eq_ok (ok v) rest h = (v, refl, h)

pub ok_or-eq_ok : {A : Type 0} (o : Option A) (a : A) (e : Error) → ok_or o e ≡ ok a → o ≡ some a
ok_or-eq_ok none a e h = cc
ok_or-eq_ok (some b) a e h = cc
