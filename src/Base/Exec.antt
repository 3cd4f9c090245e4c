-- ===== src/Base/Exec.antt =====
-- Fallible results, and methods that change a state and may fail part of the way.
pub mod Keeps
pub mod Runs
pub mod Yields
use mathlib.Core.Option.{Option, none, some}

pub data Result {ℓ κ} (E : Type ℓ) (A : Type κ) : Type (ℓ ⊔ κ) where
  ok : A → Result E A
  err : E → Result E A

-- What was written before an error stays written: the state comes back beside the error.
abbrev pub Exec : Type 0 → Type 0 → Type 0 → Type 0
Exec S E A = S → Result E A × S

module _ {S E A : Type 0} where
  unfoldable pub pure : A → Exec S E A
  pure a s = (ok a, s)

  unfoldable pub raise : E → Exec S E A
  raise e s = (err e, s)

  unfoldable pub gets : (S → A) → Exec S E A
  gets f s = (ok (f s), s)

  -- `ok_or(e)?`
  unfoldable pub or_raise : Option A → E → Exec S E A
  unfolding pure raise
  or_raise none e = raise e
  or_raise (some a) e = pure a

module _ {S E : Type 0} where
  unfoldable pub modify : (S → S) → Exec S E (Unit {0})
  modify f s = (ok tt, f s)

module _ {S E A B : Type 0} where
  abbrev pub continue : Result E A → (A → Exec S E B) → Exec S E B
  continue (ok a) f s = f a s
  continue (err e) f s = (err e, s)

  infixl 10 ◌>>=◌ ◌>>◌
  unfoldable pub ◌>>=◌ : Exec S E A → (A → Exec S E B) → Exec S E B
  unfolding pure raise gets or_raise modify
  ◌>>=◌ m f s = let (r, s') = m s in continue r f s'

  abbrev pub ◌>>◌ : Exec S E A → Exec S E B → Exec S E B
  m >> n = m >>= λ _. n

abbrev pub on_err : {E F A : Type 0} → (E → F) → Result E A → Result F A
on_err f (ok a) = ok a
on_err f (err e) = err (f e)

module _ {S E F A : Type 0} where
  -- `map_err(f)?`, also the conversion that `?` makes
  unfoldable pub map_err : (E → F) → Exec S E A → Exec S F A
  map_err f m s = let (r, s') = m s in (on_err f r, s')
