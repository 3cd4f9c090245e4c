-- ===== src/Base/Exec/Runs.antt =====
-- Runs of methods, a step at a time.
use mathlib.Core.Path.{◌≡◌, refl}
use ubod.Base.Exec.{Exec, Result, ok, err, pure, continue, ◌>>=◌, ◌>>◌}

module _ {S E A B : Type 0} {s s' : S} (m : Exec S E A) (k : A → Exec S E B) where
  pub runs : {a : A} {r : Result E B × S} → m s ≡ (ok a, s') → k a s' ≡ r → (m >>= k) s ≡ r
  unfolding ◌>>=◌
  runs h rest = rw h rest

  pub stops : {e : E} → m s ≡ (err e, s') → (m >>= k) s ≡ (err e, s')
  unfolding ◌>>=◌
  stops h = rw h

-- A step that gives nothing back may be left out at the end.
module _ {S E B : Type 0} (n : Exec S E B) where
  continue_unit :
      (r : Result E (Unit {0})) (s : S)
      → continue (continue r (λ _. pure tt) s).0 (λ _. n) (continue r (λ _. pure tt) s).1
        ≡ continue r (λ _. n) s
  unfolding pure
  continue_unit (ok a) s = refl
  continue_unit (err e) s = refl

  pub then_unit : (m : Exec S E (Unit {0})) (s : S) → ((m >> pure tt) >> n) s ≡ (m >> n) s
  unfolding ◌>>=◌
  then_unit m s = continue_unit (m s).0 (m s).1
