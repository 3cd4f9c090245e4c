-- ===== src/Base/Exec/Yields.antt =====
-- What holds of the value and the state when a method returns, one rule for each way to build a method.
use ubod.Base.Tests.{if◌then◌else◌}
use mathlib.Core.Path.{◌≡◌, refl, subst}
use mathlib.Core.Bool.{Bool, true, false}
use mathlib.Core.Option.{Option, none, some}
use ubod.Base.Exec.{
  Exec, Result, ok, err, pure, raise, gets, or_raise, continue, ◌>>=◌, map_err, on_err,
}
use ubod.Base.Exec.Keeps.{Keeps}

abbrev pub Returned : {E S A : Type 0} → (A → S → Type 0) → Result E A → S → Type 0
Returned Q (ok a) s = Q a s
Returned Q (err e) s = Unit

-- From `P`, if `m` returns then `Q` holds of what it returns.
pub record Yields {S E A : Type 0} (P : S → Type 0) (m : Exec S E A) (Q : A → S → Type 0)
    : Type 0 where
  pub at : (s : S) → P s → Returned Q (m s).0 (m s).1

module _ {S E A : Type 0} {P : S → Type 0} {Q : A → S → Type 0} where
  pub Yields-raise : (e : E) → Yields P (raise e) Q
  unfolding raise
  Yields-raise e = record { at = λ s h. tt }

  pub Yields-pure : (a : A) → ((s : S) → P s → Q a s) → Yields {E = E} P (pure a) Q
  unfolding pure
  Yields-pure a h = record { at = h }

  pub Yields-if :
      (b : Bool) (m n : Exec S E A)
      → (b ≡ true → Yields P m Q)
      → (b ≡ false → Yields P n Q)
      → Yields P (if b then m else n) Q
  Yields-if false m n h k = k refl
  Yields-if true m n h k = h refl

  pub Yields-or_raise :
      (o : Option A) (e : E)
      → ((a : A) → o ≡ some a → (s : S) → P s → Q a s)
      → Yields P (or_raise o e) Q
  unfolding or_raise pure raise
  Yields-or_raise none e h = record { at = λ s i. tt }
  Yields-or_raise (some a) e h = record { at = λ s i. h a refl s i }

module _ {S E A : Type 0} (P : S → Type 0) where
  kept-Returned : (r : Result E A) (s : S) → P s → Returned (λ _. P) r s
  kept-Returned (ok a) s h = h
  kept-Returned (err e) s h = tt

module _ {S E A : Type 0} {P : S → Type 0} where
  pub Yields-keeps : (m : Exec S E A) → Keeps P m → Yields P m (λ _. P)
  Yields-keeps m k = record { at = λ s h. kept-Returned P (m s).0 (m s).1 (k.at s h) }

module _ {S E F A : Type 0} (Q : A → S → Type 0) where
  on_err-Returned :
      (g : E → F) (r : Result E A) (s : S) → Returned Q r s → Returned Q (on_err g r) s
  on_err-Returned g (ok a) s h = h
  on_err-Returned g (err e) s h = tt

module _ {S E F A : Type 0} {P : S → Type 0} {Q : A → S → Type 0} where
  pub Yields-map_err : (g : E → F) (m : Exec S E A) → Yields P m Q → Yields P (map_err g m) Q
  unfolding map_err
  Yields-map_err g m k = record { at = λ s h. on_err-Returned Q g (m s).0 (m s).1 (k.at s h) }

module _ {S E A B : Type 0} (R : A → S → Type 0) (Q : B → S → Type 0) where
  continue-Returned :
      (k : A → Exec S E B) (r : Result E A) (s : S)
      → ((a : A) → Yields (R a) (k a) Q)
      → Returned R r s
      → Returned Q (continue r k s).0 (continue r k s).1
  continue-Returned k (err e) s rest h = tt
  continue-Returned k (ok a) s rest h = (rest a).at s h

module _ {S E A B : Type 0} {P : S → Type 0} {R : A → S → Type 0} {Q : B → S → Type 0} where
  pub Yields-bind :
      (m : Exec S E A) (k : A → Exec S E B)
      → Yields P m R
      → ((a : A) → Yields (R a) (k a) Q)
      → Yields P (m >>= k) Q
  unfolding ◌>>=◌
  Yields-bind m k first rest = record {
    at = λ s h. continue-Returned R Q k (m s).0 (m s).1 rest (first.at s h);
  }

module _ {S E A B : Type 0} {P : S → Type 0} {Q : B → S → Type 0} where
  -- A step that keeps what holds.
  pub Yields-after :
      (m : Exec S E A) (k : A → Exec S E B)
      → Keeps P m
      → ((a : A) → Yields P (k a) Q)
      → Yields P (m >>= k) Q
  Yields-after m k first rest = Yields-bind {R = λ _. P} m k (Yields-keeps m first) rest

  pub Yields-read :
      (f : S → A) (k : A → Exec S E B)
      → ((a : A) → Yields (λ s. P s × (a ≡ f s)) (k a) Q)
      → Yields P (gets f >>= k) Q
  unfolding ◌>>=◌ gets
  Yields-read f k h = record { at = λ s i. (h (f s)).at s (i, refl) }

module _ {S E A : Type 0} (Q R : A → S → Type 0) where
  weaken-Returned :
      (r : Result E A) (s : S) → ((a : A) → Q a s → R a s) → Returned Q r s → Returned R r s
  weaken-Returned (ok a) s weaker h = weaker a h
  weaken-Returned (err e) s weaker h = tt

module _ {S E A : Type 0} {P : S → Type 0} {Q R : A → S → Type 0} where
  pub Yields-weaken :
      (m : Exec S E A) → Yields P m Q → ((a : A) (s : S) → Q a s → R a s) → Yields P m R
  Yields-weaken m k weaker = record {
    at = λ s h. weaken-Returned Q R (m s).0 (m s).1 (λ a. weaker a (m s).1) (k.at s h);
  }

module _ {S E A : Type 0} {P : S → Type 0} {Q : A → S → Type 0} where
  -- The result and the state of a run that returned.
  pub returned :
      (m : Exec S E A) (s s' : S) (a : A) → Yields P m Q → P s → m s ≡ (ok a, s') → Q a s'
  returned m s s' a k h e = subst (λ r. Returned Q r.0 r.1) e (k.at s h)
