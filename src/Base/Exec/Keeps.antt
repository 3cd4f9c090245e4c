-- ===== src/Base/Exec/Keeps.antt =====
-- Invariants of methods, one rule for each way to build a method.
use ubod.Base.Tests.{if◌then◌else◌}
use mathlib.Core.Bool.{Bool, true, false}
use mathlib.Core.Option.{Option, none, some}
use ubod.Base.Exec.{
  Exec, Result, ok, err, pure, raise, gets, or_raise, modify, continue, ◌>>=◌, map_err,
}

-- `m` keeps `P`, whether it returns or fails.
pub record Keeps {S E A : Type 0} (P : S → Type 0) (m : Exec S E A) : Type 0 where
  pub at : (s : S) → P s → P (m s).1

module _ {S E A : Type 0} {P : S → Type 0} where
  pub Keeps-pure : (a : A) → Keeps {E = E} P (pure a)
  unfolding pure
  Keeps-pure a = record { at = λ s h. h }

  pub Keeps-raise : (e : E) → Keeps {A = A} P (raise e)
  unfolding raise
  Keeps-raise e = record { at = λ s h. h }

  pub Keeps-gets : (f : S → A) → Keeps {E = E} P (gets f)
  unfolding gets
  Keeps-gets f = record { at = λ s h. h }

  pub Keeps-or_raise : (o : Option A) (e : E) → Keeps P (or_raise o e)
  unfolding or_raise
  Keeps-or_raise none e = record { at = λ s h. h }
  Keeps-or_raise (some a) e = record { at = λ s h. h }

  pub Keeps-if :
      (b : Bool) (m n : Exec S E A) → Keeps P m → Keeps P n → Keeps P (if b then m else n)
  Keeps-if false m n h k = k
  Keeps-if true m n h k = h

module _ {S E : Type 0} {P : S → Type 0} where
  pub Keeps-modify : (f : S → S) → ((s : S) → P s → P (f s)) → Keeps {E = E} P (modify f)
  unfolding modify
  Keeps-modify f h = record { at = h }

module _ {S E A B : Type 0} {P : S → Type 0} where
  Keeps-continue :
      (k : A → Exec S E B) (result : Result E A) (after : S)
      → ((x : A) → Keeps P (k x))
      → P after
      → P (continue result k after).1
  Keeps-continue k (err e) after rest p = p
  Keeps-continue k (ok x) after rest p = (rest x).at after p

  pub Keeps-bind :
      (m : Exec S E A) (k : A → Exec S E B)
      → Keeps P m
      → ((x : A) → Keeps P (k x))
      → Keeps P (m >>= k)
  unfolding ◌>>=◌
  Keeps-bind m k first rest = record {
    at = λ before p. Keeps-continue k (m before).0 (m before).1 rest (first.at before p);
  }

module _ {S E F A : Type 0} {P : S → Type 0} where
  pub Keeps-map_err : (g : E → F) (m : Exec S E A) → Keeps P m → Keeps P (map_err g m)
  unfolding map_err
  Keeps-map_err g m km = record { at = λ s h. km.at s h }

-- A step after a value that is read off the state.
module _ {S E A B : Type 0} {P : S → Type 0} where
  pub Keeps-read :
      (f : S → A) (k : A → Exec S E B) → ((s : S) → P s → P (k (f s) s).1) → Keeps P (gets f >>= k)
  unfolding ◌>>=◌ gets
  Keeps-read f k h = record { at = h }

-- `m` leads from `P` to `Q`, whether it returns or fails.
pub record Leads {S E A : Type 0} (P Q : S → Type 0) (m : Exec S E A) : Type 0 where
  pub at : (s : S) → P s → Q (m s).1

module _ {S E A : Type 0} {P Q : S → Type 0} where
  pub Leads-raise : (e : E) → ((s : S) → P s → Q s) → Leads {A = A} P Q (raise e)
  unfolding raise
  Leads-raise e weaker = record { at = weaker }

  pub Leads-if :
      (b : Bool) (m n : Exec S E A) → Leads P Q m → Leads P Q n → Leads P Q (if b then m else n)
  Leads-if false m n h k = k
  Leads-if true m n h k = h

module _ {S E A B : Type 0} {P Q : S → Type 0} where
  Leads-continue :
      (k : A → Exec S E B) (result : Result E A) (after : S)
      → ((x : A) → Leads P Q (k x))
      → ((s : S) → P s → Q s)
      → P after
      → Q (continue result k after).1
  Leads-continue k (err e) after rest weaker p = weaker after p
  Leads-continue k (ok x) after rest weaker p = (rest x).at after p

  -- The step before the change.
  pub Leads-after :
      (m : Exec S E A) (k : A → Exec S E B)
      → Keeps P m
      → ((x : A) → Leads P Q (k x))
      → ((s : S) → P s → Q s)
      → Leads P Q (m >>= k)
  unfolding ◌>>=◌
  Leads-after m k first rest weaker = record {
    at = λ before p. Leads-continue k (m before).0 (m before).1 rest weaker (first.at before p);
  }

  -- The step of the change.
  pub Leads-before :
      (m : Exec S E A) (k : A → Exec S E B)
      → Leads P Q m
      → ((x : A) → Keeps Q (k x))
      → Leads P Q (m >>= k)
  unfolding ◌>>=◌
  Leads-before m k first rest = record {
    at = λ before p. Keeps-continue k (m before).0 (m before).1 rest (first.at before p);
  }

pub ruleset keeps_rules =
    (Keeps-pure, Keeps-raise, Keeps-gets, Keeps-or_raise, Keeps-if, Keeps-bind, Keeps-map_err)
