-- ===== src/Base/Search.antt =====
-- Lemmas on the searches of Base/Lists.
use mathlib.Core.List.{Perm}
use mathlib.Core.List.Perm
use ubod.Base.{
  Bool, true, List, [], ◌∷◌, some, ◌≡◌, ◌≤◌, refl, arith, find, remove_first, keep, all, length,
  Bool-cases, inl, inr, none, ap,
}

module _ {ℓ} {A : Type ℓ} (p : A → Bool) where
  pub find-holds : (xs : List A) (x : A) → find p xs ≡ some x → p x ≡ true
  find-holds [] x h = cc
  find-holds (y ∷ ys) x h = ground (arith, find-holds ys x)

  -- Taking out the first hit takes out what `find` found, and nothing else.
  pub remove_first-perm :
      (xs : List A) (x : A) → find p xs ≡ some x → Perm xs (x ∷ remove_first p xs)
  remove_first-perm [] x h = cc
  remove_first-perm (y ∷ ys) x h = elim (Bool-cases (p y)) [
    | inl hit ↦ rw hit (Perm.cons' (ground arith) Perm.rfl)
    | inr miss ↦
        rw miss (Perm.trans (Perm.cons y (remove_first-perm ys x (ground arith))) (Perm.swap x y _))
  ]

  pub remove_first-none : (xs : List A) → find p xs ≡ none → remove_first p xs ≡ xs
  remove_first-none [] h = refl
  remove_first-none (y ∷ ys) h = elim (Bool-cases (p y)) [
    | inl hit ↦ absurd (ground (arith, h, hit))
    | inr miss ↦ rw miss (ap (λ zs. y ∷ zs) (remove_first-none ys (ground (arith, h, miss))))
  ]

  pub length-keep-le : (xs : List A) → length (keep p xs) ≤ length xs
  length-keep-le [] = omega arith
  length-keep-le (x ∷ xs) = ground (arith, length-keep-le xs)

  pub all-keep_self : (xs : List A) → all p (keep p xs) ≡ true
  all-keep_self [] = refl
  all-keep_self (x ∷ xs) = ground (arith, all-keep_self xs)

  pub keep-all : (xs : List A) → all p xs ≡ true → keep p xs ≡ xs
  keep-all [] h = refl
  keep-all (x ∷ xs) h = ground (arith, h, keep-all xs)

  -- What holds of all holds of those that another test keeps.
  pub all-keep : (q : A → Bool) (xs : List A) → all p xs ≡ true → all p (keep q xs) ≡ true
  all-keep q [] h = refl
  all-keep q (x ∷ xs) h = ground (arith, h, all-keep q xs)
