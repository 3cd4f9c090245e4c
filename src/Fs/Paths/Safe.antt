-- ===== src/Fs/Paths/Safe.antt =====
-- A path of the vault stays where it belongs: crates/vault-fs/src/lib.rs.
use Prim.Native.Char.{Char, code}
use Prim.Native.String.{[], ◌∷◌}
use text.Mathlib.TextLemmas.{nil-append, cons-append}
use ubod.Base.{
  ℕ, String, append, Bool, true, false, ◌||◌, ◌≡◌, refl, ap, ◌∙◌, arith, ◌==◌, nat_eq, string_eq,
  if◌then◌else◌, List, ◌⊎◌, inl, inr,
}
use ubod.Base.Foreign.{Foreign}
use ubod.Base.Text.{has, trim, trim_start, trim_end, before_trimmed, is_whitespace, split_on}
use ubod.Core.Category.{
  Category, dir_name, tesis, expediente_profesor, resolucion, evaluacion, fotografia_documental,
  material_grafico,
}
use ubod.Core.Records.{Document}
use ubod.Fs.Paths.{
  is_alphanumeric, is_kept, clean, underscore, or_bar, is_no_name, sanitize_component, rel_path_for,
}

-- The separators of paths.
abbrev pub is_separator : ℕ → Bool
is_separator c = (c == b'/') || (c == 92)

module _ (p : ℕ → Bool) where
  trim_start-has : (s : String) → has p s ≡ false → has p (trim_start s) ≡ false
  unfolding trim_start
  trim_start-has [] h = refl
  trim_start-has (c ∷ s) h = ground (arith, trim_start-has s)

  has-cons : (c : Char) (s : String) → p (code c) ≡ false → has p s ≡ false → has p (c ∷ s) ≡ false
  has-cons c s h k = rw (h, k)

  one_of :
      (b : Bool) (c d : Char)
      → (b ≡ true → p (code c) ≡ false)
      → (b ≡ false → p (code d) ≡ false)
      → p (code (if b then c else d)) ≡ false
  one_of true c d h k = h refl
  one_of false c d h k = k refl

  one_or_none :
      (b : Bool) (c : Char) → p (code c) ≡ false → has p (if b then [] else c ∷ []) ≡ false
  one_or_none true c h = refl
  one_or_none false c h = has-cons c [] h refl

  before_trimmed-has :
      (c : Char) (s : String)
      → p (code c) ≡ false
      → has p s ≡ false
      → has p (before_trimmed c s) ≡ false
  before_trimmed-has c [] h k = one_or_none (is_whitespace (code c)) c h
  before_trimmed-has c (d ∷ t) h k = ground arith

  trim_end-has : (s : String) → has p s ≡ false → has p (trim_end s) ≡ false
  unfolding trim_end
  trim_end-has [] h = refl
  trim_end-has (c ∷ s) h = ground (arith, before_trimmed-has c (trim_end s), trim_end-has s)

  trim-has : (s : String) → has p s ≡ false → has p (trim s) ≡ false
  unfolding trim
  trim-has s h = trim_end-has (trim_start s) (trim_start-has s h)

underscore-has : (s : String) → has is_separator s ≡ false → has is_separator (underscore s) ≡ false
unfolding underscore
underscore-has [] h = refl
underscore-has (c ∷ s) h =
    has-cons is_separator (if code c == b' ' then "_" else c) (underscore s)
      (one_of is_separator (code c == b' ') "_" c (λ _. refl) (λ _. ground arith))
      (underscore-has s (ground arith))

-- A name that does not lead out of the directory it stands in.
pub record IsSafe (t : String) : Type 0 where
  pub whole : has is_separator t ≡ false
  pub named : is_no_name t ≡ false

bar_if-IsSafe :
    (b : Bool) (t : String)
    → is_no_name t ≡ b
    → has is_separator t ≡ false
    → IsSafe (if b then "_" else t)
bar_if-IsSafe true t e h = record { whole = refl; named = refl }
bar_if-IsSafe false t e h = record { whole = h; named = e }

module _ ⦃f : Foreign⦄ where
  separator_not_kept : (n : ℕ) → is_separator n ≡ true → is_kept n ≡ false
  unfolding is_kept is_alphanumeric
  separator_not_kept n h = elim (cases n h) [ inl e ↦ rw e refl | inr e ↦ rw e refl ]
    where
      cases : (n : ℕ) → is_separator n ≡ true → (n ≡ 47) ⊎ (n ≡ 92)
      cases n h = ground arith

  not_separator : (n : ℕ) → is_kept n ≡ true → is_separator n ≡ false
  not_separator n kept = ground (arith, separator_not_kept n)

  clean-has : (s : String) → has is_separator (clean s) ≡ false
  unfolding clean
  clean-has [] = refl
  clean-has (c ∷ s) =
      has-cons is_separator (if is_kept (code c) then c else "_") (clean s)
        (one_of is_separator (is_kept (code c)) c "_" (λ kept. not_separator (code c) kept)
          (λ _. refl))
        (clean-has s)

  -- Whatever the input, a sanitized component has no separator of paths, and is neither empty nor `.` nor
  -- `..`.
  pub sanitize_component-IsSafe : (s : String) → IsSafe (sanitize_component s)
  unfolding sanitize_component or_bar
  sanitize_component-IsSafe s =
      bar_if-IsSafe (is_no_name (underscore (trim (clean s)))) (underscore (trim (clean s))) refl
        (underscore-has (trim (clean s)) (trim-has is_separator (clean s) (clean-has s)))

split_on-none : (s : String) → has is_separator s ≡ false → split_on b'/' s ≡ List.◌∷◌ s List.[]
unfolding split_on
split_on-none [] h = refl
split_on-none (c ∷ s) h = ground (arith, split_on-none s)

split_on-append :
    (s t : String)
    → has is_separator s ≡ false
    → split_on b'/' (append s (append "/" t)) ≡ List.◌∷◌ s (split_on b'/' t)
unfolding split_on
split_on-append [] t h = rw (nil-append (append "/" t), cons-append "/" "" t, nil-append t) refl
split_on-append (c ∷ s) t h = rw (cons-append c s) (ground (arith, split_on-append s t))

dir_name-has : (c : Category) → has is_separator (dir_name c) ≡ false
unfolding dir_name
dir_name-has tesis = refl
dir_name-has expediente_profesor = refl
dir_name-has resolucion = refl
dir_name-has evaluacion = refl
dir_name-has fotografia_documental = refl
dir_name-has material_grafico = refl

module _ ⦃f : Foreign⦄ where
  -- The path of a document has exactly three components: the user's directory, that of the category and
  -- the name of the file, whatever the user and the name are.
  pub rel_path_for-components :
      (user : String) (doc : Document)
      → split_on b'/' (rel_path_for user doc)
        ≡ List.◌∷◌ (sanitize_component user) (
            List.◌∷◌
              (dir_name doc.meta.category)
              (List.◌∷◌ (sanitize_component doc.meta.file_name) List.[]))
  unfolding rel_path_for
  rel_path_for-components user doc =
      split_on-append (sanitize_component user) _ (sanitize_component-IsSafe user).whole
      ∙ ap (List.◌∷◌ (sanitize_component user)) (
          split_on-append (dir_name doc.meta.category) _ (dir_name-has doc.meta.category)
          ∙ ap (List.◌∷◌ (dir_name doc.meta.category)) (
              split_on-none (sanitize_component doc.meta.file_name)
                (sanitize_component-IsSafe doc.meta.file_name).whole))
