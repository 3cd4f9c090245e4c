-- ===== src/Fs/Paths.antt =====
-- crates/vault-fs/src/lib.rs: `sanitize_component`, `rel_path_for` and `abs_path`.
pub mod Safe
use Prim.Native.Char.{Char, code}
use Prim.Native.String.{[], ◌∷◌}
use ubod.Base.{
  ℕ, String, append, Bool, ◌&&◌, ◌||◌, leb, ltb, ◌==◌, nat_eq, string_eq, if◌then◌else◌,
}
use ubod.Base.Foreign.{Foreign}
use ubod.Base.Text.{is_ascii_digit, is_whitespace, trim}
use ubod.Core.Category.{dir_name}
use ubod.Core.Records.{Document}

-- `replace(' ', "_")`
pub underscore : String → String
underscore [] = []
underscore (c ∷ s) = (if code c == b' ' then "_" else c) ∷ underscore s

-- What may not be the name of a file becomes `_`.
abbrev pub is_no_name : String → Bool
is_no_name cleaned = cleaned == "" || cleaned == "." || cleaned == ".."

unfoldable pub or_bar : String → String
or_bar cleaned = if is_no_name cleaned then "_" else cleaned

module _ ⦃f : Foreign⦄ where
  -- `char::is_alphanumeric`
  pub is_alphanumeric : ℕ → Bool
  is_alphanumeric c =
      is_ascii_digit c
      || (leb b'a' c && leb c b'z')
      || (leb b'A' c && leb c b'Z')
      || (leb 128 c && f.unicode_alphanumeric c)

  pub is_kept : ℕ → Bool
  unfolding is_alphanumeric
  is_kept c =
      is_alphanumeric c
      || (c == b' ')
      || (c == b'-')
      || (c == b'_')
      || (c == b'.')
      || (c == b'(')
      || (c == b')')

  -- The first pass, which replaces what may not stand in a name.
  pub clean : String → String
  unfolding is_kept
  clean [] = []
  clean (c ∷ s) = (if is_kept (code c) then c else "_") ∷ clean s

  unfoldable pub sanitize_component : String → String
  unfolding clean underscore trim
  sanitize_component s = or_bar (underscore (trim (clean s)))

  unfoldable pub rel_path_for : String → Document → String
  unfolding sanitize_component
  rel_path_for user doc = append (sanitize_component user) (
      append "/"
        (append (dir_name doc.meta.category) (append "/" (sanitize_component doc.meta.file_name))))

-- `root.join(rel)`: an absolute `rel` takes the place of the root.
unfoldable pub abs_path : String → String → String
abs_path root [] = append root "/"
abs_path root (c ∷ s) = if code c == b'/' then c ∷ s else append root (append "/" (c ∷ s))
