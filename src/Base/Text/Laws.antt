-- ===== src/Base/Text/Laws.antt =====
-- Laws of the operations on texts.
use Prim.Native.Char.{Char, code}
use Prim.Native.String.{String, [], ◌∷◌}
use mathlib.Core.Bool.{false}
use mathlib.Core.Path.{◌≡◌, refl, ap}
use ubod.Base.Tests.{nat_eq}
use ubod.Base.Text.{push_str, is_whitespace, trim_start, trim_end, trim}

pub push_str-nil : (s : String) → push_str s [] ≡ s
push_str-nil [] = refl
push_str-nil (c ∷ s) = ap (◌∷◌ c) (push_str-nil s)

pub push_str_assoc : (a b c : String) → push_str (push_str a b) c ≡ push_str a (push_str b c)
push_str_assoc [] b c = refl
push_str_assoc (x ∷ a) b c = ap (◌∷◌ x) (push_str_assoc a b c)

-- A text that ends with a character that is no white space.
pub trim_end-push_str :
    (s : String) (c : Char)
    → is_whitespace (code c) ≡ false
    → trim_end (push_str s (c ∷ [])) ≡ push_str s (c ∷ [])
unfolding trim_end
trim_end-push_str [] c h = rw h refl
trim_end-push_str (d ∷ []) c h = rw h refl
trim_end-push_str (d ∷ e ∷ s) c h = rw (trim_end-push_str (e ∷ s) c h) refl

pub trim_lem :
    (d c : Char) (s : String)
    → is_whitespace (code d) ≡ false
    → is_whitespace (code c) ≡ false
    → trim (d ∷ push_str s (c ∷ [])) ≡ d ∷ push_str s (c ∷ [])
unfolding trim trim_start
trim_lem d c s h k = rw h (trim_end-push_str (d ∷ s) c k)
