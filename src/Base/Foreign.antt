-- ===== src/Base/Foreign.antt =====
-- Code that the program takes from other packages, as an interface: the digests of sha2 and blake3
-- in lower-case hex, argon2id with the salt as an argument, the Unicode tables beyond ASCII, and what the
-- system gives at each draw: ten random bytes, and the milliseconds past the second of the clock.
use Prim.Native.Char.{Char, code}
use Prim.Native.String.{[], ◌∷◌}
use ubod.Base.{ℕ, String, Bool, List, ltb, ◌==◌, nat_eq, if◌then◌else◌}
use ubod.Base.Text.{push_str}

pub record Foreign : Type 0 where
  pub sha256 : List ℕ → String
  pub blake3 : List ℕ → String
  pub argon_hash : ℕ → String → String
  pub argon_verify : String → String → Bool
  pub unicode_alphanumeric : ℕ → Bool
  pub unicode_lowercase : Char → String
  pub random_bytes : ℕ → List ℕ
  pub milliseconds : ℕ → ℕ

-- `to_lowercase` of an ASCII character
unfoldable pub ascii_lowercase : Char → Char
ascii_lowercase c =
    if code c == 65
    then "a"
    else if code c == 66
    then "b"
    else if code c == 67
    then "c"
    else if code c == 68
    then "d"
    else if code c == 69
    then "e"
    else if code c == 70
    then "f"
    else if code c == 71
    then "g"
    else if code c == 72
    then "h"
    else if code c == 73
    then "i"
    else if code c == 74
    then "j"
    else if code c == 75
    then "k"
    else if code c == 76
    then "l"
    else if code c == 77
    then "m"
    else if code c == 78
    then "n"
    else if code c == 79
    then "o"
    else if code c == 80
    then "p"
    else if code c == 81
    then "q"
    else if code c == 82
    then "r"
    else if code c == 83
    then "s"
    else if code c == 84
    then "t"
    else if code c == 85
    then "u"
    else if code c == 86
    then "v"
    else if code c == 87
    then "w"
    else if code c == 88
    then "x"
    else if code c == 89
    then "y"
    else if code c == 90
    then "z"
    else c

-- `to_lowercase` on a whole text
module _ ⦃f : Foreign⦄ where
  unfoldable pub to_lowercase : String → String
  unfolding ascii_lowercase
  to_lowercase [] = []
  to_lowercase (c ∷ s) =
      let rest = to_lowercase s in
      if ltb (code c) 128 then ascii_lowercase c ∷ rest else push_str (f.unicode_lowercase c) rest
