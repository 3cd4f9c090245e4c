-- ===== src/Base/Text.antt =====
-- Texts as the program walks them: characters of a native `String`.
pub mod Laws
pub mod Numbers
use Prim.Native.Char.{Char, code}
use Prim.Native.Nat.{ℕ, zero, suc, ◌+◌, ◌-◌, ◌*◌, ◌/◌, ◌%◌}
use Prim.Native.String.{String, [], ◌∷◌, ◌++◌, len}
use mathlib.Core.Bool.{Bool, true, false, ◌&&◌, ◌||◌}
use mathlib.Core.List.{List}
use mathlib.Core.Option.{Option, none, some}
use ubod.Base.Tests.{ltb, leb, ◌==◌, nat_eq, string_eq, if◌then◌else◌}

-- One character satisfies the test, or all do.
abbrev pub has : (ℕ → Bool) → String → Bool
has p [] = false
has p (c ∷ s) = p (code c) || has p s

abbrev pub every : (ℕ → Bool) → String → Bool
every p [] = true
every p (c ∷ s) = p (code c) && every p s

-- `b.is_ascii_digit()` and `b.is_ascii_hexdigit()`
abbrev pub is_ascii_digit : ℕ → Bool
is_ascii_digit c = leb b'0' c && leb c b'9'

abbrev pub is_ascii_hexdigit : ℕ → Bool
is_ascii_hexdigit c = is_ascii_digit c || (leb b'a' c && leb c b'f') || (leb b'A' c && leb c b'F')

-- The digit of a value below 16, in lower case.
unfoldable pub hex_digit : ℕ → Char
hex_digit n =
    if n == 0
    then "0"
    else if n == 1
    then "1"
    else if n == 2
    then "2"
    else if n == 3
    then "3"
    else if n == 4
    then "4"
    else if n == 5
    then "5"
    else if n == 6
    then "6"
    else if n == 7
    then "7"
    else if n == 8
    then "8"
    else if n == 9
    then "9"
    else if n == 10
    then "a"
    else if n == 11
    then "b"
    else if n == 12
    then "c"
    else if n == 13
    then "d"
    else if n == 14
    then "e"
    else "f"

-- `n` in base `base`, in front of `out`; the fuel is the number itself and one more.
unfoldable pub emit : ℕ → ℕ → ℕ → String → String
unfolding hex_digit
emit zero base n out = out
emit (suc fuel) base n out =
    let rest = emit fuel base (n / base) (hex_digit (n % base) ∷ out) in
    if ltb n base then hex_digit n ∷ out else rest

-- `{n}`, `{n:0w}` and `{n:0wx}` of `format!`
unfoldable pub decimal : ℕ → String
unfolding emit
decimal n = emit (suc n) 10 n ""

abbrev pub zeros : ℕ → String → String
zeros zero s = s
zeros (suc n) s = "0" ++ zeros n s

unfoldable pub pad : ℕ → String → String
pad w s = zeros (w - len s) s

unfoldable pub hex : ℕ → String
unfolding emit
hex n = emit (suc n) 16 n ""

-- `hex::encode`
unfoldable pub hex_encode : List ℕ → String
unfolding hex_digit
hex_encode List.[] = ""
hex_encode (List.◌∷◌ b bs) = hex_digit (b / 16) ∷ hex_digit (b % 16) ∷ hex_encode bs

-- The UTF-8 bytes of one code point, and `as_bytes()`.
abbrev pub utf8_char : ℕ → List ℕ → List ℕ
utf8_char c rest =
    if ltb c 128
    then List.◌∷◌ c rest
    else if ltb c 2048
    then List.◌∷◌ (192 + c / 64) (List.◌∷◌ (128 + c % 64) rest)
    else if ltb c 65536
    then List.◌∷◌ (224 + c / 4096) (List.◌∷◌ (128 + c / 64 % 64) (List.◌∷◌ (128 + c % 64) rest))
    else List.◌∷◌ (240 + c / 262144) (
        List.◌∷◌ (128 + c / 4096 % 64)
          (List.◌∷◌ (128 + c / 64 % 64) (List.◌∷◌ (128 + c % 64) rest)))

unfoldable pub as_bytes : String → List ℕ
as_bytes [] = List.[]
as_bytes (c ∷ s) = utf8_char (code c) (as_bytes s)

-- `eq_ignore_ascii_case`
abbrev pub ascii_lower : ℕ → ℕ
ascii_lower c = if leb b'A' c && leb c b'Z' then c + 32 else c

unfoldable pub eq_ignore_ascii_case : String → String → Bool
eq_ignore_ascii_case [] [] = true
eq_ignore_ascii_case [] (d ∷ t) = false
eq_ignore_ascii_case (c ∷ s) [] = false
eq_ignore_ascii_case (c ∷ s) (d ∷ t) =
    (ascii_lower (code c) == ascii_lower (code d)) && eq_ignore_ascii_case s t

-- `char::is_whitespace`: the property White_Space of Unicode.
unfoldable pub is_whitespace : ℕ → Bool
is_whitespace c =
    (leb 9 c && leb c 13)
    || (c == 32)
    || (c == 133)
    || (c == 160)
    || (c == 5760)
    || (leb 8192 c && leb c 8202)
    || (c == 8232)
    || (c == 8233)
    || (c == 8239)
    || (c == 8287)
    || (c == 12288)

unfoldable pub trim_start : String → String
trim_start [] = []
trim_start (c ∷ s) = let rest = trim_start s in if is_whitespace (code c) then rest else c ∷ s

-- A character in front of a text that is trimmed at its end.
abbrev pub before_trimmed : Char → String → String
before_trimmed c [] = if is_whitespace (code c) then [] else c ∷ []
before_trimmed c (d ∷ t) = c ∷ d ∷ t

unfoldable pub trim_end : String → String
trim_end [] = []
trim_end (c ∷ s) = before_trimmed c (trim_end s)

unfoldable pub trim : String → String
unfolding trim_start trim_end
trim s = trim_end (trim_start s)

abbrev pub into_first : Char → List String → List String
into_first c List.[] = List.◌∷◌ (c ∷ []) List.[]
into_first c (List.◌∷◌ p ps) = List.◌∷◌ (c ∷ p) ps

-- `split(sep).collect()`: at least one part.
unfoldable pub split_on : ℕ → String → List String
split_on sep [] = List.◌∷◌ [] List.[]
split_on sep (c ∷ s) =
    let parts = split_on sep s in if code c == sep then List.◌∷◌ [] parts else into_first c parts

-- `parts.join(sep)`
unfoldable pub join : String → List String → String
join sep List.[] = []
join sep (List.◌∷◌ p List.[]) = p
join sep (List.◌∷◌ p (List.◌∷◌ q ps)) = p ++ (sep ++ join sep (List.◌∷◌ q ps))

-- `push_str`
abbrev pub push_str : String → String → String
push_str [] t = t
push_str (c ∷ s) t = c ∷ push_str s t

abbrev pub is_empty : String → Bool
is_empty [] = true
is_empty (c ∷ s) = false

-- `split_once(sep)`
abbrev pub before_sep : Char → Option (String × String) → Option (String × String)
before_sep c none = none
before_sep c (some (a, b)) = some (c ∷ a, b)

unfoldable pub split_once : ℕ → String → Option (String × String)
split_once sep [] = none
split_once sep (c ∷ s) =
    let rest = split_once sep s in if code c == sep then some ([], s) else before_sep c rest

-- `trim_matches(c)`
unfoldable pub strip_front : ℕ → String → String
strip_front x [] = []
strip_front x (c ∷ s) = let rest = strip_front x s in if code c == x then rest else c ∷ s

abbrev pub before_stripped : ℕ → Char → String → String
before_stripped x c [] = if code c == x then [] else c ∷ []
before_stripped x c (d ∷ t) = c ∷ d ∷ t

unfoldable pub strip_back : ℕ → String → String
strip_back x [] = []
strip_back x (c ∷ s) = before_stripped x c (strip_back x s)

unfoldable pub trim_matches : ℕ → String → String
unfolding strip_front strip_back
trim_matches x s = strip_back x (strip_front x s)

-- `starts_with(pat)`, `contains(pat)` and `ends_with(pat)`
unfoldable pub starts_with : String → String → Bool
starts_with [] s = true
starts_with (p ∷ ps) [] = false
starts_with (p ∷ ps) (c ∷ s) = (code p == code c) && starts_with ps s

unfoldable pub contains : String → String → Bool
unfolding starts_with
contains pat [] = starts_with pat []
contains pat (c ∷ s) = starts_with pat (c ∷ s) || contains pat s

unfoldable pub ends_with : String → String → Bool
ends_with pat [] = is_empty pat
ends_with pat (c ∷ s) = (pat == c ∷ s) || ends_with pat s

-- The number that digits stand for, up to a limit, and `parse::<uN>()`.
abbrev pub next_digit : ℕ → ℕ → ℕ → Option ℕ
next_digit limit acc c =
    if is_ascii_digit c && leb (acc * 10 + (c - 48)) limit then some (acc * 10 + (c - 48)) else none

unfoldable pub digits : ℕ → Option ℕ → String → Option ℕ
digits limit none s = none
digits limit (some acc) [] = some acc
digits limit (some acc) (c ∷ s) = digits limit (next_digit limit acc (code c)) s

abbrev pub some_digits : ℕ → String → Option ℕ
some_digits limit [] = none
some_digits limit (c ∷ s) = digits limit (some 0) (c ∷ s)

unfoldable pub parse_unsigned : ℕ → String → Option ℕ
unfolding digits
parse_unsigned limit [] = none
parse_unsigned limit (c ∷ s) =
    if code c == b'+' then some_digits limit s else some_digits limit (c ∷ s)
