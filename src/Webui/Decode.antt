-- ===== src/Webui/Decode.antt =====
-- crates/vault-webui/src/lib.rs: `percent_decode`, on bytes.
use ubod.Base.{
  ℕ, ◌+◌, ◌-◌, ◌*◌, ◌&&◌, leb, ◌==◌, nat_eq, if◌then◌else◌, Option, none, some, List, [], ◌∷◌,
}

unfoldable pub hex_value : ℕ → Option ℕ
hex_value c =
    if leb b'0' c && leb c b'9'
    then some (c - b'0')
    else if leb b'a' c && leb c b'f'
    then some (c - b'a' + 10)
    else if leb b'A' c && leb c b'F'
    then some (c - b'A' + 10)
    else none

abbrev pub joined : Option ℕ → Option ℕ → Option ℕ
joined (some a) (some b) = some (16 * a + b)
joined (some a) none = none
joined none b = none

-- `u8::from_str_radix(…, 16)` of two bytes, which takes a sign in front.
unfoldable pub from_str_radix : ℕ → ℕ → Option ℕ
from_str_radix c d = if c == b'+' then hex_value d else joined (hex_value c) (hex_value d)

abbrev pub plain : ℕ → ℕ
plain b = if b == b'+' then b' ' else b

unfoldable pub percent_decode : List ℕ → List ℕ
percent_decode [] = []
percent_decode (b ∷ []) = plain b ∷ []
percent_decode (b ∷ c ∷ []) = plain b ∷ plain c ∷ []
percent_decode (b ∷ c ∷ d ∷ bs) =
    let one = percent_decode (c ∷ d ∷ bs) in
    let three = percent_decode bs in
    if b == b'%'
    then elim (from_str_radix c d) [ none ↦ b ∷ one | some x ↦ x ∷ three ]
    else plain b ∷ one
