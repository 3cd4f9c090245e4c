-- ===== src/Crypto/Der.antt =====
-- crates/vault-crypto/src/derutil.rs: the encoding of a tag, a length and a content, and the parser of
-- octet strings.
pub mod RoundTrip
use ubod.Base.{
  ℕ, zero, suc, ◌+◌, ◌-◌, ◌*◌, ◌%◌, String, Bool, Option, none, some, List, [], ◌∷◌, ◌++◌, length,
  take, drop, ltb, ◌==◌, nat_eq, if◌then◌else◌, ◌||◌, not,
}
use ubod.Base.Text.{as_bytes}
use ubod.Crypto.Bytes.{to_be}

-- `iter().position(|&b| b != 0)`, with `n` where there is none.
abbrev pub first_nonzero : ℕ → List ℕ → ℕ
first_nonzero n [] = n
first_nonzero n (b ∷ bs) = if b == 0 then suc (first_nonzero n bs) else 0

-- The bytes of a length without the leading zeros: `unwrap_or(7)` is for a length of zero, where all
-- eight are zero.
unfoldable pub significant : ℕ → List ℕ
significant len =
    let bytes = to_be 8 len in
    let start = first_nonzero 0 bytes in drop (if start == 8 then 7 else start) bytes

unfoldable pub tlv : ℕ → List ℕ → List ℕ
tlv tag content =
    let len = length content in
    if ltb len 128
    then tag ∷ len ∷ content
    else tag ∷ (128 + length (significant len)) ∷ (significant len ++ content)

unfoldable pub der_octet_string : List ℕ → List ℕ
der_octet_string bytes = tlv 4 bytes

unfoldable pub der_null : List ℕ
der_null = tlv 5 []

unfoldable pub der_bool_true : List ℕ
der_bool_true = tlv 1 (255 ∷ [])

abbrev pub join_items : List (List ℕ) → List ℕ
join_items [] = []
join_items (i ∷ items) = i ++ join_items items

unfoldable pub der_sequence : List (List ℕ) → List ℕ
der_sequence items = tlv 48 (join_items items)

unfoldable pub der_set : List (List ℕ) → List ℕ
der_set items = tlv 49 (join_items items)

-- `UintBytes::bytes`: the value of the 64 bits of `v`, minimal, with a zero in front of a set sign bit.
unfoldable pub uint_bytes : ℕ → List ℕ
uint_bytes v =
    let be = to_be 8 v in
    let out = drop (first_nonzero 0 be) be in
    if v == 0
    then 0 ∷ []
    else elim out [ [] ↦ [] | b ∷ bs ↦ if ltb b 128 then b ∷ bs else 0 ∷ b ∷ bs ]

unfoldable pub der_integer : ℕ → List ℕ
der_integer v = tlv 2 (uint_bytes v)

pub data DerTime : Type 0 where
  utc_time generalized_time : String → DerTime

unfoldable pub to_der_bytes : DerTime → List ℕ
to_der_bytes (utc_time s) = tlv 23 (as_bytes s)
to_der_bytes (generalized_time s) = tlv 24 (as_bytes s)

-- A call may also panic, on a slice out of range.
pub data Outcome (A : Type 0) : Type 0 where
  returns : A → Outcome A
  panics : Outcome A

-- The value of the bytes, the first the most significant.
abbrev pub big_endian : ℕ → List ℕ → ℕ
big_endian len [] = len
big_endian len (b ∷ bs) = big_endian (len * 256 + b) bs

-- For a byte, `first & 0x80 == 0` is `first < 128` and `first & 0x7F` is `first % 128`.
unfoldable pub decode_length : List ℕ → Option (ℕ × ℕ)
decode_length [] = none
decode_length (first ∷ rest) =
    let n = first % 128 in
    if ltb first 128
    then some (first, 1)
    else if n == 0 || ltb 4 n || ltb (length (first ∷ rest)) (1 + n)
    then none
    else some (big_endian 0 (take n rest), 1 + n)

-- The slice `data[from..from + len]`.
unfoldable pub slice : ℕ → ℕ → List ℕ → Outcome (Option (List ℕ))
slice from len bytes =
    if ltb (length bytes) (from + len) then panics else returns (some (take len (drop from bytes)))

unfoldable pub parse_octet_string : List ℕ → Outcome (Option (List ℕ))
parse_octet_string [] = returns none
parse_octet_string (tag ∷ rest) =
    if ltb (length (tag ∷ rest)) 2 || not (tag == 4)
    then returns none
    else elim (decode_length rest) [
      | none ↦ returns none
      | some (len, consumed) ↦
          if ltb (length (tag ∷ rest)) (consumed + len)
          then returns none
          else slice (consumed + 1) len (tag ∷ rest)
    ]
