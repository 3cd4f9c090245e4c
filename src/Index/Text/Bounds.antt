-- ===== src/Index/Text/Bounds.antt =====
-- The text that is indexed stays within its bound: crates/vault-index/src/lib.rs.
use Prim.Native.Char.{Char, len_utf8}
use Prim.Native.Nat.{compare, Ordering}
use Prim.Native.String.{[], ◌∷◌, len, slice, fits}
use Prim.Native.String.len
use Prim.Native.String.slice
use mathlib.Core.List.{List}
use ubod.Base.{
  if◌then◌else◌, ℕ, zero, suc, ◌+◌, ◌-◌, ◌≤◌, min, String, leb, ◌≡◌, refl, arith, Bool-cases, inl,
  inr,
}
use ubod.Base.Text.{push_str, is_empty}
use ubod.Index.Text.{
  max_indexed_text, char_boundary, truncate_on_char_boundary, push_limited, concat_parts,
  xml_to_text,
}

pub len-push_str : (s t : String) → len (push_str s t) ≡ len s + len t
len-push_str [] t = rw len.nil (omega arith)
len-push_str (c ∷ s) t =
    rw (len.cons c (push_str s t), len.cons c s, len-push_str s t) (omega arith)

len-cons : (c : Char) (s : String) → len (c ∷ s) ≡ len_utf8 c + len s
len-cons c s = len.cons c s

len-fits :
    (o : Ordering) (c : Char) (t : String) (k : ℕ)
    → compare (len_utf8 c) k ≡ o
    → len t ≤ k - len_utf8 c
    → len (fits o c t) ≤ k
len-fits Ordering.lt c t k e h = rw (len-cons c t) (ground (arith, e, h))
len-fits Ordering.eq c t k e h = rw (len-cons c t) (ground (arith, e, h))
len-fits Ordering.gt c t k e h = rw len.nil (omega arith)

-- A slice has at most the bytes asked for.
len-slice : (s : String) (k : ℕ) → len (slice s 0 k) ≤ k
len-slice [] k = rw (slice.nil 0 k, len.nil) (omega arith)
len-slice (c ∷ s) k =
    rw (slice.cons-zero c s k) (len-fits _ c _ k refl (len-slice s (k - len_utf8 c)))

char_boundary-le : (s : String) (k : ℕ) → char_boundary s k ≤ k
unfolding char_boundary
char_boundary-le s zero = omega arith
char_boundary-le s (suc k) = ground (arith, char_boundary-le s k)

pub len-truncate : (s : String) (k : ℕ) → len (truncate_on_char_boundary s k) ≤ k
unfolding truncate_on_char_boundary
len-truncate s k = ground (arith, len-slice s (char_boundary s k), char_boundary-le s k)

len-spaced : (dst : String) → len (push_str dst " ") ≡ len dst + 1
len-spaced dst = len-push_str dst " "

-- One part more stays within the bound.
pub len-push_limited :
    (dst src : String) → len dst ≤ max_indexed_text → len (push_limited dst src) ≤ max_indexed_text
unfolding push_limited
len-push_limited dst src h =
    let spaced : String = if is_empty dst then dst else push_str dst " " in
    let room : ℕ = max_indexed_text - len spaced in
    let end : ℕ = char_boundary src (min (len src) room) in
    ground (
      arith,
      h,
      len-spaced dst,
      len-push_str spaced (slice src 0 end),
      len-slice src end,
      char_boundary-le src (min (len src) room),
    )

-- The text of a container is at most 1 MiB long, whatever parts it has.
pub len-concat_parts :
    (out : String) (parts : List String)
    → len out ≤ max_indexed_text
    → len (concat_parts out parts) ≤ max_indexed_text
unfolding concat_parts
len-concat_parts out List.[] h = h
len-concat_parts out (List.◌∷◌ xml parts) h =
    let more = len-push_limited out (xml_to_text xml) h in
    let rest = len-concat_parts (push_limited out (xml_to_text xml)) parts more in
    elim (Bool-cases (leb max_indexed_text (len out))) [
      | inl full ↦ rw full h
      | inr room ↦ rw room rest
    ]
