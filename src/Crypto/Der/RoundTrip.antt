-- ===== src/Crypto/Der/RoundTrip.antt =====
-- What `tlv` writes, `parse_octet_string` reads: crates/vault-crypto/src/derutil.rs.
use mathlib.Core.List.{append-nil, append_assoc}
use ubod.Base.{
  subst, ℕ, suc, ◌+◌, ◌/◌, ◌%◌, ◌<◌, ◌≤◌, ◌≡◌, refl, sym, ap, ◌∙◌, ◌⊎◌, inl, inr, arith, Bool, true,
  false, some, List, [], ◌∷◌, ◌++◌, length, take, drop, ltb, nat_eq, if◌then◌else◌, length-append,
  take-length-append, drop-length-append,
}
use ubod.Crypto.Der.{
  returns, panics, significant, tlv, der_octet_string, decode_length, slice, parse_octet_string,
}

-- How many bytes the length takes, and that they say it.
significant_1 : (n : ℕ) → 128 ≤ n → n < 256 → significant n ≡ n ∷ []
unfolding significant
significant_1 n h k = ground arith

significant_2 : (n : ℕ) → 256 ≤ n → n < 65536 → significant n ≡ n / 256 ∷ n % 256 ∷ []
unfolding significant
significant_2 n h k = ground arith

significant_3 :
    (n : ℕ) → 65536 ≤ n → n < 16777216 → significant n ≡ n / 65536 ∷ n / 256 % 256 ∷ n % 256 ∷ []
unfolding significant
significant_3 n h k = ground arith

significant_4 :
    (n : ℕ)
    → 16777216 ≤ n
    → n < 4294967296
    → significant n ≡ n / 16777216 ∷ n / 65536 % 256 ∷ n / 256 % 256 ∷ n % 256 ∷ []
unfolding significant
significant_4 n h k = ground arith

-- The bytes between the tag and the content.
abbrev length_bytes : ℕ → List ℕ
length_bytes n = if ltb n 128 then n ∷ [] else (128 + length (significant n)) ∷ significant n

tlv-length_bytes :
    (tag : ℕ) (content : List ℕ)
    → tlv tag content ≡ tag ∷ (length_bytes (length content) ++ content)
unfolding tlv
tlv-length_bytes tag content = go (ltb (length content) 128)
  where
    go :
        (b : Bool)
        → (if b
            then tag ∷ length content ∷ content
            else tag
              ∷ (128 + length (significant (length content)))
              ∷ (significant (length content) ++ content))
          ≡ tag
            ∷ ((if b
                  then length content ∷ []
                  else (128 + length (significant (length content))) ∷ significant (length content))
                ++ content)
    go true = refl
    go false = refl

-- Every length of at most four bytes is read back, with how many bytes it took.
decode_length-length_bytes :
    (n : ℕ) (rest : List ℕ)
    → n < 4294967296
    → decode_length (length_bytes n ++ rest) ≡ some (n, length (length_bytes n))
unfolding decode_length
decode_length-length_bytes n rest h = elim (sizes n h) [
  | inl small ↦ rw (ltb_true n small) (rw (ltb_true n small) refl)
  | inr (inl (a, b)) ↦ rw (significant_1 n a b, ltb_false n (omega (arith, a))) (ground arith)
  | inr (inr (inl (a, b))) ↦ rw (significant_2 n a b, ltb_false n (omega (arith, a))) (ground arith)
  | inr (inr (inr (inl (a, b)))) ↦
      rw (significant_3 n a b, ltb_false n (omega (arith, a))) (ground arith)
  | inr (inr (inr (inr (a, b)))) ↦
      rw (significant_4 n a b, ltb_false n (omega (arith, a))) (ground arith)
]
  where
    sizes :
        (n : ℕ)
        → n < 4294967296
        → (n < 128)
          ⊎ ((128 ≤ n) × (n < 256))
          ⊎ ((256 ≤ n) × (n < 65536))
          ⊎ ((65536 ≤ n) × (n < 16777216))
          ⊎ ((16777216 ≤ n) × (n < 4294967296))
    sizes n h = ground arith

    ltb_false : (n : ℕ) → 128 ≤ n → ltb n 128 ≡ false
    ltb_false n h = ground arith

    ltb_true : (n : ℕ) → n < 128 → ltb n 128 ≡ true
    ltb_true n h = ground arith

length_bytes-pos : (n : ℕ) → 0 < length (length_bytes n)
length_bytes-pos n = ground arith

-- The parser on a tag, a length that is read and the bytes behind it: it returns the content if all of
-- it is there, and slices out of range if just one byte is missing.
module _ (hd content : List ℕ) (n : ℕ) (read : decode_length (hd ++ content) ≡ some (n, length hd))
    (some_hd : 0 < length hd) where
  sliced : length content ≡ n → take n (drop (length hd + 1) (4 ∷ (hd ++ content))) ≡ content
  sliced whole =
      subst (λ k. take n (drop k (4 ∷ (hd ++ content))) ≡ content) (suc_length (length hd))
        (ap (take n) (drop-length-append hd content)
          ∙ subst (λ k. take k content ≡ content) whole
              (ap (take (length content)) (sym (append-nil content))
                ∙ take-length-append content []))
    where
      suc_length : (k : ℕ) → suc k ≡ k + 1
      suc_length k = omega arith

  parsed_whole :
      length content ≡ n → parse_octet_string (4 ∷ (hd ++ content)) ≡ returns (some content)
  unfolding parse_octet_string slice
  parsed_whole whole = rw read (ground (arith, length-append hd content, sliced whole))

  parsed_short : length content + 1 ≡ n → parse_octet_string (4 ∷ (hd ++ content)) ≡ panics
  unfolding parse_octet_string slice
  parsed_short short = rw read (ground (arith, length-append hd content))

-- An octet string is read back, up to the 4 GiB that four bytes of length can say.
pub parse_octet_string-der_octet_string :
    (content : List ℕ)
    → length content < 4294967296
    → parse_octet_string (der_octet_string content) ≡ returns (some content)
unfolding der_octet_string
parse_octet_string-der_octet_string content small =
    ap parse_octet_string (tlv-length_bytes 4 content)
    ∙ parsed_whole (length_bytes (length content)) content (length content)
        (decode_length-length_bytes (length content) content small)
        (length_bytes-pos (length content)) refl

-- Every encoded octet string with at least one byte of content, and fewer than 4 GiB, that has lost its
-- last byte makes the parser panic, since the test of the length forgets the tag.
pub parse_octet_string-panics :
    (front : List ℕ) (last : ℕ)
    → length front + 1 < 4294967296
    → (cut : List ℕ) × (der_octet_string (front ++ last ∷ []) ≡ cut ++ last ∷ [])
      × (parse_octet_string cut ≡ panics)
unfolding der_octet_string
parse_octet_string-panics front last small =
    let n = length (front ++ last ∷ []) in
    let hd = length_bytes n in
    let long : n ≡ length front + 1 = length-append front (last ∷ []) in
    (
      4 ∷ (hd ++ front),
      tlv-length_bytes 4 (front ++ last ∷ [])
          ∙ ap (λ r. 4 ∷ r) (sym (append_assoc hd front (last ∷ []))),
      parsed_short hd front n (decode_length-length_bytes n front (omega (arith, long, small)))
          (length_bytes-pos n) (sym long),
    )
