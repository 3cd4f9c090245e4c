-- ===== src/Crypto/Blob/Records.antt =====
-- One record of the encrypted blob, written and read: crates/vault-crypto/src/dbcrypto.rs.
use mathlib.Core.List.{append_assoc}
use ubod.Base.{
  ℕ, zero, suc, ◌+◌, ◌%◌, ◌<◌, ◌≤◌, ◌≡◌, refl, ap, ◌∙◌, subst, arith, Bool, false, some, List, [],
  ◌∷◌, ◌++◌, length, take, drop, ltb, nat_eq, if◌then◌else◌, ◌||◌, length-append,
  take-length-append, drop-length-append,
}
use ubod.Base.Exec.{ok}
use ubod.Crypto.Bytes.{to_le, from_le, from_le-to_le, length-to_le}
use ubod.Crypto.Blob.{Aead, block_aad, prepend, opened, sealed_record, decrypt_records}

module _ {A : Type 0} where
  take-front : (n : ℕ) (xs ys : List A) → length xs ≡ n → take n (xs ++ ys) ≡ xs
  take-front n xs ys h = subst (λ k. take k (xs ++ ys) ≡ xs) h (take-length-append xs ys)

  drop-front : (n : ℕ) (xs ys : List A) → length xs ≡ n → drop n (xs ++ ys) ≡ ys
  drop-front n xs ys h = subst (λ k. drop k (xs ++ ys) ≡ ys) h (drop-length-append xs ys)

-- What the cipher promises: it opens what it sealed, and adds a tag of 16 bytes.
pub record IsCipher (a : Aead) : Type 0 where
  pub opens :
      (key nonce aad plain : List ℕ)
      → a.unseal key nonce aad (a.seal key nonce aad plain) ≡ some plain
  pub tagged :
      (key nonce aad plain : List ℕ) → length (a.seal key nonce aad plain) ≡ length plain + 16

pub decrypt_nothing :
    (a : Aead) (fuel idx : ℕ) (key : List ℕ) → decrypt_records a fuel key idx [] ≡ ok []
unfolding decrypt_records
decrypt_nothing a zero idx key = refl
decrypt_nothing a (suc fuel) idx key = refl

pub else_of : {A : Type 0} (t : Bool) (x y : A) → t ≡ false → (if t then x else y) ≡ y
else_of t x y e = rw e refl

-- A round of `decrypt_blob` on a record that is whole.
decrypt_step :
    (a : Aead) (fuel idx : ℕ) (key bytes : List ℕ)
    → 28 ≤ length bytes
    → let body = drop 4 (drop 24 bytes) in
      let len = from_le (take 4 (drop 24 bytes)) in
      len ≤ length body
      → decrypt_records a (suc fuel) key idx bytes
        ≡ opened
            (a.unseal key (take 24 bytes) (block_aad idx) (take len body))
            (decrypt_records a fuel key (idx + 1) (drop len body))
unfolding decrypt_records
decrypt_step a fuel idx key [] h k = absurd (omega (arith, h))
decrypt_step a fuel idx key (b ∷ bytes) h k =
    let behind = b ∷ bytes in
    else_of
      (ltb (length behind) 28
        || ltb (length (drop 4 (drop 24 behind))) (from_le (take 4 (drop 24 behind))))
      _ _ (ground (arith, h, k))

module _ (a : Aead) (cipher : IsCipher a) (key nonce aad block tail : List ℕ)
    (nonce24 : length nonce ≡ 24) (small : length block + 16 < 4294967296) where
  abbrev ct : List ℕ
  ct = a.seal key nonce aad block

  abbrev pub behind : List ℕ
  behind = sealed_record a key nonce aad block ++ tail

  behind_parts : behind ≡ nonce ++ (to_le 4 (length ct % 4294967296) ++ (ct ++ tail))
  unfolding sealed_record
  behind_parts =
      append_assoc nonce _ tail
      ∙ ap (λ r. nonce ++ r) (append_assoc (to_le 4 (length ct % 4294967296)) ct tail)

  pub behind-nonce : take 24 behind ≡ nonce
  behind-nonce = ap (take 24) behind_parts ∙ take-front 24 nonce _ nonce24

  behind-length : drop 24 behind ≡ to_le 4 (length ct % 4294967296) ++ (ct ++ tail)
  behind-length = ap (drop 24) behind_parts ∙ drop-front 24 nonce _ nonce24

  length-ct : length ct % 4294967296 ≡ length ct
  length-ct = omega (arith, cipher.tagged key nonce aad block)

  pub read_length : from_le (take 4 (drop 24 behind)) ≡ length ct
  read_length =
      ap (λ r. from_le (take 4 r)) behind-length
      ∙ ap from_le (
          take-front 4 (to_le 4 (length ct % 4294967296)) (ct ++ tail)
            (length-to_le 4 (length ct % 4294967296)))
      ∙ from_le-to_le _ (omega arith)
      ∙ length-ct

  pub read_body : drop 4 (drop 24 behind) ≡ ct ++ tail
  read_body =
      ap (drop 4) behind-length
      ∙ drop-front 4 (to_le 4 (length ct % 4294967296)) (ct ++ tail)
          (length-to_le 4 (length ct % 4294967296))

  pub behind_long : length behind ≡ 28 + (length ct + length tail)
  behind_long =
      ap length behind_parts
      ∙ omega (
        arith,
        length-append nonce (to_le 4 (length ct % 4294967296) ++ (ct ++ tail)),
        length-append (to_le 4 (length ct % 4294967296)) (ct ++ tail),
        length-append ct tail,
        length-to_le 4 (length ct % 4294967296),
      )

  body_long : from_le (take 4 (drop 24 behind)) ≤ length (drop 4 (drop 24 behind))
  body_long = omega (arith, read_length, ap length read_body, length-append ct tail)

  -- The record is read, and what stands after it is left.
  pub read_record :
      (fuel idx : ℕ)
      → aad ≡ block_aad idx
      → decrypt_records a (suc fuel) key idx behind
        ≡ prepend block (decrypt_records a fuel key (idx + 1) tail)
  read_record fuel idx same =
      decrypt_step a fuel idx key behind (omega (arith, behind_long)) body_long
      ∙ rw
          (
            behind-nonce,
            read_body,
            read_length,
            take-length-append ct tail,
            drop-length-append ct tail,
            ← same,
            cipher.opens key nonce aad block,
          )
          refl
