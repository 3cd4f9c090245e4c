-- ===== src/Crypto/Blob/RoundTrip.antt =====
-- What is encrypted can be read again, and what can be cut off unseen:
-- crates/vault-crypto/src/dbcrypto.rs.
use mathlib.Core.List.{append_assoc, append-nil}
use ubod.Base.{
  ℕ, zero, suc, ◌+◌, ◌<◌, ◌≡◌, refl, sym, ap, ◌∙◌, arith, String, true, false, some, List, [], ◌∷◌,
  ◌++◌, length, take, drop, ltb, nat_eq, ◌||◌, not, take-length-append,
}
use ubod.Base.Exec.{ok}
use ubod.Base.Text.{as_bytes}
use ubod.Crypto.Bytes.{from_le}
use ubod.Crypto.Blob.{
  Aead, block_aad, magic, header, blocks_of, prepend, sealed_record, bytes_eq, encrypt_blob,
  decrypt_blob, encrypt_field, decrypt_field,
}
use ubod.Crypto.Blob.Records.{
  IsCipher, else_of, behind, behind-nonce, read_length, read_body, behind_long,
}
use ubod.Crypto.Blob.Blocks.{
  flat, all_fit, records, encrypt_blocks-records, decrypt_records-records, blocks_of-flat,
  blocks_of-fit, all_fit-take,
}

module _ (a : Aead) (cipher : IsCipher a) (random : ℕ → List ℕ)
    (random24 : (i : ℕ) → length (random i) ≡ 24) (keyfile : List ℕ) where
  abbrev blob_of : List (List ℕ) → List ℕ
  blob_of bs = header ++ records a cipher random random24 (a.derive_key keyfile) 0 bs

  decrypt_blob-blob_of :
      (bs : List (List ℕ)) → all_fit bs ≡ true → decrypt_blob a keyfile (blob_of bs) ≡ ok (flat bs)
  unfolding decrypt_blob bytes_eq
  decrypt_blob-blob_of bs h =
      else_of (ltb (length (blob_of bs)) 16 || not (bytes_eq (take 8 (blob_of bs)) magic)) _ _
        (ground arith)
      ∙ decrypt_records-records a cipher random random24 (a.derive_key keyfile)
          (length (blob_of bs)) 0 bs h (omega arith)

  encrypt_blob-blob_of :
      (p : List ℕ) → encrypt_blob a (λ i. some (random i)) keyfile p ≡ ok (blob_of (blocks_of p))
  unfolding encrypt_blob
  encrypt_blob-blob_of p =
      ap (prepend header)
        (encrypt_blocks-records a cipher random random24 (a.derive_key keyfile) 0 (blocks_of p))

  -- A text of any length is encrypted, if there are random numbers, and read back with the same keyfile.
  pub decrypt_blob-encrypt_blob :
      (p : List ℕ)
      → (blob : List ℕ) × (encrypt_blob a (λ i. some (random i)) keyfile p ≡ ok blob)
        × (decrypt_blob a keyfile blob ≡ ok p)
  decrypt_blob-encrypt_blob p = (
    blob_of (blocks_of p),
    encrypt_blob-blob_of p,
    decrypt_blob-blob_of (blocks_of p) (blocks_of-fit p) ∙ ap ok (blocks_of-flat p),
  )

  records-append :
      (i n : ℕ) (bs : List (List ℕ))
      → (rest : List ℕ) × (records a cipher random random24 (a.derive_key keyfile) i bs
          ≡ records a cipher random random24 (a.derive_key keyfile) i (take n bs) ++ rest)
  records-append i zero bs = (_, refl)
  records-append i (suc n) [] = ([], refl)
  records-append i (suc n) (b ∷ bs) =
      let (rest, e) = records-append (i + 1) n bs in
      let first = sealed_record a (a.derive_key keyfile) (random i) (block_aad i) b in
      (rest, ap (λ r. first ++ r) e ∙ sym (append_assoc first _ rest))

  -- The end of the blob is not protected: cut after any number of its records, it is read without an
  -- error, as the text of the blocks that are left.
  pub decrypt_blob-truncated :
      (p : List ℕ) (n : ℕ)
      → (front rest : List ℕ) × (encrypt_blob a (λ i. some (random i)) keyfile p
          ≡ ok (front ++ rest))
        × (decrypt_blob a keyfile front ≡ ok (flat (take n (blocks_of p))))
  decrypt_blob-truncated p n =
      let (rest, e) = records-append 0 n (blocks_of p) in
      (
        blob_of (take n (blocks_of p)),
        rest,
        encrypt_blob-blob_of p ∙ ap ok (ap (λ r. header ++ r) e),
        decrypt_blob-blob_of (take n (blocks_of p))
            (all_fit-take n (blocks_of p) (blocks_of-fit p)),
      )

  module _ (context : String) (p : List ℕ) (i : ℕ) (small : length p + 16 < 4294967296) where
    abbrev field : List ℕ
    field =
        behind a cipher (a.derive_key keyfile) (random i) (as_bytes context) p [] (random24 i) small

    field_long :
        (ltb (length field) 28 || ltb (length field) (28 + from_le (take 4 (drop 24 field))))
        ≡ false
    field_long = ground (
      arith,
      behind_long a cipher (a.derive_key keyfile) (random i) (as_bytes context) p [] (random24 i)
          small,
      read_length a cipher (a.derive_key keyfile) (random i) (as_bytes context) p [] (random24 i)
          small,
    )

    decrypt_field-field : decrypt_field a keyfile context field ≡ ok p
    unfolding decrypt_field
    decrypt_field-field =
        let key = a.derive_key keyfile in
        let aad = as_bytes context in
        else_of
          (ltb (length field) 28 || ltb (length field) (28 + from_le (take 4 (drop 24 field)))) _ _
          field_long
        ∙ rw
            (
              behind-nonce a cipher key (random i) aad p [] (random24 i) small,
              read_body a cipher key (random i) aad p [] (random24 i) small,
              read_length a cipher key (random i) aad p [] (random24 i) small,
              take-length-append (a.seal key (random i) aad p) [],
              cipher.opens key (random i) aad p,
            )
            refl

  -- A field is read back in the context it was encrypted in.
  pub decrypt_field-encrypt_field :
      (context : String) (p : List ℕ) (i : ℕ)
      → length p + 16 < 4294967296
      → (blob : List ℕ) × (encrypt_field a (some (random i)) keyfile context p ≡ ok blob)
        × (decrypt_field a keyfile context blob ≡ ok p)
  unfolding encrypt_field
  decrypt_field-encrypt_field context p i small = (
    sealed_record a (a.derive_key keyfile) (random i) (as_bytes context) p,
    refl,
    ap (decrypt_field a keyfile context) (sym (append-nil _))
        ∙ decrypt_field-field context p i small,
  )
