-- ===== src/Crypto/Blob/Blocks.antt =====
-- The blocks of a text, and all the records of a blob: crates/vault-crypto/src/dbcrypto.rs.
use ubod.Base.{
  ℕ, zero, suc, ◌+◌, ◌≤◌, ◌≡◌, refl, ap, ◌∙◌, arith, Bool, true, some, List, [], ◌∷◌, ◌++◌, length,
  take, drop, nat_eq, all, leb, take-append-drop, length-take, length-drop,
}
use ubod.Base.Exec.{ok}
use ubod.Crypto.Blob.{
  Aead, block_aad, chunks, blocks_of, prepend, sealed_record, block_size, encrypt_blocks,
  decrypt_records,
}
use ubod.Crypto.Blob.Records.{IsCipher, decrypt_nothing, behind_long, read_record}

abbrev pub flat : List (List ℕ) → List ℕ
flat [] = []
flat (b ∷ bs) = b ++ flat bs

abbrev pub all_fit : List (List ℕ) → Bool
all_fit bs = all (λ b. leb (length b) block_size) bs

module _ (a : Aead) (cipher : IsCipher a) (random : ℕ → List ℕ)
    (random24 : (i : ℕ) → length (random i) ≡ 24) (key : List ℕ) where
  -- The records of the blocks from number `i` on.
  abbrev pub records : ℕ → List (List ℕ) → List ℕ
  records i [] = []
  records i (b ∷ bs) = sealed_record a key (random i) (block_aad i) b ++ records (i + 1) bs

  pub encrypt_blocks-records :
      (i : ℕ) (bs : List (List ℕ))
      → encrypt_blocks a (λ j. some (random j)) key i bs ≡ ok (records i bs)
  unfolding encrypt_blocks
  encrypt_blocks-records i [] = refl
  encrypt_blocks-records i (b ∷ bs) = rw (encrypt_blocks-records (i + 1) bs) refl

  record_long :
      (i : ℕ) (b : List ℕ) (bs : List (List ℕ))
      → all_fit (b ∷ bs) ≡ true
      → 28 + length (records (i + 1) bs) ≤ length (records i (b ∷ bs))
  record_long i b bs h = omega (
    arith,
    behind_long a cipher key (random i) (block_aad i) b (records (i + 1) bs) (random24 i)
        (ground (arith, h)),
  )

  pub decrypt_records-records :
      (fuel i : ℕ) (bs : List (List ℕ))
      → all_fit bs ≡ true
      → length (records i bs) ≤ fuel
      → decrypt_records a fuel key i (records i bs) ≡ ok (flat bs)
  decrypt_records-records fuel i [] h k = decrypt_nothing a fuel i key
  decrypt_records-records zero i (b ∷ bs) h k = absurd (omega (arith, record_long i b bs h, k))
  decrypt_records-records (suc fuel) i (b ∷ bs) h k =
      read_record a cipher key (random i) (block_aad i) b (records (i + 1) bs) (random24 i)
        (ground (arith, h)) fuel i refl
      ∙ ap (prepend b) (
          decrypt_records-records fuel (i + 1) bs (ground (arith, h))
            (omega (arith, record_long i b bs h, k)))

chunks-flat : (fuel : ℕ) (bytes : List ℕ) → length bytes ≤ fuel → flat (chunks fuel bytes) ≡ bytes
unfolding chunks
chunks-flat zero [] h = refl
chunks-flat zero (b ∷ bytes) h = absurd (omega (arith, h))
chunks-flat (suc fuel) [] h = refl
chunks-flat (suc fuel) (b ∷ bytes) h =
    ap (λ r. take block_size (b ∷ bytes) ++ r)
      (chunks-flat fuel (drop block_size (b ∷ bytes))
        (omega (arith, h, length-drop block_size (b ∷ bytes))))
    ∙ take-append-drop block_size (b ∷ bytes)

take-fit : (n : ℕ) (xs : List ℕ) → leb (length (take n xs)) n ≡ true
take-fit n xs = ground (arith, length-take n xs)

chunks-fit : (fuel : ℕ) (bytes : List ℕ) → all_fit (chunks fuel bytes) ≡ true
unfolding chunks
chunks-fit zero bytes = refl
chunks-fit (suc fuel) [] = refl
chunks-fit (suc fuel) (b ∷ bytes) =
    rw (take-fit block_size (b ∷ bytes)) (chunks-fit fuel (drop block_size (b ∷ bytes)))

pub blocks_of-flat : (bytes : List ℕ) → flat (blocks_of bytes) ≡ bytes
unfolding blocks_of
blocks_of-flat [] = refl
blocks_of-flat (b ∷ bytes) = chunks-flat (length (b ∷ bytes)) (b ∷ bytes) (omega arith)

pub blocks_of-fit : (bytes : List ℕ) → all_fit (blocks_of bytes) ≡ true
unfolding blocks_of
blocks_of-fit [] = refl
blocks_of-fit (b ∷ bytes) = chunks-fit (length (b ∷ bytes)) (b ∷ bytes)

pub all_fit-take : (n : ℕ) (bs : List (List ℕ)) → all_fit bs ≡ true → all_fit (take n bs) ≡ true
all_fit-take zero bs h = refl
all_fit-take (suc n) [] h = refl
all_fit-take (suc n) (b ∷ bs) h = ground (arith, all_fit-take n bs)
