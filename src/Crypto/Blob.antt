-- ===== src/Crypto/Blob.antt =====
-- crates/vault-crypto/src/dbcrypto.rs: `DbCrypto`, which encrypts the snapshot of the database in
-- blocks of 4096 bytes.
pub mod Records
pub mod Blocks
pub mod RoundTrip
use ubod.Base.{
  ℕ, zero, suc, ◌+◌, ◌-◌, ◌*◌, ◌%◌, ◌<◌, ◌≡◌, refl, String, Bool, true, false, Option, none, some,
  List, [], ◌∷◌, ◌++◌, length, take, drop, ltb, ◌==◌, nat_eq, if◌then◌else◌, ◌||◌, ◌&&◌, not,
}
use ubod.Base.Exec.{Result, ok, err}
use ubod.Base.Text.{as_bytes}
use ubod.Crypto.Bytes.{to_le, from_le}

-- XChaCha20-Poly1305 of the package chacha20poly1305 (key, nonce, associated data, text), and
-- BLAKE3's derivation of the key from the keyfile.
pub record Aead : Type 0 where
  pub derive_key : List ℕ → List ℕ
  pub seal : List ℕ → List ℕ → List ℕ → List ℕ → List ℕ
  pub unseal : List ℕ → List ℕ → List ℕ → List ℕ → Option (List ℕ)

pub data DbCryptoError : Type 0 where
  bad_format corrupt_or_wrong_key io rng : DbCryptoError

abbrev pub magic : List ℕ
magic = b'V' ∷ b'L' ∷ b'T' ∷ b'D' ∷ b'B' ∷ b'0' ∷ b'1' ∷ 0 ∷ []

abbrev pub block_size : ℕ
block_size = 4096

abbrev pub nonce_len : ℕ
nonce_len = 24

unfoldable pub bytes_eq : List ℕ → List ℕ → Bool
bytes_eq [] [] = true
bytes_eq [] (y ∷ ys) = false
bytes_eq (x ∷ xs) [] = false
bytes_eq (x ∷ xs) (y ∷ ys) = (x == y) && bytes_eq xs ys

unfoldable pub block_aad : ℕ → List ℕ
block_aad idx = as_bytes "vaultdb-block" ++ to_le 8 idx

-- `chunks(BLOCK_SIZE)`, with the length for fuel, and one empty block for no text.
unfoldable pub chunks : ℕ → List ℕ → List (List ℕ)
chunks zero bytes = []
chunks (suc fuel) [] = []
chunks (suc fuel) (b ∷ bytes) =
    take block_size (b ∷ bytes) ∷ chunks fuel (drop block_size (b ∷ bytes))

unfoldable pub blocks_of : List ℕ → List (List ℕ)
blocks_of [] = [] ∷ []
blocks_of (b ∷ bytes) = chunks (length (b ∷ bytes)) (b ∷ bytes)

-- `a` in front of what comes after, if that succeeds.
abbrev pub prepend : {E : Type 0} → List ℕ → Result E (List ℕ) → Result E (List ℕ)
prepend a (ok b) = ok (a ++ b)
prepend a (err e) = err e

-- What `decrypt` gives for a record, and the text of the records after it.
abbrev pub opened : Option (List ℕ) → Result DbCryptoError (List ℕ) → Result DbCryptoError (List ℕ)
opened none rest = err corrupt_or_wrong_key
opened (some plain) rest = prepend plain rest

abbrev pub or_corrupt : Option (List ℕ) → Result DbCryptoError (List ℕ)
or_corrupt none = err corrupt_or_wrong_key
or_corrupt (some plain) = ok plain

-- The header: the magic, the version of the format, seven reserved bytes.
abbrev pub header : List ℕ
header = magic ++ 1 ∷ 0 ∷ 0 ∷ 0 ∷ 0 ∷ 0 ∷ 0 ∷ 0 ∷ []

module _ (a : Aead) where
  -- One record: the nonce, the length of the ciphertext and the ciphertext.
  unfoldable pub sealed_record : List ℕ → List ℕ → List ℕ → List ℕ → List ℕ
  sealed_record key nonce aad block =
      let ct = a.seal key nonce aad block in nonce ++ (to_le 4 (length ct % 4294967296) ++ ct)

  -- The loop of `encrypt_blob`; `random i` is what `getrandom` gives for block `i`.
  unfoldable pub encrypt_blocks :
      (ℕ → Option (List ℕ)) → List ℕ → ℕ → List (List ℕ) → Result DbCryptoError (List ℕ)
  encrypt_blocks random key idx [] = ok []
  encrypt_blocks random key idx (block ∷ blocks) =
      let rest = encrypt_blocks random key (idx + 1) blocks in
      elim (random idx) [
        | none ↦ err rng
        | some nonce ↦ prepend (sealed_record key nonce (block_aad idx) block) rest
      ]

  unfoldable pub encrypt_blob :
      (ℕ → Option (List ℕ)) → List ℕ → List ℕ → Result DbCryptoError (List ℕ)
  encrypt_blob random keyfile plaintext =
      prepend header (encrypt_blocks random (a.derive_key keyfile) 0 (blocks_of plaintext))

  -- The loop of `decrypt_blob` over what lies behind the position. Each round takes at least one byte,
  -- so the length of the blob is enough fuel.
  unfoldable pub decrypt_records : ℕ → List ℕ → ℕ → List ℕ → Result DbCryptoError (List ℕ)
  decrypt_records zero key idx bytes = ok []
  decrypt_records (suc fuel) key idx [] = ok []
  decrypt_records (suc fuel) key idx (b ∷ bytes) =
      let behind = b ∷ bytes in
      let nonce = take nonce_len behind in
      let len = from_le (take 4 (drop nonce_len behind)) in
      let body = drop 4 (drop nonce_len behind) in
      let rest = decrypt_records fuel key (idx + 1) (drop len body) in
      if ltb (length behind) (nonce_len + 4) || ltb (length body) len
      then err bad_format
      else opened (a.unseal key nonce (block_aad idx) (take len body)) rest

  unfoldable pub decrypt_blob : List ℕ → List ℕ → Result DbCryptoError (List ℕ)
  decrypt_blob keyfile blob =
      if ltb (length blob) 16 || not (bytes_eq (take 8 blob) magic)
      then err bad_format
      else decrypt_records (length blob) (a.derive_key keyfile) 0 (drop 16 blob)

  unfoldable pub encrypt_field :
      Option (List ℕ) → List ℕ → String → List ℕ → Result DbCryptoError (List ℕ)
  encrypt_field random keyfile context plaintext = elim random [
    | none ↦ err rng
    | some nonce ↦ ok (sealed_record (a.derive_key keyfile) nonce (as_bytes context) plaintext)
  ]

  unfoldable pub decrypt_field : List ℕ → String → List ℕ → Result DbCryptoError (List ℕ)
  decrypt_field keyfile context blob =
      let len = from_le (take 4 (drop nonce_len blob)) in
      if ltb (length blob) (nonce_len + 4) || ltb (length blob) (nonce_len + 4 + len)
      then err bad_format
      else or_corrupt (
          a.unseal (a.derive_key keyfile) (take nonce_len blob) (as_bytes context)
            (take len (drop 4 (drop nonce_len blob))))
