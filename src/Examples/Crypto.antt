-- ===== src/Examples/Crypto.antt =====
-- Examples for crates/vault-crypto, with a toy cipher that only adds a tag.
use ubod.Base.{
  ℕ, ◌-◌, ◌≡◌, refl, sym, ap, arith, subst, some, List, [], ◌∷◌, ◌++◌, length, take, length-append,
  take-length-append,
}
use ubod.Base.Exec.{ok}
use ubod.Crypto.Blob.{Aead, encrypt_blob, decrypt_blob, blocks_of}
use ubod.Crypto.Blob.Records.{IsCipher}
use ubod.Crypto.Blob.Blocks.{flat}
use ubod.Crypto.Blob.RoundTrip.{decrypt_blob-encrypt_blob, decrypt_blob-truncated}
use ubod.Crypto.Der.{returns, panics, der_octet_string, parse_octet_string}
use ubod.Crypto.Der.RoundTrip.{parse_octet_string-der_octet_string, parse_octet_string-panics}

abbrev tag : List ℕ
tag = 0 ∷ 0 ∷ 0 ∷ 0 ∷ 0 ∷ 0 ∷ 0 ∷ 0 ∷ 0 ∷ 0 ∷ 0 ∷ 0 ∷ 0 ∷ 0 ∷ 0 ∷ 0 ∷ []

abbrev toy_cipher : Aead
toy_cipher = record {
  derive_key = λ keyfile. keyfile;
  seal = λ key nonce aad plain. plain ++ tag;
  unseal = λ key nonce aad ct. some (take (length ct - 16) ct);
}

toy_opens : (plain : List ℕ) → take (length (plain ++ tag) - 16) (plain ++ tag) ≡ plain
toy_opens plain =
    subst (λ n. take n (plain ++ tag) ≡ plain) (sym shorter) (take-length-append plain tag)
  where
    shorter : length (plain ++ tag) - 16 ≡ length plain
    shorter = omega (arith, length-append plain tag)

toy-IsCipher : IsCipher toy_cipher
toy-IsCipher = record {
  opens = λ key nonce aad plain. ap some (toy_opens plain);
  tagged = λ key nonce aad plain. length-append plain tag;
}

abbrev nonce : ℕ → List ℕ
nonce i = i ∷ 1 ∷ 2 ∷ 3 ∷ 4 ∷ 5 ∷ 6 ∷ 7 ∷ tag

length-nonce : (i : ℕ) → length (nonce i) ≡ 24
length-nonce i = refl

abbrev text : List ℕ
text = 123 ∷ 125 ∷ []

decrypt_blob-encrypt_blob_example :
    (blob : List ℕ) × (encrypt_blob toy_cipher (λ i. some (nonce i)) (7 ∷ []) text ≡ ok blob)
    × (decrypt_blob toy_cipher (7 ∷ []) blob ≡ ok text)
decrypt_blob-encrypt_blob_example =
    decrypt_blob-encrypt_blob toy_cipher toy-IsCipher nonce length-nonce (7 ∷ []) text

decrypt_blob-truncated_example :
    (front rest : List ℕ) × (encrypt_blob toy_cipher (λ i. some (nonce i)) (7 ∷ []) text
      ≡ ok (front ++ rest))
    × (decrypt_blob toy_cipher (7 ∷ []) front ≡ ok (flat (take 0 (blocks_of text))))
decrypt_blob-truncated_example =
    decrypt_blob-truncated toy_cipher toy-IsCipher nonce length-nonce (7 ∷ []) text 0

parse_octet_string-der_octet_string_example :
    parse_octet_string (der_octet_string text) ≡ returns (some text)
parse_octet_string-der_octet_string_example = parse_octet_string-der_octet_string text (omega arith)

parse_octet_string-panics_example :
    (cut : List ℕ) × (der_octet_string ((123 ∷ []) ++ 125 ∷ []) ≡ cut ++ 125 ∷ [])
    × (parse_octet_string cut ≡ panics)
parse_octet_string-panics_example = parse_octet_string-panics (123 ∷ []) 125 (omega arith)
