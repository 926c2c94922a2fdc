-- ===== src/Store/Secrets.antt =====
-- internal/crypto/encryption.go: `Encrypt` and `Decrypt`. Bytes are numbers, and a wrapped error is the
-- step that failed with the error of the library.
use opsup.Prelude.{
  ℕ, ◌+◌, le→ltb, take_all-append, drop_all-append, length-append, ◌≡◌, refl, sym, String, ◌⊎◌, inl,
  inr, List, ◌++◌, ltb, drop, take, length, if◌then◌else◌, arith,
}

pub data CryptoError : Type 0 where
  decode_hex_key create_cipher create_gcm generate_nonce decode_ciphertext : String → CryptoError
  too_short : CryptoError
  open_fails : String → CryptoError

-- What is used of encoding/hex, crypto/aes and crypto/cipher.
pub record Library (B G : Type 0) : Type 0 where
  pub decode_hex : String → String ⊎ List ℕ
  pub encode_hex : List ℕ → String
  pub new_cipher : List ℕ → String ⊎ B
  pub new_gcm : B → String ⊎ G
  pub nonce_size : G → ℕ
  pub seal : G → List ℕ → List ℕ → List ℕ
  pub open_sealed : G → List ℕ → List ℕ → String ⊎ List ℕ

module _ {B G : Type 0} (lib : Library B G) where
  -- The block and the mode of the key.
  unfoldable pub cipher_of : List ℕ → CryptoError ⊎ G
  cipher_of key = elim (lib.new_cipher key) [
    | inl error ↦ inl (create_cipher error)
    | inr block ↦ elim (lib.new_gcm block) [
      | inl error ↦ inl (create_gcm error)
      | inr gcm ↦ inr gcm
    ]
  ]

  -- `Encrypt(plaintext, hexKey)`; `random` is what the random source gives for the size of a nonce.
  unfoldable pub encrypt : (ℕ → String ⊎ List ℕ) → List ℕ → String → CryptoError ⊎ String
  unfolding cipher_of
  encrypt random plaintext hex_key = elim (lib.decode_hex hex_key) [
    | inl error ↦ inl (decode_hex_key error)
    | inr key ↦ elim (cipher_of key) [
      | inl error ↦ inl error
      | inr gcm ↦ elim (random (lib.nonce_size gcm)) [
        | inl error ↦ inl (generate_nonce error)
        | inr nonce ↦ inr (lib.encode_hex (nonce ++ lib.seal gcm nonce plaintext))
      ]
    ]
  ]

  unfoldable pub open_data : G → List ℕ → CryptoError ⊎ List ℕ
  open_data gcm bytes =
      if ltb (length bytes) (lib.nonce_size gcm)
      then inl too_short
      else elim (lib.open_sealed gcm (take (lib.nonce_size gcm) bytes)
          (drop (lib.nonce_size gcm) bytes)) [
            | inl error ↦ inl (open_fails error)
            | inr plaintext ↦ inr plaintext
          ]

  -- `Decrypt(ciphertext, hexKey)`
  unfoldable pub decrypt : String → String → CryptoError ⊎ List ℕ
  unfolding cipher_of open_data
  decrypt ciphertext hex_key = elim (lib.decode_hex hex_key) [
    | inl error ↦ inl (decode_hex_key error)
    | inr key ↦ elim (lib.decode_hex ciphertext) [
      | inl error ↦ inl (decode_ciphertext error)
      | inr bytes ↦ elim (cipher_of key) [ inl error ↦ inl error | inr gcm ↦ open_data gcm bytes ]
    ]
  ]

-- What the libraries document: hexadecimal reads back, a nonce has its size, and what is sealed with a
-- nonce is opened with it.
pub record IsLibrary {B G : Type 0} (lib : Library B G) (random : ℕ → String ⊎ List ℕ)
    : Type 0 where
  pub hex : (bytes : List ℕ) → lib.decode_hex (lib.encode_hex bytes) ≡ inr bytes
  pub size : (n : ℕ) (nonce : List ℕ) → random n ≡ inr nonce → length nonce ≡ n
  pub opens :
      (gcm : G) (nonce plaintext : List ℕ)
      → length nonce ≡ lib.nonce_size gcm
      → lib.open_sealed gcm nonce (lib.seal gcm nonce plaintext) ≡ inr plaintext

module _ {B G : Type 0} (lib : Library B G) (random : ℕ → String ⊎ List ℕ)
    (w : IsLibrary lib random) where
  open_data-seal :
      (gcm : G) (nonce plaintext : List ℕ)
      → length nonce ≡ lib.nonce_size gcm
      → open_data lib gcm (nonce ++ lib.seal gcm nonce plaintext) ≡ inr plaintext
  unfolding open_data
  open_data-seal gcm nonce plaintext h =
      let sealed = lib.seal gcm nonce plaintext in
      rw
        (
          sym h,
          length-append nonce sealed,
          le→ltb (length nonce + length sealed) (length nonce) (omega arith),
          take_all-append nonce sealed,
          drop_all-append nonce sealed,
          w.opens gcm nonce plaintext h,
        )
        refl

  -- What is encrypted with a key is decrypted with it: the same bytes.
  pub decrypt-encrypt :
      (plaintext : List ℕ) (hex_key ciphertext : String)
      → encrypt lib random plaintext hex_key ≡ inr ciphertext
      → decrypt lib ciphertext hex_key ≡ inr plaintext
  unfolding encrypt decrypt
  decrypt-encrypt plaintext hex_key ciphertext e = with_key (lib.decode_hex hex_key) refl
    where
      with_nonce :
          (key : List ℕ) (gcm : G)
          → lib.decode_hex hex_key ≡ inr key
          → cipher_of lib key ≡ inr gcm
          → (o : String ⊎ List ℕ) → random (lib.nonce_size gcm) ≡ o
          → decrypt lib ciphertext hex_key ≡ inr plaintext
      with_nonce key gcm k c (inl error) o = absurd (ground (arith, e, k, c, o))
      with_nonce key gcm k c (inr nonce) o =
          let bytes = nonce ++ lib.seal gcm nonce plaintext in
          let text : ciphertext ≡ lib.encode_hex bytes = ground (arith, e, k, c, o) in
          rw text (
            rw
              (
                decrypt,
                k,
                w.hex bytes,
                c,
                open_data-seal gcm nonce plaintext (w.size (lib.nonce_size gcm) nonce o),
              )
              refl)

      with_cipher :
          (key : List ℕ)
          → lib.decode_hex hex_key ≡ inr key
          → (o : CryptoError ⊎ G) → cipher_of lib key ≡ o
          → decrypt lib ciphertext hex_key ≡ inr plaintext
      with_cipher key k (inl error) c = absurd (ground (arith, e, k, c))
      with_cipher key k (inr gcm) c = with_nonce key gcm k c (random (lib.nonce_size gcm)) refl

      with_key :
          (o : String ⊎ List ℕ)
          → lib.decode_hex hex_key ≡ o
          → decrypt lib ciphertext hex_key ≡ inr plaintext
      with_key (inl error) k = absurd (ground (arith, e, k))
      with_key (inr key) k = with_cipher key k (cipher_of lib key) refl
