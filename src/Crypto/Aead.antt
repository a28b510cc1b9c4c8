-- ===== src/Crypto/Aead.antt =====
-- crates/crypto/src/aead.rs: `AeadCipher`. Keys are of 32 bytes, so that their length never fails.
use shadowgram.Base.{
  ℕ, ◌-◌, String, Option, none, some, ◌++◌, Bytes, length, take, drop, ltb, if◌then◌else◌, Result,
}
use shadowgram.Base
use shadowgram.Base.Outcome.{Outcome, ok, err, panicked}
use shadowgram.Crypto.{Primitives, AeadAlgorithm, cha_cha20_poly1305}

pub data CipherError : Type 0 where
  encryption_failed : String → CipherError
  decryption_failed : String → CipherError
  authentication_failed : CipherError
  invalid_key_size : ℕ → CipherError
  invalid_nonce : CipherError

-- `e.to_string()`, by its template.
abbrev pub cipher_message : CipherError → String
cipher_message (encryption_failed m) = "Encryption failed: {0}"
cipher_message (decryption_failed m) = "Decryption failed: {0}"
cipher_message authentication_failed = "Authentication failed - message tampered"
cipher_message (invalid_key_size n) = "Invalid key size: expected 32 bytes, got {0}"
cipher_message invalid_nonce = "Invalid nonce size"

-- The text and the tag behind it; `len() - 16` has to be an index.
unfoldable pub split_tag : Bytes → Outcome (Bytes × Bytes) CipherError
split_tag sealed =
    if ltb (length sealed) 16
    then panicked
    else ok (take (length sealed - 16) sealed, drop (length sealed - 16) sealed)

module _ (p : Primitives) where
  -- The body that `encrypt_chacha20` and `encrypt_aes256gcm` share.
  unfoldable pub encrypt :
      AeadAlgorithm → Bytes → Bytes → Bytes → Bytes → Outcome (Bytes × Bytes) CipherError
  unfolding split_tag
  encrypt algorithm key nonce plaintext associated_data =
      elim (p.seal algorithm key nonce associated_data plaintext) [
        | none ↦ err (encryption_failed "aead::Error")
        | some sealed ↦ split_tag sealed
      ]

  unfoldable pub decrypt :
      AeadAlgorithm → Bytes → Bytes → Bytes → Bytes → Bytes → Result Bytes CipherError
  decrypt algorithm key nonce ciphertext tag associated_data =
      elim (p.unseal algorithm key nonce associated_data (ciphertext ++ tag)) [
        | none ↦ Base.err authentication_failed
        | some plaintext ↦ Base.ok plaintext
      ]

  unfoldable pub encrypt_chacha20 :
      Bytes → Bytes → Bytes → Bytes → Outcome (Bytes × Bytes) CipherError
  unfolding encrypt
  encrypt_chacha20 = encrypt cha_cha20_poly1305

  unfoldable pub decrypt_chacha20 : Bytes → Bytes → Bytes → Bytes → Bytes → Result Bytes CipherError
  unfolding decrypt
  decrypt_chacha20 = decrypt cha_cha20_poly1305
