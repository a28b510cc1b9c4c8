-- ===== src/Crypto.antt =====
-- crates/crypto/src/kdf.rs and crates/crypto/src/aead.rs: key derivation and authenticated
-- encryption, over the operations of the crates hkdf, blake3, chacha20poly1305 and aes-gcm.
pub mod Kdf
pub mod Aead
pub mod Sealing
pub mod Example
mod Tests
use shadowgram.Base.{ℕ, ◌+◌, ◌≡◌, String, Option, some, Bytes, length, take}

-- `AeadAlgorithm`
pub data AeadAlgorithm : Type 0 where
  cha_cha20_poly1305 aes256_gcm : AeadAlgorithm

-- What the crates provide. HKDF-SHA256 of an optional salt, key material and info, expanded to a
-- number of bytes, which fails for too many; a hash; the AEADs of a key, nonce, associated data and
-- text, whose output ends with the tag; X25519, by the public key of a secret and the shared one.
pub record Primitives : Type 0 where
  pub hkdf : Option Bytes → Bytes → Bytes → ℕ → Option Bytes
  pub blake3 : Bytes → Bytes
  pub seal : AeadAlgorithm → Bytes → Bytes → Bytes → Bytes → Option Bytes
  pub unseal : AeadAlgorithm → Bytes → Bytes → Bytes → Bytes → Option Bytes
  pub dh_public : Bytes → Bytes
  pub diffie_hellman : Bytes → Bytes → Bytes

-- What the AEADs document: a sealed text is longer by a tag of sixteen bytes, is opened to the
-- text, and is all that opens to it; before the tag stands the text under a key stream, so that
-- two texts with the same bytes there are the same.
pub record IsAead (p : Primitives) : Type 0 where
  pub tagged :
      (alg : AeadAlgorithm) (key nonce ad text sealed : Bytes)
      → p.seal alg key nonce ad text ≡ some sealed
      → length sealed ≡ length text + 16
  pub opens :
      (alg : AeadAlgorithm) (key nonce ad text sealed : Bytes)
      → p.seal alg key nonce ad text ≡ some sealed
      → p.unseal alg key nonce ad sealed ≡ some text
  pub sound :
      (alg : AeadAlgorithm) (key nonce ad text sealed : Bytes)
      → p.unseal alg key nonce ad sealed ≡ some text
      → p.seal alg key nonce ad text ≡ some sealed
  pub stream :
      (alg : AeadAlgorithm) (key nonce ad text text' sealed sealed' : Bytes)
      → p.seal alg key nonce ad text ≡ some sealed
      → p.seal alg key nonce ad text' ≡ some sealed'
      → take (length text) sealed ≡ take (length text') sealed'
      → text ≡ text'
