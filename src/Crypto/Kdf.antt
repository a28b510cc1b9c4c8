-- ===== src/Crypto/Kdf.antt =====
-- crates/crypto/src/kdf.rs: `KeyDerivation`.
use shadowgram.Base.{Option, none, some, List, [], ◌∷◌, ◌++◌, Bytes, take, drop, as_bytes}
use shadowgram.Base.Outcome.{Outcome, ok, panicked}
use shadowgram.Crypto.{Primitives}

module _ (p : Primitives) where
  unfoldable pub hkdf_sha256 : Bytes → Bytes → Bytes → Option Bytes
  hkdf_sha256 ikm salt info = p.hkdf (some salt) ikm info 32

  unfoldable pub derive_key : Bytes → Bytes → Option Bytes
  unfolding hkdf_sha256
  derive_key ikm context = hkdf_sha256 ikm (as_bytes "shadowgram-v1-hkdf-salt") context

  -- Collected into an option: none as soon as one derivation fails.
  unfoldable pub derive_keys : Bytes → List Bytes → Option (List Bytes)
  derive_keys ikm [] = some []
  derive_keys ikm (context ∷ contexts) = elim (derive_key ikm context) [
    | none ↦ none
    | some key ↦ elim (derive_keys ikm contexts) [ none ↦ none | some keys ↦ some (key ∷ keys) ]
  ]

  unfoldable pub blake3_derive : Bytes → Bytes → Bytes
  blake3_derive ikm context = p.blake3 (as_bytes "shadowgram-blake3" ++ (context ++ ikm))

  -- `expect` panics where the expansion fails.
  unfoldable pub kdf_chain {ℓ} : {E : Type ℓ} → Bytes → Outcome (Bytes × Bytes) E
  kdf_chain input = elim (p.hkdf none input (as_bytes "shadowgram-chain-key") 64) [
    | none ↦ panicked
    | some okm ↦ ok (take 32 okm, take 32 (drop 32 okm))
  ]

  unfoldable pub kdf_message {ℓ} : {E : Type ℓ} → Bytes → Outcome (Bytes × Bytes) E
  unfolding kdf_chain
  kdf_message chain_key = kdf_chain chain_key
