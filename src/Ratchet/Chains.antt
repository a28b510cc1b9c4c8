-- ===== src/Ratchet/Chains.antt =====
-- crates/crypto/src/double_ratchet.rs: the keys that a receiving chain gives.
use shadowgram.Base.{
  ℕ, zero, suc, ◌+◌, ◌%◌, ◌≤◌, ◌≡◌, none, some, List, [], ◌∷◌, Bytes, as_bytes, take, drop, u64_mod,
  u64_sub, arith, refl,
}
use shadowgram.Base.Outcome.{ok}
use shadowgram.Crypto.{Primitives}
use shadowgram.Crypto.Kdf.{kdf_message, kdf_chain}
use shadowgram.Ratchet.{MessageKey, ChainKey, DoubleRatchet, next, new_message_key}
use shadowgram.Ratchet.Steps.{advance, receiving_key, derive_chain_keys}

-- HKDF-SHA256 expands to 64 bytes.
abbrev pub Expands : Primitives → Type 0
Expands p =
    (input : Bytes)
    → (okm : Bytes) × (p.hkdf none input (as_bytes "shadowgram-chain-key") 64 ≡ some okm)

module _ (p : Primitives) (expands : Expands p) where
  next_succeeds :
      (chain : ChainKey)
      → (chain' : ChainKey) × (mk : MessageKey) × (next p chain ≡ ok (chain', mk))
  unfolding next kdf_message kdf_chain
  next_succeeds chain =
      let (okm, e) = expands chain.bytes in
      (
        record { bytes = take 32 (drop 32 okm); counter = (chain.counter + 1) % u64_mod },
        new_message_key (take 32 okm) chain.counter,
        ground arith,
      )

  derive_chain_keys_succeeds :
      (count : ℕ) (chain : ChainKey)
      → (mks : List MessageKey) × (derive_chain_keys p count chain ≡ ok mks)
  unfolding derive_chain_keys
  derive_chain_keys_succeeds zero chain = ([], refl)
  derive_chain_keys_succeeds (suc count) chain =
      let (chain', mk, e) = next_succeeds chain in
      let (mks, e') = derive_chain_keys_succeeds count chain' in (mk ∷ mks, ground arith)

  -- A message at the receiver's place in the chain or ahead of it gets the next key of the chain,
  -- however far it is ahead, and the chain moves by that one key.
  pub receiving_key_ahead :
      (s : DoubleRatchet) (dh : Bytes) (counter : ℕ) (chain chain' : ChainKey) (mk : MessageKey)
      → s.receiving_chain ≡ some chain
      → chain.counter ≤ counter
      → next p chain ≡ ok (chain', mk)
      → ((receiving_key p s dh counter).1 ≡ ok mk)
        × ((receiving_key p s dh counter).0.receiving_chain ≡ some chain')
  unfolding receiving_key advance
  receiving_key_ahead s dh counter chain chain' mk here ahead e =
      let (mks, e') =
        derive_chain_keys_succeeds ((u64_sub counter chain'.counter + 1) % u64_mod) chain' in
      (ground arith, ground arith)
