-- ===== src/Ratchet/Steps.antt =====
-- crates/crypto/src/double_ratchet.rs: encryption, decryption and the ratchet steps. A call
-- returns the state that it leaves beside its result, also when it fails; after a panic there is
-- no state to read, and the one before the call stands for it.
use shadowgram.Base.{
  ℕ, zero, suc, ◌+◌, ◌%◌, String, Bool, not, Option, none, some, List, [], ◌∷◌, ◌===◌, bytes_Eq,
  Bytes, Result, length, take, ltb, if◌then◌else◌, u64_mod, u64_sub, as_bytes, lookup, insert,
  remove,
}
use shadowgram.Base
use shadowgram.Base.Outcome.{Outcome, ok, err, panicked, ◌>>=◌}
use shadowgram.Crypto.{Primitives}
use shadowgram.Crypto.Kdf.{derive_key}
use shadowgram.Crypto.Aead.{encrypt_chacha20, decrypt_chacha20, cipher_message}
use shadowgram.Ratchet.{
  RatchetError, invalid_key, decryption_failed, serialization_error, too_many_skipped, MessageKey,
  ChainKey, new_chain_key, SkipKey, skip_key_Eq, DoubleRatchet, MessageHeader, to_dh_public,
  zeros_16, or_zeros, next,
}

-- The loop over the skipped keys: the i-th one under the index start + i, while there is room.
unfoldable pub store_skipped :
    ℕ → Bytes → ℕ → List MessageKey → List (SkipKey × MessageKey) → List (SkipKey × MessageKey)
store_skipped max_skip remote_dh start [] skipped = skipped
store_skipped max_skip remote_dh start (mk ∷ mks) skipped =
    store_skipped max_skip remote_dh ((start + 1) % u64_mod) mks (
      if ltb (length skipped) max_skip
      then insert (record { dh = remote_dh; index = start }) mk skipped
      else skipped)

module _ (p : Primitives) where
  -- The first keys of a chain.
  unfoldable pub derive_chain_keys : ℕ → ChainKey → Outcome (List MessageKey) RatchetError
  derive_chain_keys zero chain = ok []
  derive_chain_keys (suc count) chain = do
    (chain', mk) ← next p chain
    mks ← derive_chain_keys count chain'
    ok (mk ∷ mks)

  -- `take()` leaves no secret behind, also where the expansion fails.
  unfoldable pub dh_ratchet : DoubleRatchet → Bytes → DoubleRatchet × Result Bytes RatchetError
  dh_ratchet s remote_new_dh = elim s.sending_dh [
    | none ↦ (s, Base.err invalid_key)
    | some secret ↦
        let s' = record s { sending_dh = none } in
        elim (p.hkdf (some s.root_key) (p.diffie_hellman secret remote_new_dh)
          (as_bytes "shadowgram-root-ratchet") 64) [
            | none ↦
                (s', Base.err (serialization_error "invalid number of blocks, too large output"))
            | some output ↦ (
              record s' { root_key = take 32 output; remote_dh_public = remote_new_dh },
              Base.ok (take 32 output),
            )
          ]
  ]

  -- `new_dh` is the new random secret.
  unfoldable pub perform_dh_ratchet_recv :
      Bytes → DoubleRatchet → Bytes → DoubleRatchet × Result (Unit {0}) RatchetError
  perform_dh_ratchet_recv new_dh s remote_new_dh =
      let (s', result) = dh_ratchet s remote_new_dh in
      elim result [
        | Base.err e ↦ (s', Base.err e)
        | Base.ok new_root ↦ (
          record s' {
            receiving_chain = some (
                new_chain_key
                  (or_zeros (derive_key p new_root (as_bytes "shadowgram-receiving-chain"))));
            receiving_dh = some remote_new_dh;
            sending_chain =
                new_chain_key
                  (or_zeros (derive_key p new_root (as_bytes "shadowgram-sending-chain")));
            sending_dh_public = p.dh_public new_dh;
            sending_dh = some new_dh;
          },
          Base.ok tt,
        )
      ]

  unfoldable pub encrypt :
      DoubleRatchet → Bytes → DoubleRatchet × Outcome (Bytes × MessageHeader) RatchetError
  encrypt s plaintext = elim (next p s.sending_chain) [
    | panicked ↦ (s, panicked)
    | err e ↦ (s, err e)
    | ok (chain, mk) ↦ (
      record s { sending_chain = chain },
      elim (encrypt_chacha20 p mk.key mk.nonce plaintext []) [
        | panicked ↦ panicked
        | err e ↦ err (decryption_failed (cipher_message e))
        | ok (ciphertext, tag) ↦ ok (
          ciphertext,
          record {
            dh_public = s.sending_dh_public;
            counter = u64_sub chain.counter 1;
            ratchet_level = 0;
          },
        )
      ],
    )
  ]

  -- The branch of `decrypt` for a message that is not an old one.
  unfoldable pub advance :
      DoubleRatchet → Bytes → ℕ → ChainKey → DoubleRatchet × Outcome MessageKey RatchetError
  advance s remote_dh counter chain = elim (next p chain) [
    | panicked ↦ (s, panicked)
    | err e ↦ (s, err e)
    | ok (chain', mk) ↦
        elim (derive_chain_keys ((u64_sub counter chain'.counter + 1) % u64_mod) chain') [
          | panicked ↦ (s, panicked)
          | err e ↦ (s, err e)
          | ok mks ↦ (
            record s {
              receiving_chain = some chain';
              skipped_keys =
                  store_skipped s.max_skip remote_dh (u64_sub chain'.counter 1) mks s.skipped_keys;
            },
            ok mk,
          )
        ]
  ]

  -- The branch of `decrypt` for an old message.
  unfoldable pub take_skipped :
      DoubleRatchet → SkipKey → DoubleRatchet × Outcome MessageKey RatchetError
  take_skipped s key = elim (lookup key s.skipped_keys) [
    | none ↦ (s, err (too_many_skipped (length s.skipped_keys)))
    | some mk ↦ (record s { skipped_keys = remove key s.skipped_keys }, ok mk)
  ]

  -- The key of a message. `derive_skipped_keys` does nothing, so that a key that is not stored is
  -- not found a second time either.
  unfoldable pub receiving_key :
      DoubleRatchet → Bytes → ℕ → DoubleRatchet × Outcome MessageKey RatchetError
  receiving_key s remote_dh counter = elim s.receiving_chain [
    | none ↦ (s, err invalid_key)
    | some chain ↦
        if ltb counter chain.counter
        then take_skipped s (record { dh = remote_dh; index = counter })
        else advance s remote_dh counter chain
  ]

  -- The decryption under a key: the tag is always zero.
  unfoldable pub open_with : Outcome MessageKey RatchetError → Bytes → Outcome Bytes RatchetError
  open_with msg_key ciphertext = do
    mk ← msg_key
    elim (decrypt_chacha20 p mk.key mk.nonce ciphertext zeros_16 []) [
      | Base.err e ↦ err (decryption_failed "decryption failed")
      | Base.ok plaintext ↦ ok plaintext
    ]

  unfoldable pub decrypt :
      Bytes → DoubleRatchet → Bytes → MessageHeader → DoubleRatchet × Outcome Bytes RatchetError
  decrypt new_dh s ciphertext header = elim (to_dh_public header) [
    | Base.err e ↦ (s, err e)
    | Base.ok remote_dh ↦
        let (s', ratcheted) =
          if not (header.dh_public === s.remote_dh_public)
          then perform_dh_ratchet_recv new_dh s remote_dh
          else (s, Base.ok tt) in
        elim ratcheted [
          | Base.err e ↦ (s', err e)
          | Base.ok done ↦
              let (s'', msg_key) = receiving_key s' remote_dh header.counter in
              (s'', open_with msg_key ciphertext)
        ]
  ]
