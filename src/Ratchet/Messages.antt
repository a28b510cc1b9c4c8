-- ===== src/Ratchet/Messages.antt =====
-- crates/crypto/src/double_ratchet.rs: a message of the sender at the receiver, in order.
use shadowgram.Base.{
  ◌+◌, ◌%◌, ◌<◌, ◌≡◌, ◌≢◌, ◌⊎◌, inl, inr, Bool-cases, true, bytes_Eq, bytes_eq, bytes_eq_iff, some,
  [], Bytes, length, u64_mod, u64_sub, arith, refl, sym, ap,
}
use shadowgram.Base.Outcome.{ok, err}
use shadowgram.Crypto.{Primitives, IsAead, cha_cha20_poly1305}
use shadowgram.Crypto.Kdf.{kdf_message, kdf_chain}
use shadowgram.Crypto.Aead.{encrypt_chacha20, decrypt_chacha20}
use shadowgram.Crypto.Sealing.{decrypt-encrypt, decrypt_other_tag}
use shadowgram.Ratchet.{
  MessageKey, ChainKey, DoubleRatchet, MessageHeader, decryption_failed, next, to_dh_public,
  zeros_16,
}
use shadowgram.Ratchet.Steps.{
  store_skipped, advance, receiving_key, derive_chain_keys, encrypt, decrypt, open_with,
}

abbrev pub header_of : DoubleRatchet → MessageHeader
header_of a = record {
  dh_public = a.sending_dh_public;
  counter = a.sending_chain.counter;
  ratchet_level = 0;
}

-- The receiver follows the sender: it knows its public key, and its receiving chain is the
-- sender's sending chain.
pub record Follows (a b : DoubleRatchet) : Type 0 where
  pub chain : b.receiving_chain ≡ some a.sending_chain
  pub remote : b.remote_dh_public ≡ a.sending_dh_public
  pub key : length a.sending_dh_public ≡ 32
  pub room : a.sending_chain.counter + 1 < u64_mod

module _ (p : Primitives) where
  counter-next :
      (chain chain' : ChainKey) (mk : MessageKey)
      → next p chain ≡ ok (chain', mk)
      → chain'.counter ≡ (chain.counter + 1) % u64_mod
  unfolding next kdf_message kdf_chain
  counter-next chain chain' mk h = ground arith

  encrypt-header_of :
      (a b : DoubleRatchet) (text c tag : Bytes) (chain : ChainKey) (mk : MessageKey)
      → Follows a b
      → next p a.sending_chain ≡ ok (chain, mk)
      → encrypt_chacha20 p mk.key mk.nonce text [] ≡ ok (c, tag)
      → encrypt p a text ≡ (record a { sending_chain = chain }, ok (c, header_of a))
  unfolding encrypt
  encrypt-header_of a b text c tag chain mk f e sealed =
      let n = counter-next a.sending_chain chain mk e in
      let back : u64_sub chain.counter 1 ≡ a.sending_chain.counter = omega (arith, n, f.room) in
      ground arith

  receiving_key_in_order :
      (a b : DoubleRatchet) (dh : Bytes) (chain : ChainKey) (mk : MessageKey)
      → Follows a b
      → next p a.sending_chain ≡ ok (chain, mk)
      → receiving_key p b dh a.sending_chain.counter
        ≡ (record b { receiving_chain = some chain }, ok mk)
  unfolding receiving_key advance store_skipped derive_chain_keys
  receiving_key_in_order a b dh chain mk f e =
      let n = counter-next a.sending_chain chain mk e in
      let count = (u64_sub a.sending_chain.counter chain.counter + 1) % u64_mod in
      let none_skipped : count ≡ 0 = omega (arith, n, f.room) in
      let keys : derive_chain_keys p count chain ≡ ok [] = rw none_skipped refl in ground arith

  pub decrypt-encrypt_in_step :
      (new_dh : Bytes) (a b : DoubleRatchet) (text c tag : Bytes) (chain : ChainKey)
      (mk : MessageKey)
      → Follows a b
      → next p a.sending_chain ≡ ok (chain, mk)
      → encrypt_chacha20 p mk.key mk.nonce text [] ≡ ok (c, tag)
      → (encrypt p a text ≡ (record a { sending_chain = chain }, ok (c, header_of a)))
        × (decrypt p new_dh b c (header_of a)
            ≡ (record b { receiving_chain = some chain }, open_with p (ok mk) c))
  unfolding decrypt to_dh_public
  decrypt-encrypt_in_step new_dh a b text c tag chain mk f e sealed =
      let same : bytes_eq a.sending_dh_public b.remote_dh_public ≡ true =
        (bytes_eq_iff _ _).1 (sym f.remote) in
      let key = receiving_key_in_order a b a.sending_dh_public chain mk f e in
      (encrypt-header_of a b text c tag chain mk f e sealed, ground arith)

module _ (p : Primitives) (aead : IsAead p) where
  -- The text is decrypted if the tag that the sender dropped was sixteen zeros, and no other
  -- message is: there is an error for every other tag.
  pub decrypt-encrypt_tag :
      (new_dh : Bytes) (a b : DoubleRatchet) (text c tag : Bytes) (chain : ChainKey)
      (mk : MessageKey)
      → Follows a b
      → next p a.sending_chain ≡ ok (chain, mk)
      → encrypt_chacha20 p mk.key mk.nonce text [] ≡ ok (c, tag)
      → ((tag ≡ zeros_16) × ((decrypt p new_dh b c (header_of a)).1 ≡ ok text))
        ⊎ ((tag ≢ zeros_16)
            × ((decrypt p new_dh b c (header_of a)).1
                ≡ err (decryption_failed "decryption failed")))
  unfolding open_with encrypt_chacha20 decrypt_chacha20
  decrypt-encrypt_tag new_dh a b text c tag chain mk f e sealed =
      let received =
        ap (λ r. r.1) (decrypt-encrypt_in_step p new_dh a b text c tag chain mk f e sealed).1 in
      elim (Bool-cases (bytes_eq tag zeros_16)) [
        | inl zero ↦
            let z = (bytes_eq_iff tag zeros_16).0 zero in
            let opened =
              decrypt-encrypt p aead cha_cha20_poly1305 mk.key mk.nonce [] text c tag sealed in
            inl (z, ground arith)
        | inr other ↦
            let ne : tag ≢ zeros_16 = λ z. ground (arith, (bytes_eq_iff tag zeros_16).1 z) in
            let refused =
              decrypt_other_tag p aead cha_cha20_poly1305 mk.key mk.nonce [] text c tag zeros_16
                sealed refl (λ z. ne (sym z)) in
            inr (ne, ground arith)
      ]
