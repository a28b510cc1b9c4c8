-- ===== src/KeyExchange/Agreement.antt =====
-- crates/crypto/src/key_exchange.rs: both ends of a hybrid exchange have the same secret.
use shadowgram.Base.{◌≡◌, refl, Bytes, length, some, ok}
use shadowgram.Crypto.{Primitives}
use shadowgram.KeyExchange.{
  Kem, decoded, generate_initiator, initiator_finish, new_responder, from_initiator, from_responder,
  parse_initiator_x25519, parse_initiator_mlkem_key, parse_responder_ciphertext,
}

-- What X25519, ML-KEM-768 (FIPS 203) and base64 document: the two ends of an exchange of
-- Diffie and Hellman compute the same, a ciphertext is decapsulated to the key that was
-- encapsulated, the sizes are fixed, and what is encoded is decoded.
pub record IsExchange (p : Primitives) (kem : Kem) : Type 0 where
  pub public_size : (s : Bytes) → length s ≡ 32 → length (p.dh_public s) ≡ 32
  pub commutes :
      (s r : Bytes)
      → length s ≡ 32
      → length r ≡ 32
      → p.diffie_hellman s (p.dh_public r) ≡ p.diffie_hellman r (p.dh_public s)
  pub key_size : (seed : Bytes) → length (kem.encapsulation_key (kem.from_seed seed)) ≡ 1184
  pub reads_key :
      (seed : Bytes)
      → kem.key_of_bytes (kem.encapsulation_key (kem.from_seed seed))
        ≡ some (kem.encapsulation_key (kem.from_seed seed))
  pub ciphertext_size :
      (seed m : Bytes)
      → length m ≡ 32
      → length (kem.encapsulate_deterministic (kem.encapsulation_key (kem.from_seed seed)) m).0
        ≡ 1088
  pub opens :
      (seed m : Bytes)
      → length m ≡ 32
      → kem.decapsulate
          (kem.from_seed seed)
          (kem.encapsulate_deterministic (kem.encapsulation_key (kem.from_seed seed)) m).0
        ≡ (kem.encapsulate_deterministic (kem.encapsulation_key (kem.from_seed seed)) m).1
  pub reads_base64 : (bytes : Bytes) → kem.decode (kem.encode bytes) ≡ some bytes

module _ (p : Primitives) (kem : Kem) (is : IsExchange p kem) where
  pub parse-from_initiator :
      (secret seed : Bytes)
      → length secret ≡ 32
      → (parse_initiator_x25519 p kem
            (from_initiator p kem (p.dh_public secret) (kem.encapsulation_key (kem.from_seed seed)))
          ≡ ok (p.dh_public secret))
        × (parse_initiator_mlkem_key p kem (
              from_initiator p kem
                (p.dh_public secret)
                (kem.encapsulation_key (kem.from_seed seed)))
            ≡ ok (kem.encapsulation_key (kem.from_seed seed)))
  unfolding parse_initiator_x25519 parse_initiator_mlkem_key from_initiator decoded
  parse-from_initiator secret seed h = (
    rw (is.reads_base64 (p.dh_public secret), is.public_size secret h) refl,
    rw
        (
          is.reads_base64 (kem.encapsulation_key (kem.from_seed seed)),
          is.key_size seed,
          is.reads_key seed,
        )
        refl,
  )

  pub parse-from_responder :
      (secret key seed m : Bytes)
      → length secret ≡ 32
      → length m ≡ 32
      → (parse_initiator_x25519 p kem (
            from_responder p kem
              (p.dh_public secret)
              key
              (kem.encapsulate_deterministic (kem.encapsulation_key (kem.from_seed seed)) m).0)
          ≡ ok (p.dh_public secret))
        × (parse_responder_ciphertext p kem (
              from_responder p kem
                (p.dh_public secret)
                key
                (kem.encapsulate_deterministic (kem.encapsulation_key (kem.from_seed seed)) m).0)
            ≡ ok (kem.encapsulate_deterministic (kem.encapsulation_key (kem.from_seed seed)) m).0)
  unfolding parse_initiator_x25519 parse_responder_ciphertext from_responder decoded
  parse-from_responder secret key seed m h k =
      let ct = (kem.encapsulate_deterministic (kem.encapsulation_key (kem.from_seed seed)) m).0 in
      (
        rw (is.reads_base64 (p.dh_public secret), is.public_size secret h) refl,
        rw (is.reads_base64 ct, is.ciphertext_size seed m k) refl,
      )

  -- The initiator's secret is the responder's.
  pub initiator_finish-new_responder :
      (secret seed secret' seed' m : Bytes)
      → length secret ≡ 32
      → length secret' ≡ 32
      → length m ≡ 32
      → (initiator_finish p kem
          (generate_initiator p kem secret seed)
          (p.dh_public secret')
          (new_responder p kem secret' seed' m
            (p.dh_public secret)
            (kem.encapsulation_key (kem.from_seed seed))).1).1
        ≡ ok
            (new_responder p kem secret' seed' m
              (p.dh_public secret)
              (kem.encapsulation_key (kem.from_seed seed))).0.shared_secret
  unfolding initiator_finish generate_initiator new_responder
  initiator_finish-new_responder secret seed secret' seed' m h h' k =
      rw (is.commutes secret secret' h h', is.opens seed m k) refl
