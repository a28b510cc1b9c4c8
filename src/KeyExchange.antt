-- ===== src/KeyExchange.antt =====
-- crates/crypto/src/key_exchange.rs: the hybrid key exchange of X25519 and ML-KEM-768. The secrets,
-- seeds and the randomness of an encapsulation are arguments; ml-kem and base64 are a parameter,
-- with a base64 text as its bytes.
pub mod Agreement
pub mod Example
use shadowgram.Base.{
  ◌>>=◌, ok_or, ℕ, String, Option, none, some, ◌++◌, Bytes, Result, ok, err, length, ◌==◌,
  if◌then◌else◌, as_bytes,
}
use shadowgram.Base.Outcome.{Outcome}
use shadowgram.Crypto.{Primitives}
use shadowgram.Crypto.Kdf.{hkdf_sha256}

pub data KeyExchangeError : Type 0 where
  invalid_public_key : String → KeyExchangeError
  decapsulation_failed : KeyExchangeError
  encapsulation_failed : String → KeyExchangeError
  key_derivation_failed : KeyExchangeError
  serialization_error : String → KeyExchangeError

-- `e.to_string()`: the template of the message.
unfoldable pub exchange_message : KeyExchangeError → String
exchange_message (invalid_public_key s) = "Invalid public key: {0}"
exchange_message decapsulation_failed = "Decapsulation failed"
exchange_message (encapsulation_failed s) = "Encapsulation failed: {0}"
exchange_message key_derivation_failed = "Key derivation failed"
exchange_message (serialization_error s) = "Serialization error: {0}"

-- The operations of ml-kem on the bytes of its keys, and of base64.
pub record Kem : Type 0 where
  pub from_seed : Bytes → Bytes
  pub encapsulation_key : Bytes → Bytes
  pub key_of_bytes : Bytes → Option Bytes
  pub encapsulate_deterministic : Bytes → Bytes → Bytes × Bytes
  pub decapsulate : Bytes → Bytes → Bytes
  pub encode : Bytes → Bytes
  pub decode : Bytes → Option Bytes

pub record EphemeralX25519 : Type 0 where
  pub secret : Option Bytes
  pub public_key : Bytes

pub record MlKemKeypair : Type 0 where
  pub encapsulation_key : Bytes
  pub decapsulation_key : Bytes

pub record HybridKeypair : Type 0 where
  pub x25519_secret : Option Bytes
  pub x25519_public : Bytes
  pub mlkem_decapsulation_key : Option Bytes
  pub mlkem_encapsulation_key : Bytes

pub record SharedSecret : Type 0 where
  pub bytes : Bytes

pub record HybridResponder : Type 0 where
  pub x25519_public : Bytes
  pub mlkem_decapsulation_key : Option Bytes
  pub mlkem_encapsulation_key : Bytes
  pub mlkem_ciphertext : Bytes
  pub shared_secret : SharedSecret

pub record KeyExchangeMessage : Type 0 where
  pub x25519_public : Bytes
  pub mlkem_encapsulation_key : Bytes
  pub mlkem_ciphertext : Option Bytes

-- `bytes.try_into()` into an array of `n` bytes.
abbrev sized : ℕ → String → Bytes → Result Bytes KeyExchangeError
sized n message bytes = if length bytes == n then ok bytes else err (invalid_public_key message)

-- `BASE64_STANDARD.decode(…)`; the text of its error is left open.
unfoldable pub decoded : Option Bytes → Result Bytes KeyExchangeError
decoded none = err (invalid_public_key "base64")
decoded (some bytes) = ok bytes

module _ (p : Primitives) (kem : Kem) where
  unfoldable pub generate_ephemeral : Bytes → EphemeralX25519
  generate_ephemeral secret = record { secret = some secret; public_key = p.dh_public secret }

  -- `unwrap` panics on a secret that is gone.
  unfoldable pub ecdh_consume {ℓ} : {E : Type ℓ} → EphemeralX25519 → Bytes → Outcome Bytes E
  ecdh_consume self remote_public = elim self.secret [
    | none ↦ Outcome.panicked
    | some secret ↦ Outcome.ok (p.diffie_hellman secret remote_public)
  ]

  unfoldable pub generate_kem : Bytes → MlKemKeypair
  generate_kem seed = record {
    encapsulation_key = kem.encapsulation_key (kem.from_seed seed);
    decapsulation_key = kem.from_seed seed;
  }

  unfoldable pub encapsulate : Bytes → MlKemKeypair → Result (Bytes × Bytes) KeyExchangeError
  encapsulate m self = ok (kem.encapsulate_deterministic self.encapsulation_key m)

  unfoldable pub decapsulate : MlKemKeypair → Bytes → Result Bytes KeyExchangeError
  decapsulate self ciphertext = ok (kem.decapsulate self.decapsulation_key ciphertext)

  unfoldable pub generate_initiator : Bytes → Bytes → HybridKeypair
  generate_initiator x25519_secret seed = record {
    x25519_secret = some x25519_secret;
    x25519_public = p.dh_public x25519_secret;
    mlkem_decapsulation_key = some (kem.from_seed seed);
    mlkem_encapsulation_key = kem.encapsulation_key (kem.from_seed seed);
  }

  -- Both `take()`s leave no key behind.
  unfoldable pub initiator_finish :
      HybridKeypair → Bytes → Bytes → HybridKeypair × Result SharedSecret KeyExchangeError
  initiator_finish self responder_x25519_public responder_mlkem_ciphertext =
      elim self.x25519_secret [
        | none ↦ (self, err decapsulation_failed)
        | some x25519_secret ↦
            let x25519_shared = p.diffie_hellman x25519_secret responder_x25519_public in
            let self' = record self { x25519_secret = none } in
            elim self'.mlkem_decapsulation_key [
              | none ↦ (self', err decapsulation_failed)
              | some key ↦ (
                record self' { mlkem_decapsulation_key = none },
                ok (record {
                  bytes = x25519_shared ++ kem.decapsulate key responder_mlkem_ciphertext;
                }),
              )
            ]
      ]

  -- The responder with the ciphertext and the public key to send.
  unfoldable pub new_responder :
      Bytes → Bytes → Bytes → Bytes → Bytes → HybridResponder × Bytes × Bytes
  new_responder x25519_secret seed m initiator_x25519_public initiator_mlkem_encapsulation_key =
      let x25519_shared = p.diffie_hellman x25519_secret initiator_x25519_public in
      let key = kem.from_seed seed in
      let (ciphertext, mlkem_shared) =
        kem.encapsulate_deterministic initiator_mlkem_encapsulation_key m in
      (
        record {
          x25519_public = p.dh_public x25519_secret;
          mlkem_decapsulation_key = some key;
          mlkem_encapsulation_key = kem.encapsulation_key key;
          mlkem_ciphertext = ciphertext;
          shared_secret = record { bytes = x25519_shared ++ mlkem_shared };
        },
        ciphertext,
        p.dh_public x25519_secret,
      )

  unfoldable pub derive_keys : SharedSecret → Bytes → Result Bytes KeyExchangeError
  derive_keys self context =
      elim (hkdf_sha256 p self.bytes (as_bytes "shadowgram-handshake") context) [
        | none ↦ err key_derivation_failed
        | some key ↦ ok key
      ]

  unfoldable pub from_initiator : Bytes → Bytes → KeyExchangeMessage
  from_initiator x25519_public mlkem_encapsulation_key = record {
    x25519_public = kem.encode x25519_public;
    mlkem_encapsulation_key = kem.encode mlkem_encapsulation_key;
    mlkem_ciphertext = none;
  }

  unfoldable pub from_responder : Bytes → Bytes → Bytes → KeyExchangeMessage
  from_responder x25519_public mlkem_encapsulation_key ciphertext = record {
    x25519_public = kem.encode x25519_public;
    mlkem_encapsulation_key = kem.encode mlkem_encapsulation_key;
    mlkem_ciphertext = some (kem.encode ciphertext);
  }

  unfoldable pub parse_initiator_x25519 : KeyExchangeMessage → Result Bytes KeyExchangeError
  parse_initiator_x25519 self = decoded (kem.decode self.x25519_public) >>= sized 32 "Wrong length"

  unfoldable pub parse_initiator_mlkem_key : KeyExchangeMessage → Result Bytes KeyExchangeError
  parse_initiator_mlkem_key self =
      decoded (kem.decode self.mlkem_encapsulation_key)
      >>= sized 1184 "Wrong ML-KEM key length"
      >>= λ bytes. ok_or (kem.key_of_bytes bytes) (invalid_public_key "Invalid ML-KEM key")

  unfoldable pub parse_responder_ciphertext : KeyExchangeMessage → Result Bytes KeyExchangeError
  parse_responder_ciphertext self =
      ok_or self.mlkem_ciphertext (invalid_public_key "No ciphertext")
      >>= (λ text. decoded (kem.decode text))
      >>= sized 1088 "Wrong ML-KEM ciphertext length"
