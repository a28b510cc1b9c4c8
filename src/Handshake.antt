-- ===== src/Handshake.antt =====
-- crates/messenger/src/client.rs: the key exchange of two clients, over the hybrid exchange of
-- crates/crypto/src/key_exchange.rs and the direct sessions. Secrets, seeds, padding and the time
-- are arguments; serde_json for handshake payloads is a parameter.
pub mod Completion
pub mod Takeover
mod Tests
use shadowgram.Base.{
  ◌>>=◌, ℕ, String, Bool, Option, none, some, List, [], ◌∷◌, ◌++◌, Bytes, Result, ok, err, insert,
  lookup, remove, contains_key, string_Eq, as_bytes,
}
use shadowgram.Crypto.{Primitives}
use shadowgram.Envelope.{NetworkEnvelope, pad_to_constant_size}
use shadowgram.Envelope
use shadowgram.KeyExchange.{
  derive_keys, HybridResponder, Kem, KeyExchangeMessage, KeyExchangeError, HybridKeypair,
  exchange_message, generate_initiator, initiator_finish, new_responder, from_initiator,
  from_responder, parse_initiator_x25519, parse_initiator_mlkem_key, parse_responder_ciphertext,
}
use shadowgram.Session.{
  Client, ClientError, crypto_error, session_not_found, message_error, serialization_error,
}
use shadowgram.Session.Keys.{SessionRole, derive_directional_session_keys, establish_direct_session}

pub data HandshakeStage : Type 0 where
  initiation response : HandshakeStage

pub record DirectHandshakePayload : Type 0 where
  pub sender_fingerprint : String
  pub recipient_fingerprint : String
  pub stage : HandshakeStage
  pub exchange : KeyExchangeMessage

-- What the exchange is built on: the crypto, the keyed hash of BLAKE3, and serde_json.
pub record Exchange : Type 0 where
  pub primitives : Primitives
  pub kem : Kem
  pub keyed_hash : Bytes → Bytes → Bytes
  pub to_json : DirectHandshakePayload → Option Bytes
  pub from_json : Bytes → Option DirectHandshakePayload

-- The part of the client that the exchange reads and writes.
pub record HandshakeClient (Db : Type 0) : Type 0 where
  pub client : Client Db
  pub pending_initiators : List (String × HybridKeypair)
  pub pending_responses : List NetworkEnvelope

-- `Vec::pop`: the last one, and the others.
unfoldable pub pop {ℓ} : {A : Type ℓ} → List A → Option (List A × A)
pop [] = none
pop (x ∷ xs) = elim (pop xs) [ none ↦ some ([], x) | some (rest, last) ↦ some (x ∷ rest, last) ]

-- `.map_err(|e| ClientError::CryptoError(e.to_string()))`
unfoldable pub crypto_result {ℓ} : {A : Type ℓ} → Result A KeyExchangeError → Result A ClientError
crypto_result (ok a) = ok a
crypto_result (err e) = err (crypto_error (exchange_message e))

module _ (Db : Type 0) (x : Exchange) where
  open x use {primitives, kem, keyed_hash, to_json, from_json}

  -- The padded envelope of a payload.
  unfoldable pub handshake_envelope :
      (ℕ → Bytes) → ℕ → DirectHandshakePayload → Result NetworkEnvelope ClientError
  handshake_envelope fill now payload = elim (to_json payload) [
    | none ↦ err (serialization_error "serde_json")
    | some json ↦
        ok (pad_to_constant_size fill (Envelope.new now Envelope.MessageType.handshake json) 1024)
  ]

  -- `identity` is the fingerprint of the identity given.
  unfoldable pub initiate_key_exchange :
      (ℕ → Bytes)
      → ℕ
      → Bytes
      → Bytes
      → HandshakeClient Db
      → String
      → String
      → HandshakeClient Db × Result NetworkEnvelope ClientError
  initiate_key_exchange fill now secret seed c identity contact_fingerprint =
      let keypair = generate_initiator primitives kem secret seed in
      let exchange =
        from_initiator primitives kem keypair.x25519_public keypair.mlkem_encapsulation_key in
      (
        record c { pending_initiators = insert contact_fingerprint keypair c.pending_initiators },
        handshake_envelope fill now (record {
          sender_fingerprint = identity;
          recipient_fingerprint = contact_fingerprint;
          stage = HandshakeStage.initiation;
          exchange = exchange;
        }),
      )

  unfoldable pub respond_to_key_exchange :
      HandshakeClient Db → HandshakeClient Db × Result NetworkEnvelope ClientError
  respond_to_key_exchange c = elim (pop c.pending_responses) [
    | none ↦ (c, err (message_error "No pending key exchange response" []))
    | some (rest, envelope) ↦ (record c { pending_responses = rest }, ok envelope)
  ]

  unfoldable pub is_session_established : HandshakeClient Db → String → Bool
  is_session_established c fingerprint = contains_key fingerprint c.client.direct_sessions

  -- The keys that both stages derive.
  abbrev session_context : Bytes
  session_context = as_bytes "shadowgram-direct-session"

  -- What the responder computes from an initiation: its part of the exchange and the key.
  unfoldable pub exchange_keys :
      Bytes
      → Bytes
      → Bytes
      → KeyExchangeMessage
      → Result ((HybridResponder × Bytes × Bytes) × Bytes) ClientError
  exchange_keys secret seed m exchange = do
    their_x25519 ← crypto_result (parse_initiator_x25519 primitives kem exchange)
    their_mlkem ← crypto_result (parse_initiator_mlkem_key primitives kem exchange)
    let made = new_responder primitives kem secret seed m their_x25519 their_mlkem
    key ← crypto_result (derive_keys primitives kem made.0.shared_secret session_context)
    ok (made, key)

  -- What the initiator computes from a response.
  unfoldable pub finish_keys : HybridKeypair → KeyExchangeMessage → Result Bytes ClientError
  finish_keys keypair exchange = do
    their_x25519 ← crypto_result (parse_initiator_x25519 primitives kem exchange)
    ciphertext ← crypto_result (parse_responder_ciphertext primitives kem exchange)
    shared ← crypto_result (initiator_finish primitives kem keypair their_x25519 ciphertext).1
    crypto_result (derive_keys primitives kem shared session_context)

  -- The responder's part: the secret, seed and randomness are its own.
  unfoldable pub handle_initiation :
      (ℕ → Bytes)
      → ℕ
      → Bytes
      → Bytes
      → Bytes
      → HandshakeClient Db
      → DirectHandshakePayload
      → HandshakeClient Db × Result (Unit {0}) ClientError
  handle_initiation fill now secret seed m c payload =
      elim (exchange_keys secret seed m payload.exchange) [
        | err e ↦ (c, err e)
        | ok (made, key) ↦
            let keys =
              derive_directional_session_keys keyed_hash key SessionRole.responder
                payload.sender_fingerprint payload.recipient_fingerprint in
            let c' = record c {
              client = establish_direct_session Db c.client payload.sender_fingerprint keys;
            } in
            elim (handshake_envelope fill now (record {
              sender_fingerprint = payload.recipient_fingerprint;
              recipient_fingerprint = payload.sender_fingerprint;
              stage = HandshakeStage.response;
              exchange = from_responder primitives kem made.2 made.0.mlkem_encapsulation_key made.1;
            })) [
              | err e ↦ (c', err e)
              | ok envelope ↦
                  (record c' { pending_responses = c'.pending_responses ++ envelope ∷ [] }, ok tt)
            ]
      ]

  -- The initiator's part: the pending key pair is gone whatever follows.
  unfoldable pub handle_response :
      HandshakeClient Db
      → DirectHandshakePayload
      → HandshakeClient Db × Result (Unit {0}) ClientError
  handle_response c payload = elim (lookup payload.sender_fingerprint c.pending_initiators) [
    | none ↦ (c, err (session_not_found "No pending initiator state for {}"))
    | some keypair ↦
        let c' = record c {
          pending_initiators = remove payload.sender_fingerprint c.pending_initiators;
        } in
        elim (finish_keys keypair payload.exchange) [
          | err e ↦ (c', err e)
          | ok key ↦
              let keys =
                derive_directional_session_keys keyed_hash key SessionRole.initiator
                  payload.recipient_fingerprint payload.sender_fingerprint in
              (
                record c' {
                  client = establish_direct_session Db c'.client payload.sender_fingerprint keys;
                },
                ok tt,
              )
        ]
  ]

  unfoldable pub handle_key_exchange :
      (ℕ → Bytes)
      → ℕ
      → Bytes
      → Bytes
      → Bytes
      → HandshakeClient Db
      → NetworkEnvelope
      → HandshakeClient Db × Result (Unit {0}) ClientError
  handle_key_exchange fill now secret seed m c envelope = elim (from_json envelope.payload) [
    | none ↦ (c, err (serialization_error "serde_json"))
    | some payload ↦ elim payload.stage [
      | initiation ↦ handle_initiation fill now secret seed m c payload
      | response ↦ handle_response c payload
    ]
  ]
