-- ===== src/Session/Messages.antt =====
-- crates/messenger/src/client.rs: `send_message` and the handling of what arrives. A call returns
-- the state that it leaves beside its result, also when it fails. The text of an error of
-- serde_json is left open: the name of the crate stands for it.
use shadowgram.Base.{
  ℕ, ◌+◌, ◌%◌, String, Bool, Option, none, some, List, [], ◌∷◌, Bytes, any, ◌==◌, if◌then◌else◌,
  u64_mod, insert, lookup, string_Eq, Result,
}
use shadowgram.Base
use shadowgram.Base.Outcome.{Outcome, ok, err, panicked}
use shadowgram.Crypto.Aead.{encrypt_chacha20, decrypt_chacha20, cipher_message}
use shadowgram.Envelope.{NetworkEnvelope, pad_to_constant_size}
use shadowgram.Envelope
use shadowgram.Session.{
  Message, MessageStatus, MessageDirection, ClientError, identity_error, crypto_error,
  session_not_found, message_error, serialization_error, DirectSession, DirectMessagePayload,
  Services, Client,
}
use shadowgram.Session.Keys.{sequence_nonce}

-- `seen_incoming_sequences.contains(&n)`
abbrev pub has_seen : ℕ → DirectSession → Bool
has_seen n session = any (λ m. m == n) session.seen_incoming_sequences

-- The message as the sender and the receiver keep it.
abbrev pub as_sent : Message → Message
as_sent m = record m { direction = MessageDirection.outgoing; status = MessageStatus.sent }

abbrev pub as_delivered : Message → Message
as_delivered m = record m {
  direction = MessageDirection.incoming;
  status = MessageStatus.delivered;
}

module _ (Db : Type 0) (services : Services Db) where
  open services use {
    primitives, message_to_json, message_from_json, payload_to_json, payload_from_json,
    persist_message,
  }

  -- The steps behind the persisted message: the counter moves before the payload is written.
  unfoldable pub post :
      (ℕ → Bytes)
      → ℕ
      → Client Db
      → String
      → DirectSession
      → Bytes
      → Bytes
      → Bytes
      → Client Db × Outcome NetworkEnvelope ClientError
  post fill now c contact session nonce ciphertext tag = elim c.fingerprint [
    | none ↦ (c, err (identity_error "Identity not loaded"))
    | some sender ↦
        let payload : DirectMessagePayload = record {
          sender_fingerprint = sender;
          recipient_fingerprint = contact;
          conversation_id = session.conversation_id;
          sequence = session.send_counter;
          nonce = nonce;
          ciphertext = ciphertext;
          tag = tag;
        } in
        let session' = record session { send_counter = (session.send_counter + 1) % u64_mod } in
        (
          record c { direct_sessions = insert contact session' c.direct_sessions },
          elim (payload_to_json payload) [
            | none ↦ err (serialization_error "serde_json")
            | some json ↦ ok (
                pad_to_constant_size fill (Envelope.new now Envelope.MessageType.message json) 1024)
          ],
        )
  ]

  unfoldable pub send_in :
      (ℕ → Bytes)
      → ℕ
      → Client Db
      → String
      → DirectSession
      → Message
      → Client Db × Outcome NetworkEnvelope ClientError
  send_in fill now c contact session message = elim (message_to_json message) [
    | none ↦ (c, err (serialization_error "serde_json"))
    | some plaintext ↦
        let nonce = sequence_nonce session.send_counter 1 in
        elim (encrypt_chacha20 primitives session.send_key nonce plaintext
          session.conversation_id) [
            | panicked ↦ (c, panicked)
            | err e ↦ (c, err (crypto_error (cipher_message e)))
            | ok (ciphertext, tag) ↦
                let (db, kept) =
                  persist_message c.database session.conversation_id
                    ((session.send_counter + 1) % u64_mod) (as_sent message) in
                let c' = record c { database = db } in
                elim kept [
                  | Base.err e ↦ (c', err e)
                  | Base.ok done ↦ post fill now c' contact session nonce ciphertext tag
                ]
          ]
  ]

  -- Of the random padding and the time.
  unfoldable pub send_message :
      (ℕ → Bytes)
      → ℕ
      → Client Db
      → String
      → Message
      → Client Db × Outcome NetworkEnvelope ClientError
  send_message fill now c contact message = elim (lookup contact c.direct_sessions) [
    | none ↦ (c, err (session_not_found contact))
    | some session ↦ send_in fill now c contact session message
  ]

  -- The message in a payload: decrypted, then parsed.
  unfoldable pub open_payload : DirectSession → DirectMessagePayload → Result Message ClientError
  open_payload session payload =
      elim (decrypt_chacha20 primitives session.receive_key payload.nonce payload.ciphertext
        payload.tag payload.conversation_id) [
          | Base.err e ↦ Base.err (crypto_error (cipher_message e))
          | Base.ok plaintext ↦ elim (message_from_json plaintext) [
            | none ↦ Base.err (serialization_error "serde_json")
            | some message ↦ Base.ok message
          ]
        ]

  -- The sequence counts as seen before the payload is decrypted.
  unfoldable pub handle_payload :
      Client Db → DirectMessagePayload → Client Db × Result (Unit {0}) ClientError
  handle_payload c payload = elim (lookup payload.sender_fingerprint c.direct_sessions) [
    | none ↦ (c, Base.err (session_not_found payload.sender_fingerprint))
    | some session ↦
        if has_seen payload.sequence session
        then (c, Base.err (message_error "Replay detected for sequence {}" (payload.sequence ∷ [])))
        else let session' = record session {
          seen_incoming_sequences = payload.sequence ∷ session.seen_incoming_sequences;
        } in
          let c' = record c {
            direct_sessions = insert payload.sender_fingerprint session' c.direct_sessions;
          } in
          elim (open_payload session payload) [
            | Base.err e ↦ (c', Base.err e)
            | Base.ok message ↦
                let (db, kept) =
                  persist_message c'.database payload.conversation_id
                    ((payload.sequence + 1) % u64_mod) (as_delivered message) in
                (record c' { database = db }, kept)
          ]
  ]

  unfoldable pub handle_incoming_message :
      Client Db → NetworkEnvelope → Client Db × Result (Unit {0}) ClientError
  handle_incoming_message c envelope = elim (payload_from_json envelope.payload) [
    | none ↦ (c, Base.err (serialization_error "serde_json"))
    | some payload ↦ handle_payload c payload
  ]
