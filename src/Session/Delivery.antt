-- ===== src/Session/Delivery.antt =====
-- crates/messenger/src/client.rs: a direct message from one client to the other.
use shadowgram.Base.{
  ℕ, ◌+◌, ◌%◌, ◌≡◌, String, some, ◌∷◌, Bytes, u64_mod, insert, lookup, string_Eq, Result,
}
use shadowgram.Base.Outcome.{ok}
use shadowgram.Crypto.Aead.{encrypt_chacha20}
use shadowgram.Envelope.{NetworkEnvelope}
use shadowgram.Envelope
use shadowgram.Session.{Message, ClientError, DirectSession, DirectMessagePayload, Services, Client}
use shadowgram.Session.Keys.{sequence_nonce}
use shadowgram.Session.Messages.{as_delivered}

-- JSON is read back as it was written.
pub record ReadsJson {Db : Type 0} (services : Services Db) : Type 0 where
  pub message :
      (m : Message) (json : Bytes)
      → services.message_to_json m ≡ some json
      → services.message_from_json json ≡ some m
  pub payload :
      (p : DirectMessagePayload) (json : Bytes)
      → services.payload_to_json p ≡ some json
      → services.payload_from_json json ≡ some p

module _ (Db : Type 0) (services : Services Db) where
  open services use {primitives, message_to_json, payload_to_json}

  -- The payload of an envelope that was sent.
  abbrev payload_of : String → String → DirectSession → Bytes → Bytes → DirectMessagePayload
  payload_of sender contact session ciphertext tag = record {
    sender_fingerprint = sender;
    recipient_fingerprint = contact;
    conversation_id = session.conversation_id;
    sequence = session.send_counter;
    nonce = sequence_nonce session.send_counter 1;
    ciphertext = ciphertext;
    tag = tag;
  }

  record IsSent (sender contact : String) (session : DirectSession) (message : Message)
      (env : NetworkEnvelope) (c : Client Db) : Type 0 where
    plaintext : Bytes
    ciphertext : Bytes
    tag : Bytes
    written : message_to_json message ≡ some plaintext
    sealed :
        encrypt_chacha20 primitives session.send_key
          (sequence_nonce session.send_counter 1)
          plaintext
          session.conversation_id
        ≡ ok (ciphertext, tag)
    json : payload_to_json (payload_of sender contact session ciphertext tag) ≡ some env.payload
    counted :
        lookup contact c.direct_sessions
        ≡ some (record session { send_counter = (session.send_counter + 1) % u64_mod })

  -- The client after a message of the sender was delivered.
  abbrev pub delivered :
      Client Db
      → String
      → DirectSession
      → Bytes
      → ℕ
      → Message
      → Client Db × Result (Unit {0}) ClientError
  delivered c sender session conversation sequence message =
      let kept =
        services.persist_message c.database conversation ((sequence + 1) % u64_mod)
          (as_delivered message) in
      (
        record c {
          direct_sessions =
              insert sender
                (record session {
                  seen_incoming_sequences = sequence ∷ session.seen_incoming_sequences;
                })
                c.direct_sessions;
          database = kept.0;
        },
        kept.1,
      )
