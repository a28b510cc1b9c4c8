-- ===== src/Session/Collision.antt =====
-- crates/messenger/src/client.rs: what is sent and what arrives are stored under the same numbers.
mod Tests
use shadowgram.Base.{
  ◌∷◌, ◌≡◌, ℕ, ◌+◌, ◌%◌, String, none, some, Bytes, u64_mod, insert, lookup, string_Eq,
  Option-cases, Result-cases, Bool-cases, inl, inr, arith,
}
use shadowgram.Base
use shadowgram.Base.Outcome.{err, Outcome-cases}
use shadowgram.Crypto.{IsAead, cha_cha20_poly1305}
use shadowgram.Crypto.Aead.{cipher_message, encrypt_chacha20}
use shadowgram.Crypto.Sealing.{encrypt_safe}
use shadowgram.Session.{
  Message, ClientError, serialization_error, crypto_error, DirectSession, DirectMessagePayload,
  Services, Client,
}
use shadowgram.Session.Keys.{sequence_nonce}
use shadowgram.Session.Messages.{
  as_sent, as_delivered, has_seen, send_message, send_in, handle_payload, open_payload,
}
use shadowgram.Session.Sequences.{lookup-insert_self}

-- The database keeps one message for a conversation and a sequence: where there is one, the next
-- one is refused and nothing changes.
abbrev pub KeepsOne : {Db : Type 0} → Services Db → Type 0
KeepsOne {Db} services =
    (db : Db) (conversation : Bytes) (sequence : ℕ) (first : Message)
    → (services.persist_message db conversation sequence first).1 ≡ Base.ok tt
    → (next : Message)
    → (e : ClientError) × (services.persist_message
          (services.persist_message db conversation sequence first).0 conversation sequence next
        ≡ ((services.persist_message db conversation sequence first).0, Base.err e))

module _ (Db : Type 0) (services : Services Db) where
  open services use {
    primitives, message_to_json, message_from_json, payload_from_json, persist_message,
  }

  -- What a payload that was handled with success leaves: the message, persisted, and the session.
  record IsKept (c : Client Db) (session : DirectSession) (p : DirectMessagePayload) : Type 0 where
    message : Message
    persisted :
        (persist_message c.database p.conversation_id ((p.sequence + 1) % u64_mod) message).1
        ≡ Base.ok tt
    database :
        (handle_payload Db services c p).0.database
        ≡ (persist_message c.database p.conversation_id ((p.sequence + 1) % u64_mod) message).0
    session' :
        lookup p.sender_fingerprint (handle_payload Db services c p).0.direct_sessions
        ≡ some (record session {
          seen_incoming_sequences = p.sequence ∷ session.seen_incoming_sequences;
        })

  handle_payload-IsKept :
      (c : Client Db) (session : DirectSession) (p : DirectMessagePayload)
      → lookup p.sender_fingerprint c.direct_sessions ≡ some session
      → (handle_payload Db services c p).1 ≡ Base.ok tt
      → IsKept c session p
  unfolding handle_payload
  handle_payload-IsKept c session p here h =
      let marked = record session {
        seen_incoming_sequences = p.sequence ∷ session.seen_incoming_sequences;
      } in
      let stored = lookup-insert_self p.sender_fingerprint marked c.direct_sessions in
      elim (Bool-cases (has_seen p.sequence session)) [
        | inl seen ↦ absurd (ground arith)
        | inr new ↦ elim (Result-cases (open_payload Db services session p)) [
          | inr (_, bad) ↦ absurd (ground arith)
          | inl (message, opened) ↦ record {
            message = as_delivered message;
            persisted = ground arith;
            database = ground arith;
            session' = ground (arith, stored);
          }
        ]
      ]

  -- A message that is refused by the database is not sent, and nothing changes.
  send_message_refused :
      (fill : ℕ → Bytes) (now : ℕ) (c : Client Db) (contact : String) (session : DirectSession)
      (message : Message)
      → IsAead primitives
      → lookup contact c.direct_sessions ≡ some session
      → ((m : Message)
          → (e : ClientError) × (persist_message c.database session.conversation_id
                ((session.send_counter + 1) % u64_mod)
                m
              ≡ (c.database, Base.err e)))
      → (e' : ClientError) × (send_message Db services fill now c contact message ≡ (c, err e'))
  unfolding send_message send_in encrypt_chacha20
  send_message_refused fill now c contact session message aead here refused =
      elim (Option-cases (message_to_json message)) [
        | inl bad ↦ (serialization_error "serde_json", ground arith)
        | inr (text, written) ↦
            elim (Outcome-cases (
              encrypt_chacha20 primitives session.send_key (sequence_nonce session.send_counter 1)
                text session.conversation_id)) [
                  | inr (inr bad) ↦
                      absurd (encrypt_safe primitives aead cha_cha20_poly1305 _ _ _ _ bad)
                  | inr (inl (failed, bad)) ↦ (crypto_error (cipher_message failed), ground arith)
                  | inl ((ciphertext, tag), sealed) ↦
                      let (e, kept) = refused (as_sent message) in (e, ground arith)
                ]
      ]

  -- When a message of the contact arrives whose sequence is the number of messages sent to it,
  -- and is kept in the conversation, the client cannot send to the contact any more: every
  -- message is refused, and the counter stays where it is.
  pub send_message-handle_payload :
      (fill : ℕ → Bytes) (now : ℕ) (c : Client Db) (session : DirectSession)
      (p : DirectMessagePayload) (message : Message)
      → IsAead primitives
      → KeepsOne services
      → lookup p.sender_fingerprint c.direct_sessions ≡ some session
      → p.sequence ≡ session.send_counter
      → p.conversation_id ≡ session.conversation_id
      → (handle_payload Db services c p).1 ≡ Base.ok tt
      → (e : ClientError) × (send_message Db services fill now
            (handle_payload Db services c p).0
            p.sender_fingerprint
            message
          ≡ ((handle_payload Db services c p).0, err e))
  send_message-handle_payload fill now c session p message aead one here same conversation h =
      let kept = handle_payload-IsKept c session p here h in
      let refused =
        one c.database p.conversation_id ((p.sequence + 1) % u64_mod) kept.message kept.persisted in
      let after = (handle_payload Db services c p).0 in
      let again : (m : Message)
          → (e : ClientError) × (persist_message after.database session.conversation_id
                ((session.send_counter + 1) % u64_mod) m
              ≡ (after.database, Base.err e)) =
        λ m. ((refused m).0, ground (arith, kept.database, (refused m).1)) in
      send_message_refused fill now after p.sender_fingerprint _ message aead kept.session' again
