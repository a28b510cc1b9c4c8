-- ===== src/Storage/Success.antt =====
-- crates/messenger/src/client.rs: when a message is kept.
use shadowgram.Base.{
  ◌≡◌, refl, ℕ, Bool, true, false, not, ◌&&◌, ◌||◌, Option, none, some, List, [], ◌∷◌, ◌++◌, Bytes,
  any, ltb, leb, Bool-cases, inl, inr, arith, ◌↔◌, ◌===◌, bytes_Eq, bytes_eq_iff, any-append,
}
use shadowgram.Base
use shadowgram.Base.Outcome.{ok}
use shadowgram.Database.{Database, Tables, ConversationRow, DbError, sql_error, with_conn}
use shadowgram.Database.Queries.{i64_half}
use shadowgram.Database.Messages.{
  ensure_conversation, store_message, has_identity, has_conversation, is_at,
}
use shadowgram.Session.{Message}
use shadowgram.Storage.{StorageServices, Store, Disk, ensure_storage_key, encrypt_blob}
use shadowgram.Storage.Messages.{persist_message, persist_with}

-- A conversation is ensured exactly if it is there or the identity is; no message changes.
ensure_conversation_cases :
    (now : ℕ) (t : Tables) (id : Bytes) (own : Option Base.String)
    → ((ensure_conversation now t id 1 none own).0.messages ≡ t.messages)
      × (((has_conversation t id || has_identity t own) ≡ true)
          → ((ensure_conversation now t id 1 none own).1 ≡ Base.ok tt)
            × (has_conversation (ensure_conversation now t id 1 none own).0 id ≡ true))
      × (((has_conversation t id || has_identity t own) ≡ false)
          → (e : DbError) × ((ensure_conversation now t id 1 none own).1 ≡ Base.err e))
unfolding ensure_conversation any
ensure_conversation_cases now t id own =
    let row : ConversationRow = record {
      id = id;
      conversation_type = 1;
      peer_fingerprint = none;
      our_identity = own;
      last_message_at = now;
      unread_count = 0;
    } in
    let there = any-append (λ (c : ConversationRow). c.id === id) t.conversations (row ∷ []) in
    let self = (bytes_eq_iff id id).1 refl in
    elim (Bool-cases (has_conversation t id)) [
      | inl known ↦ (ground arith, λ h. (ground arith, ground arith), λ h. absurd (ground arith))
      | inr new ↦ elim (Bool-cases (has_identity t own)) [
        | inl own_there ↦ (
          ground arith,
          λ h. (ground arith, ground (arith, there, self)),
          λ h. absurd (ground arith),
        )
        | inr absent ↦ (
          ground arith,
          λ h. absurd (ground arith),
          λ h. (sql_error "FOREIGN KEY constraint failed", ground arith),
        )
      ]
    ]

-- What a message needs to be kept: a sequence that a signed word holds and that is free in the
-- conversation, and the conversation or the identity of the client in the tables.
abbrev pub can_store : Tables → Option Base.String → Bytes → ℕ → Bool
can_store t own id sequence =
    ltb sequence i64_half
    && not (any (is_at id sequence) t.messages)
    && (has_conversation t id || has_identity t own)

-- A client with a database and its key, whose message is written and encrypted, keeps the message
-- exactly if its sequence is below two to the 63, no message of the conversation has it, and the
-- conversation or the identity of the client is in the tables.
pub persist_message-can_store :
    (services : StorageServices) (disk : Disk) (fresh nonce : Bytes) (now : ℕ) (s : Store)
    (db : Database) (t : Tables) (key id : Bytes) (sequence : ℕ) (message : Message)
    (json encrypted : Bytes)
    → s.database ≡ some db
    → db.conn ≡ some t
    → s.storage_key ≡ some key
    → services.message_to_json message ≡ some json
    → encrypt_blob services nonce key id json ≡ ok encrypted
    → ((persist_message services disk fresh nonce now s id sequence message).1 ≡ ok tt)
      ↔ (can_store t s.fingerprint id sequence ≡ true)
unfolding persist_message persist_with with_conn ensure_storage_key store_message
persist_message-can_store services disk fresh nonce now s db t key id sequence message json
      encrypted base conn has written sealed =
    let (same, there, absent) = ensure_conversation_cases now t id s.fingerprint in
    elim (Bool-cases (has_conversation t id || has_identity t s.fingerprint)) [
      | inl known ↦ let (done, ensured) = there known in (λ h. ground arith, λ h. ground arith)
      | inr new ↦ let (e, failed) = absent new in (λ h. absurd (ground arith), λ h. ground arith)
    ]
