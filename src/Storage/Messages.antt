-- ===== src/Storage/Messages.antt =====
-- crates/messenger/src/client.rs: `persist_message`, `load_messages` and `get_pending_messages`.
use shadowgram.Base.{ℕ, String, Option, none, some, List, [], ◌∷◌, Bytes, lookup, string_Eq}
use shadowgram.Base
use shadowgram.Base.Outcome.{Outcome, ok, err, panicked}
use shadowgram.Database.{Database, MessageRow, DbError, db_message, with_conn}
use shadowgram.Database.Messages.{ensure_conversation, store_message, get_messages}
use shadowgram.Session.{
  Message, ClientError, storage_error, crypto_error, serialization_error, DirectSession,
}
use shadowgram.Storage.{
  StorageServices, Store, Disk, ensure_storage_key, encrypt_blob, decrypt_blob, direction_code,
  status_code,
}

-- `.map_err(|e| ClientError::StorageError(e.to_string()))`
abbrev pub storage_failure : DbError → ClientError
storage_failure e = storage_error (db_message e)

module _ (services : StorageServices) where
  open services use {message_to_json, message_from_json}

  -- The steps behind the key.
  unfoldable pub persist_with :
      Bytes
      → ℕ
      → Store
      → Database
      → Bytes
      → Bytes
      → ℕ
      → Message
      → Store × Outcome (Unit {0}) ClientError
  persist_with nonce now s db key conversation_id sequence message =
      elim (message_to_json message) [
        | none ↦ (s, err (serialization_error "serde_json"))
        | some serialized ↦ elim (encrypt_blob services nonce key conversation_id serialized) [
          | panicked ↦ (s, panicked)
          | err e ↦ (s, err (crypto_error e))
          | ok encrypted ↦
              let (db', stored) =
                with_conn
                  (λ t.
                    store_message now t conversation_id sequence (direction_code message.direction)
                      encrypted (status_code message.status))
                  db in
              let s' = record s { database = some db' } in
              elim stored [
                | Base.err e ↦ (s', err (storage_failure e))
                | Base.ok done ↦ (s', ok tt)
              ]
        ]
      ]

  -- Without a database nothing is kept.
  unfoldable pub persist_message :
      Disk
      → Bytes
      → Bytes
      → ℕ
      → Store
      → Bytes
      → ℕ
      → Message
      → Store × Outcome (Unit {0}) ClientError
  persist_message disk fresh nonce now s conversation_id sequence message = elim s.database [
    | none ↦ (s, ok tt)
    | some db ↦
        let (db', ensured) =
          with_conn (λ t. ensure_conversation now t conversation_id 1 none s.fingerprint) db in
        let s' = record s { database = some db' } in
        elim ensured [
          | Base.err e ↦ (s', err (storage_failure e))
          | Base.ok done ↦
              let (s'', key) = ensure_storage_key disk fresh s' in
              elim key [
                | Base.err e ↦ (s'', err e)
                | Base.ok k ↦ persist_with nonce now s'' db' k conversation_id sequence message
              ]
        ]
  ]

  -- The closure over the rows.
  unfoldable pub load_row : Bytes → Bytes → MessageRow → Base.Result Message ClientError
  load_row key conversation_id row = elim (decrypt_blob services key conversation_id row.envelope) [
    | Base.err e ↦ Base.err (crypto_error e)
    | Base.ok plaintext ↦ elim (message_from_json plaintext) [
      | none ↦ Base.err (serialization_error "serde_json")
      | some message ↦ Base.ok message
    ]
  ]

  -- `collect` into a `Result`: the first error is the answer.
  unfoldable pub load_rows :
      Bytes → Bytes → List MessageRow → Base.Result (List Message) ClientError
  load_rows key conversation_id [] = Base.ok []
  load_rows key conversation_id (row ∷ rows) =
      let rest = load_rows key conversation_id rows in
      elim (load_row key conversation_id row) [
        | Base.err e ↦ Base.err e
        | Base.ok message ↦ elim rest [
          | Base.err e ↦ Base.err e
          | Base.ok messages ↦ Base.ok (message ∷ messages)
        ]
      ]

  unfoldable pub load_messages :
      Disk → Bytes → Store → Bytes → Store × Base.Result (List Message) ClientError
  load_messages disk fresh s conversation_id = elim s.database [
    | none ↦ (s, Base.ok [])
    | some db ↦ elim (with_conn (λ t. get_messages t conversation_id 200 0) db).1 [
      | Base.err e ↦ (s, Base.err (storage_failure e))
      | Base.ok rows ↦
          let (s', key) = ensure_storage_key disk fresh s in
          elim key [
            | Base.err e ↦ (s', Base.err e)
            | Base.ok k ↦ (s', load_rows k conversation_id rows)
          ]
    ]
  ]

  -- `unwrap_or_default` hides an error.
  unfoldable pub get_pending_messages :
      Disk → Bytes → Store → List (String × DirectSession) → String → Store × List Message
  get_pending_messages disk fresh s direct_sessions contact =
      elim (lookup contact direct_sessions) [
        | none ↦ (s, [])
        | some session ↦
            let (s', loaded) = load_messages disk fresh s session.conversation_id in
            (s', elim loaded [ Base.err e ↦ [] | Base.ok messages ↦ messages ])
      ]
