-- ===== src/Storage/Keeping.antt =====
-- crates/messenger/src/client.rs: the database of a client keeps one message for a conversation and
-- a sequence, as its sessions take it to do.
use shadowgram.Base.{
  ◌≡◌, refl, sym, ap, ℕ, String, Bool, true, false, not, ◌&&◌, Option, none, some, List, [], ◌∷◌,
  ◌++◌, Bytes, any, any-append, ltb, leb, Option-cases, Bool-cases, Result-cases, inl, inr, arith,
  bytes_eq_iff, ◌===◌, bytes_Eq,
}
use shadowgram.Base
use shadowgram.Base.Outcome.{Outcome, ok, err, panicked, Outcome-cases}
use shadowgram.Database.{Database, Tables, MessageRow, DbError, sql_error, with_conn}
use shadowgram.Database.Messages.{ensure_conversation, store_message, has_conversation, is_at}
use shadowgram.Session.{
  Message, ClientError, storage_error, crypto_error, serialization_error, Services,
}
use shadowgram.Database.Triggers.{any-map-arrived}
use shadowgram.Session.Collision.{KeepsOne}
use shadowgram.Storage.{
  StorageServices, Store, Disk, ensure_storage_key, encrypt_blob, direction_code, status_code,
}
use shadowgram.Storage.Messages.{persist_message, persist_with, storage_failure}

-- A message that was stored is at its place, in a conversation that is there, and no other one is
-- stored there.
store_message_again :
    (now now' : ℕ) (t : Tables) (id : Bytes) (sequence d d' : ℕ) (e e' : Bytes) (st st' : ℕ)
    → (store_message now t id sequence d e st).1 ≡ Base.ok tt
    → (failure : DbError) × (store_message now'
          (store_message now t id sequence d e st).0
          id
          sequence
          d'
          e'
          st'
        ≡ ((store_message now t id sequence d e st).0, Base.err failure))
unfolding store_message any
store_message_again now now' t id sequence d d' e e' st st' h =
    let row : MessageRow = record {
      sequence = sequence;
      direction = d;
      envelope = e;
      status = st;
      received_at = now;
    } in
    (
      sql_error "UNIQUE constraint failed: messages.conversation_id, messages.sequence",
      ground (
        arith,
        any-append (is_at id sequence) t.messages ((id, row) ∷ []),
        (bytes_eq_iff id id).1 refl,
      ),
    )

store_message-has_conversation :
    (now : ℕ) (t : Tables) (id : Bytes) (sequence d : ℕ) (e : Bytes) (st : ℕ)
    → (store_message now t id sequence d e st).1 ≡ Base.ok tt
    → has_conversation (store_message now t id sequence d e st).0 id ≡ true
unfolding store_message
store_message-has_conversation now t id sequence d e st h =
    ground (arith, any-map-arrived id d now id t.conversations)

-- What a session sees of a call on a database: the database and the result. A panic, which no call
-- makes, counts as an error.
abbrev pub seen :
    Database
    → Store × Outcome (Unit {0}) ClientError
    → Database × Base.Result (Unit {0}) ClientError
seen db (s, r) = (
  elim s.database [ none ↦ db | some db' ↦ db' ],
  elim r [ panicked ↦ Base.err (storage_error "panic") | err e ↦ Base.err e | ok u ↦ Base.ok u ],
)

module _ (services : StorageServices) (disk : Disk) (fresh : Bytes)
    (nonce : Bytes → ℕ → Message → Bytes) (clock : Bytes → ℕ → Message → ℕ) (s : Store) where
  open services use {message_to_json}

  -- `persist_message` as a call on the database of the client.
  unfoldable pub persist :
      Database → Bytes → ℕ → Message → Database × Base.Result (Unit {0}) ClientError
  persist db id sequence message = seen db (
      persist_message services disk fresh (nonce id sequence message) (clock id sequence message)
        (record s { database = some db }) id sequence message)

  record IsPersisted (db : Database) (id : Bytes) (sequence : ℕ) (message : Message) : Type 0 where
    tables : Tables
    encrypted : Bytes
    stored :
        (store_message
          (clock id sequence message)
          tables
          id
          sequence
          (direction_code message.direction)
          encrypted
          (status_code message.status)).1
        ≡ Base.ok tt
    after : (persist db id sequence message).0 ≡ record db {
      conn =
          some
            (store_message
              (clock id sequence message)
              tables
              id
              sequence
              (direction_code message.direction)
              encrypted
              (status_code message.status)).0;
    }

  persist-IsPersisted :
      (key : Bytes) (db : Database) (id : Bytes) (sequence : ℕ) (message : Message)
      → s.storage_key ≡ some key
      → (persist db id sequence message).1 ≡ Base.ok tt
      → IsPersisted db id sequence message
  unfolding persist persist_message persist_with with_conn ensure_storage_key
  persist-IsPersisted key db id sequence message has h = elim (Option-cases db.conn) [
    | inl nothing ↦ absurd (ground arith)
    | inr (t, conn) ↦
        let ensured = ensure_conversation (clock id sequence message) t id 1 none s.fingerprint in
        elim (Result-cases ensured.1) [
          | inr (_, bad) ↦ absurd (ground arith)
          | inl (_, good) ↦ elim (Option-cases (message_to_json message)) [
            | inl bad ↦ absurd (ground arith)
            | inr (json, written) ↦
                elim (Outcome-cases
                  (encrypt_blob services (nonce id sequence message) key id json)) [
                    | inr (inr bad) ↦ absurd (ground arith)
                    | inr (inl (_, bad)) ↦ absurd (ground arith)
                    | inl (encrypted, sealed) ↦ record {
                      tables = ensured.0;
                      encrypted = encrypted;
                      stored = ground arith;
                      after = ground arith;
                    }
                  ]
          ]
        ]
  ]

  persist_refused :
      (key : Bytes) (t : Tables) (db : Database) (id : Bytes) (sequence : ℕ) (message : Message)
      → s.storage_key ≡ some key
      → db.conn ≡ some t
      → has_conversation t id ≡ true
      → ((now d : ℕ) (e : Bytes) (st : ℕ)
          → (failure : DbError) × (store_message now t id sequence d e st ≡ (t, Base.err failure)))
      → (e : ClientError) × (persist db id sequence message ≡ (db, Base.err e))
  unfolding persist persist_message persist_with with_conn ensure_storage_key ensure_conversation
  persist_refused key t db id sequence message has conn there full =
      elim (Option-cases (message_to_json message)) [
        | inl bad ↦ (serialization_error "serde_json", ground arith)
        | inr (json, written) ↦
            elim (Outcome-cases (encrypt_blob services (nonce id sequence message) key id json)) [
              | inr (inr bad) ↦ (storage_error "panic", ground arith)
              | inr (inl (failed, bad)) ↦ (crypto_error failed, ground arith)
              | inl (encrypted, sealed) ↦
                  let (failure, refused) =
                    full (clock id sequence message) (direction_code message.direction) encrypted
                      (status_code message.status) in
                  (storage_failure failure, ground arith)
            ]
      ]

  -- Behind a message that the client kept at a sequence of a conversation no other one is kept
  -- there, and the database stays as it is.
  pub persist-persist :
      (key : Bytes) (db : Database) (id : Bytes) (sequence : ℕ) (first next : Message)
      → s.storage_key ≡ some key
      → (persist db id sequence first).1 ≡ Base.ok tt
      → (e : ClientError) × (persist (persist db id sequence first).0 id sequence next
          ≡ ((persist db id sequence first).0, Base.err e))
  persist-persist key db id sequence first next has h =
      let kept = persist-IsPersisted key db id sequence first has h in
      let now = clock id sequence first in
      let d = direction_code first.direction in
      let st = status_code first.status in
      let t = (store_message now kept.tables id sequence d kept.encrypted st).0 in
      persist_refused key t (persist db id sequence first).0 id sequence next has
        (ap (λ (db : Database). db.conn) kept.after)
        (store_message-has_conversation now kept.tables id sequence d kept.encrypted st kept.stored)
        (λ now' d' e' st'.
          store_message_again now now' kept.tables id sequence d d' kept.encrypted e' st st'
            kept.stored)

  -- The services of a session over the database of the client.
  abbrev pub client_services : Services Database → Services Database
  client_services sessions = record sessions { persist_message = persist }

  -- With its storage key the client has the database that the sessions take theirs to be.
  pub client_services-KeepsOne :
      (sessions : Services Database) (key : Bytes)
      → s.storage_key ≡ some key
      → KeepsOne (client_services sessions)
  client_services-KeepsOne sessions key has db id sequence first h next =
      persist-persist key db id sequence first next has h
