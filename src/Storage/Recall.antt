-- ===== src/Storage/Recall.antt =====
-- crates/messenger/src/client.rs: a message that was kept is read back, before the older ones.
use shadowgram.Base.{
  ◌≡◌, refl, sym, ap, ◌∙◌, ℕ, zero, suc, ◌+◌, ◌≤◌, ◌<◌, String, Bool, true, Option, none, some,
  List, [], ◌∷◌, ◌++◌, Bytes, All, take, drop, map, retain, retain-append, Option-cases, Bool-cases,
  Result-cases, inl, inr, arith, bytes_eq_iff, ◌===◌, bytes_Eq,
}
use mathlib.Core.List.{map-append}
use shadowgram.Base
use shadowgram.Base.Outcome.{ok, Outcome-cases}
use shadowgram.Crypto.{IsAead, cha_cha20_poly1305}
use shadowgram.Crypto.Aead.{encrypt_chacha20, decrypt_chacha20}
use shadowgram.Crypto.Sealing.{decrypt-encrypt}
use shadowgram.Database.{Database, Tables, MessageRow, with_conn}
use shadowgram.Database.Queries.{order_by, page}
use shadowgram.Database.Messages.{
  ensure_conversation, store_message, rows_of, is_later, get_messages,
}
use shadowgram.Database.Ordering.{order_by-latest}
use shadowgram.Session.{Message}
use shadowgram.Storage.{
  StorageServices, StoredBlob, Store, Disk, ensure_storage_key, encrypt_blob, decrypt_blob,
  direction_code, status_code,
}
use shadowgram.Storage.Messages.{persist_message, persist_with, load_row, load_rows, load_messages}

-- Messages and blobs are read back as they were written.
pub record ReadsStored (services : StorageServices) : Type 0 where
  pub message :
      (m : Message) (json : Bytes)
      → services.message_to_json m ≡ some json
      → services.message_from_json json ≡ some m
  pub blob :
      (b : StoredBlob) (bytes : Bytes)
      → services.blob_to_bytes b ≡ some bytes
      → services.blob_from_bytes bytes ≡ some b

take-take {ℓ} : {A : Type ℓ} (n : ℕ) (xs : List A) → take n (take (suc n) xs) ≡ take n xs
take-take zero xs = refl
take-take (suc n) [] = refl
take-take (suc n) (x ∷ xs) = ap (◌∷◌ x) (take-take n xs)

module _ (services : StorageServices) (aead : IsAead services.primitives)
    (reads : ReadsStored services) where
  open services use {message_to_json, blob_to_bytes}

  decrypt_blob-encrypt_blob :
      (nonce key aad text blob : Bytes)
      → encrypt_blob services nonce key aad text ≡ ok blob
      → decrypt_blob services key aad blob ≡ Base.ok text
  unfolding encrypt_blob decrypt_blob encrypt_chacha20 decrypt_chacha20
  decrypt_blob-encrypt_blob nonce key aad text blob h =
      elim (Outcome-cases (encrypt_chacha20 services.primitives key nonce text aad)) [
        | inr (inr bad) ↦ absurd (ground arith)
        | inr (inl (_, bad)) ↦ absurd (ground arith)
        | inl ((c, tag), sealed) ↦
            let b : StoredBlob = record { nonce = nonce; ciphertext = c; tag = tag } in
            let opened =
              decrypt-encrypt services.primitives aead cha_cha20_poly1305 key nonce aad text c tag
                sealed in
            elim (Option-cases (blob_to_bytes b)) [
              | inl bad ↦ absurd (ground arith)
              | inr (bytes, written) ↦
                  let read = reads.blob b bytes written in ground (arith, opened, read)
            ]
      ]

  load_rows-take :
      (key id : Bytes) (n : ℕ) (rows : List MessageRow) (ms : List Message)
      → load_rows services key id rows ≡ Base.ok ms
      → load_rows services key id (take n rows) ≡ Base.ok (take n ms)
  unfolding load_rows
  load_rows-take key id zero rows ms h = refl
  load_rows-take key id (suc n) [] ms h = ground arith
  load_rows-take key id (suc n) (r ∷ rows) ms h =
      elim (Result-cases (load_rows services key id rows)) [
        | inr (_, bad) ↦ absurd (ground arith)
        | inl (rest, good) ↦ ground (arith, load_rows-take key id n rows rest good)
      ]

  -- What a message that was kept leaves in the tables.
  record IsKept (disk : Disk) (fresh nonce : Bytes) (now : ℕ) (s : Store) (db : Database)
      (t : Tables) (key id : Bytes) (sequence : ℕ) (message : Message) : Type 0 where
    json : Bytes
    row : MessageRow
    tables : Tables
    written : message_to_json message ≡ some json
    sealed : encrypt_blob services nonce key id json ≡ ok row.envelope
    at : row.sequence ≡ sequence
    messages : tables.messages ≡ t.messages ++ (id, row) ∷ []
    after :
        (persist_message services disk fresh nonce now s id sequence message).0
        ≡ record s { database = some (record db { conn = some tables }) }

  persist_message-IsKept :
      (disk : Disk) (fresh nonce : Bytes) (now : ℕ) (s : Store) (db : Database) (t : Tables)
      (key id : Bytes) (sequence : ℕ) (message : Message)
      → s.database ≡ some db
      → db.conn ≡ some t
      → s.storage_key ≡ some key
      → (persist_message services disk fresh nonce now s id sequence message).1 ≡ ok tt
      → IsKept disk fresh nonce now s db t key id sequence message
  unfolding persist_message persist_with with_conn ensure_storage_key ensure_conversation
      store_message
  persist_message-IsKept disk fresh nonce now s db t key id sequence message base conn has h =
      let ensured = ensure_conversation now t id 1 none s.fingerprint in
      elim (Result-cases ensured.1) [
        | inr (_, bad) ↦ absurd (ground arith)
        | inl (_, good) ↦ elim (Option-cases (message_to_json message)) [
          | inl bad ↦ absurd (ground arith)
          | inr (json, written) ↦ elim (Outcome-cases (encrypt_blob services nonce key id json)) [
            | inr (inr bad) ↦ absurd (ground arith)
            | inr (inl (_, bad)) ↦ absurd (ground arith)
            | inl (encrypted, sealed) ↦
                let d = direction_code message.direction in
                let st = status_code message.status in
                record {
                  json = json;
                  row = record {
                    sequence = sequence;
                    direction = d;
                    envelope = encrypted;
                    status = st;
                    received_at = now;
                  };
                  tables = (store_message now ensured.0 id sequence d encrypted st).0;
                  written = written;
                  sealed = sealed;
                  at = refl;
                  messages = ground arith;
                  after = ground arith;
                }
          ]
        ]
      ]

  rows_of-snoc :
      (t t' : Tables) (id : Bytes) (row : MessageRow)
      → t'.messages ≡ t.messages ++ (id, row) ∷ []
      → rows_of t' id ≡ rows_of t id ++ row ∷ []
  unfolding rows_of retain
  rows_of-snoc t t' id row h =
      let ours : Bytes × MessageRow → Bool = λ m. m.0 === id in
      let last : List (Bytes × MessageRow) = (id, row) ∷ [] in
      rw
        (
          h,
          retain-append ours t.messages last,
          map-append (λ m. m.1) (retain ours t.messages) (retain ours last),
          (bytes_eq_iff id id).1 refl,
        )
        refl

  load_messages_lem :
      (disk : Disk) (fresh : Bytes) (s : Store) (db : Database) (t : Tables) (key id : Bytes)
      → s.database ≡ some db
      → db.conn ≡ some t
      → s.storage_key ≡ some key
      → (load_messages services disk fresh s id).1
        ≡ load_rows services key id (take 200 (order_by is_later (rows_of t id)))
  unfolding load_messages with_conn get_messages page ensure_storage_key
  load_messages_lem disk fresh s db t key id base conn has = ground arith

  load_row-IsKept :
      (key id nonce json : Bytes) (row : MessageRow) (message : Message)
      → message_to_json message ≡ some json
      → encrypt_blob services nonce key id json ≡ ok row.envelope
      → load_row services key id row ≡ Base.ok message
  unfolding load_row
  load_row-IsKept key id nonce json row message written sealed = ground (
    arith,
    decrypt_blob-encrypt_blob nonce key id json row.envelope sealed,
    reads.message message json written,
  )

  load_rows-cons :
      (key id : Bytes) (row : MessageRow) (rows : List MessageRow) (m : Message) (ms : List Message)
      → load_row services key id row ≡ Base.ok m
      → load_rows services key id rows ≡ Base.ok ms
      → load_rows services key id (row ∷ rows) ≡ Base.ok (m ∷ ms)
  unfolding load_rows
  load_rows-cons key id row rows m ms head tail = ground arith

  -- A message that a client keeps, with a sequence above those of its conversation, is what it
  -- reads first, before the up to 199 messages that it read first before.
  pub load_messages-persist_message :
      (disk disk' : Disk) (fresh fresh' nonce : Bytes) (now : ℕ) (s : Store) (db : Database)
      (t : Tables) (key id : Bytes) (sequence : ℕ) (message : Message) (ms : List Message)
      → s.database ≡ some db
      → db.conn ≡ some t
      → s.storage_key ≡ some key
      → All (λ row. row.sequence < sequence) (rows_of t id)
      → (load_messages services disk fresh s id).1 ≡ Base.ok ms
      → (persist_message services disk' fresh' nonce now s id sequence message).1 ≡ ok tt
      → (load_messages services disk fresh
          (persist_message services disk' fresh' nonce now s id sequence message).0
          id).1
        ≡ Base.ok (message ∷ take 199 ms)
  load_messages-persist_message disk disk' fresh fresh' nonce now s db t key id sequence message ms
        base conn has older loaded h =
      let kept =
        persist_message-IsKept disk' fresh' nonce now s db t key id sequence message base conn has
          h in
      let before = order_by is_later (rows_of t id) in
      let old : load_rows services key id (take 200 before) ≡ Base.ok ms =
        sym (load_messages_lem disk fresh s db t key id base conn has) ∙ loaded in
      let tail : load_rows services key id (take 199 before) ≡ Base.ok (take 199 ms) =
        ap (load_rows services key id) (sym (take-take 199 before))
        ∙ load_rows-take key id 199 (take 200 before) ms old in
      let head = load_row-IsKept key id nonce kept.json kept.row message kept.written kept.sealed in
      let later : All (λ n. n.sequence < kept.row.sequence) (rows_of t id) = rw kept.at older in
      let order : order_by is_later (rows_of kept.tables id) ≡ kept.row ∷ before =
        ap (order_by is_later) (rows_of-snoc t kept.tables id kept.row kept.messages)
        ∙ order_by-latest kept.row (rows_of t id) later in
      let db' : Database = record db { conn = some kept.tables } in
      let s' : Store = record s { database = some db' } in
      ap (λ (s'' : Store). (load_messages services disk fresh s'' id).1) kept.after
      ∙ load_messages_lem disk fresh s' db' kept.tables key id refl refl has
      ∙ ap (λ rows. load_rows services key id (take 200 rows)) order
      ∙ load_rows-cons key id kept.row (take 199 before) message (take 199 ms) head tail
