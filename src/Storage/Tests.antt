-- ===== src/Storage/Tests.antt =====
-- crates/messenger/src/client.rs: the theorems at the database of a client with one conversation.
-- A blob of the tests is its ciphertext, behind a fixed nonce and tag.
use shadowgram.Base.{
  ℕ, ◌≡◌, refl, sym, ap, ◌∙◌, String, Bool, true, false, ◌&&◌, Option, none, some, List, [], ◌∷◌,
  ◌++◌, Bytes, bytes_eq, bytes_eq_iff, if◌then◌else◌, take, drop, any, retain, lookup, string_Eq,
  ◌↔◌, Bool-cases, inl, inr, arith,
}
use shadowgram.Base
use shadowgram.Base.Outcome.{ok}
use shadowgram.Crypto.Example.{primitives, primitives-IsAead, ones, open_ones}
use shadowgram.Crypto.Aead.{encrypt_chacha20, decrypt_chacha20, split_tag}
use shadowgram.Crypto.Aead
use shadowgram.Database.{Database, default_config, Tables, empty_tables, with_conn}
use shadowgram.Database.Queries.{insert_by, order_by, page, replace_row}
use shadowgram.Database.Messages.{
  has_conversation, ensure_conversation, arrived, store_message, rows_of, get_messages,
}
use shadowgram.Database.Identities.{store_identity}
use shadowgram.Database.Calls.{run, step, ensures, stores_message, stores_identity}
use shadowgram.Session.{Message, ClientError}
use shadowgram.Session.Example.{hello, is_hello, is_hello_lem, read_byte}
use shadowgram.Storage.{
  StorageServices, StoredBlob, Store, Disk, ensure_storage_key, load_master_key, encrypt_blob,
  decrypt_blob, direction_code, status_code,
}
use shadowgram.Storage.Messages.{
  persist_message, persist_with, load_row, load_rows, load_messages, get_pending_messages,
}
use shadowgram.Storage.Keeping.{persist, persist-persist}
use shadowgram.Contacts.{Contact, new_contact}
use shadowgram.Session.Keys.{SessionKeys, direct_conversation_id}
use shadowgram.Storage.Sessions.{LocalClient, add_contact, establish_session}
use shadowgram.Storage.Contacting.{establish_session-add_contact}
use shadowgram.Storage.Success.{can_store, persist_message-can_store}
use shadowgram.Storage.Recall.{ReadsStored, load_messages-persist_message}

abbrev twelve : Bytes
twelve = 7 ∷ 0 ∷ 0 ∷ 0 ∷ 0 ∷ 0 ∷ 0 ∷ 0 ∷ 0 ∷ 0 ∷ 0 ∷ 0 ∷ []

is_blob : StoredBlob → Bool
is_blob b = bytes_eq b.nonce twelve && bytes_eq b.tag ones

abbrev blob_of : Bytes → StoredBlob
blob_of bytes = record { nonce = twelve; ciphertext = bytes; tag = ones }

is_blob_lem : (b : StoredBlob) → is_blob b ≡ true → blob_of b.ciphertext ≡ b
unfolding is_blob
is_blob_lem b h = ground (arith, bytes_eq_iff b.nonce twelve, bytes_eq_iff b.tag ones)

abbrev services : StorageServices
services = record {
  primitives = primitives;
  message_to_json = λ m. if is_hello m then some (1 ∷ []) else none;
  message_from_json = read_byte hello;
  blob_to_bytes = λ b. if is_blob b then some b.ciphertext else none;
  blob_from_bytes = λ bytes. some (blob_of bytes);
}

message_read :
    (m : Message) (json : Bytes)
    → services.message_to_json m ≡ some json
    → services.message_from_json json ≡ some m
message_read m json h = elim (Bool-cases (is_hello m)) [
  | inr other ↦ absurd (ground arith)
  | inl same ↦
      let one : 1 ∷ [] ≡ json = ground arith in
      ap (read_byte hello) (sym one) ∙ ap some (sym (is_hello_lem m same))
]

blob_read :
    (b : StoredBlob) (bytes : Bytes)
    → services.blob_to_bytes b ≡ some bytes
    → services.blob_from_bytes bytes ≡ some b
blob_read b bytes h = elim (Bool-cases (is_blob b)) [
  | inr other ↦ absurd (ground arith)
  | inl same ↦
      let text : b.ciphertext ≡ bytes = ground arith in
      ap (λ bytes. some (blob_of bytes)) (sym text) ∙ ap some (is_blob_lem b same)
]

services-ReadsStored : ReadsStored services
services-ReadsStored = record { message = message_read; blob = blob_read }

abbrev tables : Tables
tables = run empty_tables (
    stores_identity 1 "alice" (1 ∷ []) (2 ∷ [])
    ∷ ensures 3 (9 ∷ []) 1 none (some "alice")
    ∷ stores_message 4 (9 ∷ []) 1 2 (1 ∷ []) 0
    ∷ [])

abbrev database : Database
database = record { conn = some tables; config = default_config (1 ∷ []); is_open = true }

abbrev alice : Store
alice = record {
  fingerprint = some "alice";
  database = some database;
  storage_key = some (3 ∷ []);
  db_key = none;
  master_key = none;
}

abbrev disk : Disk
disk = record { create_dir_all = true; read = true; write = true }

abbrev saved : Store
saved = (persist_message services disk [] twelve 5 alice (9 ∷ []) 2 hello).0

program : Unit {0}
unfolding any bytes_eq retain insert_by order_by page replace_row rows_of ensure_conversation
    arrived store_message store_identity run step get_messages with_conn is_blob is_hello
    encrypt_chacha20 decrypt_chacha20 Aead.encrypt Aead.decrypt split_tag open_ones
    ensure_storage_key encrypt_blob decrypt_blob direction_code status_code persist_message
    persist_with load_row load_rows load_messages
program = tt

abbrev no_key : Store
no_key = record alice { storage_key = none; master_key = some (1 ∷ 2 ∷ []) }

short_key_hidden :
    (get_pending_messages services disk [] no_key
      ((
        "bob",
        record {
          send_key = [];
          receive_key = [];
          conversation_id = 9 ∷ [];
          send_counter = 0;
          seen_incoming_sequences = [];
        },
      )
        ∷ [])
      "bob").1
    ≡ []
unfolding program get_pending_messages load_master_key lookup
short_key_hidden = refl

kept_first : (load_messages services disk [] alice (9 ∷ [])).1 ≡ Base.ok (hello ∷ [])
unfolding program
kept_first = refl

kept_next : (persist_message services disk [] twelve 5 alice (9 ∷ []) 2 hello).1 ≡ ok tt
unfolding program
kept_next = refl

load_messages-persist_message_example :
    (load_messages services disk [] saved (9 ∷ [])).1 ≡ Base.ok (hello ∷ take 199 (hello ∷ []))
unfolding program
load_messages-persist_message_example =
    load_messages-persist_message services primitives-IsAead services-ReadsStored disk disk [] []
      twelve 5 alice database tables (3 ∷ []) (9 ∷ []) 2 hello (hello ∷ []) refl refl refl
      (omega arith, tt) kept_first kept_next

persist_message-can_store_example :
    ((persist_message services disk [] twelve 5 alice (9 ∷ []) 2 hello).1 ≡ ok tt)
    ↔ (can_store tables (some "alice") (9 ∷ []) 2 ≡ true)
unfolding program
persist_message-can_store_example =
    persist_message-can_store services disk [] twelve 5 alice database tables (3 ∷ []) (9 ∷ []) 2
      hello (1 ∷ []) (1 ∷ []) refl refl refl refl refl

abbrev kept : Database → Bytes → ℕ → Message → Database × Base.Result (Unit {0}) ClientError
kept = persist services disk [] (λ id n m. twelve) (λ id n m. 5) alice

persist-persist_example :
    (e : ClientError) × (kept (kept database (9 ∷ []) 2 hello).0 (9 ∷ []) 2 hello
      ≡ ((kept database (9 ∷ []) 2 hello).0, Base.err e))
unfolding program persist
persist-persist_example =
    persist-persist services disk [] (λ id n m. twelve) (λ id n m. 5) alice (3 ∷ []) database
      (9 ∷ []) 2 hello hello refl refl

abbrev here : LocalClient
here = record {
  store = alice;
  direct_sessions = [];
  chats = [];
  contacts = record { contacts = [] };
}

abbrev bob : Contact
bob = new_contact 1 "bob" "Bob" (3 ∷ [])

abbrev keys : SessionKeys
keys = record { send_key = 4 ∷ []; receive_key = 5 ∷ [] }

abbrev introduced : LocalClient
introduced = establish_session 7 (add_contact 6 here bob).0 "bob" keys

establish_session-add_contact_example :
    (t' : Tables) × (introduced.store.database ≡ some (record database { conn = some t' }))
    × (has_conversation t' (direct_conversation_id "alice" "bob") ≡ true)
    × (t'.messages ≡ tables.messages)
    × (lookup "bob" introduced.direct_sessions
        ≡ some (record {
          send_key = 4 ∷ [];
          receive_key = 5 ∷ [];
          conversation_id = direct_conversation_id "alice" "bob";
          send_counter = 0;
          seen_incoming_sequences = [];
        }))
unfolding program new_contact
establish_session-add_contact_example =
    establish_session-add_contact 6 7 here database tables bob keys refl refl refl
