-- ===== src/Database.antt =====
-- crates/storage/src/database.rs: the database, as the tables that its SQL reads and writes, with
-- the constraints and triggers of migrations/001_init.sql and 002_relay_mailbox.sql. A table is a list of rows;
-- where SQL leaves an order open the list stands for it. A statement fails by a constraint or a
-- conversion, and not by the disk.
pub mod Queries
pub mod Messages
pub mod Identities
pub mod Outbox
pub mod Triggers
pub mod Calls
pub mod Consistency
pub mod Ordering
pub mod Sweeping
mod Tests
use shadowgram.Base.{
  ℕ, String, Bool, true, false, Option, none, some, List, [], ◌∷◌, Bytes, Result, ok, err, ◌==◌,
  if◌then◌else◌, not, any,
}

pub data DbError : Type 0 where
  sql_error encryption_error io_error : String → DbError
  not_initialized already_open : DbError

-- `e.to_string()`: the template of the message.
unfoldable pub db_message : DbError → String
db_message (sql_error s) = "SQL error: {0}"
db_message (encryption_error s) = "Encryption error: {0}"
db_message (io_error s) = "IO error: {0}"
db_message not_initialized = "Not initialized"
db_message already_open = "Already open"

pub record DbConfig : Type 0 where
  pub path : String
  pub encryption_key : Bytes
  pub page_size : ℕ
  pub wal_mode : Bool
  pub pool_size : ℕ

-- `Default`, of the random key.
unfoldable pub default_config : Bytes → DbConfig
default_config key = record {
  path = "shadowgram.db";
  encryption_key = key;
  page_size = 4096;
  wal_mode = true;
  pool_size = 1;
}

pub record IdentityRow : Type 0 where
  pub fingerprint : String
  pub public_identity : Bytes
  pub encrypted_private_key : Bytes
  pub created_at : ℕ
  pub rotated_at : Option ℕ

pub record ContactRow : Type 0 where
  pub fingerprint : String
  pub alias : String
  pub public_identity : Bytes
  pub trust_level : ℕ
  pub added_at : ℕ
  pub last_seen : Option ℕ

pub record MessageRow : Type 0 where
  pub sequence : ℕ
  pub direction : ℕ
  pub envelope : Bytes
  pub status : ℕ
  pub received_at : ℕ

pub record PendingOutboxRow : Type 0 where
  pub message_id : Bytes
  pub relay_address : String
  pub envelope_bytes : Bytes
  pub attempts : ℕ
  pub retry_after : ℕ
  pub expires_at : ℕ

-- A row of the table of conversations; an id is its bytes.
pub record ConversationRow : Type 0 where
  pub id : Bytes
  pub conversation_type : ℕ
  pub peer_fingerprint : Option String
  pub our_identity : Option String
  pub last_message_at : ℕ
  pub unread_count : ℕ

pub record DbStats : Type 0 where
  pub identity_count : ℕ
  pub contact_count : ℕ
  pub message_count : ℕ

-- The tables that the code writes: identities with their `is_active`, messages with their
-- conversation.
pub record Tables : Type 0 where
  pub identities : List (IdentityRow × Bool)
  pub contacts : List ContactRow
  pub conversations : List ConversationRow
  pub messages : List (Bytes × MessageRow)
  pub pending_outbox : List PendingOutboxRow

abbrev pub empty_tables : Tables
empty_tables = record {
  identities = [];
  contacts = [];
  conversations = [];
  messages = [];
  pending_outbox = [];
}

-- `conn` is the tables behind the connection; a placeholder has none.
pub record Database : Type 0 where
  pub conn : Option Tables
  pub config : DbConfig
  pub is_open : Bool

unfoldable pub new_database : DbConfig → Database
new_database config = record { conn = none; config = config; is_open = false }

-- `directory` is whether the parent directory is there or made, `file` what opening the file gives,
-- `init_schema` runs both migrations. A database whose migrations fail counts as open.
unfoldable pub open_database :
    Bool
    → Result Tables String
    → (Tables → Result Tables String)
    → Database
    → Database × Result (Unit {0}) DbError
open_database directory file init_schema self =
    if self.is_open
    then (self, err already_open)
    else if not (any (λ byte. not (byte == 0)) self.config.encryption_key)
    then (self, err (encryption_error "Refusing to open database with an all-zero encryption key"))
    else if not directory
    then (self, err (io_error "create_dir_all"))
    else elim file [
      | err e ↦ (self, err (sql_error e))
      | ok found ↦ elim (init_schema found) [
        | err e ↦ (record self { conn = some found; is_open = true }, err (sql_error e))
        | ok tables ↦ (record self { conn = some tables; is_open = true }, ok tt)
      ]
    ]

-- The connection stays.
unfoldable pub close : Database → Database × Result (Unit {0}) DbError
close self = if not self.is_open then (self, ok tt) else (record self { is_open = false }, ok tt)

-- A method that runs statements on the connection; `is_open` is not looked at.
unfoldable pub with_conn {ℓ} :
    {A : Type ℓ} → (Tables → Tables × Result A DbError) → Database → Database × Result A DbError
with_conn run self = elim self.conn [
  | none ↦ (self, err (sql_error "no such table"))
  | some tables ↦
      let (tables', result) = run tables in (record self { conn = some tables' }, result)
]
