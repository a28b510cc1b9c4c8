-- ===== src/Storage.antt =====
-- crates/messenger/src/client.rs: the messages that the client keeps: encrypted under its storage
-- key, in the database. serde_json and bincode are a parameter; nonces, a fresh key, the time and
-- what the disk allows are arguments.
pub mod Messages
pub mod Keeping
pub mod Recall
pub mod Success
pub mod Sessions
pub mod Contacting
mod Tests
use shadowgram.Base.{ℕ, String, Bool, Option, none, some, Bytes, length, ◌==◌, if◌then◌else◌, not}
use shadowgram.Base
use shadowgram.Base.Outcome.{Outcome, ok, err, panicked}
use shadowgram.Crypto.{Primitives}
use shadowgram.Crypto.Aead.{encrypt_chacha20, decrypt_chacha20, cipher_message}
use shadowgram.Database.{Database}
use shadowgram.Session.{Message, MessageStatus, MessageDirection, ClientError, storage_error}

pub record StoredBlob : Type 0 where
  pub nonce : Bytes
  pub ciphertext : Bytes
  pub tag : Bytes

pub record StorageServices : Type 0 where
  pub primitives : Primitives
  pub message_to_json : Message → Option Bytes
  pub message_from_json : Bytes → Option Message
  pub blob_to_bytes : StoredBlob → Option Bytes
  pub blob_from_bytes : Bytes → Option StoredBlob

-- Whether the storage directory is there or made, and the key file is read and written.
pub record Disk : Type 0 where
  pub create_dir_all : Bool
  pub read : Bool
  pub write : Bool

-- The part of the client that storing reads and writes; `master_key` is the file.
pub record Store : Type 0 where
  pub fingerprint : Option String
  pub database : Option Database
  pub storage_key : Option Bytes
  pub db_key : Option Bytes
  pub master_key : Option Bytes

abbrev pub with_key : Store → Bytes → Store × Base.Result Bytes ClientError
with_key s key = (record s { storage_key = some key }, Base.ok key)

-- The key file: read, or made of fresh bytes.
unfoldable pub load_master_key : Disk → Bytes → Store → Store × Base.Result Bytes ClientError
load_master_key disk fresh s =
    if not disk.create_dir_all
    then (s, Base.err (storage_error "create_dir_all"))
    else elim s.master_key [
      | some bytes ↦
          if not disk.read
          then (s, Base.err (storage_error "read"))
          else if length bytes == 32
          then with_key s bytes
          else (s, Base.err (storage_error "Invalid master key length"))
      | none ↦
          if not disk.write
          then (s, Base.err (storage_error "write"))
          else with_key (record s { master_key = some fresh }) fresh
    ]

unfoldable pub ensure_storage_key : Disk → Bytes → Store → Store × Base.Result Bytes ClientError
ensure_storage_key disk fresh s = elim s.storage_key [
  | some key ↦ (s, Base.ok key)
  | none ↦ elim s.db_key [ some key ↦ with_key s key | none ↦ load_master_key disk fresh s ]
]

unfoldable pub direction_code : MessageDirection → ℕ
direction_code MessageDirection.incoming = 1
direction_code MessageDirection.outgoing = 2

unfoldable pub status_code : MessageStatus → ℕ
status_code MessageStatus.composed = 0
status_code MessageStatus.sending = 1
status_code MessageStatus.sent = 2
status_code MessageStatus.delivered = 3
status_code MessageStatus.read = 4
status_code MessageStatus.failed = 5

module _ (services : StorageServices) where
  open services use {primitives, blob_to_bytes, blob_from_bytes}

  -- Of the random nonce.
  unfoldable pub encrypt_blob : Bytes → Bytes → Bytes → Bytes → Outcome Bytes String
  encrypt_blob nonce key aad plaintext =
      elim (encrypt_chacha20 primitives key nonce plaintext aad) [
        | panicked ↦ panicked
        | err e ↦ err (cipher_message e)
        | ok (ciphertext, tag) ↦
            elim (blob_to_bytes (record { nonce = nonce; ciphertext = ciphertext; tag = tag })) [
              | none ↦ err "bincode"
              | some bytes ↦ ok bytes
            ]
      ]

  unfoldable pub decrypt_blob : Bytes → Bytes → Bytes → Base.Result Bytes String
  decrypt_blob key aad blob = elim (blob_from_bytes blob) [
    | none ↦ Base.err "bincode"
    | some b ↦ elim (decrypt_chacha20 primitives key b.nonce b.ciphertext b.tag aad) [
      | Base.err e ↦ Base.err (cipher_message e)
      | Base.ok plaintext ↦ Base.ok plaintext
    ]
  ]
