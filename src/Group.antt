-- ===== src/Group.antt =====
-- crates/messenger/src/group.rs: the data of group chats. BLAKE3, HKDF and the AEAD are the
-- operations of a parameter, `Crypto`.
pub mod Tree
pub mod State
pub mod Chat
pub mod Convergence
pub mod Commits
pub mod Growth
pub mod Members
pub mod Replay
pub mod Transport
pub mod Example
mod Tests
use shadowgram.Base.{ℕ, ◌≡◌, String, Option, some, List, Bytes}

pub data GroupError : Type 0 where
  not_found : String → GroupError
  not_member : GroupError
  not_authorized : String → GroupError
  key_package_error : String → GroupError
  -- The template of the message, and the epochs in it.
  tree_update_error : String → List ℕ → GroupError
  decryption_error : String → GroupError
  replay_detected : ℕ → ℕ → GroupError
  wrong_epoch : ℕ → ℕ → GroupError
  serialization_error : String → GroupError
  member_not_found : String → GroupError
  invalid_commit_signature : GroupError

pub data MemberRole : Type 0 where
  member admin creator : MemberRole

pub record GroupMember : Type 0 where
  pub fingerprint : String
  pub display_name : Option String
  pub role : MemberRole
  pub key_package : Bytes
  pub joined_at : ℕ
  pub left_at : Option ℕ

pub record GroupInfo : Type 0 where
  pub id : String
  pub name : Option String
  pub description : Option String
  pub creator : String
  pub avatar : Option Bytes
  pub created_at : ℕ
  pub epoch : ℕ

pub record GroupEncryptedMessage : Type 0 where
  pub group_id : String
  pub epoch : ℕ
  pub sequence : ℕ
  pub sender : String
  pub nonce : Bytes
  pub ciphertext : Bytes

pub data CommitType : Type 0 where
  member_added member_removed key_update config_change : CommitType

-- `commit_type as u8`
unfoldable pub type_byte : CommitType → ℕ
type_byte member_added = 0
type_byte member_removed = 1
type_byte key_update = 2
type_byte config_change = 3

pub record PathUpdate : Type 0 where
  pub node_index : ℕ
  pub encrypted_secret : Bytes
  pub new_public_key : Bytes

pub record Commit : Type 0 where
  pub epoch : ℕ
  pub path_updates : List PathUpdate
  pub signature : Bytes
  pub commit_type : CommitType

-- What the crates blake3, hkdf and chacha20poly1305 provide: a hash; HKDF-SHA256 of a salt, key
-- material and info, of 32 bytes; and ChaCha20-Poly1305 of a key, nonce, associated data and text.
pub record Crypto : Type 0 where
  pub blake3 : Bytes → Bytes
  pub hkdf : Bytes → Bytes → Bytes → Option Bytes
  pub encrypt : Bytes → Bytes → Bytes → Bytes → Option Bytes
  pub decrypt : Bytes → Bytes → Bytes → Bytes → Option Bytes
