-- ===== src/ClientGroups.antt =====
-- crates/messenger/src/client.rs: the calls of the client on its groups, over the model of the
-- chats of groups and the contacts. Ids, nonces, secrets and the time are arguments; bincode and
-- serde_json and the table of conversations are a parameter. A call returns the state that it
-- leaves beside its result, also when it fails.
pub mod Members
pub mod Messages
pub mod Sending
pub mod Delivery
pub mod Commits
pub mod Origin
pub mod Example
mod Tests
use shadowgram.Base.{
  ℕ, String, Bool, not, Option, none, some, List, [], ◌∷◌, ◌++◌, Bytes, any, if◌then◌else◌, insert,
  lookup, get_or, string_Eq, Result, ok, err, map,
}
use shadowgram.Contacts.{Contact, MemoryContactStore, get}
use shadowgram.Envelope.{NetworkEnvelope, pad_to_constant_size}
use shadowgram.Envelope
use shadowgram.Group.{GroupError, GroupMember, MemberRole, GroupEncryptedMessage, Commit, Crypto}
use shadowgram.Group
use shadowgram.Group.State.{is_active}
use shadowgram.Group.State
use shadowgram.Group.Chat.{GroupChat, encrypt_message, decrypt_message}
use shadowgram.Group.Chat
use shadowgram.Session.{
  Message, ClientError, identity_error, crypto_error, group_not_found, contact_not_found,
  message_error, serialization_error,
}
use shadowgram.Session.Messages.{as_sent, as_delivered}

pub record StoredGroupMessage : Type 0 where
  pub id : String
  pub sender_fingerprint : String
  pub plaintext_message : Message
  pub encrypted_msg_bytes : Bytes
  pub sent_at : ℕ

pub record GroupCommitEnvelope : Type 0 where
  pub group_id : String
  pub commit : Commit

-- What the calls are built on; of the database, the call that makes sure of a conversation, of
-- its id, kind, peer and the own fingerprint.
pub record GroupServices (Db : Type 0) : Type 0 where
  pub crypto : Crypto
  pub message_to_json : Message → Option Bytes
  pub message_from_json : Bytes → Option Message
  pub to_bytes : GroupEncryptedMessage → Option Bytes
  pub from_bytes : Bytes → Option GroupEncryptedMessage
  pub commit_to_json : GroupCommitEnvelope → Option Bytes
  pub commit_from_json : Bytes → Option GroupCommitEnvelope
  pub ensure_conversation : Db → String → ℕ → Option String → Option String → Db

-- The part of the client that its groups read and write.
pub record GroupClient (Db : Type 0) : Type 0 where
  pub fingerprint : Option String
  pub groups : List (String × GroupChat)
  pub group_messages : List (String × List StoredGroupMessage)
  pub contacts : MemoryContactStore
  pub database : Option Db

-- `e.to_string()`: the template of the message.
unfoldable pub group_error_text : GroupError → String
group_error_text (Group.not_found s) = "Group not found: {0}"
group_error_text Group.not_member = "Not a member of group"
group_error_text (Group.not_authorized s) = "Not authorized: {0}"
group_error_text (Group.key_package_error s) = "Key package error: {0}"
group_error_text (Group.tree_update_error s numbers) = "Tree update error: {0}"
group_error_text (Group.decryption_error s) = "Message decryption failed"
group_error_text (Group.replay_detected epoch n) = "Replay detected: epoch={0} seq={1}"
group_error_text (Group.wrong_epoch expected got) = "Wrong epoch: expected {expected}, got {got}"
group_error_text (Group.serialization_error s) = "Serialization error: {0}"
group_error_text (Group.member_not_found s) = "Member not found: {0}"
group_error_text Group.invalid_commit_signature = "Commit signature invalid"

-- The numbers in it.
unfoldable pub group_error_numbers : GroupError → List ℕ
group_error_numbers (Group.not_found s) = []
group_error_numbers Group.not_member = []
group_error_numbers (Group.not_authorized s) = []
group_error_numbers (Group.key_package_error s) = []
group_error_numbers (Group.tree_update_error s numbers) = numbers
group_error_numbers (Group.decryption_error s) = []
group_error_numbers (Group.replay_detected epoch n) = epoch ∷ n ∷ []
group_error_numbers (Group.wrong_epoch expected got) = expected ∷ got ∷ []
group_error_numbers (Group.serialization_error s) = []
group_error_numbers (Group.member_not_found s) = []
group_error_numbers Group.invalid_commit_signature = []

abbrev pub group_failure : GroupError → ClientError
group_failure e = message_error (group_error_text e) (group_error_numbers e)

-- The test of an active member in both calls.
abbrev pub has_member : String → GroupChat → Bool
has_member fingerprint group = any (is_active fingerprint) group.state.members
