-- ===== src/Session.antt =====
-- crates/messenger/src/client.rs: the direct sessions of the client, with the messages of
-- crates/messenger/src/message.rs. A fingerprint is a string, a conversation id its bytes.
pub mod Keys
pub mod Messages
pub mod Agreement
pub mod Delivery
pub mod Example
pub mod Sequences
pub mod Collision
mod Tests
use shadowgram.Base.{ℕ, ◌+◌, ◌%◌, String, Option, List, [], ◌∷◌, Bytes, Result}
use shadowgram.Crypto.{Primitives}

pub data MessageStatus : Type 0 where
  composed sending sent delivered read failed : MessageStatus

pub data MessageDirection : Type 0 where
  outgoing incoming : MessageDirection

pub data ContentType : Type 0 where
  text image file voice system key_exchange ratchet_sync : ContentType

pub record Message : Type 0 where
  pub id : String
  pub conversation_id : String
  pub content : String
  pub message_type : ContentType
  pub timestamp : ℕ
  pub status : MessageStatus
  pub direction : MessageDirection

-- A message error holds its template and the numbers in it.
pub data ClientError : Type 0 where
  storage_error network_error identity_error crypto_error : String → ClientError
  session_not_found group_not_found contact_not_found : String → ClientError
  message_error : String → List ℕ → ClientError
  serialization_error : String → ClientError

pub record DirectSession : Type 0 where
  pub send_key : Bytes
  pub receive_key : Bytes
  pub conversation_id : Bytes
  pub send_counter : ℕ
  pub seen_incoming_sequences : List ℕ

pub record DirectMessagePayload : Type 0 where
  pub sender_fingerprint : String
  pub recipient_fingerprint : String
  pub conversation_id : Bytes
  pub sequence : ℕ
  pub nonce : Bytes
  pub ciphertext : Bytes
  pub tag : Bytes

-- What the client is built on: the AEADs, the keyed hash of BLAKE3, serde_json for messages and
-- payloads, and the database, which keeps a message under its conversation and sequence.
pub record Services (Db : Type 0) : Type 0 where
  pub primitives : Primitives
  pub keyed_hash : Bytes → Bytes → Bytes
  pub message_to_json : Message → Option Bytes
  pub message_from_json : Bytes → Option Message
  pub payload_to_json : DirectMessagePayload → Option Bytes
  pub payload_from_json : Bytes → Option DirectMessagePayload
  pub persist_message : Db → Bytes → ℕ → Message → Db × Result (Unit {0}) ClientError

-- The part of the client that direct messages read and write.
pub record Client (Db : Type 0) : Type 0 where
  pub fingerprint : Option String
  pub direct_sessions : List (String × DirectSession)
  pub database : Db
