-- ===== src/Dispatch/Tests.antt =====
-- crates/messenger/src/client.rs: the theorem at Alice's message to a group.
use shadowgram.Base.{
  ◌≡◌, refl, String, Option, none, some, List, [], ◌∷◌, ◌++◌, Bytes, ok, err, arith, lookup, any,
  to_le_bytes,
}
use shadowgram.Crypto.Example.{primitives}
use shadowgram.KeyExchange.Example.{kem}
use shadowgram.Envelope.{MessageType, pad_to_constant_size, new}
use shadowgram.Session.{DirectMessagePayload, Services, serialization_error}
use shadowgram.Session.Example.{hello, is_hello}
use shadowgram.Handshake.{Exchange, HandshakeClient}
use shadowgram.Group.Example.{chat}
use shadowgram.ClientGroups.{GroupClient}
use shadowgram.ClientGroups.Example.{services, write_frame, is_alice}
use shadowgram.ClientGroups.Messages.{send_group_message, seal_group_message}
use shadowgram.Group.Chat.{create, encrypt_message}
use shadowgram.Group.State.{derive_message_key}
use shadowgram.Group.State
use shadowgram.Group.Tree.{add_leaf, rebalance, rebalance_from}
use shadowgram.Group.Tree
use shadowgram.Group.{GroupEncryptedMessage}
use shadowgram.Dispatch.{process_network_message, process_network_message-send_group_message}

abbrev exchange : Exchange
exchange = record {
  primitives = primitives;
  kem = kem;
  keyed_hash = λ key bytes. key ++ bytes;
  to_json = λ p. none;
  from_json = λ json. none;
}

abbrev payload : DirectMessagePayload
payload = record {
  sender_fingerprint = "alice";
  recipient_fingerprint = "bob";
  conversation_id = 99 ∷ [];
  sequence = 0;
  nonce = 1 ∷ [];
  ciphertext = 1 ∷ [];
  tag = [];
}

-- A payload is written as one byte.
read_payload : Bytes → Option DirectMessagePayload
read_payload [] = none
read_payload (b ∷ []) = some payload
read_payload (b ∷ c ∷ bytes) = none

read_payload-write_frame :
    (m : GroupEncryptedMessage) (bytes : Bytes)
    → write_frame m ≡ some bytes
    → read_payload bytes ≡ none
unfolding write_frame read_payload
read_payload-write_frame m bytes h = ground arith

abbrev direct : Services (List String)
direct = record {
  primitives = primitives;
  keyed_hash = λ key bytes. key ++ bytes;
  message_to_json = λ m. none;
  message_from_json = λ json. none;
  payload_to_json = λ p. some (1 ∷ []);
  payload_from_json = read_payload;
  persist_message = λ db conversation sequence m. (db, ok tt);
}

abbrev alice : GroupClient (List String)
alice = record {
  fingerprint = some "alice";
  groups = ("group-1", chat) ∷ [];
  group_messages = [];
  contacts = record { contacts = [] };
  database = none;
}

abbrev bob : HandshakeClient (List String)
bob = record {
  client = record { fingerprint = some "bob"; direct_sessions = []; database = [] };
  pending_initiators = [];
  pending_responses = [];
}

process_network_message-send_group_message_example :
    process_network_message
      (List String)
      exchange
      direct
      (λ n. [])
      8
      []
      []
      []
      bob
      (record {
        msg_type = MessageType.message;
        payload = 0 ∷ 0 ∷ 1 ∷ 9 ∷ 1 ∷ 1 ∷ [];
        padding = [];
        timestamp = 7;
      })
    ≡ (bob, err (serialization_error "serde_json"))
unfolding write_frame is_alice is_hello chat create State.create add_leaf rebalance rebalance_from
    Tree.new pad_to_constant_size new send_group_message seal_group_message encrypt_message
    derive_message_key lookup any to_le_bytes
process_network_message-send_group_message_example =
    process_network_message-send_group_message (List String) exchange direct services
      read_payload-write_frame (λ n. []) (9 ∷ []) 7 8 [] [] [] alice "group-1" hello _ bob refl
