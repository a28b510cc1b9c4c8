-- ===== src/Session/Tests.antt =====
-- crates/messenger/src/client.rs: the theorems at a message of Alice to Bob. The JSON of the tests
-- is one byte, for the one message and the one payload that they send.
use shadowgram.Base.{
  ℕ, ◌≡◌, ◌≢◌, refl, String, Bool, ◌&&◌, Option, none, some, List, [], ◌∷◌, ◌++◌, Bytes, bytes_eq,
  ◌==◌, ◌===◌, if◌then◌else◌, insert, lookup, string_Eq, Result, any, to_le_bytes,
}
use shadowgram.Base
use shadowgram.Base.Outcome.{ok}
use shadowgram.Crypto.Aead.{encrypt_chacha20, decrypt_chacha20, split_tag}
use shadowgram.Crypto.Aead
use shadowgram.Crypto.Example.{primitives, ones, open_ones}
use shadowgram.Envelope.{NetworkEnvelope, pad_to_constant_size}
use shadowgram.Envelope
use shadowgram.Session.{Message, DirectSession, DirectMessagePayload, Services, Client}
use shadowgram.Session.Example.{hello, is_hello, read_byte}
use shadowgram.Session.Keys.{sequence_nonce}
use shadowgram.Session.Messages.{
  post, send_in, send_message, open_payload, handle_payload, handle_incoming_message,
}
use shadowgram.Session.Sequences.{refused, handle_payload_again}

abbrev first : DirectMessagePayload
first = record {
  sender_fingerprint = "alice";
  recipient_fingerprint = "bob";
  conversation_id = 99 ∷ [];
  sequence = 0;
  nonce = 1 ∷ 0 ∷ 0 ∷ 0 ∷ 0 ∷ 0 ∷ 0 ∷ 0 ∷ 0 ∷ 0 ∷ 0 ∷ 0 ∷ [];
  ciphertext = 1 ∷ [];
  tag = ones;
}

is_first : DirectMessagePayload → Bool
is_first p =
    p.sender_fingerprint === "alice"
    && p.recipient_fingerprint === "bob"
    && bytes_eq p.conversation_id first.conversation_id
    && p.sequence == 0
    && bytes_eq p.nonce first.nonce
    && bytes_eq p.ciphertext first.ciphertext
    && bytes_eq p.tag ones

abbrev services : Services (List Message)
services = record {
  primitives = primitives;
  keyed_hash = λ key bytes. key ++ bytes;
  message_to_json = λ m. if is_hello m then some (1 ∷ []) else none;
  message_from_json = read_byte hello;
  payload_to_json = λ p. if is_first p then some (1 ∷ []) else none;
  payload_from_json = read_byte first;
  persist_message = λ db conversation sequence m. (m ∷ db, Base.ok tt);
}

abbrev session : Bytes → Bytes → DirectSession
session send receive = record {
  send_key = send;
  receive_key = receive;
  conversation_id = 99 ∷ [];
  send_counter = 0;
  seen_incoming_sequences = [];
}

abbrev alice : Client (List Message)
alice = record {
  fingerprint = some "alice";
  direct_sessions = ("bob", session (3 ∷ []) (4 ∷ [])) ∷ [];
  database = [];
}

abbrev bob : Client (List Message)
bob = record {
  fingerprint = some "bob";
  direct_sessions = ("alice", session (4 ∷ []) (3 ∷ [])) ∷ [];
  database = [];
}

abbrev fill : ℕ → Bytes
fill n = []

abbrev sealed : NetworkEnvelope
sealed = record {
  msg_type = Envelope.MessageType.message;
  payload = 1 ∷ [];
  padding = [];
  timestamp = 7;
}

program : Unit {0}
unfolding is_hello is_first send_message send_in post sequence_nonce encrypt_chacha20
    decrypt_chacha20 Aead.encrypt Aead.decrypt split_tag open_ones pad_to_constant_size Envelope.new
    open_payload handle_payload handle_incoming_message any lookup insert to_le_bytes bytes_eq
program = tt

opened_first :
    open_payload (List Message) services (session (4 ∷ []) (3 ∷ [])) first ≡ Base.ok hello
unfolding program
opened_first = refl

bob_session : lookup "alice" bob.direct_sessions ≡ some (session (4 ∷ []) (3 ∷ []))
unfolding program
bob_session = refl

handle_payload_again_example :
    handle_payload
      (List Message)
      services
      (handle_payload (List Message) services bob (record first { tag = [] })).0
      first
    ≡ (
      (handle_payload (List Message) services bob (record first { tag = [] })).0,
      refused (List Message) services first,
    )
handle_payload_again_example =
    handle_payload_again (List Message) services bob (record first { tag = [] }) first
      (session (4 ∷ []) (3 ∷ [])) bob_session refl refl
