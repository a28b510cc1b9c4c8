-- ===== src/Session/Collision/Tests.antt =====
-- crates/messenger/src/client.rs: Alice's first message arrives before Bob sends his first one.
use shadowgram.Base.{
  lookup, ◌≡◌, refl, ap, ℕ, ◌+◌, String, Bool, true, false, ◌&&◌, Option, none, some, List, [], ◌∷◌,
  ◌++◌, Bytes, any, ◌==◌, bytes_eq, bytes_eq_iff, if◌then◌else◌, Result, inl, inr, Bool-cases,
  arith, take, drop, length,
}
use shadowgram.Base
use shadowgram.Base.Outcome.{err}
use shadowgram.Crypto.Example.{primitives, primitives-IsAead, ones, open_ones}
use shadowgram.Crypto.Aead.{decrypt_chacha20, decrypt}
use shadowgram.Session.{
  Message, ClientError, storage_error, DirectSession, DirectMessagePayload, Services, Client,
}
use shadowgram.Session.Example.{hello, read_byte}
use shadowgram.Session.Messages.{handle_payload, open_payload, send_message}
use shadowgram.Session.Collision.{KeepsOne, send_message-handle_payload}

abbrev is_row : Bytes → ℕ → Bytes × ℕ → Bool
is_row conversation sequence row = bytes_eq row.0 conversation && row.1 == sequence

-- A table of messages with the constraint UNIQUE(conversation_id, sequence).
keep : List (Bytes × ℕ) → Bytes → ℕ → Message → List (Bytes × ℕ) × Result (Unit {0}) ClientError
keep db conversation sequence message =
    if any (is_row conversation sequence) db
    then (db, Base.err (storage_error "UNIQUE constraint failed"))
    else ((conversation, sequence) ∷ db, Base.ok tt)

abbrev services : Services (List (Bytes × ℕ))
services = record {
  primitives = primitives;
  keyed_hash = λ key bytes. key ++ bytes;
  message_to_json = λ m. some (1 ∷ []);
  message_from_json = read_byte hello;
  payload_to_json = λ p. some (1 ∷ []);
  payload_from_json = λ json. none;
  persist_message = keep;
}

one : KeepsOne services
unfolding keep any
one db conversation sequence first h next = (
  storage_error "UNIQUE constraint failed",
  ground (arith, (bytes_eq_iff conversation conversation).1 refl),
)

abbrev payload : DirectMessagePayload
payload = record {
  sender_fingerprint = "alice";
  recipient_fingerprint = "bob";
  conversation_id = 99 ∷ [];
  sequence = 0;
  nonce = 1 ∷ [];
  ciphertext = 1 ∷ [];
  tag = ones;
}

abbrev session : DirectSession
session = record {
  send_key = 4 ∷ [];
  receive_key = 3 ∷ [];
  conversation_id = 99 ∷ [];
  send_counter = 0;
  seen_incoming_sequences = [];
}

abbrev bob : Client (List (Bytes × ℕ))
bob = record { fingerprint = some "bob"; direct_sessions = ("alice", session) ∷ []; database = [] }

send_message-handle_payload_example :
    (e : ClientError) × (send_message
        (List (Bytes × ℕ))
        services
        (λ n. [])
        7
        (handle_payload (List (Bytes × ℕ)) services bob payload).0
        "alice"
        hello
      ≡ ((handle_payload (List (Bytes × ℕ)) services bob payload).0, err e))
unfolding keep any handle_payload open_payload decrypt_chacha20 decrypt open_ones bytes_eq lookup
send_message-handle_payload_example =
    send_message-handle_payload (List (Bytes × ℕ)) services (λ n. []) 7 bob session payload hello
      primitives-IsAead one refl refl refl refl
