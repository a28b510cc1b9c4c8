-- ===== src/Chat.antt =====
-- crates/messenger/src/chat.rs: the sessions of 1-on-1 chats over the double ratchet, and the
-- queues of a chat. The time is an argument; sums and differences of u64 wrap. The bincode form
-- of a ratchet header is a parameter.
pub mod Queues
pub mod Framing
mod Tests
use shadowgram.Base.{
  ℕ, ◌+◌, ◌-◌, ◌*◌, ◌%◌, String, Bool, true, false, Option, none, some, List, [], ◌∷◌, ◌++◌, length,
  ltb, if◌then◌else◌, Bytes, u32_mod, u64_mod, u64_sub, to_le_bytes, from_le_bytes, Result,
}
use shadowgram.Base
use shadowgram.Base.Outcome.{Outcome, ok, err, panicked, ◌>>=◌, slice}
use shadowgram.Crypto.{Primitives}
use shadowgram.Ratchet.{RatchetError, DoubleRatchet, MessageHeader}
use shadowgram.Ratchet.Steps

pub data ChatError : Type 0 where
  session_not_found : ChatError
  encryption_error : String → ChatError
  decryption_error : String → ChatError
  invalid_message : String → ChatError
  contact_not_found : String → ChatError

pub data ChatState : Type 0 where
  fresh key_exchange established expired : ChatState

pub record ChatSession : Type 0 where
  pub contact_fingerprint : String
  pub our_fingerprint : String
  pub state : ChatState
  pub ratchet : Option DoubleRatchet
  pub message_count : ℕ
  pub last_activity : ℕ

unfoldable pub new : ℕ → String → String → ChatSession
new now our_fingerprint contact_fingerprint = record {
  contact_fingerprint = contact_fingerprint;
  our_fingerprint = our_fingerprint;
  state = fresh;
  ratchet = none;
  message_count = 0;
  last_activity = now;
}

unfoldable pub with_ratchet : ℕ → String → String → DoubleRatchet → ChatSession
with_ratchet now our_fingerprint contact_fingerprint ratchet = record {
  contact_fingerprint = contact_fingerprint;
  our_fingerprint = our_fingerprint;
  state = established;
  ratchet = some ratchet;
  message_count = 0;
  last_activity = now;
}

unfoldable pub set_ratchet : ChatSession → DoubleRatchet → ChatSession
set_ratchet s ratchet = record s { ratchet = some ratchet; state = established }

unfoldable pub is_established : ChatSession → Bool
is_established s = elim s.state [ established ↦ true | _ ↦ false ]

unfoldable pub set_state : ChatSession → ChatState → ChatSession
set_state s state = record s { state = state }

unfoldable pub record_activity : ℕ → ChatSession → ChatSession
record_activity now s = record s {
  message_count = (s.message_count + 1) % u64_mod;
  last_activity = now;
}

unfoldable pub is_stale : ℕ → ChatSession → ℕ → Bool
is_stale now s max_days = ltb (max_days * 86400 % u64_mod) (u64_sub now s.last_activity)

-- `e.to_string()` of an error of the ratchet: its template.
unfoldable pub ratchet_message : RatchetError → String
ratchet_message RatchetError.invalid_key = "Invalid message key"
ratchet_message RatchetError.authentication_failed = "Message authentication failed"
ratchet_message (RatchetError.decryption_failed s) = "Decryption failed: {0}"
ratchet_message (RatchetError.serialization_error s) = "Serialization error: {0}"
ratchet_message (RatchetError.too_many_skipped n) = "Too many skipped messages: {count}"
ratchet_message RatchetError.invalid_ratchet_level = "Invalid ratchet level"

-- `MessageHeader::to_bytes` and `from_bytes` of the ratchet.
pub record HeaderFormat : Type 0 where
  pub to_bytes : MessageHeader → Result Bytes RatchetError
  pub from_bytes : Bytes → Result MessageHeader RatchetError

module _ (p : Primitives) (format : HeaderFormat) where
  -- The framing of an encrypted message; `header_bytes.len() as u32` wraps.
  unfoldable pub frame_message : Bytes × MessageHeader → Outcome Bytes ChatError
  frame_message sealed = elim (format.to_bytes sealed.1) [
    | Base.err e ↦ err (encryption_error (ratchet_message e))
    | Base.ok header_bytes ↦
        ok (to_le_bytes 4 (length header_bytes % u32_mod) ++ (header_bytes ++ sealed.0))
  ]

  unfoldable pub encrypt : ChatSession → Bytes → ChatSession × Outcome Bytes ChatError
  encrypt s plaintext = elim s.ratchet [
    | none ↦ (s, err session_not_found)
    | some ratchet ↦
        let (ratchet', result) = Steps.encrypt p ratchet plaintext in
        (
          record s { ratchet = some ratchet' },
          elim result [
            | panicked ↦ panicked
            | err e ↦ err (encryption_error (ratchet_message e))
            | ok sealed ↦ frame_message sealed
          ],
        )
  ]

  -- The header and the text of a framed message.
  unfoldable pub unframe_message : Bytes → Outcome (MessageHeader × Bytes) ChatError
  unframe_message ciphertext =
      if ltb (length ciphertext) 4
      then err (invalid_message "Message too short")
      else slice ciphertext 0 4 >>= λ len_bytes.
          let header_len = from_le_bytes len_bytes in
          if ltb (length ciphertext) (4 + header_len)
          then err (invalid_message "Message too short")
          else slice ciphertext 4 (4 + header_len) >>= λ header_bytes.
              elim (format.from_bytes header_bytes) [
                | Base.err e ↦ err (decryption_error (ratchet_message e))
                | Base.ok header ↦ slice ciphertext (4 + header_len) (length ciphertext) >>= λ text.
                    ok (header, text)
              ]

  -- `new_dh` is the new secret of the ratchet.
  unfoldable pub decrypt : ℕ → Bytes → ChatSession → Bytes → ChatSession × Outcome Bytes ChatError
  decrypt now new_dh s ciphertext = elim s.ratchet [
    | none ↦ (s, err session_not_found)
    | some ratchet ↦ elim (unframe_message ciphertext) [
      | panicked ↦ (s, panicked)
      | err e ↦ (s, err e)
      | ok (header, text) ↦
          let (ratchet', result) = Steps.decrypt p new_dh ratchet text header in
          let s' = record s { ratchet = some ratchet' } in
          elim result [
            | panicked ↦ (s', panicked)
            | err e ↦ (s', err (decryption_error (ratchet_message e)))
            | ok plaintext ↦ (record_activity now s', ok plaintext)
          ]
    ]
  ]
