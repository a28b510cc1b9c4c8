-- ===== src/Envelope.antt =====
-- crates/network/src/lib.rs: the network envelope and its bytes. A slice out of range would panic;
-- the model says so, and shows that it never does.
pub mod Parsing
pub mod RoundTrip
mod Tests
use shadowgram.Base.{
  ℕ, ◌+◌, ◌-◌, ◌%◌, String, not, Option, none, some, List, [], ◌∷◌, ◌++◌, length, ltb, ◌==◌,
  if◌then◌else◌, Bytes, u32_mod, to_le_bytes, from_le_bytes,
}
use shadowgram.Base.Outcome.{Outcome, ok, err, ◌>>=◌, slice, array_of}

pub data MessageType : Type 0 where
  handshake ratchet message control cover : MessageType

pub record NetworkEnvelope : Type 0 where
  pub msg_type : MessageType
  pub payload : Bytes
  pub padding : Bytes
  pub timestamp : ℕ

pub data NetworkError : Type 0 where
  transport_error : String → NetworkError
  connection_failed : String → NetworkError
  timeout : NetworkError
  invalid_format : String → NetworkError
  peer_not_found : String → NetworkError
  serialization_error : String → NetworkError
  routing_failed : String → NetworkError

-- Of the time.
unfoldable pub new : ℕ → MessageType → Bytes → NetworkEnvelope
new now msg_type payload = record {
  msg_type = msg_type;
  payload = payload;
  padding = [];
  timestamp = now;
}

-- `fill` gives the random bytes of a length.
unfoldable pub pad_to_constant_size : (ℕ → Bytes) → NetworkEnvelope → ℕ → NetworkEnvelope
pad_to_constant_size fill env target_size =
    if ltb (length env.payload) target_size
    then record env { padding = fill (target_size - length env.payload) }
    else env

unfoldable pub type_byte : MessageType → ℕ
type_byte handshake = 1
type_byte ratchet = 2
type_byte message = 3
type_byte control = 4
type_byte cover = 5

-- `len() as u32` wraps.
unfoldable pub serialize : NetworkEnvelope → Bytes
serialize env =
    type_byte env.msg_type
    ∷ (to_le_bytes 4 (length env.payload % u32_mod)
        ++ (to_le_bytes 4 (length env.padding % u32_mod)
            ++ (env.payload ++ (env.padding ++ to_le_bytes 8 env.timestamp))))

unfoldable pub type_of : ℕ → Option MessageType
type_of b =
    if b == 1
    then some handshake
    else if b == 2
    then some ratchet
    else if b == 3
    then some message
    else if b == 4
    then some control
    else if b == 5
    then some cover
    else none

-- The parser behind the length header.
unfoldable pub deserialize_body : MessageType → ℕ → ℕ → Bytes → Outcome NetworkEnvelope NetworkError
deserialize_body msg_type payload_len padding_len bytes =
    if not (length bytes == 1 + 4 + 4 + payload_len + padding_len + 8)
    then err (invalid_format "Envelope length mismatch")
    else do
      let payload_end = 9 + payload_len
      let padding_end = payload_end + padding_len
      payload ← slice bytes 9 payload_end
      padding ← slice bytes payload_end padding_end
      timestamp ←
          array_of 8 bytes padding_end (padding_end + 8) (invalid_format "Invalid timestamp")
      ok (record {
        msg_type = msg_type;
        payload = payload;
        padding = padding;
        timestamp = from_le_bytes timestamp;
      })

-- The parser behind the type byte.
unfoldable pub deserialize_lengths : MessageType → Bytes → Outcome NetworkEnvelope NetworkError
deserialize_lengths msg_type bytes =
    if ltb (length bytes) 17 then err (invalid_format "Too short for length header") else do
      payload_len ← array_of 4 bytes 1 5 (invalid_format "Invalid payload length header")
      padding_len ← array_of 4 bytes 5 9 (invalid_format "Invalid padding length header")
      deserialize_body msg_type (from_le_bytes payload_len) (from_le_bytes padding_len) bytes

unfoldable pub deserialize : Bytes → Outcome NetworkEnvelope NetworkError
deserialize [] = err (invalid_format "Empty data")
deserialize (b ∷ bytes) = elim (type_of b) [
  | none ↦ err (invalid_format "Unknown message type")
  | some msg_type ↦ deserialize_lengths msg_type (b ∷ bytes)
]
