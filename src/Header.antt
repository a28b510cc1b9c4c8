-- ===== src/Header.antt =====
-- crates/messenger/src/message.rs: the header of a ratchet message, and its bytes.
-- A slice out of range would panic; the model says so, and shows that it never does.
pub mod Layout
pub mod RoundTrip
pub mod Parsing
mod Tests
use shadowgram.Base.{
  ℕ, ◌+◌, ◌%◌, ◌≤◌, ◌<◌, ◌≡◌, String, List, [], ◌++◌, length, ltb, ◌==◌, if◌then◌else◌, Bytes, All,
  u32_mod, u64_mod, to_le_bytes, from_le_bytes,
}
use shadowgram.Base.Outcome.{Outcome, ok, err, ◌>>=◌, slice, array_of}

pub data MessageError : Type 0 where
  invalid_format : String → MessageError
  serialization_error : String → MessageError

pub record MessageHeader : Type 0 where
  pub dh_public : Bytes
  pub message_number : ℕ
  pub previous_chain_length : ℕ
  pub ratchet_level : ℕ
  pub aad : Bytes

unfoldable pub new : Bytes → ℕ → ℕ → MessageHeader
new dh_public message_number previous_chain_length = record {
  dh_public = dh_public;
  message_number = message_number;
  previous_chain_length = previous_chain_length;
  ratchet_level = 0;
  aad = [];
}

unfoldable pub with_aad : MessageHeader → Bytes → MessageHeader
with_aad h aad = record h { aad = aad }

-- `self.aad.len() as u32` wraps.
unfoldable pub serialize : MessageHeader → Bytes
serialize h =
    h.dh_public
    ++ (to_le_bytes 8 h.message_number
        ++ (to_le_bytes 4 h.previous_chain_length
            ++ (to_le_bytes 4 h.ratchet_level
                ++ (to_le_bytes 4 (length h.aad % u32_mod) ++ h.aad))))

-- `data[a..b].try_into().map_err(…)` into an array of `n` bytes.
abbrev pub array : ℕ → Bytes → ℕ → ℕ → String → Outcome Bytes MessageError
array n bytes a b message = array_of n bytes a b (invalid_format message)

-- The length-prefixed AAD behind the 48 bytes of the fixed part, if there is any byte there.
unfoldable pub deserialize_aad : Bytes → Outcome Bytes MessageError
deserialize_aad bytes = do
  prefix ← array 4 bytes 48 52 "Invalid AAD length"
  let aad_len = from_le_bytes prefix
  if ltb (length bytes) (52 + aad_len)
      then err (invalid_format "AAD length mismatch")
      else slice bytes 52 (52 + aad_len)

unfoldable pub optional_aad : Bytes → Outcome Bytes MessageError
optional_aad bytes =
    if ltb 48 (length bytes)
    then if ltb (length bytes) 52
      then err (invalid_format "AAD length prefix is truncated")
      else deserialize_aad bytes
    else ok []

unfoldable pub deserialize_fields : Bytes → Outcome MessageHeader MessageError
deserialize_fields bytes = do
  dh_public ← slice bytes 0 32
  message_number ← array 8 bytes 32 40 "Missing message number"
  previous_chain_length ← array 4 bytes 40 44 "Missing previous chain length"
  ratchet_level ← array 4 bytes 44 48 "Missing ratchet level"
  aad ← optional_aad bytes
  ok (record {
    dh_public = dh_public;
    message_number = from_le_bytes message_number;
    previous_chain_length = from_le_bytes previous_chain_length;
    ratchet_level = from_le_bytes ratchet_level;
    aad = aad;
  })

unfoldable pub deserialize : Bytes → Outcome MessageHeader MessageError
deserialize bytes =
    if ltb (length bytes) 48
    then err (invalid_format "Header too short")
    else deserialize_fields bytes

-- The fields within the widths of their types, and an AAD whose length fits into its prefix.
pub record IsValid (h : MessageHeader) : Type 0 where
  pub key : length h.dh_public ≡ 32
  pub number : h.message_number < u64_mod
  pub chain : h.previous_chain_length < u32_mod
  pub level : h.ratchet_level < u32_mod
  pub short : length h.aad < u32_mod
