-- ===== src/Header/Parsing.antt =====
-- crates/messenger/src/message.rs: what the header's parser accepts.
use shadowgram.Base.{
  ℕ, ◌+◌, ◌≤◌, ◌<◌, ◌≡◌, ◌≢◌, refl, sym, ap, ◌∙◌, [], length, Bytes, take, drop_all, take_all,
  arith, String, ltb, leb, ◌==◌, if◌then◌else◌, true, false, Bool, ◌||◌, ◌&&◌, Bool-cases, inl, inr,
  from_le_bytes, ge→not-ltb, drop, ◌-◌,
}
use native.Mathlib.Decide.{dec_lt}
use shadowgram.Base.Outcome.{ok, err, ◌>>=◌, slice_ok, array_of_ok}
use shadowgram.Header.{
  MessageError, MessageHeader, array, deserialize, deserialize_fields, deserialize_aad,
  optional_aad, invalid_format,
}

array_ok :
    (n a b : ℕ) (bytes : Bytes) (message : String)
    → a + n ≡ b
    → b ≤ length bytes
    → array n bytes a b message ≡ ok (take n (drop a bytes))
array_ok n a b bytes message h k = array_of_ok n a b bytes (invalid_format message) h k

-- The length that the AAD's prefix gives.
unfoldable pub declared_length : Bytes → ℕ
declared_length bytes = from_le_bytes (take 4 (drop 48 bytes))

-- The fixed part alone, or the fixed part, a whole prefix, and as much as the prefix says.
unfoldable pub is_complete : Bytes → Bool
is_complete bytes =
    length bytes == 48 || (leb 52 (length bytes) && leb (52 + declared_length bytes) (length bytes))

-- The header at the offsets of the format.
unfoldable pub header_at : Bytes → MessageHeader
header_at bytes = record {
  dh_public = take 32 bytes;
  message_number = from_le_bytes (take 8 (drop 32 bytes));
  previous_chain_length = from_le_bytes (take 4 (drop 40 bytes));
  ratchet_level = from_le_bytes (take 4 (drop 44 bytes));
  aad = take (declared_length bytes) (drop 52 bytes);
}

deserialize_aad_lem :
    (bytes : Bytes)
    → 52 ≤ length bytes
    → deserialize_aad bytes ≡ (
        if ltb (length bytes) (52 + declared_length bytes)
        then err (invalid_format "AAD length mismatch")
        else ok (take (declared_length bytes) (drop 52 bytes)))
unfolding deserialize_aad declared_length
deserialize_aad_lem bytes h =
    let n = declared_length bytes in
    let e : 52 + n - 52 ≡ n = omega arith in
    elim (Bool-cases (ltb (length bytes) (52 + n))) [
      | inl short ↦ rw (array_ok 4 48 52 bytes "Invalid AAD length" refl h, short)
      | inr whole ↦
          rw (array_ok 4 48 52 bytes "Invalid AAD length" refl h, whole)
            (slice_ok {E = MessageError} bytes 52 (52 + n) (omega arith) (ground arith)
              ∙ ap (λ m. ok (take m (drop 52 bytes))) e)
    ]

-- The AAD is read exactly where the bytes are complete.
optional_aad_complete :
    (bytes : Bytes)
    → 48 ≤ length bytes
    → is_complete bytes ≡ true
    → optional_aad bytes ≡ ok (take (declared_length bytes) (drop 52 bytes))
unfolding optional_aad is_complete
optional_aad_complete bytes h complete = elim (dec_lt 48 (length bytes)) [
  | yes more ↦ ground (arith, deserialize_aad_lem bytes)
  | no none ↦
      rw (drop_all 52 bytes (omega arith), ge→not-ltb 48 (length bytes) (omega arith))
        (ap ok (sym (take_all (declared_length bytes) [] (omega arith))))
]

optional_aad_incomplete :
    (bytes : Bytes)
    → 48 ≤ length bytes
    → is_complete bytes ≡ false
    → (m : String) × (optional_aad bytes ≡ err (invalid_format m))
unfolding optional_aad is_complete
optional_aad_incomplete bytes h cut = elim (Bool-cases (ltb (length bytes) 52)) [
  | inl short ↦ ("AAD length prefix is truncated", ground arith)
  | inr long ↦ ("AAD length mismatch", ground (arith, deserialize_aad_lem bytes))
]

abbrev with_fields : Bytes → Bytes → MessageHeader
with_fields bytes aad = record {
  dh_public = take 32 bytes;
  message_number = from_le_bytes (take 8 (drop 32 bytes));
  previous_chain_length = from_le_bytes (take 4 (drop 40 bytes));
  ratchet_level = from_le_bytes (take 4 (drop 44 bytes));
  aad = aad;
}

deserialize_fields_lem :
    (bytes : Bytes)
    → 48 ≤ length bytes
    → deserialize_fields bytes ≡ (optional_aad bytes >>= λ aad. ok (with_fields bytes aad))
unfolding deserialize_fields
deserialize_fields_lem bytes h = rw (
  slice_ok {E = MessageError} bytes 0 32 (omega arith) (omega arith),
  array_ok 8 32 40 bytes "Missing message number" refl (omega arith),
  array_ok 4 40 44 bytes "Missing previous chain length" refl (omega arith),
  array_ok 4 44 48 bytes "Missing ratchet level" refl h,
)

not_complete : (bytes : Bytes) → length bytes < 48 → is_complete bytes ≢ true
unfolding is_complete
not_complete bytes short = ground arith

header_at_lem :
    (bytes : Bytes)
    → with_fields bytes (take (declared_length bytes) (drop 52 bytes)) ≡ header_at bytes
unfolding header_at
header_at_lem bytes = refl

-- The parser never panics. It reads the header at the offsets of the format where the bytes are
-- complete, and answers with a format error where they are not.
pub deserialize-is_complete :
    (bytes : Bytes)
    → (is_complete bytes ≡ true → deserialize bytes ≡ ok (header_at bytes))
      × (is_complete bytes ≡ false → (m : String) × (deserialize bytes ≡ err (invalid_format m)))
unfolding deserialize
deserialize-is_complete bytes = elim (dec_lt (length bytes) 48) [
  | yes short ↦ (
    λ complete. absurd (not_complete bytes short complete),
    λ _. ("Header too short", ground arith),
  )
  | no long ↦
      let fields = deserialize_fields_lem bytes (omega arith) in
      rw (ge→not-ltb (length bytes) 48 (omega arith), fields)
        (
          λ complete.
              rw (optional_aad_complete bytes (omega arith) complete) (ap ok (header_at_lem bytes)),
          λ cut. let (m, e) = optional_aad_incomplete bytes (omega arith) cut in (m, rw e),
        )
]
