-- ===== src/Envelope/Parsing.antt =====
-- crates/network/src/lib.rs: what the envelope's parser accepts.
use shadowgram.Base.{
  ℕ, ◌+◌, ◌-◌, ◌≤◌, ◌≡◌, ◌≢◌, ◌⊎◌, inl, inr, refl, ◌∙◌, true, some, Option-cases, Bool-cases, [],
  ◌∷◌, length, take, drop, ◌==◌, Bytes, from_le_bytes, String, arith, ge→not-ltb, ==_iff,
}
use native.Mathlib.Decide.{dec_lt}
use shadowgram.Base.Outcome.{ok, err, slice_ok, array_of_ok}
use shadowgram.Envelope.{
  MessageType, NetworkEnvelope, NetworkError, invalid_format, type_of, deserialize_body,
  deserialize_lengths, deserialize,
}

-- The lengths that the bytes of an envelope declare.
abbrev pub payload_length : Bytes → ℕ
payload_length bytes = from_le_bytes (take 4 (drop 1 bytes))

abbrev pub padding_length : Bytes → ℕ
padding_length bytes = from_le_bytes (take 4 (drop 5 bytes))

-- The envelope at the offsets of the format.
abbrev pub envelope_at : MessageType → Bytes → NetworkEnvelope
envelope_at msg_type bytes = record {
  msg_type = msg_type;
  payload = take (payload_length bytes) (drop 9 bytes);
  padding = take (padding_length bytes) (drop (9 + payload_length bytes) bytes);
  timestamp = from_le_bytes (take 8 (drop (9 + payload_length bytes + padding_length bytes) bytes));
}

deserialize_body_lem :
    (t : MessageType) (n m : ℕ) (bytes : Bytes)
    → length bytes ≡ 17 + n + m
    → deserialize_body t n m bytes
      ≡ ok (record {
        msg_type = t;
        payload = take n (drop 9 bytes);
        padding = take m (drop (9 + n) bytes);
        timestamp = from_le_bytes (take 8 (drop (9 + n + m) bytes));
      })
unfolding deserialize_body
deserialize_body_lem t n m bytes h =
    let whole : (length bytes == 1 + 4 + 4 + n + m + 8) ≡ true = (==_iff _ _).1 (omega arith) in
    let p : 9 + n - 9 ≡ n = omega arith in
    let q : 9 + n + m - (9 + n) ≡ m = omega arith in
    rw
      (
        whole,
        slice_ok {E = NetworkError} bytes 9 (9 + n) (omega arith) (omega arith),
        slice_ok {E = NetworkError} bytes (9 + n) (9 + n + m) (omega arith) (omega arith),
        p,
        q,
        array_of_ok 8 (9 + n + m) (9 + n + m + 8) bytes (invalid_format "Invalid timestamp") refl
            (omega arith),
      )
      refl

deserialize_lengths_lem :
    (t : MessageType) (bytes : Bytes)
    → 17 ≤ length bytes
    → deserialize_lengths t bytes
      ≡ deserialize_body t (payload_length bytes) (padding_length bytes) bytes
unfolding deserialize_lengths
deserialize_lengths_lem t bytes h =
    rw
      (
        ge→not-ltb (length bytes) 17 h,
        array_of_ok 4 1 5 bytes (invalid_format "Invalid payload length header") refl (omega arith),
        array_of_ok 4 5 9 bytes (invalid_format "Invalid padding length header") refl (omega arith),
      )
      refl

-- As many bytes as the two lengths say.
abbrev pub IsComplete : Bytes → Type 0
IsComplete bytes = length bytes ≡ 17 + payload_length bytes + padding_length bytes

pub deserialize_complete :
    (t : MessageType) (b : ℕ) (bytes : Bytes)
    → type_of b ≡ some t
    → IsComplete (b ∷ bytes)
    → deserialize (b ∷ bytes) ≡ ok (envelope_at t (b ∷ bytes))
unfolding deserialize
deserialize_complete t b bytes known complete =
    rw (known, deserialize, deserialize_lengths_lem t (b ∷ bytes) (omega (arith, complete)))
      (deserialize_body_lem t (payload_length (b ∷ bytes)) (padding_length (b ∷ bytes)) (b ∷ bytes)
        complete)

mismatch :
    (t : MessageType) (n m : ℕ) (bytes : Bytes)
    → length bytes ≢ 17 + n + m
    → deserialize_body t n m bytes ≡ err (invalid_format "Envelope length mismatch")
unfolding deserialize_body
mismatch t n m bytes h = ground arith

known_cases :
    (t : MessageType) (bytes : Bytes)
    → ((deserialize_lengths t bytes ≡ ok (envelope_at t bytes)) × IsComplete bytes)
      ⊎ ((m : String) × (deserialize_lengths t bytes ≡ err (invalid_format m)))
unfolding deserialize_lengths
known_cases t bytes = elim (dec_lt (length bytes) 17) [
  | yes short ↦ inr ("Too short for length header", ground arith)
  | no long ↦
      let lengths = deserialize_lengths_lem t bytes (omega arith) in
      let n = payload_length bytes in
      let m = padding_length bytes in
      elim (Bool-cases (length bytes == 17 + n + m)) [
        | inl same ↦
            let e = (==_iff (length bytes) (17 + n + m)).0 same in
            inl (lengths ∙ deserialize_body_lem t n m bytes e, e)
        | inr other ↦
            inr ("Envelope length mismatch", lengths ∙ mismatch t n m bytes (ground arith))
      ]
]

-- The parser never panics: it reads the envelope at the offsets of the format, and then the bytes
-- are complete, or it answers with a format error.
pub deserialize_cases :
    (bytes : Bytes)
    → ((t : MessageType) × (deserialize bytes ≡ ok (envelope_at t bytes)) × IsComplete bytes)
      ⊎ ((m : String) × (deserialize bytes ≡ err (invalid_format m)))
unfolding deserialize
deserialize_cases [] = inr ("Empty data", refl)
deserialize_cases (b ∷ bytes) = elim (Option-cases (type_of b)) [
  | inl e ↦ inr ("Unknown message type", ground arith)
  | inr (t, e) ↦ elim (known_cases t (b ∷ bytes)) [
    | inl (read, complete) ↦ inl (t, ground arith, complete)
    | inr (m, refused) ↦ inr (m, ground arith)
  ]
]
