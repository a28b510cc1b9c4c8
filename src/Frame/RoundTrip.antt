-- ===== src/Frame/RoundTrip.antt =====
-- crates/network/src/message_transport.rs: an envelope comes back from its frame.
use shadowgram.Base.{
  append_assoc, ltb→lt, Bool-cases, ge→not-ltb, false, ◌∙◌, ◌+◌, ◌%◌, ◌≤◌, ◌<◌, ◌≡◌, ◌⊎◌, inl, inr,
  refl, sym, ap, arith, ◌++◌, length, ltb, Bytes, bytes_eq, take, drop, length-append, take-append,
  to_le_bytes, from_le_bytes, length-to_le_bytes, from_le_bytes-to_le_bytes, u32_mod,
}
use shadowgram.Base.Outcome.{ok, err, slice_ok, array_of_ok, slice-append}
use shadowgram.Envelope.{NetworkEnvelope, serialize}
use shadowgram.Envelope.RoundTrip.{IsValid, deserialize-serialize_envelope}
use shadowgram.Frame.{
  TransportDeliveryError, framing, frame_magic, max_frame_bytes, encode_frame, decode_frame,
  decode_body, framed_error, too_large,
}
use mathlib.Core.Path.{subst}

-- What is framed, and what may follow it in the buffer.
abbrev framed : Bytes → Bytes → Bytes
framed payload rest = frame_magic ++ (to_le_bytes 4 (length payload % u32_mod) ++ (payload ++ rest))

decode_body-framed :
    (env : NetworkEnvelope) (rest : Bytes)
    → IsValid env
    → length (serialize env) ≤ max_frame_bytes
    → decode_body (framed (serialize env) rest) ≡ ok env
unfolding decode_body framed_error
decode_body-framed env rest valid fits =
    let payload = serialize env in
    let len = to_le_bytes 4 (length payload % u32_mod) in
    let four = length-to_le_bytes 4 (length payload % u32_mod) in
    let size : length (framed payload rest) ≡ 8 + length payload + length rest =
      omega (arith, length-append len (payload ++ rest), length-append payload rest, four) in
    let prefix : take 4 (drop 4 (framed payload rest)) ≡ len =
      take-append len (payload ++ rest) 4 (sym four) in
    let value : from_le_bytes len ≡ length payload =
      from_le_bytes-to_le_bytes 4 (length payload % u32_mod) (omega arith) ∙ omega arith in
    let room : ltb (length (framed payload rest)) (8 + length payload) ≡ false =
      ge→not-ltb _ _ (omega (arith, size)) in
    let read =
      array_of_ok 4 4 8 (framed payload rest) (framing "bad length field") refl
        (omega (arith, size)) in
    let body =
      slice-append {E = TransportDeliveryError} (frame_magic ++ len) payload rest 8
        (8 + length payload) (omega (arith, four)) (omega (arith, four)) in
    rw (read, prefix, value, room, body, deserialize-serialize_envelope env valid) refl

decode_frame-framed :
    (env : NetworkEnvelope) (rest : Bytes)
    → IsValid env
    → length (serialize env) ≤ max_frame_bytes
    → decode_frame (framed (serialize env) rest) ≡ ok env
unfolding decode_frame bytes_eq
decode_frame-framed env rest valid fits =
    let payload = serialize env in
    let len = to_le_bytes 4 (length payload % u32_mod) in
    let four = length-to_le_bytes 4 (length payload % u32_mod) in
    let long : 8 ≤ length (framed payload rest) =
      omega (arith, length-append len (payload ++ rest), four) in
    let short : ltb (length (framed payload rest)) 8 ≡ false = ge→not-ltb _ _ long in
    let magic =
      slice_ok {E = TransportDeliveryError} (framed payload rest) 0 4 (omega arith)
        (omega (arith, long)) in
    rw (short, magic) (decode_body-framed env rest valid fits)

-- A valid envelope is framed exactly if its bytes are few enough, and decoding gives it back from
-- any buffer that starts with the frame, whatever follows it.
pub decode_frame-encode_frame :
    (env : NetworkEnvelope) (rest : Bytes)
    → IsValid env
    → ((length (serialize env) ≤ max_frame_bytes)
        × (frame : Bytes) × (encode_frame env ≡ ok frame)
        × (decode_frame (frame ++ rest) ≡ ok env))
      ⊎ ((max_frame_bytes < length (serialize env))
          × (encode_frame env ≡ err (too_large (length (serialize env)))))
unfolding encode_frame
decode_frame-encode_frame env rest valid =
    let payload = serialize env in
    let len = to_le_bytes 4 (length payload % u32_mod) in
    elim (Bool-cases (ltb max_frame_bytes (length payload))) [
      | inl large ↦ inr (ltb→lt _ _ large, rw large refl)
      | inr small ↦
          let fits : length payload ≤ max_frame_bytes = ground arith in
          inl (
            fits,
            frame_magic ++ (len ++ payload),
            rw small refl,
            subst (λ (frame : Bytes). decode_frame frame ≡ ok env)
                (ap (λ (b : Bytes). frame_magic ++ b) (sym (append_assoc len payload rest)))
                (decode_frame-framed env rest valid fits),
          )
    ]
