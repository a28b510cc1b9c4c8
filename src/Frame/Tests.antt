-- ===== src/Frame/Tests.antt =====
-- crates/network/src/message_transport.rs: a frame, and the theorems at it.
use shadowgram.Base.{◌<◌, ◌⊎◌, ◌++◌, refl, Bytes, ◌≤◌, ◌≡◌, [], ◌∷◌, to_le_bytes, length, arith}
use shadowgram.Base.Outcome.{ok, err}
use shadowgram.Envelope.{NetworkEnvelope, MessageType, serialize, type_byte}
use shadowgram.Envelope.RoundTrip.{IsValid}
use shadowgram.Frame.{encode_frame, decode_frame, max_frame_bytes, too_large}
use shadowgram.Frame.RoundTrip.{decode_frame-encode_frame}

abbrev envelope : NetworkEnvelope
envelope = record {
  msg_type = MessageType.message;
  payload = 1 ∷ 2 ∷ 3 ∷ [];
  padding = 9 ∷ [];
  timestamp = 5;
}

envelope-IsValid : IsValid envelope
envelope-IsValid = record { payload = omega arith; padding = omega arith; time = omega arith }

frame_test :
    encode_frame envelope
    ≡ ok (
        83 ∷ 71 ∷ 77 ∷ 49 ∷ 21 ∷ 0 ∷ 0 ∷ 0 ∷ 3 ∷ 3 ∷ 0 ∷ 0 ∷ 0 ∷ 1 ∷ 0 ∷ 0 ∷ 0 ∷ 1 ∷ 2 ∷ 3 ∷ 9 ∷ 5
        ∷ 0 ∷ 0 ∷ 0 ∷ 0 ∷ 0 ∷ 0 ∷ 0 ∷ [])
unfolding encode_frame serialize type_byte to_le_bytes
frame_test = refl

decode_frame-encode_frame_example :
    ((length (serialize envelope) ≤ max_frame_bytes)
      × (frame : Bytes) × (encode_frame envelope ≡ ok frame)
      × (decode_frame (frame ++ 7 ∷ []) ≡ ok envelope))
    ⊎ ((max_frame_bytes < length (serialize envelope))
        × (encode_frame envelope ≡ err (too_large (length (serialize envelope)))))
decode_frame-encode_frame_example = decode_frame-encode_frame envelope (7 ∷ []) envelope-IsValid
