-- ===== src/Frame.antt =====
-- crates/network/src/message_transport.rs: the frames that carry network envelopes over a stream.
pub mod RoundTrip
mod Tests
use shadowgram.Base.{
  ℕ, ◌+◌, ◌%◌, ◌*◌, String, List, [], ◌∷◌, ◌++◌, length, ltb, if◌then◌else◌, Bytes, bytes_eq, not,
  u32_mod, to_le_bytes, from_le_bytes, as_bytes,
}
use shadowgram.Base.Outcome.{Outcome, ok, err, panicked, ◌>>=◌, slice, array_of}
use shadowgram.Envelope.{NetworkEnvelope, NetworkError, serialize, deserialize}

abbrev pub frame_magic : Bytes
frame_magic = as_bytes "SGM1"

abbrev pub max_frame_bytes : ℕ
max_frame_bytes = 256 * 1024

pub data TransportDeliveryError : Type 0 where
  not_ready : TransportDeliveryError
  network : String → TransportDeliveryError
  too_large : ℕ → TransportDeliveryError
  framing : String → TransportDeliveryError

-- `e.to_string()` of an error of the envelope: its template.
unfoldable pub network_message : NetworkError → String
network_message (NetworkError.transport_error s) = "Transport error: {0}"
network_message (NetworkError.connection_failed s) = "Connection failed: {0}"
network_message NetworkError.timeout = "Timeout exceeded"
network_message (NetworkError.invalid_format s) = "Invalid format: {0}"
network_message (NetworkError.peer_not_found s) = "Peer not found: {0}"
network_message (NetworkError.serialization_error s) = "Serialization error: {0}"
network_message (NetworkError.routing_failed s) = "Routing failed: {0}"

-- `.map_err(|e| Framing(e.to_string()))`
unfoldable pub framed_error :
    Outcome NetworkEnvelope NetworkError → Outcome NetworkEnvelope TransportDeliveryError
framed_error (ok env) = ok env
framed_error (err e) = err (framing (network_message e))
framed_error panicked = panicked

unfoldable pub encode_frame : NetworkEnvelope → Outcome Bytes TransportDeliveryError
encode_frame envelope =
    let payload = serialize envelope in
    if ltb max_frame_bytes (length payload)
    then err (too_large (length payload))
    else ok (frame_magic ++ (to_le_bytes 4 (length payload % u32_mod) ++ payload))

-- What decode_frame does behind the magic bytes.
unfoldable pub decode_body : Bytes → Outcome NetworkEnvelope TransportDeliveryError
decode_body bytes = do
  prefix ← array_of 4 bytes 4 8 (framing "bad length field")
  let len = from_le_bytes prefix
  if ltb (length bytes) (8 + len)
      then err (framing "incomplete frame")
      else slice bytes 8 (8 + len) >>= λ payload. framed_error (deserialize payload)

unfoldable pub decode_frame : Bytes → Outcome NetworkEnvelope TransportDeliveryError
decode_frame bytes =
    if ltb (length bytes) 8
    then err (framing "frame too short")
    else slice bytes 0 4 >>= λ magic.
        if not (bytes_eq magic frame_magic) then err (framing "bad magic") else decode_body bytes
