-- ===== src/Padding.antt =====
-- crates/network/src/padding.rs: the padding of a message, the constant-bandwidth counter, and the
-- fragments of a message. Sums and products of `usize` wrap at 2 ^ 64.
pub mod Rounding
pub mod Sizes
pub mod Fragments
pub mod Bandwidth
mod Tests
use shadowgram.Base.{
  ℕ, zero, suc, ◌+◌, ◌-◌, ◌*◌, ◌/◌, ◌%◌, min, max, String, Bool, List, [], ◌∷◌, ◌++◌, length, take,
  drop, ltb, ◌==◌, if◌then◌else◌, Bytes, Result, ok, err, u64_mod, u64_sub,
}
use shadowgram.Base.Outcome.{Outcome, panicked}
use shadowgram.Base.Outcome

pub record PaddingConfig : Type 0 where
  pub min_size : ℕ
  pub granularity : ℕ
  pub max_size : ℕ
  pub random_padding : Bool
  pub random_range : ℕ

pub data PaddingError : Type 0 where
  message_too_large : ℕ → ℕ → PaddingError
  invalid_config : String → PaddingError

pub record PaddedMessage : Type 0 where
  pub payload : Bytes
  pub padding : Bytes
  pub total_size : ℕ

unfoldable pub new : Bytes → PaddedMessage
new payload = record { payload = payload; padding = []; total_size = 0 }

-- Rounding up to the granularity, where there is one.
unfoldable pub round_up : ℕ → ℕ → ℕ
round_up granularity n =
    if ltb 0 granularity
    then u64_sub ((n + granularity) % u64_mod) 1 / granularity * granularity % u64_mod
    else n

-- The size to pad to, before the maximum; `extra` is the random number of bytes.
unfoldable pub padded_size : PaddingConfig → ℕ → ℕ → ℕ
padded_size config extra payload_len =
    let target_size = round_up config.granularity (max config.min_size payload_len) in
    if config.random_padding
    then round_up config.granularity ((target_size + extra) % u64_mod)
    else target_size

-- `fill` gives the random bytes of a length.
unfoldable pub pad :
    (ℕ → Bytes) → ℕ → PaddingConfig → PaddedMessage → PaddedMessage × Result (Unit {0}) PaddingError
pad fill extra config msg =
    let payload_len = length msg.payload in
    if ltb config.max_size payload_len
    then (msg, err (message_too_large payload_len config.max_size))
    else let target_size = min (padded_size config extra payload_len) config.max_size in
      (
        record msg { padding = fill (u64_sub target_size payload_len); total_size = target_size },
        ok tt,
      )

unfoldable pub serialize : PaddedMessage → Bytes
serialize msg = msg.payload ++ msg.padding

unfoldable pub deserialize : Bytes → ℕ → Result PaddedMessage PaddingError
deserialize bytes payload_len =
    if ltb (length bytes) payload_len
    then err (invalid_config "Data shorter than payload length")
    else ok (record {
      payload = take payload_len bytes;
      padding = drop payload_len bytes;
      total_size = length bytes;
    })

pub record ConstantBandwidth : Type 0 where
  pub packet_size : ℕ
  pub bytes_sent : ℕ
  pub target_per_interval : ℕ

unfoldable pub new_bandwidth : ℕ → ℕ → ConstantBandwidth
new_bandwidth packet_size target_bytes_per_sec = record {
  packet_size = packet_size;
  bytes_sent = 0;
  target_per_interval = target_bytes_per_sec;
}

-- `(n + size - 1) / size`, which panics where the size is zero.
unfoldable pub div_up : ℕ → ℕ → Outcome ℕ (Unit {0})
div_up n size = if size == 0 then panicked else Outcome.ok (u64_sub ((n + size) % u64_mod) 1 / size)

unfoldable pub packets_needed : ConstantBandwidth → Outcome ℕ (Unit {0})
packets_needed cb = div_up (cb.target_per_interval - cb.bytes_sent) cb.packet_size

unfoldable pub record_sent : ConstantBandwidth → ℕ → ConstantBandwidth
record_sent cb bytes = record cb { bytes_sent = (cb.bytes_sent + bytes) % u64_mod }

unfoldable pub reset_interval : ConstantBandwidth → ConstantBandwidth
reset_interval cb = record cb { bytes_sent = 0 }

unfoldable pub under_target : ConstantBandwidth → Bool
under_target cb = ltb cb.bytes_sent cb.target_per_interval

-- `message.chunks(size)` of a positive size; the length of the message is fuel enough.
unfoldable pub chunks_from : ℕ → ℕ → Bytes → List Bytes
chunks_from zero size message = []
chunks_from (suc fuel) size [] = []
chunks_from (suc fuel) size (b ∷ message) =
    take size (b ∷ message) ∷ chunks_from fuel size (drop size (b ∷ message))

-- The fragment of a chunk: filled up where it is short.
unfoldable pub fragment_of : (ℕ → Bytes) → ℕ → Bytes → Bytes
fragment_of fill size chunk =
    if ltb (length chunk) size then chunk ++ fill (size - length chunk) else chunk

unfoldable pub fragments_of : (ℕ → Bytes) → ℕ → List Bytes → List Bytes
fragments_of fill size [] = []
fragments_of fill size (c ∷ cs) = fragment_of fill size c ∷ fragments_of fill size cs

-- `chunks` panics for a size of zero.
unfoldable pub fragment : (ℕ → Bytes) → ℕ → Bytes → Outcome (List Bytes) (Unit {0})
fragment fill fragment_size message =
    if fragment_size == 0
    then panicked
    else Outcome.ok
        (fragments_of fill fragment_size (chunks_from (length message) fragment_size message))

-- The loop of `reassemble`, from index `i` on.
unfoldable pub reassemble_from : ℕ → ℕ → ℕ → List Bytes → Bytes
reassemble_from i fragment_size original_size [] = []
reassemble_from i fragment_size original_size (fragment ∷ fragments) =
    let start = i * fragment_size % u64_mod in
    let end = min ((start + length fragment) % u64_mod) original_size in
    let rest = reassemble_from (suc i) fragment_size original_size fragments in
    if ltb start original_size
    then take (min (u64_sub end start) (length fragment)) fragment ++ rest
    else rest

unfoldable pub reassemble : ℕ → List Bytes → ℕ → Bytes
reassemble fragment_size fragments original_size =
    reassemble_from 0 fragment_size original_size fragments

unfoldable pub fragment_count : ℕ → ℕ → Outcome ℕ (Unit {0})
fragment_count fragment_size message_len = div_up message_len fragment_size
