-- ===== src/Envelope/Tests.antt =====
-- crates/network/src/lib.rs: the theorems at an example.
use shadowgram.Base.{ℕ, zero, suc, ◌≡◌, [], ◌∷◌, Bytes, length, refl, ap, arith}
use shadowgram.Base.Outcome.{ok}
use shadowgram.Envelope.{MessageType, NetworkEnvelope, serialize, deserialize}
use shadowgram.Envelope.RoundTrip.{deserialize-serialize_envelope}

abbrev zeros : ℕ → Bytes
zeros zero = []
zeros (suc n) = 0 ∷ zeros n

length-zeros : (n : ℕ) → length (zeros n) ≡ n
length-zeros zero = refl
length-zeros (suc n) = ap suc (length-zeros n)

abbrev hello : NetworkEnvelope
hello = record {
  msg_type = MessageType.message;
  payload = 104 ∷ 105 ∷ [];
  padding = 0 ∷ 0 ∷ 0 ∷ [];
  timestamp = 1700000000;
}

abbrev cut : Bytes
cut = 3 ∷ 0 ∷ []

deserialize-serialize_envelope_example : deserialize (serialize hello) ≡ ok hello
deserialize-serialize_envelope_example =
    deserialize-serialize_envelope hello
      (record { payload = omega arith; padding = omega arith; time = omega arith })
