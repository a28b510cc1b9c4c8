-- ===== src/Envelope/RoundTrip.antt =====
-- crates/network/src/lib.rs: an envelope comes back from its bytes, and their number.
use shadowgram.Base.{
  ℕ, ◌+◌, ◌%◌, ◌<◌, ◌≡◌, refl, sym, ap, ◌∙◌, some, ◌∷◌, ◌++◌, length, take, drop, Bytes,
  to_le_bytes, from_le_bytes, length-to_le_bytes, from_le_bytes-to_le_bytes, u32_mod, u64_mod,
  length-append, take-append, drop-append, take_all, append_assoc, drop-drop, arith,
}
use shadowgram.Base.Outcome.{ok}
use shadowgram.Envelope.{MessageType, NetworkEnvelope, type_byte, type_of, serialize, deserialize}
use shadowgram.Envelope.Parsing.{
  payload_length, padding_length, envelope_at, IsComplete, deserialize_complete,
}

-- The lengths fit into four bytes, the time into eight.
pub record IsValid (env : NetworkEnvelope) : Type 0 where
  pub payload : length env.payload < u32_mod
  pub padding : length env.padding < u32_mod
  pub time : env.timestamp < u64_mod

type_of-type_byte : (t : MessageType) → type_of (type_byte t) ≡ some t
unfolding type_of type_byte
type_of-type_byte MessageType.handshake = refl
type_of-type_byte MessageType.ratchet = refl
type_of-type_byte MessageType.message = refl
type_of-type_byte MessageType.control = refl
type_of-type_byte MessageType.cover = refl

abbrev envelope : MessageType → Bytes → Bytes → ℕ → NetworkEnvelope
envelope ty p q t = record { msg_type = ty; payload = p; padding = q; timestamp = t }

envelope_eq :
    {p p' q q' : Bytes} {t t' : ℕ} (ty : MessageType)
    → p ≡ p'
    → q ≡ q'
    → t ≡ t'
    → envelope ty p q t ≡ envelope ty p' q' t'
envelope_eq ty e f g = rw (e, f, g) refl

-- Five pieces behind the type byte.
module _ (b : ℕ) (n m p q t : Bytes) (hn : length n ≡ 4) (hm : length m ≡ 4)
    (ht : length t ≡ 8) where
  abbrev row : Bytes
  row = b ∷ (n ++ (m ++ (p ++ (q ++ t))))

  length-row : length row ≡ 17 + length p + length q
  length-row = omega (
    arith,
    length-append n (m ++ (p ++ (q ++ t))),
    length-append m (p ++ (q ++ t)),
    length-append p (q ++ t),
    length-append q t,
  )

  drop-lengths : drop 5 row ≡ m ++ (p ++ (q ++ t))
  drop-lengths = drop-append n (m ++ (p ++ (q ++ t))) 4 (sym hn)

  drop-payload : drop 9 row ≡ p ++ (q ++ t)
  drop-payload =
      ap (drop 8) (sym (append_assoc n m (p ++ (q ++ t))))
      ∙ drop-append (n ++ m) (p ++ (q ++ t)) 8 (omega (arith, length-append n m))

  drop-padding : drop (9 + length p) row ≡ q ++ t
  drop-padding =
      sym (drop-drop 9 (length p) row)
      ∙ ap (drop (length p)) drop-payload
      ∙ drop-append p (q ++ t) (length p) refl

  drop-time : drop (9 + length p + length q) row ≡ t
  drop-time =
      sym (drop-drop (9 + length p) (length q) row)
      ∙ ap (drop (length q)) drop-padding
      ∙ drop-append q t (length q) refl

  envelope_at-row :
      (ty : MessageType)
      → from_le_bytes n ≡ length p
      → from_le_bytes m ≡ length q
      → envelope_at ty row
        ≡ record { msg_type = ty; payload = p; padding = q; timestamp = from_le_bytes t }
  envelope_at-row ty en em =
      let size : payload_length row ≡ length p =
        ap from_le_bytes (take-append n (m ++ (p ++ (q ++ t))) 4 (sym hn)) ∙ en in
      let size' : padding_length row ≡ length q =
        ap (λ bytes. from_le_bytes (take 4 bytes)) drop-lengths
        ∙ ap from_le_bytes (take-append m (p ++ (q ++ t)) 4 (sym hm))
        ∙ em in
      let payload : take (payload_length row) (drop 9 row) ≡ p =
        ap (λ k. take k (drop 9 row)) size
        ∙ ap (take (length p)) drop-payload
        ∙ take-append p (q ++ t) (length p) refl in
      let padding : take (padding_length row) (drop (9 + payload_length row) row) ≡ q =
        rw (size, size') (ap (take (length q)) drop-padding ∙ take-append q t (length q) refl) in
      let time : take 8 (drop (9 + payload_length row + padding_length row) row) ≡ t =
        rw (size, size') (ap (take 8) drop-time ∙ take_all 8 t (omega (arith, ht))) in
      envelope_eq ty payload padding (ap from_le_bytes time)

  row-IsComplete : from_le_bytes n ≡ length p → from_le_bytes m ≡ length q → IsComplete row
  row-IsComplete en em =
      let size = take-append n (m ++ (p ++ (q ++ t))) 4 (sym hn) in
      let size' = take-append m (p ++ (q ++ t)) 4 (sym hm) in
      rw (drop-lengths, size, size', en, em) length-row

-- An envelope whose lengths and time fit comes back from its bytes.
pub deserialize-serialize_envelope :
    (env : NetworkEnvelope) → IsValid env → deserialize (serialize env) ≡ ok env
unfolding serialize
deserialize-serialize_envelope env v =
    let p = env.payload in
    let q = env.padding in
    let n = to_le_bytes 4 (length p % u32_mod) in
    let m = to_le_bytes 4 (length q % u32_mod) in
    let t = to_le_bytes 8 env.timestamp in
    let hn = length-to_le_bytes 4 (length p % u32_mod) in
    let hm = length-to_le_bytes 4 (length q % u32_mod) in
    let ht = length-to_le_bytes 8 env.timestamp in
    let en : from_le_bytes n ≡ length p =
      from_le_bytes-to_le_bytes 4 (length p % u32_mod) (omega arith) ∙ omega (arith, v.payload) in
    let em : from_le_bytes m ≡ length q =
      from_le_bytes-to_le_bytes 4 (length q % u32_mod) (omega arith) ∙ omega (arith, v.padding) in
    let et = from_le_bytes-to_le_bytes 8 env.timestamp v.time in
    let b = type_byte env.msg_type in
    deserialize_complete env.msg_type b (n ++ (m ++ (p ++ (q ++ t))))
      (type_of-type_byte env.msg_type) (row-IsComplete b n m p q t hn hm ht en em)
    ∙ ap ok (
        envelope_at-row b n m p q t hn hm ht env.msg_type en em
        ∙ envelope_eq env.msg_type refl refl et)

pub length-serialize :
    (env : NetworkEnvelope) → length (serialize env) ≡ 17 + length env.payload + length env.padding
unfolding serialize
length-serialize env =
    length-row (type_byte env.msg_type) (to_le_bytes 4 (length env.payload % u32_mod))
      (to_le_bytes 4 (length env.padding % u32_mod)) env.payload env.padding
      (to_le_bytes 8 env.timestamp) (length-to_le_bytes 4 (length env.payload % u32_mod))
      (length-to_le_bytes 4 (length env.padding % u32_mod)) (length-to_le_bytes 8 env.timestamp)
