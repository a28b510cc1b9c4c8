-- ===== src/Mailbox.antt =====
-- crates/network/src/mailbox.rs: envelopes, and the relay's store-and-forward mailbox.
-- The clock and the random generator are arguments; BLAKE3 is a parameter, a function of the
-- recipient's fingerprint.
pub mod View
pub mod Invariant
pub mod Refinement
pub mod Delivery
pub mod Limits
mod Tests
use shadowgram.Base.{
  ℕ, ◌+◌, ◌*◌, ◌%◌, String, Bool, not, none, some, List, [], ◌∷◌, ◌++◌, map, length, is_empty,
  retain, any, ltb, leb, ◌==◌, if◌then◌else◌, Bytes, ◌===◌, bytes_Eq, lookup, insert, remove,
  entry_or_default, get_or, retain_mut, sum, Result, ok, err, u64_mod,
}

-- 7 days.
abbrev pub mailbox_ttl_secs : ℕ
mailbox_ttl_secs = 7 * 24 * 3600

abbrev pub max_envelope_bytes : ℕ
max_envelope_bytes = 256 * 1024

abbrev pub max_pending_per_recipient : ℕ
max_pending_per_recipient = 100

pub data MailboxError : Type 0 where
  message_too_large : ℕ → MailboxError
  mailbox_full : MailboxError
  not_found : MailboxError
  serialization_error : String → MailboxError

pub record MailboxEnvelope : Type 0 where
  pub message_id : Bytes
  pub recipient_hash : Bytes
  pub ciphertext : Bytes
  pub expires_at : ℕ
  pub created_at : ℕ

unfoldable pub is_expired : ℕ → MailboxEnvelope → Bool
is_expired now env = ltb env.expires_at now

-- The test of the closures `|e| !e.is_expired()`.
abbrev pub is_live : ℕ → MailboxEnvelope → Bool
is_live now env = not (is_expired now env)

abbrev pub has_id : Bytes → MailboxEnvelope → Bool
has_id id env = env.message_id === id

-- The map from a recipient's hash to the queued envelopes, the field `store` of the source.
pub record RelayMailbox : Type 0 where
  pub slots : List (Bytes × List MailboxEnvelope)

unfoldable pub new : RelayMailbox
new = record { slots = [] }

unfoldable pub store :
    RelayMailbox → MailboxEnvelope → RelayMailbox × Result (Unit {0}) MailboxError
store m env =
    let slots = entry_or_default env.recipient_hash [] m.slots in
    let slot = get_or env.recipient_hash [] slots in
    if ltb max_envelope_bytes (length env.ciphertext)
    then (m, err (message_too_large (length env.ciphertext)))
    else if leb max_pending_per_recipient (length slot)
    then (record { slots = slots }, err mailbox_full)
    else if any (has_id env.message_id) slot
    then (record { slots = slots }, ok tt)
    else (record { slots = insert env.recipient_hash (slot ++ env ∷ []) slots }, ok tt)

-- The closure of `sweep_expired`: the slot without what is expired, and whether it stays.
unfoldable pub sweep_slot : ℕ → List MailboxEnvelope → List MailboxEnvelope × Bool
sweep_slot now slot = let kept = retain (is_live now) slot in (kept, not (is_empty kept))

unfoldable pub sweep_expired : ℕ → RelayMailbox → RelayMailbox
unfolding sweep_slot
sweep_expired now m = record { slots = retain_mut (sweep_slot now) m.slots }

unfoldable pub total_count : RelayMailbox → ℕ
total_count m = sum (map (λ e. length e.1) m.slots)

-- A call on the relay, at the time that it is made.
pub data Call : Type 0 where
  stores : MailboxEnvelope → Call
  retrieves : String → Call
  acknowledges : String → Bytes → Call
  sweeps : Call

module _ (blake3 : String → Bytes) where
  -- `MailboxEnvelope::new`, of the random `message_id` and the time.
  unfoldable pub new_envelope : Bytes → ℕ → String → Bytes → ℕ → Result MailboxEnvelope MailboxError
  new_envelope message_id now recipient_fingerprint ciphertext ttl_secs =
      if ltb max_envelope_bytes (length ciphertext)
      then err (message_too_large (length ciphertext))
      else ok (record {
        message_id = message_id;
        recipient_hash = blake3 recipient_fingerprint;
        ciphertext = ciphertext;
        expires_at = (now + ttl_secs) % u64_mod;
        created_at = now;
      })

  -- `split_off(0)` leaves the slot empty, so it is removed.
  unfoldable pub retrieve : ℕ → RelayMailbox → String → RelayMailbox × List MailboxEnvelope
  retrieve now m recipient_fingerprint =
      let hash = blake3 recipient_fingerprint in
      let slots = entry_or_default hash [] m.slots in
      let envelopes = retain (is_live now) (get_or hash [] slots) in
      let left : List MailboxEnvelope = [] in
      let slots = insert hash left slots in
      (record { slots = if is_empty left then remove hash slots else slots }, envelopes)

  unfoldable pub acknowledge :
      RelayMailbox → String → Bytes → RelayMailbox × Result (Unit {0}) MailboxError
  acknowledge m recipient_fingerprint message_id =
      let hash = blake3 recipient_fingerprint in
      elim (lookup hash m.slots) [
        | none ↦ (m, err not_found)
        | some slot ↦
            let kept = retain (λ e. not (has_id message_id e)) slot in
            if length kept == length slot
            then (record { slots = insert hash kept m.slots }, err not_found)
            else if is_empty kept
            then (record { slots = remove hash m.slots }, ok tt)
            else (record { slots = insert hash kept m.slots }, ok tt)
      ]

  unfoldable pub pending_count : RelayMailbox → String → ℕ
  pending_count m recipient_fingerprint = elim (lookup (blake3 recipient_fingerprint) m.slots) [
    | none ↦ 0
    | some slot ↦ length slot
  ]

  unfoldable pub step : RelayMailbox → ℕ × Call → RelayMailbox
  step m (now, stores env) = (store m env).0
  step m (now, retrieves fingerprint) = (retrieve now m fingerprint).0
  step m (now, acknowledges fingerprint id) = (acknowledge m fingerprint id).0
  step m (now, sweeps) = sweep_expired now m

  unfoldable pub run : RelayMailbox → List (ℕ × Call) → RelayMailbox
  run m [] = m
  run m (c ∷ cs) = run (step m c) cs
