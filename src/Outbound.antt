-- ===== src/Outbound.antt =====
-- crates/network/src/mailbox.rs: the sender's queue of envelopes to deliver, with its back-off.
-- Sums of machine words wrap, as in a release build.
pub mod Backoff
pub mod Retries
mod Tests
use shadowgram.Base.{
  ℕ, ◌+◌, ◌-◌, ◌*◌, ◌%◌, ◌^◌, min, String, Bool, true, false, not, ◌&&◌, List, [], ◌∷◌, ◌++◌,
  length, is_empty, retain, update_first, leb, if◌then◌else◌, Bytes, u32_mod, u64_mod,
}
use shadowgram.Mailbox.{MailboxEnvelope, is_expired, is_live, has_id}

pub record PendingOutbound : Type 0 where
  pub envelope : MailboxEnvelope
  pub relay_address : String
  pub attempts : ℕ
  pub retry_after : ℕ

pub record OutboundQueue : Type 0 where
  pub pending : List PendingOutbound

unfoldable pub new : OutboundQueue
new = record { pending = [] }

unfoldable pub enqueue : OutboundQueue → MailboxEnvelope → String → OutboundQueue
enqueue q envelope relay_address = record { pending = q.pending ++ entry ∷ [] }
  where
    entry : PendingOutbound
    entry = record {
      envelope = envelope;
      relay_address = relay_address;
      attempts = 0;
      retry_after = 0;
    }

-- The closure of `due`.
abbrev pub is_due : ℕ → PendingOutbound → Bool
is_due now p = leb p.retry_after now && is_live now p.envelope

unfoldable pub due : ℕ → OutboundQueue → List PendingOutbound
due now q = retain (is_due now) q.pending

-- `a.saturating_mul(b)` on `u64`.
abbrev pub saturating_mul : ℕ → ℕ → ℕ
saturating_mul a b = min (a * b) (u64_mod - 1)

-- The seconds to wait after the given number of failed attempts.
unfoldable pub backoff : ℕ → ℕ
backoff attempts = min (saturating_mul 30 (2 ^ min (attempts - 1) 11)) 3600

-- What a failed attempt at `now` does to the entry.
unfoldable pub back_off : ℕ → PendingOutbound → PendingOutbound
back_off now p =
    let attempts = (p.attempts + 1) % u32_mod in
    record p { attempts = attempts; retry_after = (now + backoff attempts) % u64_mod }

abbrev pub is_for : Bytes → PendingOutbound → Bool
is_for message_id p = has_id message_id p.envelope

unfoldable pub record_attempt : ℕ → OutboundQueue → Bytes → Bool → OutboundQueue
record_attempt now q message_id success =
    if success
    then record { pending = retain (λ p. not (is_for message_id p)) q.pending }
    else record { pending = update_first (is_for message_id) (back_off now) q.pending }

unfoldable pub sweep_expired : ℕ → OutboundQueue → OutboundQueue
sweep_expired now q = record { pending = retain (λ p. is_live now p.envelope) q.pending }

unfoldable pub load_from : List PendingOutbound → OutboundQueue
load_from items = record { pending = items }

unfoldable pub len : OutboundQueue → ℕ
len q = length q.pending
