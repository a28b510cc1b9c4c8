-- ===== src/Outbound/Tests.antt =====
-- crates/network/src/mailbox.rs: runs of the queue's tests, and the theorems at a concrete queue.
use shadowgram.Base.{
  ◌+◌, ◌*◌, ◌^◌, ◌≡◌, refl, min, false, List, [], ◌∷◌, ◌++◌, bytes_Eq, bytes_eq, retain, any,
  update_first, arith,
}
use shadowgram.Mailbox.{MailboxEnvelope, is_expired}
use shadowgram.Outbound.{
  PendingOutbound, OutboundQueue, new, enqueue, due, is_for, back_off, backoff, record_attempt,
  sweep_expired, len,
}
use shadowgram.Outbound.Retries.{record_attempt_failed}

abbrev envelope : MailboxEnvelope
envelope = record {
  message_id = 7 ∷ [];
  recipient_hash = 1 ∷ [];
  ciphertext = 1 ∷ 2 ∷ 3 ∷ [];
  expires_at = 5000;
  created_at = 0;
}

abbrev entry : PendingOutbound
entry = record {
  envelope = envelope;
  relay_address = "relay.onion:8080";
  attempts = 0;
  retry_after = 0;
}

abbrev queue : OutboundQueue
queue = record { pending = entry ∷ [] }

program : Unit {0}
unfolding new enqueue due back_off backoff record_attempt sweep_expired len bytes_eq retain any
    update_first is_expired
program = tt

enqueued : enqueue new envelope "relay.onion:8080" ≡ queue
unfolding program
enqueued = refl

-- test_outbound_queue_backoff_on_failure
first_failure :
    (record_attempt 1000 queue (7 ∷ []) false).pending
    ≡ record entry { attempts = 1; retry_after = 1030 } ∷ []
unfolding program
first_failure = refl

record_attempt_failed_example :
    (before : List PendingOutbound) × (p : PendingOutbound) × (after : List PendingOutbound)
    × (queue.pending ≡ before ++ p ∷ after)
    × (p.envelope.message_id ≡ 7 ∷ [])
    × (any (is_for (7 ∷ [])) before ≡ false)
    × ((record_attempt 1000 queue (7 ∷ []) false).pending
        ≡ before
          ++ record p {
            attempts = p.attempts + 1;
            retry_after = 1000 + min (30 * 2 ^ p.attempts) 3600;
          }
            ∷ after)
unfolding any bytes_eq
record_attempt_failed_example =
    record_attempt_failed 1000 queue (7 ∷ []) refl (omega arith, tt) (omega arith)
