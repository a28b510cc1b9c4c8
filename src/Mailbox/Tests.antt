-- ===== src/Mailbox/Tests.antt =====
-- crates/network/src/mailbox.rs: runs of its tests, and the theorems at concrete mailboxes.
use shadowgram.Base.{
  ℕ, ◌≡◌, refl, String, if◌then◌else◌, List, [], ◌∷◌, Bytes, ok, err, lookup, insert, remove,
  retain, any, entry_or_default, get_or, contains_key, bytes_eq, retain_mut, sum, arith, inr,
  bytes_Eq,
}
use text.Mathlib.Text.{◌==◌ as str_eq}
use shadowgram.Mailbox.{
  MailboxEnvelope, not_found, is_expired, new, store, retrieve, acknowledge, sweep_expired,
  pending_count, total_count, Call, stores, retrieves, acknowledges, sweeps, step, run,
  new_envelope,
}
use shadowgram.Mailbox.View.{view}
use shadowgram.Mailbox.Invariant.{IsValid, new-IsValid, step-IsValid}
use shadowgram.Mailbox.Refinement.{spec_run, view-run}
use shadowgram.Mailbox.Delivery.{Has, retrieve-store, acknowledge-retrieve}

abbrev hash_of : String → Bytes
hash_of s = if str_eq s "alice" then 1 ∷ [] else 2 ∷ []

abbrev envelope : MailboxEnvelope
envelope = record {
  message_id = 7 ∷ [];
  recipient_hash = 1 ∷ [];
  ciphertext = 1 ∷ 2 ∷ 3 ∷ [];
  expires_at = 100;
  created_at = 0;
}

abbrev other : MailboxEnvelope
other = record envelope { message_id = 8 ∷ []; recipient_hash = 2 ∷ [] }

abbrev calls : List (ℕ × Call)
calls =
    (5, stores other)
    ∷ (6, retrieves "bob")
    ∷ (50, sweeps)
    ∷ (60, acknowledges "alice" (9 ∷ []))
    ∷ []

program : Unit {0}
unfolding new store retrieve acknowledge sweep_expired pending_count total_count run step lookup
    insert remove retain any entry_or_default get_or contains_key bytes_eq retain_mut is_expired sum
    new_envelope
program = tt

-- test_store_and_retrieve
store_and_retrieve : (retrieve hash_of 50 (store new envelope).0 "alice").1 ≡ envelope ∷ []
unfolding program
store_and_retrieve = refl

-- test_dedup_idempotent
dedup : pending_count hash_of (store (store new envelope).0 envelope).0 "alice" ≡ 1
unfolding program
dedup = refl

-- test_sweep_expired_removes_old_messages
sweep_removes : total_count (sweep_expired 101 (store new envelope).0) ≡ 0
unfolding program
sweep_removes = refl

-- test_max_envelope_size_rejected, at a size that is accepted
new_envelope_accepted : new_envelope hash_of (7 ∷ []) 0 "alice" (1 ∷ 2 ∷ 3 ∷ []) 100 ≡ ok envelope
unfolding program
new_envelope_accepted = refl

step-IsValid_example : IsValid (step hash_of new (0, stores envelope))
step-IsValid_example = step-IsValid hash_of new (0, stores envelope) new-IsValid

view-run_example : view (run hash_of new calls) ≡ spec_run hash_of (view new) calls
view-run_example = view-run hash_of new calls new-IsValid

retrieve-store_example :
    ((store new envelope).1 ≡ ok tt)
    × Has envelope (retrieve hash_of 90 (run hash_of (store new envelope).0 calls) "alice").1
unfolding new get_or any
retrieve-store_example =
    retrieve-store hash_of new envelope calls 90 "alice" new-IsValid (omega arith) (omega arith)
      refl (tt, ((λ e. cc), (omega arith, (inr (λ e. cc), tt)))) (omega arith) refl

acknowledge-retrieve_example :
    (acknowledge hash_of (retrieve hash_of 50 (store new envelope).0 "alice").0 "alice" (7 ∷ [])).1
    ≡ err not_found
acknowledge-retrieve_example =
    acknowledge-retrieve hash_of (store new envelope).0 50 "alice" (7 ∷ [])
