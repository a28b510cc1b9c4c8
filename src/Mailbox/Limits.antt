-- ===== src/Mailbox/Limits.antt =====
-- crates/network/src/mailbox.rs: how much a relay can be made to hold.
use shadowgram.Base.{
  ℕ, ◌*◌, ◌≤◌, String, List, [], ◌∷◌, Bytes, bytes_Eq, length, map, sum, arith, AllEntries,
}
use shadowgram.Mailbox.{
  MailboxEnvelope, max_pending_per_recipient, new, pending_count, total_count, Call, run,
}
use shadowgram.Mailbox.View.{pending_count-view}
use shadowgram.Mailbox.Invariant.{ValidSlot, new-IsValid, run-IsValid, get_or-ValidQueue}

sum-lengths-le :
    (slots : List (Bytes × List MailboxEnvelope))
    → AllEntries ValidSlot slots
    → sum (map (λ e. length e.1) slots) ≤ max_pending_per_recipient * length slots
unfolding sum
sum-lengths-le [] h = omega arith
sum-lengths-le ((k, s) ∷ slots) h = omega (arith, sum-lengths-le slots h.1, h.0.queue.bounded)

-- After any calls on a new mailbox, no recipient has more than a hundred envelopes pending, and
-- the total is at most a hundred for each recipient that has any.
pub run-pending_count-le :
    (blake3 : String → Bytes) (cs : List (ℕ × Call)) (fp : String)
    → (pending_count blake3 (run blake3 new cs) fp ≤ max_pending_per_recipient)
      × (total_count (run blake3 new cs)
          ≤ max_pending_per_recipient * length (run blake3 new cs).slots)
unfolding total_count
run-pending_count-le blake3 cs fp =
    let m = run blake3 new cs in
    let v = run-IsValid blake3 new cs new-IsValid in
    (
      omega (arith, pending_count-view blake3 m fp, (get_or-ValidQueue m (blake3 fp) v).bounded),
      sum-lengths-le m.slots v.slots,
    )
