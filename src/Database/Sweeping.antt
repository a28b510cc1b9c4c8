-- ===== src/Database/Sweeping.antt =====
-- crates/storage/src/database.rs: what a sweep of the outbox takes away.
use shadowgram.Base.{
  ◌≡◌, refl, ap, ℕ, ◌+◌, true, false, not, List, [], ◌∷◌, length, retain, arith, ok,
}
use shadowgram.Database.{Tables, PendingOutboxRow}
use shadowgram.Database.Queries.{order_by, signed_ltb}
use shadowgram.Database.Outbox.{is_pending, load_pending_outbox, sweep_expired_outbox}

-- A row that is pending later is pending now.
is_pending-before :
    (now later : ℕ) (row : PendingOutboxRow)
    → signed_ltb later now ≡ false
    → is_pending later row ≡ true
    → is_pending now row ≡ true
unfolding signed_ltb
is_pending-before now later row h k = ground (arith, h, k)

retain-retain_pending :
    (now later : ℕ) (rows : List PendingOutboxRow)
    → signed_ltb later now ≡ false
    → retain (is_pending later) (retain (is_pending now) rows) ≡ retain (is_pending later) rows
unfolding retain
retain-retain_pending now later [] h = refl
retain-retain_pending now later (r ∷ rows) h =
    ground (arith, is_pending-before now later r h, retain-retain_pending now later rows h)

length-retain_split :
    (now : ℕ) (rows : List PendingOutboxRow)
    → length (retain (is_pending now) rows) + length (retain (λ r. not (is_pending now r)) rows)
      ≡ length rows
unfolding retain
length-retain_split now [] = refl
length-retain_split now (r ∷ rows) = ground (arith, length-retain_split now rows)

-- A sweep answers with the number of the rows that have expired, and no load at that time or later
-- tells whether there was one.
pub load_pending_outbox-sweep_expired_outbox :
    (now later : ℕ) (t : Tables)
    → signed_ltb later now ≡ false
    → ((load_pending_outbox later (sweep_expired_outbox now t).0).1
        ≡ (load_pending_outbox later t).1)
      × ((sweep_expired_outbox now t).1
          ≡ ok (length (retain (λ r. not (is_pending now r)) t.pending_outbox)))
unfolding load_pending_outbox sweep_expired_outbox
load_pending_outbox-sweep_expired_outbox now later t h = (
  ap (λ rows. ok (order_by (λ a b. signed_ltb a.retry_after b.retry_after) rows))
      (retain-retain_pending now later t.pending_outbox h),
  ap ok (omega (arith, length-retain_split now t.pending_outbox)),
)
