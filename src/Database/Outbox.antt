-- ===== src/Database/Outbox.antt =====
-- crates/storage/src/database.rs: the pending envelopes of the outbox. Times are words, which SQL
-- compares as signed numbers.
use shadowgram.Base.{ℕ, ◌-◌, Bool, not, List, Bytes, length, retain, ◌===◌, bytes_Eq, Result, ok}
use shadowgram.Database.{Tables, PendingOutboxRow, DbError}
use shadowgram.Database.Queries.{order_by, replace_row, signed_ltb}

unfoldable pub store_pending_outbox : Tables → PendingOutboxRow → Tables × Result (Unit {0}) DbError
store_pending_outbox t row = (
  record t {
    pending_outbox = replace_row (λ r. r.message_id === row.message_id) row t.pending_outbox;
  },
  ok tt,
)

-- `expires_at > ?1`
abbrev pub is_pending : ℕ → PendingOutboxRow → Bool
is_pending now row = signed_ltb now row.expires_at

unfoldable pub load_pending_outbox : ℕ → Tables → Tables × Result (List PendingOutboxRow) DbError
load_pending_outbox now t = (
  t,
  ok (
      order_by (λ a b. signed_ltb a.retry_after b.retry_after)
        (retain (is_pending now) t.pending_outbox)),
)

unfoldable pub delete_pending_outbox : Tables → Bytes → Tables × Result (Unit {0}) DbError
delete_pending_outbox t message_id = (
  record t { pending_outbox = retain (λ r. not (r.message_id === message_id)) t.pending_outbox },
  ok tt,
)

-- `expires_at <= ?1`; the answer is the number of rows that went.
unfoldable pub sweep_expired_outbox : ℕ → Tables → Tables × Result ℕ DbError
sweep_expired_outbox now t =
    let kept = retain (is_pending now) t.pending_outbox in
    (record t { pending_outbox = kept }, ok (length t.pending_outbox - length kept))
