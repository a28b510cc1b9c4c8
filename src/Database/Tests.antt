-- ===== src/Database/Tests.antt =====
-- crates/storage/src/database.rs: the theorems at a client with one identity and one contact.
use shadowgram.Base.{
  bytes_eq, ℕ, ◌≡◌, refl, not, some, List, [], ◌∷◌, Bytes, length, retain, ok, err, any,
}
use shadowgram.Database.{Tables, PendingOutboxRow, empty_tables, sql_error}
use shadowgram.Database.Queries.{signed_ltb, insert_by, order_by, page, replace_row}
use shadowgram.Database.Messages.{
  arrived, get_messages, next_sequence, max_sequence, rows_of, ensure_conversation, store_message,
}
use shadowgram.Database.Identities.{store_identity, store_contact}
use shadowgram.Database.Outbox.{
  is_pending, load_pending_outbox, sweep_expired_outbox, store_pending_outbox,
}
use shadowgram.Database.Calls.{
  DbCall, run, step, ensures, stores_message, stores_identity, stores_contact, stores_pending,
}
use shadowgram.Database.Consistency.{IsConsistent, run-IsConsistent}
use shadowgram.Database.Sweeping.{load_pending_outbox-sweep_expired_outbox}

abbrev envelope : Bytes → ℕ → PendingOutboxRow
envelope id expires_at = record {
  message_id = id;
  relay_address = "relay";
  envelope_bytes = 1 ∷ [];
  attempts = 0;
  retry_after = 0;
  expires_at = expires_at;
}

-- The second message at the same place is refused, and so is the one of another conversation.
abbrev calls : List DbCall
calls =
    stores_identity 1 "alice" (1 ∷ []) (2 ∷ [])
    ∷ stores_contact 2 "bob" "Bob" (3 ∷ []) 1
    ∷ ensures 3 (9 ∷ []) 1 (some "bob") (some "alice")
    ∷ stores_message 4 (9 ∷ []) 1 2 (5 ∷ []) 2
    ∷ stores_message 5 (9 ∷ []) 2 1 (6 ∷ []) 3
    ∷ stores_message 6 (9 ∷ []) 1 1 (7 ∷ []) 3
    ∷ stores_message 7 (8 ∷ []) 1 1 (7 ∷ []) 3
    ∷ stores_pending (envelope (1 ∷ []) 5)
    ∷ stores_pending (envelope (2 ∷ []) 20)
    ∷ []

abbrev tables : Tables
tables = run empty_tables calls

program : Unit {0}
unfolding any bytes_eq retain insert_by order_by page replace_row max_sequence rows_of
    ensure_conversation arrived store_message store_identity store_contact store_pending_outbox step
    run get_messages
program = tt

two_messages : length tables.messages ≡ 2
unfolding program
two_messages = refl

later_first :
    (get_messages tables (9 ∷ []) 1 0).1
    ≡ ok (
        record { sequence = 2; direction = 1; envelope = 6 ∷ []; status = 3; received_at = 5 } ∷ [])
unfolding program
later_first = refl

no_first_sequence :
    next_sequence tables (8 ∷ []) ≡ (tables, err (sql_error "Invalid column type Null"))
unfolding program next_sequence
no_first_sequence = refl

run-IsConsistent_example : IsConsistent tables
run-IsConsistent_example = run-IsConsistent calls

load_pending_outbox-sweep_expired_outbox_example :
    ((load_pending_outbox 12 (sweep_expired_outbox 10 tables).0).1
      ≡ (load_pending_outbox 12 tables).1)
    × ((sweep_expired_outbox 10 tables).1
        ≡ ok (length (retain (λ r. not (is_pending 10 r)) tables.pending_outbox)))
unfolding signed_ltb
load_pending_outbox-sweep_expired_outbox_example =
    load_pending_outbox-sweep_expired_outbox 10 12 tables refl
