-- ===== src/Database/Consistency.antt =====
-- crates/storage/src/database.rs: what the constraints of the tables keep.
use shadowgram.Base.{
  map, ℕ, ◌⊎◌, sym, ◌&&◌, All-append, All-map, Bool-cases, inl, inr, inr, inl, string_Eq, ◌≡◌, refl,
  true, false, List, [], ◌∷◌, ◌++◌, Bytes, any, All, any-append, string_Eq, bytes_Eq, bytes_eq_iff,
  arith,
}
use shadowgram.Database.{empty_tables, ConversationRow, Tables, ConversationRow, MessageRow}
use shadowgram.Database.Messages.{
  ensure_conversation, store_message, has_contact, has_identity, has_conversation, is_at, arrived,
}
use shadowgram.Database.Identities.{store_identity, deactivate_all_identities, store_contact}
use shadowgram.Database.Outbox.{store_pending_outbox, delete_pending_outbox, sweep_expired_outbox}
use mathlib.Core.Path.{subst}
use shadowgram.Database.Triggers.{arrived_keeps, any-map-arrived, store_message_conversations}
use shadowgram.Database.Calls.{
  DbCall, step, run, Keeps, step-Keeps, ensures, stores_message, stores_identity, deactivates,
  stores_contact, stores_pending, deletes_pending, sweeps,
}

-- No two messages have the same conversation and sequence.
abbrev pub IsUnique : List (Bytes × MessageRow) → Type 0
IsUnique [] = Unit
IsUnique (m ∷ ms) = (any (is_at m.0 m.1.sequence) ms ≡ false) × IsUnique ms

abbrev pub HasParents : Tables → ConversationRow → Type 0
HasParents t c = (has_contact t c.peer_fingerprint ≡ true) × (has_identity t c.our_identity ≡ true)

pub record IsConsistent (t : Tables) : Type 0 where
  pub unique : IsUnique t.messages
  pub conversations : All (HasParents t) t.conversations
  pub messages : All (λ m. has_conversation t m.0 ≡ true) t.messages

IsUnique-append :
    (ms : List (Bytes × MessageRow)) (m : Bytes × MessageRow)
    → IsUnique ms
    → any (is_at m.0 m.1.sequence) ms ≡ false
    → IsUnique (ms ++ m ∷ [])
unfolding any
IsUnique-append [] m h fresh = (refl, tt)
IsUnique-append (n ∷ ms) m h fresh =
    let rest = IsUnique-append ms m h.1 (ground arith) in
    let split = any-append (is_at n.0 n.1.sequence) ms (m ∷ []) in
    (ground (arith, bytes_eq_iff m.0 n.0, bytes_eq_iff n.0 m.0, split), rest)

parents-Keeps :
    (t t' : Tables) (cs : List ConversationRow)
    → Keeps t t'
    → All (HasParents t) cs
    → All (HasParents t') cs
parents-Keeps t t' cs k =
    All-map (HasParents t) (HasParents t')
      (λ c h. (k.contact c.peer_fingerprint h.0, k.identity c.our_identity h.1)) cs

messages-Keeps :
    (t t' : Tables) (ms : List (Bytes × MessageRow))
    → Keeps t t'
    → All (λ m. has_conversation t m.0 ≡ true) ms
    → All (λ m. has_conversation t' m.0 ≡ true) ms
messages-Keeps t t' ms k =
    All-map (λ m. has_conversation t m.0 ≡ true) (λ m. has_conversation t' m.0 ≡ true)
      (λ m h. k.conversation m.0 h) ms

step-IsUnique : (t : Tables) (x : DbCall) → IsConsistent t → IsUnique (step t x).messages
unfolding step ensure_conversation store_message store_identity deactivate_all_identities
    store_contact store_pending_outbox delete_pending_outbox sweep_expired_outbox
step-IsUnique t (ensures now id kind peer own) c = ground (arith, c.unique)
step-IsUnique t (stores_message now id sequence direction envelope status) c =
    elim (Bool-cases (any (is_at id sequence) t.messages)) [
      | inl known ↦ ground (arith, c.unique)
      | inr fresh ↦
          let row : MessageRow = record {
            sequence = sequence;
            direction = direction;
            envelope = envelope;
            status = status;
            received_at = now;
          } in
          ground (arith, c.unique, IsUnique-append t.messages (id, row) c.unique fresh)
    ]
step-IsUnique t (stores_identity now fingerprint public_identity key) c = c.unique
step-IsUnique t deactivates c = c.unique
step-IsUnique t (stores_contact now fingerprint alias public_identity trust) c = c.unique
step-IsUnique t (stores_pending row) c = c.unique
step-IsUnique t (deletes_pending id) c = c.unique
step-IsUnique t (sweeps now) c = c.unique

-- A list that stays, or gets one more.
All-grown {ℓ κ} :
    {A : Type ℓ} (P : A → Type κ) (xs ys : List A) (x : A)
    → All P xs
    → (ys ≡ xs) ⊎ ((ys ≡ xs ++ x ∷ []) × P x)
    → All P ys
All-grown P xs ys x h (inl same) = subst (All P) (sym same) h
All-grown P xs ys x h (inr (more, last)) =
    subst (All P) (sym more) (All-append P xs (x ∷ []) h (last, tt))

step-messages :
    (t : Tables) (x : DbCall)
    → IsConsistent t
    → All (λ m. has_conversation (step t x) m.0 ≡ true) (step t x).messages
unfolding step ensure_conversation store_message store_identity deactivate_all_identities
    store_contact store_pending_outbox delete_pending_outbox sweep_expired_outbox
step-messages t (ensures now id kind peer own) c =
    let old =
      messages-Keeps t (step t (ensures now id kind peer own)) t.messages
        (step-Keeps t (ensures now id kind peer own)) c.messages in
    let same : t.messages ≡ (step t (ensures now id kind peer own)).messages = ground arith in
    subst (λ ms. All (λ m. has_conversation (step t (ensures now id kind peer own)) m.0 ≡ true) ms)
      same old
step-messages t (stores_message now id sequence direction envelope status) c =
    let x = stores_message now id sequence direction envelope status in
    let row : MessageRow = record {
      sequence = sequence;
      direction = direction;
      envelope = envelope;
      status = status;
      received_at = now;
    } in
    let old = messages-Keeps t (step t x) t.messages (step-Keeps t x) c.messages in
    All-grown (λ m. has_conversation (step t x) m.0 ≡ true) t.messages (step t x).messages (id, row)
      old (ground (arith, any-map-arrived id direction now id t.conversations))
step-messages t (stores_identity now fingerprint public_identity key) c = c.messages
step-messages t deactivates c = c.messages
step-messages t (stores_contact now fingerprint alias public_identity trust) c = c.messages
step-messages t (stores_pending row) c = c.messages
step-messages t (deletes_pending id) c = c.messages
step-messages t (sweeps now) c = c.messages

parents-arrived :
    (t : Tables) (id : Bytes) (direction now : ℕ) (cs : List ConversationRow)
    → All (HasParents t) cs
    → All (HasParents t) (map (arrived id direction now) cs)
parents-arrived t id direction now [] h = tt
parents-arrived t id direction now (c ∷ cs) h =
    let kept = arrived_keeps id direction now c in
    ((rw kept.1 h.0.0, rw kept.2 h.0.1), parents-arrived t id direction now cs h.1)

step-conversations :
    (t : Tables) (x : DbCall)
    → IsConsistent t
    → All (HasParents (step t x)) (step t x).conversations
unfolding step ensure_conversation store_message store_identity deactivate_all_identities
    store_contact store_pending_outbox delete_pending_outbox sweep_expired_outbox
step-conversations t (ensures now id kind peer own) c =
    let x = ensures now id kind peer own in
    let row : ConversationRow = record {
      id = id;
      conversation_type = kind;
      peer_fingerprint = peer;
      our_identity = own;
      last_message_at = now;
      unread_count = 0;
    } in
    let old = parents-Keeps t (step t x) t.conversations (step-Keeps t x) c.conversations in
    let k = step-Keeps t x in
    let parents : (has_contact t peer ≡ true)
        → (has_identity t own ≡ true)
        → HasParents (step t x) row =
      λ hc hi. (k.contact peer hc, k.identity own hi) in
    elim (Bool-cases (has_contact t peer && has_identity t own)) [
      | inr absent ↦
          let same : (step t x).conversations ≡ t.conversations = ground arith in
          subst (λ cs. All (HasParents (step t x)) cs) (sym same) old
      | inl there ↦
          let p = parents (ground arith) (ground arith) in
          All-grown (HasParents (step t x)) t.conversations (step t x).conversations row old
            (elim (Bool-cases (has_conversation t id)) [
              | inl known ↦ inl (ground arith)
              | inr new ↦ inr (ground arith, p)
            ])
    ]
step-conversations t (stores_message now id sequence direction envelope status) c =
    let x = stores_message now id sequence direction envelope status in
    let old = parents-Keeps t (step t x) t.conversations (step-Keeps t x) c.conversations in
    elim (store_message_conversations now t id sequence direction envelope status) [
      | inl same ↦ subst (All (HasParents (step t x))) (sym same) old
      | inr mapped ↦
          subst (All (HasParents (step t x))) (sym mapped)
            (parents-arrived (step t x) id direction now t.conversations old)
    ]
step-conversations t (stores_identity now fingerprint public_identity key) c =
    parents-Keeps t _ t.conversations
      (step-Keeps t (stores_identity now fingerprint public_identity key)) c.conversations
step-conversations t deactivates c =
    parents-Keeps t _ t.conversations (step-Keeps t deactivates) c.conversations
step-conversations t (stores_contact now fingerprint alias public_identity trust) c =
    parents-Keeps t _ t.conversations
      (step-Keeps t (stores_contact now fingerprint alias public_identity trust)) c.conversations
step-conversations t (stores_pending row) c = c.conversations
step-conversations t (deletes_pending id) c = c.conversations
step-conversations t (sweeps now) c = c.conversations

step-IsConsistent : (t : Tables) (x : DbCall) → IsConsistent t → IsConsistent (step t x)
step-IsConsistent t x c = record {
  unique = step-IsUnique t x c;
  conversations = step-conversations t x c;
  messages = step-messages t x c;
}

-- After any calls on the tables of a new database, no two messages have the same conversation and
-- sequence, every message is in a conversation that is there, and every conversation has its
-- contact and its identity.
pub run-IsConsistent : (xs : List DbCall) → IsConsistent (run empty_tables xs)
unfolding run
run-IsConsistent xs =
    keeps empty_tables xs (record { unique = tt; conversations = tt; messages = tt })
  where
    keeps : (t : Tables) (xs : List DbCall) → IsConsistent t → IsConsistent (run t xs)
    keeps t [] c = c
    keeps t (x ∷ xs) c = keeps (step t x) xs (step-IsConsistent t x c)
