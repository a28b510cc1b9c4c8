-- ===== src/Database/Calls.antt =====
-- crates/storage/src/database.rs: the calls that write, and what they leave in place.
use shadowgram.Base.{
  none, some, inr, inl, map, Option-cases, ◌===◌, string_Eq, ◌≡◌, refl, ℕ, String, Bool, true,
  false, not, Option, List, [], ◌∷◌, ◌++◌, Bytes, any, retain, any-append, string_Eq, bytes_Eq,
  arith,
}
use text.Mathlib.TextEquality.{eq_iff}
use shadowgram.Database.{IdentityRow, ConversationRow, Tables, ConversationRow, PendingOutboxRow}
use shadowgram.Database.Queries.{replace_row}
use shadowgram.Database.Messages.{
  ensure_conversation, store_message, has_contact, has_identity, has_conversation,
}
use shadowgram.Database.Triggers.{any-map-arrived}
use shadowgram.Database.Identities.{store_identity, deactivate_all_identities, store_contact}
use shadowgram.Database.Outbox.{store_pending_outbox, delete_pending_outbox, sweep_expired_outbox}

-- The calls that write.
pub data DbCall : Type 0 where
  ensures : ℕ → Bytes → ℕ → Option String → Option String → DbCall
  stores_message : ℕ → Bytes → ℕ → ℕ → Bytes → ℕ → DbCall
  stores_identity : ℕ → String → Bytes → Bytes → DbCall
  deactivates : DbCall
  stores_contact : ℕ → String → String → Bytes → ℕ → DbCall
  stores_pending : PendingOutboxRow → DbCall
  deletes_pending : Bytes → DbCall
  sweeps : ℕ → DbCall

unfoldable pub step : Tables → DbCall → Tables
step t (ensures now id kind peer own) = (ensure_conversation now t id kind peer own).0
step t (stores_message now id sequence direction envelope status) =
    (store_message now t id sequence direction envelope status).0
step t (stores_identity now fingerprint public_identity key) =
    (store_identity now t fingerprint public_identity key).0
step t deactivates = (deactivate_all_identities t).0
step t (stores_contact now fingerprint alias public_identity trust) =
    (store_contact now t fingerprint alias public_identity trust).0
step t (stores_pending row) = (store_pending_outbox t row).0
step t (deletes_pending id) = (delete_pending_outbox t id).0
step t (sweeps now) = (sweep_expired_outbox now t).0

unfoldable pub run : Tables → List DbCall → Tables
run t [] = t
run t (x ∷ xs) = run (step t x) xs

any-snoc {ℓ} :
    {A : Type ℓ} (p : A → Bool) (xs : List A) (x : A)
    → any p xs ≡ true
    → any p (xs ++ x ∷ []) ≡ true
unfolding any
any-snoc p xs x h = rw (any-append p xs (x ∷ []), h) refl

-- A row that is replaced by one that passes the test as it did.
any-replace_row {ℓ} :
    {A : Type ℓ} (p same : A → Bool) (row : A)
    → ((r : A) → same r ≡ true → p r ≡ true → p row ≡ true)
    → (xs : List A) → any p xs ≡ true
    → any p (replace_row same row xs) ≡ true
unfolding any retain replace_row
any-replace_row p same row like [] h = absurd (ground arith)
any-replace_row p same row like (x ∷ xs) h = ground (
  arith,
  like x,
  any-replace_row p same row like xs,
  any-append p (retain (λ r. not (same r)) xs) (row ∷ []),
)

any-map_deactivated :
    (fingerprint : String) (is : List (IdentityRow × Bool))
    → any (λ (i : IdentityRow × Bool). i.0.fingerprint === fingerprint) (map (λ i. (i.0, false)) is)
      ≡ any (λ (i : IdentityRow × Bool). i.0.fingerprint === fingerprint) is
unfolding any
any-map_deactivated fingerprint [] = refl
any-map_deactivated fingerprint (i ∷ is) = rw (any-map_deactivated fingerprint is) refl

-- No call takes a contact, an identity or a conversation away.
pub record Keeps (t t' : Tables) : Type 0 where
  pub contact : (f : Option String) → has_contact t f ≡ true → has_contact t' f ≡ true
  pub identity : (f : Option String) → has_identity t f ≡ true → has_identity t' f ≡ true
  pub conversation : (id : Bytes) → has_conversation t id ≡ true → has_conversation t' id ≡ true

pub step-Keeps : (t : Tables) (x : DbCall) → Keeps t (step t x)
unfolding step ensure_conversation store_message store_identity deactivate_all_identities
    store_contact store_pending_outbox delete_pending_outbox sweep_expired_outbox
step-Keeps t (ensures now id kind peer own) =
    let row : ConversationRow = record {
      id = id;
      conversation_type = kind;
      peer_fingerprint = peer;
      our_identity = own;
      last_message_at = now;
      unread_count = 0;
    } in
    record {
      contact = λ f h. elim (Option-cases f) [ inl e ↦ ground arith | inr (g, e) ↦ ground arith ];
      identity = λ f h. elim (Option-cases f) [ inl e ↦ ground arith | inr (g, e) ↦ ground arith ];
      conversation = λ i h.
          ground (arith, any-snoc (λ (c : ConversationRow). c.id === i) t.conversations row h);
    }
step-Keeps t (stores_message now id sequence direction envelope status) = record {
  contact = λ f h. elim (Option-cases f) [ inl e ↦ ground arith | inr (g, e) ↦ ground arith ];
  identity = λ f h. elim (Option-cases f) [ inl e ↦ ground arith | inr (g, e) ↦ ground arith ];
  conversation = λ i h. ground (arith, any-map-arrived id direction now i t.conversations);
}
step-Keeps t (stores_identity now fingerprint public_identity key) = record {
  contact = λ f h. h;
  identity = has;
  conversation = λ i h. h;
}
  where
    has :
        (f : Option String)
        → has_identity t f ≡ true
        → has_identity (store_identity now t fingerprint public_identity key).0 f ≡ true
    has none h = refl
    has (some g) h =
        any-replace_row _ _ _
          (λ r same like. ground (
            arith,
            eq_iff r.0.fingerprint fingerprint,
            eq_iff r.0.fingerprint g,
            eq_iff fingerprint g,
          ))
          t.identities h
step-Keeps t deactivates = record { contact = λ f h. h; identity = has; conversation = λ i h. h }
  where
    has :
        (f : Option String)
        → has_identity t f ≡ true
        → has_identity (deactivate_all_identities t).0 f ≡ true
    has none h = refl
    has (some g) h = rw (any-map_deactivated g t.identities) h
step-Keeps t (stores_contact now fingerprint alias public_identity trust) = record {
  contact = has;
  identity = λ f h. h;
  conversation = λ i h. h;
}
  where
    has :
        (f : Option String)
        → has_contact t f ≡ true
        → has_contact (store_contact now t fingerprint alias public_identity trust).0 f ≡ true
    has none h = refl
    has (some g) h =
        any-replace_row _ _ _
          (λ r same like.
            ground (
              arith,
              eq_iff r.fingerprint fingerprint,
              eq_iff r.fingerprint g,
              eq_iff fingerprint g,
            ))
          t.contacts h
step-Keeps t (stores_pending row) = record {
  contact = λ f h. h;
  identity = λ f h. h;
  conversation = λ i h. h;
}
step-Keeps t (deletes_pending id) = record {
  contact = λ f h. h;
  identity = λ f h. h;
  conversation = λ i h. h;
}
step-Keeps t (sweeps now) = record {
  contact = λ f h. h;
  identity = λ f h. h;
  conversation = λ i h. h;
}
