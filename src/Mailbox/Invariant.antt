-- ===== src/Mailbox/Invariant.antt =====
-- crates/network/src/mailbox.rs: what holds of a relay's mailbox after any calls.
use shadowgram.Base.{
  ℕ, ◌≤◌, ◌<◌, ◌≡◌, refl, String, Bool, false, not, List, [], ◌∷◌, ◌++◌, length, is_empty, retain,
  any, ◌==◌, Bytes, bytes_Eq, lookup, insert, remove, entry_or_default, get_or, HasDistinctKeys,
  AllEntries, insert-HasDistinctKeys, remove-HasDistinctKeys, retain_mut-HasDistinctKeys,
  AllEntries-lookup, AllEntries-insert, AllEntries-remove, AllEntries-retain_mut, All, All-append,
  All-retain, get_or-lookup, contains_key-lookup, get_or-entry, ◌⊎◌, arith, Bool-cases,
  Option-cases, inl, inr, length-retain-le, length-append, any-append, any-retain, insert-entry,
  remove-insert, remove-entry, retain_all, ==_iff, bytes_eq_iff,
}
use shadowgram.Mailbox.{
  MailboxEnvelope, RelayMailbox, max_envelope_bytes, max_pending_per_recipient, is_live, has_id,
  new, store, retrieve, acknowledge, sweep_slot, sweep_expired, Call, stores, retrieves,
  acknowledges, sweeps, step, run,
}

-- No message id stands twice in a slot.
abbrev pub HasDistinctIds : List MailboxEnvelope → Type 0
HasDistinctIds [] = Unit
HasDistinctIds (e ∷ es) = (any (has_id e.message_id) es ≡ false) × HasDistinctIds es

-- An envelope that may stand in the slot of `hash`.
pub record Fits (hash : Bytes) (env : MailboxEnvelope) : Type 0 where
  pub addressed : env.recipient_hash ≡ hash
  pub small : length env.ciphertext ≤ max_envelope_bytes

-- A slot whose envelopes are for `hash`, small, of distinct ids, and at most a hundred.
pub record ValidQueue (hash : Bytes) (slot : List MailboxEnvelope) : Type 0 where
  pub bounded : length slot ≤ max_pending_per_recipient
  pub fits : All (Fits hash) slot
  pub distinct : HasDistinctIds slot

-- A slot that the map holds is not empty.
pub record ValidSlot (hash : Bytes) (slot : List MailboxEnvelope) : Type 0 where
  pub nonempty : is_empty slot ≡ false
  pub queue : ValidQueue hash slot

pub record IsValid (m : RelayMailbox) : Type 0 where
  pub keys : HasDistinctKeys m.slots
  pub slots : AllEntries ValidSlot m.slots

HasDistinctIds-retain :
    (p : MailboxEnvelope → Bool) (es : List MailboxEnvelope)
    → HasDistinctIds es
    → HasDistinctIds (retain p es)
unfolding retain
HasDistinctIds-retain p [] h = tt
HasDistinctIds-retain p (e ∷ es) h =
    ground (arith, any-retain (has_id e.message_id) p es h.0, HasDistinctIds-retain p es h.1)

HasDistinctIds-append :
    (es : List MailboxEnvelope) (env : MailboxEnvelope)
    → HasDistinctIds es
    → any (has_id env.message_id) es ≡ false
    → HasDistinctIds (es ++ env ∷ [])
unfolding any
HasDistinctIds-append [] env h new = (refl, tt)
HasDistinctIds-append (e ∷ es) env h new = ground (
  arith,
  any-append (has_id e.message_id) es (env ∷ []),
  HasDistinctIds-append es env h.1,
  bytes_eq_iff e.message_id env.message_id,
  bytes_eq_iff env.message_id e.message_id,
)

retain-ValidQueue :
    (hash : Bytes) (p : MailboxEnvelope → Bool) (slot : List MailboxEnvelope)
    → ValidQueue hash slot
    → ValidQueue hash (retain p slot)
retain-ValidQueue hash p slot v = record {
  bounded = omega (arith, length-retain-le p slot, v.bounded);
  fits = All-retain (Fits hash) p slot v.fits;
  distinct = HasDistinctIds-retain p slot v.distinct;
}

append-ValidQueue :
    (env : MailboxEnvelope) (slot : List MailboxEnvelope)
    → ValidQueue env.recipient_hash slot
    → length env.ciphertext ≤ max_envelope_bytes
    → length slot < max_pending_per_recipient
    → any (has_id env.message_id) slot ≡ false
    → ValidQueue env.recipient_hash (slot ++ env ∷ [])
append-ValidQueue env slot v small room fresh = record {
  bounded = omega (arith, length-append slot (env ∷ []));
  fits =
      All-append (Fits env.recipient_hash) slot (env ∷ []) v.fits
        (record { addressed = refl; small = small }, tt);
  distinct = HasDistinctIds-append slot env v.distinct fresh;
}

is_empty-append :
    (slot : List MailboxEnvelope) (env : MailboxEnvelope) → is_empty (slot ++ env ∷ []) ≡ false
is_empty-append [] env = refl
is_empty-append (e ∷ es) env = refl

empty-ValidQueue : (hash : Bytes) → ValidQueue hash []
empty-ValidQueue hash = record { bounded = omega arith; fits = tt; distinct = tt }

-- The queue of every hash is valid, also where there is no slot.
pub get_or-ValidQueue :
    (m : RelayMailbox) (hash : Bytes) → IsValid m → ValidQueue hash (get_or hash [] m.slots)
get_or-ValidQueue m hash v = elim (Option-cases (lookup hash m.slots)) [
  | inl e ↦ rw (get_or-lookup hash [] m.slots, e) (empty-ValidQueue hash)
  | inr (slot, e) ↦
      rw (get_or-lookup hash [] m.slots, e)
        (AllEntries-lookup ValidSlot hash slot m.slots v.slots e).queue
]

insert-IsValid :
    (m : RelayMailbox) (hash : Bytes) (slot : List MailboxEnvelope)
    → IsValid m
    → ValidSlot hash slot
    → IsValid (record { slots = insert hash slot m.slots })
insert-IsValid m hash slot v s = record {
  keys = insert-HasDistinctKeys hash slot m.slots v.keys;
  slots = AllEntries-insert ValidSlot hash slot m.slots v.slots s;
}

remove-IsValid :
    (m : RelayMailbox) (hash : Bytes) → IsValid m → IsValid (record { slots = remove hash m.slots })
remove-IsValid m hash v = record {
  keys = remove-HasDistinctKeys hash m.slots v.keys;
  slots = AllEntries-remove ValidSlot hash m.slots v.slots;
}

pub new-IsValid : IsValid new
unfolding new
new-IsValid = record { keys = tt; slots = tt }

entry_present :
    (m : RelayMailbox) (hash : Bytes)
    → is_empty (get_or hash [] m.slots) ≡ false
    → entry_or_default hash [] m.slots ≡ m.slots
unfolding entry_or_default
entry_present m hash h = ground (
  arith,
  contains_key-lookup {V = List MailboxEnvelope} hash m.slots,
  get_or-lookup {V = List MailboxEnvelope} hash [] m.slots,
)

-- What `store` leaves: the map as it was, or the slot with the envelope at its end.
store_cases :
    (m : RelayMailbox) (env : MailboxEnvelope)
    → ((store m env).0.slots ≡ m.slots)
      ⊎ (((store m env).0.slots
            ≡ insert env.recipient_hash (get_or env.recipient_hash [] m.slots ++ env ∷ []) m.slots)
          × (length env.ciphertext ≤ max_envelope_bytes)
          × (length (get_or env.recipient_hash [] m.slots) < max_pending_per_recipient)
          × (any (has_id env.message_id) (get_or env.recipient_hash [] m.slots) ≡ false))
unfolding store any
store_cases m env =
    let hash = env.recipient_hash in
    let slot = get_or hash [] m.slots in
    ground (
      arith,
      entry_present m hash,
      get_or-entry {V = List MailboxEnvelope} hash hash [] m.slots,
      insert-entry {V = List MailboxEnvelope} hash [] (slot ++ env ∷ []) m.slots,
    )

pub store-IsValid : (m : RelayMailbox) (env : MailboxEnvelope) → IsValid m → IsValid (store m env).0
store-IsValid m env v = elim (store_cases m env) [
  | inl same ↦ record { keys = rw same v.keys; slots = rw same v.slots }
  | inr (grown, small, room, fresh) ↦
      let hash = env.recipient_hash in
      let slot = get_or hash [] m.slots in
      let next = insert-IsValid m hash (slot ++ env ∷ []) v (record {
        nonempty = is_empty-append slot env;
        queue = append-ValidQueue env slot (get_or-ValidQueue m hash v) small room fresh;
      }) in
      record { keys = rw grown next.keys; slots = rw grown next.slots }
]

module _ (blake3 : String → Bytes) where
  retrieve-IsValid :
      (now : ℕ) (m : RelayMailbox) (fp : String) → IsValid m → IsValid (retrieve blake3 now m fp).0
  unfolding retrieve
  retrieve-IsValid now m fp v =
      rw (remove-insert (blake3 fp), remove-entry) (remove-IsValid m (blake3 fp) v)

  acknowledge-IsValid :
      (m : RelayMailbox) (fp : String) (id : Bytes)
      → IsValid m
      → IsValid (acknowledge blake3 m fp id).0
  unfolding acknowledge
  acknowledge-IsValid m fp id v = elim (Option-cases (lookup (blake3 fp) m.slots)) [
    | inl e ↦ rw (e, acknowledge) v
    | inr (slot, e) ↦
        let hash = blake3 fp in
        let keep = λ (x : MailboxEnvelope). not (has_id id x) in
        let s = AllEntries-lookup ValidSlot hash slot m.slots v.slots e in
        let queue = retain-ValidQueue hash keep slot s.queue in
        let inserted = λ (h : is_empty (retain keep slot) ≡ false).
          insert-IsValid m hash (retain keep slot) v (record { nonempty = h; queue = queue }) in
        elim (Bool-cases (length (retain keep slot) == length slot)) [
          | inl same ↦
              rw (e, acknowledge, same)
                (inserted (rw (retain_all keep slot ((==_iff _ _).0 same)) s.nonempty))
          | inr fewer ↦ elim (Bool-cases (is_empty (retain keep slot))) [
            | inl gone ↦ rw (e, acknowledge, fewer, gone) (remove-IsValid m hash v)
            | inr left ↦ rw (e, acknowledge, fewer, left) (inserted left)
          ]
        ]
  ]

sweep_expired-IsValid : (now : ℕ) (m : RelayMailbox) → IsValid m → IsValid (sweep_expired now m)
unfolding sweep_expired
sweep_expired-IsValid now m v = record {
  keys = retain_mut-HasDistinctKeys (sweep_slot now) m.slots v.keys;
  slots =
      AllEntries-retain_mut ValidSlot (sweep_slot now)
        (λ hash slot s stays. record {
          nonempty = ground arith;
          queue = retain-ValidQueue hash (is_live now) slot s.queue;
        })
        m.slots v.slots;
}

module _ (blake3 : String → Bytes) where
  -- Every call keeps the mailbox valid: distinct recipients, no empty slot, at most a hundred
  -- envelopes in a slot, each in the slot of its recipient, small, and of its own id.
  pub step-IsValid : (m : RelayMailbox) (c : ℕ × Call) → IsValid m → IsValid (step blake3 m c)
  unfolding step
  step-IsValid m (now, stores env) v = store-IsValid m env v
  step-IsValid m (now, retrieves fp) v = retrieve-IsValid blake3 now m fp v
  step-IsValid m (now, acknowledges fp id) v = acknowledge-IsValid blake3 m fp id v
  step-IsValid m (now, sweeps) v = sweep_expired-IsValid now m v

  pub run-IsValid :
      (m : RelayMailbox) (cs : List (ℕ × Call)) → IsValid m → IsValid (run blake3 m cs)
  unfolding run
  run-IsValid m [] v = v
  run-IsValid m (c ∷ cs) v = run-IsValid (step blake3 m c) cs (step-IsValid m c v)
