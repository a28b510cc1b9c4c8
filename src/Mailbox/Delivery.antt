-- ===== src/Mailbox/Delivery.antt =====
-- crates/network/src/mailbox.rs: an accepted envelope reaches its recipient.
use shadowgram.Base.{
  ℕ, ◌≤◌, ◌<◌, ◌≡◌, ◌≢◌, ◌⊎◌, refl, sym, ap, ◌∙◌, String, Bool, true, false, not, List, [], ◌∷◌,
  ◌++◌, length, retain, any, Bytes, arith, ◌===◌, bytes_Eq, All, ok, err, inl, inr, bytes_eq_iff,
  Bool-cases, beq_ne, beq_self, lookup-remove, insert, entry_or_default,
}
use mathlib.Core.Path.{subst}
use shadowgram.Mailbox.{
  MailboxEnvelope, RelayMailbox, is_expired, is_live, has_id, Call, stores, retrieves, acknowledges,
  sweeps, step, run, store, retrieve, acknowledge, not_found, max_pending_per_recipient,
  max_envelope_bytes,
}
use shadowgram.Mailbox.View.{
  Queues, view, spec_store, spec_acknowledge, view-store, view-retrieve, view-acknowledge,
  view-sweep, result-store, result-retrieve,
}
use shadowgram.Mailbox.Invariant.{IsValid, step-IsValid, store-IsValid}

-- The envelope stands in the list.
abbrev pub Has : MailboxEnvelope → List MailboxEnvelope → Type 0
Has env [] = ⊥
Has env (e ∷ es) = (e ≡ env) ⊎ Has env es

Has-retain :
    (p : MailboxEnvelope → Bool) (env : MailboxEnvelope) (es : List MailboxEnvelope)
    → p env ≡ true
    → Has env es
    → Has env (retain p es)
unfolding retain
Has-retain p env (e ∷ es) keep (inl here) = rw (here, keep) (inl refl)
Has-retain p env (e ∷ es) keep (inr later) = elim (Bool-cases (p e)) [
  | inl t ↦ rw t (inr (Has-retain p env es keep later))
  | inr f ↦ rw f (Has-retain p env es keep later)
]
Has-retain p env [] keep h = absurd h

Has-append :
    (env e : MailboxEnvelope) (es : List MailboxEnvelope) → Has env es → Has env (es ++ e ∷ [])
Has-append env e [] h = absurd h
Has-append env e (x ∷ es) (inl here) = inl here
Has-append env e (x ∷ es) (inr later) = inr (Has-append env e es later)

Has-append_last : (env : MailboxEnvelope) (es : List MailboxEnvelope) → Has env (es ++ env ∷ [])
Has-append_last env [] = inl refl
Has-append_last env (x ∷ es) = inr (Has-append_last env es)

-- A store leaves each queue as it was, or with the envelope at its end.
spec_store_cases :
    (q : Queues) (e : MailboxEnvelope) (j : Bytes)
    → ((spec_store q e).0 j ≡ q j) ⊎ ((spec_store q e).0 j ≡ q j ++ e ∷ [])
unfolding spec_store
spec_store_cases q e j = ground (arith, bytes_eq_iff e.recipient_hash j)

-- An acknowledgement drops what has the id from the recipient's queue, and nothing else.
spec_acknowledge_cases :
    (q : Queues) (hash id j : Bytes)
    → ((spec_acknowledge q hash id).0 j ≡ q j)
      ⊎ (((spec_acknowledge q hash id).0 j ≡ retain (λ e. not (has_id id e)) (q j)) × (hash ≡ j))
unfolding spec_acknowledge
spec_acknowledge_cases q hash id j = elim (Bool-cases (hash === j)) [
  | inl same ↦ let e = (bytes_eq_iff hash j).0 same in ground (arith, ap q e)
  | inr other ↦ inl (ground arith)
]

spec_store_accepts :
    (q : Queues) (env : MailboxEnvelope)
    → length env.ciphertext ≤ max_envelope_bytes
    → length (q env.recipient_hash) < max_pending_per_recipient
    → any (has_id env.message_id) (q env.recipient_hash) ≡ false
    → ((spec_store q env).1 ≡ ok tt)
      × ((spec_store q env).0 env.recipient_hash ≡ q env.recipient_hash ++ env ∷ [])
unfolding spec_store
spec_store_accepts q env small room fresh =
    (ground arith, ground (arith, beq_self env.recipient_hash))

is_live_of_le : (now : ℕ) (env : MailboxEnvelope) → now ≤ env.expires_at → is_live now env ≡ true
unfolding is_expired
is_live_of_le now env h = ground arith

module _ (blake3 : String → Bytes) where
  -- A call that neither takes the envelope, nor acknowledges it, nor finds it expired.
  abbrev pub Spares : MailboxEnvelope → ℕ × Call → Type 0
  Spares env (now, stores e) = Unit
  Spares env (now, retrieves fp) = blake3 fp ≢ env.recipient_hash
  Spares env (now, acknowledges fp id) = (blake3 fp ≢ env.recipient_hash) ⊎ (id ≢ env.message_id)
  Spares env (now, sweeps) = now ≤ env.expires_at

  step-Has :
      (m : RelayMailbox) (env : MailboxEnvelope) (c : ℕ × Call)
      → IsValid m
      → Spares env c
      → Has env (view m env.recipient_hash)
      → Has env (view (step blake3 m c) env.recipient_hash)
  unfolding step
  step-Has m env (now, stores e) v spares h =
      let after = view-store m e env.recipient_hash in
      elim (spec_store_cases (view m) e env.recipient_hash) [
        | inl same ↦ subst (Has env) (sym (after ∙ same)) h
        | inr grown ↦ subst (Has env) (sym (after ∙ grown)) (Has-append env e _ h)
      ]
  step-Has m env (now, retrieves fp) v spares h =
      subst (Has env) (sym (view-retrieve blake3 m fp now env.recipient_hash))
        (rw (beq_ne (blake3 fp) env.recipient_hash spares) h)
  step-Has m env (now, acknowledges fp id) v spares h =
      let after = view-acknowledge blake3 m fp id env.recipient_hash in
      elim (spec_acknowledge_cases (view m) (blake3 fp) id env.recipient_hash) [
        | inl same ↦ subst (Has env) (sym (after ∙ same)) h
        | inr (kept, mine) ↦ elim spares [
          | inl not_mine ↦ absurd (not_mine mine)
          | inr other_id ↦ subst (Has env) (sym (after ∙ kept)) (
              Has-retain (λ e. not (has_id id e)) env _
                (ap not (beq_ne env.message_id id (λ e. other_id (sym e)))) h)
        ]
      ]
  step-Has m env (now, sweeps) v spares h =
      subst (Has env) (sym (view-sweep now m env.recipient_hash v.keys))
        (Has-retain (is_live now) env _ (is_live_of_le now env spares) h)

  run-Has :
      (m : RelayMailbox) (env : MailboxEnvelope) (cs : List (ℕ × Call))
      → IsValid m
      → All (Spares env) cs
      → Has env (view m env.recipient_hash)
      → Has env (view (run blake3 m cs) env.recipient_hash)
  unfolding run
  run-Has m env [] v spares h = h
  run-Has m env (c ∷ cs) v spares h =
      run-Has (step blake3 m c) env cs (step-IsValid blake3 m c v) spares.1
        (step-Has m env c v spares.0 h)

  -- An envelope that a relay accepts, in a mailbox that is not full and has not seen its id, is
  -- handed to its recipient at any later retrieval before it expires, whatever else happens in
  -- between: stores, sweeps before it expires, retrievals and acknowledgements of others, and
  -- acknowledgements of other ids.
  pub retrieve-store :
      (m : RelayMailbox) (env : MailboxEnvelope) (cs : List (ℕ × Call)) (now : ℕ) (fp : String)
      → IsValid m
      → length env.ciphertext ≤ max_envelope_bytes
      → length (view m env.recipient_hash) < max_pending_per_recipient
      → any (has_id env.message_id) (view m env.recipient_hash) ≡ false
      → All (Spares env) cs
      → now ≤ env.expires_at
      → blake3 fp ≡ env.recipient_hash
      → ((store m env).1 ≡ ok tt)
        × Has env (retrieve blake3 now (run blake3 (store m env).0 cs) fp).1
  retrieve-store m env cs now fp v small room fresh spares alive mine =
      let hash = env.recipient_hash in
      let (accepted, queued) = spec_store_accepts (view m) env small room fresh in
      let first = store-IsValid m env v in
      let stored =
        subst (Has env) (sym (view-store m env hash ∙ queued))
          (Has-append_last env (view m hash)) in
      let kept = run-Has (store m env).0 env cs first spares stored in
      let out = result-retrieve blake3 (run blake3 (store m env).0 cs) fp now in
      (
        result-store m env ∙ accepted,
        subst (Has env) (sym out) (
            Has-retain (is_live now) env _ (is_live_of_le now env alive)
              (subst (λ k. Has env (view (run blake3 (store m env).0 cs) k)) (sym mine) kept)),
      )

  -- A retrieval empties the queue, so that an acknowledgement of what it handed out, or of
  -- anything else, finds nothing.
  pub acknowledge-retrieve :
      (m : RelayMailbox) (now : ℕ) (fp : String) (id : Bytes)
      → (acknowledge blake3 (retrieve blake3 now m fp).0 fp id).1 ≡ err not_found
  unfolding acknowledge retrieve
  acknowledge-retrieve m now fp id = ground (
    arith,
    lookup-remove {V = List MailboxEnvelope} (blake3 fp) (blake3 fp)
        (insert (blake3 fp) [] (entry_or_default (blake3 fp) [] m.slots)),
    beq_self (blake3 fp),
  )
