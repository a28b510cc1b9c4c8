-- ===== src/Outbound/Retries.antt =====
-- crates/network/src/mailbox.rs: what a delivery attempt does to the sender's queue.
use shadowgram.Base.{
  ℕ, suc, ◌+◌, ◌*◌, ◌%◌, ◌^◌, ◌<◌, ◌≡◌, ◌≢◌, refl, ap, min, true, false, not, List, [], ◌∷◌, ◌++◌,
  ◌∙◌, Bytes, retain, any, update_first, All, All-middle, any-retain-not, any-retain, lt→not-leb,
  bytes_eq_iff, bytes_Eq, u32_mod, u64_mod, arith, Bool-cases, inl, inr,
}
use mathlib.Core.Path.{subst}
use shadowgram.Mailbox.{is_live}
use shadowgram.Outbound.{
  PendingOutbound, OutboundQueue, due, is_due, is_for, back_off, backoff, record_attempt,
  sweep_expired,
}
use shadowgram.Outbound.Backoff.{backoff_doubles}

-- Sweeping at `now` takes nothing that is due at `now`.
due-sweep :
    (now : ℕ) (ps : List PendingOutbound)
    → retain (is_due now) (retain (λ p. is_live now p.envelope) ps) ≡ retain (is_due now) ps
unfolding retain
due-sweep now [] = refl
due-sweep now (p ∷ ps) = ground (arith, due-sweep now ps)

pub due-sweep_expired : (now : ℕ) (q : OutboundQueue) → due now (sweep_expired now q) ≡ due now q
unfolding due sweep_expired
due-sweep_expired now q = due-sweep now q.pending

-- No message id is queued twice.
abbrev pub HasDistinctIds : List PendingOutbound → Type 0
HasDistinctIds [] = Unit
HasDistinctIds (p ∷ ps) = (any (is_for p.envelope.message_id) ps ≡ false) × HasDistinctIds ps

-- The attempts of an entry that can be counted once more without wrapping.
abbrev pub FewAttempts : PendingOutbound → Type 0
FewAttempts p = p.attempts + 1 < u32_mod

-- A failed attempt at a message of the queue.
module _ (now : ℕ) (id : Bytes) where
  back_off_waits :
      (p : PendingOutbound) (t : ℕ)
      → p.attempts + 1 < u32_mod
      → now + 3600 < u64_mod
      → t < now + 30
      → is_due t (back_off now p) ≡ false
  unfolding back_off
  back_off_waits p t few soon h =
      let e : (p.attempts + 1) % u32_mod ≡ suc p.attempts = omega arith in
      let delay = backoff_doubles p.attempts in
      rw (
        e,
        lt→not-leb ((now + backoff (suc p.attempts)) % u64_mod) t (omega (arith, delay.1, delay.2)),
      )

  any-due_rest :
      (t : ℕ) (ps : List PendingOutbound)
      → any (is_for id) ps ≡ false
      → any (is_for id) (retain (is_due t) ps) ≡ false
  any-due_rest t ps h = any-retain (is_for id) (is_due t) ps h

  any-due-update_first :
      (t : ℕ) (ps : List PendingOutbound)
      → HasDistinctIds ps
      → All FewAttempts ps
      → now + 3600 < u64_mod
      → t < now + 30
      → any (is_for id) (retain (is_due t) (update_first (is_for id) (back_off now) ps)) ≡ false
  unfolding update_first retain any
  any-due-update_first t [] d few soon h = refl
  any-due-update_first t (p ∷ ps) d few soon h = elim (Bool-cases (is_for id p)) [
    | inl mine ↦
        let e = (bytes_eq_iff p.envelope.message_id id).0 mine in
        let rest = subst (λ k. any (is_for k) ps ≡ false) e d.0 in
        rw (mine, back_off_waits p t few.0 soon h) (any-due_rest t ps rest)
    | inr other ↦ ground (arith, any-due-update_first t ps d.1 few.1 soon h)
  ]

-- After a failed attempt at `now`, nothing with the message's id is due for thirty seconds, if
-- the ids of the queue are distinct and neither the attempts nor the clock are about to wrap.
pub due-record_attempt_failed :
    (now : ℕ) (q : OutboundQueue) (id : Bytes) (t : ℕ)
    → HasDistinctIds q.pending
    → All FewAttempts q.pending
    → now + 3600 < u64_mod
    → t < now + 30
    → any (is_for id) (due t (record_attempt now q id false)) ≡ false
unfolding due record_attempt
due-record_attempt_failed now q id t d few soon h =
    any-due-update_first now id t q.pending d few soon h

split_first :
    (id : Bytes) (f : PendingOutbound → PendingOutbound) (ps : List PendingOutbound)
    → any (is_for id) ps ≡ true
    → (before : List PendingOutbound) × (p : PendingOutbound) × (after : List PendingOutbound) × (ps
        ≡ before ++ p ∷ after)
      × (p.envelope.message_id ≡ id)
      × (any (is_for id) before ≡ false)
      × (update_first (is_for id) f ps ≡ before ++ f p ∷ after)
unfolding any update_first
split_first id f [] h = absurd (cc)
split_first id f (p ∷ ps) h = elim (Bool-cases (is_for id p)) [
  | inl mine ↦ ([], p, ps, refl, (bytes_eq_iff p.envelope.message_id id).0 mine, refl, rw mine)
  | inr other ↦
      let (before, x, after, whole, found, none_before, updated) =
        split_first id f ps (ground arith) in
      (p ∷ before, x, after, ap (◌∷◌ p) whole, found, rw (other) none_before, rw (other, updated))
]

back_off_lem :
    (now : ℕ) (p : PendingOutbound)
    → p.attempts + 1 < u32_mod
    → now + 3600 < u64_mod
    → back_off now p
      ≡ record p { attempts = p.attempts + 1; retry_after = now + min (30 * 2 ^ p.attempts) 3600 }
unfolding back_off
back_off_lem now p few soon =
    let e : (p.attempts + 1) % u32_mod ≡ suc p.attempts = omega arith in
    let e' : p.attempts + 1 ≡ suc p.attempts = omega arith in
    let delay = backoff_doubles p.attempts in
    let wait : (now + backoff (suc p.attempts)) % u64_mod ≡ now + min (30 * 2 ^ p.attempts) 3600 =
      omega (arith, delay.0, delay.2) in
    rw (e, e', wait)

kept :
    (id other : Bytes) (ps : List PendingOutbound)
    → other ≢ id
    → retain (is_for other) (retain (λ p. not (is_for id p)) ps) ≡ retain (is_for other) ps
unfolding retain
kept id other [] h = refl
kept id other (p ∷ ps) h = ground (
  arith,
  kept id other ps h,
  bytes_eq_iff p.envelope.message_id id,
  bytes_eq_iff p.envelope.message_id other,
)

-- A failed attempt at a queued message changes the first entry with its id and nothing else: the
-- entry counts one more attempt, and waits thirty seconds, doubled for each earlier failure, an
-- hour at most.
pub record_attempt_failed :
    (now : ℕ) (q : OutboundQueue) (id : Bytes)
    → any (is_for id) q.pending ≡ true
    → All FewAttempts q.pending
    → now + 3600 < u64_mod
    → (before : List PendingOutbound) × (p : PendingOutbound) × (after : List PendingOutbound)
      × (q.pending ≡ before ++ p ∷ after)
      × (p.envelope.message_id ≡ id)
      × (any (is_for id) before ≡ false)
      × ((record_attempt now q id false).pending
          ≡ before
            ++ record p {
              attempts = p.attempts + 1;
              retry_after = now + min (30 * 2 ^ p.attempts) 3600;
            }
              ∷ after)
unfolding record_attempt
record_attempt_failed now q id h few soon =
    let (before, p, after, whole, found, none_before, updated) =
      split_first id (back_off now) q.pending h in
    let one = All-middle FewAttempts before p after (subst (All FewAttempts) whole few) in
    (
      before,
      p,
      after,
      whole,
      found,
      none_before,
      updated ∙ ap (λ x. before ++ x ∷ after) (back_off_lem now p one soon),
    )

-- A successful attempt takes every entry of the message's id out of the queue, and leaves the
-- entries of any other id as they are, in their order.
pub record_attempt_succeeded :
    (now : ℕ) (q : OutboundQueue) (id other : Bytes)
    → other ≢ id
    → (any (is_for id) (record_attempt now q id true).pending ≡ false)
      × (retain (is_for other) (record_attempt now q id true).pending
          ≡ retain (is_for other) q.pending)
unfolding record_attempt
record_attempt_succeeded now q id other h =
    (any-retain-not (is_for id) q.pending, kept id other q.pending h)
