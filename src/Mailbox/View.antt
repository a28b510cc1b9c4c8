-- ===== src/Mailbox/View.antt =====
-- crates/network/src/mailbox.rs: what the relay promises, a queue for each hash, with the hash
-- map and its empty slots forgotten; and what each operation does to the queues.
use shadowgram.Base.{
  ℕ, ◌≡◌, String, not, List, [], ◌∷◌, ◌++◌, length, retain, any, ltb, leb, ◌==◌, if◌then◌else◌,
  Bytes, ◌===◌, bytes_Eq, insert, entry_or_default, get_or, retain_mut, HasDistinctKeys,
  get_or-insert, get_or-remove, get_or-entry, get_or-lookup, lookup-retain_mut, Result, ok, err,
  arith, retain_all, bytes_eq_iff,
}
use shadowgram.Mailbox.{
  MailboxEnvelope, RelayMailbox, MailboxError, message_too_large, mailbox_full, not_found,
  max_envelope_bytes, max_pending_per_recipient, is_live, has_id, store, retrieve, acknowledge,
  sweep_slot, sweep_expired, pending_count,
}

-- The queue of each recipient hash, empty where there is no slot.
abbrev pub Queues : Type 0
Queues = Bytes → List MailboxEnvelope

abbrev pub view : RelayMailbox → Queues
view m k = get_or k [] m.slots

-- The queues with the one of `k` replaced.
abbrev pub with_queue : Queues → Bytes → List MailboxEnvelope → Queues
with_queue q k v j = if k === j then v else q j

unfoldable pub spec_store : Queues → MailboxEnvelope → Queues × Result (Unit {0}) MailboxError
spec_store q env =
    let queue = q env.recipient_hash in
    if ltb max_envelope_bytes (length env.ciphertext)
    then (q, err (message_too_large (length env.ciphertext)))
    else if leb max_pending_per_recipient (length queue)
    then (q, err mailbox_full)
    else if any (has_id env.message_id) queue
    then (q, ok tt)
    else (with_queue q env.recipient_hash (queue ++ env ∷ []), ok tt)

unfoldable pub spec_acknowledge : Queues → Bytes → Bytes → Queues × Result (Unit {0}) MailboxError
spec_acknowledge q hash id =
    let kept = retain (λ e. not (has_id id e)) (q hash) in
    if length kept == length (q hash) then (q, err not_found) else (with_queue q hash kept, ok tt)

pub view-store :
    (m : RelayMailbox) (env : MailboxEnvelope) (j : Bytes)
    → view (store m env).0 j ≡ (spec_store (view m) env).0 j
unfolding store spec_store
view-store m env j = ground (
  arith,
  get_or-entry {V = List MailboxEnvelope} env.recipient_hash env.recipient_hash [] m.slots,
  get_or-entry {V = List MailboxEnvelope} env.recipient_hash j [] m.slots,
  get_or-insert {V = List MailboxEnvelope} env.recipient_hash j []
      (view m env.recipient_hash ++ env ∷ []) (entry_or_default env.recipient_hash [] m.slots),
)

pub result-store :
    (m : RelayMailbox) (env : MailboxEnvelope) → (store m env).1 ≡ (spec_store (view m) env).1
unfolding store spec_store
result-store m env = ground (
  arith,
  get_or-entry {V = List MailboxEnvelope} env.recipient_hash env.recipient_hash [] m.slots,
)

module _ (blake3 : String → Bytes) (m : RelayMailbox) (fp : String) where
  pub view-retrieve :
      (now : ℕ) (j : Bytes)
      → view (retrieve blake3 now m fp).0 j ≡ with_queue (view m) (blake3 fp) [] j
  unfolding retrieve
  view-retrieve now j = ground (
    arith,
    get_or-remove {V = List MailboxEnvelope} (blake3 fp) j []
        (insert (blake3 fp) [] (entry_or_default (blake3 fp) [] m.slots)),
    get_or-insert {V = List MailboxEnvelope} (blake3 fp) j [] []
        (entry_or_default (blake3 fp) [] m.slots),
    get_or-entry {V = List MailboxEnvelope} (blake3 fp) j [] m.slots,
  )

  pub result-retrieve :
      (now : ℕ) → (retrieve blake3 now m fp).1 ≡ retain (is_live now) (view m (blake3 fp))
  unfolding retrieve
  result-retrieve now = rw get_or-entry

  pub view-acknowledge :
      (id j : Bytes)
      → view (acknowledge blake3 m fp id).0 j ≡ (spec_acknowledge (view m) (blake3 fp) id).0 j
  unfolding acknowledge spec_acknowledge retain
  view-acknowledge id j =
      let hash = blake3 fp in
      let kept = retain (λ e. not (has_id id e)) (view m hash) in
      ground (
        arith,
        bytes_eq_iff hash j,
        get_or-lookup {V = List MailboxEnvelope} hash [] m.slots,
        get_or-insert {V = List MailboxEnvelope} hash j [] kept m.slots,
        get_or-remove {V = List MailboxEnvelope} hash j [] m.slots,
        retain_all (λ e. not (has_id id e)) (view m hash),
      )

  pub result-acknowledge :
      (id : Bytes) → (acknowledge blake3 m fp id).1 ≡ (spec_acknowledge (view m) (blake3 fp) id).1
  unfolding acknowledge spec_acknowledge retain
  result-acknowledge id =
      ground (arith, get_or-lookup {V = List MailboxEnvelope} (blake3 fp) [] m.slots)

  pub pending_count-view : pending_count blake3 m fp ≡ length (view m (blake3 fp))
  unfolding pending_count
  pending_count-view =
      ground (arith, get_or-lookup {V = List MailboxEnvelope} (blake3 fp) [] m.slots)

pub view-sweep :
    (now : ℕ) (m : RelayMailbox) (j : Bytes)
    → HasDistinctKeys m.slots
    → view (sweep_expired now m) j ≡ retain (is_live now) (view m j)
unfolding sweep_expired retain
view-sweep now m j d = ground (
  arith,
  get_or-lookup {V = List MailboxEnvelope} j [] m.slots,
  get_or-lookup {V = List MailboxEnvelope} j [] (retain_mut (sweep_slot now) m.slots),
  lookup-retain_mut {V = List MailboxEnvelope} (sweep_slot now) j m.slots d,
)
