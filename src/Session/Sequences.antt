-- ===== src/Session/Sequences.antt =====
-- crates/messenger/src/client.rs: the sequence numbers of incoming messages.
use shadowgram.Base.{
  ℕ, ◌+◌, ◌%◌, ◌≡◌, ◌≢◌, refl, ap, ◌∙◌, String, true, false, some, List, [], ◌∷◌, any, u64_mod,
  insert, lookup, lookup-insert, beq_self, string_Eq, Result, ok, err, Bool-cases, inl, inr, arith,
}
use shadowgram.Session.{
  Message, ClientError, message_error, DirectSession, DirectMessagePayload, Services, Client,
}
use shadowgram.Session.Messages.{has_seen, as_delivered, open_payload, handle_payload}

pub lookup-insert_self :
    (k : String) (s : DirectSession) (m : List (String × DirectSession))
    → lookup k (insert k s m) ≡ some s
lookup-insert_self k s m = rw (lookup-insert k k, beq_self k) refl

module _ (Db : Type 0) (services : Services Db) where
  -- What is left after a payload, and what comes of it again under another sequence.
  abbrev pub after : Client Db → DirectMessagePayload → Client Db
  after c p = (handle_payload Db services c p).0

  abbrev pub refused : DirectMessagePayload → Result (Unit {0}) ClientError
  refused payload = err (message_error "Replay detected for sequence {}" (payload.sequence ∷ []))

  handle_payload_seen :
      (c : Client Db) (payload : DirectMessagePayload) (session : DirectSession)
      → lookup payload.sender_fingerprint c.direct_sessions ≡ some session
      → has_seen payload.sequence session ≡ true
      → handle_payload Db services c payload ≡ (c, refused payload)
  unfolding handle_payload any
  handle_payload_seen c payload session here seen = ground arith

  -- The session of the sender after a payload: only the seen sequences change, and the sequence of
  -- the payload is among them.
  handle_payload_session :
      (c : Client Db) (payload : DirectMessagePayload) (session : DirectSession)
      → lookup payload.sender_fingerprint c.direct_sessions ≡ some session
      → (session' : DirectSession) × (lookup payload.sender_fingerprint
            (handle_payload Db services c payload).0.direct_sessions
          ≡ some session')
        × (has_seen payload.sequence session' ≡ true)
  unfolding handle_payload any
  handle_payload_session c payload session here =
      let marked = record session {
        seen_incoming_sequences = payload.sequence ∷ session.seen_incoming_sequences;
      } in
      let stored = lookup-insert_self payload.sender_fingerprint marked c.direct_sessions in
      elim (Bool-cases (has_seen payload.sequence session)) [
        | inl seen ↦ (session, ground arith, seen)
        | inr new ↦ (marked, ground (arith, stored), ground arith)
      ]

  -- A sequence of a sender counts once: after any payload with it, whether it was opened or not,
  -- every payload of the sender with it is refused as a replay and changes nothing.
  pub handle_payload_again :
      (c : Client Db) (p p' : DirectMessagePayload) (session : DirectSession)
      → lookup p.sender_fingerprint c.direct_sessions ≡ some session
      → p'.sender_fingerprint ≡ p.sender_fingerprint
      → p'.sequence ≡ p.sequence
      → handle_payload Db services (handle_payload Db services c p).0 p'
        ≡ ((handle_payload Db services c p).0, refused p')
  handle_payload_again c p p' session here sender sequence =
      let (session', here', seen) = handle_payload_session c p session here in
      handle_payload_seen (handle_payload Db services c p).0 p' session'
        (ap (λ s. lookup s (handle_payload Db services c p).0.direct_sessions) sender ∙ here')
        (ap (λ n. has_seen n session') sequence ∙ seen)

  -- The sequence is not part of what is authenticated: a payload that was opened once is opened
  -- again under a sequence that was not seen, and its message is persisted a second time.
  pub handle_payload_resequenced :
      (c : Client Db) (p : DirectMessagePayload) (session : DirectSession) (message : Message)
      (sequence : ℕ)
      → lookup p.sender_fingerprint c.direct_sessions ≡ some session
      → has_seen p.sequence session ≡ false
      → open_payload Db services session p ≡ ok message
      → has_seen sequence session ≡ false
      → sequence ≢ p.sequence
      → ((after (after c p) (record p { sequence = sequence })).database
          ≡ (services.persist_message
              (after c p).database
              p.conversation_id
              ((sequence + 1) % u64_mod)
              (as_delivered message)).0)
        × ((handle_payload Db services (after c p) (record p { sequence = sequence })).1
            ≡ (services.persist_message
                (after c p).database
                p.conversation_id
                ((sequence + 1) % u64_mod)
                (as_delivered message)).1)
  unfolding handle_payload open_payload any
  handle_payload_resequenced c p session message sequence here fresh opened fresh' other =
      let marked = record session {
        seen_incoming_sequences = p.sequence ∷ session.seen_incoming_sequences;
      } in
      let stored = lookup-insert_self p.sender_fingerprint marked c.direct_sessions in
      (ground (arith, stored), ground (arith, stored))
