-- ===== src/Handshake/Completion.antt =====
-- crates/messenger/src/client.rs: a key exchange between two clients runs to two sessions that
-- agree.
use shadowgram.Base.{
  beq_self, lookup-insert, insert, remove, lookup, String, length, as_bytes, ℕ, ◌≡◌, refl, some,
  List, [], ◌∷◌, ◌++◌, Bytes, ok, string_Eq, arith,
}
use shadowgram.Envelope.{MessageType, NetworkEnvelope, pad_to_constant_size, new}
use shadowgram.KeyExchange.Agreement.{
  initiator_finish-new_responder, parse-from_responder, parse-from_initiator, IsExchange,
}
use shadowgram.Handshake.{
  respond_to_key_exchange, initiate_key_exchange, handle_response, handle_initiation,
  HandshakeStage, handle_key_exchange, HandshakeClient, crypto_result, finish_keys, exchange_keys,
  Exchange, DirectHandshakePayload, pop, handshake_envelope,
}
use shadowgram.KeyExchange.{
  from_initiator, HybridResponder, new_responder, derive_keys, from_responder, generate_initiator,
}
use shadowgram.Crypto.Kdf.{hkdf_sha256}
use shadowgram.Session.Keys.{derive_directional_session_keys, establish_direct_session, SessionRole}
use shadowgram.Session.{DirectSession}
use shadowgram.Session.Agreement.{sessions_agree, Agrees}

-- JSON is read back as it was written.
abbrev pub ReadsHandshakes : Exchange → Type 0
ReadsHandshakes x =
    (payload : DirectHandshakePayload) (json : Bytes)
    → x.to_json payload ≡ some json
    → x.from_json json ≡ some payload

-- HKDF expands to a key.
abbrev pub ExpandsKeys : Exchange → Type 0
ExpandsKeys x =
    (salt ikm info : Bytes) → (key : Bytes) × (x.primitives.hkdf (some salt) ikm info 32 ≡ some key)

pop-snoc {ℓ} : {A : Type ℓ} (xs : List A) (y : A) → pop (xs ++ y ∷ []) ≡ some (xs, y)
unfolding pop
pop-snoc [] y = refl
pop-snoc (x ∷ xs) y = rw (pop-snoc xs y) refl

module _ (Db : Type 0) (x : Exchange) (is : IsExchange x.primitives x.kem)
    (reads : ReadsHandshakes x) (expands : ExpandsKeys x) where
  -- The envelope of a payload, which the other end reads.
  pub envelope_read :
      (fill : ℕ → Bytes) (now : ℕ) (payload : DirectHandshakePayload) (json : Bytes)
      → x.to_json payload ≡ some json
      → (env : NetworkEnvelope) × (handshake_envelope Db x fill now payload ≡ ok env)
        × (x.from_json env.payload ≡ some payload)
  unfolding handshake_envelope pad_to_constant_size new
  envelope_read fill now payload json written =
      let back = reads payload json written in
      (
        pad_to_constant_size fill (new now MessageType.handshake json) 1024,
        ground (arith, written),
        ground (arith, back),
      )

  abbrev pub made_by : Bytes → Bytes → Bytes → Bytes → Bytes → HybridResponder × Bytes × Bytes
  made_by secret seed secret' seed' m =
      new_responder x.primitives x.kem secret' seed' m (x.primitives.dh_public secret)
        (x.kem.encapsulation_key (x.kem.from_seed seed))

  abbrev pub key_of : Bytes → Bytes → Bytes → Bytes → Bytes → Bytes
  key_of secret seed secret' seed' m =
      (expands (as_bytes "shadowgram-handshake")
        (made_by secret seed secret' seed' m).0.shared_secret.bytes
        (as_bytes "shadowgram-direct-session")).0

  derive_keys_ok :
      (secret seed secret' seed' m : Bytes)
      → derive_keys x.primitives x.kem
          (made_by secret seed secret' seed' m).0.shared_secret
          (as_bytes "shadowgram-direct-session")
        ≡ ok (key_of secret seed secret' seed' m)
  unfolding derive_keys hkdf_sha256
  derive_keys_ok secret seed secret' seed' m =
      let e =
        (expands (as_bytes "shadowgram-handshake")
          (made_by secret seed secret' seed' m).0.shared_secret.bytes
          (as_bytes "shadowgram-direct-session")).1 in
      rw (e, derive_keys) refl

  exchange_keys_ok :
      (secret seed secret' seed' m : Bytes)
      → length secret ≡ 32
      → exchange_keys Db x secret' seed' m (
          from_initiator x.primitives x.kem
            (x.primitives.dh_public secret)
            (x.kem.encapsulation_key (x.kem.from_seed seed)))
        ≡ ok (made_by secret seed secret' seed' m, key_of secret seed secret' seed' m)
  unfolding exchange_keys crypto_result
  exchange_keys_ok secret seed secret' seed' m h =
      let parsed = parse-from_initiator x.primitives x.kem is secret seed h in
      rw (parsed.0, parsed.1, derive_keys_ok secret seed secret' seed' m) refl

  finish_keys_ok :
      (secret seed secret' seed' m key : Bytes)
      → length secret ≡ 32
      → length secret' ≡ 32
      → length m ≡ 32
      → finish_keys Db x (generate_initiator x.primitives x.kem secret seed) (
          from_responder x.primitives x.kem
            (x.primitives.dh_public secret')
            key
            (made_by secret seed secret' seed' m).1)
        ≡ ok (key_of secret seed secret' seed' m)
  unfolding finish_keys crypto_result new_responder
  finish_keys_ok secret seed secret' seed' m key h h' k =
      let parsed = parse-from_responder x.primitives x.kem is secret' key seed m h' k in
      let shared =
        initiator_finish-new_responder x.primitives x.kem is secret seed secret' seed' m h h' k in
      rw (parsed.0, parsed.1, shared, derive_keys_ok secret seed secret' seed' m) refl

  -- The payloads of an exchange between two names.
  abbrev pub hello : Bytes → Bytes → String → String → DirectHandshakePayload
  hello secret seed alice bob = record {
    sender_fingerprint = alice;
    recipient_fingerprint = bob;
    stage = HandshakeStage.initiation;
    exchange =
        from_initiator x.primitives x.kem (x.primitives.dh_public secret)
          (x.kem.encapsulation_key (x.kem.from_seed seed));
  }

  abbrev pub answer :
      Bytes → Bytes → Bytes → Bytes → Bytes → String → String → DirectHandshakePayload
  answer secret seed secret' seed' m alice bob = record {
    sender_fingerprint = bob;
    recipient_fingerprint = alice;
    stage = HandshakeStage.response;
    exchange =
        from_responder x.primitives x.kem (x.primitives.dh_public secret')
          (x.kem.encapsulation_key (x.kem.from_seed seed')) (made_by secret seed secret' seed' m).1;
  }

  abbrev with_session :
      HandshakeClient Db → SessionRole → String → String → String → Bytes → HandshakeClient Db
  with_session c role contact alice bob key = record c {
    client =
        establish_direct_session Db c.client contact
          (derive_directional_session_keys x.keyed_hash key role alice bob);
  }

  -- The responder on the initiator's envelope.
  pub handle-hello :
      (fill : ℕ → Bytes) (now : ℕ) (secret seed secret' seed' m : Bytes) (b : HandshakeClient Db)
      (alice bob : String) (env reply : NetworkEnvelope)
      → length secret ≡ 32
      → x.from_json env.payload ≡ some (hello secret seed alice bob)
      → handshake_envelope Db x fill now (answer secret seed secret' seed' m alice bob) ≡ ok reply
      → handle_key_exchange Db x fill now secret' seed' m b env ≡ (
        record (with_session b SessionRole.responder alice alice bob
            (key_of secret seed secret' seed' m)) {
              pending_responses = b.pending_responses ++ reply ∷ [];
            },
        ok tt,
      )
  unfolding handle_key_exchange handle_initiation new_responder
  handle-hello fill now secret seed secret' seed' m b alice bob env reply h read written =
      let keys = exchange_keys_ok secret seed secret' seed' m h in ground arith

  -- The initiator on the responder's envelope.
  handle-answer :
      (fill : ℕ → Bytes) (now : ℕ) (secret seed secret' seed' m s'' seed'' m'' : Bytes)
      (a : HandshakeClient Db) (alice bob : String) (env : NetworkEnvelope)
      → length secret ≡ 32
      → length secret' ≡ 32
      → length m ≡ 32
      → x.from_json env.payload ≡ some (answer secret seed secret' seed' m alice bob)
      → lookup bob a.pending_initiators ≡ some (generate_initiator x.primitives x.kem secret seed)
      → handle_key_exchange Db x fill now s'' seed'' m'' a env ≡ (
        record (with_session a SessionRole.initiator bob alice bob
            (key_of secret seed secret' seed' m)) {
              pending_initiators = remove bob a.pending_initiators;
            },
        ok tt,
      )
  unfolding handle_key_exchange handle_response
  handle-answer fill now secret seed secret' seed' m s'' seed'' m'' a alice bob env h h' k read
        pending =
      let keys =
        finish_keys_ok secret seed secret' seed' m (x.kem.encapsulation_key (x.kem.from_seed seed'))
          h h' k in
      ground arith

  initiate_lem :
      (fill : ℕ → Bytes) (now : ℕ) (secret seed : Bytes) (a : HandshakeClient Db)
      (alice bob : String) (env : NetworkEnvelope)
      → handshake_envelope Db x fill now (hello secret seed alice bob) ≡ ok env
      → initiate_key_exchange Db x fill now secret seed a alice bob ≡ (
        record a {
          pending_initiators =
              insert bob (generate_initiator x.primitives x.kem secret seed) a.pending_initiators;
        },
        ok env,
      )
  unfolding initiate_key_exchange generate_initiator
  initiate_lem fill now secret seed a alice bob env written = ground arith

  respond_lem :
      (b : HandshakeClient Db) (waiting : List NetworkEnvelope) (reply : NetworkEnvelope)
      → b.pending_responses ≡ waiting ++ reply ∷ []
      → respond_to_key_exchange Db x b ≡ (record b { pending_responses = waiting }, ok reply)
  unfolding respond_to_key_exchange
  respond_lem b waiting reply h = let last = pop-snoc waiting reply in ground arith

  -- When one client initiates a key exchange, the other one handles the envelope, its answer is
  -- taken and the first one handles it, every step succeeds, and each has a session with the
  -- other: the two agree.
  pub key_exchange_completes :
      (fill : ℕ → Bytes) (t t' t'' : ℕ) (secret seed secret' seed' m s'' seed'' m'' : Bytes)
      (a b : HandshakeClient Db) (alice bob : String) (json json' : Bytes)
      → length secret ≡ 32
      → length secret' ≡ 32
      → length m ≡ 32
      → x.to_json (hello secret seed alice bob) ≡ some json
      → x.to_json (answer secret seed secret' seed' m alice bob) ≡ some json'
      → a.client.fingerprint ≡ some alice
      → b.client.fingerprint ≡ some bob
      → (a' a'' b' b'' : HandshakeClient Db) × (env reply : NetworkEnvelope) × (s r : DirectSession)
        × (initiate_key_exchange Db x fill t secret seed a alice bob ≡ (a', ok env))
        × (handle_key_exchange Db x fill t' secret' seed' m b env ≡ (b', ok tt))
        × (respond_to_key_exchange Db x b' ≡ (b'', ok reply))
        × (handle_key_exchange Db x fill t'' s'' seed'' m'' a' reply ≡ (a'', ok tt))
        × (lookup bob a''.client.direct_sessions ≡ some s)
        × (lookup alice b''.client.direct_sessions ≡ some r)
        × Agrees s r
  key_exchange_completes fill t t' t'' secret seed secret' seed' m s'' seed'' m'' a b alice bob json
        json' h h' k w w' ha hb =
      let first = envelope_read fill t (hello secret seed alice bob) json w in
      let second = envelope_read fill t' (answer secret seed secret' seed' m alice bob) json' w' in
      let pending =
        insert bob (generate_initiator x.primitives x.kem secret seed) a.pending_initiators in
      let a' : HandshakeClient Db = record a { pending_initiators = pending } in
      let there : lookup bob pending ≡ some (generate_initiator x.primitives x.kem secret seed) =
        rw (lookup-insert bob bob, beq_self bob) refl in
      let shared = key_of secret seed secret' seed' m in
      let sessions = sessions_agree Db x.keyed_hash a.client b.client shared alice bob ha hb in
      (
        a',
        _,
        _,
        _,
        first.0,
        second.0,
        sessions.0,
        sessions.1,
        initiate_lem fill t secret seed a alice bob first.0 first.1,
        handle-hello fill t' secret seed secret' seed' m b alice bob first.0 second.0 h first.2
            second.1,
        respond_lem _ b.pending_responses second.0 refl,
        handle-answer fill t'' secret seed secret' seed' m s'' seed'' m'' a' alice bob second.0 h h'
            k second.2 there,
        sessions.2,
        sessions.3,
        sessions.4,
      )
