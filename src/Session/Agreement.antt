-- ===== src/Session/Agreement.antt =====
-- crates/messenger/src/client.rs: the two ends of a direct session after a key exchange.
use shadowgram.Base.{
  ◌≡◌, refl, String, true, false, some, [], ◌∷◌, Bytes, as_bytes, lookup, lookup-insert, beq_self,
  string_Eq, Bool-cases, inl, inr, arith,
}
use shadowgram.Session.{DirectSession, Client}
use shadowgram.Session.Keys.{
  SessionKeys, SessionRole, derive_directional_session_keys, leb_bytes, direct_conversation_id,
  establish_direct_session, or_unknown,
}

-- Each end sends with the key that the other one receives with, in the same conversation.
pub record Agrees (s r : DirectSession) : Type 0 where
  pub forth : s.send_key ≡ r.receive_key
  pub back : r.send_key ≡ s.receive_key
  pub conversation : s.conversation_id ≡ r.conversation_id

leb_bytes_total : (a b : Bytes) → leb_bytes a b ≡ false → leb_bytes b a ≡ true
unfolding leb_bytes
leb_bytes_total [] b h = ground arith
leb_bytes_total (x ∷ xs) [] h = refl
leb_bytes_total (x ∷ xs) (y ∷ ys) h = ground (arith, leb_bytes_total xs ys)

leb_bytes_antisym : (a b : Bytes) → leb_bytes a b ≡ true → leb_bytes b a ≡ true → a ≡ b
unfolding leb_bytes
leb_bytes_antisym [] [] h k = refl
leb_bytes_antisym [] (y ∷ ys) h k = absurd cc
leb_bytes_antisym (x ∷ xs) [] h k = absurd cc
leb_bytes_antisym (x ∷ xs) (y ∷ ys) h k = ground (arith, leb_bytes_antisym xs ys)

direct_conversation_id_comm :
    (a b : String) → direct_conversation_id a b ≡ direct_conversation_id b a
unfolding direct_conversation_id
direct_conversation_id_comm a b =
    let x = as_bytes a in
    let y = as_bytes b in
    elim (Bool-cases (leb_bytes x y)) [
      | inr later ↦ rw (later, leb_bytes_total x y later) refl
      | inl first ↦ elim (Bool-cases (leb_bytes y x)) [
        | inr only ↦ rw (first, only) refl
        | inl both ↦ rw (first, both, leb_bytes_antisym x y first both) refl
      ]
    ]

module _ (Db : Type 0) (keyed_hash : Bytes → Bytes → Bytes) where
  pub establish_lem :
      (c : Client Db) (contact : String) (keys : SessionKeys)
      → lookup contact (establish_direct_session Db c contact keys).direct_sessions
        ≡ some (record {
          send_key = keys.send_key;
          receive_key = keys.receive_key;
          conversation_id = direct_conversation_id (or_unknown c.fingerprint) contact;
          send_counter = 0;
          seen_incoming_sequences = [];
        })
  unfolding establish_direct_session
  establish_lem c contact keys = rw (lookup-insert contact contact, beq_self contact) refl

  -- Two clients that establish a session from the same shared key, one as the initiator and one as
  -- the responder, have sessions that agree.
  pub sessions_agree :
      (a b : Client Db) (shared : Bytes) (alice bob : String)
      → a.fingerprint ≡ some alice
      → b.fingerprint ≡ some bob
      → (s r : DirectSession) × (lookup bob
            (establish_direct_session Db a bob (
              derive_directional_session_keys keyed_hash shared SessionRole.initiator alice
                bob)).direct_sessions
          ≡ some s)
        × (lookup alice
              (establish_direct_session Db b alice (
                derive_directional_session_keys keyed_hash shared SessionRole.responder alice
                  bob)).direct_sessions
            ≡ some r)
        × Agrees s r
  unfolding derive_directional_session_keys
  sessions_agree a b shared alice bob ha hb =
      let keys =
        derive_directional_session_keys keyed_hash shared SessionRole.initiator alice bob in
      let keys' =
        derive_directional_session_keys keyed_hash shared SessionRole.responder alice bob in
      (
        _,
        _,
        establish_lem a bob keys,
        establish_lem b alice keys',
        record {
          forth = refl;
          back = refl;
          conversation = rw (ha, hb) (direct_conversation_id_comm alice bob);
        },
      )
