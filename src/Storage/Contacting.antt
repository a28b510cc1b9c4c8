-- ===== src/Storage/Contacting.antt =====
-- crates/messenger/src/client.rs: a session with a contact that was added.
use shadowgram.Base.{
  ◌≡◌, refl, ℕ, true, false, not, String, Option, none, some, List, [], ◌∷◌, ◌++◌, Bytes, any,
  retain, any-append, Bool-cases, inl, inr, arith, lookup, insert, string_Eq, ◌===◌, bytes_Eq,
  bytes_eq_iff,
}
use text.Mathlib.TextEquality.{eq_iff}
use shadowgram.Base
use shadowgram.Contacts.{Contact, trust_byte}
use shadowgram.Database.{Database, Tables, ContactRow, ConversationRow, with_conn}
use shadowgram.Database.Queries.{replace_row}
use shadowgram.Database.Messages.{ensure_conversation, has_contact, has_identity, has_conversation}
use shadowgram.Database.Identities.{store_contact}
use shadowgram.Session.Keys.{SessionKeys, direct_conversation_id, or_unknown}
use shadowgram.Session.Agreement.{establish_lem}
use shadowgram.Storage.Sessions.{LocalClient, add_contact, establish_session}
use mathlib.Core.Path.{subst}

store_contact-has_contact :
    (now : ℕ) (t : Tables) (f alias : String) (public_identity : Bytes) (trust : ℕ)
    → has_contact (store_contact now t f alias public_identity trust).0 (some f) ≡ true
unfolding store_contact replace_row any
store_contact-has_contact now t f alias public_identity trust =
    let row : ContactRow = record {
      fingerprint = f;
      alias = alias;
      public_identity = public_identity;
      trust_level = trust;
      added_at = now;
      last_seen = none;
    } in
    ground (
      arith,
      any-append (λ (c : ContactRow). c.fingerprint === f)
          (retain (λ c. not (c.fingerprint === f)) t.contacts) (row ∷ []),
      eq_iff f f,
    )

store_contact_keeps :
    (now : ℕ) (t : Tables) (f alias : String) (public_identity : Bytes) (trust : ℕ)
    → ((store_contact now t f alias public_identity trust).0.identities ≡ t.identities)
      × ((store_contact now t f alias public_identity trust).0.messages ≡ t.messages)
      × ((store_contact now t f alias public_identity trust).1 ≡ Base.ok tt)
unfolding store_contact
store_contact_keeps now t f alias public_identity trust = (refl, refl, refl)

-- With its parents a conversation is there behind the call; no message changes.
ensure_conversation-has_conversation :
    (now : ℕ) (t : Tables) (id : Bytes) (peer own : Option String)
    → has_contact t peer ≡ true
    → has_identity t own ≡ true
    → (has_conversation (ensure_conversation now t id 1 peer own).0 id ≡ true)
      × ((ensure_conversation now t id 1 peer own).0.messages ≡ t.messages)
unfolding ensure_conversation any
ensure_conversation-has_conversation now t id peer own contact identity =
    let row : ConversationRow = record {
      id = id;
      conversation_type = 1;
      peer_fingerprint = peer;
      our_identity = own;
      last_message_at = now;
      unread_count = 0;
    } in
    let there = any-append (λ (c : ConversationRow). c.id === id) t.conversations (row ∷ []) in
    let self = (bytes_eq_iff id id).1 refl in
    elim (Bool-cases (has_conversation t id)) [
      | inl known ↦ (ground arith, ground arith)
      | inr new ↦ (ground (arith, there, self), ground arith)
    ]

-- A client whose identity is in its database adds a contact and establishes a session with it: the
-- session has the directional keys, a counter of zero and the conversation of the two, and the
-- conversation is in the database, whose messages stay.
pub establish_session-add_contact :
    (now now' : ℕ) (c : LocalClient) (db : Database) (t : Tables) (contact : Contact)
    (keys : SessionKeys)
    → c.store.database ≡ some db
    → db.conn ≡ some t
    → has_identity t c.store.fingerprint ≡ true
    → (t' : Tables) × ((establish_session now'
          (add_contact now c contact).0
          contact.fingerprint
          keys).store.database
        ≡ some (record db { conn = some t' }))
      × (has_conversation t'
            (direct_conversation_id (or_unknown c.store.fingerprint) contact.fingerprint)
          ≡ true)
      × (t'.messages ≡ t.messages)
      × (lookup contact.fingerprint
            (establish_session now'
              (add_contact now c contact).0
              contact.fingerprint
              keys).direct_sessions
          ≡ some (record {
            send_key = keys.send_key;
            receive_key = keys.receive_key;
            conversation_id =
                direct_conversation_id (or_unknown c.store.fingerprint) contact.fingerprint;
            send_counter = 0;
            seen_incoming_sequences = [];
          }))
unfolding establish_session add_contact with_conn
establish_session-add_contact now now' c db t contact keys base conn identity =
    let added =
      store_contact now t contact.fingerprint contact.alias contact.public_identity
        (trust_byte contact.trust_level) in
    let (identities, messages, done) =
      store_contact_keeps now t contact.fingerprint contact.alias contact.public_identity
        (trust_byte contact.trust_level) in
    let c' = (add_contact now c contact).0 in
    let same : c'.store.fingerprint ≡ c.store.fingerprint = ground arith in
    let own = or_unknown c.store.fingerprint in
    let id = direct_conversation_id own contact.fingerprint in
    let there =
      store_contact-has_contact now t contact.fingerprint contact.alias contact.public_identity
        (trust_byte contact.trust_level) in
    let known : has_identity added.0 c.store.fingerprint ≡ true = ground arith in
    let ensured =
      ensure_conversation-has_conversation now' added.0 id (some contact.fingerprint)
        c.store.fingerprint there known in
    (
      (ensure_conversation now' added.0 id 1 (some contact.fingerprint) c.store.fingerprint).0,
      ground arith,
      ensured.0,
      ground (arith, ensured.1),
      subst
          (λ own.
            lookup contact.fingerprint
              (establish_session now' c' contact.fingerprint keys).direct_sessions
            ≡ some (record {
              send_key = keys.send_key;
              receive_key = keys.receive_key;
              conversation_id = direct_conversation_id (or_unknown own) contact.fingerprint;
              send_counter = 0;
              seen_incoming_sequences = [];
            }))
          same
          (establish_lem (Option Database) (λ key bytes. bytes)
            (record {
              fingerprint = c'.store.fingerprint;
              direct_sessions = c'.direct_sessions;
              database = c'.store.database;
            })
            contact.fingerprint keys),
    )
