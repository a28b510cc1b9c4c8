-- ===== src/Storage/Sessions.antt =====
-- crates/messenger/src/client.rs: contacts and sessions of a client, with what its database keeps
-- of them.
use shadowgram.Base.{ℕ, String, Option, none, some, List, ◌∷◌, Bytes, insert, string_Eq}
use shadowgram.Base
use shadowgram.Chat.{ChatSession, set_state}
use shadowgram.Chat
use shadowgram.Contacts.{Contact, MemoryContactStore, trust_byte}
use shadowgram.Contacts
use shadowgram.Database.{Database, with_conn}
use shadowgram.Database.Messages.{ensure_conversation}
use shadowgram.Database.Identities.{store_contact}
use shadowgram.Session.{DirectSession, ClientError}
use shadowgram.Session.Keys.{
  SessionKeys, establish_direct_session, direct_conversation_id, or_unknown,
}
use shadowgram.Storage.{Store}
use shadowgram.Storage.Messages.{storage_failure}

pub record LocalClient : Type 0 where
  pub store : Store
  pub direct_sessions : List (String × DirectSession)
  pub chats : List (String × ChatSession)
  pub contacts : MemoryContactStore

-- The contact stays in memory where the database refuses it.
unfoldable pub add_contact :
    ℕ → LocalClient → Contact → LocalClient × Base.Result (Unit {0}) ClientError
add_contact now c contact =
    let c' = record c { contacts = Contacts.add c.contacts contact } in
    elim c.store.database [
      | none ↦ (c', Base.ok tt)
      | some db ↦
          let (db', stored) =
            with_conn
              (λ t.
                store_contact now t contact.fingerprint contact.alias contact.public_identity
                  (trust_byte contact.trust_level))
              db in
          (
            record c' { store = record c.store { database = some db' } },
            elim stored [ Base.err e ↦ Base.err (storage_failure e) | Base.ok done ↦ Base.ok tt ],
          )
    ]

-- The database keeps the contact.
unfoldable pub remove_contact : LocalClient → String → LocalClient
remove_contact c fingerprint = record c {
  contacts = Contacts.remove_contact c.contacts fingerprint;
}

-- `establish_direct_session`, whole: an error of the database is dropped.
unfoldable pub establish_session : ℕ → LocalClient → String → SessionKeys → LocalClient
establish_session now c contact_fingerprint keys =
    let own = or_unknown c.store.fingerprint in
    let id = direct_conversation_id own contact_fingerprint in
    let established =
      establish_direct_session (Option Database)
        (record {
          fingerprint = c.store.fingerprint;
          direct_sessions = c.direct_sessions;
          database = c.store.database;
        })
        contact_fingerprint keys in
    let chat = set_state (Chat.new now own contact_fingerprint) Chat.established in
    record c {
      direct_sessions = established.direct_sessions;
      chats = insert contact_fingerprint chat c.chats;
      store = record c.store {
        database = elim c.store.database [
          | none ↦ none
          | some db ↦
              some
                (with_conn
                  (λ t.
                    ensure_conversation now t id 1 (some contact_fingerprint) c.store.fingerprint)
                  db).0
        ];
      };
    }
