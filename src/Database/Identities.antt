-- ===== src/Database/Identities.antt =====
-- crates/storage/src/database.rs: identities, contacts and the statistics.
use shadowgram.Base.{
  ℕ, String, Bool, true, false, ◌&&◌, Option, none, some, List, [], ◌∷◌, Bytes, length, any, find,
  retain, map, ltb, ◌===◌, string_Eq, Result, ok,
}
use shadowgram.Database.{Tables, IdentityRow, ContactRow, DbStats, DbError}
use shadowgram.Database.Queries.{order_by, replace_row}

unfoldable pub store_identity :
    ℕ → Tables → String → Bytes → Bytes → Tables × Result (Unit {0}) DbError
store_identity now t fingerprint public_identity encrypted_private_key = (
  record t {
    identities =
        replace_row (λ i. i.0.fingerprint === fingerprint)
          (
            record {
              fingerprint = fingerprint;
              public_identity = public_identity;
              encrypted_private_key = encrypted_private_key;
              created_at = now;
              rotated_at = none;
            },
            true,
          )
          t.identities;
  },
  ok tt,
)

unfoldable pub deactivate_all_identities : Tables → Tables × Result (Unit {0}) DbError
deactivate_all_identities t =
    (record t { identities = map (λ i. (i.0, false)) t.identities }, ok tt)

unfoldable pub is_identity_active : Tables → String → Tables × Result Bool DbError
is_identity_active t fingerprint =
    (t, ok (any (λ i. i.0.fingerprint === fingerprint && i.1) t.identities))

unfoldable pub load_identity : Tables → String → Tables × Result (Option IdentityRow) DbError
load_identity t fingerprint =
    (t, ok (find (λ i. i.fingerprint === fingerprint) (map (λ i. i.0) t.identities)))

-- `ORDER BY created_at DESC LIMIT 1`
unfoldable pub first_row {ℓ} : {A : Type ℓ} → List A → Option A
first_row [] = none
first_row (x ∷ xs) = some x

unfoldable pub load_latest_identity : Tables → Tables × Result (Option IdentityRow) DbError
load_latest_identity t = (
  t,
  ok (
      first_row (
        order_by (λ a b. ltb b.created_at a.created_at)
          (map (λ i. i.0) (retain (λ i. i.1) t.identities)))),
)

unfoldable pub store_contact :
    ℕ → Tables → String → String → Bytes → ℕ → Tables × Result (Unit {0}) DbError
store_contact now t fingerprint alias public_identity trust_level = (
  record t {
    contacts =
        replace_row (λ c. c.fingerprint === fingerprint)
          (record {
            fingerprint = fingerprint;
            alias = alias;
            public_identity = public_identity;
            trust_level = trust_level;
            added_at = now;
            last_seen = none;
          })
          t.contacts;
  },
  ok tt,
)

unfoldable pub get_contact : Tables → String → Tables × Result (Option ContactRow) DbError
get_contact t fingerprint = (t, ok (find (λ c. c.fingerprint === fingerprint) t.contacts))

unfoldable pub db_stats : Tables → Tables × Result DbStats DbError
db_stats t = (
  t,
  ok (record {
    identity_count = length t.identities;
    contact_count = length t.contacts;
    message_count = length t.messages;
  }),
)
