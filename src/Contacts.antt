-- ===== src/Contacts.antt =====
-- crates/messenger/src/contacts.rs: contacts and the store of them in memory. The lock of the
-- store is left out, and no call of it fails.
pub mod Discovery
use shadowgram.Base.{
  ℕ, String, Bool, true, false, Option, none, some, List, Bytes, insert, lookup, remove,
  contains_key, string_Eq, map,
}

pub data TrustLevel : Type 0 where
  unverified verified trusted : TrustLevel

pub record Contact : Type 0 where
  pub fingerprint : String
  pub alias : String
  pub public_identity : Bytes
  pub pairwise_id : Option Bytes
  pub trust_level : TrustLevel
  pub added_at : ℕ
  pub last_seen : Option ℕ
  pub notes : Option String

-- Of the time.
unfoldable pub new_contact : ℕ → String → String → Bytes → Contact
new_contact now fingerprint alias public_identity = record {
  fingerprint = fingerprint;
  alias = alias;
  public_identity = public_identity;
  pairwise_id = none;
  trust_level = TrustLevel.unverified;
  added_at = now;
  last_seen = none;
  notes = none;
}

unfoldable pub set_trust_level : Contact → TrustLevel → Contact
set_trust_level c level = record c { trust_level = level }

unfoldable pub mark_seen : ℕ → Contact → Contact
mark_seen now c = record c { last_seen = some now }

-- `self.trust_level >= TrustLevel::Verified`
unfoldable pub is_verified : Contact → Bool
is_verified c = elim c.trust_level [
  | TrustLevel.unverified ↦ false
  | TrustLevel.verified ↦ true
  | TrustLevel.trusted ↦ true
]

unfoldable pub is_trusted : Contact → Bool
is_trusted c = elim c.trust_level [
  | TrustLevel.unverified ↦ false
  | TrustLevel.verified ↦ false
  | TrustLevel.trusted ↦ true
]

pub record MemoryContactStore : Type 0 where
  pub contacts : List (String × Contact)

unfoldable pub add : MemoryContactStore → Contact → MemoryContactStore
add s contact = record { contacts = insert contact.fingerprint contact s.contacts }

unfoldable pub get : MemoryContactStore → String → Option Contact
get s fingerprint = lookup fingerprint s.contacts

unfoldable pub remove_contact : MemoryContactStore → String → MemoryContactStore
remove_contact s fingerprint = record { contacts = remove fingerprint s.contacts }

unfoldable pub list : MemoryContactStore → List Contact
list s = map (λ e. e.1) s.contacts

unfoldable pub update : MemoryContactStore → Contact → MemoryContactStore
update s contact = record { contacts = insert contact.fingerprint contact s.contacts }

unfoldable pub exists : MemoryContactStore → String → Bool
exists s fingerprint = contains_key fingerprint s.contacts

-- `trust_level as u8`
unfoldable pub trust_byte : TrustLevel → ℕ
trust_byte TrustLevel.unverified = 0
trust_byte TrustLevel.verified = 1
trust_byte TrustLevel.trusted = 2

pub record ContactExport : Type 0 where
  pub fingerprint : String
  pub alias : String
  pub public_identity : Bytes
  pub trust_level : ℕ

-- `encode` is base64, with a text as its bytes.
unfoldable pub from_contact : (Bytes → Bytes) → Contact → ContactExport
from_contact encode contact = record {
  fingerprint = contact.fingerprint;
  alias = contact.alias;
  public_identity = encode contact.public_identity;
  trust_level = trust_byte contact.trust_level;
}
