-- ===== src/Cache.antt =====
-- crates/storage/src/encrypted_cache.rs: the in-memory cache and the lock of its entries. Each call
-- happens at one instant; instants and durations are numbers of nanoseconds.
pub mod Bounds
pub mod Entries
mod Tests
use shadowgram.Base.{
  ℕ, suc, ◌+◌, ◌-◌, ◌/◌, String, Bool, true, false, not, ◌&&◌, Option, none, some, List, [], ◌∷◌,
  Bytes, length, retain, ltb, leb, ◌==◌, if◌then◌else◌, lookup, insert, remove, contains_key,
  string_Eq,
}

-- What a call comes to that takes locks: a result, or a wait that never ends.
pub data Wait {ℓ} (A : Type ℓ) : Type ℓ where
  done : A → Wait A
  deadlock : Wait A

pub record CacheEntry : Type 0 where
  pub content : Bytes
  pub nonce : Bytes
  pub created_at : ℕ
  pub expires_at : Option ℕ

-- `ttl.map(|d| now + d)`
abbrev pub expiry : ℕ → Option ℕ → Option ℕ
expiry now none = none
expiry now (some d) = some (now + d)

-- Of the random nonce.
unfoldable pub new_entry : Bytes → ℕ → Bytes → Option ℕ → CacheEntry
new_entry nonce now content ttl = record {
  content = content;
  nonce = nonce;
  created_at = now;
  expires_at = expiry now ttl;
}

unfoldable pub is_expired : ℕ → CacheEntry → Bool
is_expired now entry = elim entry.expires_at [ none ↦ false | some e ↦ ltb e now ]

pub record CacheConfig : Type 0 where
  pub default_ttl : Option ℕ
  pub max_entries : ℕ
  pub cleanup_interval : ℕ

pub record EncryptedCache : Type 0 where
  pub entries : List (String × CacheEntry)
  pub config : CacheConfig
  pub last_cleanup : ℕ

unfoldable pub with_config : ℕ → CacheConfig → EncryptedCache
with_config now config = record { entries = []; config = config; last_cleanup = now }

-- `entries.iter().min_by_key(|(_, e)| e.created_at)`, the first of the oldest.
unfoldable pub oldest : List (String × CacheEntry) → Option (String × CacheEntry)
oldest [] = none
oldest (e ∷ es) = elim (oldest es) [
  | none ↦ some e
  | some o ↦ if leb e.1.created_at o.1.created_at then some e else some o
]

-- The eviction in `set`.
unfoldable pub evict : ℕ → String → List (String × CacheEntry) → List (String × CacheEntry)
evict max_entries key entries =
    if leb max_entries (length entries) && not (contains_key key entries)
    then elim (oldest entries) [ none ↦ entries | some o ↦ remove o.0 entries ]
    else entries

-- `ttl.or(default)`
abbrev pub or_default : Option ℕ → Option ℕ → Option ℕ
or_default none d = d
or_default (some t) d = some t

-- The lock of the entries is not reentrant: `held` tells whether the caller holds it.
unfoldable pub cleanup : Bool → ℕ → EncryptedCache → Wait (EncryptedCache × ℕ)
cleanup held now c =
    let kept = retain (λ e. not (is_expired now e.1)) c.entries in
    if held then deadlock else done (record c { entries = kept }, length c.entries - length kept)

-- `last_cleanup.elapsed() >= cleanup_interval`
unfoldable pub is_cleanup_due : ℕ → EncryptedCache → Bool
is_cleanup_due now c = leb c.config.cleanup_interval (now - c.last_cleanup)

unfoldable pub maybe_cleanup : Bool → ℕ → EncryptedCache → Wait EncryptedCache
maybe_cleanup held now c =
    if is_cleanup_due now c
    then elim (cleanup held now (record c { last_cleanup = now })) [
      | deadlock ↦ deadlock
      | done r ↦ done r.0
    ]
    else done c

-- `set` holds the lock of the entries until it returns.
unfoldable pub set : Bytes → ℕ → EncryptedCache → String → Bytes → Option ℕ → Wait EncryptedCache
set nonce now c key content ttl =
    let entry = new_entry nonce now content (or_default ttl c.config.default_ttl) in
    maybe_cleanup true now
      (record c { entries = insert key entry (evict c.config.max_entries key c.entries) })

unfoldable pub get : ℕ → EncryptedCache → String → Option Bytes
get now c key = elim (lookup key c.entries) [
  | none ↦ none
  | some entry ↦ if is_expired now entry then none else some entry.content
]

unfoldable pub remove_entry : EncryptedCache → String → EncryptedCache × Option Bytes
remove_entry c key = elim (lookup key c.entries) [
  | none ↦ (c, none)
  | some entry ↦ (record c { entries = remove key c.entries }, some entry.content)
]

unfoldable pub contains : ℕ → EncryptedCache → String → Bool
contains now c key = elim (lookup key c.entries) [
  | none ↦ false
  | some entry ↦ not (is_expired now entry)
]

unfoldable pub len : EncryptedCache → ℕ
len c = length c.entries

unfoldable pub clear : EncryptedCache → EncryptedCache
clear c = record c { entries = [] }
