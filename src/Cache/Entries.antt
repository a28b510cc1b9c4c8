-- ===== src/Cache/Entries.antt =====
-- crates/storage/src/encrypted_cache.rs: what is read after a value was set.
use shadowgram.Base.{
  ℕ, ◌≤◌, ◌≡◌, ◌≢◌, ◌⊎◌, refl, String, Option, none, some, List, [], ◌∷◌, Bytes, length, lookup,
  insert, string_Eq, arith, All,
}
use shadowgram.Cache.{CacheEntry, EncryptedCache, new_entry, oldest, evict, get, or_default}

-- No entry is older.
abbrev pub IsOldest : ℕ → List (String × CacheEntry) → Type 0
IsOldest t entries = All (λ (e : String × CacheEntry). t ≤ e.1.created_at) entries

pub oldest-none : (es : List (String × CacheEntry)) → oldest es ≡ none → es ≡ []
unfolding oldest
oldest-none [] h = refl
oldest-none (e ∷ es) h = absurd (ground (arith))

-- The cache with the entry, whether or not the call gets to return it.
abbrev pub stored : Bytes → ℕ → EncryptedCache → String → Bytes → Option ℕ → EncryptedCache
stored nonce now c key content ttl = record c {
  entries =
      insert key (new_entry nonce now content (or_default ttl c.config.default_ttl))
        (evict c.config.max_entries key c.entries);
}

-- What a `set` that returns leaves: the value is read back, and every other key has the entry that
-- it had, unless the cache was full and the oldest entry was that of the key.
pub record HasSet (now : ℕ) (c : EncryptedCache) (key : String) (content : Bytes)
    (c' : EncryptedCache) : Type 0 where
  pub value : get now c' key ≡ some content
  pub others :
      (j : String)
      → j ≢ key
      → (lookup j c'.entries ≡ lookup j c.entries)
        ⊎ ((e : CacheEntry) × (oldest c.entries ≡ some (j, e))
            × (c.config.max_entries ≤ length c.entries)
            × IsOldest e.created_at c.entries)
