-- ===== src/Cache/Bounds.antt =====
-- crates/storage/src/encrypted_cache.rs: the number of entries.
use shadowgram.Base.{
  ℕ, ◌≤◌, ◌<◌, ◌≡◌, refl, String, true, false, Option, some, Option-cases, List, [], ◌∷◌, Bytes,
  length, insert, remove, contains_key, length-insert, length-remove, string_Eq, arith, beq_self,
  Bool-cases, inl, inr,
}
use shadowgram.Cache.{
  done, CacheEntry, EncryptedCache, new_entry, oldest, evict, cleanup, is_cleanup_due,
  maybe_cleanup, set, or_default,
}
use shadowgram.Cache.Entries.{oldest-none}

length-remove_found :
    (k : String) (m : List (String × CacheEntry))
    → contains_key k m ≡ true
    → length (remove k m) < length m
unfolding remove contains_key
length-remove_found k [] h = absurd cc
length-remove_found k ((j, w) ∷ m) h = ground (arith, length-remove k m, length-remove_found k m)

contains_key-oldest :
    (m : List (String × CacheEntry)) (o : String × CacheEntry)
    → oldest m ≡ some o
    → contains_key o.0 m ≡ true
unfolding oldest contains_key
contains_key-oldest [] o h = absurd (ground arith)
contains_key-oldest (e ∷ es) o h = elim (Option-cases (oldest es)) [
  | inl e0 ↦ ground (arith, beq_self e.0)
  | inr (o', found) ↦ ground (arith, beq_self e.0, contains_key-oldest es o' found)
]

length-evict :
    (max_entries : ℕ) (key : String) (entries : List (String × CacheEntry))
    → 0 < max_entries
    → length entries ≤ max_entries
    → contains_key key entries ≡ false
    → length (evict max_entries key entries) < max_entries
unfolding evict
length-evict max_entries key entries pos fits new = elim (Option-cases (oldest entries)) [
  | inl e0 ↦ ground (arith, oldest-none entries e0)
  | inr (o, found) ↦
      ground (arith, length-remove_found o.0 entries (contains_key-oldest entries o found))
]

evict_known :
    (max_entries : ℕ) (key : String) (entries : List (String × CacheEntry))
    → contains_key key entries ≡ true
    → evict max_entries key entries ≡ entries
unfolding evict
evict_known max_entries key entries known = ground arith

due_kept :
    (now : ℕ) (c : EncryptedCache) (entries : List (String × CacheEntry))
    → is_cleanup_due now (record c { entries = entries }) ≡ is_cleanup_due now c
unfolding is_cleanup_due
due_kept now c entries = refl

length-stored :
    (max_entries : ℕ) (key : String) (entry : CacheEntry) (entries : List (String × CacheEntry))
    → 0 < max_entries
    → length entries ≤ max_entries
    → length (insert key entry (evict max_entries key entries)) ≤ max_entries
length-stored max_entries key entry entries pos fits =
    let kept = evict max_entries key entries in
    elim (Bool-cases (contains_key key entries)) [
      | inl known ↦
          let same = evict_known max_entries key entries known in
          ground (arith, same, known, length-insert key entry kept)
      | inr new ↦
          ground
            (arith, length-evict max_entries key entries pos fits new, length-insert key entry kept)
    ]

-- A cache that may hold entries never holds more than it may, whenever a call of `set` returns,
-- and may hold as many as before.
pub length-set :
    (nonce : Bytes) (now : ℕ) (c c' : EncryptedCache) (key : String) (content : Bytes)
    (ttl : Option ℕ)
    → 0 < c.config.max_entries
    → length c.entries ≤ c.config.max_entries
    → set nonce now c key content ttl ≡ done c'
    → (length c'.entries ≤ c.config.max_entries) × (c'.config ≡ c.config)
unfolding set maybe_cleanup cleanup
length-set nonce now c c' key content ttl pos fits returned =
    let stored =
      length-stored c.config.max_entries key
        (new_entry nonce now content (or_default ttl c.config.default_ttl)) c.entries pos fits in
    elim (Bool-cases (is_cleanup_due now c)) [
      | inl due ↦ absurd (
          ground (
            arith,
            due_kept now c (
                insert key (new_entry nonce now content (or_default ttl c.config.default_ttl))
                  (evict c.config.max_entries key c.entries)),
          ))
      | inr early ↦ ground (
        arith,
        stored,
        due_kept now c (
            insert key (new_entry nonce now content (or_default ttl c.config.default_ttl))
              (evict c.config.max_entries key c.entries)),
      )
    ]
