-- ===== src/Cache/Tests.antt =====
-- crates/storage/src/encrypted_cache.rs: the theorems at a full cache of two entries.
use shadowgram.Base.{
  ℕ, ◌+◌, ◌≤◌, ◌≡◌, refl, none, some, [], ◌∷◌, length, arith, lookup, insert, remove, contains_key,
  string_Eq,
}
use shadowgram.Cache.{
  done, deadlock, CacheEntry, EncryptedCache, new_entry, oldest, evict, is_cleanup_due,
  maybe_cleanup, cleanup, set, get, is_expired,
}
use shadowgram.Cache.Entries.{stored}
use shadowgram.Cache.Bounds.{length-set}

abbrev entry : ℕ → CacheEntry
entry t = record { content = t ∷ []; nonce = []; created_at = t; expires_at = some (t + 300) }

abbrev full : EncryptedCache
full = record {
  entries = ("a", entry 5) ∷ ("b", entry 3) ∷ [];
  config = record { default_ttl = some 300; max_entries = 2; cleanup_interval = 60 };
  last_cleanup = 0;
}

program : Unit {0}
unfolding set maybe_cleanup cleanup is_cleanup_due evict oldest new_entry lookup insert remove
    contains_key get is_expired
program = tt

-- The oldest entry makes room for the new one.
evicts_oldest : set [] 10 full "c" (7 ∷ []) none ≡ done (stored [] 10 full "c" (7 ∷ []) none)
unfolding program
evicts_oldest = refl

b_is_gone : get 10 (stored [] 10 full "c" (7 ∷ []) none) "b" ≡ none
unfolding program
b_is_gone = refl

-- After the interval of cleanups the call waits for itself.
waits : set [] 60 full "c" (7 ∷ []) none ≡ deadlock
unfolding program
waits = refl

length-set_example :
    (length (stored [] 10 full "c" (7 ∷ []) none).entries ≤ 2)
    × ((stored [] 10 full "c" (7 ∷ []) none).config ≡ full.config)
length-set_example =
    length-set [] 10 full (stored [] 10 full "c" (7 ∷ []) none) "c" (7 ∷ []) none (omega arith)
      (omega arith) evicts_oldest
