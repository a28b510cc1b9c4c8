-- ===== src/Contacts/Discovery.antt =====
-- crates/messenger/src/contacts.rs: ContactDiscovery over the store in memory, and the discovery
-- of the client. The hash is a parameter, of the bytes of a fingerprint.
use shadowgram.Base.{String, List, Bytes, as_bytes, any, retain, map, bytes_Eq, ◌===◌, ℕ}
use shadowgram.Contacts.{Contact, MemoryContactStore, add, list, new_contact}
use shadowgram.Psi.{PsiResult, discover_common, new_discovery}

pub record ContactDiscovery : Type 0 where
  pub store : MemoryContactStore
  pub hash_function : Bytes → Bytes

-- The hash function is `blake3_hash`.
unfoldable pub new_service : (Bytes → Bytes) → MemoryContactStore → ContactDiscovery
new_service blake3_hash store = record { store = store; hash_function = blake3_hash }

unfoldable pub hash_fingerprint : ContactDiscovery → Bytes → Bytes
hash_fingerprint self fingerprint = self.hash_function fingerprint

unfoldable pub get_local_hashes : ContactDiscovery → List Bytes
get_local_hashes self = map (λ c. hash_fingerprint self (as_bytes c.fingerprint)) (list self.store)

unfoldable pub find_common_contacts : ContactDiscovery → List Bytes → List Contact
find_common_contacts self remote_hashes =
    retain (λ c. any (λ h. h === hash_fingerprint self (as_bytes c.fingerprint)) remote_hashes)
      (list self.store)

unfoldable pub add_discovered_contact :
    ℕ → ContactDiscovery → String → String → Bytes → ContactDiscovery
add_discovered_contact now self fingerprint alias public_identity = record self {
  store = add self.store (new_contact now fingerprint alias public_identity);
}

-- `Client::run_contact_discovery_psi`
unfoldable pub run_contact_discovery_psi :
    (Bytes → Bytes) → MemoryContactStore → List Bytes → PsiResult
run_contact_discovery_psi blake3 contacts remote_hashes =
    discover_common (new_discovery blake3 (map (λ c. c.fingerprint) (list contacts))) remote_hashes
