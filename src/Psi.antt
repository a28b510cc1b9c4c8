-- ===== src/Psi.antt =====
-- crates/messenger/src/psi.rs: the intersection of contacts by their hashes. BLAKE3 is a parameter.
pub mod Intersection
mod Tests
use shadowgram.Base.{
  ℕ, zero, suc, ◌+◌, String, Bool, true, false, not, List, [], ◌∷◌, ◌++◌, Bytes, as_bytes, length,
  is_empty, any, retain, map, bytes_Eq, string_Eq, ◌===◌, if◌then◌else◌,
}

pub record PsiProtocol : Type 0 where
  pub items : List Bytes
  pub blinded_items : List Bytes

pub record ContactFingerprint : Type 0 where
  pub fingerprint : String
  pub hash : Bytes

pub record PsiResult : Type 0 where
  pub matched_fingerprints : List String
  pub total_local_contacts : ℕ
  pub total_matched : ℕ

pub record ContactDiscoveryPsi : Type 0 where
  pub local_contacts : List ContactFingerprint

-- The inner loop of both searches, up to its `break`.
unfoldable pub matches : Bytes → List Bytes → Bool
matches hash [] = false
matches hash (other ∷ others) = if hash === other then true else matches hash others

-- The outer loop of `find_matches`, at index `i`.
unfoldable pub find_matches_from : ℕ → List Bytes → List Bytes → List ℕ
find_matches_from i items [] = []
find_matches_from i items (other ∷ others) =
    let rest = find_matches_from (suc i) items others in
    if matches other items then i ∷ rest else rest

unfoldable pub find_matches : PsiProtocol → List Bytes → List ℕ
find_matches self other_blinded = find_matches_from 0 self.items other_blinded

unfoldable pub item_count : PsiProtocol → ℕ
item_count self = length self.items

-- The outer loop of `discover_common`.
unfoldable pub discover_from : List ContactFingerprint → List Bytes → List String
discover_from [] remote = []
discover_from (c ∷ cs) remote =
    let rest = discover_from cs remote in
    if matches c.hash remote then c.fingerprint ∷ rest else rest

unfoldable pub discover_common : ContactDiscoveryPsi → List Bytes → PsiResult
discover_common self remote_contact_hashes =
    if is_empty remote_contact_hashes
    then record {
      matched_fingerprints = [];
      total_local_contacts = length self.local_contacts;
      total_matched = 0;
    }
    else let matched = discover_from self.local_contacts remote_contact_hashes in
      record {
        matched_fingerprints = matched;
        total_local_contacts = length self.local_contacts;
        total_matched = length matched;
      }

unfoldable pub get_contact_hashes : ContactDiscoveryPsi → List Bytes
get_contact_hashes self = map (λ c. c.hash) self.local_contacts

unfoldable pub forget_contact : ContactDiscoveryPsi → String → ContactDiscoveryPsi
forget_contact self fingerprint = record {
  local_contacts = retain (λ c. not (c.fingerprint === fingerprint)) self.local_contacts;
}

module _ (blake3 : Bytes → Bytes) where
  unfoldable pub new_protocol : List Bytes → PsiProtocol
  new_protocol items = record { items = map blake3 items; blinded_items = map blake3 items }

  unfoldable pub new_fingerprint : String → ContactFingerprint
  new_fingerprint fingerprint = record {
    fingerprint = fingerprint;
    hash = blake3 (as_bytes fingerprint);
  }

  unfoldable pub new_discovery : List String → ContactDiscoveryPsi
  new_discovery local_contacts = record { local_contacts = map new_fingerprint local_contacts }

  unfoldable pub add_contact : ContactDiscoveryPsi → String → ContactDiscoveryPsi
  add_contact self fingerprint = record {
    local_contacts = self.local_contacts ++ new_fingerprint fingerprint ∷ [];
  }
