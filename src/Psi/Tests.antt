-- ===== src/Psi/Tests.antt =====
-- crates/messenger/src/psi.rs: the searches at two lists of contacts, with a hash that is the text.
use shadowgram.Base.{
  any, bytes_eq, ◌≡◌, refl, String, List, [], ◌∷◌, as_bytes, map, retain, bytes_Eq,
}
use shadowgram.Contacts.{list, MemoryContactStore, new_contact}
use shadowgram.Contacts.Discovery.{find_common_contacts, new_service, run_contact_discovery_psi}
use shadowgram.Psi.{
  new_discovery, get_contact_hashes, find_matches, find_matches_from, matches, new_protocol,
}
use shadowgram.Psi.Intersection.{run_contact_discovery_psi-get_contact_hashes}

abbrev mine : List String
mine = "alice" ∷ "bob" ∷ "carol" ∷ []

abbrev theirs : List String
theirs = "dave" ∷ "bob" ∷ []

-- The index of the item of the other that we have.
bob_matches :
    find_matches
      (new_protocol (λ b. b) (map as_bytes mine))
      (new_protocol (λ b. b) (map as_bytes theirs)).blinded_items
    ≡ 1 ∷ []
unfolding find_matches find_matches_from matches new_protocol bytes_eq
bob_matches = refl

abbrev store : MemoryContactStore
store = record {
  contacts =
      ("bob", new_contact 7 "bob" "Bob" (1 ∷ []))
      ∷ ("carol", new_contact 8 "carol" "Carol" (2 ∷ []))
      ∷ [];
}

run_contact_discovery_psi-get_contact_hashes_example :
    ((run_contact_discovery_psi
        (λ b. b)
        store
        (get_contact_hashes (new_discovery (λ b. b) theirs))).matched_fingerprints
      ≡ "bob" ∷ [])
    × ((run_contact_discovery_psi
          (λ b. b)
          store
          (get_contact_hashes (new_discovery (λ b. b) theirs))).total_matched
        ≡ 1)
    × ((run_contact_discovery_psi
          (λ b. b)
          store
          (get_contact_hashes (new_discovery (λ b. b) theirs))).total_local_contacts
        ≡ 2)
    × (map
          (λ c. c.fingerprint)
          (find_common_contacts
            (new_service (λ b. b) store)
            (get_contact_hashes (new_discovery (λ b. b) theirs)))
        ≡ "bob" ∷ [])
unfolding retain any new_contact list
run_contact_discovery_psi-get_contact_hashes_example =
    run_contact_discovery_psi-get_contact_hashes (λ b. b) (λ a b same. same) store theirs
