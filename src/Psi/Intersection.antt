-- ===== src/Psi/Intersection.antt =====
-- crates/messenger/src/psi.rs: the contacts that two lists of hashes have in common are those that
-- the lists of fingerprints have in common.
use shadowgram.Base.{
  as_bytes_injective, sym, ◌∙◌, ◌≡◌, refl, ap, String, Bool, List, [], ◌∷◌, Bytes, as_bytes, length,
  any, retain, map, ◌===◌, bytes_Eq, bytes_eq_iff, string_Eq, arith,
}
use text.Mathlib.TextEquality.{eq_iff}
use shadowgram.Contacts.{Contact, MemoryContactStore, list}
use shadowgram.Contacts.Discovery.{
  find_common_contacts, new_service, hash_fingerprint, run_contact_discovery_psi,
}
use shadowgram.Psi.{
  ContactDiscoveryPsi, ContactFingerprint, matches, discover_from, discover_common,
  get_contact_hashes, new_fingerprint, new_discovery,
}

-- No two texts have the same hash.
abbrev pub HasNoCollisions : (Bytes → Bytes) → Type 0
HasNoCollisions blake3 = (a b : Bytes) → blake3 a ≡ blake3 b → a ≡ b

-- Whether a fingerprint is in a list.
abbrev pub is_among : List String → String → Bool
is_among names name = any (λ other. name === other) names

matches-any :
    (hash : Bytes) (others : List Bytes) → matches hash others ≡ any (λ h. h === hash) others
unfolding matches any
matches-any hash [] = refl
matches-any hash (h ∷ hs) =
    ground (arith, matches-any hash hs, bytes_eq_iff hash h, bytes_eq_iff h hash)

-- An empty list of hashes, which has an answer of its own, finds nothing as the loop does.
discover_from_nothing : (cs : List ContactFingerprint) → discover_from cs [] ≡ []
unfolding discover_from matches
discover_from_nothing [] = refl
discover_from_nothing (c ∷ cs) = discover_from_nothing cs

matched_fingerprints_lem :
    (self : ContactDiscoveryPsi) (remote : List Bytes)
    → (discover_common self remote).matched_fingerprints ≡ discover_from self.local_contacts remote
unfolding discover_common
matched_fingerprints_lem self [] = sym (discover_from_nothing self.local_contacts)
matched_fingerprints_lem self (h ∷ hs) = refl

total_matched_lem :
    (self : ContactDiscoveryPsi) (remote : List Bytes)
    → ((discover_common self remote).total_matched
        ≡ length (discover_common self remote).matched_fingerprints)
      × ((discover_common self remote).total_local_contacts ≡ length self.local_contacts)
unfolding discover_common
total_matched_lem self [] = (refl, refl)
total_matched_lem self (h ∷ hs) = (refl, refl)

module _ (blake3 : Bytes → Bytes) where
  common_names :
      (store : MemoryContactStore) (hashes : List Bytes) (cs : List Contact)
      → map
          (λ c. c.fingerprint)
          (retain
            (λ c.
              any
                (λ h. h === hash_fingerprint (new_service blake3 store) (as_bytes c.fingerprint))
                hashes)
            cs)
        ≡ discover_from (map (new_fingerprint blake3) (map (λ c. c.fingerprint) cs)) hashes
  unfolding retain discover_from new_fingerprint hash_fingerprint new_service
  common_names store hashes [] = refl
  common_names store hashes (c ∷ cs) =
      ground
        (arith, matches-any (blake3 (as_bytes c.fingerprint)) hashes, common_names store hashes cs)

  -- The two searches find the same contacts of a store.
  find_common_contacts-run_contact_discovery_psi :
      (store : MemoryContactStore) (hashes : List Bytes)
      → map (λ c. c.fingerprint) (find_common_contacts (new_service blake3 store) hashes)
        ≡ (run_contact_discovery_psi blake3 store hashes).matched_fingerprints
  unfolding find_common_contacts run_contact_discovery_psi new_discovery new_service
  find_common_contacts-run_contact_discovery_psi store hashes =
      common_names store hashes (list store) ∙ sym (matched_fingerprints_lem _ hashes)

module _ (blake3 : Bytes → Bytes) (distinct : HasNoCollisions blake3) where
  matches-hashes :
      (name : String) (theirs : List String)
      → matches (blake3 (as_bytes name)) (map (λ c. c.hash) (map (new_fingerprint blake3) theirs))
        ≡ is_among theirs name
  unfolding matches any new_fingerprint
  matches-hashes name [] = refl
  matches-hashes name (t ∷ ts) = ground (
    arith,
    matches-hashes name ts,
    eq_iff name t,
    bytes_eq_iff (blake3 (as_bytes name)) (blake3 (as_bytes t)),
    λ (same : blake3 (as_bytes name) ≡ blake3 (as_bytes t)).
        as_bytes_injective name t (distinct (as_bytes name) (as_bytes t) same),
    λ (same : name ≡ t). ap (λ s. blake3 (as_bytes s)) same,
  )

  discover_from-hashes :
      (mine theirs : List String)
      → discover_from
          (map (new_fingerprint blake3) mine)
          (map (λ c. c.hash) (map (new_fingerprint blake3) theirs))
        ≡ retain (is_among theirs) mine
  unfolding discover_from retain new_fingerprint
  discover_from-hashes [] theirs = refl
  discover_from-hashes (m ∷ ms) theirs =
      ground (arith, matches-hashes m theirs, discover_from-hashes ms theirs)

  length-map_fingerprint :
      (mine : List String) → length (map (new_fingerprint blake3) mine) ≡ length mine
  unfolding new_fingerprint
  length-map_fingerprint [] = refl
  length-map_fingerprint (m ∷ ms) = omega (arith, length-map_fingerprint ms)

  discover_common-get_contact_hashes :
      (mine theirs : List String)
      → ((discover_common
            (new_discovery blake3 mine)
            (get_contact_hashes (new_discovery blake3 theirs))).matched_fingerprints
          ≡ retain (is_among theirs) mine)
        × ((discover_common
              (new_discovery blake3 mine)
              (get_contact_hashes (new_discovery blake3 theirs))).total_matched
            ≡ length (retain (is_among theirs) mine))
        × ((discover_common
              (new_discovery blake3 mine)
              (get_contact_hashes (new_discovery blake3 theirs))).total_local_contacts
            ≡ length mine)
  unfolding new_discovery get_contact_hashes
  discover_common-get_contact_hashes mine theirs =
      let self = new_discovery blake3 mine in
      let remote = get_contact_hashes (new_discovery blake3 theirs) in
      let found = matched_fingerprints_lem self remote ∙ discover_from-hashes mine theirs in
      let totals = total_matched_lem self remote in
      (found, totals.0 ∙ ap length found, totals.1 ∙ length-map_fingerprint mine)

  -- With the hashes of a list of fingerprints the discovery of the client finds exactly those
  -- fingerprints of its contacts that are in the list, and counts them, and the discovery service,
  -- which searches in another way, finds the same contacts.
  pub run_contact_discovery_psi-get_contact_hashes :
      (store : MemoryContactStore) (theirs : List String)
      → ((run_contact_discovery_psi blake3 store
            (get_contact_hashes (new_discovery blake3 theirs))).matched_fingerprints
          ≡ retain (is_among theirs) (map (λ c. c.fingerprint) (list store)))
        × ((run_contact_discovery_psi blake3 store
              (get_contact_hashes (new_discovery blake3 theirs))).total_matched
            ≡ length (retain (is_among theirs) (map (λ c. c.fingerprint) (list store))))
        × ((run_contact_discovery_psi blake3 store
              (get_contact_hashes (new_discovery blake3 theirs))).total_local_contacts
            ≡ length (map (λ (c : Contact). c.fingerprint) (list store)))
        × (map
              (λ c. c.fingerprint)
              (find_common_contacts
                (new_service blake3 store)
                (get_contact_hashes (new_discovery blake3 theirs)))
            ≡ retain (is_among theirs) (map (λ c. c.fingerprint) (list store)))
  unfolding run_contact_discovery_psi
  run_contact_discovery_psi-get_contact_hashes store theirs =
      let found =
        discover_common-get_contact_hashes (map (λ c. c.fingerprint) (list store)) theirs in
      let hashes = get_contact_hashes (new_discovery blake3 theirs) in
      (
        found.0,
        found.1,
        found.2,
        find_common_contacts-run_contact_discovery_psi blake3 store hashes ∙ found.0,
      )
