-- ===== src/Group/Commits.antt =====
-- crates/messenger/src/group.rs: which commits a member accepts, and what a refusal leaves.
use shadowgram.Base.{
  ◌≡◌, ◌≢◌, ◌⊎◌, refl, sym, ap, ◌∙◌, ltb, ◌==◌, List, [], ◌∷◌, ◌++◌, Bytes, bytes_Eq, ok, err,
  arith, Bool-cases, inl, inr, bytes_eq, bytes_eq_iff, length, take, take-append, to_le_bytes,
}
use shadowgram.Group.{
  GroupError, Commit, Crypto, PathUpdate, tree_update_error, invalid_commit_signature, type_byte,
}
use shadowgram.Group.State.{GroupState, signature_input, enter_epoch, next_epoch, process_commit}
use shadowgram.Group.Convergence.{Change, change, change-signature}

module _ (crypto : Crypto) where
  -- A commit is accepted only if it is for the next epoch and signed under the member's root
  -- secret; the member is then at that epoch. A commit that is refused changes nothing.
  pub process_commit_cases :
      (s : GroupState) (c : Commit)
      → (((process_commit crypto s c).1 ≡ ok tt)
          × (c.epoch ≡ next_epoch s)
          × (c.signature ≡ crypto.blake3 (signature_input s.root_secret c.epoch c.commit_type))
          × ((process_commit crypto s c).0.info.epoch ≡ c.epoch)
          × ((process_commit crypto s c).0.outgoing_sequence ≡ 0)
          × ((process_commit crypto s c).0.members ≡ s.members))
        ⊎ ((e : GroupError) × (process_commit crypto s c ≡ (s, err e)))
  unfolding process_commit enter_epoch
  process_commit_cases s c = elim (Bool-cases (ltb c.epoch s.info.epoch)) [
    | inl stale ↦ inr (
      tree_update_error "stale commit: commit epoch {} < current {}" (c.epoch ∷ s.info.epoch ∷ []),
      ground arith,
    )
    | inr fresh ↦ elim (Bool-cases (c.epoch == next_epoch s)) [
      | inr gap ↦ inr (
        tree_update_error "non-sequential commit: expected epoch {}, got {}"
            (next_epoch s ∷ c.epoch ∷ []),
        ground arith,
      )
      | inl next ↦
          let expected = crypto.blake3 (signature_input s.root_secret c.epoch c.commit_type) in
          elim (Bool-cases (bytes_eq c.signature expected)) [
            | inr forged ↦ inr (invalid_commit_signature, ground arith)
            | inl signed ↦
                let e = (bytes_eq_iff c.signature expected).0 signed in
                inl (ground arith, ground arith, e, ground arith, ground arith, ground arith)
          ]
    ]
  ]

  -- The path updates are not signed: whatever they are replaced by, the answer is the same.
  pub process_commit_any_updates :
      (s : GroupState) (c : Commit) (us : List PathUpdate)
      → (process_commit crypto s (record c { path_updates = us })).1 ≡ (process_commit crypto s c).1
  unfolding process_commit
  process_commit_any_updates s c us = ground arith

  -- Under a hash without collisions, a commit of a member with another root secret is refused.
  pub process_commit_forged :
      ((a b : Bytes) → crypto.blake3 a ≡ crypto.blake3 b → a ≡ b)
      → (s t : GroupState) (x : Change) (c : Commit) → (change crypto s x).1 ≡ ok c
      → length s.root_secret ≡ length t.root_secret
      → s.root_secret ≢ t.root_secret
      → (process_commit crypto t c).1 ≢ ok tt
  unfolding signature_input
  process_commit_forged injective s t x c made sizes differ accepted =
      elim (process_commit_cases t c) [
        | inr (e, refused) ↦ cc (ap (λ r. r.1) refused)
        | inl (_, _, signed, _, _, _) ↦
            let one = injective _ _ (sym (change-signature crypto s x c made) ∙ signed) in
            let rest = to_le_bytes 8 c.epoch ++ type_byte c.commit_type ∷ [] in
            differ (
              sym (take-append s.root_secret rest (length s.root_secret) refl)
              ∙ ap (take (length s.root_secret)) one
              ∙ take-append t.root_secret rest (length s.root_secret) sizes)
      ]
