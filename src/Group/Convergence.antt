-- ===== src/Group/Convergence.antt =====
-- crates/messenger/src/group.rs: the members of a group agree on the epoch and the root secret.
use shadowgram.Base.{
  ℕ, ◌+◌, ◌<◌, ◌≡◌, sym, String, true, List, [], ◌∷◌, Bytes, bytes_Eq, Result, ok, u64_mod, arith,
  bytes_eq, bytes_eq_iff, All,
}
use shadowgram.Group.{GroupError, GroupMember, Commit, Crypto}
use shadowgram.Group.State.{
  GroupState, signature_input, build_commit, enter_epoch, next_epoch, add_member, remove_member,
  update_keys, process_commit,
}

-- Two members see the same epoch and hold the same root secret.
pub record InSync (s t : GroupState) : Type 0 where
  pub epoch : s.info.epoch ≡ t.info.epoch
  pub root : s.root_secret ≡ t.root_secret

pub data Change : Type 0 where
  adds : GroupMember → Change
  removes : ℕ → String → Change
  updates : Bytes → Change

module _ (crypto : Crypto) where
  unfoldable pub change : GroupState → Change → GroupState × Result Commit GroupError
  change s (adds m) = add_member crypto s m
  change s (removes now fingerprint) = remove_member crypto now s fingerprint
  change s (updates key) = update_keys crypto s key

  -- What is common to the three changes: the commit is built from a state with the old epoch and
  -- root, and the next epoch is entered from there.
  record Advances (s : GroupState) (c : Commit) (s' : GroupState) : Type 0 where
    epoch : c.epoch ≡ next_epoch s
    signature : c.signature ≡ crypto.blake3 (signature_input s.root_secret c.epoch c.commit_type)
    epoch' : s'.info.epoch ≡ next_epoch s
    root' : s'.root_secret ≡ (enter_epoch crypto (next_epoch s) s).root_secret

  change-Advances :
      (s : GroupState) (x : Change) (c : Commit)
      → (change s x).1 ≡ ok c
      → Advances s c (change s x).0
  unfolding change add_member remove_member update_keys build_commit enter_epoch
  change-Advances s (adds m) c h = record {
    epoch = ground arith;
    signature = ground arith;
    epoch' = ground arith;
    root' = ground arith;
  }
  change-Advances s (removes now fp) c h = record {
    epoch = ground arith;
    signature = ground arith;
    epoch' = ground arith;
    root' = ground arith;
  }
  change-Advances s (updates key) c h = record {
    epoch = ground arith;
    signature = ground arith;
    epoch' = ground arith;
    root' = ground arith;
  }

  process_commit-Advances :
      (s t s' : GroupState) (c : Commit)
      → Advances s c s'
      → InSync s t
      → s.info.epoch + 1 < u64_mod
      → ((process_commit crypto t c).1 ≡ ok tt) × InSync s' (process_commit crypto t c).0
  unfolding process_commit enter_epoch
  process_commit-Advances s t s' c a sync room =
      let e : next_epoch t ≡ c.epoch = rw (← sync.epoch) (sym a.epoch) in
      let signed : c.signature
          ≡ crypto.blake3 (signature_input t.root_secret c.epoch c.commit_type) =
        rw (← sync.root) a.signature in
      let known : bytes_eq c.signature
            (crypto.blake3 (signature_input t.root_secret c.epoch c.commit_type))
          ≡ true =
        (bytes_eq_iff _ _).1 signed in
      (ground arith, record { epoch = ground arith; root = ground arith })

  -- A commit that one member makes is accepted by every member in sync with it, and leaves all
  -- of them in sync with the committer, at the new epoch and the new root secret.
  pub process_commit-change :
      (s : GroupState) (x : Change) (c : Commit) (ts : List GroupState)
      → (change s x).1 ≡ ok c
      → s.info.epoch + 1 < u64_mod
      → All (InSync s) ts
      → All
          (λ t.
            ((process_commit crypto t c).1 ≡ ok tt)
            × InSync (change s x).0 (process_commit crypto t c).0)
          ts
  process_commit-change s x c [] made room syncs = tt
  process_commit-change s x c (t ∷ ts) made room syncs = (
    process_commit-Advances s t (change s x).0 c (change-Advances s x c made) syncs.0 room,
    process_commit-change s x c ts made room syncs.1,
  )

  pub change-signature :
      (s : GroupState) (x : Change) (c : Commit)
      → (change s x).1 ≡ ok c
      → c.signature ≡ crypto.blake3 (signature_input s.root_secret c.epoch c.commit_type)
  change-signature s x c made = (change-Advances s x c made).signature

  pub change-epoch :
      (s : GroupState) (x : Change) (c : Commit)
      → (change s x).1 ≡ ok c
      → s.info.epoch + 1 < u64_mod
      → (change s x).0.info.epoch ≡ s.info.epoch + 1
  change-epoch s x c made room = omega (arith, (change-Advances s x c made).epoch')
