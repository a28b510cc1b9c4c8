-- ===== src/ClientGroups/Commits.antt =====
-- crates/messenger/src/client.rs: a member that one client adds, and the commit at another one.
use shadowgram.Base.{
  ℕ, ◌+◌, ◌<◌, ◌≡◌, refl, String, some, none, List, [], ◌∷◌, Bytes, u64_mod, lookup, insert,
  string_Eq, ok, inl, inr, Option-cases, Result-cases, arith, lookup-insert, beq_self,
}
use shadowgram.Contacts.{get}
use shadowgram.Group.{GroupMember, MemberRole, Commit}
use shadowgram.Group.Chat.{GroupChat}
use shadowgram.Group.State.{add_member, process_commit}
use shadowgram.Group.Convergence.{InSync, change-epoch, process_commit-change, adds, change}
use shadowgram.ClientGroups.{GroupServices, GroupClient, GroupCommitEnvelope}
use shadowgram.ClientGroups.Members.{add_member_to_group, commit_member, process_group_commit}

abbrev pub ReadsCommits : {Db : Type 0} → GroupServices Db → Type 0
ReadsCommits services =
    (e : GroupCommitEnvelope) (json : Bytes)
    → services.commit_to_json e ≡ some json
    → services.commit_from_json json ≡ some e

pub lookup-insert_same {ℓ} :
    {A : Type ℓ} (k : String) (v : A) (m : List (String × A)) → lookup k (insert k v m) ≡ some v
lookup-insert_same k v m = rw (lookup-insert k k, beq_self k) refl

module _ (Db : Type 0) (services : GroupServices Db) where
  open services use {crypto}

  -- What an added member leaves: the commit in the bytes, and the group that made it.
  record IsAdded (c' : GroupClient Db) (group_id : String) (group : GroupChat) (bytes : Bytes)
      : Type 0 where
    member : GroupMember
    commit : Commit
    made : (add_member crypto group.state member).1 ≡ ok commit
    written : services.commit_to_json (record { group_id = group_id; commit = commit }) ≡ some bytes
    kept :
        lookup group_id c'.groups
        ≡ some (record group { state = (add_member crypto group.state member).0 })

  add_member_to_group-IsAdded :
      (now : ℕ) (c : GroupClient Db) (group_id fingerprint : String) (group : GroupChat)
      (bytes : Bytes)
      → lookup group_id c.groups ≡ some group
      → (add_member_to_group Db services now c group_id fingerprint).1 ≡ ok bytes
      → IsAdded (add_member_to_group Db services now c group_id fingerprint).0 group_id group bytes
  unfolding add_member_to_group commit_member
  add_member_to_group-IsAdded now c group_id fingerprint group bytes here h =
      elim (Option-cases (get c.contacts fingerprint)) [
        | inl bad ↦ absurd (ground arith)
        | inr (contact, known) ↦
            let member : GroupMember = record {
              fingerprint = fingerprint;
              display_name = some contact.alias;
              role = MemberRole.member;
              key_package = contact.public_identity;
              joined_at = now;
              left_at = none;
            } in
            let added = add_member crypto group.state member in
            let stored = lookup-insert_same group_id (record group { state = added.0 }) c.groups in
            elim (Result-cases added.1) [
              | inr (_, bad) ↦ absurd (ground arith)
              | inl (commit, made) ↦
                  elim (Option-cases
                    (services.commit_to_json (record { group_id = group_id; commit = commit }))) [
                      | inl bad ↦ absurd (ground arith)
                      | inr (json, written) ↦ record {
                        member = member;
                        commit = commit;
                        made = made;
                        written = ground arith;
                        kept = ground (arith, stored);
                      }
                    ]
            ]
      ]

  process_group_commit_lem :
      (c : GroupClient Db) (bytes : Bytes) (e : GroupCommitEnvelope) (group : GroupChat)
      → services.commit_from_json bytes ≡ some e
      → lookup e.group_id c.groups ≡ some group
      → (process_commit crypto group.state e.commit).1 ≡ ok tt
      → ((process_group_commit Db services c bytes).1 ≡ ok tt)
        × (lookup e.group_id (process_group_commit Db services c bytes).0.groups
            ≡ some (record group { state = (process_commit crypto group.state e.commit).0 }))
  unfolding process_group_commit
  process_group_commit_lem c bytes e group read here done =
      let state = (process_commit crypto group.state e.commit).0 in
      let stored = lookup-insert_same e.group_id (record group { state = state }) c.groups in
      (ground arith, ground (arith, stored))

  -- A client adds a member to a group, and another client whose chat of the group is in sync
  -- with it processes the commit: it is accepted, and the two chats are in sync again.
  pub process_group_commit-add_member_to_group :
      (now : ℕ) (a b : GroupClient Db) (group_id fingerprint : String) (ga gb : GroupChat)
      (bytes : Bytes)
      → ReadsCommits services
      → lookup group_id a.groups ≡ some ga
      → lookup group_id b.groups ≡ some gb
      → InSync ga.state gb.state
      → ga.state.info.epoch + 1 < u64_mod
      → (add_member_to_group Db services now a group_id fingerprint).1 ≡ ok bytes
      → (ga' gb' : GroupChat) × ((process_group_commit Db services b bytes).1 ≡ ok tt)
        × (lookup group_id (add_member_to_group Db services now a group_id fingerprint).0.groups
            ≡ some ga')
        × (lookup group_id (process_group_commit Db services b bytes).0.groups ≡ some gb')
        × InSync ga'.state gb'.state
        × (ga'.state.info.epoch ≡ ga.state.info.epoch + 1)
  unfolding change
  process_group_commit-add_member_to_group now a b group_id fingerprint ga gb bytes reads here there
        sync room h =
      let s = add_member_to_group-IsAdded now a group_id fingerprint ga bytes here h in
      let agreed =
        process_commit-change crypto ga.state (adds s.member) s.commit (gb.state ∷ []) s.made room
          (sync, tt) in
      let epoch = change-epoch crypto ga.state (adds s.member) s.commit s.made room in
      let processed =
        process_group_commit_lem b bytes (record { group_id = group_id; commit = s.commit }) gb
          (reads _ bytes s.written) there agreed.0.0 in
      (_, _, processed.0, s.kept, processed.1, agreed.0.1, epoch)
