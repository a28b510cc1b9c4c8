-- ===== src/Group/State.antt =====
-- crates/messenger/src/group.rs: `GroupState`, its membership changes and its commits.
-- A call returns the state that it leaves beside its result, also when it fails.
use shadowgram.Base.{
  ℕ, ◌+◌, ◌%◌, String, Bool, true, false, not, ◌&&◌, none, some, List, [], ◌∷◌, ◌++◌, length,
  is_empty, retain, any, find, update_first, ltb, ◌==◌, if◌then◌else◌, Bytes, ◌===◌, bytes_Eq,
  string_Eq, lookup, Result, ok, err, ok_or, u64_mod, to_le_bytes, as_bytes,
}
use shadowgram.Group.{
  GroupError, not_authorized, tree_update_error, decryption_error, member_not_found,
  invalid_commit_signature, MemberRole, GroupMember, GroupInfo, CommitType, member_added,
  member_removed, key_update, type_byte, PathUpdate, Commit, Crypto,
}
use shadowgram.Group.Tree.{RatchetTree, TreeNode, add_leaf, remove_leaf, update_node}
use shadowgram.Group.Tree

pub record GroupState : Type 0 where
  pub info : GroupInfo
  pub members : List GroupMember
  pub tree : RatchetTree
  pub root_secret : Bytes
  pub my_leaf_index : ℕ
  pub pending_commits : List Commit
  pub outgoing_sequence : ℕ

abbrev pub has_left : GroupMember → Bool
has_left m = elim m.left_at [ none ↦ false | some t ↦ true ]

-- The test `m.fingerprint == fingerprint && m.left_at.is_none()`.
abbrev pub is_active : String → GroupMember → Bool
is_active fingerprint m = m.fingerprint === fingerprint && not (has_left m)

abbrev pub is_named : String → GroupMember → Bool
is_named fingerprint m = m.fingerprint === fingerprint

abbrev pub is_creator : MemberRole → Bool
is_creator MemberRole.creator = true
is_creator MemberRole.admin = false
is_creator MemberRole.member = false

-- `matches!(role, Admin | Creator)`
abbrev pub is_admin_role : MemberRole → Bool
is_admin_role MemberRole.creator = true
is_admin_role MemberRole.admin = true
is_admin_role MemberRole.member = false

unfoldable pub active_member_count : GroupState → ℕ
active_member_count s = length (retain (λ m. not (has_left m)) s.members)

unfoldable pub is_admin : GroupState → String → Bool
is_admin s fingerprint = elim (find (is_active fingerprint) s.members) [
  | none ↦ false
  | some m ↦ is_admin_role m.role
]

-- Of the random root secret and the time.
unfoldable pub create : Bytes → ℕ → GroupInfo → String → Bytes → GroupState
create root_secret now info creator_fingerprint creator_key_package =
    let (tree, leaf_index) = add_leaf Tree.new creator_fingerprint creator_key_package in
    record {
      info = info;
      members = creator ∷ [];
      tree = tree;
      root_secret = root_secret;
      my_leaf_index = leaf_index;
      pending_commits = [];
      outgoing_sequence = 0;
    }
  where
    creator : GroupMember
    creator = record {
      fingerprint = creator_fingerprint;
      display_name = none;
      role = MemberRole.creator;
      key_package = creator_key_package;
      joined_at = now;
      left_at = none;
    }

-- The input of a commit's signature: the root secret, the epoch and the byte of the type.
unfoldable pub signature_input : Bytes → ℕ → CommitType → Bytes
signature_input root_secret epoch commit_type =
    root_secret ++ (to_le_bytes 8 epoch ++ type_byte commit_type ∷ [])

-- The loop of `process_commit` over the path updates.
unfoldable pub apply_updates : List PathUpdate → List TreeNode → List TreeNode
apply_updates [] nodes = nodes
apply_updates (u ∷ us) nodes = apply_updates us (
    update_node u.node_index
      (λ node. record node {
        public_key = if not (is_empty u.new_public_key) then some u.new_public_key else none;
      })
      nodes)

abbrev pub next_epoch : GroupState → ℕ
next_epoch s = (s.info.epoch + 1) % u64_mod

-- The closure of `update_keys`: whether the member's leaf is ours.
abbrev pub is_mine : GroupState → GroupMember → Bool
is_mine s m = elim (lookup m.fingerprint s.tree.leaf_indices) [
  | none ↦ false
  | some i ↦ i == s.my_leaf_index
]

module _ (crypto : Crypto) where
  open crypto use {blake3, hkdf}

  unfoldable pub derive_message_key : GroupState → ℕ → Result Bytes GroupError
  derive_message_key s sequence =
      ok_or
        (hkdf (to_le_bytes 8 s.info.epoch) s.root_secret
          (as_bytes "shadowgram-group-msg" ++ to_le_bytes 8 sequence))
        (decryption_error "HKDF expand failed")

  unfoldable pub build_commit : GroupState → ℕ → CommitType → Bytes → Commit
  build_commit s new_epoch commit_type new_public_key = record {
    epoch = new_epoch;
    path_updates =
        record {
          node_index = s.tree.generation;
          encrypted_secret = [];
          new_public_key = new_public_key;
        }
        ∷ [];
    signature = blake3 (signature_input s.root_secret new_epoch commit_type);
    commit_type = commit_type;
  }

  unfoldable pub rotate_root_secret : GroupState → GroupState
  rotate_root_secret s = record s {
    root_secret =
        blake3
          (as_bytes "shadowgram-epoch-rotate" ++ (s.root_secret ++ to_le_bytes 8 s.info.epoch));
  }

  -- The steps that every change of epoch makes: the epoch, the sequence, the root secret.
  unfoldable pub enter_epoch : ℕ → GroupState → GroupState
  unfolding rotate_root_secret
  enter_epoch new_epoch s =
      rotate_root_secret
        (record s { info = record (s.info) { epoch = new_epoch }; outgoing_sequence = 0 })

  unfoldable pub add_member : GroupState → GroupMember → GroupState × Result Commit GroupError
  add_member s new_member =
      if any (is_active new_member.fingerprint) s.members
      then (s, err (not_authorized "member already exists in group"))
      else let tree = (add_leaf s.tree new_member.fingerprint new_member.key_package).0 in
        let s' = record s { tree = tree; members = s.members ++ new_member ∷ [] } in
        let commit = build_commit s' (next_epoch s') member_added new_member.key_package in
        let s'' = enter_epoch (next_epoch s') s' in
        (record s'' { pending_commits = s''.pending_commits ++ commit ∷ [] }, ok commit)

  -- `now` is the time of leaving.
  unfoldable pub remove_member : ℕ → GroupState → String → GroupState × Result Commit GroupError
  remove_member now s fingerprint = elim (find (is_named fingerprint) s.members) [
    | none ↦ (s, err (member_not_found fingerprint))
    | some m ↦
        if is_creator m.role
        then (s, err (not_authorized "Cannot remove group creator"))
        else let members =
            update_first (is_named fingerprint) (λ m. record m { left_at = some now }) s.members in
          let (tree, removed) = remove_leaf s.tree fingerprint in
          let s' = record s { members = members; tree = tree } in
          let commit = build_commit s' (next_epoch s') member_removed [] in
          let s'' = enter_epoch (next_epoch s') s' in
          elim removed [
            | err e ↦ (s', err e)
            | ok done ↦
                (record s'' { pending_commits = s''.pending_commits ++ commit ∷ [] }, ok commit)
          ]
  ]

  unfoldable pub update_keys : GroupState → Bytes → GroupState × Result Commit GroupError
  update_keys s new_key_package =
      let nodes =
        update_node s.my_leaf_index (λ node. record node { public_key = some new_key_package })
          s.tree.nodes in
      let members =
        update_first (is_mine s) (λ m. record m { key_package = new_key_package }) s.members in
      let s' = record s { tree = record (s.tree) { nodes = nodes }; members = members } in
      let commit = build_commit s' (next_epoch s') key_update new_key_package in
      (enter_epoch (next_epoch s') s', ok commit)

  unfoldable pub process_commit : GroupState → Commit → GroupState × Result (Unit {0}) GroupError
  process_commit s commit =
      if ltb commit.epoch s.info.epoch
      then (
        s,
        err (
            tree_update_error "stale commit: commit epoch {} < current {}"
              (commit.epoch ∷ s.info.epoch ∷ [])),
      )
      else if not (commit.epoch == next_epoch s)
      then (
        s,
        err (
            tree_update_error "non-sequential commit: expected epoch {}, got {}"
              (next_epoch s ∷ commit.epoch ∷ [])),
      )
      else if not (
          commit.signature
          === blake3 (signature_input s.root_secret commit.epoch commit.commit_type))
      then (s, err invalid_commit_signature)
      else let tree = record (s.tree) { nodes = apply_updates commit.path_updates s.tree.nodes } in
        let s' = enter_epoch commit.epoch (record s { tree = tree }) in
        (
          record s' {
            pending_commits = retain (λ c. not (c.epoch == commit.epoch)) s'.pending_commits;
          },
          ok tt,
        )
