-- ===== src/ClientGroups/Members.antt =====
-- crates/messenger/src/client.rs: creating a group, adding a member, and the commits of others.
use shadowgram.Base.{
  ℕ, String, Option, none, some, [], Bytes, if◌then◌else◌, insert, lookup, string_Eq, Result, ok,
  err,
}
use shadowgram.Contacts.{Contact, get}
use shadowgram.Group.{GroupMember, MemberRole}
use shadowgram.Group.State.{is_active}
use shadowgram.Group.State
use shadowgram.Group.Chat.{GroupChat, encrypt_message, decrypt_message}
use shadowgram.Group.Chat
use shadowgram.Session.{
  ClientError, identity_error, group_not_found, contact_not_found, message_error,
  serialization_error,
}
use shadowgram.ClientGroups.{GroupServices, GroupClient, group_failure, has_member}

module _ (Db : Type 0) (services : GroupServices Db) where
  open services use {
    crypto, message_to_json, message_from_json, to_bytes, from_bytes, commit_to_json,
    commit_from_json, ensure_conversation,
  }

  -- `creator_key` is `creator.public().to_bytes()`.
  unfoldable pub create_group :
      String
      → Bytes
      → ℕ
      → GroupClient Db
      → String
      → String
      → Option Bytes
      → GroupClient Db × Result String ClientError
  create_group group_id root_secret now c name creator creator_key = elim creator_key [
    | none ↦ (c, err (identity_error "bincode"))
    | some key ↦
        let group = Chat.create root_secret now group_id creator key (some name) in
        let database : Option Db = elim c.database [
          | none ↦ none
          | some db ↦ some (ensure_conversation db group_id 2 none c.fingerprint)
        ] in
        (record c { groups = insert group_id group c.groups; database = database }, ok group_id)
  ]

  -- The steps behind the checks of `add_member_to_group`; the group has changed also where the
  -- commit is not written.
  unfoldable pub commit_member :
      ℕ
      → GroupClient Db
      → String
      → GroupChat
      → Contact
      → String
      → GroupClient Db × Result Bytes ClientError
  commit_member now c group_id group contact member_fingerprint =
      let member : GroupMember = record {
        fingerprint = member_fingerprint;
        display_name = some contact.alias;
        role = MemberRole.member;
        key_package = contact.public_identity;
        joined_at = now;
        left_at = none;
      } in
      let (state, added) = State.add_member crypto group.state member in
      let c' = record c { groups = insert group_id (record group { state = state }) c.groups } in
      elim added [
        | err e ↦ (c', err (group_failure e))
        | ok commit ↦ elim (commit_to_json (record { group_id = group_id; commit = commit })) [
          | none ↦ (c', err (serialization_error "serde_json"))
          | some json ↦ (c', ok json)
        ]
      ]

  unfoldable pub add_member_to_group :
      ℕ → GroupClient Db → String → String → GroupClient Db × Result Bytes ClientError
  add_member_to_group now c group_id member_fingerprint = elim (get c.contacts member_fingerprint) [
    | none ↦ (c, err (contact_not_found member_fingerprint))
    | some contact ↦ elim (lookup group_id c.groups) [
      | none ↦ (c, err (group_not_found group_id))
      | some group ↦
          if has_member member_fingerprint group
          then (c, err (message_error "Member already exists in group" []))
          else commit_member now c group_id group contact member_fingerprint
    ]
  ]

  unfoldable pub process_group_commit :
      GroupClient Db → Bytes → GroupClient Db × Result (Unit {0}) ClientError
  process_group_commit c commit = elim (commit_from_json commit) [
    | none ↦ (c, err (serialization_error "serde_json"))
    | some envelope ↦ elim (lookup envelope.group_id c.groups) [
      | none ↦ (c, err (group_not_found envelope.group_id))
      | some group ↦
          let (state, processed) = State.process_commit crypto group.state envelope.commit in
          let c' = record c {
            groups = insert envelope.group_id (record group { state = state }) c.groups;
          } in
          elim processed [ err e ↦ (c', err (group_failure e)) | ok done ↦ (c', ok tt) ]
    ]
  ]
