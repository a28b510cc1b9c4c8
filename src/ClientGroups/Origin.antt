-- ===== src/ClientGroups/Origin.antt =====
-- crates/messenger/src/client.rs: where the groups of a client come from.
use shadowgram.Base.{
  ℕ, ◌≡◌, ◌≢◌, String, some, none, List, [], ◌∷◌, Bytes, lookup, insert, string_Eq, err, inl, inr,
  Option, Option-cases, arith, lookup-insert, beq_ne, All,
}
use shadowgram.Session.{Message, group_not_found}
use shadowgram.Contacts.{get}
use shadowgram.Group.State.{add_member, process_commit}
use shadowgram.Group.{GroupMember, MemberRole, GroupEncryptedMessage}
use shadowgram.Group.Chat.{GroupChat, create, encrypt_message, decrypt_message}
use shadowgram.ClientGroups.{GroupServices, GroupClient, GroupCommitEnvelope}
use shadowgram.ClientGroups.Members.{
  create_group, add_member_to_group, commit_member, process_group_commit,
}
use shadowgram.ClientGroups.Messages.{
  send_group_message, seal_group_message, receive_group_message, open_group_message, keep_message,
}

-- The calls of a client on its groups, with the randomness and the time that each takes.
pub data GroupCall : Type 0 where
  creates : String → Bytes → ℕ → String → String → Option Bytes → GroupCall
  adds : ℕ → String → String → GroupCall
  sends : (ℕ → Bytes) → Bytes → ℕ → String → Message → GroupCall
  receives : ℕ → Bytes → GroupCall
  commits : Bytes → GroupCall

-- Whether a call does not create the group of an id.
abbrev pub DoesNotCreate : String → GroupCall → Type 0
DoesNotCreate id (creates group_id secret now name creator key) = group_id ≢ id
DoesNotCreate id (adds now group_id member) = Unit
DoesNotCreate id (sends fill nonce now group_id message) = Unit
DoesNotCreate id (receives now bytes) = Unit
DoesNotCreate id (commits bytes) = Unit

insert_other :
    (g id : String) (w : GroupChat) (m : List (String × GroupChat))
    → g ≢ id
    → lookup id m ≡ none
    → lookup id (insert g w m) ≡ none
insert_other g id w m ne h = rw (lookup-insert g id, beq_ne g id ne) h

-- Writing to a group that is there gives no other one.
insert_again :
    (g id : String) (v : GroupChat) (m : List (String × GroupChat))
    → lookup g m ≡ some v
    → lookup id m ≡ none
    → (w : GroupChat) → lookup id (insert g w m) ≡ none
insert_again g id v m here h w = insert_other g id w m (λ same. absurd (ground (arith, same))) h

module _ (Db : Type 0) (services : GroupServices Db) where
  unfoldable pub call : GroupClient Db → GroupCall → GroupClient Db
  call c (creates group_id secret now name creator key) =
      (create_group Db services group_id secret now c name creator key).0
  call c (adds now group_id member) = (add_member_to_group Db services now c group_id member).0
  call c (sends fill nonce now group_id message) =
      (send_group_message Db services fill nonce now c group_id message).0
  call c (receives now bytes) = (receive_group_message Db services now c bytes).0
  call c (commits bytes) = (process_group_commit Db services c bytes).0

  unfoldable pub run : GroupClient Db → List GroupCall → GroupClient Db
  run c [] = c
  run c (x ∷ xs) = run (call c x) xs

  -- No call but the creation of a group gives a client a group that it does not have.
  groups-call :
      (c : GroupClient Db) (id : String) (x : GroupCall)
      → DoesNotCreate id x
      → lookup id c.groups ≡ none
      → lookup id (call c x).groups ≡ none
  unfolding call create_group add_member_to_group commit_member send_group_message
      seal_group_message receive_group_message open_group_message process_group_commit keep_message
  groups-call c id (creates group_id secret now name creator key) other h =
      elim (Option-cases key) [
        | inl bad ↦ ground arith
        | inr (bytes, good) ↦
            let kept =
              insert_other group_id id (create secret now group_id creator bytes (some name))
                c.groups other h in
            ground (arith, kept)
      ]
  groups-call c id (adds now group_id fingerprint) other h =
      elim (Option-cases (lookup group_id c.groups)) [
        | inl absent ↦ ground arith
        | inr (group, here) ↦ elim (Option-cases (get c.contacts fingerprint)) [
          | inl unknown ↦ ground arith
          | inr (contact, known) ↦
              let member : GroupMember = record {
                fingerprint = fingerprint;
                display_name = some contact.alias;
                role = MemberRole.member;
                key_package = contact.public_identity;
                joined_at = now;
                left_at = none;
              } in
              let added = add_member services.crypto group.state member in
              let kept =
                insert_again group_id id group c.groups here h (record group { state = added.0 }) in
              ground (arith, kept)
        ]
      ]
  groups-call c id (sends fill nonce now group_id message) other h =
      elim (Option-cases (lookup group_id c.groups)) [
        | inl absent ↦ ground arith
        | inr (group, here) ↦ elim (Option-cases c.fingerprint) [
          | inl unknown ↦ ground arith
          | inr (sender, known) ↦ elim (Option-cases (services.message_to_json message)) [
            | inl bad ↦ ground arith
            | inr (text, written) ↦
                let kept =
                  insert_again group_id id group c.groups here h
                    (encrypt_message services.crypto nonce group text sender).0 in
                ground (arith, kept)
          ]
        ]
      ]
  groups-call c id (receives now bytes) other h = elim (Option-cases (services.from_bytes bytes)) [
    | inl bad ↦ ground arith
    | inr (enc, read) ↦ elim (Option-cases (lookup enc.group_id c.groups)) [
      | inl absent ↦ ground arith
      | inr (group, here) ↦
          let kept =
            insert_again enc.group_id id group c.groups here h
              (decrypt_message services.crypto group enc).0 in
          ground (arith, kept)
    ]
  ]
  groups-call c id (commits bytes) other h = elim (Option-cases (services.commit_from_json bytes)) [
    | inl bad ↦ ground arith
    | inr (e, read) ↦ elim (Option-cases (lookup e.group_id c.groups)) [
      | inl absent ↦ ground arith
      | inr (group, here) ↦
          let state = (process_commit services.crypto group.state e.commit).0 in
          let kept =
            insert_again e.group_id id group c.groups here h (record group { state = state }) in
          ground (arith, kept)
    ]
  ]

  groups-run :
      (c : GroupClient Db) (id : String) (xs : List GroupCall)
      → All (DoesNotCreate id) xs
      → lookup id c.groups ≡ none
      → lookup id (run c xs).groups ≡ none
  unfolding run
  groups-run c id [] others h = h
  groups-run c id (x ∷ xs) others h =
      groups-run (call c x) id xs others.1 (groups-call c id x others.0 h)

  -- A client has no group but those that it creates: after any calls of which none creates the
  -- group of an id that it did not have, every message and every commit of the group is refused
  -- with GroupNotFound and changes nothing.
  pub group_of_others_refused :
      (c : GroupClient Db) (id : String) (xs : List GroupCall)
      → lookup id c.groups ≡ none
      → All (DoesNotCreate id) xs
      → ((now : ℕ) (bytes : Bytes) (enc : GroupEncryptedMessage)
          → services.from_bytes bytes ≡ some enc
          → enc.group_id ≡ id
          → receive_group_message Db services now (run c xs) bytes
            ≡ (run c xs, err (group_not_found id)))
        × ((bytes : Bytes) (e : GroupCommitEnvelope)
            → services.commit_from_json bytes ≡ some e
            → e.group_id ≡ id
            → process_group_commit Db services (run c xs) bytes
              ≡ (run c xs, err (group_not_found id)))
  unfolding receive_group_message process_group_commit
  group_of_others_refused c id xs h others =
      let absent = groups-run c id xs others h in
      (λ now bytes enc read same. ground arith, λ bytes e read same. ground arith)
