-- ===== src/ClientGroups/Messages.antt =====
-- crates/messenger/src/client.rs: sending and receiving the messages of groups.
use shadowgram.Base.{
  ℕ, String, not, none, some, List, [], ◌∷◌, ◌++◌, Bytes, if◌then◌else◌, insert, lookup, get_or,
  string_Eq, Result, ok, err, map,
}
use shadowgram.Envelope.{NetworkEnvelope, pad_to_constant_size}
use shadowgram.Envelope
use shadowgram.Group.{GroupEncryptedMessage}
use shadowgram.Group.Chat.{GroupChat, encrypt_message, decrypt_message}
use shadowgram.Session.{
  Message, ClientError, identity_error, crypto_error, group_not_found, message_error,
  serialization_error,
}
use shadowgram.Session.Messages.{as_sent, as_delivered}
use shadowgram.ClientGroups.{
  StoredGroupMessage, GroupServices, GroupClient, group_error_text, has_member,
}

module _ (Db : Type 0) (services : GroupServices Db) where
  open services use {
    crypto, message_to_json, message_from_json, to_bytes, from_bytes, commit_to_json,
    commit_from_json, ensure_conversation,
  }

  -- `entry(group_id).or_default().push(…)`
  unfoldable pub keep_message : GroupClient Db → String → StoredGroupMessage → GroupClient Db
  keep_message c group_id stored = record c {
    group_messages =
        insert group_id (get_or group_id [] c.group_messages ++ stored ∷ []) c.group_messages;
  }

  -- The steps behind the checks of `send_group_message`.
  unfoldable pub seal_group_message :
      (ℕ → Bytes)
      → Bytes
      → ℕ
      → GroupClient Db
      → String
      → GroupChat
      → String
      → Message
      → GroupClient Db × Result NetworkEnvelope ClientError
  seal_group_message fill nonce now c group_id group sender message =
      elim (message_to_json message) [
        | none ↦ (c, err (serialization_error "serde_json"))
        | some plaintext ↦
            let (group', sealed) = encrypt_message crypto nonce group plaintext sender in
            let c' = record c { groups = insert group_id group' c.groups } in
            elim sealed [
              | err e ↦ (c', err (crypto_error (group_error_text e)))
              | ok enc_msg ↦ elim (to_bytes enc_msg) [
                | none ↦ (c', err (serialization_error "Serialization error: {0}"))
                | some enc_bytes ↦ (
                  keep_message c' group_id (record {
                    id = message.id;
                    sender_fingerprint = sender;
                    plaintext_message = as_sent message;
                    encrypted_msg_bytes = enc_bytes;
                    sent_at = now;
                  }),
                  ok (
                      pad_to_constant_size fill
                        (Envelope.new now Envelope.MessageType.message enc_bytes) 1024),
                )
              ]
            ]
      ]

  unfoldable pub send_group_message :
      (ℕ → Bytes)
      → Bytes
      → ℕ
      → GroupClient Db
      → String
      → Message
      → GroupClient Db × Result NetworkEnvelope ClientError
  send_group_message fill nonce now c group_id message = elim c.fingerprint [
    | none ↦ (c, err (identity_error "Identity not loaded"))
    | some sender ↦ elim (lookup group_id c.groups) [
      | none ↦ (c, err (group_not_found group_id))
      | some group ↦
          if not (has_member sender group)
          then (c, err (message_error "Current identity is not an active group member" []))
          else seal_group_message fill nonce now c group_id group sender message
    ]
  ]

  unfoldable pub get_group_messages : GroupClient Db → String → List Message
  get_group_messages c group_id =
      map (λ s. s.plaintext_message) (get_or group_id [] c.group_messages)

  -- The steps behind the lookup of the group in `receive_group_message`.
  unfoldable pub open_group_message :
      ℕ
      → GroupClient Db
      → Bytes
      → GroupEncryptedMessage
      → GroupChat
      → GroupClient Db × Result Message ClientError
  open_group_message now c enc_bytes enc_msg group =
      let (group', opened) = decrypt_message crypto group enc_msg in
      let c' = record c { groups = insert enc_msg.group_id group' c.groups } in
      elim opened [
        | err e ↦ (c', err (crypto_error (group_error_text e)))
        | ok plaintext ↦ elim (message_from_json plaintext) [
          | none ↦ (c', err (serialization_error "serde_json"))
          | some message ↦ (
            keep_message c' enc_msg.group_id (record {
              id = message.id;
              sender_fingerprint = enc_msg.sender;
              plaintext_message = as_delivered message;
              encrypted_msg_bytes = enc_bytes;
              sent_at = now;
            }),
            ok (as_delivered message),
          )
        ]
      ]

  unfoldable pub receive_group_message :
      ℕ → GroupClient Db → Bytes → GroupClient Db × Result Message ClientError
  receive_group_message now c enc_bytes = elim (from_bytes enc_bytes) [
    | none ↦ (c, err (serialization_error "Serialization error: {0}"))
    | some enc_msg ↦ elim (lookup enc_msg.group_id c.groups) [
      | none ↦ (c, err (group_not_found enc_msg.group_id))
      | some group ↦ open_group_message now c enc_bytes enc_msg group
    ]
  ]
