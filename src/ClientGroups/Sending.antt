-- ===== src/ClientGroups/Sending.antt =====
-- crates/messenger/src/client.rs: what a message of a group that was sent is made of.
use shadowgram.Base.{
  ℕ, ◌≡◌, refl, String, some, [], ◌∷◌, ◌++◌, Bytes, lookup, get_or, insert, string_Eq, ok, inl, inr,
  Option-cases, Result-cases, arith, lookup-insert, beq_self, get_or-lookup,
}
use mathlib.Core.List.{map-append}
use shadowgram.Group.{GroupEncryptedMessage}
use shadowgram.Group.Chat.{GroupChat, encrypt_message}
use shadowgram.Session.{Message}
use shadowgram.Session.Messages.{as_sent}
use shadowgram.Envelope.{NetworkEnvelope, pad_to_constant_size}
use shadowgram.Envelope
use shadowgram.ClientGroups.{GroupServices, GroupClient, StoredGroupMessage}
use shadowgram.ClientGroups.Messages.{
  send_group_message, seal_group_message, get_group_messages, keep_message,
}

module _ (Db : Type 0) (services : GroupServices Db) where
  open services use {crypto, message_to_json, to_bytes}

  -- What is kept comes last, and the messages of the other groups stay.
  pub get_group_messages-keep_message :
      (c : GroupClient Db) (group_id : String) (stored : StoredGroupMessage)
      → get_group_messages Db services (keep_message Db services c group_id stored) group_id
        ≡ get_group_messages Db services c group_id ++ stored.plaintext_message ∷ []
  unfolding get_group_messages keep_message
  get_group_messages-keep_message c group_id stored =
      let old = get_or group_id [] c.group_messages in
      rw
        (
          get_or-lookup group_id [] (insert group_id (old ++ stored ∷ []) c.group_messages),
          lookup-insert group_id group_id (old ++ stored ∷ []) c.group_messages,
          beq_self group_id,
          map-append (λ s. s.plaintext_message) old (stored ∷ []),
        )
        refl

  -- What a message of a group that was sent is made of.
  pub record IsSent (fill : ℕ → Bytes) (nonce : Bytes) (now : ℕ) (c : GroupClient Db)
      (group_id sender : String) (group : GroupChat) (message : Message) (env : NetworkEnvelope)
      : Type 0 where
    pub plaintext : Bytes
    pub sealed_message : GroupEncryptedMessage
    pub written : message_to_json message ≡ some plaintext
    pub sealed : (encrypt_message crypto nonce group plaintext sender).1 ≡ ok sealed_message
    pub framed : to_bytes sealed_message ≡ some env.payload
    pub kind : env.msg_type ≡ Envelope.MessageType.message
    pub kept :
        get_group_messages Db services
          (send_group_message Db services fill nonce now c group_id message).0
          group_id
        ≡ get_group_messages Db services c group_id ++ as_sent message ∷ []

  payload-pad :
      (fill : ℕ → Bytes) (env : NetworkEnvelope) (size : ℕ)
      → ((pad_to_constant_size fill env size).payload ≡ env.payload)
        × ((pad_to_constant_size fill env size).msg_type ≡ env.msg_type)
  unfolding pad_to_constant_size
  payload-pad fill env size = (ground arith, ground arith)

  pub send_group_message-IsSent :
      (fill : ℕ → Bytes) (nonce : Bytes) (now : ℕ) (c : GroupClient Db) (group_id sender : String)
      (group : GroupChat) (message : Message) (env : NetworkEnvelope)
      → c.fingerprint ≡ some sender
      → lookup group_id c.groups ≡ some group
      → (send_group_message Db services fill nonce now c group_id message).1 ≡ ok env
      → IsSent fill nonce now c group_id sender group message env
  unfolding send_group_message seal_group_message Envelope.new get_group_messages
  send_group_message-IsSent fill nonce now c group_id sender group message env known here h =
      elim (Option-cases (message_to_json message)) [
        | inl bad ↦ absurd (ground arith)
        | inr (plaintext, written) ↦
            let made = encrypt_message crypto nonce group plaintext sender in
            elim (Result-cases made.1) [
              | inr (_, bad) ↦ absurd (ground arith)
              | inl (enc, sealed) ↦ elim (Option-cases (to_bytes enc)) [
                | inl bad ↦ absurd (ground arith)
                | inr (bytes, framed) ↦
                    let stored : StoredGroupMessage = record {
                      id = message.id;
                      sender_fingerprint = sender;
                      plaintext_message = as_sent message;
                      encrypted_msg_bytes = bytes;
                      sent_at = now;
                    } in
                    let c' : GroupClient Db = record c {
                      groups = insert group_id made.0 c.groups;
                    } in
                    let last = get_group_messages-keep_message c' group_id stored in
                    let state : (send_group_message Db services fill nonce now c group_id message).0
                        ≡ keep_message Db services c' group_id stored =
                      ground arith in
                    let padded =
                      payload-pad fill (Envelope.new now Envelope.MessageType.message bytes) 1024 in
                    record {
                      plaintext = plaintext;
                      sealed_message = enc;
                      written = written;
                      sealed = sealed;
                      framed = ground (arith, padded.0);
                      kind = ground (arith, padded.1);
                      kept = rw state last;
                    }
              ]
            ]
      ]
