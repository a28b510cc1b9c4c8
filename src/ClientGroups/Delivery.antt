-- ===== src/ClientGroups/Delivery.antt =====
-- crates/messenger/src/client.rs: a message of a group from one client to another.
use shadowgram.Base.{
  ◌∙◌, u64_mod, ◌<◌, ◌+◌, false, ℕ, ◌≡◌, String, some, [], ◌∷◌, ◌++◌, Bytes, lookup, insert,
  string_Eq, ok, arith,
}
use mathlib.Core.Path.{subst}
use shadowgram.Group.{GroupEncryptedMessage}
use shadowgram.Group.Chat.{contains_id, decrypt_message, GroupChat}
use shadowgram.Session.{Message}
use shadowgram.Session.Messages.{as_delivered, as_sent}
use shadowgram.Envelope.{NetworkEnvelope}
use shadowgram.ClientGroups.Sending.{send_group_message-IsSent, get_group_messages-keep_message}
use shadowgram.ClientGroups.{GroupServices, GroupClient, StoredGroupMessage}
use shadowgram.ClientGroups.Messages.{
  open_group_message, receive_group_message, send_group_message, get_group_messages, keep_message,
}
use shadowgram.Group.Transport.{group_id-encrypt_message, decrypt_message-encrypt_message, Opens}
use shadowgram.Group.Convergence.{InSync}

-- Messages and their frames are read back as they were written.
pub record ReadsGroups {Db : Type 0} (services : GroupServices Db) : Type 0 where
  pub message :
      (m : Message) (json : Bytes)
      → services.message_to_json m ≡ some json
      → services.message_from_json json ≡ some m
  pub frame :
      (m : GroupEncryptedMessage) (bytes : Bytes)
      → services.to_bytes m ≡ some bytes
      → services.from_bytes bytes ≡ some m

module _ (Db : Type 0) (services : GroupServices Db) where
  open services use {crypto, message_to_json, to_bytes}

  receive_group_message_lem :
      (now : ℕ) (c : GroupClient Db) (bytes plaintext : Bytes) (enc : GroupEncryptedMessage)
      (group : GroupChat) (message : Message)
      → services.from_bytes bytes ≡ some enc
      → lookup enc.group_id c.groups ≡ some group
      → (decrypt_message crypto group enc).1 ≡ ok plaintext
      → services.message_from_json plaintext ≡ some message
      → ((receive_group_message Db services now c bytes).1 ≡ ok (as_delivered message))
        × (get_group_messages Db services
              (receive_group_message Db services now c bytes).0
              enc.group_id
            ≡ get_group_messages Db services c enc.group_id ++ as_delivered message ∷ [])
  unfolding receive_group_message open_group_message get_group_messages
  receive_group_message_lem now c bytes plaintext enc group message read here opened parsed =
      let stored : StoredGroupMessage = record {
        id = message.id;
        sender_fingerprint = enc.sender;
        plaintext_message = as_delivered message;
        encrypted_msg_bytes = bytes;
        sent_at = now;
      } in
      let c' : GroupClient Db = record c {
        groups = insert enc.group_id (decrypt_message crypto group enc).0 c.groups;
      } in
      let last = get_group_messages-keep_message Db services c' enc.group_id stored in
      let state : (receive_group_message Db services now c bytes).0
          ≡ keep_message Db services c' enc.group_id stored =
        ground arith in
      (ground arith, rw state last)

  -- A message that one client sends to a group, another client whose chat of the group is in
  -- sync with the sender's and has not received the sequence before receives: it gets the
  -- message as an incoming one, and each of the two keeps it last among those of the group.
  pub receive_group_message-send_group_message :
      (fill : ℕ → Bytes) (nonce : Bytes) (now now' : ℕ) (a b : GroupClient Db)
      (group_id sender : String) (ga gb : GroupChat) (message : Message) (env : NetworkEnvelope)
      → Opens crypto
      → ReadsGroups services
      → a.fingerprint ≡ some sender
      → lookup group_id a.groups ≡ some ga
      → lookup group_id b.groups ≡ some gb
      → ga.state.info.id ≡ group_id
      → InSync ga.state gb.state
      → contains_id ga.state.info.epoch ga.state.outgoing_sequence gb.received_ids ≡ false
      → ga.state.outgoing_sequence + 1 < u64_mod
      → (send_group_message Db services fill nonce now a group_id message).1 ≡ ok env
      → ((receive_group_message Db services now' b env.payload).1 ≡ ok (as_delivered message))
        × (get_group_messages Db services
              (send_group_message Db services fill nonce now a group_id message).0
              group_id
            ≡ get_group_messages Db services a group_id ++ as_sent message ∷ [])
        × (get_group_messages Db services
              (receive_group_message Db services now' b env.payload).0
              group_id
            ≡ get_group_messages Db services b group_id ++ as_delivered message ∷ [])
  receive_group_message-send_group_message fill nonce now now' a b group_id sender ga gb message env
        opens reads known here there named sync fresh room h =
      let s =
        send_group_message-IsSent Db services fill nonce now a group_id sender ga message env known
          here h in
      let enc = s.sealed_message in
      let opened =
        decrypt_message-encrypt_message crypto opens ga gb nonce s.plaintext sender enc s.sealed
          sync fresh room in
      let id : enc.group_id ≡ group_id =
        group_id-encrypt_message crypto ga nonce s.plaintext sender enc s.sealed ∙ named in
      let found : lookup enc.group_id b.groups ≡ some gb = rw id there in
      let received =
        receive_group_message_lem now' b env.payload s.plaintext enc gb message
          (reads.frame enc env.payload s.framed) found opened.0
          (reads.message message s.plaintext s.written) in
      (
        received.0,
        s.kept,
        subst
            (λ g.
              get_group_messages Db services
                (receive_group_message Db services now' b env.payload).0 g
              ≡ get_group_messages Db services b g ++ as_delivered message ∷ [])
            id received.1,
      )
