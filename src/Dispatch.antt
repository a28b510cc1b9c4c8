-- ===== src/Dispatch.antt =====
-- crates/messenger/src/client.rs: what a client does with an envelope of the network, by its type.
mod Tests
use shadowgram.Base.{
  string_Eq, lookup, inr, inl, Option-cases, ℕ, ◌≡◌, String, none, some, [], Bytes, Result, ok, err,
  arith,
}
use shadowgram.Envelope.{MessageType, NetworkEnvelope}
use shadowgram.Session.{ClientError, message_error, serialization_error, Services}
use shadowgram.Session.Messages.{handle_incoming_message}
use shadowgram.Handshake.{Exchange, HandshakeClient, handle_key_exchange}
use shadowgram.Group.{GroupEncryptedMessage}
use shadowgram.ClientGroups.{GroupServices, GroupClient}
use shadowgram.ClientGroups.Messages.{send_group_message}
use shadowgram.ClientGroups.Sending.{send_group_message-IsSent}
use shadowgram.Session.{Message}

module _ (Db : Type 0) (x : Exchange) (services : Services Db) where
  unfoldable pub handle_ratchet_update :
      HandshakeClient Db → NetworkEnvelope → HandshakeClient Db × Result (Unit {0}) ClientError
  handle_ratchet_update c envelope =
      (c, err (message_error "Ratchet updates are not implemented in the core client yet" []))

  unfoldable pub handle_control_message :
      HandshakeClient Db → NetworkEnvelope → HandshakeClient Db × Result (Unit {0}) ClientError
  handle_control_message c envelope =
      (c, err (message_error "Control messages are not implemented in the core client yet" []))

  -- Of the randomness and the time of a handshake.
  unfoldable pub process_network_message :
      (ℕ → Bytes)
      → ℕ
      → Bytes
      → Bytes
      → Bytes
      → HandshakeClient Db
      → NetworkEnvelope
      → HandshakeClient Db × Result (Unit {0}) ClientError
  process_network_message fill now secret seed m c envelope = elim envelope.msg_type [
    | MessageType.handshake ↦ handle_key_exchange Db x fill now secret seed m c envelope
    | MessageType.message ↦
        let (client, handled) = handle_incoming_message Db services c.client envelope in
        (record c { client = client }, handled)
    | MessageType.ratchet ↦ handle_ratchet_update c envelope
    | MessageType.control ↦ handle_control_message c envelope
    | MessageType.cover ↦ (c, ok tt)
  ]

  -- An envelope with a message to a group, which send_group_message makes with the type of a
  -- direct message, is refused by every client and changes nothing, if the bytes of a group's
  -- message are no JSON of a direct one.
  pub process_network_message-send_group_message :
      (groups : GroupServices Db)
      → ((m : GroupEncryptedMessage) (bytes : Bytes)
          → groups.to_bytes m ≡ some bytes
          → services.payload_from_json bytes ≡ none)
      → (fill : ℕ → Bytes) (nonce : Bytes) (t now : ℕ) (secret seed m : Bytes) (a : GroupClient Db)
        (group_id : String) (message : Message) (env : NetworkEnvelope) (b : HandshakeClient Db)
      → (send_group_message Db groups fill nonce t a group_id message).1 ≡ ok env
      → process_network_message fill now secret seed m b env
        ≡ (b, err (serialization_error "serde_json"))
  unfolding process_network_message handle_incoming_message send_group_message
  process_network_message-send_group_message groups foreign fill nonce t now secret seed m a
        group_id message env b h =
      elim (Option-cases a.fingerprint) [
        | inl unknown ↦ absurd (ground arith)
        | inr (sender, known) ↦ elim (Option-cases (lookup group_id a.groups)) [
          | inl absent ↦ absurd (ground arith)
          | inr (group, here) ↦
              let s =
                send_group_message-IsSent Db groups fill nonce t a group_id sender group message env
                  known here h in
              let bad = foreign s.sealed_message env.payload s.framed in
              let kind = s.kind in ground arith
        ]
      ]
