-- ===== src/Group/Transport.antt =====
-- crates/messenger/src/group.rs: a message from one member's chat to another's.
use shadowgram.Base.{
  ℕ, ◌+◌, ◌≡◌, ◌<◌, String, true, false, some, Bytes, ok, arith, any, to_le_bytes, as_bytes, ◌++◌,
  u64_mod, Option-cases, inl, inr,
}
use shadowgram.Group.{GroupEncryptedMessage, Crypto}
use shadowgram.Group.State.{GroupState, derive_message_key}
use shadowgram.Group.Chat.{
  GroupChat, encrypt_message, decrypt_message, open_message, contains_id, aad,
}
use shadowgram.Group.Convergence.{InSync}

-- The AEAD opens what it sealed, under the same key, nonce and associated data.
abbrev pub Opens : Crypto → Type 0
Opens crypto =
    (key nonce ad text sealed : Bytes)
    → crypto.encrypt key nonce ad text ≡ some sealed
    → crypto.decrypt key nonce ad sealed ≡ some text

-- What a sealed message is made of.
record IsSealed (crypto : Crypto) (a : GroupChat) (nonce text : Bytes) (msg : GroupEncryptedMessage)
    : Type 0 where
  key : Bytes
  derived : derive_message_key crypto a.state msg.sequence ≡ ok key
  sealed :
      crypto.encrypt key msg.nonce (aad msg.group_id msg.epoch msg.sequence) text
      ≡ some msg.ciphertext
  epoch : msg.epoch ≡ a.state.info.epoch
  sequence : msg.sequence ≡ a.state.outgoing_sequence
  group_id : msg.group_id ≡ a.state.info.id

encrypt_message-IsSealed :
    (crypto : Crypto) (a : GroupChat) (nonce text : Bytes) (sender : String)
    (msg : GroupEncryptedMessage)
    → (encrypt_message crypto nonce a text sender).1 ≡ ok msg
    → IsSealed crypto a nonce text msg
unfolding encrypt_message derive_message_key
encrypt_message-IsSealed crypto a nonce text sender msg h =
    let n = a.state.outgoing_sequence in
    let info = as_bytes "shadowgram-group-msg" ++ to_le_bytes 8 n in
    let derive = crypto.hkdf (to_le_bytes 8 a.state.info.epoch) a.state.root_secret info in
    elim (Option-cases derive) [
      | inl e ↦ absurd (ground arith)
      | inr (key, e) ↦
          elim (Option-cases
            (crypto.encrypt key nonce (aad a.state.info.id a.state.info.epoch n) text)) [
              | inl e' ↦ absurd (ground arith)
              | inr (c, e') ↦ record {
                key = key;
                derived = ground arith;
                sealed = ground arith;
                epoch = ground arith;
                sequence = ground arith;
                group_id = ground arith;
              }
            ]
    ]

pub group_id-encrypt_message :
    (crypto : Crypto) (a : GroupChat) (nonce text : Bytes) (sender : String)
    (msg : GroupEncryptedMessage)
    → (encrypt_message crypto nonce a text sender).1 ≡ ok msg
    → msg.group_id ≡ a.state.info.id
group_id-encrypt_message crypto a nonce text sender msg h =
    (encrypt_message-IsSealed crypto a nonce text sender msg h).group_id

derive_message_key-InSync :
    (crypto : Crypto) (s t : GroupState) (n : ℕ)
    → InSync s t
    → derive_message_key crypto s n ≡ derive_message_key crypto t n
unfolding derive_message_key
derive_message_key-InSync crypto s t n sync = rw (sync.epoch, sync.root)

module _ (crypto : Crypto) (opens : Opens crypto) where
  -- What a member encrypts, a member in sync with it that has not received the sequence before
  -- decrypts to the same text, and records; the sender's next sequence is another one.
  pub decrypt_message-encrypt_message :
      (a b : GroupChat) (nonce text : Bytes) (sender : String) (msg : GroupEncryptedMessage)
      → (encrypt_message crypto nonce a text sender).1 ≡ ok msg
      → InSync a.state b.state
      → contains_id a.state.info.epoch a.state.outgoing_sequence b.received_ids ≡ false
      → a.state.outgoing_sequence + 1 < u64_mod
      → ((decrypt_message crypto b msg).1 ≡ ok text)
        × (contains_id msg.epoch msg.sequence (decrypt_message crypto b msg).0.received_ids ≡ true)
        × ((encrypt_message crypto nonce a text sender).0.state.outgoing_sequence
            ≡ msg.sequence + 1)
  unfolding encrypt_message decrypt_message open_message any
  decrypt_message-encrypt_message a b nonce text sender msg sealed sync fresh room =
      let s = encrypt_message-IsSealed crypto a nonce text sender msg sealed in
      let derived = derive_message_key-InSync crypto a.state b.state msg.sequence sync in
      let opened =
        opens s.key msg.nonce (aad msg.group_id msg.epoch msg.sequence) text msg.ciphertext
          s.sealed in
      let read : open_message crypto b.state msg ≡ ok text = rw (← derived, s.derived, opened) in
      let new : contains_id msg.epoch msg.sequence b.received_ids ≡ false =
        rw (s.epoch, s.sequence) fresh in
      (ground arith, ground arith, omega (arith, s.sequence))
