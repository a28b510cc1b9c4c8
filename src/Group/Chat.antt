-- ===== src/Group/Chat.antt =====
-- crates/messenger/src/group.rs: `GroupChat`, which encrypts, decrypts and detects replays.
use shadowgram.Base.{
  ℕ, ◌+◌, ◌%◌, String, Bool, not, ◌&&◌, Option, none, List, [], ◌∷◌, ◌++◌, length, any, leb, ◌==◌,
  if◌then◌else◌, Bytes, Result, ok, err, ok_or, ◌>>=◌, u64_mod, to_le_bytes, as_bytes,
}
use shadowgram.Group.{
  GroupError, decryption_error, replay_detected, wrong_epoch, GroupInfo, GroupEncryptedMessage,
  Crypto,
}
use shadowgram.Group.State.{GroupState, derive_message_key}
use shadowgram.Group.State

-- `pending_messages` is never used. The ids received stand for the hash set of pairs.
pub record GroupChat : Type 0 where
  pub state : GroupState
  pub pending_messages : List Bytes
  pub received_ids : List (ℕ × ℕ)

unfoldable pub create : Bytes → ℕ → String → String → Bytes → Option String → GroupChat
create root_secret now group_id creator_fingerprint creator_key_package group_name = record {
  state = State.create root_secret now info creator_fingerprint creator_key_package;
  pending_messages = [];
  received_ids = [];
}
  where
    info : GroupInfo
    info = record {
      id = group_id;
      name = group_name;
      description = none;
      avatar = none;
      creator = creator_fingerprint;
      created_at = now;
      epoch = 0;
    }

-- `GroupEncryptedMessage::aad`
unfoldable pub aad : String → ℕ → ℕ → Bytes
aad group_id epoch sequence = as_bytes group_id ++ (to_le_bytes 8 epoch ++ to_le_bytes 8 sequence)

abbrev pub is_id : ℕ → ℕ → ℕ × ℕ → Bool
is_id epoch sequence id = id.0 == epoch && id.1 == sequence

-- `self.received_ids.contains(&key)`
abbrev pub contains_id : ℕ → ℕ → List (ℕ × ℕ) → Bool
contains_id epoch sequence ids = any (is_id epoch sequence) ids

abbrev pub replay_window : ℕ
replay_window = 4096

module _ (crypto : Crypto) where
  open crypto use {encrypt, decrypt}

  -- Of the random nonce. The sequence is counted also where the encryption fails.
  unfoldable pub encrypt_message :
      Bytes → GroupChat → Bytes → String → GroupChat × Result GroupEncryptedMessage GroupError
  encrypt_message nonce c plaintext sender_fingerprint =
      let epoch = c.state.info.epoch in
      let sequence = c.state.outgoing_sequence in
      let state = record (c.state) { outgoing_sequence = (sequence + 1) % u64_mod } in
      (
        record c { state = state },
        do
          key ← derive_message_key crypto state sequence
          ciphertext ←
              ok_or (encrypt key nonce (aad state.info.id epoch sequence) plaintext)
                (decryption_error "AEAD encryption failed")
          ok (record {
            group_id = state.info.id;
            epoch = epoch;
            sequence = sequence;
            sender = sender_fingerprint;
            nonce = nonce;
            ciphertext = ciphertext;
          }),
      )

  -- The steps behind the checks: the text of a message, or why there is none.
  unfoldable pub open_message : GroupState → GroupEncryptedMessage → Result Bytes GroupError
  open_message s msg = do
    key ← derive_message_key crypto s msg.sequence
    ok_or (decrypt key msg.nonce (aad msg.group_id msg.epoch msg.sequence) msg.ciphertext)
        (decryption_error "AEAD authentication failed")

  unfoldable pub decrypt_message :
      GroupChat → GroupEncryptedMessage → GroupChat × Result Bytes GroupError
  decrypt_message c msg =
      if not (msg.epoch == c.state.info.epoch)
      then (c, err (wrong_epoch c.state.info.epoch msg.epoch))
      else if contains_id msg.epoch msg.sequence c.received_ids
      then (c, err (replay_detected msg.epoch msg.sequence))
      else let window = if leb replay_window (length c.received_ids) then [] else c.received_ids in
        elim (open_message c.state msg) [
          | err e ↦ (record c { received_ids = window }, err e)
          | ok plaintext ↦
              (record c { received_ids = (msg.epoch, msg.sequence) ∷ window }, ok plaintext)
        ]
