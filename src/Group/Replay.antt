-- ===== src/Group/Replay.antt =====
-- crates/messenger/src/group.rs: the replay check of `decrypt_message`, and its limits.
use shadowgram.Base.{
  ℕ, ◌+◌, ◌≤◌, ◌<◌, ◌≡◌, refl, sym, ap, ◌∙◌, true, false, List, [], ◌∷◌, Bytes, ok, err, arith,
  length, any,
}
use shadowgram.Group.{GroupEncryptedMessage, Crypto, GroupError, replay_detected}
use shadowgram.Group.State.{GroupState}
use shadowgram.Group.Chat.{GroupChat, decrypt_message, open_message, contains_id, replay_window}

module _ (crypto : Crypto) where
  unfoldable pub receive : GroupChat → List GroupEncryptedMessage → GroupChat
  receive c [] = c
  receive c (m ∷ ms) = receive (decrypt_message crypto c m).0 ms

  -- One message: the state of the group is left alone, the ids grow by one at most, and none is
  -- forgotten while the window has room.
  decrypt_message_keeps :
      (c : GroupChat) (m : GroupEncryptedMessage) (epoch sequence : ℕ)
      → length c.received_ids < replay_window
      → contains_id epoch sequence c.received_ids ≡ true
      → (contains_id epoch sequence (decrypt_message crypto c m).0.received_ids ≡ true)
        × ((decrypt_message crypto c m).0.state ≡ c.state)
        × (length (decrypt_message crypto c m).0.received_ids ≤ length c.received_ids + 1)
  unfolding decrypt_message any
  decrypt_message_keeps c m epoch sequence room known = ground arith

  receive_keeps :
      (c : GroupChat) (ms : List GroupEncryptedMessage) (epoch sequence : ℕ)
      → length c.received_ids + length ms ≤ replay_window
      → contains_id epoch sequence c.received_ids ≡ true
      → (contains_id epoch sequence (receive c ms).received_ids ≡ true)
        × ((receive c ms).state ≡ c.state)
  unfolding receive
  receive_keeps c [] epoch sequence room known = (known, refl)
  receive_keeps c (m ∷ ms) epoch sequence room known =
      let (kept, same, grown) = decrypt_message_keeps c m epoch sequence (omega arith) known in
      let (kept', same') =
        receive_keeps (decrypt_message crypto c m).0 ms epoch sequence (omega arith) kept in
      (kept', same' ∙ same)

  decrypt_message_records :
      (c : GroupChat) (m : GroupEncryptedMessage) (text : Bytes)
      → (decrypt_message crypto c m).1 ≡ ok text
      → (contains_id m.epoch m.sequence (decrypt_message crypto c m).0.received_ids ≡ true)
        × (m.epoch ≡ c.state.info.epoch)
        × ((decrypt_message crypto c m).0.state ≡ c.state)
        × (length (decrypt_message crypto c m).0.received_ids ≤ replay_window)
  unfolding decrypt_message any
  decrypt_message_records c m text h = ground arith

  decrypt_message_known :
      (c : GroupChat) (m : GroupEncryptedMessage)
      → contains_id m.epoch m.sequence c.received_ids ≡ true
      → m.epoch ≡ c.state.info.epoch
      → decrypt_message crypto c m ≡ (c, err (replay_detected m.epoch m.sequence))
  unfolding decrypt_message
  decrypt_message_known c m known e = ground arith

  -- After a message is decrypted, a message of the same epoch and sequence, from whatever sender,
  -- is refused as a replay with no change, for as many further messages as the window has room for.
  pub decrypt_message_again :
      (c : GroupChat) (m m' : GroupEncryptedMessage) (text : Bytes)
      (ms : List GroupEncryptedMessage)
      → (decrypt_message crypto c m).1 ≡ ok text
      → length (decrypt_message crypto c m).0.received_ids + length ms ≤ replay_window
      → m'.epoch ≡ m.epoch
      → m'.sequence ≡ m.sequence
      → decrypt_message crypto (receive (decrypt_message crypto c m).0 ms) m'
        ≡ (receive (decrypt_message crypto c m).0 ms, err (replay_detected m'.epoch m'.sequence))
  decrypt_message_again c m m' text ms opened room e s =
      let first = (decrypt_message crypto c m).0 in
      let (known, epoch, same, _) = decrypt_message_records c m text opened in
      let (kept, same') = receive_keeps first ms m.epoch m.sequence room known in
      decrypt_message_known (receive first ms) m' (rw (e, s) kept)
        (e ∙ epoch ∙ ap (λ (t : GroupState). t.info.epoch) (sym (same' ∙ same)))

  decrypt_message_window :
      (c : GroupChat) (m : GroupEncryptedMessage)
      → length c.received_ids ≤ replay_window
      → length (decrypt_message crypto c m).0.received_ids ≤ replay_window
  unfolding decrypt_message
  decrypt_message_window c m h = ground arith

  -- The window never holds more than 4096 ids.
  pub received_ids-le :
      (c : GroupChat) (ms : List GroupEncryptedMessage)
      → length c.received_ids ≤ replay_window
      → length (receive c ms).received_ids ≤ replay_window
  unfolding receive
  received_ids-le c [] h = h
  received_ids-le c (m ∷ ms) h =
      received_ids-le (decrypt_message crypto c m).0 ms (decrypt_message_window c m h)

  -- A message that fails to authenticate empties a full window all the same: a message that was
  -- refused as a replay before it is decrypted once more after it.
  pub replay_after_forged :
      (c : GroupChat) (forged m : GroupEncryptedMessage) (e : GroupError) (text : Bytes)
      → replay_window ≤ length c.received_ids
      → forged.epoch ≡ c.state.info.epoch
      → contains_id forged.epoch forged.sequence c.received_ids ≡ false
      → open_message crypto c.state forged ≡ err e
      → m.epoch ≡ c.state.info.epoch
      → contains_id m.epoch m.sequence c.received_ids ≡ true
      → open_message crypto c.state m ≡ ok text
      → ((decrypt_message crypto c m).1 ≡ err (replay_detected m.epoch m.sequence))
        × ((decrypt_message crypto (decrypt_message crypto c forged).0 m).1 ≡ ok text)
  unfolding decrypt_message any
  replay_after_forged c forged m e text full epoch fresh fails epoch' known opens =
      (ground arith, ground arith)
