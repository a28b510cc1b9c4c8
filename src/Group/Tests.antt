-- ===== src/Group/Tests.antt =====
-- crates/messenger/src/group.rs: a group of two, and the theorems at its states.
use shadowgram.Base.{
  ℕ, zero, suc, ◌+◌, ◌<◌, ◌≡◌, ◌⊎◌, refl, ap, true, false, List, [], ◌∷◌, Bytes, ok, err, arith,
  length, any, find, retain, update_first, lookup, insert, remove, bytes_eq, to_le_bytes, is_ok,
  All, u64_mod, string_Eq,
}
use shadowgram.Group.{
  GroupEncryptedMessage, Commit, GroupError, replay_detected, decryption_error, type_byte,
  member_removed,
}
use shadowgram.Group.Tree.{add_leaf, remove_leaf, rebalance, rebalance_from, update_node, new}
use shadowgram.Group.State.{
  GroupState, is_active, is_named, is_admin, active_member_count, signature_input, build_commit,
  rotate_root_secret, enter_epoch, next_epoch, add_member, remove_member, update_keys,
  process_commit, apply_updates, derive_message_key,
}
use shadowgram.Group.State
use shadowgram.Group.Chat.{
  GroupChat, create, aad, encrypt_message, open_message, decrypt_message, contains_id,
}
use shadowgram.Group.Convergence.{Change, adds, removes, change, InSync, process_commit-change}
use shadowgram.Group.Commits.{process_commit_cases}
use shadowgram.Group.Members.{leads, change_keeps_creator}
use shadowgram.Group.Replay.{receive, decrypt_message_again, replay_after_forged}
use shadowgram.Group.Example.{crypto, opens, chat, bob, joined}
use shadowgram.Group.Transport.{decrypt_message-encrypt_message}

program : Unit {0}
unfolding add_leaf remove_leaf rebalance rebalance_from update_node new State.create is_admin
    active_member_count signature_input build_commit rotate_root_secret enter_epoch add_member
    remove_member update_keys process_commit apply_updates derive_message_key create aad
    encrypt_message open_message decrypt_message change receive any find retain update_first lookup
    insert remove bytes_eq to_le_bytes type_byte
program = tt

abbrev add_bob : Change
add_bob = adds bob

-- Bob joined, left, and joined again.
rejoined : GroupState
unfolding add_member enter_epoch remove_member chat
rejoined =
    (add_member crypto (remove_member crypto 2000 (add_member crypto chat.state bob).0 "bob").0
      bob).0

bob_stays : is_ok (remove_member crypto 3000 rejoined "bob").1 ≡ true
unfolding program rejoined chat
bob_stays = refl

joined_made : (change crypto chat.state add_bob).1 ≡ ok joined
unfolding program chat
joined_made = refl

epoch_0 : chat.state.info.epoch ≡ 0
unfolding program chat
epoch_0 = refl

room_0 : chat.state.info.epoch + 1 < u64_mod
room_0 = omega (arith, epoch_0)

process_commit-change_example :
    All
      (λ t.
        ((process_commit crypto t joined).1 ≡ ok tt)
        × InSync (change crypto chat.state add_bob).0 (process_commit crypto t joined).0)
      (chat.state ∷ [])
process_commit-change_example =
    process_commit-change crypto chat.state add_bob joined (chat.state ∷ []) joined_made room_0
      (record { epoch = refl; root = refl }, tt)

process_commit_cases_example :
    (((process_commit crypto chat.state joined).1 ≡ ok tt)
      × (joined.epoch ≡ next_epoch chat.state)
      × (joined.signature
          ≡ crypto.blake3 (signature_input chat.state.root_secret joined.epoch joined.commit_type))
      × ((process_commit crypto chat.state joined).0.info.epoch ≡ joined.epoch)
      × ((process_commit crypto chat.state joined).0.outgoing_sequence ≡ 0)
      × ((process_commit crypto chat.state joined).0.members ≡ chat.state.members))
    ⊎ ((e : GroupError) × (process_commit crypto chat.state joined ≡ (chat.state, err e)))
process_commit_cases_example = process_commit_cases crypto chat.state joined

abbrev other_root : GroupState → GroupState
other_root s = record s { root_secret = 6 ∷ 6 ∷ [] }

abbrev with_bob : GroupState
with_bob = (add_member crypto chat.state bob).0

abbrev removed : Commit
removed = record {
  epoch = 2;
  path_updates = record { node_index = 3; encrypted_secret = []; new_public_key = [] } ∷ [];
  signature = signature_input with_bob.root_secret 2 member_removed;
  commit_type = member_removed;
}

change_keeps_creator_example :
    (leads "alice" (change crypto chat.state (removes 7 "alice")).0.members ≡ true)
    × (is_admin (change crypto chat.state (removes 7 "alice")).0 "alice" ≡ true)
unfolding program chat
change_keeps_creator_example =
    change_keeps_creator crypto chat.state (removes 7 "alice") "alice" refl

abbrev message : ℕ → Bytes → GroupEncryptedMessage
message n sealed = record {
  group_id = "group-1";
  epoch = 0;
  sequence = n;
  sender = "alice";
  nonce = 9 ∷ [];
  ciphertext = sealed;
}

decrypt_message_again_example :
    decrypt_message crypto
      (receive crypto (decrypt_message crypto chat (message 0 (1 ∷ 7 ∷ []))).0 (message 1 [] ∷ []))
      (message 0 (1 ∷ 8 ∷ []))
    ≡ (
      receive crypto (decrypt_message crypto chat (message 0 (1 ∷ 7 ∷ []))).0 (message 1 [] ∷ []),
      err (replay_detected 0 0),
    )
unfolding program chat
decrypt_message_again_example =
    decrypt_message_again crypto chat (message 0 (1 ∷ 7 ∷ [])) (message 0 (1 ∷ 8 ∷ [])) (7 ∷ [])
      (message 1 [] ∷ []) refl (omega arith) refl refl

decrypt_message-encrypt_message_example :
    ((decrypt_message crypto chat (message 0 (1 ∷ 7 ∷ []))).1 ≡ ok (7 ∷ []))
    × (contains_id 0 0 (decrypt_message crypto chat (message 0 (1 ∷ 7 ∷ []))).0.received_ids ≡ true)
    × ((encrypt_message crypto (9 ∷ []) chat (7 ∷ []) "alice").0.state.outgoing_sequence ≡ 0 + 1)
unfolding program chat
decrypt_message-encrypt_message_example =
    decrypt_message-encrypt_message crypto opens chat chat (9 ∷ []) (7 ∷ []) "alice"
      (message 0 (1 ∷ 7 ∷ [])) refl (record { epoch = refl; root = refl }) refl (omega arith)

-- A window of n ids, none of which is (0, 1).
abbrev filler : ℕ → List (ℕ × ℕ)
filler zero = (0, 0) ∷ []
filler (suc n) = (7, n) ∷ filler n

length-filler : (n : ℕ) → length (filler n) ≡ suc n
length-filler zero = refl
length-filler (suc n) = ap suc (length-filler n)

fresh-filler : (n : ℕ) → contains_id 0 1 (filler n) ≡ false
unfolding any
fresh-filler zero = refl
fresh-filler (suc n) = fresh-filler n

known-filler : (n : ℕ) → contains_id 0 0 (filler n) ≡ true
unfolding any
known-filler zero = refl
known-filler (suc n) = known-filler n

full : ℕ → GroupChat
full n = record chat { received_ids = filler n }

replay_after_forged_example :
    ((decrypt_message crypto (full 4096) (message 0 (1 ∷ 7 ∷ []))).1 ≡ err (replay_detected 0 0))
    × ((decrypt_message crypto
          (decrypt_message crypto (full 4096) (message 1 [])).0
          (message 0 (1 ∷ 7 ∷ []))).1
        ≡ ok (7 ∷ []))
unfolding full chat create State.create open_message derive_message_key
replay_after_forged_example =
    replay_after_forged crypto (full 4096) (message 1 []) (message 0 (1 ∷ 7 ∷ []))
      (decryption_error "AEAD authentication failed") (7 ∷ []) (omega (arith, length-filler 4096))
      refl (fresh-filler 4096) refl refl (known-filler 4096) refl
