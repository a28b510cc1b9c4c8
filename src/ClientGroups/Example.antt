-- ===== src/ClientGroups/Example.antt =====
-- crates/messenger/src/client.rs: bincode and JSON for the tests: frames of the messages of Alice
-- to the group, and one byte for the one message and the one commit.
use shadowgram.Base.{
  ◌≡◌, refl, inl, inr, String, Bool, true, false, ◌&&◌, Option, none, some, List, [], ◌∷◌, ◌++◌,
  Bytes, arith, length, take, drop, string_Eq, bytes_eq, bytes_eq_iff, ◌==◌, ◌===◌, if◌then◌else◌,
  Bool-cases, take-append, drop-append,
}
use text.Mathlib.TextEquality.{eq_iff}
use shadowgram.Group.{GroupEncryptedMessage, CommitType, member_added, PathUpdate}
use shadowgram.Group.Example.{crypto, joined}
use shadowgram.Session.Example.{hello, is_hello, is_hello_lem, read_byte}
use shadowgram.ClientGroups.{GroupServices, GroupCommitEnvelope}
use shadowgram.Session.{Message}
use shadowgram.ClientGroups.Commits.{ReadsCommits}
use shadowgram.ClientGroups.Delivery.{ReadsGroups}

unfoldable pub is_alice : GroupEncryptedMessage → Bool
is_alice m = m.group_id === "group-1" && m.sender === "alice"

unfoldable pub write_frame : GroupEncryptedMessage → Option Bytes
write_frame m =
    if is_alice m
    then some (m.epoch ∷ m.sequence ∷ length m.nonce ∷ m.nonce ++ m.ciphertext)
    else none

unfoldable pub read_frame : Bytes → Option GroupEncryptedMessage
read_frame (epoch ∷ sequence ∷ n ∷ rest) = some (record {
  group_id = "group-1";
  epoch = epoch;
  sequence = sequence;
  sender = "alice";
  nonce = take n rest;
  ciphertext = drop n rest;
})
read_frame (epoch ∷ sequence ∷ []) = none
read_frame (epoch ∷ []) = none
read_frame [] = none

frame_read :
    (m : GroupEncryptedMessage) (bytes : Bytes)
    → write_frame m ≡ some bytes
    → read_frame bytes ≡ some m
unfolding write_frame read_frame is_alice
frame_read m bytes h = ground (
  arith,
  eq_iff m.group_id "group-1",
  eq_iff m.sender "alice",
  take-append m.nonce m.ciphertext (length m.nonce) refl,
  drop-append m.nonce m.ciphertext (length m.nonce) refl,
)

abbrev pub joined_envelope : GroupCommitEnvelope
joined_envelope = record { group_id = "group-1"; commit = joined }

abbrev is_addition : CommitType → Bool
is_addition CommitType.member_added = true
is_addition CommitType.member_removed = false
is_addition CommitType.key_update = false
is_addition CommitType.config_change = false

is_addition_lem : (t : CommitType) → is_addition t ≡ true → t ≡ member_added
is_addition_lem CommitType.member_added h = refl
is_addition_lem CommitType.member_removed h = absurd cc
is_addition_lem CommitType.key_update h = absurd cc
is_addition_lem CommitType.config_change h = absurd cc

abbrev is_update : List PathUpdate → Bool
is_update [] = false
is_update (u ∷ []) =
    u.node_index == 2 && bytes_eq u.encrypted_secret [] && bytes_eq u.new_public_key (4 ∷ 5 ∷ [])
is_update (u ∷ v ∷ us) = false

is_update_lem : (us : List PathUpdate) → is_update us ≡ true → us ≡ joined.path_updates
is_update_lem [] h = absurd cc
is_update_lem (u ∷ []) h =
    ground (arith, bytes_eq_iff u.encrypted_secret [], bytes_eq_iff u.new_public_key (4 ∷ 5 ∷ []))
is_update_lem (u ∷ v ∷ us) h = absurd cc

unfoldable pub is_joined : GroupCommitEnvelope → Bool
is_joined e =
    e.group_id === "group-1"
    && e.commit.epoch == 1
    && is_update e.commit.path_updates
    && bytes_eq e.commit.signature joined.signature
    && is_addition e.commit.commit_type

is_joined_lem : (e : GroupCommitEnvelope) → is_joined e ≡ true → e ≡ joined_envelope
unfolding is_joined
is_joined_lem e h = ground (
  arith,
  eq_iff e.group_id "group-1",
  is_update_lem e.commit.path_updates,
  bytes_eq_iff e.commit.signature joined.signature,
  is_addition_lem e.commit.commit_type,
)

abbrev pub services : GroupServices (List String)
services = record {
  crypto = crypto;
  message_to_json = λ m. if is_hello m then some (1 ∷ []) else none;
  message_from_json = read_byte hello;
  to_bytes = write_frame;
  from_bytes = read_frame;
  commit_to_json = λ e. if is_joined e then some (1 ∷ []) else none;
  commit_from_json = read_byte joined_envelope;
  ensure_conversation = λ db id kind peer own. id ∷ db;
}

message_read :
    (m : Message) (json : Bytes)
    → services.message_to_json m ≡ some json
    → services.message_from_json json ≡ some m
message_read m json h = elim (Bool-cases (is_hello m)) [
  | inr other ↦ absurd (ground arith)
  | inl same ↦ ground (arith, is_hello_lem m same)
]

pub commits_read : ReadsCommits services
commits_read e json h = elim (Bool-cases (is_joined e)) [
  | inr other ↦ absurd (ground arith)
  | inl same ↦ ground (arith, is_joined_lem e same)
]

pub services-ReadsGroups : ReadsGroups services
services-ReadsGroups = record { message = message_read; frame = frame_read }
