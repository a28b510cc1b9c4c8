-- ===== src/ClientGroups/Tests.antt =====
-- crates/messenger/src/client.rs: the theorems at two clients with a group in common.
use shadowgram.Base.{
  insert, any, to_le_bytes, ◌+◌, lookup, err, ok, ℕ, ◌≡◌, refl, String, none, some, List, [], ◌∷◌,
  ◌++◌, Bytes, arith, string_Eq, bytes_eq,
}
use shadowgram.Group.{type_byte, GroupEncryptedMessage}
use text.Mathlib.TextEquality.{eq_iff}
use shadowgram.Group.Example.{opens, chat}
use shadowgram.Session.Example.{hello, is_hello}
use shadowgram.ClientGroups.{GroupClient, GroupCommitEnvelope}
use shadowgram.Session.{group_not_found}
use shadowgram.ClientGroups.Commits.{process_group_commit-add_member_to_group}
use shadowgram.ClientGroups.Delivery.{receive_group_message-send_group_message}
use shadowgram.Contacts.{get, TrustLevel, Contact}
use shadowgram.Group.Chat.{encrypt_message, create, GroupChat}
use shadowgram.Envelope.{pad_to_constant_size, new, MessageType, NetworkEnvelope}
use shadowgram.ClientGroups.Messages.{
  seal_group_message, send_group_message, get_group_messages, receive_group_message,
}
use shadowgram.ClientGroups.Origin.{group_of_others_refused, commits, run, creates, GroupCall}
use shadowgram.ClientGroups.Members.{commit_member, add_member_to_group, process_group_commit}
use shadowgram.Session.Messages.{as_sent, as_delivered}
use shadowgram.Group.Convergence.{InSync}
use shadowgram.ClientGroups.Example.{
  services, services-ReadsGroups, commits_read, write_frame, is_alice, is_joined,
}
use shadowgram.Group.State
use shadowgram.Group.Tree
use shadowgram.Group.Tree.{rebalance_from, rebalance, add_leaf}
use shadowgram.Group.State.{
  signature_input, rotate_root_secret, enter_epoch, build_commit, add_member, derive_message_key,
}

abbrev bob_contact : Contact
bob_contact = record {
  fingerprint = "bob";
  alias = "Bob";
  public_identity = 4 ∷ 5 ∷ [];
  pairwise_id = none;
  trust_level = TrustLevel.verified;
  added_at = 1;
  last_seen = none;
  notes = none;
}

abbrev client_of : String → GroupClient (List String)
client_of name = record {
  fingerprint = some name;
  groups = ("group-1", chat) ∷ [];
  group_messages = [];
  contacts = record { contacts = ("bob", bob_contact) ∷ [] };
  database = none;
}

abbrev sent : NetworkEnvelope
sent = record {
  msg_type = MessageType.message;
  payload = 0 ∷ 0 ∷ 1 ∷ 9 ∷ 1 ∷ 1 ∷ [];
  padding = [];
  timestamp = 7;
}

running : Unit {0}
unfolding write_frame is_alice is_hello is_joined chat create State.create add_leaf rebalance
    rebalance_from Tree.new new pad_to_constant_size send_group_message seal_group_message
    encrypt_message derive_message_key add_member_to_group commit_member add_member build_commit
    enter_epoch rotate_root_secret signature_input to_le_bytes any bytes_eq lookup insert get
    type_byte
running = tt

receive_group_message-send_group_message_example :
    ((receive_group_message (List String) services 8 (client_of "bob") sent.payload).1
      ≡ ok (as_delivered hello))
    × (get_group_messages
          (List String)
          services
          (send_group_message
            (List String)
            services
            (λ n. [])
            (9 ∷ [])
            7
            (client_of "alice")
            "group-1"
            hello).0
          "group-1"
        ≡ get_group_messages (List String) services (client_of "alice") "group-1"
          ++ as_sent hello ∷ [])
    × (get_group_messages
          (List String)
          services
          (receive_group_message (List String) services 8 (client_of "bob") sent.payload).0
          "group-1"
        ≡ get_group_messages (List String) services (client_of "bob") "group-1"
          ++ as_delivered hello ∷ [])
unfolding running
receive_group_message-send_group_message_example =
    receive_group_message-send_group_message (List String) services (λ n. []) (9 ∷ []) 7 8
      (client_of "alice") (client_of "bob") "group-1" "alice" chat chat hello sent opens
      services-ReadsGroups refl refl refl refl (record { epoch = refl; root = refl }) refl
      (omega arith) refl

process_group_commit-add_member_to_group_example :
    (ga' gb' : GroupChat) × ((process_group_commit
        (List String)
        services
        (client_of "bob")
        (1 ∷ [])).1
      ≡ ok tt)
    × (lookup "group-1"
          (add_member_to_group
            (List String)
            services
            7
            (client_of "alice")
            "group-1"
            "bob").0.groups
        ≡ some ga')
    × (lookup "group-1"
          (process_group_commit (List String) services (client_of "bob") (1 ∷ [])).0.groups
        ≡ some gb')
    × InSync ga'.state gb'.state
    × (ga'.state.info.epoch ≡ chat.state.info.epoch + 1)
unfolding running
process_group_commit-add_member_to_group_example =
    process_group_commit-add_member_to_group (List String) services 7 (client_of "alice")
      (client_of "bob") "group-1" "bob" chat chat (1 ∷ []) commits_read refl refl
      (record { epoch = refl; root = refl }) (omega arith) refl

abbrev empty_client : GroupClient (List String)
empty_client = record (client_of "carol") { groups = [] }

abbrev calls : List GroupCall
calls = creates "group-2" (1 ∷ []) 3 "Own" "carol" (some (2 ∷ [])) ∷ commits (1 ∷ []) ∷ []

group_of_others_refused_example :
    ((now : ℕ) (bytes : Bytes) (enc : GroupEncryptedMessage)
      → services.from_bytes bytes ≡ some enc
      → enc.group_id ≡ "group-1"
      → receive_group_message
          (List String)
          services
          now
          (run (List String) services empty_client calls)
          bytes
        ≡ (run (List String) services empty_client calls, err (group_not_found "group-1")))
    × ((bytes : Bytes) (e : GroupCommitEnvelope)
        → services.commit_from_json bytes ≡ some e
        → e.group_id ≡ "group-1"
        → process_group_commit
            (List String)
            services
            (run (List String) services empty_client calls)
            bytes
          ≡ (run (List String) services empty_client calls, err (group_not_found "group-1")))
unfolding running
group_of_others_refused_example =
    group_of_others_refused (List String) services empty_client "group-1" calls refl
      ((λ same. ground (arith, (eq_iff "group-2" "group-1").1 same)), (tt, tt))
