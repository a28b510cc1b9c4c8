-- ===== src/Database/Messages.antt =====
-- crates/storage/src/database.rs: conversations and their messages.
use shadowgram.Base.{
  ℕ, ◌+◌, String, Bool, true, not, ◌&&◌, Option, none, some, List, [], ◌∷◌, ◌++◌, Bytes, any,
  retain, map, max, ltb, leb, ◌==◌, ◌===◌, string_Eq, bytes_Eq, if◌then◌else◌, Result, ok, err,
}
use shadowgram.Database.{Tables, ConversationRow, MessageRow, DbError, sql_error}
use shadowgram.Database.Queries.{order_by, page, i64_half}

-- The foreign keys of a conversation.
abbrev pub has_contact : Tables → Option String → Bool
has_contact t none = true
has_contact t (some fingerprint) = any (λ c. c.fingerprint === fingerprint) t.contacts

abbrev pub has_identity : Tables → Option String → Bool
has_identity t none = true
has_identity t (some fingerprint) = any (λ i. i.0.fingerprint === fingerprint) t.identities

abbrev pub has_conversation : Tables → Bytes → Bool
has_conversation t id = any (λ c. c.id === id) t.conversations

-- `INSERT OR IGNORE` skips an id that is there; a foreign key still fails.
unfoldable pub ensure_conversation :
    ℕ → Tables → Bytes → ℕ → Option String → Option String → Tables × Result (Unit {0}) DbError
ensure_conversation now t id conversation_type peer_fingerprint our_identity =
    if has_conversation t id
    then (t, ok tt)
    else if not (has_contact t peer_fingerprint && has_identity t our_identity)
    then (t, err (sql_error "FOREIGN KEY constraint failed"))
    else (
      record t {
        conversations =
            t.conversations
            ++ record {
              id = id;
              conversation_type = conversation_type;
              peer_fingerprint = peer_fingerprint;
              our_identity = our_identity;
              last_message_at = now;
              unread_count = 0;
            }
              ∷ [];
      },
      ok tt,
    )

-- The key of UNIQUE(conversation_id, sequence).
abbrev pub is_at : Bytes → ℕ → Bytes × MessageRow → Bool
is_at conversation_id sequence m = m.0 === conversation_id && m.1.sequence == sequence

-- The triggers behind a message: the conversation of the message gets its time, and one that comes
-- in counts as unread.
unfoldable pub arrived : Bytes → ℕ → ℕ → ConversationRow → ConversationRow
arrived conversation_id direction now c =
    if c.id === conversation_id
    then record c {
      last_message_at = now;
      unread_count = if direction == 1 then c.unread_count + 1 else c.unread_count;
    }
    else c

-- A word above the signed ones is not converted.
unfoldable pub store_message :
    ℕ → Tables → Bytes → ℕ → ℕ → Bytes → ℕ → Tables × Result (Unit {0}) DbError
store_message now t conversation_id sequence direction envelope status =
    if leb i64_half sequence
    then (t, err (sql_error "ToSqlConversionFailure"))
    else if any (is_at conversation_id sequence) t.messages
    then (
      t,
      err (sql_error "UNIQUE constraint failed: messages.conversation_id, messages.sequence"),
    )
    else if not (has_conversation t conversation_id)
    then (t, err (sql_error "FOREIGN KEY constraint failed"))
    else (
      record t {
        messages =
            t.messages
            ++ (
              conversation_id,
              record {
                sequence = sequence;
                direction = direction;
                envelope = envelope;
                status = status;
                received_at = now;
              },
            )
              ∷ [];
        conversations = map (arrived conversation_id direction now) t.conversations;
      },
      ok tt,
    )

-- `WHERE conversation_id = ?1`
unfoldable pub rows_of : Tables → Bytes → List MessageRow
rows_of t conversation_id = map (λ m. m.1) (retain (λ m. m.0 === conversation_id) t.messages)

-- `ORDER BY sequence DESC`
abbrev pub is_later : MessageRow → MessageRow → Bool
is_later a b = ltb b.sequence a.sequence

-- Neither number is below zero.
unfoldable pub get_messages : Tables → Bytes → ℕ → ℕ → Tables × Result (List MessageRow) DbError
get_messages t conversation_id limit offset =
    (t, ok (page limit offset (order_by is_later (rows_of t conversation_id))))

-- `SELECT MAX(sequence)`: NULL without rows, which is no u64.
unfoldable pub max_sequence : List MessageRow → Option ℕ
max_sequence [] = none
max_sequence (m ∷ ms) = elim (max_sequence ms) [
  | none ↦ some m.sequence
  | some n ↦ some (max m.sequence n)
]

unfoldable pub next_sequence : Tables → Bytes → Tables × Result ℕ DbError
next_sequence t conversation_id = elim (max_sequence (rows_of t conversation_id)) [
  | none ↦ (t, err (sql_error "Invalid column type Null"))
  | some n ↦ (t, ok (n + 1))
]
