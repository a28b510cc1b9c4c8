-- ===== src/Session/Keys.antt =====
-- crates/messenger/src/client.rs: the keys, nonces and ids of a direct session.
use shadowgram.Base.{
  ℕ, String, Bool, true, false, ◌&&◌, ◌||◌, [], ◌∷◌, ◌++◌, Bytes, ltb, ◌==◌, if◌then◌else◌,
  to_le_bytes, as_bytes, insert, string_Eq, Option, none, some,
}
use shadowgram.Session.{Client}

unfoldable pub sequence_nonce : ℕ → ℕ → Bytes
sequence_nonce sequence direction_marker = to_le_bytes 4 direction_marker ++ to_le_bytes 8 sequence

pub record SessionKeys : Type 0 where
  pub send_key : Bytes
  pub receive_key : Bytes

pub data SessionRole : Type 0 where
  initiator responder : SessionRole

module _ (keyed_hash : Bytes → Bytes → Bytes) where
  unfoldable pub derive_directional_session_keys :
      Bytes → SessionRole → String → String → SessionKeys
  derive_directional_session_keys shared_key role initiator_fingerprint responder_fingerprint =
      let initiator_to_responder = keyed_hash shared_key (
        as_bytes "shadowgram-session:initiator:"
        ++ (as_bytes initiator_fingerprint
            ++ (as_bytes ":responder:" ++ as_bytes responder_fingerprint))) in
      let responder_to_initiator = keyed_hash shared_key (
        as_bytes "shadowgram-session:responder:"
        ++ (as_bytes responder_fingerprint
            ++ (as_bytes ":initiator:" ++ as_bytes initiator_fingerprint))) in
      elim role [
        | initiator ↦ record {
          send_key = initiator_to_responder;
          receive_key = responder_to_initiator;
        }
        | responder ↦ record {
          send_key = responder_to_initiator;
          receive_key = initiator_to_responder;
        }
      ]

-- `a <= b` on strings compares their bytes.
unfoldable pub leb_bytes : Bytes → Bytes → Bool
leb_bytes [] ys = true
leb_bytes (x ∷ xs) [] = false
leb_bytes (x ∷ xs) (y ∷ ys) = ltb x y || (x == y && leb_bytes xs ys)

unfoldable pub direct_conversation_id : String → String → Bytes
direct_conversation_id a b =
    if leb_bytes (as_bytes a) (as_bytes b)
    then as_bytes "direct:" ++ (as_bytes a ++ (as_bytes ":" ++ as_bytes b))
    else as_bytes "direct:" ++ (as_bytes b ++ (as_bytes ":" ++ as_bytes a))

-- `self.fingerprint().unwrap_or_else(|| "unknown".into())`
abbrev pub or_unknown : Option String → String
or_unknown none = "unknown"
or_unknown (some fingerprint) = fingerprint

module _ (Db : Type 0) where
  -- The session in `establish_direct_session`; the chat and the conversation that it also creates
  -- are not part of this state.
  unfoldable pub establish_direct_session : Client Db → String → SessionKeys → Client Db
  establish_direct_session c contact_fingerprint keys = record c {
    direct_sessions =
        insert contact_fingerprint
          (record {
            send_key = keys.send_key;
            receive_key = keys.receive_key;
            conversation_id = direct_conversation_id (or_unknown c.fingerprint) contact_fingerprint;
            send_counter = 0;
            seen_incoming_sequences = [];
          })
          c.direct_sessions;
  }
