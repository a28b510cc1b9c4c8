-- ===== src/Session/Example.antt =====
-- crates/messenger/src/message.rs: a message for the tests, and a test for it.
use shadowgram.Base.{
  ◌≡◌, refl, Bool, true, false, ◌&&◌, Option, none, some, [], ◌∷◌, Bytes, ◌==◌, ◌===◌, string_Eq,
  arith,
}
use text.Mathlib.TextEquality.{eq_iff}
use shadowgram.Session.{Message, MessageStatus, MessageDirection, ContentType}

abbrev pub hello : Message
hello = record {
  id = "m1";
  conversation_id = "";
  content = "hi";
  message_type = ContentType.text;
  timestamp = 7;
  status = MessageStatus.composed;
  direction = MessageDirection.outgoing;
}

abbrev is_text : ContentType → Bool
is_text ContentType.text = true
is_text t = false

abbrev is_composed : MessageStatus → Bool
is_composed MessageStatus.composed = true
is_composed s = false

abbrev is_outgoing : MessageDirection → Bool
is_outgoing MessageDirection.outgoing = true
is_outgoing d = false

unfoldable pub is_hello : Message → Bool
is_hello m =
    m.id === "m1"
    && m.conversation_id === ""
    && m.content === "hi"
    && is_text m.message_type
    && m.timestamp == 7
    && is_composed m.status
    && is_outgoing m.direction

is_text_lem : (t : ContentType) → is_text t ≡ true → t ≡ ContentType.text
is_text_lem ContentType.text h = refl
is_text_lem ContentType.image h = absurd cc
is_text_lem ContentType.file h = absurd cc
is_text_lem ContentType.voice h = absurd cc
is_text_lem ContentType.system h = absurd cc
is_text_lem ContentType.key_exchange h = absurd cc
is_text_lem ContentType.ratchet_sync h = absurd cc

is_composed_lem : (s : MessageStatus) → is_composed s ≡ true → s ≡ MessageStatus.composed
is_composed_lem MessageStatus.composed h = refl
is_composed_lem MessageStatus.sending h = absurd cc
is_composed_lem MessageStatus.sent h = absurd cc
is_composed_lem MessageStatus.delivered h = absurd cc
is_composed_lem MessageStatus.read h = absurd cc
is_composed_lem MessageStatus.failed h = absurd cc

is_outgoing_lem : (d : MessageDirection) → is_outgoing d ≡ true → d ≡ MessageDirection.outgoing
is_outgoing_lem MessageDirection.outgoing h = refl
is_outgoing_lem MessageDirection.incoming h = absurd cc

pub is_hello_lem : (m : Message) → is_hello m ≡ true → m ≡ hello
unfolding is_hello
is_hello_lem m h = ground (
  arith,
  eq_iff m.id "m1",
  eq_iff m.conversation_id "",
  eq_iff m.content "hi",
  is_text_lem m.message_type,
  is_composed_lem m.status,
  is_outgoing_lem m.direction,
)

abbrev pub read_byte {ℓ} : {A : Type ℓ} → A → Bytes → Option A
read_byte a [] = none
read_byte a (b ∷ bytes) = some a
