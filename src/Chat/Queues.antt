-- ===== src/Chat/Queues.antt =====
-- crates/messenger/src/chat.rs: `Chat`, a session with the messages that wait on the way out and
-- on the way in.
use shadowgram.Base.{ℕ, String, List, [], ◌∷◌, ◌++◌, length}
use shadowgram.Chat.{ChatSession, ChatState}
use shadowgram.Chat.{new as new_session}

pub record Chat {ℓ κ} (Message : Type ℓ) (MessageEnvelope : Type κ) : Type (ℓ ⊔ κ) where
  pub session : ChatSession
  pub pending_outbound : List Message
  pub pending_inbound : List MessageEnvelope

pub record ChatStats : Type 0 where
  pub contact_fingerprint : String
  pub state : String
  pub message_count : ℕ
  pub pending_outbound : ℕ
  pub pending_inbound : ℕ

-- `format!("{:?}", state)`
unfoldable pub state_name : ChatState → String
state_name ChatState.fresh = "New"
state_name ChatState.key_exchange = "KeyExchange"
state_name ChatState.established = "Established"
state_name ChatState.expired = "Expired"

module _ {ℓ κ} {Message : Type ℓ} {MessageEnvelope : Type κ} where
  unfoldable pub new : ℕ → String → String → Chat Message MessageEnvelope
  new now our_fingerprint contact_fingerprint = record {
    session = new_session now our_fingerprint contact_fingerprint;
    pending_outbound = [];
    pending_inbound = [];
  }

  unfoldable pub queue_message :
      Chat Message MessageEnvelope → Message → Chat Message MessageEnvelope
  queue_message c message = record c { pending_outbound = c.pending_outbound ++ message ∷ [] }

  unfoldable pub take_pending_outbound :
      Chat Message MessageEnvelope → Chat Message MessageEnvelope × List Message
  take_pending_outbound c = (record c { pending_outbound = [] }, c.pending_outbound)

  unfoldable pub queue_inbound :
      Chat Message MessageEnvelope → MessageEnvelope → Chat Message MessageEnvelope
  queue_inbound c envelope = record c { pending_inbound = c.pending_inbound ++ envelope ∷ [] }

  unfoldable pub take_pending_inbound :
      Chat Message MessageEnvelope → Chat Message MessageEnvelope × List MessageEnvelope
  take_pending_inbound c = (record c { pending_inbound = [] }, c.pending_inbound)

  unfoldable pub stats : Chat Message MessageEnvelope → ChatStats
  stats c = record {
    contact_fingerprint = c.session.contact_fingerprint;
    state = state_name c.session.state;
    message_count = c.session.message_count;
    pending_outbound = length c.pending_outbound;
    pending_inbound = length c.pending_inbound;
  }
