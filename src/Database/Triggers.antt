-- ===== src/Database/Triggers.antt =====
-- crates/storage/src/database.rs: the triggers behind a message leave the rows of the conversations
-- their keys.
use shadowgram.Base.{
  ◌⊎◌, inl, inr, ◌≡◌, refl, ℕ, List, [], ◌∷◌, Bytes, any, map, ◌===◌, bytes_Eq, Bool-cases,
  Result-cases, arith,
}
use shadowgram.Database.{Tables, ConversationRow}
use shadowgram.Database.Messages.{arrived, store_message}

pub arrived_keeps :
    (id : Bytes) (direction now : ℕ) (c : ConversationRow)
    → ((arrived id direction now c).id ≡ c.id)
      × ((arrived id direction now c).peer_fingerprint ≡ c.peer_fingerprint)
      × ((arrived id direction now c).our_identity ≡ c.our_identity)
unfolding arrived
arrived_keeps id direction now c = elim (Bool-cases (c.id === id)) [
  | inl same ↦ (ground arith, ground arith, ground arith)
  | inr other ↦ (ground arith, ground arith, ground arith)
]

-- The triggers leave the ids of the conversations as they are.
pub any-map-arrived :
    (id : Bytes) (direction now : ℕ) (i : Bytes) (cs : List ConversationRow)
    → any (λ (c : ConversationRow). c.id === i) (map (arrived id direction now) cs)
      ≡ any (λ (c : ConversationRow). c.id === i) cs
unfolding any
any-map-arrived id direction now i [] = refl
any-map-arrived id direction now i (c ∷ cs) =
    ground (arith, (arrived_keeps id direction now c).0, any-map-arrived id direction now i cs)

-- The triggers run if the message is stored.
pub store_message_conversations :
    (now : ℕ) (t : Tables) (id : Bytes) (sequence direction : ℕ) (envelope : Bytes) (status : ℕ)
    → ((store_message now t id sequence direction envelope status).0.conversations
        ≡ t.conversations)
      ⊎ ((store_message now t id sequence direction envelope status).0.conversations
          ≡ map (arrived id direction now) t.conversations)
unfolding store_message
store_message_conversations now t id sequence direction envelope status =
    elim (Result-cases (store_message now t id sequence direction envelope status).1) [
      | inl (_, stored) ↦ inr (ground arith)
      | inr (_, refused) ↦ inl (ground arith)
    ]
