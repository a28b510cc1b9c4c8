-- ===== src/Chat/Tests.antt =====
-- crates/messenger/src/chat.rs: two sessions in step, and the theorems at them. The format of the
-- headers is the counter, the level and the key.
use shadowgram.Base.Outcome.{ok, err}
use shadowgram.Crypto.Aead
use shadowgram.Base.{
  ◌++◌, some, refl, false, ◌≡◌, length, [], ◌∷◌, ltb, Result, if◌then◌else◌, Bytes, ℕ, List,
}
use shadowgram.Base
use shadowgram.Ratchet.{
  zeros_16, DoubleRatchet, new_responder, new_initiator, MessageKey, ChainKey, MessageHeader,
  RatchetError,
}
use shadowgram.Chat.{with_ratchet, is_stale, HeaderFormat}
use shadowgram.Crypto.Example.{primitives, ones}

abbrev read_header : Bytes → Result MessageHeader RatchetError
read_header [] = Base.err RatchetError.invalid_key
read_header (n ∷ []) = Base.err RatchetError.invalid_key
read_header (n ∷ level ∷ dh) =
    Base.ok (record { dh_public = dh; counter = n; ratchet_level = level })

abbrev format : HeaderFormat
format = record {
  to_bytes = λ h.
      if ltb (length h.dh_public) 100
      then Base.ok (h.counter ∷ h.ratchet_level ∷ h.dh_public)
      else Base.err RatchetError.invalid_key;
  from_bytes = read_header;
}

abbrev chain : ChainKey
chain = record { bytes = 5 ∷ 6 ∷ []; counter = 0 }

abbrev chain_1 : ChainKey
chain_1 = record { bytes = []; counter = 1 }

abbrev key_0 : MessageKey
key_0 = record {
  key = 5 ∷ 6 ∷ 5 ∷ 6 ∷ [];
  nonce = 0 ∷ 0 ∷ 0 ∷ 0 ∷ 0 ∷ 0 ∷ 0 ∷ 0 ∷ 0 ∷ 0 ∷ 0 ∷ 0 ∷ [];
}

alice : DoubleRatchet
unfolding new_initiator
alice = record (new_initiator primitives (5 ∷ 6 ∷ []) (zeros_16 ++ ones) (zeros_16 ++ ones)) {
  sending_chain = chain;
}

bob : DoubleRatchet
unfolding new_responder
bob = record (new_responder primitives (5 ∷ 6 ∷ []) (zeros_16 ++ ones) (zeros_16 ++ ones)) {
  receiving_chain = some chain;
}

-- A day is over, and the limit is one day: the session is stale only a second later.
stale_test : is_stale 86400 (with_ratchet 0 "a" "b" alice) 1 ≡ false
unfolding is_stale with_ratchet
stale_test = refl
