-- ===== src/Ratchet/Tests.antt =====
-- crates/crypto/src/double_ratchet.rs: the theorems at a sender and a receiver with the same chain.
use shadowgram.Base.{◌≡◌, some, [], ◌∷◌, ◌++◌, Bytes, arith}
use shadowgram.Crypto.Aead
use shadowgram.Crypto.Example.{primitives, ones}
use shadowgram.Ratchet.{ChainKey, MessageKey, DoubleRatchet, new_initiator, new_responder, zeros_16}
use shadowgram.Ratchet.Steps.{decrypt}
use shadowgram.Ratchet.Skipped.{IsBounded, decrypt-IsBounded}
use shadowgram.Ratchet.Messages.{header_of}

abbrev root : Bytes
root = 5 ∷ 6 ∷ []

abbrev dh : Bytes
dh = zeros_16 ++ ones

abbrev chain : ChainKey
chain = record { bytes = root; counter = 0 }

abbrev chain_1 : ChainKey
chain_1 = record { bytes = []; counter = 1 }

abbrev key_0 : MessageKey
key_0 = record {
  key = 5 ∷ 6 ∷ 5 ∷ 6 ∷ [];
  nonce = 0 ∷ 0 ∷ 0 ∷ 0 ∷ 0 ∷ 0 ∷ 0 ∷ 0 ∷ 0 ∷ 0 ∷ 0 ∷ 0 ∷ [];
}

alice : DoubleRatchet
unfolding new_initiator
alice = record (new_initiator primitives root dh dh) { sending_chain = chain }

bob : DoubleRatchet
unfolding new_responder
bob = record (new_responder primitives root dh dh) { receiving_chain = some chain }

decrypt-IsBounded_example :
    IsBounded (decrypt primitives [] bob (7 ∷ []) (header_of alice)).0
    × ((decrypt primitives [] bob (7 ∷ []) (header_of alice)).0.max_skip ≡ bob.max_skip)
unfolding bob new_responder
decrypt-IsBounded_example =
    decrypt-IsBounded primitives [] bob (7 ∷ []) (header_of alice) (omega arith)
