-- ===== src/Ratchet.antt =====
-- crates/crypto/src/double_ratchet.rs: the state of the double ratchet and its messages. Sums of
-- counters wrap at 2 ^ 64, as in a release build; a new X25519 secret is an argument.
pub mod Steps
pub mod Chains
pub mod Skipped
pub mod Messages
mod Tests
use shadowgram.Base.{
  ℕ, ◌+◌, ◌%◌, ◌≡◌, ◌↔◌, String, Bool, true, ◌&&◌, Option, none, some, List, [], ◌∷◌, ◌++◌, ◌==◌,
  Bytes, bytes_eq, bytes_eq_iff, Eq, ◌===◌, bytes_Eq, length, Result, ok, err, u64_mod, to_le_bytes,
  as_bytes, arith, if◌then◌else◌, take,
}
use shadowgram.Base.Outcome.{Outcome, ◌>>=◌}
use shadowgram.Base.Outcome
use shadowgram.Crypto.{Primitives}
use shadowgram.Crypto.Kdf.{derive_key, kdf_message}

pub data RatchetError : Type 0 where
  invalid_key : RatchetError
  authentication_failed : RatchetError
  decryption_failed : String → RatchetError
  serialization_error : String → RatchetError
  too_many_skipped : ℕ → RatchetError
  invalid_ratchet_level : RatchetError

pub record MessageKey : Type 0 where
  pub key : Bytes
  pub nonce : Bytes

-- The nonce is four zeros and the counter.
unfoldable pub new_message_key : Bytes → ℕ → MessageKey
new_message_key key counter = record { key = key; nonce = 0 ∷ 0 ∷ 0 ∷ 0 ∷ to_le_bytes 8 counter }

pub record ChainKey : Type 0 where
  pub bytes : Bytes
  pub counter : ℕ

unfoldable pub new_chain_key : Bytes → ChainKey
new_chain_key initial = record { bytes = initial; counter = 0 }

unfoldable pub clone_with_counter : ChainKey → ℕ → ChainKey
clone_with_counter chain counter = record chain { counter = counter }

-- The key of a skipped message: the sender's public key and the counter.
pub record SkipKey : Type 0 where
  pub dh : Bytes
  pub index : ℕ

pub skip_keys_iff : (a b : SkipKey) → ((bytes_eq a.dh b.dh && a.index == b.index) ≡ true) ↔ (a ≡ b)
skip_keys_iff a b = ground (arith, bytes_eq_iff a.dh b.dh)

instance abbrev pub skip_key_Eq : Eq SkipKey
skip_key_Eq = record {
  beq = λ a b. bytes_eq a.dh b.dh && a.index == b.index;
  beq_iff = skip_keys_iff;
}

pub record DoubleRatchet : Type 0 where
  pub root_key : Bytes
  pub sending_chain : ChainKey
  pub sending_dh : Option Bytes
  pub sending_dh_public : Bytes
  pub receiving_chain : Option ChainKey
  pub receiving_dh : Option Bytes
  pub remote_dh_public : Bytes
  pub skipped_keys : List (SkipKey × MessageKey)
  pub max_skip : ℕ

pub record MessageHeader : Type 0 where
  pub dh_public : Bytes
  pub counter : ℕ
  pub ratchet_level : ℕ

-- `MessageHeader::to_dh_public`
unfoldable pub to_dh_public : MessageHeader → Result Bytes RatchetError
to_dh_public header = if length header.dh_public == 32 then ok header.dh_public else err invalid_key

-- `[0u8; 32]` and `[0u8; 16]`
abbrev pub zeros_16 : Bytes
zeros_16 = 0 ∷ 0 ∷ 0 ∷ 0 ∷ 0 ∷ 0 ∷ 0 ∷ 0 ∷ 0 ∷ 0 ∷ 0 ∷ 0 ∷ 0 ∷ 0 ∷ 0 ∷ 0 ∷ []

-- `unwrap_or([0u8; 32])`
abbrev pub or_zeros : Option Bytes → Bytes
or_zeros none = zeros_16 ++ zeros_16
or_zeros (some key) = key

module _ (p : Primitives) where
  -- The chain after it, and the message key.
  unfoldable pub next : ChainKey → Outcome (ChainKey × MessageKey) RatchetError
  next chain = do
    (msg_key, new_chain) ← kdf_message p chain.bytes
    Outcome.ok (
      record { bytes = new_chain; counter = (chain.counter + 1) % u64_mod },
      new_message_key msg_key chain.counter,
    )

  unfoldable pub new_initiator : Bytes → Bytes → Bytes → DoubleRatchet
  new_initiator root_key initial_dh remote_dh_public = record {
    root_key = root_key;
    sending_chain =
        new_chain_key (or_zeros (derive_key p root_key (as_bytes "shadowgram-sending-chain")));
    sending_dh = some initial_dh;
    sending_dh_public = p.dh_public initial_dh;
    receiving_chain = none;
    receiving_dh = none;
    remote_dh_public = remote_dh_public;
    skipped_keys = [];
    max_skip = 40;
  }

  unfoldable pub new_responder : Bytes → Bytes → Bytes → DoubleRatchet
  new_responder root_key initial_dh remote_dh_public = record {
    root_key = root_key;
    sending_chain = new_chain_key (zeros_16 ++ zeros_16);
    sending_dh = some initial_dh;
    sending_dh_public = p.dh_public initial_dh;
    receiving_chain =
        some (
          new_chain_key (or_zeros (derive_key p root_key (as_bytes "shadowgram-receiving-chain"))));
    receiving_dh = some remote_dh_public;
    remote_dh_public = remote_dh_public;
    skipped_keys = [];
    max_skip = 40;
  }
