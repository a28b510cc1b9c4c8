-- ===== src/Group/Example.antt =====
-- crates/messenger/src/group.rs: a group of one for the tests, and a commit. The crypto of the
-- tests hashes to the input, and seals by a byte in front.
use shadowgram.Base.{Option, none, some, [], ◌∷◌, Bytes, arith}
use shadowgram.Group.{GroupMember, MemberRole, Commit, Crypto, member_added}
use shadowgram.Group.Tree.{add_leaf, rebalance, rebalance_from, new}
use shadowgram.Group.State.{signature_input}
use shadowgram.Group.State
use shadowgram.Group.Chat.{GroupChat, create}
use shadowgram.Group.Transport.{Opens}

abbrev pub unseal : Bytes → Option Bytes
unseal [] = none
unseal (x ∷ xs) = some xs

abbrev pub crypto : Crypto
crypto = record {
  blake3 = λ b. b;
  hkdf = λ salt ikm info. some ikm;
  encrypt = λ key nonce ad text. some (1 ∷ text);
  decrypt = λ key nonce ad sealed. unseal sealed;
}

pub opens : Opens crypto
opens key nonce ad text sealed h = ground arith

unfoldable pub chat : GroupChat
unfolding create State.create add_leaf rebalance rebalance_from new
chat = create (5 ∷ 5 ∷ []) 1000 "group-1" "alice" (1 ∷ 2 ∷ 3 ∷ []) (some "Test")

abbrev pub bob : GroupMember
bob = record {
  fingerprint = "bob";
  display_name = none;
  role = MemberRole.member;
  key_package = 4 ∷ 5 ∷ [];
  joined_at = 1001;
  left_at = none;
}

abbrev pub joined : Commit
joined = record {
  epoch = 1;
  path_updates = record { node_index = 2; encrypted_secret = []; new_public_key = 4 ∷ 5 ∷ [] } ∷ [];
  signature = signature_input (5 ∷ 5 ∷ []) 1 member_added;
  commit_type = member_added;
}
