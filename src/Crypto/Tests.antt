-- ===== src/Crypto/Tests.antt =====
-- crates/crypto/src/aead.rs: a run at an example.
use shadowgram.Base.{◌≡◌, [], ◌∷◌, refl}
use shadowgram.Base.Outcome.{ok}
use shadowgram.Crypto.{aes256_gcm}
use shadowgram.Crypto.Aead.{encrypt, split_tag}
use shadowgram.Crypto.Example.{primitives, ones}

sealed : encrypt primitives aes256_gcm [] [] (7 ∷ 8 ∷ []) [] ≡ ok (7 ∷ 8 ∷ [], ones)
unfolding encrypt split_tag
sealed = refl
