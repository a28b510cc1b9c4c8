-- ===== src/KeyExchange/Example.antt =====
-- Operations for the tests of what crates/crypto/src/key_exchange.rs calls: a public key is its
-- secret and two keys are added, an encapsulated key is the start of its ciphertext, and base64
-- changes nothing.
use shadowgram.Base.{
  ap, ℕ, zero, suc, ◌+◌, ◌≡◌, refl, Bytes, [], ◌∷◌, ◌++◌, length, take, some, arith, length-append,
  take-append,
}
use shadowgram.Crypto.{Primitives}
use shadowgram.Crypto.Example.{primitives}
use shadowgram.KeyExchange.{Kem}
use shadowgram.KeyExchange.Agreement.{IsExchange}

unfoldable pub repeated : ℕ → Bytes
repeated zero = []
repeated (suc n) = 0 ∷ repeated n

length-repeated : (n : ℕ) → length (repeated n) ≡ n
unfolding repeated
length-repeated zero = refl
length-repeated (suc n) = omega (arith, length-repeated n)

unfoldable pub added : Bytes → Bytes → Bytes
added [] ys = []
added (x ∷ xs) [] = []
added (x ∷ xs) (y ∷ ys) = (x + y) ∷ added xs ys

added_comm : (xs ys : Bytes) → added xs ys ≡ added ys xs
unfolding added
added_comm [] [] = refl
added_comm [] (y ∷ ys) = refl
added_comm (x ∷ xs) [] = refl
added_comm (x ∷ xs) (y ∷ ys) = rw (added_comm xs ys) (ap (λ (n : ℕ). n ∷ added ys xs) (omega arith))

abbrev pub exchange_primitives : Primitives
exchange_primitives = record primitives { dh_public = λ s. s; diffie_hellman = added }

abbrev pub kem : Kem
kem = record {
  from_seed = λ seed. seed;
  encapsulation_key = λ key. repeated 1184;
  key_of_bytes = some;
  encapsulate_deterministic = λ key m. (m ++ repeated 1056, m);
  decapsulate = λ key ciphertext. take 32 ciphertext;
  encode = λ bytes. bytes;
  decode = some;
}

pub exchange-IsExchange : IsExchange exchange_primitives kem
exchange-IsExchange = record {
  public_size = λ s h. h;
  commutes = λ s r h k. added_comm s r;
  key_size = λ seed. length-repeated 1184;
  reads_key = λ seed. refl;
  ciphertext_size =
      λ seed m h. omega (arith, length-append m (repeated 1056), length-repeated 1056, h);
  opens = λ seed m h. take-append m (repeated 1056) 32 (omega (arith, h));
  reads_base64 = λ bytes. refl;
}
