-- ===== src/Crypto/Example.antt =====
-- Operations for the tests of what crates/crypto/src calls: a text is sealed by sixteen ones behind
-- it, and a key is expanded by repetition.
use shadowgram.Base.{
  ◌-◌, ◌≡◌, Option, none, some, [], ◌∷◌, ◌++◌, Bytes, bytes_eq, bytes_eq_iff, length, take, drop,
  ltb, if◌then◌else◌, refl, sym, ap, ◌∙◌, length-append, take-append, drop-append, take-append-drop,
  ge→not-ltb, Bool-cases, inl, inr, arith,
}
use shadowgram.Crypto.{Primitives, IsAead}

abbrev pub ones : Bytes
ones = 1 ∷ 1 ∷ 1 ∷ 1 ∷ 1 ∷ 1 ∷ 1 ∷ 1 ∷ 1 ∷ 1 ∷ 1 ∷ 1 ∷ 1 ∷ 1 ∷ 1 ∷ 1 ∷ []

unfoldable pub open_ones : Bytes → Option Bytes
open_ones sealed =
    if ltb (length sealed) 16
    then none
    else if bytes_eq (drop (length sealed - 16) sealed) ones
    then some (take (length sealed - 16) sealed)
    else none

abbrev pub primitives : Primitives
primitives = record {
  hkdf = λ salt ikm info n. some (take n (ikm ++ ikm));
  blake3 = λ bytes. bytes;
  seal = λ alg key nonce ad text. some (text ++ ones);
  unseal = λ alg key nonce ad sealed. open_ones sealed;
  dh_public = λ secret. secret;
  diffie_hellman = λ secret key. secret ++ key;
}

open_ones-append : (text : Bytes) → open_ones (text ++ ones) ≡ some text
unfolding open_ones
open_ones-append text =
    let n = length-append text ones in
    let long = ge→not-ltb (length (text ++ ones)) 16 (omega (arith, n)) in
    let end = drop-append text ones (length (text ++ ones) - 16) (omega (arith, n)) in
    let begin = take-append text ones (length (text ++ ones) - 16) (omega (arith, n)) in
    let same = (bytes_eq_iff ones ones).1 refl in rw (long, end, begin, same) refl

open_ones_sound : (sealed text : Bytes) → open_ones sealed ≡ some text → text ++ ones ≡ sealed
unfolding open_ones
open_ones_sound sealed text h = elim (Bool-cases (ltb (length sealed) 16)) [
  | inl short ↦ absurd (ground arith)
  | inr long ↦ elim (Bool-cases (bytes_eq (drop (length sealed - 16) sealed) ones)) [
    | inr other ↦ absurd (ground arith)
    | inl same ↦
        let end = (bytes_eq_iff (drop (length sealed - 16) sealed) ones).0 same in
        let begin : take (length sealed - 16) sealed ≡ text = ground arith in
        rw (← begin, ← end) (take-append-drop (length sealed - 16) sealed)
  ]
]

some_append :
    (text : Bytes) (sealed : Bytes) → some (text ++ ones) ≡ some sealed → text ++ ones ≡ sealed
some_append text sealed h = ground arith

pub primitives-IsAead : IsAead primitives
primitives-IsAead = record {
  tagged = λ alg key nonce ad text sealed h.
      ap length (sym (some_append text sealed h)) ∙ length-append text ones;
  opens = λ alg key nonce ad text sealed h.
      ap open_ones (sym (some_append text sealed h)) ∙ open_ones-append text;
  sound = λ alg key nonce ad text sealed h. ap some (open_ones_sound sealed text h);
  stream = λ alg key nonce ad text text' sealed sealed' h h' same.
      sym (take-append text ones (length text) refl)
      ∙ ap (take (length text)) (some_append text sealed h)
      ∙ same
      ∙ ap (take (length text')) (sym (some_append text' sealed' h'))
      ∙ take-append text' ones (length text') refl;
}
