-- ===== src/Crypto/Sealing.antt =====
-- crates/crypto/src/aead.rs: what is encrypted is decrypted, and only with its tag.
use shadowgram.Base.{
  ℕ, ◌+◌, ◌-◌, ◌≡◌, ◌≢◌, refl, sym, ap, ◌∙◌, Bool, false, Option, none, some, ◌++◌, Bytes, length,
  take, drop, ltb, Result, take-append-drop, length-take, length-drop, length-append, ge→not-ltb,
  Option-cases, inl, inr, arith, take-append, drop-append,
}
use shadowgram.Base
use shadowgram.Base.Outcome.{ok, panicked}
use shadowgram.Crypto.{Primitives, AeadAlgorithm, IsAead}
use shadowgram.Crypto.Aead.{authentication_failed, split_tag, encrypt, decrypt}

module _ (p : Primitives) (aead : IsAead p) where
  -- The parts of an encryption that succeeds.
  pub record IsSealed (alg : AeadAlgorithm) (key nonce ad text c tag : Bytes) : Type 0 where
    pub sealed : p.seal alg key nonce ad text ≡ some (c ++ tag)
    pub body : length c ≡ length text
    pub size : length tag ≡ 16

  pub encrypt-IsSealed :
      (alg : AeadAlgorithm) (key nonce ad text c tag : Bytes)
      → encrypt p alg key nonce text ad ≡ ok (c, tag)
      → IsSealed alg key nonce ad text c tag
  unfolding encrypt split_tag
  encrypt-IsSealed alg key nonce ad text c tag h =
      elim (Option-cases (p.seal alg key nonce ad text)) [
        | inl e ↦ absurd (ground arith)
        | inr (s, e) ↦
            let long = aead.tagged alg key nonce ad text s e in
            let whole : ltb (length s) 16 ≡ false =
              ge→not-ltb (length s) 16 (omega (arith, long)) in
            let body : take (length s - 16) s ≡ c = ground arith in
            let rest : drop (length s - 16) s ≡ tag = ground arith in
            record {
              sealed =
                  e ∙ ap some (sym (take-append-drop (length s - 16) s) ∙ rw (body, rest) refl);
              body = ap length (sym body) ∙ omega (arith, length-take (length s - 16) s, long);
              size = ap length (sym rest) ∙ omega (arith, length-drop (length s - 16) s, long);
            }
      ]

  pub decrypt-encrypt :
      (alg : AeadAlgorithm) (key nonce ad text c tag : Bytes)
      → encrypt p alg key nonce text ad ≡ ok (c, tag)
      → decrypt p alg key nonce c tag ad ≡ Base.ok text
  unfolding decrypt
  decrypt-encrypt alg key nonce ad text c tag h =
      let s = encrypt-IsSealed alg key nonce ad text c tag h in
      rw (aead.opens alg key nonce ad text (c ++ tag) s.sealed, decrypt) refl

  pub encrypt_safe :
      (alg : AeadAlgorithm) (key nonce ad text : Bytes) → encrypt p alg key nonce text ad ≢ panicked
  unfolding encrypt split_tag
  encrypt_safe alg key nonce ad text h = elim (Option-cases (p.seal alg key nonce ad text)) [
    | inl e ↦ ground arith
    | inr (s, e) ↦ ground (arith, aead.tagged alg key nonce ad text s e)
  ]

  pub decrypt_other_tag :
      (alg : AeadAlgorithm) (key nonce ad text c tag tag' : Bytes)
      → encrypt p alg key nonce text ad ≡ ok (c, tag)
      → length tag' ≡ 16
      → tag' ≢ tag
      → decrypt p alg key nonce c tag' ad ≡ Base.err authentication_failed
  unfolding decrypt
  decrypt_other_tag alg key nonce ad text c tag tag' h size other =
      elim (Option-cases (p.unseal alg key nonce ad (c ++ tag'))) [
        | inl e ↦ rw (e, decrypt) refl
        | inr (text', e) ↦
            let s = encrypt-IsSealed alg key nonce ad text c tag h in
            let sealed' = aead.sound alg key nonce ad text' (c ++ tag') e in
            let long = aead.tagged alg key nonce ad text' (c ++ tag') sealed' in
            let size' = length-append c tag' in
            let same : take (length text') (c ++ tag') ≡ take (length text) (c ++ tag) =
              take-append c tag' (length text') (omega (arith, long, size', size))
              ∙ sym (take-append c tag (length text) (sym s.body)) in
            let equal =
              aead.stream alg key nonce ad text' text (c ++ tag') (c ++ tag) sealed' s.sealed
                same in
            let both : c ++ tag' ≡ c ++ tag = ground (arith, sealed', s.sealed, equal) in
            absurd (
              other (
                sym (drop-append c tag' (length c) refl)
                ∙ ap (drop (length c)) both
                ∙ drop-append c tag (length c) refl))
      ]
