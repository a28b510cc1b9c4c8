-- ===== src/Threshold/Hiding.antt =====
-- crates/identity/src/threshold.rs: draws that give any other bytes the same values at fewer
-- points than the threshold.
use shadowgram.Base.{
  false, ==_iff, ◌-◌, ◌∙◌, ◌==◌, sym, ◌≤◌, if◌then◌else◌, ap, All, refl, map, ◌<◌, arith, [], ◌≡◌,
  ◌∷◌, length, ◌≢◌, Bytes, List, ℕ, zero, suc,
}
use shadowgram.Threshold.Algebra.{Field, ◌⊕◌, ◌⊗◌, add_cancel, mul-nil, add-nil, mul-one}
use shadowgram.Threshold.Polynomials.{
  eval, plus, scale, eval-plus, eval-scale, length-scale, length-plus, node_poly, eval-node_poly,
  length-node_poly, differences,
}
use shadowgram.Threshold.Sharing.{eval_polynomial, draw}
use shadowgram.Threshold.ByteField.{gf_Field, one_byte-ne, nil_byte, Byte}
use shadowgram.Threshold.Recovery.{map-byte_draws, length-byte_draws, byte_draws, eval-nil, IsByte}
use shadowgram.Threshold.Splitting.{share_data}
use shadowgram.Threshold.Interpolation.{differences-ne_nil}
use shadowgram.Threshold.Terms.{eval_polynomial_lem}

module _ {ℓ} {F : Type ℓ} ⦃k : Field F⦄ where
  le-length-plus : (ps qs : List F) → length ps ≤ length (plus ps qs)
  unfolding plus
  le-length-plus [] qs = omega arith
  le-length-plus (p ∷ ps) [] = omega arith
  le-length-plus (p ∷ ps) (q ∷ qs) = omega (arith, le-length-plus ps qs)

  -- Another polynomial of the same length, with the same values at fewer points and any value
  -- at zero.
  shift :
      (xs ps : List F) (c : F)
      → differences k.nil xs ≢ k.nil
      → length xs < length ps
      → (qs : List F) × (length qs ≡ length ps)
        × (eval qs k.nil ≡ c)
        × ((z : F) → differences z xs ≡ k.nil → eval qs z ≡ eval ps z)
  shift xs ps c apart h =
      let a = (eval ps k.nil ⊕ c) ⊗ k.inv (differences k.nil xs) in
      let nodes = scale a (node_poly xs) in
      let value : (z : F) → eval (plus ps nodes) z ≡ eval ps z ⊕ a ⊗ differences z xs =
        λ z. rw (eval-plus ps nodes z, eval-scale a (node_poly xs) z, eval-node_poly xs z) refl in
      (
        plus ps nodes,
        omega (
          arith,
          le-length-plus ps nodes,
          length-plus (length ps) ps nodes (omega arith)
              (omega (arith, length-scale a (node_poly xs), length-node_poly xs)),
        ),
        rw
            (
              value k.nil,
              k.mul_assoc (eval ps k.nil ⊕ c) (k.inv (differences k.nil xs)) (differences k.nil xs),
              k.mul_comm (k.inv (differences k.nil xs)) (differences k.nil xs),
              k.mul-inv (differences k.nil xs) apart,
              mul-one (eval ps k.nil ⊕ c),
            )
            (add_cancel (eval ps k.nil) c),
        λ z root. rw (value z, root, mul-nil a) (add-nil (eval ps z)),
      )

-- The coefficients as draws.
coefficient : List Byte → ℕ → ℕ
coefficient [] j = 0
coefficient (c ∷ cs) zero = c.0
coefficient (c ∷ cs) (suc j) = coefficient cs j

coefficient-IsByte : (cs : List Byte) (j : ℕ) → IsByte (coefficient cs j)
unfolding coefficient
coefficient-IsByte [] j = omega arith
coefficient-IsByte (c ∷ cs) zero = c.1
coefficient-IsByte (c ∷ cs) (suc j) = coefficient-IsByte cs j

draw-suc :
    (n i : ℕ) (c : Byte) (cs : List Byte)
    → draw n (suc i) (coefficient (c ∷ cs)) ≡ draw n i (coefficient cs)
unfolding draw coefficient
draw-suc zero i c cs = refl
draw-suc (suc n) i c cs = ap (◌∷◌ (coefficient cs i)) (draw-suc n (suc i) c cs)

draw-coefficient : (cs : List Byte) → draw (length cs) 0 (coefficient cs) ≡ map (λ b. b.0) cs
unfolding draw coefficient
draw-coefficient [] = refl
draw-coefficient (c ∷ cs) = ap (◌∷◌ c.0) (draw-suc (length cs) 0 c cs ∙ draw-coefficient cs)

-- A polynomial with a value at zero starts with it.
constant_first :
    (qs : List Byte) (m : ℕ) (c : Byte)
    → length qs ≡ suc m
    → eval qs nil_byte ≡ c
    → (cs : List Byte) × (length cs ≡ m) × (qs ≡ c ∷ cs)
constant_first [] m c size value = absurd (omega arith)
constant_first (q ∷ cs) m c size value =
    (cs, omega arith, ap (λ (b : Byte). b ∷ cs) (sym (eval-nil q cs) ∙ value))

-- Draws for another byte that give the same shares at fewer points than the threshold.
hide_byte :
    (b c : Byte) (t : ℕ) (r : ℕ → ℕ) (xs : List Byte)
    → ((j : ℕ) → IsByte (r j))
    → length xs < t
    → All (λ x. x ≢ nil_byte) xs
    → (draws : ℕ → ℕ) × ((j : ℕ) → IsByte (draws j))
      × ((x : Byte)
          → differences x xs ≡ nil_byte
          → eval_polynomial (c.0 ∷ draw (t - 1) 0 draws) x.0
            ≡ eval_polynomial (b.0 ∷ draw (t - 1) 0 r) x.0)
hide_byte b c t r xs bytes few points =
    let old = byte_draws (t - 1) 0 r bytes in
    let count : length old ≡ t - 1 = length-byte_draws (t - 1) 0 r bytes in
    let found =
      shift xs (b ∷ old) c (differences-ne_nil nil_byte xs one_byte-ne points)
        (omega (arith, count)) in
    let parts = constant_first found.0 (t - 1) c (omega (arith, found.1, count)) found.2 in
    (
      coefficient parts.0,
      coefficient-IsByte parts.0,
      λ x root.
          ap (λ n. eval_polynomial (c.0 ∷ draw n 0 (coefficient parts.0)) x.0) (sym parts.1)
          ∙ ap (λ ds. eval_polynomial (c.0 ∷ ds) x.0) (draw-coefficient parts.0)
          ∙ eval_polynomial_lem (c ∷ parts.0) x
          ∙ ap (λ (ps : List Byte). (eval ps x).0) (sym parts.2)
          ∙ ap (λ (v : Byte). v.0) (found.3 x root)
          ∙ sym (eval_polynomial_lem (b ∷ old) x)
          ∙ ap (λ ds. eval_polynomial (b.0 ∷ ds) x.0) (map-byte_draws (t - 1) 0 r bytes),
    )

-- The data of a share depend on the draws for the bytes to come.
share_data_ext :
    (t k : ℕ) (r q : ℕ → ℕ → ℕ) (bs : Bytes) (x : ℕ)
    → ((i : ℕ) → k ≤ i → r i ≡ q i)
    → share_data t r k bs x ≡ share_data t q k bs x
unfolding share_data
share_data_ext t k r q [] x same = refl
share_data_ext t k r q (b ∷ bs) x same =
    rw (same k (omega arith), share_data_ext t (suc k) r q bs x (λ i h. same i (omega arith))) refl

-- The draws of byte `k`, and others for the bytes after it.
one_then : ℕ → (ℕ → ℕ) → (ℕ → ℕ → ℕ) → ℕ → ℕ → ℕ
one_then k first rest i = if i == k then first else rest i

one_then-IsByte :
    (k : ℕ) (first : ℕ → ℕ) (rest : ℕ → ℕ → ℕ)
    → ((j : ℕ) → IsByte (first j))
    → ((i j : ℕ) → IsByte (rest i j))
    → (i j : ℕ) → IsByte (one_then k first rest i j)
unfolding one_then
one_then-IsByte k first rest hf hr i j = ground (arith, hf j, hr i j)

pub hide_bytes :
    (t k : ℕ) (random : ℕ → ℕ → ℕ) (xs : List Byte) (bs cs : Bytes)
    → ((i j : ℕ) → IsByte (random i j))
    → length xs < t
    → All (λ x. x ≢ nil_byte) xs
    → All IsByte bs
    → All IsByte cs
    → length bs ≡ length cs
    → (draws : ℕ → ℕ → ℕ) × ((i j : ℕ) → IsByte (draws i j))
      × ((x : Byte)
          → differences x xs ≡ nil_byte
          → share_data t draws k cs x.0 ≡ share_data t random k bs x.0)
unfolding share_data one_then
hide_bytes t k random xs [] [] bytes few points hb hc size = (random, bytes, λ x root. refl)
hide_bytes t k random xs [] (c ∷ cs) bytes few points hb hc size = absurd (omega arith)
hide_bytes t k random xs (b ∷ bs) [] bytes few points hb hc size = absurd (omega arith)
hide_bytes t k random xs (b ∷ bs) (c ∷ cs) bytes few points hb hc size =
    let first = hide_byte (b, hb.0) (c, hc.0) t (random k) xs (bytes k) few points in
    let rest = hide_bytes t (suc k) random xs bs cs bytes few points hb.1 hc.1 (omega arith) in
    let draws = one_then k first.0 rest.0 in
    let now : draws k ≡ first.0 = rw ((==_iff k k).1 refl) refl in
    let later : (i : ℕ) → suc k ≤ i → draws i ≡ rest.0 i =
      λ i h. let other : (i == k) ≡ false = ground arith in rw other refl in
    (
      draws,
      one_then-IsByte k first.0 rest.0 first.1 rest.1,
      λ x root.
          rw
            (now, share_data_ext t (suc k) draws rest.0 cs x.0 later, first.2 x root, rest.2 x root)
            refl,
    )
