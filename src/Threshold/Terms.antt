-- ===== src/Threshold/Terms.antt =====
-- crates/identity/src/threshold.rs: the loops of reconstruct_byte compute Lagrange's formula at
-- zero, and the loop of eval_polynomial the value of a polynomial.
use shadowgram.Base.{
  ◌∙◌, ℕ, suc, ◌+◌, ◌<◌, ◌≡◌, refl, sym, ap, arith, List, [], ◌∷◌, ◌++◌, length, All, map,
  append_assoc, true, false, ◌==◌, length-append,
}
use shadowgram.Threshold.Algebra.{◌⊕◌, ◌⊗◌, mul-one, add-nil}
use shadowgram.Threshold.Polynomials.{horner_step, horner_start, horner_end, eval, differences}
use shadowgram.Threshold.Interpolation.{sum_picks, sum_picks_ext, weight}
use shadowgram.Threshold.ByteField.{Byte, gf_Field, nil_byte, one_byte}
use shadowgram.Threshold.Sharing.{eval_terms, eval_polynomial, lagrange_terms, reconstruct_terms}

-- The indices and the values of a function there.
unfoldable pub pairs : (Byte → Byte) → List Byte → List (ℕ × ℕ)
pairs f [] = []
pairs f (x ∷ xs) = (x.0, (f x).0) ∷ pairs f xs

pub length-pairs : (f : Byte → Byte) (xs : List Byte) → length (pairs f xs) ≡ length xs
unfolding pairs
length-pairs f [] = refl
length-pairs f (x ∷ xs) = omega (arith, length-pairs f xs)

abbrev products : Byte → List Byte → Byte → Byte → ℕ × ℕ
products x others num den = ((num ⊗ differences nil_byte others).0, (den ⊗ differences x others).0)

-- One factor more in front.
products_step :
    (x y : Byte) (others : List Byte) (num den : Byte)
    → products x others (num ⊗ (nil_byte ⊕ y)) (den ⊗ (x ⊕ y)) ≡ products x (y ∷ others) num den
unfolding differences
products_step x y others num den = λ i. (
  (gf_Field.mul_assoc num (nil_byte ⊕ y) (differences nil_byte others) i).0,
  (gf_Field.mul_assoc den (x ⊕ y) (differences x others) i).0,
)

-- Past the share itself every share is a factor.
lagrange_past :
    (i j : ℕ) (x : Byte) (f : Byte → Byte) (xs : List Byte) (num den : Byte)
    → i < j
    → lagrange_terms i x.0 j (pairs f xs) num.0 den.0 ≡ products x xs num den
unfolding lagrange_terms pairs differences
lagrange_past i j x f [] num den h = λ i. ((sym (mul-one num) i).0, (sym (mul-one den) i).0)
lagrange_past i j x f (y ∷ ys) num den h =
    let other : (i == j) ≡ false = ground arith in
    rw other (
      lagrange_past i (suc j) x f ys (num ⊗ (nil_byte ⊕ y)) (den ⊗ (x ⊕ y)) (omega arith)
      ∙ products_step x y ys num den)

-- The share itself is left out.
lagrange_through :
    (i j : ℕ) (x : Byte) (f : Byte → Byte) (pre post : List Byte) (num den : Byte)
    → i ≡ j + length pre
    → lagrange_terms i x.0 j (pairs f (pre ++ x ∷ post)) num.0 den.0
      ≡ products x (pre ++ post) num den
unfolding lagrange_terms pairs
lagrange_through i j x f [] post num den h =
    let here : (i == j) ≡ true = ground arith in
    rw here (lagrange_past i (suc j) x f post num den (omega arith))
lagrange_through i j x f (y ∷ ys) post num den h =
    let other : (i == j) ≡ false = ground arith in
    rw other (
      lagrange_through i (suc j) x f ys post (num ⊗ (nil_byte ⊕ y)) (den ⊗ (x ⊕ y)) (omega arith)
      ∙ products_step x y (ys ++ post) num den)

All-unit : (xs : List Byte) → All (λ x. Unit {0}) xs
All-unit [] = tt
All-unit (x ∷ xs) = (tt, All-unit xs)

-- One share's term.
reconstruct_share :
    (f : Byte → Byte) (pre post : List Byte) (x : Byte)
    → lagrange_terms (length pre) x.0 0 (pairs f (pre ++ x ∷ post)) 1 1
      ≡ ((differences nil_byte (pre ++ post)).0, (differences x (pre ++ post)).0)
reconstruct_share f pre post x =
    lagrange_through (length pre) 0 x f pre post one_byte one_byte (omega arith) ∙ (λ i. (
      (gf_Field.one-mul (differences nil_byte (pre ++ post)) i).0,
      (gf_Field.one-mul (differences x (pre ++ post)) i).0,
    ))

pub reconstruct_terms_from :
    (f : Byte → Byte) (pre rest : List Byte) (result : Byte)
    → reconstruct_terms (pairs f (pre ++ rest)) (length pre) (pairs f rest) result.0
      ≡ (result ⊕ sum_picks (λ y others. f y ⊗ weight y (pre ++ others)) rest).0
unfolding reconstruct_terms pairs sum_picks weight
reconstruct_terms_from f pre [] result = λ i. (sym (add-nil result) i).0
reconstruct_terms_from f pre (x ∷ post) result =
    let added = result ⊕ f x ⊗ weight x (pre ++ post) in
    let here : pre ++ x ∷ post ≡ (pre ++ x ∷ []) ++ post = sym (append_assoc pre (x ∷ []) post) in
    let size : length (pre ++ x ∷ []) ≡ suc (length pre) =
      omega (arith, length-append pre (x ∷ [])) in
    let rest : sum_picks (λ y others. f y ⊗ weight y ((pre ++ x ∷ []) ++ others)) post
        ≡ sum_picks (λ y others. f y ⊗ weight y (pre ++ x ∷ others)) post =
      sum_picks_ext (λ y. Unit) (λ y others. f y ⊗ weight y ((pre ++ x ∷ []) ++ others))
        (λ y others. f y ⊗ weight y (pre ++ x ∷ others))
        (λ y others h. rw (append_assoc pre (x ∷ []) others) refl) post (All-unit post) in
    let next : reconstruct_terms (pairs f (pre ++ x ∷ post)) (suc (length pre)) (pairs f post)
          added.0
        ≡ (added ⊕ sum_picks (λ y others. f y ⊗ weight y (pre ++ x ∷ others)) post).0 =
      rw (here, ← size) (reconstruct_terms_from f (pre ++ x ∷ []) post added)
      ∙ ap (λ (s : Byte). (added ⊕ s).0) rest in
    rw (reconstruct_share f pre post x, reconstruct_terms)
      (next
        ∙ ap (λ (b : Byte). b.0)
            (gf_Field.add_assoc result (f x ⊗ weight x (pre ++ post))
              (sum_picks (λ y others. f y ⊗ weight y (pre ++ x ∷ others)) post)))

-- eval_polynomial multiplies out what Horner's rule nests.
eval_terms_from :
    (cs : List Byte) (x result x_power : Byte)
    → eval_terms (map (λ b. b.0) cs) x.0 result.0 x_power.0 ≡ (result ⊕ x_power ⊗ eval cs x).0
unfolding eval_terms eval
eval_terms_from [] x result x_power = λ i. (sym (horner_end result x_power) i).0
eval_terms_from (c ∷ cs) x result x_power =
    eval_terms_from cs x (result ⊕ c ⊗ x_power) (x_power ⊗ x)
    ∙ (λ i. (horner_step result c x_power x (eval cs x) i).0)

pub eval_polynomial_lem :
    (cs : List Byte) (x : Byte) → eval_polynomial (map (λ b. b.0) cs) x.0 ≡ (eval cs x).0
unfolding eval_polynomial
eval_polynomial_lem cs x =
    eval_terms_from cs x nil_byte one_byte ∙ (λ i. (horner_start (eval cs x) i).0)
