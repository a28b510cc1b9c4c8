-- ===== src/Threshold/Polynomials.antt =====
-- Polynomials over a field of characteristic two, by their coefficients, lowest first.
use shadowgram.Base.{◌≢◌, ℕ, zero, suc, ◌≤◌, ◌≡◌, refl, sym, arith, List, [], ◌∷◌, length}
use shadowgram.Threshold.Algebra.{
  mul-one, Field, ◌⊕◌, ◌⊗◌, add_left_comm, mul_left_comm, add-nil, add_cancel, mul-nil, add-mul,
}

module _ {ℓ} {F : Type ℓ} ⦃k : Field F⦄ where
  unfoldable pub eval : List F → F → F
  eval [] z = k.nil
  eval (c ∷ cs) z = c ⊕ z ⊗ eval cs z

  -- One coefficient more, by Horner's rule and term by term.
  pub horner_step : (s c p x e : F) → (s ⊕ c ⊗ p) ⊕ (p ⊗ x) ⊗ e ≡ s ⊕ p ⊗ (c ⊕ x ⊗ e)
  horner_step s c p x e = simp (k.mul-add, k.add_assoc, k.mul_assoc, k.mul_comm) refl

  pub horner_start : (e : F) → k.nil ⊕ k.one ⊗ e ≡ e
  horner_start e = rw (k.nil-add (k.one ⊗ e)) (k.one-mul e)

  pub horner_end : (s p : F) → s ⊕ p ⊗ k.nil ≡ s
  horner_end s p = rw (mul-nil p) (add-nil s)

  unfoldable pub plus : List F → List F → List F
  plus [] qs = qs
  plus (p ∷ ps) [] = p ∷ ps
  plus (p ∷ ps) (q ∷ qs) = (p ⊕ q) ∷ plus ps qs

  pub scale : F → List F → List F
  scale a [] = []
  scale a (p ∷ ps) = (a ⊗ p) ∷ scale a ps

  pub eval-plus : (ps qs : List F) (z : F) → eval (plus ps qs) z ≡ eval ps z ⊕ eval qs z
  unfolding plus eval
  eval-plus [] qs z = sym (k.nil-add (eval qs z))
  eval-plus (p ∷ ps) [] z = sym (add-nil (eval (p ∷ ps) z))
  eval-plus (p ∷ ps) (q ∷ qs) z =
      rw (eval-plus ps qs z) (simp (k.mul-add, k.add_assoc, k.add_comm) refl)

  pub eval-scale : (a : F) (ps : List F) (z : F) → eval (scale a ps) z ≡ a ⊗ eval ps z
  unfolding scale eval
  eval-scale a [] z = sym (mul-nil a)
  eval-scale a (p ∷ ps) z =
      rw (eval-scale a ps z, k.mul-add a p (z ⊗ eval ps z), mul_left_comm a z (eval ps z)) refl

  pub length-scale : (a : F) (ps : List F) → length (scale a ps) ≡ length ps
  unfolding scale
  length-scale a [] = refl
  length-scale a (p ∷ ps) = omega (arith, length-scale a ps)

  pub length-plus :
      (n : ℕ) (ps qs : List F) → length ps ≤ n → length qs ≤ n → length (plus ps qs) ≤ n
  unfolding plus
  length-plus n [] qs h i = i
  length-plus n (p ∷ ps) [] h i = h
  length-plus zero (p ∷ ps) (q ∷ qs) h i = absurd (omega arith)
  length-plus (suc n) (p ∷ ps) (q ∷ qs) h i =
      omega (arith, length-plus n ps qs (omega arith) (omega arith))

  -- The product over some nodes of the differences with a point.
  unfoldable pub differences : F → List F → F
  differences z [] = k.one
  differences z (x ∷ xs) = (z ⊕ x) ⊗ differences z xs

  -- The coefficients of that product.
  pub node_poly : List F → List F
  node_poly [] = k.one ∷ []
  node_poly (x ∷ xs) = plus (k.nil ∷ node_poly xs) (scale x (node_poly xs))

  pub eval-node_poly : (xs : List F) (z : F) → eval (node_poly xs) z ≡ differences z xs
  unfolding node_poly eval differences
  eval-node_poly [] z = rw (mul-nil z) (add-nil k.one)
  eval-node_poly (x ∷ xs) z =
      rw
        (
          eval-plus (k.nil ∷ node_poly xs) (scale x (node_poly xs)) z,
          eval-scale x (node_poly xs) z,
          k.nil-add (z ⊗ eval (node_poly xs) z),
          eval-node_poly xs z,
        )
        (sym (add-mul z x (differences z xs)))

  pub length-node_poly : (xs : List F) → length (node_poly xs) ≤ suc (length xs)
  unfolding node_poly
  length-node_poly [] = omega arith
  length-node_poly (x ∷ xs) =
      length-plus (suc (suc (length xs))) (k.nil ∷ node_poly xs) (scale x (node_poly xs))
        (omega (arith, length-node_poly xs))
        (omega (arith, length-node_poly xs, length-scale x (node_poly xs)))

  -- The quotient by `z + r` of a polynomial with these higher coefficients.
  quotient : List F → F → List F
  quotient [] r = []
  quotient (c ∷ cs) r = eval (c ∷ cs) r ∷ quotient cs r

  length-quotient : (cs : List F) (r : F) → length (quotient cs r) ≡ length cs
  unfolding quotient
  length-quotient [] r = refl
  length-quotient (c ∷ cs) r = omega (arith, length-quotient cs r)

  divide : (c e q r z : F) → c ⊕ z ⊗ (e ⊕ (z ⊕ r) ⊗ q) ≡ (c ⊕ r ⊗ e) ⊕ (z ⊕ r) ⊗ (e ⊕ z ⊗ q)
  divide c e q r z =
      simp
        (
          k.mul-add, add-mul, k.add_assoc, k.add_comm, add_left_comm, k.mul_assoc, k.mul_comm,
          mul_left_comm, add_cancel,
        )
        refl

  eval-quotient :
      (c : F) (cs : List F) (r z : F)
      → eval (c ∷ cs) z ≡ eval (c ∷ cs) r ⊕ (z ⊕ r) ⊗ eval (quotient cs r) z
  unfolding quotient eval
  eval-quotient c [] r z = simp (mul-nil, add-nil) refl
  eval-quotient c (d ∷ ds) r z =
      rw (eval-quotient d ds r z) (divide c (d ⊕ r ⊗ eval ds r) (eval (quotient ds r) z) r z)

  -- A polynomial with a root is a multiple of the difference with it.
  pub factor :
      (n : ℕ) (ps : List F) (r : F)
      → length ps ≤ suc n
      → eval ps r ≡ k.nil
      → (qs : List F) × (length qs ≤ n) × ((z : F) → eval ps z ≡ (z ⊕ r) ⊗ eval qs z)
  unfolding eval
  factor n [] r h root = ([], omega arith, λ z. sym (mul-nil (z ⊕ r)))
  factor n (c ∷ cs) r h root = (
    quotient cs r,
    omega (arith, length-quotient cs r),
    λ z. rw (eval-quotient c cs r z, root) (k.nil-add ((z ⊕ r) ⊗ eval (quotient cs r) z)),
  )

  -- The part of a polynomial that vanishes at a point, and a multiple of the differences with
  -- the other points.
  pub peel :
      (x : F) (xs ps : List F)
      → differences x xs ≢ k.nil
      → length ps ≤ suc (length xs)
      → (a : F) × (qs : List F) × (length qs ≤ length xs)
        × ((z : F) → eval ps z ≡ (z ⊕ x) ⊗ eval qs z ⊕ a ⊗ differences z xs)
  peel x xs ps apart h =
      let a = eval ps x ⊗ k.inv (differences x xs) in
      let nodes = scale a (node_poly xs) in
      let value : (z : F) → eval (plus ps nodes) z ≡ eval ps z ⊕ a ⊗ differences z xs =
        λ z. rw (eval-plus ps nodes z, eval-scale a (node_poly xs) z, eval-node_poly xs z) refl in
      let root : eval (plus ps nodes) x ≡ k.nil =
        rw
          (
            value x,
            k.mul_assoc (eval ps x) (k.inv (differences x xs)) (differences x xs),
            k.mul_comm (k.inv (differences x xs)) (differences x xs),
            k.mul-inv (differences x xs) apart,
            mul-one (eval ps x),
          )
          (k.add_self (eval ps x)) in
      let degree : length (plus ps nodes) ≤ suc (length xs) =
        length-plus (suc (length xs)) ps nodes h
          (omega (arith, length-scale a (node_poly xs), length-node_poly xs)) in
      let found = factor (length xs) (plus ps nodes) x degree root in
      (
        a,
        found.0,
        found.1,
        λ z.
            rw
              (
                ← found.2 z,
                value z,
                k.add_comm (eval ps z) (a ⊗ differences z xs),
                k.add_comm (a ⊗ differences z xs ⊕ eval ps z) (a ⊗ differences z xs),
              )
              (sym (add_cancel (a ⊗ differences z xs) (eval ps z))),
      )
