-- ===== src/Threshold/Interpolation.antt =====
-- Lagrange interpolation at zero over a field of characteristic two: the values of a polynomial
-- at more distinct points than its degree determine its constant coefficient.
use shadowgram.Threshold.Algebra.{
  Field, ◌⊕◌, ◌⊗◌, mul_left_comm, add-nil, mul-nil, nil-mul, mul-one, add_nil_eq, mul-ne_nil,
  inv-mul,
}
use shadowgram.Threshold.Polynomials.{eval, differences, peel}
use shadowgram.Base.{All-zip, arith, refl, [], ◌≤◌, sym, length, All-map, ◌≢◌, ◌≡◌, ◌∷◌, All, List}

module _ {ℓ} {F : Type ℓ} ⦃k : Field F⦄ where
  -- The sum over the nodes of a term of the node and the others.
  unfoldable pub sum_picks : (F → List F → F) → List F → F
  sum_picks h [] = k.nil
  sum_picks h (x ∷ xs) = h x xs ⊕ sum_picks (λ y others. h y (x ∷ others)) xs

  pub sum_picks_ext :
      (P : F → Type ℓ) (h g : F → List F → F)
      → ((y : F) (others : List F) → P y → h y others ≡ g y others)
      → (xs : List F) → All P xs
      → sum_picks h xs ≡ sum_picks g xs
  unfolding sum_picks
  sum_picks_ext P h g same [] all = refl
  sum_picks_ext P h g same (x ∷ xs) all =
      rw
        (
          same x xs all.0,
          sum_picks_ext P (λ y others. h y (x ∷ others)) (λ y others. g y (x ∷ others))
              (λ y others. same y (x ∷ others)) xs all.1,
        )
        refl

  sum_picks_scale :
      (a : F) (h : F → List F → F) (xs : List F)
      → sum_picks (λ y others. a ⊗ h y others) xs ≡ a ⊗ sum_picks h xs
  unfolding sum_picks
  sum_picks_scale a h [] = sym (mul-nil a)
  sum_picks_scale a h (x ∷ xs) =
      rw (sum_picks_scale a (λ y others. h y (x ∷ others)) xs)
        (sym (k.mul-add a (h x xs) (sum_picks (λ y others. h y (x ∷ others)) xs)))

  -- The weight of a node among others, at zero.
  unfoldable pub weight : F → List F → F
  weight y others = differences k.nil others ⊗ k.inv (differences y others)

  abbrev pub AreDistinct : List F → Type ℓ
  AreDistinct [] = Unit
  AreDistinct (x ∷ xs) = All (λ y. y ≢ x) xs × AreDistinct xs

  pub differences-ne_nil :
      (x : F) (xs : List F) → k.one ≢ k.nil → All (λ y. y ≢ x) xs → differences x xs ≢ k.nil
  unfolding differences
  differences-ne_nil x [] apart all = apart
  differences-ne_nil x (y ∷ ys) apart all =
      mul-ne_nil (x ⊕ y) (differences x ys) (λ e. all.0 (sym (add_nil_eq x y e)))
        (differences-ne_nil x ys apart all.1)

  -- A node is a root of the product of the differences with all.
  pub differences-nodes : (xs : List F) → All (λ y. differences y xs ≡ k.nil) xs
  unfolding differences
  differences-nodes [] = tt
  differences-nodes (x ∷ xs) = (
    rw (k.add_self x) (nil-mul (differences x xs)),
    All-map (λ y. differences y xs ≡ k.nil) (λ y. (y ⊕ x) ⊗ differences y xs ≡ k.nil)
        (λ y e. rw e (mul-nil (y ⊕ x))) xs (differences-nodes xs),
  )

  gather : (u v q x p w : F) → (u ⊗ q) ⊗ ((x ⊗ p) ⊗ (v ⊗ w)) ≡ (u ⊗ v) ⊗ (x ⊗ (q ⊗ (p ⊗ w)))
  gather u v q x p w = simp (k.mul_assoc, k.mul_comm, mul_left_comm) refl

  -- The term of a node other than `x` when `x` is one of the others.
  term-peeled :
      (x y q : F) (others : List F)
      → y ≢ x
      → ((y ⊕ x) ⊗ q) ⊗ weight y (x ∷ others) ≡ x ⊗ (q ⊗ weight y others)
  unfolding weight differences
  term-peeled x y q others ne =
      let apart : y ⊕ x ≢ k.nil = λ e. ne (add_nil_eq y x e) in
      rw
        (
          k.nil-add x,
          inv-mul (y ⊕ x) (differences y others),
          gather (y ⊕ x) (k.inv (y ⊕ x)) q x (differences k.nil others)
              (k.inv (differences y others)),
          k.mul-inv (y ⊕ x) apart,
        )
        (k.one-mul (x ⊗ (q ⊗ (differences k.nil others ⊗ k.inv (differences y others)))))

  -- The term of the node that is peeled off.
  term-first :
      (x a : F) (xs : List F)
      → differences x xs ≢ k.nil
      → (a ⊗ differences x xs) ⊗ weight x xs ≡ a ⊗ differences k.nil xs
  unfolding weight
  term-first x a xs apart =
      rw
        (
          k.mul_assoc a (differences x xs),
          mul_left_comm (differences x xs) (differences k.nil xs) (k.inv (differences x xs)),
          k.mul-inv (differences x xs) apart,
          mul-one (differences k.nil xs),
        )
        refl

  pub interpolation :
      (xs ps : List F)
      → k.one ≢ k.nil
      → AreDistinct xs
      → length ps ≤ length xs
      → sum_picks (λ y others. eval ps y ⊗ weight y others) xs ≡ eval ps k.nil
  unfolding sum_picks eval
  interpolation [] [] apart distinct h = refl
  interpolation [] (p ∷ ps) apart distinct h = absurd (omega arith)
  interpolation (x ∷ xs) ps apart distinct h =
      let parts = peel x xs ps (differences-ne_nil x xs apart distinct.0) h in
      let nonzero = differences-ne_nil x xs apart distinct.0 in
      let a = parts.0 in
      let qs = parts.1 in
      let first : eval ps x ≡ a ⊗ differences x xs =
        rw (parts.3 x, k.add_self x, nil-mul (eval qs x)) (k.nil-add (a ⊗ differences x xs)) in
      let others : sum_picks (λ y others. eval ps y ⊗ weight y (x ∷ others)) xs
          ≡ sum_picks (λ y others. x ⊗ (eval qs y ⊗ weight y others)) xs =
        sum_picks_ext (λ y. (y ≢ x) × (differences y xs ≡ k.nil))
          (λ y others. eval ps y ⊗ weight y (x ∷ others))
          (λ y others. x ⊗ (eval qs y ⊗ weight y others))
          (λ y others node.
            rw (parts.3 y, node.1, mul-nil a, add-nil ((y ⊕ x) ⊗ eval qs y))
              (term-peeled x y (eval qs y) others node.0))
          xs
          (All-zip (λ y. y ≢ x) (λ y. differences y xs ≡ k.nil) xs distinct.0
            (differences-nodes xs)) in
      rw
        (
          first,
          term-first x a xs nonzero,
          others,
          sum_picks_scale x (λ y others. eval qs y ⊗ weight y others) xs,
          interpolation xs qs apart distinct.1 parts.2,
          parts.3 k.nil,
          k.nil-add x,
        )
        (k.add_comm (a ⊗ differences k.nil xs) (x ⊗ eval qs k.nil))
