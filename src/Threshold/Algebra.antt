-- ===== src/Threshold/Algebra.antt =====
-- Fields of characteristic two, as an interface, and polynomials over them by their coefficients.
use shadowgram.Base.{◌∙◌, ◌≡◌, ◌≢◌, ◌⊎◌, inl, inr, sym, ap}

-- A field in which every element is its own opposite; the inverse of zero is zero.
pub record Field {ℓ} (F : Type ℓ) : Type ℓ where
  pub nil : F
  pub one : F
  pub add : F → F → F
  pub mul : F → F → F
  pub inv : F → F
  pub add_comm : (a b : F) → add a b ≡ add b a
  pub add_assoc : (a b c : F) → add (add a b) c ≡ add a (add b c)
  pub nil-add : (a : F) → add nil a ≡ a
  pub add_self : (a : F) → add a a ≡ nil
  pub mul_comm : (a b : F) → mul a b ≡ mul b a
  pub mul_assoc : (a b c : F) → mul (mul a b) c ≡ mul a (mul b c)
  pub one-mul : (a : F) → mul one a ≡ a
  pub mul-add : (a b c : F) → mul a (add b c) ≡ add (mul a b) (mul a c)
  pub mul-inv : (a : F) → a ≢ nil → mul a (inv a) ≡ one
  pub inv-nil : inv nil ≡ nil
  pub dec_nil : (a : F) → (a ≡ nil) ⊎ (a ≢ nil)

module _ {ℓ} {F : Type ℓ} ⦃k : Field F⦄ where
  infixl 65 ◌⊕◌
  infixl 70 ◌⊗◌
  abbrev pub ◌⊕◌ : F → F → F
  a ⊕ b = k.add a b

  abbrev pub ◌⊗◌ : F → F → F
  a ⊗ b = k.mul a b

  pub add_left_comm : (a b c : F) → a ⊕ (b ⊕ c) ≡ b ⊕ (a ⊕ c)
  add_left_comm a b c = rw (← k.add_assoc a b c, k.add_comm a b) (k.add_assoc b a c)

  pub mul_left_comm : (a b c : F) → a ⊗ (b ⊗ c) ≡ b ⊗ (a ⊗ c)
  mul_left_comm a b c = rw (← k.mul_assoc a b c, k.mul_comm a b) (k.mul_assoc b a c)

  pub add-nil : (a : F) → a ⊕ k.nil ≡ a
  add-nil a = rw (k.add_comm a k.nil) (k.nil-add a)

  pub add_cancel : (a b : F) → a ⊕ (a ⊕ b) ≡ b
  add_cancel a b = rw (← k.add_assoc a a b, k.add_self a) (k.nil-add b)

  pub mul-nil : (a : F) → a ⊗ k.nil ≡ k.nil
  mul-nil a =
      ap (λ b. a ⊗ b) (sym (k.nil-add k.nil)) ∙ k.mul-add a k.nil k.nil ∙ k.add_self (a ⊗ k.nil)

  pub nil-mul : (a : F) → k.nil ⊗ a ≡ k.nil
  nil-mul a = rw (k.mul_comm k.nil a) (mul-nil a)

  pub add-mul : (a b c : F) → (a ⊕ b) ⊗ c ≡ a ⊗ c ⊕ b ⊗ c
  add-mul a b c = rw (k.mul_comm (a ⊕ b) c, k.mul_comm a c, k.mul_comm b c) (k.mul-add c a b)

  -- Two elements whose sum is zero are the same.
  pub add_nil_eq : (a b : F) → a ⊕ b ≡ k.nil → a ≡ b
  add_nil_eq a b h = rw (← add_cancel b a, k.add_comm b a, h) (add-nil b)

  pub mul-one : (a : F) → a ⊗ k.one ≡ a
  mul-one a = rw (k.mul_comm a k.one) (k.one-mul a)

  pub mul-ne_nil : (a b : F) → a ≢ k.nil → b ≢ k.nil → a ⊗ b ≢ k.nil
  mul-ne_nil a b ha hb h =
      let vanishes : a ⊗ (b ⊗ k.inv b) ≡ k.nil =
        rw (← k.mul_assoc a b (k.inv b), h) (nil-mul (k.inv b)) in
      ha (cc (vanishes, k.mul-inv b hb, mul-one a))

  inv_unique : (a b : F) → a ≢ k.nil → a ⊗ b ≡ k.one → k.inv a ≡ b
  inv_unique a b ha h =
      let through : k.inv a ⊗ (a ⊗ b) ≡ b =
        rw (← k.mul_assoc (k.inv a) a b, k.mul_comm (k.inv a) a, k.mul-inv a ha) (k.one-mul b) in
      cc (through, h, mul-one (k.inv a))

  -- The inverse of a product is the product of the inverses, zero included.
  pub inv-mul : (a b : F) → k.inv (a ⊗ b) ≡ k.inv a ⊗ k.inv b
  inv-mul a b = elim (k.dec_nil a) [
    | inl za ↦ rw (za, nil-mul b, k.inv-nil) (sym (nil-mul (k.inv b)))
    | inr na ↦ elim (k.dec_nil b) [
      | inl zb ↦ rw (zb, mul-nil a, k.inv-nil) (sym (mul-nil (k.inv a)))
      | inr nb ↦ inv_unique (a ⊗ b) (k.inv a ⊗ k.inv b) (mul-ne_nil a b na nb) (
          rw
            (
              k.mul_assoc a b,
              mul_left_comm b (k.inv a) (k.inv b),
              k.mul-inv b nb,
              mul-one (k.inv a),
            )
            (k.mul-inv a na))
    ]
  ]
