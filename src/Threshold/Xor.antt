-- ===== src/Threshold/Xor.antt =====
-- Laws of exclusive or on the native numbers, from its equation for the lowest digit.
use Prim.Native.Nat.{bit_xor, bit_and, digits, differ, bit_xor-bitwise, bit_and-bitwise}
use native.Mathlib.Nat.{pow-suc}
use shadowgram.Base.{
  inr, leb→le, inl, leb, ◌∙◌, Bool-cases, ℕ, zero, suc, ◌+◌, ◌*◌, ◌/◌, ◌%◌, ◌^◌, ◌≤◌, ◌<◌, min, ◌≡◌,
  refl, sym, ap, arith,
}

-- `digits` counts down the digits that it may still read, and one more than a number has makes no
-- difference.
module _ (past : ℕ → ℕ) (op : ℕ → ℕ → ℕ) where
  one_more : (count x y : ℕ) → x ≤ count → digits past op (suc count) x y ≡ digits past op count x y
  one_more (suc count) (suc x) y enough =
      let halves = one_more count (suc x / 2) (y / 2) (omega arith) in
      ap (λ high. high * 2 + op (suc x % 2) (y % 2)) halves
  one_more (suc count) zero y enough = refl
  one_more zero zero y enough = refl
  one_more zero (suc x) y enough = absurd (omega arith)

  -- So a count above the number can be lowered to the number.
  lower_count : (count x y : ℕ) → x ≤ count → digits past op count x y ≡ digits past op x x y
  lower_count zero zero y enough = refl
  lower_count zero (suc x) y enough = absurd (omega arith)
  lower_count (suc count) x y enough = elim (Bool-cases (leb x count)) [
    | inl below ↦
        let fits = leb→le x count below in one_more count x y fits ∙ lower_count count x y fits
    | inr above ↦
        let same : suc count ≡ x = ground arith in ap (λ (n : ℕ). digits past op n x y) same
  ]

-- One digit at a time.
pub bit_xor_step : (a b : ℕ) → bit_xor a b ≡ bit_xor (a / 2) (b / 2) * 2 + differ (a % 2) (b % 2)
bit_xor_step zero b = omega (arith, bit_xor-bitwise 0 b, bit_xor-bitwise 0 (b / 2))
bit_xor_step (suc n) b =
    let lowered = lower_count (λ y. y) differ n (suc n / 2) (b / 2) (omega arith) in
    bit_xor-bitwise (suc n) b
    ∙ ap (λ high. high * 2 + differ (suc n % 2) (b % 2))
        (lowered ∙ sym (bit_xor-bitwise (suc n / 2) (b / 2)))

bit_and_step : (a b : ℕ) → bit_and a b ≡ bit_and (a / 2) (b / 2) * 2 + min (a % 2) (b % 2)
bit_and_step zero b = omega (arith, bit_and-bitwise 0 b, bit_and-bitwise 0 (b / 2))
bit_and_step (suc n) b =
    let lowered = lower_count (λ y. zero) min n (suc n / 2) (b / 2) (omega arith) in
    bit_and-bitwise (suc n) b
    ∙ ap (λ high. high * 2 + min (suc n % 2) (b % 2))
        (lowered ∙ sym (bit_and-bitwise (suc n / 2) (b / 2)))

-- A digit is 0 or 1, and `differ` of two digits is their sum modulo 2.
differ_mod : (a b : ℕ) → a < 2 → b < 2 → differ a b ≡ (a + b) % 2
differ_mod zero zero p q = refl
differ_mod zero (suc zero) p q = refl
differ_mod zero (suc (suc b)) p q = absurd (omega arith)
differ_mod (suc zero) zero p q = refl
differ_mod (suc zero) (suc zero) p q = refl
differ_mod (suc zero) (suc (suc b)) p q = absurd (omega arith)
differ_mod (suc (suc a)) b p q = absurd (omega arith)

pub bit_xor_digits : (a b : ℕ) → bit_xor a b ≡ bit_xor (a / 2) (b / 2) * 2 + (a % 2 + b % 2) % 2
bit_xor_digits a b =
    omega (arith, bit_xor_step a b, differ_mod (a % 2) (b % 2) (omega arith) (omega arith))

pub bit_xor-div : (a b : ℕ) → bit_xor a b / 2 ≡ bit_xor (a / 2) (b / 2)
bit_xor-div a b = omega (arith, bit_xor_digits a b)

pub bit_xor-mod : (a b : ℕ) → bit_xor a b % 2 ≡ (a % 2 + b % 2) % 2
bit_xor-mod a b = omega (arith, bit_xor_digits a b)

pub bit_xor-double : (a b : ℕ) → bit_xor (a * 2) (b * 2) ≡ bit_xor a b * 2
bit_xor-double a b = ground (arith, bit_xor_digits (a * 2) (b * 2))

-- Two numbers whose halves and last digits agree are the same.
digits_ext : (a b : ℕ) → a / 2 ≡ b / 2 → a % 2 ≡ b % 2 → a ≡ b
digits_ext a b p q = omega arith

pub zero-bit_xor : (b : ℕ) → bit_xor 0 b ≡ b
zero-bit_xor b = bit_xor-bitwise 0 b

-- Induction on the digits: from the halves of a number to the number.
module _ (P : ℕ → Type 0) (base : P 0) (step : (n : ℕ) → P (suc n / 2) → P (suc n)) where
  below : (n a : ℕ) → a < n → P a
  below zero a h = absurd (omega arith)
  below (suc n) zero h = base
  below (suc n) (suc a) h = step a (below n (suc a / 2) (omega arith))

  digits_induction : (a : ℕ) → P a
  digits_induction a = below (suc a) a (omega arith)

pub bit_xor-zero : (a : ℕ) → bit_xor a 0 ≡ a
bit_xor-zero =
    digits_induction (λ a. bit_xor a 0 ≡ a) refl λ n ih. omega (arith, bit_xor_digits (suc n) 0)

pub bit_xor_self : (a : ℕ) → bit_xor a a ≡ 0
bit_xor_self =
    digits_induction (λ a. bit_xor a a ≡ 0) refl
      λ n ih. omega (arith, bit_xor_digits (suc n) (suc n))

pub bit_xor_comm : (a b : ℕ) → bit_xor a b ≡ bit_xor b a
bit_xor_comm =
    digits_induction (λ a. (b : ℕ) → bit_xor a b ≡ bit_xor b a)
      (λ b. omega (arith, zero-bit_xor b, bit_xor-zero b))
      λ n ih b. omega (arith, bit_xor_digits (suc n) b, bit_xor_digits b (suc n), ih (b / 2))

pub bit_xor_assoc : (a b c : ℕ) → bit_xor (bit_xor a b) c ≡ bit_xor a (bit_xor b c)
bit_xor_assoc =
    digits_induction (λ a. (b c : ℕ) → bit_xor (bit_xor a b) c ≡ bit_xor a (bit_xor b c))
      (λ b c. simp zero-bit_xor)
      λ n ih b c. digits_ext _ _ (simp bit_xor-div (ih (b / 2) (c / 2))) (
        omega (
          arith,
          bit_xor-mod (bit_xor (suc n) b) c,
          bit_xor-mod (suc n) b,
          bit_xor-mod (suc n) (bit_xor b c),
          bit_xor-mod b c,
        ))

pub bit_xor_interchange :
    (a b c d : ℕ) → bit_xor (bit_xor a b) (bit_xor c d) ≡ bit_xor (bit_xor a c) (bit_xor b d)
bit_xor_interchange a b c d =
    rw (bit_xor_assoc a b, ← bit_xor_assoc b c d, bit_xor_comm b c, bit_xor_assoc c b d)
      (sym (bit_xor_assoc a c (bit_xor b d)))

-- What is below a power of two stays below it.
pub bit_xor-lt : (k a b : ℕ) → a < 2 ^ k → b < 2 ^ k → bit_xor a b < 2 ^ k
bit_xor-lt zero a b p q = ground (arith, zero-bit_xor b)
bit_xor-lt (suc k) a b p q = omega (
  arith,
  bit_xor_digits a b,
  pow-suc 2 k,
  bit_xor-lt k (a / 2) (b / 2) (omega (arith, pow-suc 2 k)) (omega (arith, pow-suc 2 k)),
)

-- The leading digit of a number is apart from the rest.
pub bit_xor_leading : (k r : ℕ) → r < 2 ^ k → bit_xor (2 ^ k) r ≡ 2 ^ k + r
bit_xor_leading zero r p = ground (arith, bit_xor-zero 1)
bit_xor_leading (suc k) r p =
    let half : 2 ^ suc k / 2 ≡ 2 ^ k = omega (arith, pow-suc 2 k) in
    omega (
      arith,
      ap (λ n. bit_xor n (r / 2)) half,
      bit_xor_digits (2 ^ suc k) r,
      pow-suc 2 k,
      bit_xor_leading k (r / 2) (omega (arith, pow-suc 2 k)),
    )

bit_and-zero : (a : ℕ) → bit_and a 0 ≡ 0
bit_and-zero =
    digits_induction (λ a. bit_and a 0 ≡ 0) refl λ n ih. omega (arith, bit_and_step (suc n) 0)

pub bit_and-one : (a : ℕ) → bit_and a 1 ≡ a % 2
bit_and-one a = omega (arith, bit_and_step a 1, bit_and-zero (a / 2))
