-- ===== src/Threshold/Field.antt =====
-- crates/identity/src/threshold.rs: the operations of GF(256) satisfy the laws of a field, and
-- the search of gf_inv finds the inverse.
use native.Mathlib.Nat.{pow-suc, pow-le-pow_right}
use shadowgram.Base.{
  zero, ◌≢◌, ltb→lt, Bool, ==_iff, ltb, ℕ, suc, ◌<◌, ◌≤◌, ◌^◌, ◌≡◌, refl, true, ◌==◌, arith,
}
use shadowgram.Threshold.Gf.{gf_mul, gf_mul_rounds, gf_double, gf_inv, gf_inv_from}
use shadowgram.Threshold.Linear.{
  all_below_sound, all_below, linear_ext, IsLinear, gf_mul-xor_left, gf_mul-xor_right, gf_mul-lt,
}

comm_table :
    all_below 8 (λ i. all_below 8 (λ j. gf_mul (2 ^ i) (2 ^ j) == gf_mul (2 ^ j) (2 ^ i))) ≡ true
unfolding all_below gf_mul gf_mul_rounds gf_double
comm_table = refl

assoc_table :
    all_below 8 (λ i. all_below 8 (λ j.
      all_below 8
        (λ k. gf_mul (gf_mul (2 ^ i) (2 ^ j)) (2 ^ k) == gf_mul (2 ^ i) (gf_mul (2 ^ j) (2 ^ k)))))
    ≡ true
unfolding all_below gf_mul gf_mul_rounds gf_double
assoc_table = refl

one_table : all_below 256 (λ a. gf_mul 1 a == a) ≡ true
unfolding all_below gf_mul gf_mul_rounds gf_double
one_table = refl

inverse_table : all_below 255 (λ n. gf_mul (suc n) (gf_inv (suc n)) == 1) ≡ true
unfolding all_below gf_mul gf_mul_rounds gf_double gf_inv gf_inv_from
inverse_table = refl

inverse_small : all_below 256 (λ n. ltb (gf_inv n) 256) ≡ true
unfolding all_below gf_mul gf_mul_rounds gf_double gf_inv gf_inv_from
inverse_small = refl

power-lt : (i : ℕ) → i < 8 → 2 ^ i < 256
power-lt i h =
    let fits : 2 ^ suc i ≤ 256 = pow-le-pow_right {n = 2} (omega arith) h in
    omega (arith, pow-suc 2 i)

left_IsLinear : (b : ℕ) → IsLinear (λ a. gf_mul a b)
left_IsLinear b a c h k = gf_mul-xor_left a c b h k

right_IsLinear : (a : ℕ) → IsLinear (gf_mul a)
right_IsLinear a b c h k = gf_mul-xor_right a b c

-- Two factors after one, as functions of the first and of the last.
twice_IsLinear : (b c : ℕ) → IsLinear (λ a. gf_mul (gf_mul a b) c)
twice_IsLinear b c x y h k =
    rw (gf_mul-xor_left x y b h k)
      (gf_mul-xor_left (gf_mul x b) (gf_mul y b) c (gf_mul-lt x b h) (gf_mul-lt y b k))

inner_IsLinear : (a c : ℕ) → a < 256 → IsLinear (λ b. gf_mul (gf_mul a b) c)
inner_IsLinear a c p x y h k =
    rw (gf_mul-xor_right a x y)
      (gf_mul-xor_left (gf_mul a x) (gf_mul a y) c (gf_mul-lt a x p) (gf_mul-lt a y p))

outer_IsLinear : (a b : ℕ) → IsLinear (λ c. gf_mul a (gf_mul b c))
outer_IsLinear a b x y h k =
    rw (gf_mul-xor_right b x y) (gf_mul-xor_right a (gf_mul b x) (gf_mul b y))

middle_IsLinear : (a c : ℕ) → IsLinear (λ b. gf_mul a (gf_mul b c))
middle_IsLinear a c x y h k =
    rw (gf_mul-xor_left x y c h k) (gf_mul-xor_right a (gf_mul x c) (gf_mul y c))

-- Each table, at a place.
comm_basis : (i j : ℕ) → i < 8 → j < 8 → gf_mul (2 ^ i) (2 ^ j) ≡ gf_mul (2 ^ j) (2 ^ i)
comm_basis i j p q = (==_iff _ _).0 (
    all_below_sound 8 (λ j. gf_mul (2 ^ i) (2 ^ j) == gf_mul (2 ^ j) (2 ^ i))
      (all_below_sound 8 (λ i. all_below 8 (λ j. gf_mul (2 ^ i) (2 ^ j) == gf_mul (2 ^ j) (2 ^ i)))
        comm_table i p)
      j q)

assoc_basis :
    (i j k : ℕ)
    → i < 8
    → j < 8
    → k < 8
    → gf_mul (gf_mul (2 ^ i) (2 ^ j)) (2 ^ k) ≡ gf_mul (2 ^ i) (gf_mul (2 ^ j) (2 ^ k))
assoc_basis i j k p q r =
    let test : ℕ → ℕ → ℕ → Bool =
      λ i j k. gf_mul (gf_mul (2 ^ i) (2 ^ j)) (2 ^ k) == gf_mul (2 ^ i) (gf_mul (2 ^ j) (2 ^ k)) in
    (==_iff _ _).0 (
      all_below_sound 8 (test i j)
        (all_below_sound 8 (λ j. all_below 8 (test i j))
          (all_below_sound 8 (λ i. all_below 8 (λ j. all_below 8 (test i j))) assoc_table i p) j q)
        k r)

comm_power : (i : ℕ) → i < 8 → (b : ℕ) → b < 256 → gf_mul (2 ^ i) b ≡ gf_mul b (2 ^ i)
comm_power i h =
    linear_ext (gf_mul (2 ^ i)) (λ b. gf_mul b (2 ^ i)) (right_IsLinear (2 ^ i))
      (left_IsLinear (2 ^ i)) (λ j. comm_basis i j h)

pub gf_mul_comm : (a b : ℕ) → a < 256 → b < 256 → gf_mul a b ≡ gf_mul b a
gf_mul_comm a b p q =
    linear_ext (λ a. gf_mul a b) (gf_mul b) (left_IsLinear b) (right_IsLinear b)
      (λ i h. comm_power i h b q) a p

-- Associativity, one factor after the other, from the powers of two.
assoc_two :
    (i j : ℕ)
    → i < 8
    → j < 8
    → (c : ℕ) → c < 256
    → gf_mul (gf_mul (2 ^ i) (2 ^ j)) c ≡ gf_mul (2 ^ i) (gf_mul (2 ^ j) c)
assoc_two i j p q =
    linear_ext (gf_mul (gf_mul (2 ^ i) (2 ^ j))) (λ c. gf_mul (2 ^ i) (gf_mul (2 ^ j) c))
      (right_IsLinear _) (outer_IsLinear (2 ^ i) (2 ^ j)) (λ k r. assoc_basis i j k p q r)

assoc_one :
    (i : ℕ)
    → i < 8
    → (c : ℕ) → c < 256
    → (b : ℕ) → b < 256
    → gf_mul (gf_mul (2 ^ i) b) c ≡ gf_mul (2 ^ i) (gf_mul b c)
assoc_one i p c r =
    linear_ext (λ b. gf_mul (gf_mul (2 ^ i) b) c) (λ b. gf_mul (2 ^ i) (gf_mul b c))
      (inner_IsLinear (2 ^ i) c (power-lt i p)) (middle_IsLinear (2 ^ i) c)
      (λ j q. assoc_two i j p q c r)

pub gf_mul_assoc :
    (a b c : ℕ) → a < 256 → b < 256 → c < 256 → gf_mul (gf_mul a b) c ≡ gf_mul a (gf_mul b c)
gf_mul_assoc a b c p q r =
    linear_ext (λ a. gf_mul (gf_mul a b) c) (λ a. gf_mul a (gf_mul b c)) (twice_IsLinear b c)
      (left_IsLinear (gf_mul b c)) (λ i h. assoc_one i h c r b q) a p

pub one-gf_mul : (a : ℕ) → a < 256 → gf_mul 1 a ≡ a
one-gf_mul a h = (==_iff _ _).0 (all_below_sound 256 (λ a. gf_mul 1 a == a) one_table a h)

pub gf_mul-gf_inv : (a : ℕ) → a < 256 → a ≢ 0 → gf_mul a (gf_inv a) ≡ 1
gf_mul-gf_inv zero h ne = absurd (ne refl)
gf_mul-gf_inv (suc n) h ne =
    (==_iff _ _).0 (
      all_below_sound 255 (λ n. gf_mul (suc n) (gf_inv (suc n)) == 1) inverse_table n (omega arith))

pub gf_inv-lt : (a : ℕ) → a < 256 → gf_inv a < 256
gf_inv-lt a h = ltb→lt _ _ (all_below_sound 256 (λ a. ltb (gf_inv a) 256) inverse_small a h)
