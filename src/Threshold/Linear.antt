-- ===== src/Threshold/Linear.antt =====
-- crates/identity/src/threshold.rs: the multiplication of GF(256) distributes over exclusive or
-- on both sides, and such functions are known by their values at the powers of two.
use Prim.Native.Nat.{bit_and, bit_xor}
use mathlib.Core.Path.{subst}
use native.Mathlib.Nat.{pow-suc, pow-le-pow_right}
use shadowgram.Base.{
  ◌-◌, inr, inl, ◌^◌, sym, Bool-cases, ◌≤◌, if◌then◌else◌, ℕ, zero, suc, ◌*◌, ◌/◌, ◌<◌, ◌≡◌, refl,
  arith, Bool, true, ◌&&◌, ◌==◌, ==_iff, ltb, ltb→lt,
}
use shadowgram.Threshold.Xor.{
  bit_xor_leading, bit_xor-mod, bit_and-one, bit_xor_comm, bit_xor_assoc, bit_xor-zero,
  bit_xor_self, bit_xor-div, bit_xor-double, bit_xor_interchange, bit_xor-lt,
}
use shadowgram.Threshold.Gf.{gf_mul_rounds, gf_mul, gf_double}

-- Over a small range, check every value by evaluation.
unfoldable pub all_below : ℕ → (ℕ → Bool) → Bool
all_below zero p = true
all_below (suc n) p = p n && all_below n p

pub all_below_sound : (n : ℕ) (p : ℕ → Bool) → all_below n p ≡ true → (x : ℕ) → x < n → p x ≡ true
unfolding all_below
all_below_sound zero p h x lt = absurd (omega arith)
all_below_sound (suc n) p h x lt =
    ground (arith, λ (e : all_below n p ≡ true). all_below_sound n p e x)

pub byte-lt : (a b : ℕ) → a < 256 → b < 256 → bit_xor a b < 256
byte-lt a b = bit_xor-lt 8 a b

double_table : all_below 256 (λ a. gf_double a == bit_xor (a * 2) (a / 128 * 283)) ≡ true
unfolding all_below gf_double
double_table = refl

double_small : all_below 256 (λ a. ltb (gf_double a) 256) ≡ true
unfolding all_below gf_double
double_small = refl

-- Doubling as a shift and a reduction when a ninth digit appears.
gf_double_lem : (a : ℕ) → a < 256 → gf_double a ≡ bit_xor (a * 2) (a / 128 * 283)
gf_double_lem a h = (==_iff _ _).0 (all_below_sound 256 _ double_table a h)

pub gf_double-lt : (a : ℕ) → a < 256 → gf_double a < 256
gf_double-lt a h = ltb→lt _ _ (all_below_sound 256 _ double_small a h)

high : (a b : ℕ) → bit_xor a b / 128 ≡ bit_xor (a / 128) (b / 128)
high a b =
    let shift : (n : ℕ) → n / 2 / 2 / 2 / 2 / 2 / 2 / 2 ≡ n / 128 = λ n. omega arith in
    rw (← shift (bit_xor a b), ← shift a, ← shift b) (simp bit_xor-div refl)

scaled_digit : (x y : ℕ) → x < 2 → y < 2 → bit_xor x y * 283 ≡ bit_xor (x * 283) (y * 283)
scaled_digit zero zero p q = refl
scaled_digit zero (suc zero) p q = refl
scaled_digit zero (suc (suc y)) p q = absurd (omega arith)
scaled_digit (suc zero) zero p q = refl
scaled_digit (suc zero) (suc zero) p q = refl
scaled_digit (suc zero) (suc (suc y)) p q = absurd (omega arith)
scaled_digit (suc (suc x)) y p q = absurd (omega arith)

pub gf_double-xor :
    (a b : ℕ) → a < 256 → b < 256 → gf_double (bit_xor a b) ≡ bit_xor (gf_double a) (gf_double b)
gf_double-xor a b p q =
    rw
      (
        gf_double_lem a p,
        gf_double_lem b q,
        gf_double_lem (bit_xor a b) (byte-lt a b p q),
        high a b,
        scaled_digit (a / 128) (b / 128) (omega arith) (omega arith),
        ← bit_xor-double a b,
      )
      (bit_xor_interchange (a * 2) (b * 2) (a / 128 * 283) (b / 128 * 283))

-- The accumulator stands beside the product.
gf_mul_rounds_acc :
    (n a b p q : ℕ) → gf_mul_rounds n a b (bit_xor p q) ≡ bit_xor p (gf_mul_rounds n a b q)
unfolding gf_mul_rounds
gf_mul_rounds_acc zero a b p q = refl
gf_mul_rounds_acc (suc n) a b p q = elim (Bool-cases (bit_and b 1 == 0)) [
  | inl e ↦ rw e (gf_mul_rounds_acc n (gf_double a) (b / 2) p q)
  | inr e ↦ rw (e, bit_xor_assoc p q a) (gf_mul_rounds_acc n (gf_double a) (b / 2) p (bit_xor q a))
]

pub gf_mul_rounds-lt : (n a b p : ℕ) → a < 256 → p < 256 → gf_mul_rounds n a b p < 256
unfolding gf_mul_rounds
gf_mul_rounds-lt zero a b p h k = k
gf_mul_rounds-lt (suc n) a b p h k = ground (
  arith,
  gf_mul_rounds-lt n (gf_double a) (b / 2) p (gf_double-lt a h) k,
  gf_mul_rounds-lt n (gf_double a) (b / 2) (bit_xor p a) (gf_double-lt a h) (byte-lt p a k h),
)

pub gf_mul-lt : (a b : ℕ) → a < 256 → gf_mul a b < 256
unfolding gf_mul
gf_mul-lt a b h = gf_mul_rounds-lt 8 a b 0 h (omega arith)

gf_mul_rounds-xor_left :
    (n a c b p q : ℕ)
    → a < 256
    → c < 256
    → gf_mul_rounds n (bit_xor a c) b (bit_xor p q)
      ≡ bit_xor (gf_mul_rounds n a b p) (gf_mul_rounds n c b q)
unfolding gf_mul_rounds
gf_mul_rounds-xor_left zero a c b p q h k = refl
gf_mul_rounds-xor_left (suc n) a c b p q h k =
    let next : (p q : ℕ)
        → gf_mul_rounds n (bit_xor (gf_double a) (gf_double c)) (b / 2) (bit_xor p q)
          ≡ bit_xor (gf_mul_rounds n (gf_double a) (b / 2) p)
              (gf_mul_rounds n (gf_double c) (b / 2) q) =
      λ p q.
        gf_mul_rounds-xor_left n (gf_double a) (gf_double c) (b / 2) p q (gf_double-lt a h)
          (gf_double-lt c k) in
    elim (Bool-cases (bit_and b 1 == 0)) [
      | inl e ↦ rw (e, gf_double-xor a c h k) (next p q)
      | inr e ↦
          rw (e, gf_double-xor a c h k, bit_xor_interchange p q a c)
            (next (bit_xor p a) (bit_xor q c))
    ]

pub gf_mul-xor_left :
    (a c b : ℕ) → a < 256 → c < 256 → gf_mul (bit_xor a c) b ≡ bit_xor (gf_mul a b) (gf_mul c b)
unfolding gf_mul
gf_mul-xor_left a c b h k = gf_mul_rounds-xor_left 8 a c b 0 0 h k

-- What one round adds for the last digit of `b`.
digit : ℕ → ℕ → ℕ → ℕ
digit a b p = if bit_and b 1 == 0 then p else bit_xor p a

digit-xor :
    (a b c p q : ℕ) → digit a (bit_xor b c) (bit_xor p q) ≡ bit_xor (digit a b p) (digit a c q)
unfolding digit
digit-xor a b c p q =
    let cancel : bit_xor p q ≡ bit_xor (bit_xor p a) (bit_xor q a) =
      rw (bit_xor_interchange p a q a, bit_xor_self a) (sym (bit_xor-zero (bit_xor p q))) in
    let left : bit_xor (bit_xor p q) a ≡ bit_xor (bit_xor p a) q =
      rw (bit_xor_assoc p q a, bit_xor_comm q a) (sym (bit_xor_assoc p a q)) in
    ground (
      arith,
      bit_and-one b,
      bit_and-one c,
      bit_and-one (bit_xor b c),
      bit_xor-mod b c,
      cancel,
      left,
      bit_xor_assoc p q a,
    )

gf_mul_rounds-xor_right :
    (n a b c p q : ℕ)
    → gf_mul_rounds n a (bit_xor b c) (bit_xor p q)
      ≡ bit_xor (gf_mul_rounds n a b p) (gf_mul_rounds n a c q)
unfolding gf_mul_rounds digit
gf_mul_rounds-xor_right zero a b c p q = refl
gf_mul_rounds-xor_right (suc n) a b c p q =
    rw (bit_xor-div b c, digit-xor a b c p q)
      (gf_mul_rounds-xor_right n (gf_double a) (b / 2) (c / 2) (digit a b p) (digit a c q))

pub gf_mul-xor_right : (a b c : ℕ) → gf_mul a (bit_xor b c) ≡ bit_xor (gf_mul a b) (gf_mul a c)
unfolding gf_mul
gf_mul-xor_right a b c = gf_mul_rounds-xor_right 8 a b c 0 0

-- A function of bytes that takes exclusive or to exclusive or.
abbrev pub IsLinear : (ℕ → ℕ) → Type 0
IsLinear f = (a b : ℕ) → a < 256 → b < 256 → f (bit_xor a b) ≡ bit_xor (f a) (f b)

linear-zero : (f : ℕ → ℕ) → IsLinear f → f 0 ≡ 0
linear-zero f h = rw (h 0 0 (omega arith) (omega arith)) (bit_xor_self (f 0))

-- Linear functions that agree at the powers of two agree at every byte.
module _ (f g : ℕ → ℕ) (hf : IsLinear f) (hg : IsLinear g) where
  agree_below :
      (k : ℕ) → k ≤ 8 → ((i : ℕ) → i < 8 → f (2 ^ i) ≡ g (2 ^ i)) → (x : ℕ) → x < 2 ^ k → f x ≡ g x
  agree_below zero h basis x lt =
      let nothing : 0 ≡ x = omega arith in
      subst (λ (n : ℕ). f n ≡ g n) nothing (rw (linear-zero f hf, linear-zero g hg) refl)
  agree_below (suc k) h basis x lt =
      let rest = agree_below k (omega arith) basis in
      elim (Bool-cases (ltb x (2 ^ k))) [
        | inl e ↦ rest x (ltb→lt _ _ e)
        | inr e ↦
            let low : x - 2 ^ k < 2 ^ k = ground (arith, pow-suc 2 k) in
            let split : bit_xor (2 ^ k) (x - 2 ^ k) ≡ x =
              ground (arith, bit_xor_leading k (x - 2 ^ k) low) in
            let fits : 2 ^ suc k ≤ 256 = pow-le-pow_right {n = 2} (omega arith) h in
            let power_small : 2 ^ k < 256 = omega (arith, pow-suc 2 k) in
            let rest_small : x - 2 ^ k < 256 = omega arith in
            subst (λ (n : ℕ). f n ≡ g n) split
              (rw
                (
                  hf (2 ^ k) (x - 2 ^ k) power_small rest_small,
                  hg (2 ^ k) (x - 2 ^ k) power_small rest_small,
                  basis k (omega arith),
                  rest (x - 2 ^ k) low,
                )
                refl)
      ]

  pub linear_ext : ((i : ℕ) → i < 8 → f (2 ^ i) ≡ g (2 ^ i)) → (x : ℕ) → x < 256 → f x ≡ g x
  linear_ext basis x lt = agree_below 8 (omega arith) basis x lt
