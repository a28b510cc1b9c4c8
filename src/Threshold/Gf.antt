-- ===== src/Threshold/Gf.antt =====
-- crates/identity/src/threshold.rs: the arithmetic of GF(256) of `ShamirSecretSharing`.
use Prim.Native.Nat.{bit_and, bit_xor}
use shadowgram.Base.{ℕ, zero, suc, ◌-◌, ◌*◌, ◌/◌, ◌%◌, ◌==◌, if◌then◌else◌}

-- `Self::gf_add(a, b)`
abbrev pub gf_add : ℕ → ℕ → ℕ
gf_add a b = bit_xor a b

abbrev pub gf_sub : ℕ → ℕ → ℕ
gf_sub a b = bit_xor a b

-- The part of a round that changes `a`: `a <<= 1`, and the reduction by
-- x^8 + x^4 + x^3 + x + 1 when the high bit was set.
unfoldable pub gf_double : ℕ → ℕ
gf_double a =
    let shifted = a * 2 % 256 in if bit_and a 0x80 == 0 then shifted else bit_xor shifted 0x1B

-- The loop of gf_mul, `n` rounds to go.
unfoldable pub gf_mul_rounds : ℕ → ℕ → ℕ → ℕ → ℕ
gf_mul_rounds zero a b p = p
gf_mul_rounds (suc n) a b p =
    gf_mul_rounds n (gf_double a) (b / 2) (if bit_and b 1 == 0 then p else bit_xor p a)

unfoldable pub gf_mul : ℕ → ℕ → ℕ
gf_mul a b = gf_mul_rounds 8 a b 0

-- The loop of gf_inv, `n` candidates to go: `for i in 1..=255`.
unfoldable pub gf_inv_from : ℕ → ℕ → ℕ
gf_inv_from zero a = 0
gf_inv_from (suc n) a =
    let rest = gf_inv_from n a in if gf_mul a (255 - n) == 1 then 255 - n else rest

unfoldable pub gf_inv : ℕ → ℕ
gf_inv a = if a == 0 then 0 else gf_inv_from 255 a
