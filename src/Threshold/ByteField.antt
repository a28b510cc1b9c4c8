-- ===== src/Threshold/ByteField.antt =====
-- crates/identity/src/threshold.rs: the bytes with gf_add, gf_mul and gf_inv are a field of
-- characteristic two, and the loops of reconstruct_byte and eval_polynomial compute the terms of
-- Lagrange's formula and the value of a polynomial over it.
use Prim.Native.Nat.{suc}
use native.Mathlib.Bridge.{le_prop}
use std.HLevel.{Σ_prop_path}
use shadowgram.Base.{zero, inr, inl, ◌⊎◌, ℕ, ◌<◌, ◌≡◌, ◌≢◌, refl, arith, ap}
use shadowgram.Threshold.Xor.{bit_xor_comm, bit_xor_assoc, zero-bit_xor, bit_xor_self}
use shadowgram.Threshold.Gf.{gf_add, gf_mul, gf_inv}
use shadowgram.Threshold.Linear.{byte-lt, gf_mul-lt, gf_mul-xor_right}
use shadowgram.Threshold.Field.{gf_mul_comm, gf_mul_assoc, one-gf_mul, gf_mul-gf_inv, gf_inv-lt}
use shadowgram.Threshold.Algebra.{Field}

abbrev pub Byte : Type 0
Byte = (n : ℕ) × (n < 256)

pub byte_ext : (a b : Byte) → a.0 ≡ b.0 → a ≡ b
byte_ext a b h = Σ_prop_path (λ n. le_prop) h

abbrev pub nil_byte : Byte
nil_byte = (0, omega arith)

abbrev pub one_byte : Byte
one_byte = (1, omega arith)

pub dec_nil_byte : (a : Byte) → (a ≡ nil_byte) ⊎ (a ≢ nil_byte)
dec_nil_byte (zero, h) = inl (byte_ext _ _ refl)
dec_nil_byte (suc n, h) =
    inr (λ e. let z : suc n ≡ 0 = ap (λ (b : Byte). b.0) e in absurd (omega arith))

pub gf_inv-zero : gf_inv 0 ≡ 0
unfolding gf_inv
gf_inv-zero = refl

instance abbrev pub gf_Field : Field Byte
gf_Field = record {
  nil = nil_byte;
  one = one_byte;
  add = λ a b. (gf_add a.0 b.0, byte-lt a.0 b.0 a.1 b.1);
  mul = λ a b. (gf_mul a.0 b.0, gf_mul-lt a.0 b.0 a.1);
  inv = λ a. (gf_inv a.0, gf_inv-lt a.0 a.1);
  add_comm = λ a b. byte_ext _ _ (bit_xor_comm a.0 b.0);
  add_assoc = λ a b c. byte_ext _ _ (bit_xor_assoc a.0 b.0 c.0);
  nil-add = λ a. byte_ext _ _ (zero-bit_xor a.0);
  add_self = λ a. byte_ext _ _ (bit_xor_self a.0);
  mul_comm = λ a b. byte_ext _ _ (gf_mul_comm a.0 b.0 a.1 b.1);
  mul_assoc = λ a b c. byte_ext _ _ (gf_mul_assoc a.0 b.0 c.0 a.1 b.1 c.1);
  one-mul = λ a. byte_ext _ _ (one-gf_mul a.0 a.1);
  mul-add = λ a b c. byte_ext _ _ (gf_mul-xor_right a.0 b.0 c.0);
  mul-inv = λ a ne. byte_ext _ _ (gf_mul-gf_inv a.0 a.1 (λ e. ne (byte_ext a nil_byte e)));
  inv-nil = byte_ext _ _ gf_inv-zero;
  dec_nil = dec_nil_byte;
}

pub one_byte-ne : one_byte ≢ nil_byte
one_byte-ne e = let z : one_byte.0 ≡ nil_byte.0 = ap (λ (b : Byte). b.0) e in absurd (omega arith)
