-- ===== src/Base/Words.antt =====
-- Machine words: wrapping addition, and the little-endian bytes of `to_le_bytes` and
-- `from_le_bytes`.
use Prim.Native.Nat.{ℕ, zero, suc, ◌+◌, ◌-◌, ◌*◌, ◌/◌, ◌%◌, ◌^◌, ◌<◌}
use Prim.Native.Char.{code}
use text.Mathlib.TextEquality.{Char-path}
use Prim.Native.String.{String}
use mathlib.Core.Path.{◌≡◌, refl}
use mathlib.Core.List.{[], ◌∷◌}
use native.Mathlib.Nat.{pow-suc}
use native.Mathlib.Omega.{arith}
use shadowgram.Base.Lists.{length}
use shadowgram.Base.Equality.{Bytes}

abbrev pub u32_mod : ℕ
u32_mod = 2 ^ 32

abbrev pub u64_mod : ℕ
u64_mod = 2 ^ 64

-- `x.to_le_bytes()` of a word of `n` bytes.
unfoldable pub to_le_bytes : ℕ → ℕ → Bytes
to_le_bytes zero x = []
to_le_bytes (suc n) x = (x % 256) ∷ to_le_bytes n (x / 256)

-- `uN::from_le_bytes(b)`
unfoldable pub from_le_bytes : Bytes → ℕ
from_le_bytes [] = 0
from_le_bytes (b ∷ bs) = b + 256 * from_le_bytes bs

pub length-to_le_bytes : (n x : ℕ) → length (to_le_bytes n x) ≡ n
unfolding to_le_bytes
length-to_le_bytes zero x = refl
length-to_le_bytes (suc n) x = omega (arith, length-to_le_bytes n (x / 256))

-- A value that fits into `n` bytes comes back.
pub from_le_bytes-to_le_bytes : (n x : ℕ) → x < 256 ^ n → from_le_bytes (to_le_bytes n x) ≡ x
unfolding to_le_bytes from_le_bytes
from_le_bytes-to_le_bytes zero x h = omega arith
from_le_bytes-to_le_bytes (suc n) x h =
    let small : x / 256 < 256 ^ n = omega (arith, pow-suc 256 n) in
    omega (arith, from_le_bytes-to_le_bytes n (x / 256) small)

-- `s.as_bytes()` of an ASCII text.
abbrev pub as_bytes : String → Bytes
as_bytes String.[] = []
as_bytes (String.◌∷◌ c s) = code c ∷ as_bytes s

-- `a - b` on `usize` and `u64`, which wraps where overflow is not checked.
abbrev pub u64_sub : ℕ → ℕ → ℕ
u64_sub a b = (a + (u64_mod - b)) % u64_mod

pub as_bytes_injective : (s t : String) → as_bytes s ≡ as_bytes t → s ≡ t
as_bytes_injective String.[] String.[] h = refl
as_bytes_injective String.[] (String.◌∷◌ d t) h = absurd (ground arith)
as_bytes_injective (String.◌∷◌ c s) String.[] h = absurd (ground arith)
as_bytes_injective (String.◌∷◌ c s) (String.◌∷◌ d t) h =
    let first : code c ≡ code d = ground arith in
    let others : as_bytes s ≡ as_bytes t = ground arith in
    λ i. String.◌∷◌ (Char-path c d first i) (as_bytes_injective s t others i)
