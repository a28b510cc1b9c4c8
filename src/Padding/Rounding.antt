-- ===== src/Padding/Rounding.antt =====
-- crates/network/src/padding.rs: rounding up to a multiple.
use native.Mathlib.Nat.{div-mul-le_self, lt-div-mul-add, mul-mod_left, mod-eq_of_lt}
use shadowgram.Base.{ℕ, ◌+◌, ◌-◌, ◌*◌, ◌/◌, ◌%◌, ◌≤◌, ◌<◌, ◌≡◌, lt→ltb, u64_mod, u64_sub, arith}
use shadowgram.Padding.{round_up}

pub wrap_less :
    (n size : ℕ) → 0 < size → n + size < u64_mod → u64_sub ((n + size) % u64_mod) 1 ≡ n + size - 1
wrap_less n size pos room = omega arith

pub round_up_value : (g n : ℕ) → 0 < g → n + g < u64_mod → round_up g n ≡ (n + g - 1) / g * g
unfolding round_up
round_up_value g n pos room =
    let le = div-mul-le_self (n + g - 1) g in
    rw (lt→ltb 0 g pos, wrap_less n g pos room) (mod-eq_of_lt (omega (arith, le)))

-- Rounding up does not go below the number, and stays within less than a step of it.
pub round_up_bounds :
    (g n : ℕ)
    → 0 < g
    → n + g < u64_mod
    → (n ≤ round_up g n) × (round_up g n < n + g) × (round_up g n % g ≡ 0)
round_up_bounds g n pos room =
    let le = div-mul-le_self (n + g - 1) g in
    let lt : n + g - 1 < (n + g - 1) / g * g + g = lt-div-mul-add pos in
    rw (round_up_value g n pos room)
      (omega (arith, le, lt), omega (arith, le), mul-mod_left ((n + g - 1) / g) g)
