-- ===== src/Outbound/Backoff.antt =====
-- crates/network/src/mailbox.rs: the exponential back-off of `record_attempt`.
use shadowgram.Base.{ℕ, suc, ◌-◌, ◌*◌, ◌^◌, ◌≤◌, ◌<◌, ◌≡◌, min, arith}
use native.Mathlib.Nat.{pow-le-pow_right, one-le-pow}
use native.Mathlib.Decide.{dec_le}
use shadowgram.Outbound.{backoff}

-- The wait is thirty seconds, doubled for each further failure, and an hour at most: the cap on
-- the exponent and the saturation are never seen.
pub backoff_doubles :
    (n : ℕ)
    → (backoff (suc n) ≡ min (30 * 2 ^ n) 3600) × (30 ≤ backoff (suc n)) × (backoff (suc n) ≤ 3600)
unfolding backoff
backoff_doubles n =
    let two : 0 < 2 = omega arith in
    elim (dec_le n 11) [
      | yes h ↦
          let e : min (suc n - 1) 11 ≡ n = omega arith in
          let top : 2 ^ n ≤ 2 ^ 11 = pow-le-pow_right two h in
          let bottom : 1 ≤ 2 ^ n = one-le-pow n 2 two in
          rw e (omega arith, omega arith, omega arith)
      | no h ↦
          let e : min (suc n - 1) 11 ≡ 11 = omega arith in
          let long : 2 ^ 11 ≤ 2 ^ n = pow-le-pow_right two {i = 11} (omega arith) in
          rw e (omega arith, omega arith, omega arith)
    ]
