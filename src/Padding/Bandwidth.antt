-- ===== src/Padding/Bandwidth.antt =====
-- crates/network/src/padding.rs: the number of packets that fill an interval.
use native.Mathlib.Nat.{mul-le-mul_right, div-mul-le_self, lt-div-mul-add}
use shadowgram.Base.{
  ℕ, suc, ◌+◌, ◌-◌, ◌*◌, ◌/◌, ◌≤◌, ◌<◌, ◌≡◌, max, refl, true, false, u64_mod, arith, ◌==◌,
}
use shadowgram.Base.Outcome.{ok}
use shadowgram.Padding.{ConstantBandwidth, packets_needed, record_sent, under_target, div_up}
use shadowgram.Padding.Rounding.{wrap_less}

-- The packets asked for reach the target of the interval, and no fewer do.
pub packets_needed_least :
    (cb : ConstantBandwidth)
    → 0 < cb.packet_size
    → max cb.target_per_interval cb.bytes_sent + cb.packet_size < u64_mod
    → (n : ℕ) × (packets_needed cb ≡ ok n)
      × (under_target (record_sent cb (n * cb.packet_size)) ≡ false)
      × ((m : ℕ) → m < n → under_target (record_sent cb (m * cb.packet_size)) ≡ true)
unfolding packets_needed div_up record_sent under_target
packets_needed_least cb pos room =
    let size = cb.packet_size in
    let remaining = cb.target_per_interval - cb.bytes_sent in
    let n = (remaining + size - 1) / size in
    let le = div-mul-le_self (remaining + size - 1) size in
    let lt : remaining + size - 1 < n * size + size = lt-div-mul-add pos in
    let nonzero : (size == 0) ≡ false = ground arith in
    (
      n,
      rw (nonzero, wrap_less remaining size pos (omega arith)) refl,
      ground (arith, le, lt),
      λ m below.
          let fewer : suc m * size ≤ n * size = mul-le-mul_right size below in
          ground (arith, fewer, le),
    )
