-- ===== src/Padding/Sizes.antt =====
-- crates/network/src/padding.rs: the size of a padded message, and its way back.
use mathlib.Core.Path.{subst}
use shadowgram.Base.{
  ℕ, ◌+◌, ◌-◌, ◌*◌, ◌%◌, ◌≤◌, ◌<◌, ◌≡◌, ◌⊎◌, inl, inr, min, max, refl, sym, ap, ◌∙◌, false,
  Bool-cases, ltb, u64_mod, u64_sub, arith, Bytes, length, length-append, take-append, drop-append,
  ok, ◌++◌, ge→not-ltb,
}
use shadowgram.Padding.{
  PaddingConfig, PaddedMessage, round_up, padded_size, pad, serialize, deserialize,
}
use shadowgram.Padding.Rounding.{round_up_bounds}

-- A filler of random bytes gives as many as it is asked for.
abbrev pub Fills : (ℕ → Bytes) → Type 0
Fills fill = (n : ℕ) → length (fill n) ≡ n

-- The sizes of a configuration, for a payload that fits: none of the sums wraps.
pub record IsRoomy (config : PaddingConfig) (payload_len : ℕ) : Type 0 where
  pub fits : payload_len ≤ config.max_size
  pub step : 0 < config.granularity
  pub room :
      max config.min_size payload_len + config.random_range + 2 * config.granularity < u64_mod

padded_size_bounds :
    (config : PaddingConfig) (extra payload_len : ℕ)
    → IsRoomy config payload_len
    → extra ≤ config.random_range
    → (max config.min_size payload_len ≤ padded_size config extra payload_len)
      × (padded_size config extra payload_len % config.granularity ≡ 0)
      × (padded_size config extra payload_len < u64_mod)
unfolding padded_size
padded_size_bounds config extra payload_len roomy h =
    let g = config.granularity in
    let n = max config.min_size payload_len in
    let (le, lt, even) = round_up_bounds g n roomy.step (omega (arith, roomy.room)) in
    let size = round_up g n in
    let total : (size + extra) % u64_mod ≡ size + extra = omega (arith, roomy.room) in
    let (le', lt', even') =
      round_up_bounds g (size + extra) roomy.step (omega (arith, roomy.room)) in
    elim (Bool-cases config.random_padding) [
      | inl random ↦ rw (random, total) (omega arith, even', omega (arith, roomy.room))
      | inr plain ↦ rw plain (le, even, omega (arith, roomy.room))
    ]

-- What `pad` makes of a payload that fits.
pub record IsPadded (config : PaddingConfig) (msg padded : PaddedMessage) : Type 0 where
  pub payload : padded.payload ≡ msg.payload
  pub size : length (serialize padded) ≡ padded.total_size
  pub covers : length msg.payload ≤ padded.total_size
  pub above : min config.min_size config.max_size ≤ padded.total_size
  pub below : padded.total_size ≤ config.max_size
  pub step : (padded.total_size % config.granularity ≡ 0) ⊎ (padded.total_size ≡ config.max_size)

module _ (fill : ℕ → Bytes) (fills : Fills fill) where
  -- Padding a payload that fits succeeds, where no sum wraps: the payload stays, the bytes to
  -- send are as many as the total size, which is the smallest size at least, the largest at most,
  -- and a multiple of the granularity or the largest size.
  pub pad-IsPadded :
      (extra : ℕ) (config : PaddingConfig) (msg : PaddedMessage)
      → IsRoomy config (length msg.payload)
      → extra ≤ config.random_range
      → ((pad fill extra config msg).1 ≡ ok tt) × IsPadded config msg (pad fill extra config msg).0
  unfolding pad serialize
  pad-IsPadded extra config msg roomy h =
      let len = length msg.payload in
      let (le, even, lt) = padded_size_bounds config extra len roomy h in
      let size = min (padded_size config extra len) config.max_size in
      let inside : ltb config.max_size len ≡ false = ge→not-ltb config.max_size len roomy.fits in
      let rest = u64_sub size len in
      let exact : rest ≡ size - len = omega (arith, le, lt, roomy.fits) in
      let filled = fills rest in
      let whole = length-append msg.payload (fill rest) in
      rw inside (
        refl,
        record {
          payload = refl;
          size = omega (arith, whole, filled, exact, le, roomy.fits);
          covers = omega (arith, le, roomy.fits);
          above = omega (arith, le);
          below = omega arith;
          step = elim (Bool-cases (ltb config.max_size (padded_size config extra len))) [
            | inl cut ↦ inr (ground arith)
            | inr whole ↦ inl (subst (λ n. n % config.granularity ≡ 0) (ground arith) even)
          ];
        },
      )

-- The payload and the padding, from the bytes of both.
pub deserialize-serialize :
    (msg : PaddedMessage)
    → deserialize (serialize msg) (length msg.payload)
      ≡ ok (record msg { total_size = length (serialize msg) })
unfolding deserialize serialize
deserialize-serialize msg =
    let inside =
      ge→not-ltb (length (msg.payload ++ msg.padding)) (length msg.payload)
        (omega (arith, length-append msg.payload msg.padding)) in
    rw (
      inside,
      take-append msg.payload msg.padding (length msg.payload) refl,
      drop-append msg.payload msg.padding (length msg.payload) refl,
    )

module _ (fill : ℕ → Bytes) (fills : Fills fill) where
  -- The receiver of a padded message that knows the length of the payload has the message back.
  pub deserialize-pad :
      (extra : ℕ) (config : PaddingConfig) (msg : PaddedMessage)
      → IsRoomy config (length msg.payload)
      → extra ≤ config.random_range
      → deserialize (serialize (pad fill extra config msg).0) (length msg.payload)
        ≡ ok (pad fill extra config msg).0
  deserialize-pad extra config msg roomy h =
      let padded = (pad fill extra config msg).0 in
      let p = (pad-IsPadded fill fills extra config msg roomy h).1 in
      ap (λ bs. deserialize (serialize padded) (length bs)) (sym p.payload)
      ∙ deserialize-serialize padded
      ∙ ap (λ n. ok (record padded { total_size = n })) p.size
