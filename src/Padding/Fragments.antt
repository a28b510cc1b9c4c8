-- ===== src/Padding/Fragments.antt =====
-- crates/network/src/padding.rs: a message in fragments, and put together again.
use native.Mathlib.Nat.{div-eq_of_lt-le}
use shadowgram.Base.{
  ℕ, zero, suc, ◌+◌, ◌-◌, ◌*◌, ◌%◌, ◌≤◌, ◌<◌, ◌≡◌, inl, inr, min, refl, ap, true, false, Bool-cases,
  ltb, lt→ltb, u64_mod, u64_sub, arith, Bytes, length, length-append, take-append, length-take,
  length-drop, take-append-drop, take_all, take, drop, List, [], ◌∷◌, ◌==◌, All,
}
use shadowgram.Base.Outcome.{ok}
use shadowgram.Padding.{
  chunks_from, fragment_of, fragments_of, fragment, reassemble_from, reassemble, div_up,
  fragment_count,
}
use shadowgram.Padding.Rounding.{wrap_less}
use shadowgram.Padding.Sizes.{Fills}

length-fragments_of :
    (fill : ℕ → Bytes) (size : ℕ) (cs : List Bytes) → length (fragments_of fill size cs) ≡ length cs
unfolding fragments_of
length-fragments_of fill size [] = refl
length-fragments_of fill size (c ∷ cs) = ap suc (length-fragments_of fill size cs)

no_multiple : (n size : ℕ) → n * size < size → n * size ≡ 0
no_multiple zero size h = omega arith
no_multiple (suc n) size h = absurd (omega arith)

-- The number of chunks is the length over the size, rounded up.
length-chunks_from :
    (fuel size : ℕ) (message : Bytes)
    → 0 < size
    → length message ≤ fuel
    → (length message ≤ length (chunks_from fuel size message) * size)
      × (length (chunks_from fuel size message) * size < length message + size)
unfolding chunks_from
length-chunks_from zero size message pos enough = (omega arith, omega arith)
length-chunks_from (suc fuel) size [] pos enough = (omega arith, omega arith)
length-chunks_from (suc fuel) size (b ∷ message) pos enough =
    let d = length-drop size (b ∷ message) in
    let (le, lt) = length-chunks_from fuel size (drop size (b ∷ message)) pos (omega (arith, d)) in
    let n = length (chunks_from fuel size (drop size (b ∷ message))) in
    let none : n * size < size → n * size ≡ 0 = no_multiple n size in
    (omega (arith, le, d), ground (arith, le, lt, d, none))

div_up_value :
    (n size k : ℕ)
    → 0 < size
    → n + size < u64_mod
    → n ≤ k * size
    → k * size < n + size
    → div_up n size ≡ ok k
unfolding div_up
div_up_value n size k pos room le lt =
    let nonzero : (size == 0) ≡ false = ground arith in
    rw (nonzero, wrap_less n size pos room)
      (ap ok (div-eq_of_lt-le size (omega arith) (omega arith)))

module _ (fill : ℕ → Bytes) (fills : Fills fill) where
  length-fragment_of :
      (size : ℕ) (chunk : Bytes) → length chunk ≤ size → length (fragment_of fill size chunk) ≡ size
  unfolding fragment_of
  length-fragment_of size chunk h = elim (Bool-cases (ltb (length chunk) size)) [
    | inl short ↦ rw short (
        omega
          (arith, length-append chunk (fill (size - length chunk)), fills (size - length chunk)))
    | inr whole ↦ rw whole (ground arith)
  ]

  -- The bytes of the chunk are the first ones of its fragment.
  take-fragment_of :
      (size n : ℕ) (chunk : Bytes) → n ≡ length chunk → take n (fragment_of fill size chunk) ≡ chunk
  unfolding fragment_of
  take-fragment_of size n chunk h = elim (Bool-cases (ltb (length chunk) size)) [
    | inl short ↦ rw short (take-append chunk (fill (size - length chunk)) n h)
    | inr whole ↦ rw whole (take_all n chunk (omega (arith, h)))
  ]

  sizes-fragments_of :
      (fuel size : ℕ) (message : Bytes)
      → All (λ f. length f ≡ size) (fragments_of fill size (chunks_from fuel size message))
  unfolding fragments_of chunks_from
  sizes-fragments_of zero size message = tt
  sizes-fragments_of (suc fuel) size [] = tt
  sizes-fragments_of (suc fuel) size (b ∷ message) = (
    length-fragment_of size (take size (b ∷ message))
        (omega (arith, length-take size (b ∷ message))),
    sizes-fragments_of fuel size (drop size (b ∷ message)),
  )

  reassemble_from-chunks :
      (fuel i size total : ℕ) (message : Bytes)
      → 0 < size
      → length message ≤ fuel
      → length message ≡ total - i * size
      → total + size < u64_mod
      → reassemble_from i size total (fragments_of fill size (chunks_from fuel size message))
        ≡ message
  unfolding fragments_of chunks_from reassemble_from
  reassemble_from-chunks zero i size total [] pos enough left room = refl
  reassemble_from-chunks zero i size total (b ∷ message) pos enough left room = absurd (omega arith)
  reassemble_from-chunks (suc fuel) i size total [] pos enough left room = refl
  reassemble_from-chunks (suc fuel) i size total (b ∷ message) pos enough left room =
      let m = b ∷ message in
      let c = take size m in
      let f = fragment_of fill size c in
      let lc = length-take size m in
      let lf = length-fragment_of size c (omega (arith, lc)) in
      let d = length-drop size m in
      let start : i * size % u64_mod ≡ i * size = omega arith in
      let inside : ltb (i * size) total ≡ true = lt→ltb (i * size) total (omega arith) in
      let copy : min (u64_sub (min ((i * size + size) % u64_mod) total) (i * size)) size
          ≡ length c =
        omega (arith, lc) in
      let rest =
        reassemble_from-chunks fuel (suc i) size total (drop size m) pos (omega (arith, d))
          (omega (arith, d)) room in
      rw (start, inside, lf, copy, rest, take-fragment_of size (length c) c refl)
        (take-append-drop size m)

  -- For a positive size, a message is cut into fragments, all of that size and as many as
  -- `fragment_count` says, which are put together to the message.
  pub reassemble-fragment :
      (size : ℕ) (message : Bytes)
      → 0 < size
      → length message + size < u64_mod
      → (fragments : List Bytes) × (fragment fill size message ≡ ok fragments)
        × (reassemble size fragments (length message) ≡ message)
        × (fragment_count size (length message) ≡ ok (length fragments))
        × All (λ f. length f ≡ size) fragments
  unfolding fragment reassemble fragment_count
  reassemble-fragment size message pos room =
      let nonzero : (size == 0) ≡ false = ground arith in
      let cs = chunks_from (length message) size message in
      let (le, lt) = length-chunks_from (length message) size message pos (omega arith) in
      (
        fragments_of fill size cs,
        rw nonzero refl,
        reassemble_from-chunks (length message) 0 size (length message) message pos (omega arith)
            (omega arith) room,
        rw (length-fragments_of fill size cs)
            (div_up_value (length message) size (length cs) pos room le lt),
        sizes-fragments_of (length message) size message,
      )
