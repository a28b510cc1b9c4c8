-- ===== src/Base/Outcome.antt =====
-- The outcome of Rust code that may return an error or panic.
use Prim.Native.Nat.{ℕ, ◌-◌, ◌+◌, ◌≤◌}
use mathlib.Core.Path.{ap, sym, ◌≡◌, refl}
use mathlib.Core.Logic.{◌⊎◌, inl, inr}
use mathlib.Core.Bool.{true, ◌&&◌}
use mathlib.Core.List.{List, ◌++◌, append_assoc}
use native.Mathlib.Omega.{arith}
use shadowgram.Base.Tests.{◌==◌, ==_iff, leb, le→leb, if◌then◌else◌}
use shadowgram.Base.Lists.{
  length, take, drop, length-take, length-drop, length-append, take-append, drop-append, take_all,
}

pub data Outcome {ℓ κ} (A : Type ℓ) (E : Type κ) : Type (ℓ ⊔ κ) where
  ok : A → Outcome A E
  err : E → Outcome A E
  panicked : Outcome A E

infixl 5 ◌>>=◌
abbrev pub ◌>>=◌ {ℓ κ μ} :
    {A : Type ℓ} {B : Type κ} {E : Type μ} → Outcome A E → (A → Outcome B E) → Outcome B E
ok a >>= f = f a
err e >>= f = err e
panicked >>= f = panicked

module _ {ℓ κ} {A : Type ℓ} {E : Type κ} where
  -- `&data[a..b]`, which panics where the range is not one of `data`.
  unfoldable pub slice : List A → ℕ → ℕ → Outcome (List A) E
  slice xs a b = if leb a b && leb b (length xs) then ok (take (b - a) (drop a xs)) else panicked

  -- A slice of three adjoining pieces at the bounds of the second.
  pub slice-append :
      (pre mid post : List A) (a b : ℕ)
      → a ≡ length pre
      → b ≡ length pre + length mid
      → slice (pre ++ (mid ++ post)) a b ≡ ok mid
  unfolding slice
  slice-append pre mid post a b p q =
      let inside : leb a b ≡ true = le→leb a b (omega arith) in
      let below : leb b (length (pre ++ (mid ++ post))) ≡ true =
        le→leb _ _ (omega (arith, length-append pre (mid ++ post), length-append mid post)) in
      rw (
        inside,
        below,
        drop-append pre (mid ++ post) a p,
        take-append mid post (b - a) (omega arith),
      )

pub Outcome-cases {ℓ κ} :
    {A : Type ℓ} {E : Type κ} (o : Outcome A E)
    → ((a : A) × (o ≡ ok a)) ⊎ ((e : E) × (o ≡ err e)) ⊎ (o ≡ panicked)
Outcome-cases (ok a) = inl (a, refl)
Outcome-cases (err e) = inr (inl (e, refl))
Outcome-cases panicked = inr (inr refl)

module _ {ℓ κ} {A : Type ℓ} {E : Type κ} where
  -- `data[a..b].try_into().map_err(…)` into an array of `n` elements.
  unfoldable pub array_of : ℕ → List A → ℕ → ℕ → E → Outcome (List A) E
  unfolding slice
  array_of n xs a b e = slice xs a b >>= λ piece. if length piece == n then ok piece else err e

  pub slice_ok :
      (xs : List A) (a b : ℕ)
      → a ≤ b
      → b ≤ length xs
      → slice {E = E} xs a b ≡ ok (take (b - a) (drop a xs))
  unfolding slice
  slice_ok xs a b h k = rw (le→leb a b h, le→leb b (length xs) k)

  pub array_of_ok :
      (n a b : ℕ) (xs : List A) (e : E)
      → a + n ≡ b
      → b ≤ length xs
      → array_of n xs a b e ≡ ok (take n (drop a xs))
  unfolding array_of
  array_of_ok n a b xs e h k =
      let size : b - a ≡ n = omega arith in
      let whole : length (take n (drop a xs)) ≡ n =
        omega (arith, length-take n (drop a xs), length-drop a xs) in
      rw (slice_ok xs a b (omega arith) k, size, (==_iff (length (take n (drop a xs))) n).1 whole)
        refl

  -- Equal results hold equal values.
  pub ok_injective : {a b : A} → ◌≡◌ {A = Outcome A E} (ok a) (ok b) → a ≡ b
  ok_injective {a} h = ap (value_or a) h
    where
      value_or : A → Outcome A E → A
      value_or d (ok v) = v
      value_or d (err e) = d
      value_or d panicked = d

  -- A slice from behind two adjoining pieces to the end.
  pub slice_rest :
      (pre mid post : List A) (a : ℕ)
      → a ≡ length pre + length mid
      → slice {E = E} (pre ++ (mid ++ post)) a (length (pre ++ (mid ++ post))) ≡ ok post
  slice_rest pre mid post a h =
      let whole = pre ++ (mid ++ post) in
      let size : length whole ≡ a + length post =
        omega (arith, length-append pre (mid ++ post), length-append mid post) in
      let joined : whole ≡ (pre ++ mid) ++ post = sym (append_assoc pre mid post) in
      let cut : drop a whole ≡ post =
        rw joined (drop-append (pre ++ mid) post a (omega (arith, length-append pre mid))) in
      rw (slice_ok whole a (length whole) (omega arith) (omega arith), cut)
        (ap ok (take_all (length whole - a) post (omega arith)))
