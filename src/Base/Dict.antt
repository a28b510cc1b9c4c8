-- ===== src/Base/Dict.antt =====
-- `HashMap`, as an association list. The order of its entries stands for the iteration order,
-- which Rust leaves open.
use Prim.Native.Nat.{suc, ◌≤◌}
use mathlib.Core.Path.{◌≡◌, refl, subst}
use mathlib.Core.Logic.{inl, inr}
use mathlib.Core.Bool.{Bool, true, false, ◌||◌}
use mathlib.Core.List.{List, [], ◌∷◌}
use mathlib.Core.Option.{Option, none, some}
use native.Mathlib.Omega.{arith}
use shadowgram.Base.Tests.{if◌then◌else◌, Bool-cases}
use shadowgram.Base.Lists.{length}
use shadowgram.Base.Equality.{Eq, ◌===◌, beq_self}

module _ {ℓ κ} {K : Type ℓ} {V : Type κ} ⦃e : Eq K⦄ where
  unfoldable pub lookup : K → List (K × V) → Option V
  lookup k [] = none
  lookup k ((j, v) ∷ m) = if j === k then some v else lookup k m

  unfoldable pub insert : K → V → List (K × V) → List (K × V)
  insert k v [] = (k, v) ∷ []
  insert k v ((j, w) ∷ m) = if j === k then (k, v) ∷ m else (j, w) ∷ insert k v m

  unfoldable pub remove : K → List (K × V) → List (K × V)
  remove k [] = []
  remove k ((j, w) ∷ m) = if j === k then remove k m else (j, w) ∷ remove k m

  unfoldable pub contains_key : K → List (K × V) → Bool
  contains_key k [] = false
  contains_key k ((j, w) ∷ m) = j === k || contains_key k m

  -- `m.entry(k).or_default()` leaves this map; the slot is what `get_or` reads in it.
  unfoldable pub entry_or_default : K → V → List (K × V) → List (K × V)
  entry_or_default k d m = if contains_key k m then m else insert k d m

  unfoldable pub get_or : K → V → List (K × V) → V
  get_or k d [] = d
  get_or k d ((j, v) ∷ m) = if j === k then v else get_or k d m

  -- `m.retain(|_, v| …)` whose closure may change the value: the new value, and whether it stays.
  unfoldable pub retain_mut : (V → V × Bool) → List (K × V) → List (K × V)
  retain_mut f [] = []
  retain_mut f ((j, v) ∷ m) = if (f v).1 then (j, (f v).0) ∷ retain_mut f m else retain_mut f m

  -- No key stands twice.
  abbrev pub HasDistinctKeys : List (K × V) → Type 0
  HasDistinctKeys [] = Unit
  HasDistinctKeys ((j, v) ∷ m) = (contains_key j m ≡ false) × HasDistinctKeys m

  pub lookup-insert :
      (k j : K) (v : V) (m : List (K × V))
      → lookup j (insert k v m) ≡ (if k === j then some v else lookup j m)
  unfolding lookup insert
  lookup-insert k j v [] = refl
  lookup-insert k j v ((i, w) ∷ m) =
      ground (arith, e.beq_iff k j, e.beq_iff i k, e.beq_iff i j, lookup-insert k j v m)

  pub lookup-remove :
      (k j : K) (m : List (K × V)) → lookup j (remove k m) ≡ (if k === j then none else lookup j m)
  unfolding lookup remove
  lookup-remove k j [] = ground arith
  lookup-remove k j ((i, w) ∷ m) =
      ground (arith, e.beq_iff k j, e.beq_iff i k, e.beq_iff i j, lookup-remove k j m)

  pub contains_key-lookup :
      (k : K) (m : List (K × V)) → contains_key k m ≡ false → lookup k m ≡ none
  unfolding lookup contains_key
  contains_key-lookup k [] h = refl
  contains_key-lookup k ((j, w) ∷ m) h = ground (arith, contains_key-lookup k m)

  pub get_or-lookup :
      (k : K) (d : V) (m : List (K × V))
      → get_or k d m ≡ (elim (lookup k m) [ none ↦ d | some v ↦ v ])
  unfolding get_or lookup
  get_or-lookup k d [] = refl
  get_or-lookup k d ((j, v) ∷ m) = ground (arith, get_or-lookup k d m)

  pub insert-insert :
      (k : K) (d v : V) (m : List (K × V)) → insert k v (insert k d m) ≡ insert k v m
  unfolding insert
  insert-insert k d v [] = ground (arith, beq_self k)
  insert-insert k d v ((j, w) ∷ m) = ground (arith, beq_self k, insert-insert k d v m)

  -- Writing a slot after `or_default` is writing it.
  pub insert-entry :
      (k : K) (d v : V) (m : List (K × V)) → insert k v (entry_or_default k d m) ≡ insert k v m
  unfolding entry_or_default
  insert-entry k d v m = ground (arith, insert-insert k d v m)

  contains_key-insert :
      (k j : K) (v : V) (m : List (K × V))
      → contains_key j (insert k v m) ≡ (k === j || contains_key j m)
  unfolding contains_key insert
  contains_key-insert k j v [] = refl
  contains_key-insert k j v ((i, w) ∷ m) =
      ground (arith, e.beq_iff k j, e.beq_iff i k, e.beq_iff i j, contains_key-insert k j v m)

  pub insert-HasDistinctKeys :
      (k : K) (v : V) (m : List (K × V)) → HasDistinctKeys m → HasDistinctKeys (insert k v m)
  unfolding insert contains_key
  insert-HasDistinctKeys k v [] h = (refl, tt)
  insert-HasDistinctKeys k v ((i, w) ∷ m) h = ground (
    arith,
    e.beq_iff i k,
    e.beq_iff k i,
    contains_key-insert k i v m,
    insert-HasDistinctKeys k v m h.1,
  )

  contains_key-remove :
      (k j : K) (m : List (K × V)) → contains_key j m ≡ false → contains_key j (remove k m) ≡ false
  unfolding contains_key remove
  contains_key-remove k j [] h = refl
  contains_key-remove k j ((i, w) ∷ m) h = ground (arith, contains_key-remove k j m)

  pub remove-HasDistinctKeys :
      (k : K) (m : List (K × V)) → HasDistinctKeys m → HasDistinctKeys (remove k m)
  unfolding remove
  remove-HasDistinctKeys k [] h = tt
  remove-HasDistinctKeys k ((i, w) ∷ m) h =
      ground (arith, contains_key-remove k i m, remove-HasDistinctKeys k m h.1)

  contains_key-retain_mut :
      (f : V → V × Bool) (j : K) (m : List (K × V))
      → contains_key j m ≡ false
      → contains_key j (retain_mut f m) ≡ false
  unfolding contains_key retain_mut
  contains_key-retain_mut f j [] h = refl
  contains_key-retain_mut f j ((i, w) ∷ m) h = ground (arith, contains_key-retain_mut f j m)

  pub retain_mut-HasDistinctKeys :
      (f : V → V × Bool) (m : List (K × V)) → HasDistinctKeys m → HasDistinctKeys (retain_mut f m)
  unfolding retain_mut
  retain_mut-HasDistinctKeys f [] h = tt
  retain_mut-HasDistinctKeys f ((i, w) ∷ m) h =
      ground (arith, contains_key-retain_mut f i m, retain_mut-HasDistinctKeys f m h.1)

  pub lookup-retain_mut :
      (f : V → V × Bool) (k : K) (m : List (K × V))
      → HasDistinctKeys m
      → lookup k (retain_mut f m)
        ≡ (elim (lookup k m) [ none ↦ none | some v ↦ if (f v).1 then some (f v).0 else none ])
  unfolding lookup retain_mut
  lookup-retain_mut f k [] h = refl
  lookup-retain_mut f k ((i, w) ∷ m) h = ground (
    arith,
    e.beq_iff i k,
    contains_key-lookup i m,
    contains_key-retain_mut f i m,
    contains_key-lookup i (retain_mut f m),
    lookup-retain_mut f k m h.1,
  )

  -- A property of the entries.
  module _ {μ} (P : K → V → Type μ) where
    abbrev pub AllEntries : List (K × V) → Type μ
    AllEntries [] = Unit
    AllEntries ((j, v) ∷ m) = P j v × AllEntries m

    pub AllEntries-lookup :
        (k : K) (v : V) (m : List (K × V)) → AllEntries m → lookup k m ≡ some v → P k v
    unfolding lookup
    AllEntries-lookup k v [] h q = absurd (cc)
    AllEntries-lookup k v ((j, w) ∷ m) h q = elim (Bool-cases (j === k)) [
      | inl same ↦
          let v' : w ≡ v = ground arith in
          let k' : j ≡ k = (e.beq_iff j k).0 same in subst (λ a. P a v) k' (subst (P j) v' h.0)
      | inr other ↦ AllEntries-lookup k v m h.1 (ground arith)
    ]

    pub AllEntries-insert :
        (k : K) (v : V) (m : List (K × V)) → AllEntries m → P k v → AllEntries (insert k v m)
    unfolding insert
    AllEntries-insert k v [] h p = (p, tt)
    AllEntries-insert k v ((j, w) ∷ m) h p = elim (Bool-cases (j === k)) [
      | inl same ↦ rw same (p, h.1)
      | inr other ↦ rw other (h.0, AllEntries-insert k v m h.1 p)
    ]

    pub AllEntries-remove : (k : K) (m : List (K × V)) → AllEntries m → AllEntries (remove k m)
    unfolding remove
    AllEntries-remove k [] h = tt
    AllEntries-remove k ((j, w) ∷ m) h = elim (Bool-cases (j === k)) [
      | inl same ↦ rw same (AllEntries-remove k m h.1)
      | inr other ↦ rw other (h.0, AllEntries-remove k m h.1)
    ]

    pub AllEntries-retain_mut :
        (f : V → V × Bool)
        → ((j : K) (v : V) → P j v → (f v).1 ≡ true → P j (f v).0)
        → (m : List (K × V)) → AllEntries m
        → AllEntries (retain_mut f m)
    unfolding retain_mut
    AllEntries-retain_mut f keep [] h = tt
    AllEntries-retain_mut f keep ((j, w) ∷ m) h = elim (Bool-cases (f w).1) [
      | inl stays ↦ rw stays (keep j w h.0 stays, AllEntries-retain_mut f keep m h.1)
      | inr goes ↦ rw goes (AllEntries-retain_mut f keep m h.1)
    ]

  pub get_or-insert :
      (k j : K) (d v : V) (m : List (K × V))
      → get_or j d (insert k v m) ≡ (if k === j then v else get_or j d m)
  get_or-insert k j d v m =
      ground (arith, get_or-lookup j d m, get_or-lookup j d (insert k v m), lookup-insert k j v m)

  pub get_or-remove :
      (k j : K) (d : V) (m : List (K × V))
      → get_or j d (remove k m) ≡ (if k === j then d else get_or j d m)
  get_or-remove k j d m =
      ground (arith, get_or-lookup j d m, get_or-lookup j d (remove k m), lookup-remove k j m)

  -- `or_default` changes nothing that a read can see.
  pub get_or-entry :
      (k j : K) (d : V) (m : List (K × V)) → get_or j d (entry_or_default k d m) ≡ get_or j d m
  unfolding entry_or_default
  get_or-entry k j d m =
      ground (
        arith,
        e.beq_iff k j,
        get_or-insert k j d d m,
        get_or-lookup j d m,
        contains_key-lookup k m,
      )

  pub remove-insert : (k : K) (v : V) (m : List (K × V)) → remove k (insert k v m) ≡ remove k m
  unfolding insert remove
  remove-insert k v [] = ground (arith, beq_self k)
  remove-insert k v ((j, w) ∷ m) = ground (arith, beq_self k, remove-insert k v m)

  pub remove-entry :
      (k : K) (d : V) (m : List (K × V)) → remove k (entry_or_default k d m) ≡ remove k m
  unfolding entry_or_default
  remove-entry k d m = ground (arith, remove-insert k d m)

  -- An insertion adds an entry where the key is new; a removal adds none.
  pub length-insert :
      (k : K) (v : V) (m : List (K × V))
      → length (insert k v m) ≡ (if contains_key k m then length m else suc (length m))
  unfolding insert contains_key
  length-insert k v [] = refl
  length-insert k v ((j, w) ∷ m) = ground (arith, length-insert k v m)

  pub length-remove : (k : K) (m : List (K × V)) → length (remove k m) ≤ length m
  unfolding remove
  length-remove k [] = omega arith
  length-remove k ((j, w) ∷ m) = ground (arith, length-remove k m)
