-- ===== src/Database/Ordering.antt =====
-- crates/storage/src/database.rs: the order in which messages are read.
use mathlib.Core.List.{Perm}
use mathlib.Core.List.Perm
use shadowgram.Base.{
  All-map, ◌∙◌, ℕ, ◌≤◌, ◌<◌, ◌≡◌, refl, ap, Bool, List, [], ◌∷◌, ◌++◌, Bytes, All, take, drop,
  arith, Bool-cases, inl, inr, ok,
}
use shadowgram.Database.{Tables, MessageRow}
use shadowgram.Database.Queries.{insert_by, order_by, page}
use shadowgram.Database.Messages.{is_later, rows_of, get_messages}

-- The sequences do not grow.
abbrev pub IsDescending : List MessageRow → Type 0
IsDescending [] = Unit
IsDescending (m ∷ ms) = All (λ n. n.sequence ≤ m.sequence) ms × IsDescending ms

All-insert_by {ℓ κ} :
    {A : Type ℓ} (before : A → A → Bool) (P : A → Type κ) (x : A) (ys : List A)
    → P x
    → All P ys
    → All P (insert_by before x ys)
unfolding insert_by
All-insert_by before P x [] h k = (h, tt)
All-insert_by before P x (y ∷ ys) h k = elim (Bool-cases (before y x)) [
  | inl later ↦ rw later (k.0, All-insert_by before P x ys h k.1)
  | inr here ↦ rw here (h, k)
]

insert_by-perm {ℓ} :
    {A : Type ℓ} (before : A → A → Bool) (x : A) (ys : List A)
    → Perm (insert_by before x ys) (x ∷ ys)
unfolding insert_by
insert_by-perm before x [] = Perm.refl (x ∷ [])
insert_by-perm before x (y ∷ ys) = elim (Bool-cases (before y x)) [
  | inl later ↦ rw later (Perm.trans (Perm.cons y (insert_by-perm before x ys)) (Perm.swap x y ys))
  | inr here ↦ rw here (Perm.refl (x ∷ y ∷ ys))
]

order_by-perm {ℓ} :
    {A : Type ℓ} (before : A → A → Bool) (xs : List A) → Perm (order_by before xs) xs
unfolding order_by
order_by-perm before [] = Perm.refl []
order_by-perm before (x ∷ xs) =
    Perm.trans (insert_by-perm before x (order_by before xs))
      (Perm.cons x (order_by-perm before xs))

insert_by-IsDescending :
    (m : MessageRow) (ms : List MessageRow)
    → IsDescending ms
    → IsDescending (insert_by is_later m ms)
unfolding insert_by
insert_by-IsDescending m [] h = (tt, tt)
insert_by-IsDescending m (n ∷ ms) h = elim (Bool-cases (is_later n m)) [
  | inl later ↦ rw later (
    All-insert_by is_later (λ k. k.sequence ≤ n.sequence) m ms (ground (arith, later)) h.0,
    insert_by-IsDescending m ms h.1,
  )
  | inr here ↦
      let le : n.sequence ≤ m.sequence = ground (arith, here) in
      rw here (
        (
          le,
          All-map (λ k. k.sequence ≤ n.sequence) (λ k. k.sequence ≤ m.sequence)
              (λ k below. omega (arith, below, le)) ms h.0,
        ),
        h,
      )
]

order_by-IsDescending : (ms : List MessageRow) → IsDescending (order_by is_later ms)
unfolding order_by
order_by-IsDescending [] = tt
order_by-IsDescending (m ∷ ms) =
    insert_by-IsDescending m (order_by is_later ms) (order_by-IsDescending ms)

-- A message behind all others is read first.
insert_by-latest :
    (m n : MessageRow) (ms : List MessageRow)
    → n.sequence < m.sequence
    → insert_by is_later n (m ∷ ms) ≡ m ∷ insert_by is_later n ms
unfolding insert_by
insert_by-latest m n ms h = ground (arith, h)

pub order_by-latest :
    (m : MessageRow) (ms : List MessageRow)
    → All (λ n. n.sequence < m.sequence) ms
    → order_by is_later (ms ++ m ∷ []) ≡ m ∷ order_by is_later ms
unfolding order_by insert_by
order_by-latest m [] h = refl
order_by-latest m (n ∷ ms) h =
    ap (insert_by is_later n) (order_by-latest m ms h.1)
    ∙ insert_by-latest m n (order_by is_later ms) h.0

-- The answer is the page of a list that has exactly the messages of the conversation, the later
-- ones first.
pub get_messages-IsDescending :
    (t : Tables) (id : Bytes) (limit offset : ℕ)
    → (rows : List MessageRow) × (get_messages t id limit offset
        ≡ (t, ok (take limit (drop offset rows))))
      × Perm rows (rows_of t id)
      × IsDescending rows
unfolding get_messages page
get_messages-IsDescending t id limit offset = (
  order_by is_later (rows_of t id),
  refl,
  order_by-perm is_later (rows_of t id),
  order_by-IsDescending (rows_of t id),
)
