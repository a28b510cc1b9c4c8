-- ===== src/Database/Queries.antt =====
-- crates/storage/src/database.rs: what its SQL does to the rows of a table.
use shadowgram.Base.{
  ℕ, ◌+◌, ◌%◌, Bool, not, List, [], ◌∷◌, ◌++◌, take, drop, retain, ltb, if◌then◌else◌, u64_mod,
}

module _ {ℓ} {A : Type ℓ} where
  unfoldable pub insert_by : (A → A → Bool) → A → List A → List A
  insert_by before x [] = x ∷ []
  insert_by before x (y ∷ ys) = if before y x then y ∷ insert_by before x ys else x ∷ y ∷ ys

  -- `ORDER BY`, with the relation that puts a row strictly before another.
  unfoldable pub order_by : (A → A → Bool) → List A → List A
  order_by before [] = []
  order_by before (x ∷ xs) = insert_by before x (order_by before xs)

  -- `LIMIT … OFFSET …`
  unfoldable pub page : ℕ → ℕ → List A → List A
  page limit offset rows = take limit (drop offset rows)

  -- `INSERT OR REPLACE`, with the test for the rows of the same key: they go, the row comes last.
  unfoldable pub replace_row : (A → Bool) → A → List A → List A
  replace_row same row rows = retain (λ r. not (same r)) rows ++ row ∷ []

-- `x as i64`: the order of a word as a signed number.
abbrev pub i64_half : ℕ
i64_half = 9223372036854775808

unfoldable pub signed_ltb : ℕ → ℕ → Bool
signed_ltb a b = ltb ((a + i64_half) % u64_mod) ((b + i64_half) % u64_mod)
