-- ===== src/Threshold/Secrecy.antt =====
-- crates/identity/src/threshold.rs: fewer shares than the threshold are shares of every secret.
use shadowgram.Base.Outcome.{ok}
use shadowgram.Threshold.Hiding.{hide_bytes}
use shadowgram.Base.{
  All-zip, All-map, inr, inl, Bool-cases, ◌+◌, ==_iff, ◌∙◌, ◌==◌, sym, ◌≤◌, ap, All, ◌<◌, arith, [],
  ◌≡◌, ◌∷◌, length, ◌≢◌, Bytes, List, ℕ, zero, suc,
}
use shadowgram.Threshold.Polynomials.{differences}
use shadowgram.Threshold.Sharing.{split}
use shadowgram.Threshold.ByteField.{gf_Field, nil_byte, Byte}
use shadowgram.Threshold.Recovery.{IsShare, length-nodes, nodes, IsByte}
use shadowgram.Threshold.Splitting.{split_lem, rows, share_data}
use shadowgram.Threshold.Interpolation.{differences-nodes}
use shadowgram.Threshold.{SecretShare}
use shadowgram.Threshold.Secrets.{split_ok, IsAmong, among-split, split_ok, IsAmong}
use mathlib.Core.Path.{subst}
use shadowgram.Base.Outcome.{ok_injective}

-- What a share of the rows is, and which are shares of the rows.
among-rows_bounds :
    (f : ℕ → Bytes) (n x : ℕ) (s : SecretShare)
    → IsAmong s (rows x n f)
    → (s ≡ record { index = s.index; data_bytes = f s.index }) × (x ≤ s.index) × (s.index < x + n)
unfolding rows
among-rows_bounds f zero x s h = absurd h
among-rows_bounds f (suc n) x s (inl e) =
    let at : s.index ≡ x = ap (λ (r : SecretShare). r.index) e in
    (e ∙ ap (λ i. record { index = i; data_bytes = f i }) (sym at), omega arith, omega arith)
among-rows_bounds f (suc n) x s (inr r) =
    let rest = among-rows_bounds f n (suc x) s r in
    (rest.0, omega (arith, rest.1), omega (arith, rest.2))

row-IsAmong :
    (f : ℕ → Bytes) (n x i : ℕ)
    → x ≤ i
    → i < x + n
    → IsAmong (record { index = i; data_bytes = f i }) (rows x n f)
unfolding rows
row-IsAmong f zero x i h lt = absurd (omega arith)
row-IsAmong f (suc n) x i h lt = elim (Bool-cases (i == x)) [
  | inl e ↦
      let at : i ≡ x = (==_iff i x).0 e in inl (ap (λ i. record { index = i; data_bytes = f i }) at)
  | inr e ↦ inr (row-IsAmong f n (suc x) i (ground arith) (omega arith))
]

IsAmong-same :
    (f g : ℕ → Bytes) (n : ℕ) (s : SecretShare)
    → IsAmong s (rows 1 n f)
    → g s.index ≡ f s.index
    → IsAmong s (rows 1 n g)
IsAmong-same f g n s h same =
    let row = among-rows_bounds f n 1 s h in
    let is_row : record { index = s.index; data_bytes = g s.index } ≡ s =
      ap (λ (d : Bytes). record { index = s.index; data_bytes = d }) same ∙ sym row.0 in
    subst (λ (r : SecretShare). IsAmong r (rows 1 n g)) is_row
      (row-IsAmong g n 1 s.index row.1 row.2)

-- What holds at the indices as bytes holds at the indices.
over_nodes :
    (f g : ℕ → Bytes) (ss : List SecretShare) (h : All (IsShare f) ss)
    → All (λ y. g y.0 ≡ f y.0) (nodes f ss h)
    → All (λ s. g s.index ≡ f s.index) ss
unfolding nodes
over_nodes f g [] h same = tt
over_nodes f g (s ∷ ss) h same = (same.0, over_nodes f g ss h.1 same.1)

nodes_nonzero :
    (f : ℕ → Bytes) (n : ℕ) (ss : List SecretShare) (h : All (IsShare f) ss)
    → All (λ s. IsAmong s (rows 1 n f)) ss
    → All (λ y. y ≢ nil_byte) (nodes f ss h)
unfolding nodes
nodes_nonzero f n [] h among = tt
nodes_nonzero f n (s ∷ ss) h among =
    let positive = among-rows_bounds f n 1 s among.0 in
    (
      λ e. let z : s.index ≡ 0 = ap (λ (b : Byte). b.0) e in absurd (omega (arith, positive.1)),
      nodes_nonzero f n ss h.1 among.1,
    )

-- Fewer shares than the threshold say nothing of the secret: they are shares of any other secret
-- of the same length as well, for suitable draws.
pub split_hides :
    (secret other : Bytes) (t n : ℕ) (random : ℕ → ℕ → ℕ) (shares chosen : List SecretShare)
    → All IsByte secret
    → All IsByte other
    → length secret ≡ length other
    → ((i j : ℕ) → IsByte (random i j))
    → n < 256
    → split secret t n random ≡ ok shares
    → All (λ s. IsAmong s shares) chosen
    → length chosen < t
    → (draws : ℕ → ℕ → ℕ) × ((i j : ℕ) → IsByte (draws i j))
      × (others : List SecretShare) × (split other t n draws ≡ ok others)
      × All (λ s. IsAmong s others) chosen
split_hides [] [] t n random shares chosen hs ho size bytes fits made among few =
    (random, bytes, shares, made, among)
split_hides [] (c ∷ cs) t n random shares chosen hs ho size bytes fits made among few =
    absurd (omega arith)
split_hides (b ∷ bs) [] t n random shares chosen hs ho size bytes fits made among few =
    absurd (omega arith)
split_hides (b ∷ bs) (c ∷ cs) t n random shares chosen hs ho size bytes fits made among few =
    let bounds = split_ok (b ∷ bs) t n random shares made in
    let f = share_data t random 0 (b ∷ bs) in
    let same : shares ≡ rows 1 n f =
      ok_injective (sym made ∙ split_lem b bs t n random bounds.0 bounds.1 fits) in
    let in_rows : All (λ s. IsAmong s (rows 1 n f)) chosen =
      subst (λ (l : List SecretShare). All (λ s. IsAmong s l) chosen) same among in
    let used = among-split f n shares chosen same fits among in
    let xs = nodes f chosen used in
    let hidden =
      hide_bytes t 0 random xs (b ∷ bs) (c ∷ cs) bytes (omega (arith, length-nodes f chosen used))
        (nodes_nonzero f n chosen used in_rows) hs ho size in
    let g = share_data t hidden.0 0 (c ∷ cs) in
    let agree : All (λ y. g y.0 ≡ f y.0) xs =
      All-map (λ y. differences y xs ≡ nil_byte) (λ y. g y.0 ≡ f y.0) hidden.2 xs
        (differences-nodes xs) in
    (
      hidden.0,
      hidden.1,
      rows 1 n g,
      split_lem c cs t n hidden.0 bounds.0 bounds.1 fits,
      All-map (λ s. IsAmong s (rows 1 n f) × (g s.index ≡ f s.index)) (λ s. IsAmong s (rows 1 n g))
          (λ s h. IsAmong-same f g n s h.0 h.1) chosen
          (All-zip (λ s. IsAmong s (rows 1 n f)) (λ s. g s.index ≡ f s.index) chosen in_rows
            (over_nodes f g chosen used agree)),
    )
