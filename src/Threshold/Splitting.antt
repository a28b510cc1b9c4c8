-- ===== src/Threshold/Splitting.antt =====
-- crates/identity/src/threshold.rs: the shares that the loops of split build.
use shadowgram.Base.{
  ltb, ◌∙◌, ℕ, zero, suc, ◌+◌, ◌-◌, ◌%◌, ◌≤◌, ◌<◌, ◌≡◌, refl, sym, ap, arith, List, [], ◌∷◌, ◌++◌,
  Bytes, length, length-append, append_assoc, append-nil, leb, lt→not-leb, le→leb, true, false,
}
use shadowgram.Base.Outcome.{ok}
use shadowgram.Threshold.{SecretShare, new}
use shadowgram.Threshold.Sharing.{
  eval_polynomial, eval_points, draw, split_byte, update_at, zeros, put, new_share, distribute,
  split_bytes, split,
}

-- The shares of `n` points from `x` on.
unfoldable pub rows : ℕ → ℕ → (ℕ → Bytes) → List SecretShare
rows x zero f = []
rows x (suc n) f = record { index = x; data_bytes = f x } ∷ rows (suc x) n f

-- The data of the share at a point: the value there of the polynomial of each byte.
unfoldable pub share_data : ℕ → (ℕ → ℕ → ℕ) → ℕ → Bytes → ℕ → Bytes
share_data threshold random byte_idx [] x = []
share_data threshold random byte_idx (b ∷ bs) x =
    eval_polynomial (b ∷ draw (threshold - 1) 0 (random byte_idx)) x
    ∷ share_data threshold random (suc byte_idx) bs x

rows_ext : (x n : ℕ) (f g : ℕ → Bytes) → ((y : ℕ) → f y ≡ g y) → rows x n f ≡ rows x n g
unfolding rows
rows_ext x zero f g same = refl
rows_ext x (suc n) f g same = rw (same x, rows_ext (suc x) n f g same) refl

update_at-append {ℓ} :
    {A : Type ℓ} (i : ℕ) (f : A → A) (pre : List A) (x : A) (post : List A)
    → i ≡ length pre
    → update_at i f (pre ++ x ∷ post) ≡ pre ++ f x ∷ post
unfolding update_at
update_at-append zero f [] x post h = refl
update_at-append (suc i) f [] x post h = absurd (omega arith)
update_at-append zero f (y ∷ ys) x post h = absurd (omega arith)
update_at-append (suc i) f (y ∷ ys) x post h =
    ap (◌∷◌ y) (update_at-append i f ys x post (omega arith))

-- The data of a share with one byte set.
set_byte : ℕ → (ℕ → ℕ) → (ℕ → Bytes) → ℕ → Bytes
set_byte k v f x = update_at k (λ b. v x) (f x)

snoc_row :
    (pre : List SecretShare) (s : SecretShare) (post : List SecretShare)
    → (pre ++ s ∷ []) ++ post ≡ pre ++ s ∷ post
snoc_row pre s post = append_assoc pre (s ∷ []) post

length-snoc : (pre : List SecretShare) (s : SecretShare) → length (pre ++ s ∷ []) ≡ suc (length pre)
length-snoc pre s = omega (arith, length-append pre (s ∷ []))

-- One share byte: a share that is still to be made is, and one that is there is set.
distribute_push :
    (len k i y : ℕ) (ys : Bytes) (pre : List SecretShare)
    → i ≡ length pre
    → distribute len k i (y ∷ ys) pre
      ≡ distribute len k (suc i) ys (pre ++ put k y (new_share len i) ∷ [])
unfolding distribute
distribute_push len k i y ys pre h =
    let full : leb (length pre) i ≡ true = le→leb _ _ (omega arith) in
    rw (distribute, full, update_at-append i (put k y) pre (new_share len i) [] h) refl

distribute_set :
    (len k i y : ℕ) (ys : Bytes) (pre : List SecretShare) (s : SecretShare)
    (post : List SecretShare)
    → i ≡ length pre
    → distribute len k i (y ∷ ys) (pre ++ s ∷ post)
      ≡ distribute len k (suc i) ys (pre ++ put k y s ∷ post)
unfolding distribute
distribute_set len k i y ys pre s post h =
    let there : leb (length (pre ++ s ∷ post)) i ≡ false =
      lt→not-leb _ _ (omega (arith, length-append pre (s ∷ post))) in
    rw (distribute, there, update_at-append i (put k y) pre s post h) refl

-- The first byte makes the shares.
distribute_first :
    (len k i n : ℕ) (c : Bytes) (pre : List SecretShare)
    → i ≡ length pre
    → i + n < 256
    → distribute len k i (eval_points n (suc i) c) pre
      ≡ pre ++ rows (suc i) n (set_byte k (eval_polynomial c) (λ x. zeros len))
unfolding distribute eval_points rows put set_byte
distribute_first len k i zero c pre h fits = sym (append-nil pre)
distribute_first len k i (suc n) c pre h fits =
    let made = put k (eval_polynomial c (suc i)) (new_share len i) in
    let row : SecretShare = record {
      index = suc i;
      data_bytes = set_byte k (eval_polynomial c) (λ x. zeros len) (suc i);
    } in
    let number : (i + 1) % 256 ≡ suc i = omega arith in
    let is_row : made ≡ row = rw number refl in
    distribute_push len k i (eval_polynomial c (suc i)) (eval_points n (suc (suc i)) c) pre h
    ∙ distribute_first len k (suc i) n c (pre ++ made ∷ []) (omega (arith, length-snoc pre made))
        (omega arith)
    ∙ snoc_row pre made (rows (suc (suc i)) n (set_byte k (eval_polynomial c) (λ x. zeros len)))
    ∙ ap (λ s. pre ++ s ∷ rows (suc (suc i)) n (set_byte k (eval_polynomial c) (λ x. zeros len)))
        is_row

-- A later byte sets its place in each.
distribute_later :
    (len k i n : ℕ) (c : Bytes) (f : ℕ → Bytes) (pre : List SecretShare)
    → i ≡ length pre
    → distribute len k i (eval_points n (suc i) c) (pre ++ rows (suc i) n f)
      ≡ pre ++ rows (suc i) n (set_byte k (eval_polynomial c) f)
unfolding distribute eval_points rows put set_byte
distribute_later len k i zero c f pre h = refl
distribute_later len k i (suc n) c f pre h =
    let old : SecretShare = record { index = suc i; data_bytes = f (suc i) } in
    let made = put k (eval_polynomial c (suc i)) old in
    distribute_set len k i (eval_polynomial c (suc i)) (eval_points n (suc (suc i)) c) pre old
      (rows (suc (suc i)) n f) h
    ∙ ap (distribute len k (suc i) (eval_points n (suc (suc i)) c))
        (sym (snoc_row pre made (rows (suc (suc i)) n f)))
    ∙ distribute_later len k (suc i) n c f (pre ++ made ∷ []) (omega (arith, length-snoc pre made))
    ∙ snoc_row pre made (rows (suc (suc i)) n (set_byte k (eval_polynomial c) f))

-- The bytes that are done, and zeros for those to come.
split_bytes_from :
    (len t n k : ℕ) (random : ℕ → ℕ → ℕ) (bs : Bytes) (done : ℕ → Bytes)
    → ((x : ℕ) → length (done x) ≡ k)
    → split_bytes len t n k random bs (rows 1 n (λ x. done x ++ zeros (length bs)))
      ≡ rows 1 n (λ x. done x ++ share_data t random k bs x)
unfolding split_bytes share_data split_byte set_byte zeros
split_bytes_from len t n k random [] done h = refl
split_bytes_from len t n k random (b ∷ bs) done h =
    let coefficients = b ∷ draw (t - 1) 0 (random k) in
    let more : ℕ → Bytes = λ x. done x ++ eval_polynomial coefficients x ∷ [] in
    let set : (x : ℕ)
        → set_byte k (eval_polynomial coefficients) (λ x. done x ++ zeros (length (b ∷ bs))) x
          ≡ more x ++ zeros (length bs) =
      λ x.
        update_at-append k (λ b. eval_polynomial coefficients x) (done x) 0 (zeros (length bs))
          (sym (h x))
        ∙ sym (append_assoc (done x) (eval_polynomial coefficients x ∷ []) (zeros (length bs))) in
    ap (split_bytes len t n (suc k) random bs) (
      distribute_later len k 0 n coefficients (λ x. done x ++ zeros (length (b ∷ bs))) [] refl
      ∙ rows_ext 1 n
          (set_byte k (eval_polynomial coefficients) (λ x. done x ++ zeros (length (b ∷ bs))))
          (λ x. more x ++ zeros (length bs)) set)
    ∙ split_bytes_from len t n (suc k) random bs more
        (λ x. omega (arith, h x, length-append (done x) (eval_polynomial coefficients x ∷ [])))
    ∙ rows_ext 1 n (λ x. more x ++ share_data t random (suc k) bs x)
        (λ x. done x ++ share_data t random k (b ∷ bs) x)
        (λ x.
          append_assoc (done x) (eval_polynomial coefficients x ∷ [])
            (share_data t random (suc k) bs x))

-- For a secret that is not empty, split makes the share of each point from 1 to the total, whose
-- data are the values at that point of the polynomials of the bytes.
pub split_lem :
    (b : ℕ) (bs : Bytes) (t n : ℕ) (random : ℕ → ℕ → ℕ)
    → 1 ≤ t
    → t ≤ n
    → n < 256
    → split (b ∷ bs) t n random ≡ ok (rows 1 n (share_data t random 0 (b ∷ bs)))
unfolding split split_bytes split_byte set_byte update_at zeros new share_data
split_lem b bs t n random low high fits =
    let coefficients = b ∷ draw (t - 1) 0 (random 0) in
    let first = distribute_first (suc (length bs)) 0 0 n coefficients [] refl (omega arith) in
    let rest =
      split_bytes_from (suc (length bs)) t n 1 random bs (λ x. eval_polynomial coefficients x ∷ [])
        (λ x. refl) in
    let over : ltb n t ≡ false = ground arith in
    let under : ltb t 1 ≡ false = ground arith in
    rw (over, under) (ap ok (ap (split_bytes (suc (length bs)) t n 1 random bs) first ∙ rest))
