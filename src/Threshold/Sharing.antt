-- ===== src/Threshold/Sharing.antt =====
-- crates/identity/src/threshold.rs: the operations of `ShamirSecretSharing`. The draws of OsRng are an argument, by the index
-- of the byte and of the coefficient.
use shadowgram.Base.{
  ℕ, zero, suc, ◌+◌, ◌-◌, ◌%◌, ◌==◌, ltb, leb, not, ◌&&◌, if◌then◌else◌, List, [], ◌∷◌, ◌++◌, Bytes,
  length, take, is_empty, Bool,
}
use shadowgram.Base.Outcome.{Outcome, ok, err, panicked, ◌>>=◌}
use shadowgram.Threshold.{new, ShareError, SecretShare, too_few_shares}
use shadowgram.Threshold.Gf.{gf_add, gf_sub, gf_mul, gf_inv}

-- The loop of eval_polynomial.
unfoldable pub eval_terms : Bytes → ℕ → ℕ → ℕ → ℕ
eval_terms [] x result x_power = result
eval_terms (coeff ∷ coefficients) x result x_power =
    eval_terms coefficients x (gf_add result (gf_mul coeff x_power)) (gf_mul x_power x)

unfoldable pub eval_polynomial : Bytes → ℕ → ℕ
eval_polynomial coefficients x = eval_terms coefficients x 0 1

-- `n` draws from the `i`th on.
unfoldable pub draw : ℕ → ℕ → (ℕ → ℕ) → Bytes
draw zero i random = []
draw (suc n) i random = random i ∷ draw n (suc i) random

-- The values at `n` points from `x` on.
unfoldable pub eval_points : ℕ → ℕ → Bytes → Bytes
eval_points zero x coefficients = []
eval_points (suc n) x coefficients =
    eval_polynomial coefficients x ∷ eval_points n (suc x) coefficients

unfoldable pub split_byte : ℕ → ℕ → ℕ → (ℕ → ℕ) → Bytes
split_byte secret threshold total random =
    eval_points total 1 (secret ∷ draw (threshold - 1) 0 random)

-- `xs[i] = f(xs[i])`
unfoldable pub update_at {ℓ} : {A : Type ℓ} → ℕ → (A → A) → List A → List A
update_at i f [] = []
update_at zero f (x ∷ xs) = f x ∷ xs
update_at (suc i) f (x ∷ xs) = x ∷ update_at i f xs

unfoldable pub zeros : ℕ → Bytes
zeros zero = []
zeros (suc n) = 0 ∷ zeros n

-- `shares[share_idx].data[byte_idx] = share_byte`
unfoldable pub put : ℕ → ℕ → SecretShare → SecretShare
put byte_idx share_byte s = record s {
  data_bytes = update_at byte_idx (λ b. share_byte) s.data_bytes;
}

abbrev pub new_share : ℕ → ℕ → SecretShare
new_share secret_len share_idx = record {
  index = (share_idx + 1) % 256;
  data_bytes = zeros secret_len;
}

-- The inner loop of split: from `share_idx` on, the bytes of the shares to come.
unfoldable pub distribute : ℕ → ℕ → ℕ → Bytes → List SecretShare → List SecretShare
distribute secret_len byte_idx share_idx [] shares = shares
distribute secret_len byte_idx share_idx (share_byte ∷ byte_shares) shares =
    let grown =
      if leb (length shares) share_idx
      then shares ++ new_share secret_len share_idx ∷ []
      else shares in
    distribute secret_len byte_idx (suc share_idx) byte_shares
      (update_at share_idx (put byte_idx share_byte) grown)

-- The outer loop of split.
unfoldable pub split_bytes :
    ℕ → ℕ → ℕ → ℕ → (ℕ → ℕ → ℕ) → Bytes → List SecretShare → List SecretShare
split_bytes secret_len threshold total byte_idx random [] shares = shares
split_bytes secret_len threshold total byte_idx random (b ∷ bs) shares =
    split_bytes secret_len threshold total (suc byte_idx) random bs
      (distribute secret_len byte_idx 0 (split_byte b threshold total (random byte_idx)) shares)

unfoldable pub split : Bytes → ℕ → ℕ → (ℕ → ℕ → ℕ) → Outcome (List SecretShare) ShareError
split secret threshold total random = new total threshold >>= λ config.
    ok (split_bytes (length secret) threshold total 0 random secret [])

-- The inner loop of reconstruct_byte, at the `j`th share: li_num and li_den.
unfoldable pub lagrange_terms : ℕ → ℕ → ℕ → List (ℕ × ℕ) → ℕ → ℕ → ℕ × ℕ
lagrange_terms i xi j [] li_num li_den = (li_num, li_den)
lagrange_terms i xi j (share ∷ shares) li_num li_den =
    if i == j
    then lagrange_terms i xi (suc j) shares li_num li_den
    else lagrange_terms i xi (suc j) shares (gf_mul li_num (gf_sub 0 share.0))
        (gf_mul li_den (gf_sub xi share.0))

-- The outer loop of reconstruct_byte, at the `i`th share.
unfoldable pub reconstruct_terms : List (ℕ × ℕ) → ℕ → List (ℕ × ℕ) → ℕ → ℕ
reconstruct_terms share_bytes i [] result = result
reconstruct_terms share_bytes i (share ∷ shares) result =
    let terms = lagrange_terms i share.0 0 share_bytes 1 1 in
    let li = gf_mul terms.0 (gf_inv terms.1) in
    reconstruct_terms share_bytes (suc i) shares (gf_add result (gf_mul share.1 li))

-- The indices run to the threshold, and one beyond the shares panics.
unfoldable pub reconstruct_byte : List (ℕ × ℕ) → ℕ → Outcome ℕ ShareError
reconstruct_byte share_bytes threshold =
    if ltb (length share_bytes) threshold
    then panicked
    else ok (reconstruct_terms (take threshold share_bytes) 0 (take threshold share_bytes) 0)

-- `s.data[byte_idx]`
unfoldable pub byte_at : ℕ → Bytes → Outcome ℕ ShareError
byte_at i [] = panicked
byte_at zero (b ∷ bs) = ok b
byte_at (suc i) (b ∷ bs) = byte_at i bs

unfoldable pub column : ℕ → List SecretShare → Outcome (List (ℕ × ℕ)) ShareError
column byte_idx [] = ok []
column byte_idx (s ∷ shares) = byte_at byte_idx s.data_bytes >>= λ b.
    column byte_idx shares >>= λ rest. ok ((s.index, b) ∷ rest)

-- The loop of reconstruct, `n` bytes to go.
unfoldable pub reconstruct_bytes : List SecretShare → ℕ → ℕ → ℕ → Outcome Bytes ShareError
reconstruct_bytes needed_shares threshold zero byte_idx = ok []
reconstruct_bytes needed_shares threshold (suc n) byte_idx =
    column byte_idx needed_shares >>= λ share_bytes. reconstruct_byte share_bytes threshold >>= λ b.
    reconstruct_bytes needed_shares threshold n (suc byte_idx) >>= λ rest. ok (b ∷ rest)

-- `needed_shares[0].data.len()`
unfoldable pub output_len : List SecretShare → Outcome ℕ ShareError
output_len [] = panicked
output_len (s ∷ shares) = ok (length s.data_bytes)

unfoldable pub reconstruct : List SecretShare → ℕ → Outcome Bytes ShareError
reconstruct shares threshold =
    if ltb (length shares) threshold
    then err (too_few_shares threshold (length shares))
    else let needed_shares = take threshold shares in
      output_len needed_shares >>= λ n. reconstruct_bytes needed_shares threshold n 0

unfoldable pub verify_share : SecretShare → ℕ → Bool
verify_share share expected_length = ltb 0 share.index && not (is_empty share.data_bytes)
