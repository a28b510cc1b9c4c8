-- ===== src/Threshold/Tests.antt =====
-- crates/identity/src/threshold.rs: a secret of two bytes shared two of three, and the theorems
-- at it.
use shadowgram.Base.{refl, inl, inr, All, arith, [], ◌≡◌, ◌∷◌, Bytes, ℕ, List}
use shadowgram.Base.Outcome.{ok, err}
use shadowgram.Threshold.{SecretShare, new, too_few_shares}
use shadowgram.Threshold.Gf.{gf_mul, gf_mul_rounds, gf_double, gf_inv, gf_inv_from}
use shadowgram.Threshold.Sharing.{
  output_len, reconstruct_bytes, column, byte_at, reconstruct_byte, reconstruct_terms,
  lagrange_terms, split_bytes, distribute, put, zeros, update_at, split_byte, eval_points, draw,
  eval_polynomial, reconstruct, eval_terms, split,
}
use shadowgram.Threshold.Recovery.{IsByte}
use shadowgram.Threshold.Field.{gf_mul-gf_inv}
use shadowgram.Threshold.Secrets.{IsAmong, reconstruct-split}
use shadowgram.Threshold.Secrecy.{split_hides}

abbrev secret : Bytes
secret = 42 ∷ 200 ∷ []

abbrev random : ℕ → ℕ → ℕ
random i j = 7

program : Unit {0}
unfolding gf_mul gf_mul_rounds gf_double gf_inv gf_inv_from eval_terms eval_polynomial draw
    eval_points split_byte update_at zeros put distribute split_bytes split lagrange_terms
    reconstruct_terms reconstruct_byte byte_at column reconstruct_bytes output_len reconstruct new
program = tt

abbrev share : ℕ → ℕ → ℕ → SecretShare
share i a b = record { index = i; data_bytes = a ∷ b ∷ [] }

abbrev shares : List SecretShare
shares = share 1 45 207 ∷ share 2 36 198 ∷ share 3 35 193 ∷ []

split_test : split secret 2 3 random ≡ ok shares
unfolding program
split_test = refl

too_few_test : reconstruct (share 1 45 207 ∷ []) 2 ≡ err (too_few_shares 2 1)
unfolding program
too_few_test = refl

-- The same index twice gives another secret.
same_index_test : reconstruct (share 1 45 207 ∷ share 1 45 207 ∷ []) 2 ≡ ok (0 ∷ 0 ∷ [])
unfolding program
same_index_test = refl

abbrev bytes : (i j : ℕ) → IsByte (random i j)
bytes i j = omega arith

abbrev chosen : List SecretShare
chosen = share 3 35 193 ∷ share 1 45 207 ∷ []

reconstruct-split_example : reconstruct chosen 2 ≡ ok secret
reconstruct-split_example =
    reconstruct-split secret 2 3 random shares chosen (λ e. ground arith)
      (omega arith, (omega arith, tt)) bytes (omega arith) split_test (omega arith)
      (inr (inr (inl refl)), (inl refl, tt)) ((omega arith, tt), (tt, tt))

gf_mul-gf_inv_example : gf_mul 83 (gf_inv 83) ≡ 1
gf_mul-gf_inv_example = gf_mul-gf_inv 83 (omega arith) (omega arith)

split_hides_example :
    (draws : ℕ → ℕ → ℕ) × ((i j : ℕ) → IsByte (draws i j))
    × (others : List SecretShare) × (split (0 ∷ 255 ∷ []) 2 3 draws ≡ ok others)
    × All (λ s. IsAmong s others) (share 2 36 198 ∷ [])
split_hides_example =
    split_hides secret (0 ∷ 255 ∷ []) 2 3 random shares (share 2 36 198 ∷ [])
      (omega arith, (omega arith, tt)) (omega arith, (omega arith, tt)) (omega arith) bytes
      (omega arith) split_test (inr (inl refl), tt) (omega arith)
