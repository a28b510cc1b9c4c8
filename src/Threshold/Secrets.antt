-- ===== src/Threshold/Secrets.antt =====
-- crates/identity/src/threshold.rs: reconstruct after split.
use shadowgram.Base.{
  refl, length-append, append_assoc, ge→not-ltb, false, ltb, length-take, All-take, sym, ◌∙◌, ◌-◌,
  ap, All-map, take, arith, ◌++◌, inr, length, inl, ◌<◌, ◌⊎◌, ◌≤◌, [], All, ◌≢◌, ◌≡◌, ◌+◌, ◌∷◌,
  Bytes, List, ℕ, zero, suc,
}
use shadowgram.Base.Outcome.{ok_injective, ok}
use shadowgram.Threshold.{SecretShare, new}
use shadowgram.Threshold.Sharing.{
  reconstruct_byte, draw, eval_polynomial, byte_at, output_len, split, reconstruct_bytes,
  reconstruct,
}
use shadowgram.Threshold.Splitting.{split_lem, share_data, rows}
use shadowgram.Threshold.Recovery.{
  column-nodes, length-byte_draws, nodes-AreDistinct, reconstruct_byte-pairs, length-nodes, nodes,
  map-byte_draws, byte_at-share_data, byte_draws, AreApart, IsShare, IsByte,
}
use mathlib.Core.Path.{subst}
use shadowgram.Threshold.ByteField.{gf_Field, Byte}
use shadowgram.Threshold.Polynomials.{eval}
use shadowgram.Threshold.Terms.{pairs, eval_polynomial_lem}

-- A share is one of some shares.
abbrev pub IsAmong : SecretShare → List SecretShare → Type 0
IsAmong s [] = ⊥
IsAmong s (r ∷ rs) = (s ≡ r) ⊎ IsAmong s rs

pub among-rows :
    (f : ℕ → Bytes) (n x : ℕ) (s : SecretShare) → x + n ≤ 256 → IsAmong s (rows x n f) → IsShare f s
unfolding rows
among-rows f zero x s fits h = absurd h
among-rows f (suc n) x s fits (inl e) = (
  ap (λ (r : SecretShare). r.data_bytes) e ∙ sym (ap (λ (r : SecretShare). f r.index) e),
  omega (arith, ap (λ (r : SecretShare). r.index) e),
)
among-rows f (suc n) x s fits (inr r) = among-rows f n (suc x) s (omega arith) r

-- The loop of reconstruct over the bytes to come.
reconstruct_bytes_from :
    (t : ℕ) (random : ℕ → ℕ → ℕ) (done rest : Bytes) (ss : List SecretShare)
    → ((i j : ℕ) → IsByte (random i j))
    → All IsByte rest
    → (h : All (IsShare (share_data t random 0 (done ++ rest))) ss) → AreApart ss
    → 1 ≤ t
    → length ss ≡ t
    → reconstruct_bytes ss t (length rest) (length done) ≡ ok rest
unfolding reconstruct_bytes
reconstruct_bytes_from t random done [] ss draws small h apart low size = refl
reconstruct_bytes_from t random done (b ∷ rest) ss draws small h apart low size =
    let k = length done in
    let coefficients = byte_draws (t - 1) 0 (random k) (draws k) in
    let first : Byte = (b, small.0) in
    let f = share_data t random 0 (done ++ b ∷ rest) in
    let at : (x : Byte) → byte_at k (f x.0) ≡ ok (eval (first ∷ coefficients) x).0 = λ x.
      byte_at-share_data t 0 x.0 b random done rest
      ∙ ap (λ n. ok (eval_polynomial (b ∷ draw (t - 1) 0 (random n)) x.0)) (omega arith)
      ∙ ap (λ cs. ok (eval_polynomial (b ∷ cs) x.0))
          (sym (map-byte_draws (t - 1) 0 (random k) (draws k)))
      ∙ ap ok (eval_polynomial_lem (first ∷ coefficients) x) in
    let count : length (nodes f ss h) ≡ t = omega (arith, length-nodes f ss h) in
    let this : reconstruct_byte (pairs (eval (first ∷ coefficients)) (nodes f ss h)) t ≡ ok b =
      subst (λ n. reconstruct_byte (pairs (eval (first ∷ coefficients)) (nodes f ss h)) n ≡ ok b)
        count
        (reconstruct_byte-pairs first coefficients (nodes f ss h) (nodes-AreDistinct f ss h apart)
          (omega (arith, length-byte_draws (t - 1) 0 (random k) (draws k)))) in
    let moved : done ++ b ∷ rest ≡ (done ++ b ∷ []) ++ rest =
      sym (append_assoc done (b ∷ []) rest) in
    let next =
      reconstruct_bytes_from t random (done ++ b ∷ []) rest ss draws small.1
        (subst (λ (l : Bytes). All (IsShare (share_data t random 0 l)) ss) moved h) apart low
        size in
    let position : length (done ++ b ∷ []) ≡ suc k = omega (arith, length-append done (b ∷ [])) in
    let rest_of : reconstruct_bytes ss t (length rest) (suc k) ≡ ok rest =
      subst (λ n. reconstruct_bytes ss t (length rest) n ≡ ok rest) position next in
    rw (column-nodes f k (eval (first ∷ coefficients)) ss h at, this, rest_of) refl

-- A split that answers had a threshold between one and the total.
pub split_ok :
    (secret : Bytes) (t n : ℕ) (random : ℕ → ℕ → ℕ) (shares : List SecretShare)
    → split secret t n random ≡ ok shares
    → (1 ≤ t) × (t ≤ n)
unfolding split new
split_ok secret t n random shares made = ground arith

pub among-split :
    (f : ℕ → Bytes) (n : ℕ) (shares chosen : List SecretShare)
    → shares ≡ rows 1 n f
    → n < 256
    → All (λ s. IsAmong s shares) chosen
    → All (IsShare f) chosen
among-split f n shares chosen e fits among =
    All-map (λ s. IsAmong s shares) (IsShare f)
      (λ s h. among-rows f n 1 s (omega arith) (subst (λ (l : List SecretShare). IsAmong s l) e h))
      chosen among

pub length-share_data :
    (t : ℕ) (random : ℕ → ℕ → ℕ) (k : ℕ) (bs : Bytes) (x : ℕ)
    → length (share_data t random k bs x) ≡ length bs
unfolding share_data
length-share_data t random k [] x = refl
length-share_data t random k (b ∷ bs) x = omega (arith, length-share_data t random (suc k) bs x)

output_len-shares :
    (f : ℕ → Bytes) (m : ℕ) (ss : List SecretShare)
    → All (IsShare f) ss
    → ((x : ℕ) → length (f x) ≡ m)
    → 1 ≤ length ss
    → output_len ss ≡ ok m
unfolding output_len
output_len-shares f m [] h size low = absurd (omega arith)
output_len-shares f m (s ∷ ss) h size low = rw (h.0.0, size s.index) refl

-- Any shares of a split, as many as the threshold and with different indices, give back a secret
-- that is not empty, whatever the draws.
pub reconstruct-split :
    (secret : Bytes) (t n : ℕ) (random : ℕ → ℕ → ℕ) (shares chosen : List SecretShare)
    → secret ≢ []
    → All IsByte secret
    → ((i j : ℕ) → IsByte (random i j))
    → n < 256
    → split secret t n random ≡ ok shares
    → t ≤ length chosen
    → All (λ s. IsAmong s shares) chosen
    → AreApart (take t chosen)
    → reconstruct chosen t ≡ ok secret
unfolding reconstruct output_len
reconstruct-split [] t n random shares chosen some small draws fits made enough among apart =
    absurd (some refl)
reconstruct-split (b ∷ bs) t n random shares chosen some small draws fits made enough among apart =
    let bounds = split_ok (b ∷ bs) t n random shares made in
    let f = share_data t random 0 (b ∷ bs) in
    let same : shares ≡ rows 1 n f =
      ok_injective (sym made ∙ split_lem b bs t n random bounds.0 bounds.1 fits) in
    let used : All (IsShare f) (take t chosen) =
      All-take (IsShare f) t chosen (among-split f n shares chosen same fits among) in
    let size : length (take t chosen) ≡ t = omega (arith, length-take t chosen) in
    let long : ltb (length chosen) t ≡ false = ge→not-ltb _ _ enough in
    let whole : output_len (take t chosen) ≡ ok (length (b ∷ bs)) =
      output_len-shares f (length (b ∷ bs)) (take t chosen) used
        (length-share_data t random 0 (b ∷ bs)) (omega (arith, bounds.0)) in
    rw (long, whole)
      (reconstruct_bytes_from t random [] (b ∷ bs) (take t chosen) draws small used apart bounds.0
        size)
