-- ===== src/Threshold/Recovery.antt =====
-- crates/identity/src/threshold.rs: enough shares of a split give the secret back.
use shadowgram.Base.{
  ◌+◌, ◌-◌, ◌++◌, All, Bytes, ◌∙◌, false, ℕ, zero, suc, ◌<◌, ◌≡◌, ◌≢◌, refl, ap, arith, List, [],
  ◌∷◌, length, map, take, take_all, ltb, ge→not-ltb,
}
use shadowgram.Base.Outcome.{ok}
use shadowgram.Threshold.Algebra.{◌⊕◌, ◌⊗◌, add-nil, nil-mul}
use shadowgram.Threshold.Polynomials.{eval}
use shadowgram.Threshold.Interpolation.{AreDistinct, interpolation, sum_picks, weight}
use shadowgram.Threshold.ByteField.{one_byte-ne, Byte, gf_Field, nil_byte}
use shadowgram.Threshold.Terms.{pairs, length-pairs, reconstruct_terms_from}
use shadowgram.Threshold.Sharing.{eval_polynomial, column, byte_at, draw, reconstruct_byte}
use shadowgram.Threshold.{SecretShare}
use shadowgram.Threshold.Splitting.{share_data}

abbrev pub IsByte : ℕ → Type 0
IsByte b = b < 256

-- The draws as bytes.
pub byte_draws : (n i : ℕ) (r : ℕ → ℕ) → ((j : ℕ) → IsByte (r j)) → List Byte
byte_draws zero i r h = []
byte_draws (suc n) i r h = (r i, h i) ∷ byte_draws n (suc i) r h

pub map-byte_draws :
    (n i : ℕ) (r : ℕ → ℕ) (h : (j : ℕ) → IsByte (r j))
    → map (λ b. b.0) (byte_draws n i r h) ≡ draw n i r
unfolding byte_draws draw
map-byte_draws zero i r h = refl
map-byte_draws (suc n) i r h = ap (◌∷◌ (r i)) (map-byte_draws n (suc i) r h)

pub length-byte_draws :
    (n i : ℕ) (r : ℕ → ℕ) (h : (j : ℕ) → IsByte (r j)) → length (byte_draws n i r h) ≡ n
unfolding byte_draws
length-byte_draws zero i r h = refl
length-byte_draws (suc n) i r h = omega (arith, length-byte_draws n (suc i) r h)

-- The value at zero is the first coefficient.
pub eval-nil : (b : Byte) (cs : List Byte) → eval (b ∷ cs) nil_byte ≡ b
unfolding eval
eval-nil b cs = ap (λ (c : Byte). b ⊕ c) (nil-mul (eval cs nil_byte)) ∙ add-nil b

-- Values of a polynomial at as many distinct points as it has coefficients give the first one.
pub reconstruct_byte-pairs :
    (b : Byte) (cs nodes : List Byte)
    → AreDistinct nodes
    → length (b ∷ cs) ≡ length nodes
    → reconstruct_byte (pairs (eval (b ∷ cs)) nodes) (length nodes) ≡ ok b.0
unfolding reconstruct_byte
reconstruct_byte-pairs b cs nodes distinct size =
    let f = eval (b ∷ cs) in
    let enough : ltb (length (pairs f nodes)) (length nodes) ≡ false =
      ge→not-ltb _ _ (omega (arith, length-pairs f nodes)) in
    let all : take (length nodes) (pairs f nodes) ≡ pairs f nodes =
      take_all _ _ (omega (arith, length-pairs f nodes)) in
    rw (enough, all)
      (ap ok (
        reconstruct_terms_from f [] nodes nil_byte
        ∙ ap (λ (b : Byte). b.0)
            (gf_Field.nil-add (sum_picks (λ y others. f y ⊗ weight y others) nodes)
              ∙ interpolation nodes (b ∷ cs) one_byte-ne distinct (omega (arith, size))
              ∙ eval-nil b cs)))

-- The data of a share at the place of a byte.
pub byte_at-share_data :
    (t j x b : ℕ) (random : ℕ → ℕ → ℕ) (pre post : Bytes)
    → byte_at (length pre) (share_data t random j (pre ++ b ∷ post) x)
      ≡ ok (eval_polynomial (b ∷ draw (t - 1) 0 (random (j + length pre))) x)
unfolding byte_at share_data
byte_at-share_data t j x b random [] post =
    ap (λ n. ok (eval_polynomial (b ∷ draw (t - 1) 0 (random n)) x)) (omega arith)
byte_at-share_data t j x b random (c ∷ pre) post =
    byte_at-share_data t (suc j) x b random pre post
    ∙ ap (λ n. ok (eval_polynomial (b ∷ draw (t - 1) 0 (random n)) x)) (omega arith)

-- A share whose data are those of its index.
abbrev pub IsShare : (ℕ → Bytes) → SecretShare → Type 0
IsShare f s = (s.data_bytes ≡ f s.index) × IsByte s.index

unfoldable pub nodes : (f : ℕ → Bytes) (ss : List SecretShare) → All (IsShare f) ss → List Byte
nodes f [] h = []
nodes f (s ∷ ss) h = (s.index, h.0.1) ∷ nodes f ss h.1

pub length-nodes :
    (f : ℕ → Bytes) (ss : List SecretShare) (h : All (IsShare f) ss)
    → length (nodes f ss h) ≡ length ss
unfolding nodes
length-nodes f [] h = refl
length-nodes f (s ∷ ss) h = omega (arith, length-nodes f ss h.1)

-- No two shares have the same index.
abbrev pub AreApart : List SecretShare → Type 0
AreApart [] = Unit
AreApart (s ∷ ss) = All (λ r. r.index ≢ s.index) ss × AreApart ss

nodes_apart :
    (f : ℕ → Bytes) (ss : List SecretShare) (h : All (IsShare f) ss) (x : Byte)
    → All (λ r. r.index ≢ x.0) ss
    → All (λ y. y ≢ x) (nodes f ss h)
unfolding nodes
nodes_apart f [] h x apart = tt
nodes_apart f (s ∷ ss) h x apart =
    ((λ e. apart.0 (ap (λ (b : Byte). b.0) e)), nodes_apart f ss h.1 x apart.1)

pub nodes-AreDistinct :
    (f : ℕ → Bytes) (ss : List SecretShare) (h : All (IsShare f) ss)
    → AreApart ss
    → AreDistinct (nodes f ss h)
unfolding nodes
nodes-AreDistinct f [] h apart = tt
nodes-AreDistinct f (s ∷ ss) h apart =
    (nodes_apart f ss h.1 (s.index, h.0.1) apart.0, nodes-AreDistinct f ss h.1 apart.1)

-- The bytes of a column are the values of one polynomial at the indices.
pub column-nodes :
    (f : ℕ → Bytes) (k : ℕ) (v : Byte → Byte) (ss : List SecretShare) (h : All (IsShare f) ss)
    → ((x : Byte) → byte_at k (f x.0) ≡ ok (v x).0)
    → column k ss ≡ ok (pairs v (nodes f ss h))
unfolding column pairs nodes
column-nodes f k v [] h at = refl
column-nodes f k v (s ∷ ss) h at =
    rw (h.0.0, at (s.index, h.0.1), column-nodes f k v ss h.1 at) refl
