-- ===== src/Header/Layout.antt =====
-- crates/messenger/src/message.rs: where the fields of a serialized header lie.
use shadowgram.Base.{
  ℕ, ◌+◌, ◌≡◌, refl, [], ◌++◌, length, Bytes, append_assoc, length-append, arith, String, ==_iff,
  append-nil,
}
use shadowgram.Base.Outcome.{ok, slice, slice-append, array_of}
use shadowgram.Header.{MessageError, array}

-- Six pieces in a row, with the lengths of the header's fields.
module _ (d n p r l aad : Bytes) (hd : length d ≡ 32) (hn : length n ≡ 8) (hp : length p ≡ 4)
    (hr : length r ≡ 4) (hl : length l ≡ 4) where
  abbrev pub row : Bytes
  row = d ++ (n ++ (p ++ (r ++ (l ++ aad))))

  pub length-row : length row ≡ 52 + length aad
  length-row = omega (
    arith,
    length-append d (n ++ (p ++ (r ++ (l ++ aad)))),
    length-append n (p ++ (r ++ (l ++ aad))),
    length-append p (r ++ (l ++ aad)),
    length-append r (l ++ aad),
    length-append l aad,
  )

  pub slice-key : slice {E = MessageError} row 0 32 ≡ ok d
  slice-key = slice-append [] d (n ++ (p ++ (r ++ (l ++ aad)))) 0 32 refl (omega arith)

  pub slice-number : slice {E = MessageError} row 32 40 ≡ ok n
  slice-number = slice-append d n (p ++ (r ++ (l ++ aad))) 32 40 (omega arith) (omega arith)

  pub slice-chain : slice {E = MessageError} row 40 44 ≡ ok p
  slice-chain = rw (← append_assoc d n (p ++ (r ++ (l ++ aad)))) (
      slice-append (d ++ n) p (r ++ (l ++ aad)) 40 44 (omega (arith, length-append d n))
        (omega (arith, length-append d n)))

  pub slice-level : slice {E = MessageError} row 44 48 ≡ ok r
  slice-level =
      rw (← append_assoc d n (p ++ (r ++ (l ++ aad))), ← append_assoc (d ++ n) p (r ++ (l ++ aad)))
        (slice-append ((d ++ n) ++ p) r (l ++ aad) 44 48
          (omega (arith, length-append d n, length-append (d ++ n) p))
          (omega (arith, length-append d n, length-append (d ++ n) p)))

  pub slice-prefix : slice {E = MessageError} row 48 52 ≡ ok l
  slice-prefix =
      rw
        (
          ← append_assoc d n (p ++ (r ++ (l ++ aad))),
          ← append_assoc (d ++ n) p (r ++ (l ++ aad)),
          ← append_assoc ((d ++ n) ++ p) r (l ++ aad),
        )
        (slice-append (((d ++ n) ++ p) ++ r) l aad 48 52 before (omega (arith, before, hl)))
    where
      before : 48 ≡ length (((d ++ n) ++ p) ++ r)
      before =
          omega
            (arith, length-append d n, length-append (d ++ n) p, length-append ((d ++ n) ++ p) r)

  pub slice-aad : slice {E = MessageError} row 52 (52 + length aad) ≡ ok aad
  slice-aad =
      rw
        (
          ← append_assoc d n (p ++ (r ++ (l ++ aad))),
          ← append_assoc (d ++ n) p (r ++ (l ++ aad)),
          ← append_assoc ((d ++ n) ++ p) r (l ++ aad),
          ← append_assoc (((d ++ n) ++ p) ++ r) l aad,
        )
        (rw (append-nil aad) at (
          slice-append {E = MessageError} ((((d ++ n) ++ p) ++ r) ++ l) aad [] 52 (52 + length aad)
            before (omega (arith, before))))
    where
      before : 52 ≡ length ((((d ++ n) ++ p) ++ r) ++ l)
      before = omega (
        arith,
        length-append d n,
        length-append (d ++ n) p,
        length-append ((d ++ n) ++ p) r,
        length-append (((d ++ n) ++ p) ++ r) l,
      )

-- `array` succeeds on a slice of the right length.
pub array-slice :
    (n a b : ℕ) (bytes piece : Bytes) (message : String)
    → slice {E = MessageError} bytes a b ≡ ok piece
    → length piece ≡ n
    → array n bytes a b message ≡ ok piece
unfolding array_of
array-slice n a b bytes piece message e h = rw (e, (==_iff (length piece) n).1 h)
