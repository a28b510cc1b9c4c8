-- ===== src/Padding/Tests.antt =====
-- crates/network/src/padding.rs: the theorems at the default configuration and small sizes.
use shadowgram.Base.{ℕ, zero, suc, ◌≡◌, refl, ap, true, List, [], ◌∷◌, Bytes, arith, length, All}
use shadowgram.Base.Outcome
use shadowgram.Padding.{
  PaddingConfig, PaddedMessage, round_up, padded_size, pad, ConstantBandwidth, packets_needed,
  fragment, reassemble, fragment_count, fragment_of, fragments_of, chunks_from, div_up,
}
use shadowgram.Padding.Sizes.{Fills, IsRoomy}
use shadowgram.Padding.Fragments.{reassemble-fragment}

abbrev zeros : ℕ → Bytes
zeros zero = []
zeros (suc n) = 0 ∷ zeros n

zeros-Fills : Fills zeros
zeros-Fills zero = refl
zeros-Fills (suc n) = ap suc (zeros-Fills n)

abbrev default : PaddingConfig
default = record {
  min_size = 256;
  granularity = 64;
  max_size = 65536;
  random_padding = true;
  random_range = 1024;
}

abbrev bytes : Bytes
bytes = 1 ∷ 2 ∷ 3 ∷ []

abbrev message : PaddedMessage
message = record { payload = bytes; padding = []; total_size = 0 }

abbrev other : PaddedMessage
other = record { payload = 7 ∷ []; padding = []; total_size = 0 }

roomy : IsRoomy default 3
roomy = record { fits = omega arith; step = omega arith; room = omega arith }

one_byte_fits : IsRoomy default 1
one_byte_fits = record { fits = omega arith; step = omega arith; room = omega arith }

-- 256 bytes and 100 more, rounded up to 384.
size_384 : (pad zeros 100 default message).0.total_size ≡ 384
unfolding pad padded_size round_up
size_384 = refl

fragments_of_two : fragment zeros 2 bytes ≡ Outcome.ok ((1 ∷ 2 ∷ []) ∷ (3 ∷ 0 ∷ []) ∷ [])
unfolding fragment chunks_from fragments_of fragment_of
fragments_of_two = refl

reassemble-fragment_example :
    (fragments : List Bytes) × (fragment zeros 2 bytes ≡ Outcome.ok fragments)
    × (reassemble 2 fragments 3 ≡ bytes)
    × (fragment_count 2 3 ≡ Outcome.ok (length fragments))
    × All (λ f. length f ≡ 2) fragments
reassemble-fragment_example =
    reassemble-fragment zeros zeros-Fills 2 bytes (omega arith) (omega arith)

abbrev packets : ConstantBandwidth
packets = record { packet_size = 1000; bytes_sent = 3000; target_per_interval = 5000 }

two_needed : packets_needed packets ≡ Outcome.ok 2
unfolding packets_needed div_up
two_needed = refl
