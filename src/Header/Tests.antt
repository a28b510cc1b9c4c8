-- ===== src/Header/Tests.antt =====
-- crates/messenger/src/message.rs: a header and its bytes.
use shadowgram.Base.{
  ◌≡◌, refl, String, true, false, [], ◌∷◌, ◌++◌, Bytes, take, to_le_bytes, from_le_bytes,
}
use shadowgram.Base.Outcome.{ok, err, slice, array_of}
use shadowgram.Header.{
  MessageHeader, invalid_format, new, with_aad, serialize, deserialize, deserialize_fields,
  deserialize_aad, optional_aad,
}
use shadowgram.Header.Parsing.{is_complete, declared_length, header_at, deserialize-is_complete}

abbrev key : Bytes
key =
    1 ∷ 2 ∷ 3 ∷ 4 ∷ 5 ∷ 6 ∷ 7 ∷ 8 ∷ 9 ∷ 10 ∷ 11 ∷ 12 ∷ 13 ∷ 14 ∷ 15 ∷ 16 ∷ 17 ∷ 18 ∷ 19 ∷ 20 ∷ 21
    ∷ 22 ∷ 23 ∷ 24 ∷ 25 ∷ 26 ∷ 27 ∷ 28 ∷ 29 ∷ 30 ∷ 31 ∷ 32 ∷ []

abbrev header : MessageHeader
header = record {
  dh_public = key;
  message_number = 300;
  previous_chain_length = 70000;
  ratchet_level = 2;
  aad = 9 ∷ 8 ∷ 7 ∷ [];
}

-- The bytes of `header`, with two more behind them.
abbrev wire : Bytes
wire =
    key
    ++ (44 ∷ 1 ∷ 0 ∷ 0 ∷ 0 ∷ 0 ∷ 0 ∷ 0 ∷ 112 ∷ 17 ∷ 1 ∷ 0 ∷ 2 ∷ 0 ∷ 0 ∷ 0 ∷ 3 ∷ 0 ∷ 0 ∷ 0 ∷ 9 ∷ 8
        ∷ 7 ∷ 5 ∷ 5 ∷ [])

program : Unit {0}
unfolding new with_aad serialize deserialize deserialize_fields deserialize_aad optional_aad
    array_of slice to_le_bytes from_le_bytes is_complete declared_length header_at
program = tt

parsed : deserialize wire ≡ ok header
unfolding program
parsed = refl

cut_prefix : deserialize (take 50 wire) ≡ err (invalid_format "AAD length prefix is truncated")
unfolding program
cut_prefix = refl

built : with_aad (new key 300 70000) [] ≡ record header { ratchet_level = 0; aad = [] }
unfolding program
built = refl

deserialize-is_complete_example :
    (is_complete wire ≡ true → deserialize wire ≡ ok (header_at wire))
    × (is_complete wire ≡ false → (m : String) × (deserialize wire ≡ err (invalid_format m)))
deserialize-is_complete_example = deserialize-is_complete wire
