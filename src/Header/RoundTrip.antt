-- ===== src/Header/RoundTrip.antt =====
-- crates/messenger/src/message.rs: a header comes back from its bytes.
use shadowgram.Base.{
  ◌+◌, ◌%◌, ◌≡◌, ◌∙◌, length, Bytes, arith, to_le_bytes, from_le_bytes, length-to_le_bytes,
  from_le_bytes-to_le_bytes, u32_mod, ge→not-ltb, lt→ltb,
}
use shadowgram.Base.Outcome.{ok}
use shadowgram.Header.{
  MessageHeader, IsValid, serialize, deserialize, deserialize_fields, deserialize_aad, optional_aad,
}
use shadowgram.Header.Layout.{
  slice-key, slice-number, slice-chain, slice-level, slice-prefix, slice-aad, length-row,
  array-slice, row,
}

-- What the parser reads from six pieces of the right lengths.
module _ (d n p r l aad : Bytes) (hd : length d ≡ 32) (hn : length n ≡ 8) (hp : length p ≡ 4)
    (hr : length r ≡ 4) (hl : length l ≡ 4) (size : from_le_bytes l ≡ length aad) where
  deserialize_aad-row : deserialize_aad (row d n p r l aad hd hn hp hr hl) ≡ ok aad
  unfolding deserialize_aad
  deserialize_aad-row =
      let bytes = row d n p r l aad hd hn hp hr hl in
      rw
        (
          array-slice 4 48 52 bytes l "Invalid AAD length"
              (slice-prefix d n p r l aad hd hn hp hr hl) hl,
          size,
          ge→not-ltb (length bytes) (52 + length aad)
              (omega (arith, length-row d n p r l aad hd hn hp hr hl)),
        )
        (slice-aad d n p r l aad hd hn hp hr hl)

  optional_aad-row : optional_aad (row d n p r l aad hd hn hp hr hl) ≡ ok aad
  unfolding optional_aad
  optional_aad-row =
      let bytes = row d n p r l aad hd hn hp hr hl in
      let long = length-row d n p r l aad hd hn hp hr hl in
      rw
        (
          lt→ltb 48 (length bytes) (omega (arith, long)),
          ge→not-ltb (length bytes) 52 (omega (arith, long)),
        )
        deserialize_aad-row

  deserialize-row :
      deserialize (row d n p r l aad hd hn hp hr hl)
      ≡ ok (record {
        dh_public = d;
        message_number = from_le_bytes n;
        previous_chain_length = from_le_bytes p;
        ratchet_level = from_le_bytes r;
        aad = aad;
      })
  unfolding deserialize deserialize_fields
  deserialize-row =
      let bytes = row d n p r l aad hd hn hp hr hl in
      rw (
        ge→not-ltb (length bytes) 48 (omega (arith, length-row d n p r l aad hd hn hp hr hl)),
        slice-key d n p r l aad hd hn hp hr hl,
        array-slice 8 32 40 bytes n "Missing message number"
            (slice-number d n p r l aad hd hn hp hr hl) hn,
        array-slice 4 40 44 bytes p "Missing previous chain length"
            (slice-chain d n p r l aad hd hn hp hr hl) hp,
        array-slice 4 44 48 bytes r "Missing ratchet level"
            (slice-level d n p r l aad hd hn hp hr hl) hr,
        optional_aad-row,
      )

pub deserialize-serialize : (h : MessageHeader) → IsValid h → deserialize (serialize h) ≡ ok h
unfolding serialize
deserialize-serialize h v =
    let size : length h.aad % u32_mod ≡ length h.aad = omega (arith, v.short) in
    deserialize-row h.dh_public (to_le_bytes 8 h.message_number)
      (to_le_bytes 4 h.previous_chain_length) (to_le_bytes 4 h.ratchet_level)
      (to_le_bytes 4 (length h.aad % u32_mod)) h.aad v.key (length-to_le_bytes 8 h.message_number)
      (length-to_le_bytes 4 h.previous_chain_length) (length-to_le_bytes 4 h.ratchet_level)
      (length-to_le_bytes 4 (length h.aad % u32_mod))
      (from_le_bytes-to_le_bytes 4 (length h.aad % u32_mod) (omega arith) ∙ size)
    ∙ rw (
      from_le_bytes-to_le_bytes 8 h.message_number v.number,
      from_le_bytes-to_le_bytes 4 h.previous_chain_length v.chain,
      from_le_bytes-to_le_bytes 4 h.ratchet_level v.level,
    )
