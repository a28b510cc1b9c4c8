-- ===== src/Ratchet/Skipped.antt =====
-- crates/crypto/src/double_ratchet.rs: the number of skipped keys.
use shadowgram.Base.{
  ℕ, zero, suc, ◌+◌, ◌%◌, ◌≤◌, ◌<◌, ◌≡◌, Bool, not, ◌===◌, Option, none, some, List, [], ◌∷◌, Bytes,
  bytes_Eq, length, ltb, if◌then◌else◌, u64_mod, u64_sub, lookup, insert, remove, length-insert,
  length-remove, contains_key, Eq, arith, Bool-cases, Option-cases, inl, inr, Result,
}
use shadowgram.Base
use shadowgram.Base.Outcome.{Outcome-cases}
use shadowgram.Crypto.{Primitives}
use shadowgram.Ratchet.{
  MessageKey, ChainKey, SkipKey, skip_key_Eq, DoubleRatchet, MessageHeader, to_dh_public, next,
}
use shadowgram.Ratchet.Steps.{
  store_skipped, dh_ratchet, perform_dh_ratchet_recv, advance, take_skipped, receiving_key, decrypt,
  derive_chain_keys,
}

length-store_skipped :
    (max_skip : ℕ) (dh : Bytes) (start : ℕ) (mks : List MessageKey)
    (skipped : List (SkipKey × MessageKey))
    → length skipped ≤ max_skip
    → length (store_skipped max_skip dh start mks skipped) ≤ max_skip
unfolding store_skipped
length-store_skipped max_skip dh start [] skipped h = h
length-store_skipped max_skip dh start (mk ∷ mks) skipped h =
    let k : SkipKey = record { dh = dh; index = start } in
    let more = if ltb (length skipped) max_skip then insert k mk skipped else skipped in
    let few : length more ≤ max_skip = ground (arith, length-insert k mk skipped) in
    length-store_skipped max_skip dh ((start + 1) % u64_mod) mks more few

-- No more skipped keys than the state allows.
abbrev pub IsBounded : DoubleRatchet → Type 0
IsBounded s = length s.skipped_keys ≤ s.max_skip

module _ (p : Primitives) where
  advance-IsBounded :
      (s : DoubleRatchet) (dh : Bytes) (counter : ℕ) (chain : ChainKey)
      → IsBounded s
      → IsBounded (advance p s dh counter chain).0
        × ((advance p s dh counter chain).0.max_skip ≡ s.max_skip)
  unfolding advance
  advance-IsBounded s dh counter chain h = elim (Outcome-cases (next p chain)) [
    | inr (inl (_, e)) ↦ ground arith
    | inr (inr e) ↦ ground arith
    | inl ((chain', mk), e) ↦
        let keys = derive_chain_keys p ((u64_sub counter chain'.counter + 1) % u64_mod) chain' in
        elim (Outcome-cases keys) [
          | inr (inl (_, e')) ↦ ground arith
          | inr (inr e') ↦ ground arith
          | inl (mks, e') ↦ ground (
            arith,
            length-store_skipped s.max_skip dh (u64_sub chain'.counter 1) mks s.skipped_keys h,
          )
        ]
  ]

  receiving_key-IsBounded :
      (s : DoubleRatchet) (dh : Bytes) (counter : ℕ)
      → IsBounded s
      → IsBounded (receiving_key p s dh counter).0
        × ((receiving_key p s dh counter).0.max_skip ≡ s.max_skip)
  unfolding receiving_key take_skipped
  receiving_key-IsBounded s dh counter h = elim (Option-cases s.receiving_chain) [
    | inl e ↦ ground arith
    | inr (chain, e) ↦ ground (
      arith,
      advance-IsBounded s dh counter chain h,
      length-remove (record { dh = dh; index = counter }) s.skipped_keys,
    )
  ]

  perform_dh_ratchet_recv-skipped :
      (new_dh : Bytes) (s : DoubleRatchet) (dh : Bytes)
      → ((perform_dh_ratchet_recv p new_dh s dh).0.skipped_keys ≡ s.skipped_keys)
        × ((perform_dh_ratchet_recv p new_dh s dh).0.max_skip ≡ s.max_skip)
  unfolding perform_dh_ratchet_recv dh_ratchet
  perform_dh_ratchet_recv-skipped new_dh s dh = ground arith

  -- Decryption, whatever it answers, keeps the number of skipped keys within what the state allows,
  -- and what it allows.
  pub decrypt-IsBounded :
      (new_dh : Bytes) (s : DoubleRatchet) (c : Bytes) (header : MessageHeader)
      → IsBounded s
      → IsBounded (decrypt p new_dh s c header).0
        × ((decrypt p new_dh s c header).0.max_skip ≡ s.max_skip)
  unfolding decrypt to_dh_public
  decrypt-IsBounded new_dh s c header h =
      let remote = header.dh_public in
      let (s1, ratcheted) =
        if not (header.dh_public === s.remote_dh_public)
        then perform_dh_ratchet_recv p new_dh s remote
        else (s, Base.ok tt) in
      let kept = perform_dh_ratchet_recv-skipped new_dh s remote in
      let same : (s1.skipped_keys ≡ s.skipped_keys) × (s1.max_skip ≡ s.max_skip) = ground arith in
      let h1 : IsBounded s1 = ground arith in
      ground (arith, receiving_key-IsBounded s1 remote header.counter h1, same)
