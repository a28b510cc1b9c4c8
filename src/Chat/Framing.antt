-- ===== src/Chat/Framing.antt =====
-- crates/messenger/src/chat.rs: the framing of a message around the double ratchet.
use shadowgram.Base.{◌<◌, ◌≡◌, length, Bytes, u32_mod, u64_mod, take-append, append-nil}
use shadowgram.Base
use shadowgram.Base.Outcome.{ok}
use shadowgram.Ratchet.{MessageHeader}
use shadowgram.Ratchet.Steps
use shadowgram.Chat.{HeaderFormat}

-- A header is read back as it was written.
abbrev pub ReadsHeaders : HeaderFormat → Type 0
ReadsHeaders format =
    (h : MessageHeader) (bs : Bytes)
    → format.to_bytes h ≡ Base.ok bs
    → (format.from_bytes bs ≡ Base.ok h) × (length bs < u32_mod)
