-- ===== src/Handshake/Takeover.antt =====
-- crates/messenger/src/client.rs: what a handshake from anyone does to a session.
use shadowgram.Base.{string_Eq}
