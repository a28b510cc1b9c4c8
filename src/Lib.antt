-- ===== src/Lib.antt =====
-- A verification library of Shadowgram, the end-to-end encrypted messenger of this repository: a
-- model of the parts of its Rust crates that decide what is sent, kept, accepted and refused, and
-- theorems about them.
--
-- How the program works. A client (crates/messenger/src/client.rs) has a direct session with each
-- contact and a group chat for each group. A direct message is serialized, sealed with the key of
-- the session and a nonce made of a counter, and put into a network envelope of constant size
-- (crates/network/src/lib.rs); the receiver refuses sequences that it has seen. A group
-- (crates/messenger/src/group.rs) has a root secret that every commit, of a member added, removed
-- or with new keys, rotates; each message has a key of its own, derived from the root secret and
-- its number, and the receiver keeps a window of the numbers that it has seen. The double ratchet
-- (crates/crypto/src/double_ratchet.rs) is the key schedule of chat sessions. A recipient that is
-- offline has its envelopes kept by a relay mailbox, and the sender an outbound queue with a
-- back-off (crates/network/src/mailbox.rs). The client keeps a cache of ephemeral data in memory
-- (crates/storage/src/encrypted_cache.rs). Messages are padded and fragmented against the analysis
-- of traffic (crates/network/src/padding.rs). An identity key is shared among the devices of its
-- owner (crates/identity/src/threshold.rs). Two clients get a session by a handshake: a hybrid key
-- exchange of X25519 and ML-KEM (crates/crypto/src/key_exchange.rs), of which the initiator keeps
-- its key pair until the answer arrives. Over the network an envelope is a frame
-- (crates/network/src/message_transport.rs). What a client sends and receives it keeps, encrypted, in
-- an SQL database (crates/storage/src/database.rs).
--
-- What models what. The names of the definitions are those of the program.
--   Base, Base/*      what the program takes from Rust's standard library: vectors, hash maps as
--                     association lists, strings, words with their wrap-around, Result, and the
--                     Outcome of code that may also panic
--   Crypto, Crypto/*  KeyDerivation of crates/crypto/src/kdf.rs (Crypto/Kdf) and AeadCipher of
--                     crates/crypto/src/aead.rs (Crypto/Aead); Crypto/Sealing: tags
--   Ratchet, Ratchet/*  crates/crypto/src/double_ratchet.rs: chains and messages (Ratchet), the
--                     operations (Ratchet/Steps); Ratchet/Chains, Skipped, Messages: their theorems
--   Header, Header/*  MessageHeader of crates/messenger/src/message.rs and its bytes
--   Group, Group/*    crates/messenger/src/group.rs: the ratchet tree (Group/Tree), GroupState
--                     (Group/State), GroupChat (Group/Chat); Group/Convergence, Commits, Growth,
--                     Members, Replay, Transport: their theorems
--   Envelope, Envelope/*  NetworkEnvelope of crates/network/src/lib.rs and its bytes
--   Session, Session/*  the direct sessions of crates/messenger/src/client.rs: keys and ids
--                     (Session/Keys), send_message and handle_incoming_message (Session/Messages);
--                     Session/Agreement, Delivery, Sequences, Collision: their theorems
--   Mailbox, Mailbox/*  RelayMailbox of crates/network/src/mailbox.rs; Mailbox/Invariant: what its
--                     calls keep; Mailbox/View and Refinement: a queue for each recipient, as the
--                     specification; Mailbox/Delivery, Limits: what a recipient can rely on
--   Outbound, Outbound/*  OutboundQueue of crates/network/src/mailbox.rs
--   Padding, Padding/*  crates/network/src/padding.rs
--   Cache, Cache/*    EncryptedCache of crates/storage/src/encrypted_cache.rs, with the lock that set
--                     holds while it cleans up (Cache/Entries) and its size (Cache/Bounds)
--   Threshold, Threshold/*  crates/identity/src/threshold.rs: GF(256) (Threshold/Gf), Shamir's
--                     sharing (Threshold/Sharing) and MultiDeviceSync (Threshold/Devices); Xor,
--                     Linear, Field, ByteField: the bytes are a field; Algebra, Polynomials,
--                     Interpolation: polynomials over any field of characteristic two; Terms,
--                     Splitting, Recovery, Secrets, Hiding, Secrecy: what the shares determine
--   Frame, Frame/*    the frames of crates/network/src/message_transport.rs
--   Chat, Chat/*      crates/messenger/src/chat.rs: a session over the double ratchet (Chat), its
--                     queues (Chat/Queues), its frames (Chat/Framing)
--   KeyExchange, KeyExchange/*  crates/crypto/src/key_exchange.rs; KeyExchange/Agreement: the two
--                     ends, KeyExchange/Example: concrete operations for the tests
--   Handshake, Handshake/*  the key exchange of crates/messenger/src/client.rs; Completion: an
--                     exchange of two clients, Takeover: an initiation by anyone
--   Contacts, Contacts/*  the contacts, their store and their discovery of
--                     crates/messenger/src/contacts.rs
--   Psi, Psi/*        crates/messenger/src/psi.rs; Psi/Intersection: what the searches find
--   ClientGroups, ClientGroups/*  the calls of crates/messenger/src/client.rs on groups: members and
--                     commits (ClientGroups/Members), messages (ClientGroups/Messages); Sending,
--                     Delivery, Commits, Origin: their theorems
--   Dispatch          process_network_message of crates/messenger/src/client.rs
--   Database, Database/*  crates/storage/src/database.rs: what SQL does to rows (Database/Queries),
--                     the methods on messages, identities and the outbox (Database/Messages,
--                     Identities, Outbox), all that write (Database/Calls); Triggers, Consistency,
--                     Ordering, Sweeping: their theorems
--   Storage, Storage/*  how crates/messenger/src/client.rs keeps messages: its key and blobs
--                     (Storage), persist_message and load_messages (Storage/Messages), contacts and
--                     sessions (Storage/Sessions); Success, Keeping, Recall, Contacting: their
--                     theorems
-- A module named Tests has runs of the code and the theorems at concrete inputs.
--
-- How the code is modelled. A method that changes self takes the state and returns the new one
-- beside its result, also where it fails, so that what an error leaves behind is part of the
-- model. A hash map is an association list without a key twice, whose order stands for the order
-- of iteration that Rust leaves open. Arrays of bytes are lists of numbers, counters are numbers
-- with the wrap-around of their type written out, as a release build has it. Clocks, random
-- bytes, nonces and new secrets are arguments. A slice out of range, a failed expect and a
-- division by zero are the outcome `panicked`. Formatted messages keep their template, and the
-- numbers in it where there are any.
--
-- What is a parameter. The crates blake3, hkdf, chacha20poly1305, aes-gcm, x25519-dalek, ml-kem
-- and base64, serde_json and bincode; for the sessions also persist_message, which Storage fills. What
-- the theorems assume of them is named: that an AEAD opens what it seals and nothing else, with a tag
-- of sixteen bytes behind the text under a key stream (IsAead, Opens), that HKDF expands to 64
-- bytes (Expands), that a hash has no collisions (HasNoCollisions), that JSON and bincode are read
-- back as they were written (ReadsJson, ReadsHandshakes, ReadsHeaders, ReadsGroups, ReadsCommits,
-- ReadsStored), that the two ends of a key exchange compute the same (IsExchange), that HKDF expands
-- to a key (ExpandsKeys), that the table of messages has one for a conversation and a sequence
-- (KeepsOne), which is proved of the database of the client, that a source of random bytes gives as
-- many as asked for (Fills). Each of these holds of the operations that the tests use.
--
-- Bounds. Recursion is structural, but for the chunks of a message, which take the length of the
-- message as fuel: each chunk takes a byte at least, so that this is enough (Padding.Fragments).
-- The theorems on counters and sizes state that no sum wraps, where they need it.
--
-- The database. The crate rusqlite runs its SQL; each statement is written out over the rows, with
-- the constraints (primary keys, foreign keys, UNIQUE) and the triggers of
-- crates/storage/src/migrations, and fails by a constraint or a conversion only. Rows stand in the
-- order of their insertion, which also stands for the orders that SQL leaves open. Left out are
-- the columns that no statement writes, and the time of making of an envelope of the outbox, which
-- none reads.
--
-- What is not modelled: identities, the life of a client (start, stop, rotation, wiping), device
-- sync, the transports (Tor, relays, mixnet, DHT, noise, cover traffic), and the application around
-- the crates. The bincode and JSON conversions are calls of libraries.
pub mod Base
pub mod Mailbox
pub mod Outbound
pub mod Header
pub mod Group
pub mod Padding
pub mod Crypto
pub mod Ratchet
pub mod Envelope
pub mod Session
pub mod Cache
pub mod Threshold
pub mod Frame
pub mod Chat
pub mod KeyExchange
pub mod Handshake
pub mod Contacts
pub mod Psi
pub mod ClientGroups
pub mod Dispatch
pub mod Database
pub mod Storage
