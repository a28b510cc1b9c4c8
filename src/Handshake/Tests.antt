-- ===== src/Handshake/Tests.antt =====
-- crates/messenger/src/client.rs: a key exchange of two clients, and the theorems at it. The JSON
-- of the tests writes an initiation of alice to bob and a response of bob to alice.
use shadowgram.Base.{
  lookup, ok, refl, inr, inl, Option-cases, ◌≡◌, String, Bool, true, Option, none, some, [], ◌∷◌,
  ◌++◌, Bytes, length, take, drop, ◌===◌, string_Eq, ◌&&◌, ◌==◌, if◌then◌else◌, arith, take-append,
  drop-append,
}
use text.Mathlib.TextEquality.{eq_iff}
use shadowgram.KeyExchange.{KeyExchangeMessage}
use shadowgram.KeyExchange.Example.{repeated, exchange_primitives, kem, exchange-IsExchange}
use shadowgram.Handshake.{
  respond_to_key_exchange, handle_key_exchange, initiate_key_exchange, Exchange, HandshakeClient,
  HandshakeStage, DirectHandshakePayload,
}
use shadowgram.Handshake.Completion.{ReadsHandshakes, ExpandsKeys, key_exchange_completes}
use shadowgram.Envelope.{NetworkEnvelope}
use shadowgram.Session.{DirectSession}
use shadowgram.Base.Outcome.{ok}
use shadowgram.Session.Agreement.{Agrees}

-- The lengths of the parts and the parts.
write_exchange : KeyExchangeMessage → Bytes
write_exchange e = elim e.mlkem_ciphertext [
  | none ↦
      length e.x25519_public ∷ length e.mlkem_encapsulation_key ∷ 0 ∷ e.x25519_public
      ++ (e.mlkem_encapsulation_key ++ [])
  | some ct ↦
      length e.x25519_public ∷ length e.mlkem_encapsulation_key ∷ 1 ∷ e.x25519_public
      ++ (e.mlkem_encapsulation_key ++ ct)
]

read_exchange : Bytes → Option KeyExchangeMessage
read_exchange (n ∷ k ∷ tag ∷ rest) = some (record {
  x25519_public = take n rest;
  mlkem_encapsulation_key = take k (drop n rest);
  mlkem_ciphertext = if tag == 0 then none else some (drop k (drop n rest));
})
read_exchange (n ∷ k ∷ []) = none
read_exchange (n ∷ []) = none
read_exchange [] = none

parts_read :
    (a b c : Bytes)
    → (take (length a) (a ++ (b ++ c)) ≡ a) × (drop (length a) (a ++ (b ++ c)) ≡ b ++ c)
parts_read a b c = (take-append a (b ++ c) (length a) refl, drop-append a (b ++ c) (length a) refl)

read_exchange-write_exchange : (e : KeyExchangeMessage) → read_exchange (write_exchange e) ≡ some e
unfolding read_exchange write_exchange
read_exchange-write_exchange e =
    let a = e.x25519_public in
    let b = e.mlkem_encapsulation_key in
    elim (Option-cases e.mlkem_ciphertext) [
      | inl absent ↦ ground (arith, parts_read a b [], take-append b [] (length b) refl)
      | inr present ↦ ground (
        arith,
        parts_read a b present.0,
        take-append b present.0 (length b) refl,
        drop-append b present.0 (length b) refl,
      )
    ]

abbrev from_alice : DirectHandshakePayload → Bool
from_alice p = p.sender_fingerprint === "alice" && p.recipient_fingerprint === "bob"

abbrev from_bob : DirectHandshakePayload → Bool
from_bob p = p.sender_fingerprint === "bob" && p.recipient_fingerprint === "alice"

write : DirectHandshakePayload → Option Bytes
write p = elim p.stage [
  | HandshakeStage.initiation ↦ if from_alice p then some (1 ∷ write_exchange p.exchange) else none
  | HandshakeStage.response ↦ if from_bob p then some (2 ∷ write_exchange p.exchange) else none
]

abbrev initiation_of : KeyExchangeMessage → DirectHandshakePayload
initiation_of e = record {
  sender_fingerprint = "alice";
  recipient_fingerprint = "bob";
  stage = HandshakeStage.initiation;
  exchange = e;
}

abbrev response_of : KeyExchangeMessage → DirectHandshakePayload
response_of e = record {
  sender_fingerprint = "bob";
  recipient_fingerprint = "alice";
  stage = HandshakeStage.response;
  exchange = e;
}

read : Bytes → Option DirectHandshakePayload
read [] = none
read (tag ∷ bytes) = elim (read_exchange bytes) [
  | none ↦ none
  | some e ↦ some (if tag == 1 then initiation_of e else response_of e)
]

abbrev x : Exchange
x = record {
  primitives = exchange_primitives;
  kem = kem;
  keyed_hash = λ key bytes. key ++ bytes;
  to_json = write;
  from_json = read;
}

initiation_read :
    (p : DirectHandshakePayload)
    → p.stage ≡ HandshakeStage.initiation
    → from_alice p ≡ true
    → read (1 ∷ write_exchange p.exchange) ≡ some p
unfolding read
initiation_read p h names = ground (
  arith,
  read_exchange-write_exchange p.exchange,
  eq_iff p.sender_fingerprint "alice",
  eq_iff p.recipient_fingerprint "bob",
)

response_read :
    (p : DirectHandshakePayload)
    → p.stage ≡ HandshakeStage.response
    → from_bob p ≡ true
    → read (2 ∷ write_exchange p.exchange) ≡ some p
unfolding read
response_read p h names = ground (
  arith,
  read_exchange-write_exchange p.exchange,
  eq_iff p.sender_fingerprint "bob",
  eq_iff p.recipient_fingerprint "alice",
)

reads : ReadsHandshakes x
unfolding write
reads p json h = ground (arith, initiation_read p, response_read p)

expands : ExpandsKeys x
expands salt ikm info = (_, refl)

abbrev client_of : String → HandshakeClient (Unit {0})
client_of name = record {
  client = record { fingerprint = some name; direct_sessions = []; database = tt };
  pending_initiators = [];
  pending_responses = [];
}

abbrev secret : Bytes
secret = repeated 32

key_exchange_completes_example :
    (a' a'' b' b'' : HandshakeClient (Unit {0})) × (env reply : NetworkEnvelope) × (s
      r : DirectSession)
    × (initiate_key_exchange (Unit {0}) x repeated 1 secret secret (client_of "alice") "alice" "bob"
        ≡ (a', ok env))
    × (handle_key_exchange (Unit {0}) x repeated 2 secret secret secret (client_of "bob") env
        ≡ (b', ok tt))
    × (respond_to_key_exchange (Unit {0}) x b' ≡ (b'', ok reply))
    × (handle_key_exchange (Unit {0}) x repeated 3 [] [] [] a' reply ≡ (a'', ok tt))
    × (lookup "bob" a''.client.direct_sessions ≡ some s)
    × (lookup "alice" b''.client.direct_sessions ≡ some r)
    × Agrees s r
unfolding repeated write
key_exchange_completes_example =
    key_exchange_completes (Unit {0}) x exchange-IsExchange reads expands repeated 1 2 3 secret
      secret secret secret secret [] [] [] (client_of "alice") (client_of "bob") "alice" "bob" _ _
      refl refl refl refl refl refl refl
