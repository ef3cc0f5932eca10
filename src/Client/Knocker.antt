-- ===== src/Client/Knocker.antt =====
-- `Knocker` and `Enroller` of spa-client/src/lib.rs, up to the retries of `with_open`.
use spa_device.Prelude.{
  ℕ, Bool, if◌then◌else◌, ◌%◌, ◌^◌, List, [], ◌∷◌, Option, Result, ok, err, ◌>>=◌, ok_or,
}
use spa_device.Wire.{Suite, gate_id_len, thumbprint_len}
use spa_device.Crypto.{CryptoError, AgreementAlg, Primitives, Agreement, Signing}
use spa_device.Crypto.Client.{ClientKey, KnockRequest, Pkcs8, from_pkcs8, seal, seal_psk}
use spa_device.Client.File.{
  Error, crypto_error, io, format, parse_suite, read_kv, get_field, port_field, Hex, hexd, arr,
}

-- `impl From<CryptoError> for Error`.
abbrev pub from_crypto : {A : Type 0} → Result A CryptoError → Result A Error
from_crypto (ok a) = ok a
from_crypto (err e) = err (crypto_error e)

pub record Knocker (E D : Type 0) : Type 0 where
  pub gate_pubkey : List ℕ
  pub gate_id : List ℕ
  pub client : ClientKey E D

pub record Enroller : Type 0 where
  pub suite : Suite
  pub gate_pubkey : List ℕ
  pub gate_id : List ℕ
  pub token_id : List ℕ
  pub secret : List ℕ

-- What is answered in one attempt: random bytes, the time since the epoch in nanoseconds, the
-- ephemeral key, the randomness of a signature, and whether the datagram could be sent.
pub record Answers (P : Type 0) : Type 0 where
  pub nonce : Option (List ℕ)
  pub since_epoch : Option ℕ
  pub drawn : AgreementAlg → Option P
  pub seed : ℕ
  pub can_send : Bool

-- `KnockRequest { gate_id, ports, nonce: random()?, timestamp_nanos: now_nanos()? }`.
unfoldable pub new_request : {P : Type 0} → Answers P → List ℕ → List ℕ → Result KnockRequest Error
new_request a gate_id ports = do
  nonce ← ok_or format a.nonce
  nanos ← ok_or format a.since_epoch
  ok (record { gate_id = gate_id; ports = ports; nonce = nonce; timestamp_nanos = nanos % 2 ^ 64 })

-- `send_udp`: the datagram goes out, or an error.
unfoldable pub send_udp : {P : Type 0} → Answers P → List ℕ → Result (List ℕ) Error
send_udp a packet = if a.can_send then ok packet else err io

-- The names of the fields.
abbrev pub gate_pubkey_hex : List ℕ
gate_pubkey_hex =
    b'g' ∷ b'a' ∷ b't' ∷ b'e' ∷ b'_' ∷ b'p' ∷ b'u' ∷ b'b' ∷ b'k' ∷ b'e' ∷ b'y' ∷ b'_' ∷ b'h' ∷ b'e'
    ∷ b'x' ∷ []

abbrev pub gate_id_hex : List ℕ
gate_id_hex = b'g' ∷ b'a' ∷ b't' ∷ b'e' ∷ b'_' ∷ b'i' ∷ b'd' ∷ b'_' ∷ b'h' ∷ b'e' ∷ b'x' ∷ []

abbrev pub client_pkcs8_hex : List ℕ
client_pkcs8_hex =
    b'c' ∷ b'l' ∷ b'i' ∷ b'e' ∷ b'n' ∷ b't' ∷ b'_' ∷ b'p' ∷ b'k' ∷ b'c' ∷ b's' ∷ b'8' ∷ b'_' ∷ b'h'
    ∷ b'e' ∷ b'x' ∷ []

abbrev pub token_id_hex : List ℕ
token_id_hex =
    b't' ∷ b'o' ∷ b'k' ∷ b'e' ∷ b'n' ∷ b'_' ∷ b'i' ∷ b'd' ∷ b'_' ∷ b'h' ∷ b'e' ∷ b'x' ∷ []

abbrev pub secret_hex : List ℕ
secret_hex = b's' ∷ b'e' ∷ b'c' ∷ b'r' ∷ b'e' ∷ b't' ∷ b'_' ∷ b'h' ∷ b'e' ∷ b'x' ∷ []

abbrev pub suite_field : List ℕ
suite_field = b's' ∷ b'u' ∷ b'i' ∷ b't' ∷ b'e' ∷ []

unfoldable pub from_files :
    ⦃hex : Hex⦄ → Option (List ℕ) → Option (List ℕ) → Result (Enroller × List ℕ) Error
from_files knock_file enroll_file = do
  g ← read_kv knock_file
  e ← read_kv enroll_file
  name ← get_field g suite_field
  suite ← parse_suite name
  pubkey_hex ← get_field g gate_pubkey_hex
  gate_pubkey ← hexd pubkey_hex
  id_hex ← get_field g gate_id_hex
  gate_id ← arr gate_id_len id_hex
  token_hex ← get_field e token_id_hex
  token_id ← arr thumbprint_len token_hex
  secret_digits ← get_field e secret_hex
  secret ← hexd secret_digits
  port ← port_field g
  ok (
    record {
      suite = suite;
      gate_pubkey = gate_pubkey;
      gate_id = gate_id;
      token_id = token_id;
      secret = secret;
    },
    port ∷ [],
  )

module _ {E D : Type 0} ⦃signing : Signing E D⦄ ⦃aws : Primitives⦄ where
  unfoldable pub new_knocker :
      ⦃pkcs8 : Pkcs8 E D⦄ → Suite → List ℕ → List ℕ → List ℕ → Result (Knocker E D) Error
  unfolding from_pkcs8
  new_knocker suite gate_pubkey gate_id client_pkcs8 = do
    client ← from_crypto (from_pkcs8 suite client_pkcs8)
    ok (record { gate_pubkey = gate_pubkey; gate_id = gate_id; client = client })

  unfoldable pub from_knock_file :
      ⦃hex : Hex⦄ ⦃pkcs8 : Pkcs8 E D⦄ → Option (List ℕ) → Result (Knocker E D × List ℕ) Error
  unfolding new_knocker
  from_knock_file file = do
    kv ← read_kv file
    name ← get_field kv suite_field
    suite ← parse_suite name
    pubkey_hex ← get_field kv gate_pubkey_hex
    gate_pubkey ← hexd pubkey_hex
    id_hex ← get_field kv gate_id_hex
    gate_id ← arr gate_id_len id_hex
    pkcs8_hex ← get_field kv client_pkcs8_hex
    client_pkcs8 ← hexd pkcs8_hex
    knocker ← new_knocker suite gate_pubkey gate_id client_pkcs8
    port ← port_field kv
    ok (knocker, port ∷ [])

  module _ {P : Type 0} ⦃dh : Agreement P⦄ where
    unfoldable pub seal_now : Knocker E D → Answers P → List ℕ → Result (List ℕ) Error
    unfolding new_request
    seal_now k a ports = do
      req ← new_request a k.gate_id ports
      from_crypto (seal k.client k.gate_pubkey req a.seed a.drawn)

    -- The result is the datagram that was sent.
    unfoldable pub send_knock : Knocker E D → Answers P → List ℕ → Result (List ℕ) Error
    unfolding seal_now send_udp
    send_knock k a ports = do packet ← seal_now k a ports; send_udp a packet

module _ {P : Type 0} ⦃dh : Agreement P⦄ ⦃aws : Primitives⦄ where
  unfoldable pub enroll_knock : Enroller → Answers P → List ℕ → Result (List ℕ) Error
  unfolding new_request send_udp
  enroll_knock e a ports = do
    req ← new_request a e.gate_id ports
    packet ← from_crypto (seal_psk e.gate_pubkey e.suite e.secret e.token_id req a.drawn)
    send_udp a packet
