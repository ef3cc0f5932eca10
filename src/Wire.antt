-- ===== src/Wire.antt =====
-- spa-common/src/lib.rs: the wire format of the authorization. The data and the encoder stand here,
-- the bounds-checked reader and the decoder in the modules below.
pub mod Reader
pub mod Decode
pub mod Stream
pub mod RoundTrip
pub mod Took
pub mod Canonical
pub mod Reject
mod Tests
use spa_device.Prelude.{
  ℕ, ◌%◌, ◌^◌, ◌<◌, Bool, ◌||◌, List, [], ◌∷◌, ◌++◌, ltb, ◌==◌, if◌then◌else◌, length, All, Result,
  ok, err, ◌>>=◌,
}
use spa_device.Prelude.Bytes.{IsArray, to_be_bytes}

abbrev pub version : ℕ
version = 1

abbrev pub nonce_len : ℕ
nonce_len = 16

abbrev pub gate_id_len : ℕ
gate_id_len = 16

abbrev pub thumbprint_len : ℕ
thumbprint_len = 32

abbrev pub sig_len : ℕ
sig_len = 64

abbrev pub max_ports : ℕ
max_ports = 8

pub data WireError : Type 0 where
  too_short : WireError
  bad_version : ℕ → WireError
  bad_suite : ℕ → WireError
  bad_port_count : ℕ → WireError
  trailing_bytes : WireError

pub data Suite : Type 0 where
  fips modern : Suite

abbrev pub to_byte : Suite → ℕ
to_byte fips = 0x01
to_byte modern = 0x02

abbrev pub from_byte : ℕ → Result Suite WireError
from_byte b = if b == 0x01 then ok fips else if b == 0x02 then ok modern else err (bad_suite b)

pub record Authorization : Type 0 where
  pub nonce : List ℕ
  pub timestamp_nanos : ℕ
  pub gate_id : List ℕ
  pub key_thumbprint : List ℕ
  pub ports : List ℕ
  pub signature : List ℕ

-- What the Rust types of the fields say: arrays of their length, a `u64`, `u16` ports.
pub record IsTyped (a : Authorization) : Type 0 where
  pub nonce : IsArray nonce_len a.nonce
  pub timestamp : a.timestamp_nanos < 256 ^ 8
  pub gate_id : IsArray gate_id_len a.gate_id
  pub key_thumbprint : IsArray thumbprint_len a.key_thumbprint
  pub ports : All (λ p. p < 256 ^ 2) a.ports
  pub signature : IsArray sig_len a.signature

-- The guard of the encoder and of the decoder: `n == 0 || n > MAX_PORTS`.
abbrev pub bad_count : ℕ → Bool
bad_count n = n == 0 || ltb max_ports n

-- `for p in &self.ports { out.extend_from_slice(&p.to_be_bytes()) }`
abbrev pub port_bytes : List ℕ → List ℕ
port_bytes [] = []
port_bytes (p ∷ ps) = to_be_bytes 2 p ++ port_bytes ps

unfoldable pub signing_bytes : Authorization → Result (List ℕ) WireError
signing_bytes a =
    let n = length a.ports in
    if bad_count n
    then err (bad_port_count n)
    else ok (
        version ∷ a.nonce
        ++ (to_be_bytes 8 a.timestamp_nanos
            ++ (a.gate_id ++ (a.key_thumbprint ++ ((n % 2 ^ 8) ∷ port_bytes a.ports)))))

unfoldable pub encode : Authorization → Result (List ℕ) WireError
encode a = do out ← signing_bytes a; ok (out ++ a.signature)
