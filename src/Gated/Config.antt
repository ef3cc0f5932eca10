-- ===== src/Gated/Config.antt =====
-- spa-gated/src/config.rs. Strings are their bytes. The crates `hex` and `toml` (with serde) are not
-- part of the repository: they are the fields of an interface.
use spa_device.Prelude.{
  ℕ, not, ◌==◌, ◌&&◌, Bool, true, false, List, [], ◌∷◌, length, Option, none, some, Result, ok, err,
  ◌>>=◌, ok_or, if◌then◌else◌,
}
use spa_device.Prelude.{ℕ_eq, list_eq}
use spa_device.Wire.{thumbprint_len, gate_id_len, Suite, fips, modern}

pub record RawControlPlane : Type 0 where
  pub url : List ℕ
  pub gate_token : List ℕ
  pub address : List ℕ
  pub ca_cert : Option (List ℕ)

pub record RawClient : Type 0 where
  pub thumbprint_hex : List ℕ
  pub public_key_hex : List ℕ
  pub ports : List ℕ

pub record RawToken : Type 0 where
  pub token_id_hex : List ℕ
  pub secret_hex : List ℕ
  pub ports : List ℕ

-- As serde leaves it, its defaults filled in.
pub record Raw : Type 0 where
  pub interface_name : List ℕ
  pub knock_port : ℕ
  pub suite : List ℕ
  pub gate_private_hex : List ℕ
  pub gate_id_hex : Option (List ℕ)
  pub bpf_object : List ℕ
  pub skew_seconds : ℕ
  pub nftables_floor : Bool
  pub config_anchor_hex : Option (List ℕ)
  pub bundle_path : Option (List ℕ)
  pub protected_ports : List ℕ
  pub client : List RawClient
  pub token : List RawToken
  pub control_plane : Option RawControlPlane

pub record ClientEntry : Type 0 where
  pub thumbprint : List ℕ
  pub public_key : List ℕ
  pub ports : List ℕ

pub record TokenEntry : Type 0 where
  pub token_id : List ℕ
  pub secret : List ℕ
  pub ports : List ℕ

pub record ControlPlane : Type 0 where
  pub url : List ℕ
  pub gate_token : List ℕ
  pub address : List ℕ
  pub ca_cert : Option (List ℕ)

pub record Config : Type 0 where
  pub interface_name : List ℕ
  pub knock_port : ℕ
  pub suite : Suite
  pub gate_private : List ℕ
  pub gate_id : Option (List ℕ)
  pub bpf_object : List ℕ
  pub skew_seconds : ℕ
  pub nftables_floor : Bool
  pub config_anchor : Option (List ℕ)
  pub bundle_path : Option (List ℕ)
  pub protected_ports : List ℕ
  pub clients : List ClientEntry
  pub tokens : List TokenEntry
  pub control_plane : Option ControlPlane

-- What went wrong; the code has a message for each.
pub data ConfigError : Type 0 where
  unreadable unparsable unknown_suite bad_hex bad_length not_https : ConfigError

pub record Formats : Type 0 where
  pub hex_decode : List ℕ → Option (List ℕ)
  pub config_from_toml : List ℕ → Option Raw

-- `s.starts_with(prefix)`.
abbrev pub starts_with : List ℕ → List ℕ → Bool
starts_with s [] = true
starts_with [] (p ∷ ps) = false
starts_with (c ∷ cs) (p ∷ ps) = c == p && starts_with cs ps

-- `"https://"`.
abbrev pub https : List ℕ
https = b'h' ∷ b't' ∷ b't' ∷ b'p' ∷ b's' ∷ b':' ∷ b'/' ∷ b'/' ∷ []

unfoldable pub parse_control_plane : RawControlPlane → Result ControlPlane ConfigError
parse_control_plane c =
    if not (starts_with c.url https)
    then err not_https
    else ok (record {
      url = c.url;
      gate_token = c.gate_token;
      address = c.address;
      ca_cert = c.ca_cert;
    })

-- `match raw.suite.as_str()`.
abbrev pub suite_name : List ℕ → Result Suite ConfigError
suite_name s =
    if list_eq s (b'f' ∷ b'i' ∷ b'p' ∷ b's' ∷ [])
    then ok fips
    else if list_eq s (b'm' ∷ b'o' ∷ b'd' ∷ b'e' ∷ b'r' ∷ b'n' ∷ [])
    then ok modern
    else err unknown_suite

-- `match o { Some(x) => Some(f(x)?), None => None }`.
abbrev pub transpose : {A B E : Type 0} → (A → Result B E) → Option A → Result (Option B) E
transpose f none = ok none
transpose f (some a) = do b ← f a; ok (some b)

module _ ⦃formats : Formats⦄ where
  unfoldable pub hex_bytes : List ℕ → Result (List ℕ) ConfigError
  hex_bytes s = ok_or bad_hex (formats.hex_decode s)

  unfoldable pub hex_len : List ℕ → ℕ → Result (List ℕ) ConfigError
  unfolding hex_bytes
  hex_len s n = do b ← hex_bytes s; if not (length b == n) then err bad_length else ok b

  -- `hex_arr::<N>`: the array is filled from the bytes.
  unfoldable pub hex_arr : ℕ → List ℕ → Result (List ℕ) ConfigError
  unfolding hex_len
  hex_arr n s = hex_len s n

  unfoldable pub parse_tokens : List RawToken → Result (List TokenEntry) ConfigError
  unfolding hex_arr
  parse_tokens [] = ok []
  parse_tokens (t ∷ raw) = do
    token_id ← hex_arr thumbprint_len t.token_id_hex
    secret ← hex_bytes t.secret_hex
    out ← parse_tokens raw
    ok (record { token_id = token_id; secret = secret; ports = t.ports } ∷ out)

  unfoldable pub parse_clients : List RawClient → Result (List ClientEntry) ConfigError
  unfolding hex_arr
  parse_clients [] = ok []
  parse_clients (c ∷ raw) = do
    thumbprint ← hex_arr thumbprint_len c.thumbprint_hex
    public_key ← hex_bytes c.public_key_hex
    out ← parse_clients raw
    ok (record { thumbprint = thumbprint; public_key = public_key; ports = c.ports } ∷ out)

  -- `file` is what the file system answers for the path.
  unfoldable pub load_config : Option (List ℕ) → Result Config ConfigError
  unfolding parse_clients
  load_config file = do
    text ← ok_or unreadable file
    raw ← ok_or unparsable (formats.config_from_toml text)
    suite ← suite_name raw.suite
    anchor ← transpose hex_bytes raw.config_anchor_hex
    gate_private ← hex_len raw.gate_private_hex 32
    gate_id ← transpose (hex_arr gate_id_len) raw.gate_id_hex
    clients ← parse_clients raw.client
    tokens ← parse_tokens raw.token
    control_plane ← transpose parse_control_plane raw.control_plane
    ok (record {
      interface_name = raw.interface_name;
      knock_port = raw.knock_port;
      suite = suite;
      gate_private = gate_private;
      gate_id = gate_id;
      bpf_object = raw.bpf_object;
      skew_seconds = raw.skew_seconds;
      nftables_floor = raw.nftables_floor;
      config_anchor = anchor;
      bundle_path = raw.bundle_path;
      protected_ports = raw.protected_ports;
      clients = clients;
      tokens = tokens;
      control_plane = control_plane;
    })
