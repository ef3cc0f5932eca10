-- ===== src/Gated/Generate.antt =====
-- The command `provision` of spa-gated/src/main.rs: a new key and a configuration file for it. The
-- environment variables are the fields of `Settings`, `none` if one is not set.
use spa_device.Prelude.{
  ℕ, if◌then◌else◌, List, [], ◌∷◌, ◌++◌, Option, none, some, Result, ok, err, map_err, list_eq,
  ℕ_eq,
}
use spa_device.Prelude.Text.{codes, HexEncode, to_decimal}
use spa_device.Files.{FileSystem, Io, lift, ◌>>=◌, write_file}
use spa_device.Wire.{Suite, fips, modern}
use spa_device.Crypto.{Agreement}
use spa_device.Crypto.Gate.{generate_raw}
use spa_device.Client.File.{parse_u16}

pub data ProvisionError : Type 0 where
  usage unknown_suite no_key not_written : ProvisionError

pub record Settings : Type 0 where
  pub spa_suite : Option (List ℕ)
  pub spa_knock_port : Option (List ℕ)
  pub spa_gated_toml : Option (List ℕ)

pub record Arguments : Type 0 where
  pub interface_name : List ℕ
  pub bpf_object : List ℕ
  pub url : List ℕ
  pub token : List ℕ
  pub address : List ℕ
  pub ca_cert : Option (List ℕ)

abbrev head : List (List ℕ) → Option (List ℕ)
head [] = none
head (a ∷ args) = some a

-- `args.first()` and `args.get(1)` to `args.get(5)`.
unfoldable pub arguments : List (List ℕ) → Result Arguments ProvisionError
arguments (interface_name ∷ bpf_object ∷ url ∷ token ∷ address ∷ args) = ok (record {
  interface_name = interface_name;
  bpf_object = bpf_object;
  url = url;
  token = token;
  address = address;
  ca_cert = head args;
})
arguments args = err usage

abbrev pub suite_or_default : Settings → List ℕ
suite_or_default env = elim env.spa_suite [ none ↦ codes "modern" | some name ↦ name ]

abbrev pub suite_of_name : List ℕ → Result Suite ProvisionError
suite_of_name name =
    if list_eq name (codes "fips")
    then ok fips
    else if list_eq name (codes "modern")
    then ok modern
    else err unknown_suite

unfoldable pub knock_port_of : Settings → ℕ
unfolding parse_u16
knock_port_of env = elim env.spa_knock_port [
  | none ↦ 62201
  | some digits ↦ elim (parse_u16 digits) [ none ↦ 62201 | some port ↦ port ]
]

abbrev pub out_path : Settings → List ℕ
out_path env = elim env.spa_gated_toml [ none ↦ codes "gated.toml" | some path ↦ path ]

-- `{key} = "{value}"` and a line feed, the key with its spaces behind it.
abbrev pub setting : List ℕ → List ℕ → List ℕ
setting k v = k ++ codes "= \"" ++ v ++ codes "\"\n"

abbrev pub ca_line : Option (List ℕ) → List ℕ
ca_line none = []
ca_line (some c) = setting (codes "ca_cert    ") c

-- The pieces of `format!`, one behind the other.
abbrev pub pieces : List (List ℕ) → List ℕ
pieces [] = []
pieces (s ∷ ss) = s ++ pieces ss

abbrev pub gated_toml : Arguments → List ℕ → ℕ → List ℕ → List ℕ
gated_toml a suite_name knock_port gate_private_hex = pieces (
    setting (codes "interface ") a.interface_name
    ∷ codes "knock_port = "
    ∷ to_decimal knock_port
    ∷ codes "\n"
    ∷ setting (codes "bpf_object ") a.bpf_object
    ∷ codes "skew_seconds = 2\n"
    ∷ setting (codes "bundle_path ") (codes "/etc/spa/bundle.spa")
    ∷ setting (codes "suite ") suite_name
    ∷ setting (codes "gate_private_hex ") gate_private_hex
    ∷ codes "\n[control_plane]\n"
    ∷ setting (codes "url        ") a.url
    ∷ setting (codes "gate_token ") a.token
    ∷ setting (codes "address    ") a.address
    ∷ ca_line a.ca_cert
    ∷ [])

unfoldable pub provision :
    {F : Type 0} ⦃fs : FileSystem F⦄ ⦃hex : HexEncode⦄ (P : Type 0) ⦃dh : Agreement P⦄
    → Settings
    → List (List ℕ)
    → (ℕ → Option (List ℕ))
    → Io F ProvisionError (Unit {0})
unfolding arguments knock_port_of
provision ⦃hex = hex⦄ P env args fill = do
  a ← lift (arguments args)
  suite ← lift (suite_of_name (suite_or_default env))
  gate ← lift (map_err no_key (generate_raw {P = P} suite fill))
  write_file not_written (out_path env)
      (gated_toml a (suite_or_default env) (knock_port_of env) (hex.encode_hex gate.1))
