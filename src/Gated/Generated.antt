-- ===== src/Gated/Generated.antt =====
-- The command `provision` of spa-gated/src/main.rs writes a file that `Config::load` of
-- spa-gated/src/config.rs accepts.
use spa_device.Prelude.{
  ℕ, zero, suc, ◌≡◌, ◌≤◌, refl, ap, ◌∙◌, true, ◌==◌, List, [], length, Option, none, some, ok,
  map_err, inl, inr, Bool-cases, Option-cases, Result-cases, subst, ℕ_eq, List_eq, list_eq,
  list_eq_iff, All, arith,
}
use spa_device.Prelude.Bytes.{IsByte, IsArray}
use spa_device.Prelude.Text.{codes, HexEncode}
use spa_device.Files.{FileSystem, LawfulFiles, lift, io_step, write_file-ok, read-write_file}
use spa_device.Wire.{Suite}
use spa_device.Crypto.{Agreement}
use spa_device.Crypto.Gate.{GateKeypair, from_raw_private, generate_raw, generate_rounds}
use spa_device.Crypto.Envelope.{map_err-eq-ok}
use spa_device.Crypto.Open.{generate_raw-reload}
use spa_device.Client.Sized.{parse_u16-le}
use spa_device.Client.File.{parse_u16, u16_max}
use spa_device.Gated.Config.{
  Config, Formats, starts_with, https, suite_name, hex_len, hex_bytes, parse_clients, parse_tokens,
  parse_control_plane, load_config,
}
use spa_device.Gated.Toml.{all_basic, ReadsToml}
use spa_device.Gated.Generate.{
  no_key, not_written, Settings, Arguments, arguments, suite_or_default, suite_of_name,
  knock_port_of, out_path, gated_toml, provision,
}
use spa_device.Gated.Written.{
  IsBasic, root_of, table_of, gated_toml-toml_text, root_of-IsPlain, table_of-IsPlain,
  raw_fields-raw_of,
}

abbrev pub config_of : Arguments → Suite → ℕ → List ℕ → Config
config_of a suite knock_port gate_private = record {
  interface_name = a.interface_name;
  knock_port = knock_port;
  suite = suite;
  gate_private = gate_private;
  gate_id = none;
  bpf_object = a.bpf_object;
  skew_seconds = 2;
  nftables_floor = true;
  config_anchor = none;
  bundle_path = some (codes "/etc/spa/bundle.spa");
  protected_ports = [];
  clients = [];
  tokens = [];
  control_plane =
      some (record { url = a.url; gate_token = a.token; address = a.address; ca_cert = a.ca_cert });
}

-- The crate `hex` writes digits, and reads what it wrote.
pub record LawfulDigits (formats : Formats) (hex : HexEncode) : Type 0 where
  pub digits_basic : (bytes : List ℕ) → All IsByte bytes → all_basic (hex.encode_hex bytes) ≡ true
  pub decode-encode :
      (bytes : List ℕ) → All IsByte bytes → formats.hex_decode (hex.encode_hex bytes) ≡ some bytes

suite_of_name-suite_name :
    (name : List ℕ) (suite : Suite)
    → suite_of_name name ≡ ok suite
    → (suite_name name ≡ ok suite) × (all_basic name ≡ true)
suite_of_name-suite_name name suite h = elim (Bool-cases (list_eq name (codes "fips"))) [
  | inl is_fips ↦ (cc (rw is_fips at h), rw ((list_eq_iff name (codes "fips")).0 is_fips) refl)
  | inr other ↦ elim (Bool-cases (list_eq name (codes "modern"))) [
    | inl is_modern ↦
        (cc (rw (other, is_modern) at h), rw ((list_eq_iff name (codes "modern")).0 is_modern) refl)
    | inr bad ↦ cc (rw (other, bad) at h)
  ]
]

knock_port_of-le : (env : Settings) → knock_port_of env ≤ u16_max
unfolding knock_port_of
knock_port_of-le env = elim (Option-cases env.spa_knock_port) [
  | inl unset ↦ rw (knock_port_of, unset) (omega arith)
  | inr (digits, is_set) ↦ elim (Option-cases (parse_u16 digits)) [
    | inl bad ↦ rw (knock_port_of, is_set, bad) (omega arith)
    | inr (port, good) ↦ rw (knock_port_of, is_set, good) (parse_u16-le digits good)
  ]
]

module _ {P : Type 0} ⦃dh : Agreement P⦄ where
  generate_rounds-IsArray :
      (n : ℕ) (suite : Suite) (fill : ℕ → Option (List ℕ)) (gate : GateKeypair P) (raw : List ℕ)
      → ((i : ℕ) (r : List ℕ) → fill i ≡ some r → IsArray 32 r)
      → generate_rounds n suite fill ≡ ok (gate, raw)
      → IsArray 32 raw
  unfolding generate_rounds
  generate_rounds-IsArray zero suite fill gate raw filled h = cc h
  generate_rounds-IsArray (suc n) suite fill gate raw filled h = elim (Option-cases (fill n)) [
    | inl nothing ↦ cc (rw (generate_rounds, nothing) at h)
    | inr (r, drawn) ↦ elim (Result-cases (from_raw_private {P = P} suite r)) [
      | inl (kp, good) ↦
          let same : r ≡ raw = cc (rw (generate_rounds, drawn, good) at h) in
          subst (IsArray 32) same (filled n r drawn)
      | inr (e, bad) ↦
          generate_rounds-IsArray n suite fill gate raw filled
            (rw (generate_rounds, drawn, bad) at h)
    ]
  ]

module _ ⦃formats : Formats⦄ ⦃hex : HexEncode⦄ where
  load_config-gated_toml :
      (a : Arguments) (name : List ℕ) (suite : Suite) (port : ℕ) (raw : List ℕ)
      → ReadsToml formats
      → LawfulDigits formats hex
      → IsBasic a
      → starts_with a.url https ≡ true
      → suite_of_name name ≡ ok suite
      → port ≤ u16_max
      → IsArray 32 raw
      → load_config (some (gated_toml a name port (hex.encode_hex raw)))
        ≡ ok (config_of a suite port raw)
  unfolding load_config hex_len hex_bytes parse_clients parse_tokens parse_control_plane
  load_config-gated_toml a name suite port raw toml digits basic secure named small array =
      let (found, plain) = suite_of_name-suite_name name suite named in
      let whole : (length raw == 32) ≡ true = ground (arith, array.size) in
      let hex_plain = digits.digits_basic raw array.bytes in
      let key = hex.encode_hex raw in
      let read =
        ap formats.config_from_toml (gated_toml-toml_text a name port key)
        ∙ toml.reads (root_of a name port key) (table_of a)
            (root_of-IsPlain a name port key basic plain small hex_plain) (table_of-IsPlain a basic)
            refl
        ∙ raw_fields-raw_of a name port key small in
      rw (read, digits.decode-encode raw array.bytes, whole, secure) (rw found refl)

  pub provision-load_config :
      {F : Type 0} ⦃fs : FileSystem F⦄ (P : Type 0) ⦃dh : Agreement P⦄ (files : LawfulFiles fs)
      (env : Settings) (args : List (List ℕ)) (a : Arguments) (fill : ℕ → Option (List ℕ)) (f g : F)
      → ((i : ℕ) (r : List ℕ) → fill i ≡ some r → IsArray 32 r)
      → arguments args ≡ ok a
      → ReadsToml formats
      → LawfulDigits formats hex
      → IsBasic a
      → starts_with a.url https ≡ true
      → provision P env args fill f ≡ (ok tt, g)
      → (suite : Suite) × (gate : GateKeypair P × List ℕ) × (generate_raw suite fill ≡ ok gate)
        × (load_config (fs.read g (out_path env))
            ≡ ok (config_of a suite (knock_port_of env) gate.1))
        × (from_raw_private suite gate.1 ≡ ok gate.0)
  unfolding provision generate_raw
  provision-load_config P files env args a fill f g filled given toml digits basic secure h =
      io_step (lift (arguments args)) _ f h λ a' e1 h.
        io_step (lift (suite_of_name (suite_or_default env))) _ f h λ suite named h.
          io_step (lift (map_err no_key (generate_raw {P = P} suite fill))) _ f h λ gate e3 h.
            let same : a' ≡ a = cc (e1, given) in
            let made = map_err-eq-ok no_key (generate_raw {P = P} suite fill) e3 in
            let wrote =
              read-write_file files (out_path env) _ f g (write_file-ok not_written _ _ f g h) in
            let array = generate_rounds-IsArray 16 suite fill gate.0 gate.1 filled made in
            (
              suite,
              gate,
              made,
              ap load_config wrote
                  ∙ rw same (
                      load_config-gated_toml a (suite_or_default env) suite (knock_port_of env)
                        gate.1 toml digits basic secure named (knock_port_of-le env) array),
              generate_raw-reload suite fill gate.0 gate.1 made,
            )
