-- ===== src/Gated/GeneratedTests.antt =====
-- A gate that is provisioned, and its configuration.
use spa_device.Prelude.{
  ℕ, ◌≡◌, refl, ap, subst, true, List, [], ◌∷◌, Option, none, some, ok, replicate, All, ℕ_eq,
  List_eq, arith,
}
use spa_device.Prelude.Bytes.{IsArray}
use spa_device.Prelude.Text.{codes}
use spa_device.Prelude.Assoc.{lookup}
use spa_device.Files.Table.{Table, table, table_lawful}
use spa_device.Wire.{Suite}
use spa_device.Crypto.{AgreementAlg}
use spa_device.Crypto.Gate.{GateKeypair, from_raw_private, generate_raw, generate_rounds}
use spa_device.Crypto.Toy.{toy_agreement, bytes_array, some-injective}
use spa_device.Cli.Toy.{hex_encode, hex_decode, hex_lawful}
use spa_device.Cli.Reread.{IsHexDigit}
use spa_device.Gated.Config.{Formats, load_config}
use spa_device.Gated.Toml.{all_basic, Entries, raw_fields, ReadsToml}
use spa_device.Gated.Scanner.{outside, scan, scan-toml_text}
use spa_device.Gated.Generate.{Settings, Arguments, arguments, knock_port_of, provision}
use spa_device.Gated.Generated.{config_of, LawfulDigits, provision-load_config}

abbrev env : Settings
env = record { spa_suite = none; spa_knock_port = none; spa_gated_toml = none }

abbrev typed : List (List ℕ)
typed = codes "eth0" ∷ codes "spa.o" ∷ codes "https://cp" ∷ codes "secret" ∷ codes "10.0.0.1" ∷ []

abbrev given : Arguments
given = record {
  interface_name = codes "eth0";
  bpf_object = codes "spa.o";
  url = codes "https://cp";
  token = codes "secret";
  address = codes "10.0.0.1";
  ca_cert = none;
}

instance abbrev formats : Formats
formats = record {
  hex_decode = hex_decode.decode_hex;
  config_from_toml = λ s. raw_fields (scan outside s).0 (scan outside s).1;
}

toml : ReadsToml formats
toml = record {
  reads = λ root table plain plain' new.
      ap (λ (r : Entries × Entries). raw_fields r.0 r.1) (scan-toml_text root table plain plain');
}

all_basic-digits : (s : List ℕ) → All IsHexDigit s → all_basic s ≡ true
all_basic-digits [] h = refl
all_basic-digits (c ∷ cs) h = ground (arith, all_basic-digits cs)

digits : LawfulDigits formats hex_encode
digits = record {
  digits_basic = λ bytes h. all_basic-digits _ (hex_lawful.encode_digits bytes);
  decode-encode = hex_lawful.decode-encode;
}

abbrev fill : ℕ → Option (List ℕ)
fill n = some (replicate 32 3)

filled : (i : ℕ) (r : List ℕ) → fill i ≡ some r → IsArray 32 r
filled i r h = subst (IsArray 32) (some-injective h) (bytes_array 32 3 (omega arith))

typed_well : arguments typed ≡ ok given
unfolding arguments
typed_well = refl

abbrev written : Table
written = (provision AgreementAlg env typed fill []).1

provisions : provision AgreementAlg env typed fill [] ≡ (ok tt, written)
unfolding provision arguments generate_raw generate_rounds from_raw_private
provisions = refl

provision-load_config_example :
    (suite : Suite) × (gate : GateKeypair AgreementAlg × List ℕ) × (generate_raw suite fill
      ≡ ok gate)
    × (load_config (lookup written (codes "gated.toml"))
        ≡ ok (config_of given suite (knock_port_of env) gate.1))
    × (from_raw_private suite gate.1 ≡ ok gate.0)
unfolding knock_port_of
provision-load_config_example =
    provision-load_config AgreementAlg table_lawful env typed given fill [] written filled
      typed_well toml digits (refl, refl, refl, refl, refl, refl) refl provisions
