-- ===== src/Gated/Written.antt =====
-- The file that `provision` of spa-gated/src/main.rs writes, as settings, and what serde takes from it.
use spa_device.Prelude.{
  ℕ, ◌≡◌, ◌≤◌, refl, ap, ◌∙◌, ◌++◌, append_assoc, true, leb, Bool, List, [], ◌∷◌, Option, none,
  some, inl, inr, Option-cases, ℕ_eq, List_eq, arith,
}
use spa_device.Prelude.Text.{codes, to_decimal, decimal_digits}
use spa_device.Client.File.{u16_max}
use spa_device.Gated.Config.{Raw, suite_name}
use spa_device.Gated.Toml.{
  Value, text, number, Setting, lines, toml_text, all_basic, IsPlain, entries, raw_fields,
}
use spa_device.Gated.Generate.{Arguments, pieces, ca_line, gated_toml}

abbrev basic_or_none : Option (List ℕ) → Bool
basic_or_none none = true
basic_or_none (some s) = all_basic s

abbrev pub IsBasic : Arguments → Type 0
IsBasic a =
    (all_basic a.interface_name ≡ true)
    × (all_basic a.bpf_object ≡ true)
    × (all_basic a.url ≡ true)
    × (all_basic a.token ≡ true)
    × (all_basic a.address ≡ true)
    × (basic_or_none a.ca_cert ≡ true)

-- The fields of the file, with the defaults of serde for the others.
abbrev pub raw_of : Arguments → List ℕ → ℕ → List ℕ → Raw
raw_of a suite_name knock_port gate_private_hex = record {
  interface_name = a.interface_name;
  knock_port = knock_port;
  suite = suite_name;
  gate_private_hex = gate_private_hex;
  gate_id_hex = none;
  bpf_object = a.bpf_object;
  skew_seconds = 2;
  nftables_floor = true;
  config_anchor_hex = none;
  bundle_path = some (codes "/etc/spa/bundle.spa");
  protected_ports = [];
  client = [];
  token = [];
  control_plane =
      some (record { url = a.url; gate_token = a.token; address = a.address; ca_cert = a.ca_cert });
}

-- The settings that the file is to hold.
abbrev setting_of : List ℕ → ℕ → Value → Setting
setting_of key pad value = record { key = key; pad = pad; value = value }

abbrev pub root_of : Arguments → List ℕ → ℕ → List ℕ → List Setting
root_of a name port digits =
    setting_of (codes "interface") 0 (text a.interface_name)
    ∷ setting_of (codes "knock_port") 0 (number port)
    ∷ setting_of (codes "bpf_object") 0 (text a.bpf_object)
    ∷ setting_of (codes "skew_seconds") 0 (number 2)
    ∷ setting_of (codes "bundle_path") 0 (text (codes "/etc/spa/bundle.spa"))
    ∷ setting_of (codes "suite") 0 (text name)
    ∷ setting_of (codes "gate_private_hex") 0 (text digits)
    ∷ []

abbrev ca_setting : Option (List ℕ) → List Setting
ca_setting none = []
ca_setting (some c) = setting_of (codes "ca_cert") 3 (text c) ∷ []

abbrev pub table_of : Arguments → List Setting
table_of a =
    setting_of (codes "url") 7 (text a.url)
    ∷ setting_of (codes "gate_token") 0 (text a.token)
    ∷ setting_of (codes "address") 3 (text a.address)
    ∷ ca_setting a.ca_cert

-- A value, its quote and its line feed, before the rest of the file.
quoted :
    (v rest rest' : List ℕ) → rest ≡ rest' → (v ++ codes "\"\n") ++ rest ≡ v ++ (34 ∷ 10 ∷ rest')
quoted v rest rest' e =
    append_assoc v (codes "\"\n") rest ∙ ap (λ (r : List ℕ). v ++ (34 ∷ 10 ∷ r)) e

ca_line-lines : (c : Option (List ℕ)) → pieces (ca_line c ∷ []) ≡ lines (ca_setting c) []
ca_line-lines none = refl
ca_line-lines (some c) = ap (λ r. codes "ca_cert    = \"" ++ r) (quoted c [] [] refl)

pub gated_toml-toml_text :
    (a : Arguments) (name : List ℕ) (port : ℕ) (digits : List ℕ)
    → gated_toml a name port digits ≡ toml_text (root_of a name port digits) (table_of a)
unfolding to_decimal decimal_digits
gated_toml-toml_text a name port digits =
    ap (λ r. codes "interface = \"" ++ r)
      (quoted a.interface_name _ _ (
        ap (λ r. codes "knock_port = " ++ (to_decimal port ++ (codes "\nbpf_object = \"" ++ r)))
          (quoted a.bpf_object _ _ (
            ap
              (λ r.
                codes "skew_seconds = 2\nbundle_path = \"/etc/spa/bundle.spa\"\nsuite = \"" ++ r)
              (quoted name _ _ (
                ap (λ r. codes "gate_private_hex = \"" ++ r)
                  (quoted digits _ _ (
                    ap (λ r. codes "\n[control_plane]\nurl        = \"" ++ r)
                      (quoted a.url _ _ (
                        ap (λ r. codes "gate_token = \"" ++ r)
                          (quoted a.token _ _ (
                            ap (λ r. codes "address    = \"" ++ r)
                              (quoted a.address _ _ (ca_line-lines a.ca_cert))))))))))))))

pub root_of-IsPlain :
    (a : Arguments) (name : List ℕ) (port : ℕ) (digits : List ℕ)
    → IsBasic a
    → all_basic name ≡ true
    → port ≤ u16_max
    → all_basic digits ≡ true
    → IsPlain (root_of a name port digits)
root_of-IsPlain a name port digits basic plain small hex_plain = (
  refl,
  basic.0,
  refl,
  (
    refl,
    omega arith,
    refl,
    (
      refl,
      basic.1,
      refl,
      (
        refl,
        omega arith,
        refl,
        (refl, refl, refl, (refl, plain, refl, (refl, hex_plain, refl, tt))),
      ),
    ),
  ),
)

pub table_of-IsPlain : (a : Arguments) → IsBasic a → IsPlain (table_of a)
table_of-IsPlain a basic =
    let (name, program, url, token, address, ca) = basic in
    elim (Option-cases a.ca_cert) [
      | inl absent ↦ rw absent (refl, url, refl, (refl, token, refl, (refl, address, refl, tt)))
      | inr (c, given) ↦ rw given (
        refl,
        url,
        refl,
        (refl, token, refl, (refl, address, refl, (refl, rw given at ca, refl, tt))),
      )
    ]

pub raw_fields-raw_of :
    (a : Arguments) (name : List ℕ) (port : ℕ) (digits : List ℕ)
    → port ≤ u16_max
    → raw_fields (entries (root_of a name port digits)) (entries (table_of a))
      ≡ some (raw_of a name port digits)
raw_fields-raw_of a name port digits small =
    let fits : leb port u16_max ≡ true = ground arith in
    elim (Option-cases a.ca_cert) [
      | inl absent ↦ rw (raw_fields, absent, fits) refl
      | inr (c, given) ↦ rw (raw_fields, given, fits) refl
    ]
