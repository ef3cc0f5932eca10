-- ===== src/Gated/Toml.antt =====
-- The part of TOML that `provision` of spa-gated/src/main.rs writes, lines of settings with one table
-- behind them, and what the derived `Deserialize` of `Raw` in spa-gated/src/config.rs takes from it.
use spa_device.Prelude.{
  ℕ, ◌^◌, ◌<◌, ◌≡◌, not, ◌&&◌, ◌||◌, ◌==◌, leb, Bool, true, false, if◌then◌else◌, List, [], ◌∷◌,
  ◌++◌, replicate, Option, none, some, ℕ_eq, list_eq,
}
use spa_device.Prelude.Text.{codes, to_decimal}
use spa_device.Client.File.{u16_max}
use spa_device.Gated.Config.{RawControlPlane, Raw, Formats}

infixl 5 ◌>>=◌
-- The next field, if this one was read.
abbrev ◌>>=◌ : {A B : Type 0} → Option A → (A → Option B) → Option B
none >>= f = none
some a >>= f = f a

pub data Value : Type 0 where
  text : List ℕ → Value
  number : ℕ → Value

-- A setting, with `pad` more spaces behind its key than one.
pub record Setting : Type 0 where
  pub key : List ℕ
  pub pad : ℕ
  pub value : Value

abbrev pub value_line : Value → List ℕ → List ℕ
value_line (text v) rest = 34 ∷ v ++ 34 ∷ 10 ∷ rest
value_line (number n) rest = to_decimal n ++ 10 ∷ rest

abbrev pub line : Setting → List ℕ → List ℕ
line s rest = s.key ++ replicate s.pad 32 ++ 32 ∷ 61 ∷ 32 ∷ value_line s.value rest

abbrev pub lines : List Setting → List ℕ → List ℕ
lines [] rest = rest
lines (s ∷ settings) rest = line s (lines settings rest)

-- The settings of the root, then those of the table `control_plane`.
abbrev pub toml_text : List Setting → List Setting → List ℕ
toml_text root table = lines root (codes "\n[control_plane]\n" ++ lines table [])

-- What a basic string of TOML holds as it is: printable ASCII but no quote and no backslash.
abbrev pub all_basic : List ℕ → Bool
all_basic [] = true
all_basic (c ∷ cs) = not (c == 34) && (not (c == 92) && (leb 32 c && (leb c 126 && all_basic cs)))

-- A letter, a digit, `_` or `-`.
abbrev is_bare : ℕ → Bool
is_bare c =
    (leb 97 c && leb c 122)
    || ((leb 65 c && leb c 90) || ((leb 48 c && leb c 57) || (c == 95 || c == 45)))

abbrev pub all_bare : List ℕ → Bool
all_bare [] = true
all_bare (c ∷ cs) = is_bare c && all_bare cs

abbrev pub bare_key : List ℕ → Bool
bare_key [] = false
bare_key (c ∷ cs) = is_bare c && all_bare cs

abbrev has_key : List ℕ → List Setting → Bool
has_key k [] = false
has_key k (s ∷ settings) = list_eq k s.key || has_key k settings

abbrev pub IsPlainValue : Value → Type 0
IsPlainValue (text v) = all_basic v ≡ true
IsPlainValue (number n) = n < 2 ^ 63

-- Bare keys, no one twice, and values that are written as they are.
abbrev pub IsPlain : List Setting → Type 0
IsPlain [] = Unit
IsPlain (s ∷ settings) =
    (bare_key s.key ≡ true)
    × IsPlainValue s.value
    × (has_key s.key settings ≡ false)
    × IsPlain settings

abbrev pub Entries : Type 0
Entries = List (List ℕ × Value)

abbrev pub entries : List Setting → Entries
entries [] = []
entries (s ∷ settings) = (s.key, s.value) ∷ entries settings

abbrev value_at : List ℕ → Entries → Option Value
value_at k [] = none
value_at k ((key, value) ∷ es) = if list_eq k key then some value else value_at k es

-- A `String`, an `Option<String>`, a `u16`, a `u64` with a default, and a field with a default for which
-- neither a string nor a number will do.
abbrev a_string : Option Value → Option (List ℕ)
a_string none = none
a_string (some (text s)) = some s
a_string (some (number n)) = none

abbrev optional_string : Option Value → Option (Option (List ℕ))
optional_string none = some none
optional_string (some (text s)) = some (some s)
optional_string (some (number n)) = none

abbrev a_u16 : Option Value → Option ℕ
a_u16 none = none
a_u16 (some (text s)) = none
a_u16 (some (number n)) = if leb n u16_max then some n else none

abbrev u64_or : ℕ → Option Value → Option ℕ
u64_or default none = some default
u64_or default (some (text s)) = none
u64_or default (some (number n)) = some n

abbrev pub unset : {A : Type 0} → A → Option Value → Option A
unset default none = some default
unset default (some v) = none

abbrev control_plane_fields : Entries → Option RawControlPlane
control_plane_fields t = do
  url ← a_string (value_at (codes "url") t)
  gate_token ← a_string (value_at (codes "gate_token") t)
  address ← a_string (value_at (codes "address") t)
  ca_cert ← optional_string (value_at (codes "ca_cert") t)
  some (record { url = url; gate_token = gate_token; address = address; ca_cert = ca_cert })

abbrev pub raw_fields : Entries → Entries → Option Raw
raw_fields root table = do
  interface_name ← a_string (value_at (codes "interface") root)
  knock_port ← a_u16 (value_at (codes "knock_port") root)
  suite ← a_string (value_at (codes "suite") root)
  gate_private_hex ← a_string (value_at (codes "gate_private_hex") root)
  gate_id_hex ← optional_string (value_at (codes "gate_id_hex") root)
  bpf_object ← a_string (value_at (codes "bpf_object") root)
  skew_seconds ← u64_or 2 (value_at (codes "skew_seconds") root)
  nftables_floor ← unset true (value_at (codes "nftables_floor") root)
  config_anchor_hex ← optional_string (value_at (codes "config_anchor_hex") root)
  bundle_path ← optional_string (value_at (codes "bundle_path") root)
  protected_ports ← unset [] (value_at (codes "protected_ports") root)
  client ← unset [] (value_at (codes "client") root)
  token ← unset [] (value_at (codes "token") root)
  control_plane ← control_plane_fields table
  some (record {
    interface_name = interface_name;
    knock_port = knock_port;
    suite = suite;
    gate_private_hex = gate_private_hex;
    gate_id_hex = gate_id_hex;
    bpf_object = bpf_object;
    skew_seconds = skew_seconds;
    nftables_floor = nftables_floor;
    config_anchor_hex = config_anchor_hex;
    bundle_path = bundle_path;
    protected_ports = protected_ports;
    client = client;
    token = token;
    control_plane = some control_plane;
  })

-- The crate `toml`, with serde: on any text of this part of TOML, whatever its settings are, the fields
-- are what the settings say.
pub record ReadsToml (formats : Formats) : Type 0 where
  pub reads :
      (root table : List Setting)
      → IsPlain root
      → IsPlain table
      → has_key (codes "control_plane") root ≡ false
      → formats.config_from_toml (toml_text root table) ≡ raw_fields (entries root) (entries table)
