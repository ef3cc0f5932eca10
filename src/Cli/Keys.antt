-- ===== src/Cli/Keys.antt =====
-- The commands of spa-client/src/main.rs that make keys and write them to files: `keygen`,
-- `gen_client`, `gen_token`, `gen_anchor` and `sign_bundle`. What the random generator and the key
-- generators answer is an argument.
use spa_device.Prelude.{ℕ, List, [], ◌∷◌, ◌++◌, Option, none, ok, ok_or}
use spa_device.Prelude.Text.{codes, HexEncode}
use spa_device.Wire.{modern}
use spa_device.Crypto.{Primitives, Agreement, Signing}
use spa_device.Crypto.Gate.{generate_raw}
use spa_device.Crypto.Client.{ClientKey, Pkcs8, from_key_pairs, from_pkcs8, to_pkcs8, sign_detached}
use spa_device.Files.{FileSystem, Io, lift, ◌>>=◌, ◌>>◌, write_file}
use spa_device.Client.File.{Error, io, format, parse_suite, trim, Hex, hexd}
use spa_device.Client.Knocker.{from_crypto}

-- `port`, of `keygen` and of `gen_token`.
abbrev pub default_port : List ℕ
default_port = codes "9999"

-- `"{key}={value}\n"`
abbrev pub field_line : List ℕ → List ℕ → List ℕ → List ℕ
field_line k v rest = k ++ b'=' ∷ (v ++ 10 ∷ rest)

-- `key = "value"` and a line feed.
abbrev pub toml_line : List ℕ → List ℕ → List ℕ → List ℕ
toml_line k v rest = k ++ codes " = \"" ++ v ++ codes "\"\n" ++ rest

module _ ⦃hex : HexEncode⦄ where
  -- The text of `{prefix}.knock`.
  abbrev pub knock_text : List ℕ → List ℕ → List ℕ → List ℕ → List ℕ
  knock_text suite_name gate_public gate_id pkcs8 = field_line (codes "suite") suite_name (
      field_line (codes "gate_pubkey_hex") (hex.encode_hex gate_public) (
        field_line (codes "gate_id_hex") (hex.encode_hex gate_id) (
          field_line (codes "client_pkcs8_hex") (hex.encode_hex pkcs8)
            (field_line (codes "port") default_port []))))

  -- The text of `{prefix}.gate.toml`.
  abbrev pub gate_toml : {E D : Type 0} → List ℕ → List ℕ → List ℕ → ClientKey E D → List ℕ
  gate_toml suite_name gate_raw gate_id client = toml_line (codes "suite") suite_name (
      toml_line (codes "gate_private_hex") (hex.encode_hex gate_raw) (
        toml_line (codes "gate_id_hex") (hex.encode_hex gate_id) (
          codes "\n[[client]]\n"
          ++ toml_line (codes "thumbprint_hex") (hex.encode_hex client.thumbprint) (
              toml_line (codes "public_key_hex") (hex.encode_hex client.public)
                (codes "ports = [" ++ default_port ++ codes "]\n")))))

  -- The texts of `{prefix}.token.toml` and of `{prefix}.enroll`.
  abbrev pub token_toml : List ℕ → List ℕ → List ℕ
  token_toml token_id secret =
      codes "[[token]]\n"
      ++ toml_line (codes "token_id_hex") (hex.encode_hex token_id) (
          toml_line (codes "secret_hex") (hex.encode_hex secret)
            (codes "ports = [" ++ default_port ++ codes "]\n"))

  abbrev pub enroll_text : List ℕ → List ℕ → List ℕ
  enroll_text token_id secret =
      field_line (codes "token_id_hex") (hex.encode_hex token_id)
        (field_line (codes "secret_hex") (hex.encode_hex secret) [])

  module _ {F : Type 0} ⦃fs : FileSystem F⦄ where
    unfoldable pub gen_token : List ℕ → Option (List ℕ) → Option (List ℕ) → Io F Error (Unit {0})
    gen_token prefix token_bytes secret_bytes = do
      token_id ← lift (ok_or format token_bytes)
      secret ← lift (ok_or format secret_bytes)
      write_file io (prefix ++ codes ".token.toml") (token_toml token_id secret)
      write_file io (prefix ++ codes ".enroll") (enroll_text token_id secret)

    module _ {E D : Type 0} ⦃signing : Signing E D⦄ ⦃aws : Primitives⦄ ⦃pkcs8 : Pkcs8 E D⦄ where
      -- The result is the public key that is printed, in hexadecimal digits.
      unfoldable pub gen_client : List ℕ → List ℕ → Option E → Option D → Io F Error (List ℕ)
      gen_client prefix suite_name e d = do
        suite ← lift (parse_suite suite_name)
        client ← lift (from_crypto (from_key_pairs suite e d))
        doc ← lift (from_crypto (to_pkcs8 client))
        write_file io (prefix ++ codes ".client.key") (hex.encode_hex doc)
        lift (ok (hex.encode_hex client.public))

      module _ (P : Type 0) ⦃dh : Agreement P⦄ where
        unfoldable pub keygen :
            List ℕ
            → List ℕ
            → (ℕ → Option (List ℕ))
            → Option E
            → Option D
            → Option (List ℕ)
            → Io F Error (Unit {0})
        keygen prefix suite_name fill e d gate_id_bytes = do
          suite ← lift (parse_suite suite_name)
          gate ← lift (from_crypto (generate_raw {P = P} suite fill))
          client ← lift (from_crypto (from_key_pairs suite e d))
          doc ← lift (from_crypto (to_pkcs8 client))
          gate_id ← lift (ok_or format gate_id_bytes)
          write_file io (prefix ++ codes ".gate.toml") (gate_toml suite_name gate.1 gate_id client)
          write_file io (prefix ++ codes ".knock") (knock_text suite_name gate.0.public gate_id doc)

    module _ (E D : Type 0) ⦃signing : Signing E D⦄ ⦃aws : Primitives⦄ ⦃pkcs8 : Pkcs8 E D⦄ where
      unfoldable pub gen_anchor : List ℕ → Option D → Io F Error (List ℕ)
      gen_anchor prefix d = do
        anchor ← lift (from_crypto (from_key_pairs {E = E} modern none d))
        doc ← lift (from_crypto (to_pkcs8 anchor))
        write_file io (prefix ++ codes ".anchor.key") (hex.encode_hex doc)
        lift (ok (hex.encode_hex anchor.public))

      -- `keyfile` and `payload` are paths; the bundle is the signature and the payload.
      unfoldable pub sign_bundle :
          ⦃decoder : Hex⦄ → List ℕ → List ℕ → List ℕ → ℕ → Io F Error (Unit {0})
      sign_bundle keyfile payload out seed f =
          (do
            digits ← lift (ok_or io (fs.read f keyfile))
            doc ← lift (hexd (trim digits))
            anchor ← lift (from_crypto (from_pkcs8 {E = E} {D = D} modern doc))
            body ← lift (ok_or io (fs.read f payload))
            signature ← lift (from_crypto (sign_detached anchor seed body))
            write_file io out (signature ++ body))
            f
