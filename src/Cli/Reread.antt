-- ===== src/Cli/Reread.antt =====
-- The files of `keygen` and of `gen_token` in spa-client/src/main.rs, read back by `from_knock_file`
-- and by `from_files` of spa-client/src/lib.rs.
use spa_device.Prelude.{
  ℕ, ◌≤◌, ◌≡◌, ◌⊎◌, refl, ap, ◌∙◌, true, List, [], ◌∷◌, some, ok, ℕ_eq, List_eq, All, arith,
}
use spa_device.Prelude.Bytes.{IsByte}
use spa_device.Prelude.Text.{HexEncode, codes}
use spa_device.Prelude.Assoc.{insert}
use spa_device.Client.File.{Hex, Fields, lines_from, read_lines, read_kv}
use spa_device.Client.Lines.{all_plain, read_lines-line}
use spa_device.Cli.Keys.{default_port, field_line, knock_text, enroll_text}

-- A lower-case hexadecimal digit.
abbrev pub IsHexDigit : ℕ → Type 0
IsHexDigit c = ((b'0' ≤ c) × (c ≤ b'9')) ⊎ ((b'a' ≤ c) × (c ≤ b'f'))

-- The crate `hex` writes lower-case digits, and reads what it wrote.
pub record LawfulHex (encoder : HexEncode) (decoder : Hex) : Type 0 where
  pub encode_digits : (bytes : List ℕ) → All IsHexDigit (encoder.encode_hex bytes)
  pub decode-encode :
      (bytes : List ℕ)
      → All IsByte bytes
      → decoder.decode_hex (encoder.encode_hex bytes) ≡ some bytes

all_plain-digits : (s : List ℕ) → All IsHexDigit s → all_plain s ≡ true
all_plain-digits [] h = refl
all_plain-digits (c ∷ cs) h = ground (arith, all_plain-digits cs)

module _ ⦃encoder : HexEncode⦄ ⦃decoder : Hex⦄ (hex : LawfulHex encoder decoder) where
  pub digits_plain : (bytes : List ℕ) → all_plain (encoder.encode_hex bytes) ≡ true
  digits_plain bytes = all_plain-digits (encoder.encode_hex bytes) (hex.encode_digits bytes)

  -- A field in hexadecimal digits.
  read_hex :
      (kv : Fields) (k bytes rest : List ℕ)
      → all_plain k ≡ true
      → read_lines kv (lines_from [] (field_line k (encoder.encode_hex bytes) rest))
        ≡ read_lines (insert kv k (encoder.encode_hex bytes)) (lines_from [] rest)
  read_hex kv k bytes rest h =
      read_lines-line kv k (encoder.encode_hex bytes) rest h (digits_plain bytes)

  abbrev pub knock_fields : List ℕ → List ℕ → List ℕ → List ℕ → Fields
  knock_fields suite_name gate_public gate_id pkcs8 =
      insert
        (insert
          (insert
            (insert (insert [] (codes "suite") suite_name) (codes "gate_pubkey_hex")
              (encoder.encode_hex gate_public))
            (codes "gate_id_hex") (encoder.encode_hex gate_id))
          (codes "client_pkcs8_hex") (encoder.encode_hex pkcs8))
        (codes "port") default_port

  pub read_kv-knock_text :
      (suite_name gate_public gate_id pkcs8 : List ℕ)
      → all_plain suite_name ≡ true
      → read_kv (some (knock_text suite_name gate_public gate_id pkcs8))
        ≡ ok (knock_fields suite_name gate_public gate_id pkcs8)
  unfolding read_kv
  read_kv-knock_text suite_name gate_public gate_id pkcs8 plain = ap ok (
      read_lines-line [] (codes "suite") suite_name _ refl plain
      ∙ read_hex _ (codes "gate_pubkey_hex") gate_public _ refl
      ∙ read_hex _ (codes "gate_id_hex") gate_id _ refl
      ∙ read_hex _ (codes "client_pkcs8_hex") pkcs8 _ refl
      ∙ read_lines-line _ (codes "port") default_port [] refl refl
      ∙ unfold read_lines lines_from in refl)

  abbrev pub enroll_fields : List ℕ → List ℕ → Fields
  enroll_fields token_id secret =
      insert (insert [] (codes "token_id_hex") (encoder.encode_hex token_id)) (codes "secret_hex")
        (encoder.encode_hex secret)

  pub read_kv-enroll_text :
      (token_id secret : List ℕ)
      → read_kv (some (enroll_text token_id secret)) ≡ ok (enroll_fields token_id secret)
  unfolding read_kv
  read_kv-enroll_text token_id secret = ap ok (
      read_hex [] (codes "token_id_hex") token_id _ refl
      ∙ read_hex _ (codes "secret_hex") secret [] refl
      ∙ unfold read_lines lines_from in refl)
