-- ===== src/Cli/Toy.antt =====
-- Hexadecimal digits and PKCS#8 documents that have the laws asked for.
use spa_device.Prelude.{
  ℕ, ◌+◌, ◌-◌, ◌*◌, ◌/◌, ◌%◌, ◌<◌, ◌≡◌, refl, subst, ltb, leb, if◌then◌else◌, List, [], ◌∷◌, Option,
  none, some, All, arith,
}
use spa_device.Prelude.Text.{HexEncode}
use spa_device.Prelude.Bytes.{IsByte}
use spa_device.Crypto.Client.{Pkcs8}
use spa_device.Crypto.Laws.{LawfulPkcs8, MakesBytes, public_len}
use spa_device.Crypto.Toy.{toy_agreement, toy_signing, All-replicate, some-injective}
use spa_device.Client.File.{Hex}
use spa_device.Cli.Reread.{IsHexDigit, LawfulHex}

abbrev hex_digit : ℕ → ℕ
hex_digit n = if ltb n 10 then b'0' + n else 87 + n

abbrev digit_value : ℕ → ℕ
digit_value c = if leb c b'9' then c - b'0' else c - 87

abbrev encode_digits : List ℕ → List ℕ
encode_digits [] = []
encode_digits (b ∷ bs) = hex_digit (b / 16 % 16) ∷ hex_digit (b % 16) ∷ encode_digits bs

abbrev decode_digits : List ℕ → Option (List ℕ)
decode_digits [] = some []
decode_digits (c ∷ []) = none
decode_digits (c ∷ d ∷ cs) = elim (decode_digits cs) [
  | none ↦ none
  | some bs ↦ some ((digit_value c * 16 + digit_value d) ∷ bs)
]

instance abbrev pub hex_encode : HexEncode
hex_encode = record { encode_hex = encode_digits }

instance abbrev pub hex_decode : Hex
hex_decode = record { decode_hex = decode_digits }

hex_digit-IsHexDigit : (n : ℕ) → n < 16 → IsHexDigit (hex_digit n)
hex_digit-IsHexDigit n h = ground arith

digits-IsHexDigit : (bytes : List ℕ) → All IsHexDigit (encode_digits bytes)
digits-IsHexDigit [] = tt
digits-IsHexDigit (b ∷ bs) = (
  hex_digit-IsHexDigit (b / 16 % 16) (omega arith),
  (hex_digit-IsHexDigit (b % 16) (omega arith), digits-IsHexDigit bs),
)

value-digit : (n : ℕ) → n < 16 → digit_value (hex_digit n) ≡ n
value-digit n h = ground arith

decode-encode_digits :
    (bytes : List ℕ) → All IsByte bytes → decode_digits (encode_digits bytes) ≡ some bytes
decode-encode_digits [] h = refl
decode-encode_digits (b ∷ bs) h = ground (
  arith,
  h,
  decode-encode_digits bs,
  value-digit (b / 16 % 16) (omega arith),
  value-digit (b % 16) (omega arith),
)

pub hex_lawful : LawfulHex hex_encode hex_decode
hex_lawful = record { encode_digits = digits-IsHexDigit; decode-encode = decode-encode_digits }

-- A document is the key itself, if it is a byte.
abbrev doc_of : ℕ → Option (List ℕ)
doc_of kp = if ltb kp 256 then some (kp ∷ []) else none

abbrev key_of : List ℕ → Option ℕ
key_of [] = none
key_of (kp ∷ rest) = some kp

instance abbrev pub toy_pkcs8 : Pkcs8 ℕ ℕ
toy_pkcs8 = record {
  ecdsa_from_pkcs8 = key_of;
  ed25519_from_pkcs8 = key_of;
  ecdsa_to_pkcs8v1 = doc_of;
  ed25519_to_pkcs8 = doc_of;
}

key-doc : (kp : ℕ) (doc : List ℕ) → doc_of kp ≡ some doc → key_of doc ≡ some kp
key-doc kp [] h = ground (arith, h)
key-doc kp (c ∷ cs) h = ground (arith, h)

pub toy_pkcs8_lawful : LawfulPkcs8 toy_pkcs8
toy_pkcs8_lawful = record { ecdsa_reads = key-doc; ed25519_reads = key-doc }

doc_of-bytes : (kp : ℕ) (doc : List ℕ) → doc_of kp ≡ some doc → All IsByte doc
doc_of-bytes kp [] h = tt
doc_of-bytes kp (c ∷ []) h = (ground (arith, h), tt)
doc_of-bytes kp (c ∷ d ∷ cs) h = absurd (ground (arith, h))

pub toy_makes : MakesBytes toy_agreement toy_pkcs8 toy_signing
toy_makes = record {
  ed25519_public_bytes = λ kp. All-replicate 32 (kp % 256) (omega arith);
  public_bytes = λ a public h.
      subst (All IsByte) (some-injective h) (All-replicate (public_len a) 0 (omega arith));
  ecdsa_doc_bytes = doc_of-bytes;
  ed25519_doc_bytes = doc_of-bytes;
}
