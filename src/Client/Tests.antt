-- ===== src/Client/Tests.antt =====
-- A client with a toy provider, and files whose hexadecimal digits stand for themselves.
use spa_device.Prelude.{
  ℕ, ◌≡◌, refl, max, true, List, [], ◌∷◌, some, Result, ok, err, replicate, ◌==◌, if◌then◌else◌,
  List_eq, ℕ_eq,
}
use spa_device.Prelude.Assoc.{lookup, insert, remove}
use spa_device.Wire.{modern}
use spa_device.Crypto.{AgreementAlg}
use spa_device.Crypto.Toy.{toy, toy_agreement, toy_signing, drawn, toy_client, toy_gate}
use spa_device.Client.File.{
  Hex, parse_suite, lines_from, split_once, read_lines, read_kv, get_field, parse_digits,
  parse_uint, parse_u16, port_field, hexd, arr,
}
use spa_device.Client.Knocker.{Knocker, Enroller, Answers, from_files}
use spa_device.Client.Retry.{Outcome, with_open, with_open-Outcome}
use spa_device.Client.Sized.{IsSized, from_files-IsSized}

abbrev knocker : Knocker ℕ ℕ
knocker = record { gate_pubkey = toy_gate.public; gate_id = replicate 16 1; client = toy_client }

abbrev answers : ℕ → Answers AgreementAlg
answers i = record {
  nonce = some (replicate 16 i);
  since_epoch = some 1000;
  drawn = drawn;
  seed = 3;
  can_send = true;
}

-- The third attempt connects.
abbrev connect : ℕ → Result ℕ (List ℕ)
connect i = if i == 2 then ok 7 else err (i ∷ [])

with_open-Outcome_example :
    Outcome knocker
      (22 ∷ [])
      answers
      connect
      (max 5 1)
      0
      (with_open knocker (22 ∷ []) 5 answers connect)
with_open-Outcome_example = with_open-Outcome knocker (22 ∷ []) 5 answers connect

instance abbrev hex : Hex
hex = record { decode_hex = λ s. some s }

abbrev knock_text : List ℕ
knock_text =
    b's' ∷ b'u' ∷ b'i' ∷ b't' ∷ b'e' ∷ 32 ∷ b'=' ∷ 32 ∷ b'm' ∷ b'o' ∷ b'd' ∷ b'e' ∷ b'r' ∷ b'n' ∷ 10
    ∷ b'g' ∷ b'a' ∷ b't' ∷ b'e' ∷ b'_' ∷ b'p' ∷ b'u' ∷ b'b' ∷ b'k' ∷ b'e' ∷ b'y' ∷ b'_' ∷ b'h'
    ∷ b'e' ∷ b'x' ∷ b'=' ∷ b'a' ∷ b'b' ∷ 10 ∷ b'g' ∷ b'a' ∷ b't' ∷ b'e' ∷ b'_' ∷ b'i' ∷ b'd' ∷ b'_'
    ∷ b'h' ∷ b'e' ∷ b'x' ∷ b'=' ∷ b'0' ∷ b'1' ∷ b'2' ∷ b'3' ∷ b'4' ∷ b'5' ∷ b'6' ∷ b'7' ∷ b'8'
    ∷ b'9' ∷ b'a' ∷ b'b' ∷ b'c' ∷ b'd' ∷ b'e' ∷ b'f' ∷ 10 ∷ b'p' ∷ b'o' ∷ b'r' ∷ b't' ∷ b'=' ∷ b'2'
    ∷ b'2' ∷ 10 ∷ []

abbrev enroll_text : List ℕ
enroll_text =
    b't' ∷ b'o' ∷ b'k' ∷ b'e' ∷ b'n' ∷ b'_' ∷ b'i' ∷ b'd' ∷ b'_' ∷ b'h' ∷ b'e' ∷ b'x' ∷ b'=' ∷ b'e'
    ∷ b'e' ∷ b'e' ∷ b'e' ∷ b'e' ∷ b'e' ∷ b'e' ∷ b'e' ∷ b'e' ∷ b'e' ∷ b'e' ∷ b'e' ∷ b'e' ∷ b'e'
    ∷ b'e' ∷ b'e' ∷ b'e' ∷ b'e' ∷ b'e' ∷ b'e' ∷ b'e' ∷ b'e' ∷ b'e' ∷ b'e' ∷ b'e' ∷ b'e' ∷ b'e'
    ∷ b'e' ∷ b'e' ∷ b'e' ∷ b'e' ∷ b'e' ∷ 10 ∷ b's' ∷ b'e' ∷ b'c' ∷ b'r' ∷ b'e' ∷ b't' ∷ b'_' ∷ b'h'
    ∷ b'e' ∷ b'x' ∷ b'=' ∷ b'9' ∷ []

abbrev enroller : Enroller
enroller = record {
  suite = modern;
  gate_pubkey = b'a' ∷ b'b' ∷ [];
  gate_id =
      b'0' ∷ b'1' ∷ b'2' ∷ b'3' ∷ b'4' ∷ b'5' ∷ b'6' ∷ b'7' ∷ b'8' ∷ b'9' ∷ b'a' ∷ b'b' ∷ b'c'
      ∷ b'd' ∷ b'e' ∷ b'f' ∷ [];
  token_id = replicate 32 b'e';
  secret = b'9' ∷ [];
}

files_read : from_files (some knock_text) (some enroll_text) ≡ ok (enroller, 22 ∷ [])
unfolding from_files read_kv read_lines lines_from split_once get_field lookup insert remove
    parse_suite parse_digits parse_uint parse_u16 port_field hexd arr
files_read = refl

from_files-IsSized_example : IsSized (enroller, 22 ∷ [])
from_files-IsSized_example =
    from_files-IsSized (some knock_text) (some enroll_text) (enroller, 22 ∷ []) files_read
