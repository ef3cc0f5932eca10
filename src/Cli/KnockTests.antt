-- ===== src/Cli/KnockTests.antt =====
-- `knock` with the knock file of `keygen`.
use spa_device.Prelude.{
  ℕ, ◌≡◌, refl, subst, true, List, [], ◌∷◌, some, ok, err, replicate, ℕ_eq, List_eq, arith,
}
use spa_device.Prelude.Text.{codes}
use spa_device.Prelude.Bytes.{IsArray}
use spa_device.Prelude.Assoc.{lookup, insert, remove}
use spa_device.Files.Table.{table, table_lawful}
use spa_device.Wire.{nonce_len, signing_bytes, encode}
use spa_device.Core.{Opened}
use spa_device.Crypto.{
  mac_sha512, verify_mac, AgreementAlg, thumbprint_of, verify_signature, derive, aead_seal,
}
use spa_device.Crypto.Gate.{open_packet, from_raw_private, generate_raw, generate_rounds}
use spa_device.Crypto.Client.{
  seal_psk, from_key_pairs, from_signer, from_pkcs8, to_pkcs8, sign_message, seal, seal_envelope,
}
use spa_device.Crypto.Toy.{
  toy, toy_lawful, toy_agreement, toy_agrees, toy_signing, toy_signs, bytes_array, some-injective,
  drawn, drawn-DrawsKeys, payload,
}
use spa_device.Client.File.{
  lines_from, parse_digits, parse_uint, read_lines, split_once, parse_suite, hexd, arr, read_kv,
  get_field, port_field, parse_u16,
}
use spa_device.Client.Knocker.{
  from_files, enroll_knock, Answers, from_knock_file, new_knocker, new_request, send_knock,
  seal_now, send_udp,
}
use spa_device.Cli.Main.{Command, help, usage, parse_command, knock_command, enroll_command}
use spa_device.Cli.Keys.{keygen, gen_token}
use spa_device.Cli.Knock.{FillsNonce, knock_command-opens}
use spa_device.Cli.Enroll.{enroll_command-opens}
use spa_device.Cli.Tests.{
  enrolled, token_drawn, secret_drawn, token_done, generated, reread, fill, no_key, key,
}
use spa_device.Cli.Toy.{hex_encode, hex_decode, hex_lawful, toy_pkcs8}

abbrev answers : Answers AgreementAlg
answers = record {
  nonce = some (replicate nonce_len 2);
  since_epoch = some 5;
  drawn = drawn;
  seed = 3;
  can_send = true;
}

abbrev packet : List ℕ
packet = payload (knock_command ℕ ℕ (lookup generated (codes "me.knock")) answers)

sent : knock_command ℕ ℕ (lookup generated (codes "me.knock")) answers ≡ ok packet
unfolding knock_command from_knock_file read_kv lookup keygen parse_suite generate_raw
    from_raw_private to_pkcs8 insert get_field hexd arr port_field send_knock seal signing_bytes
    sign_message lines_from parse_digits parse_u16 parse_uint read_lines split_once new_knocker
    new_request seal_now send_udp from_key_pairs from_pkcs8 from_signer seal_envelope
    generate_rounds aead_seal derive thumbprint_of remove encode
sent = refl

nonce_filled : FillsNonce answers
nonce_filled n h =
    subst (IsArray nonce_len) (some-injective h) (bytes_array nonce_len 2 (omega arith))

knock_command-opens_example :
    (o : Opened) × (open_packet reread.gate.0 packet ≡ ok o)
    × (o.auth.ports ≡ 9999 ∷ [])
    × (o.auth.gate_id ≡ reread.gate_id)
    × (o.auth.key_thumbprint ≡ reread.client.thumbprint)
    × (verify_signature reread.suite reread.client.public o.signing_bytes o.auth.signature ≡ true)
knock_command-opens_example =
    knock_command-opens hex_lawful toy_lawful toy_signs AgreementAlg toy_agrees (codes "me")
      (codes "modern") fill no_key key (some (replicate 16 1)) generated reread answers packet
      drawn-DrawsKeys nonce_filled sent

abbrev enroll_packet : List ℕ
enroll_packet = payload (
    enroll_command (lookup enrolled (codes "me.knock")) (lookup enrolled (codes "me.enroll"))
      answers)

enrolls :
    enroll_command
      (lookup enrolled (codes "me.knock"))
      (lookup enrolled (codes "me.enroll"))
      answers
    ≡ ok enroll_packet
unfolding enroll_command from_files read_kv lookup gen_token keygen parse_suite generate_raw
    from_raw_private to_pkcs8 insert get_field hexd arr port_field enroll_knock seal_psk
    signing_bytes lines_from parse_digits parse_u16 parse_uint read_lines split_once new_request
    send_udp from_key_pairs from_signer seal_envelope generate_rounds aead_seal derive thumbprint_of
    mac_sha512 remove encode
enrolls = refl

enroll_command-opens_example :
    (o : Opened) × (secret : List ℕ) × (open_packet reread.gate.0 enroll_packet ≡ ok o)
    × (o.auth.ports ≡ 9999 ∷ [])
    × (o.auth.gate_id ≡ reread.gate_id)
    × (some (replicate 32 5) ≡ some o.auth.key_thumbprint)
    × (some (replicate 32 6) ≡ some secret)
    × (verify_mac secret o.signing_bytes o.auth.signature ≡ true)
enroll_command-opens_example =
    enroll_command-opens hex_lawful toy_lawful AgreementAlg toy_agrees table_lawful (codes "me")
      (codes "me") (codes "modern") fill no_key key (some (replicate 16 1)) (some (replicate 32 5))
      (some (replicate 32 6)) generated enrolled reread answers enroll_packet token_drawn
      secret_drawn drawn-DrawsKeys nonce_filled token_done enrolls

-- The commands, with the arguments that they need.
default_suite :
    parse_command (codes "spa-client" ∷ codes "keygen" ∷ codes "me" ∷ [])
    ≡ ok (Command.keygen (codes "me") (codes "modern"))
unfolding parse_command
default_suite = refl

missing_file : parse_command (codes "spa-client" ∷ codes "knock" ∷ codes "gate:1" ∷ []) ≡ err usage
unfolding parse_command
missing_file = refl

unknown_command : parse_command (codes "spa-client" ∷ codes "open" ∷ []) ≡ ok help
unfolding parse_command
unknown_command = refl
