-- ===== src/Cli/ProbeTests.antt =====
-- A descriptor that is read, a knock, and probes that find the port open in the third round.
use spa_device.Prelude.{
  ℕ, ◌+◌, ◌*◌, ◌≡◌, refl, true, false, List, [], ◌∷◌, map, Option, none, some, ok, replicate, ◌==◌,
  if◌then◌else◌, ℕ_eq, List_eq, list_eq, arith,
}
use spa_device.Prelude.Text.{codes, decimal_digits, to_decimal}
use spa_device.Prelude.Assoc.{HashMap, lookup}
use spa_device.Wire.{signing_bytes, encode}
use spa_device.Crypto.{AgreementAlg, thumbprint_of, derive, aead_seal}
use spa_device.Crypto.Client.{
  from_key_pairs, from_signer, from_pkcs8, sign_message, seal, seal_envelope,
}
use spa_device.Crypto.Toy.{toy, toy_agreement, toy_signing, drawn}
use spa_device.Client.File.{parse_suite, parse_uint, parse_digits, hexd}
use spa_device.Client.Knocker.{Answers, new_knocker, new_request, seal_now, send_udp, send_knock}
use spa_device.Cli.Confirm.{
  refused, failed, Probing, confirm_window, confirm_rounds, confirm_open, host_port, Ticks, Ending,
}
use spa_device.Cli.Ending.{confirm_open-Ending}
use spa_device.Cli.Descriptor.{
  Json, Inputs, gate_id_arr, key_path, field, u16_entries, descriptor_ports, chosen_ports,
  knock_descriptor,
}
use spa_device.Cli.Requested.{IsConfirmed, knock_descriptor-IsConfirmed}
use spa_device.Cli.Toy.{hex_decode, toy_pkcs8}

abbrev env : Probing
env = record {
  no_confirm = false;
  confirm_ms = some (codes "100");
  resolve = λ host. some host;
  start = 1000;
  probe = λ i. if i == 2 then refused else failed (codes "timed out");
  instant = λ i. 2000 + i * 55000000;
}

env-Ticks : Ticks env
env-Ticks = record { starts = omega arith; sleeps = λ i. omega arith }

host_resolves : env.resolve (host_port (codes "10.0.0.1") 22) ≡ some (codes "10.0.0.1:22")
unfolding host_port to_decimal decimal_digits
host_resolves = refl

confirm_open-Ending_example : Ending env 0 (confirm_open env (codes "10.0.0.1") 22)
confirm_open-Ending_example =
    confirm_open-Ending env env-Ticks (codes "10.0.0.1") (codes "10.0.0.1:22") 22 refl host_resolves

-- The values of a descriptor.
data Value : Type 0 where
  top : Value
  str : List ℕ → Value
  num : ℕ → Value
  nums : List ℕ → Value

abbrev members : HashMap (List ℕ) Value
members =
    (codes "suite", str (codes "modern"))
    ∷ (codes "gate_pubkey_hex", str (codes "00000000000000000000000000000000"))
    ∷ (codes "gate_id_hex", str (codes "01010101010101010101010101010101"))
    ∷ (codes "address", str (codes "10.0.0.1"))
    ∷ (codes "knock_port", num 62201)
    ∷ (codes "ports", nums (22 ∷ 443 ∷ []))
    ∷ []

abbrev member : Value → List ℕ → Option Value
member top k = lookup members k
member v k = none

abbrev text_of : Value → Option (List ℕ)
text_of (str s) = some s
text_of v = none

abbrev number_of : Value → Option ℕ
number_of (num n) = some n
number_of v = none

abbrev items_of : Value → Option (List Value)
items_of (nums ns) = some (map num ns)
items_of v = none

instance abbrev json : Json Value
json = record {
  json_from_str = λ s. some top;
  get = member;
  as_str = text_of;
  as_u64 = number_of;
  as_array = items_of;
}

-- Only the file behind the prefix is there.
abbrev inputs : Inputs
inputs = record {
  exists = λ path. false;
  file = λ path. if list_eq path (codes "me.client.key") then some (codes "04\n") else some [];
}

abbrev answers : Answers AgreementAlg
answers = record {
  nonce = some (replicate 16 9);
  since_epoch = some 1000;
  drawn = drawn;
  seed = 3;
  can_send = true;
}

abbrev sent : List (List ℕ)
sent = (knock_descriptor Value ℕ ℕ inputs answers env (codes "gate.json") (codes "me") none).1

knocked :
    knock_descriptor Value ℕ ℕ inputs answers env (codes "gate.json") (codes "me") none
    ≡ (some (ok tt), sent)
unfolding knock_descriptor field parse_suite hexd gate_id_arr key_path chosen_ports descriptor_ports
    u16_entries host_port to_decimal decimal_digits new_knocker from_pkcs8 from_key_pairs
    from_signer thumbprint_of send_knock seal_now new_request seal sign_message signing_bytes encode
    seal_envelope derive aead_seal send_udp confirm_open confirm_rounds confirm_window parse_uint
    parse_digits lookup
knocked = refl

knock_descriptor-IsConfirmed_example :
    IsConfirmed Value ℕ ℕ inputs answers env (codes "gate.json") (codes "me") none sent
knock_descriptor-IsConfirmed_example =
    knock_descriptor-IsConfirmed Value ℕ ℕ inputs answers env (codes "gate.json") (codes "me") none
      sent knocked
