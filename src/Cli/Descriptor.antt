-- ===== src/Cli/Descriptor.antt =====
-- `knock_descriptor` of spa-client/src/main.rs. The crate `serde_json` is an interface over its values
-- `J`; the descriptor's text, and what the outside answers, are arguments.
use spa_device.Prelude.{
  ℕ, not, ◌==◌, leb, if◌then◌else◌, List, [], ◌∷◌, ◌++◌, length, Bool, Option, none, some, Result,
  ok, err, ◌>>=◌, ok_or,
}
use spa_device.Prelude.Text.{codes}
use spa_device.Wire.{gate_id_len}
use spa_device.Crypto.{Primitives, Agreement, Signing}
use spa_device.Crypto.Client.{Pkcs8}
use spa_device.Client.File.{Error, io, format, parse_suite, trim, u16_max, parse_u16, Hex, hexd}
use spa_device.Client.Knocker.{Knocker, Answers, new_knocker, send_knock}
use spa_device.Cli.Confirm.{Probing, host_port, confirm_open}

pub record Json (J : Type 0) : Type 0 where
  pub json_from_str : List ℕ → Option J
  pub get : J → List ℕ → Option J
  pub as_str : J → Option (List ℕ)
  pub as_u64 : J → Option ℕ
  pub as_array : J → Option (List J)

-- `s.split(sep)`: the part before the next separator, behind what is read of it, and the others.
unfoldable pub split_on : ℕ → List ℕ → List ℕ → List (List ℕ)
split_on sep part [] = part ∷ []
split_on sep part (c ∷ cs) =
    let cut = split_on sep [] cs in
    let on = split_on sep (part ++ c ∷ []) cs in if c == sep then part ∷ cut else on

-- `.map(|p| p.trim().parse::<u16>()).collect::<Result<_, _>>()`
unfoldable pub collect_ports : List (List ℕ) → Result (List ℕ) Error
collect_ports [] = ok []
collect_ports (part ∷ parts) = do
  p ← ok_or format (parse_u16 (trim part))
  ps ← collect_ports parts
  ok (p ∷ ps)

unfoldable pub parse_ports : List ℕ → Result (List ℕ) Error
unfolding split_on collect_ports
parse_ports s = collect_ports (split_on b',' [] s)

unfoldable pub gate_id_arr : ⦃hex : Hex⦄ → List ℕ → Result (List ℕ) Error
unfolding hexd
gate_id_arr s = do b ← hexd s; if not (length b == gate_id_len) then err format else ok b

-- The two files that the command reads, by their paths, and whether a path exists.
pub record Inputs : Type 0 where
  pub exists : List ℕ → Bool
  pub file : List ℕ → Option (List ℕ)

-- `gen-client p` writes `p.client.key`; the bare prefix is accepted too.
unfoldable pub key_path : Inputs → List ℕ → List ℕ
key_path inputs client_key =
    if inputs.exists client_key then client_key else client_key ++ codes ".client.key"

module _ {J : Type 0} ⦃json : Json J⦄ where
  unfoldable pub field : J → List ℕ → Result (List ℕ) Error
  field v k = do x ← ok_or format (json.get v k); ok_or format (json.as_str x)

  unfoldable pub u16_entries : List J → Result (List ℕ) Error
  u16_entries [] = ok []
  u16_entries (v ∷ vs) = do
    n ← ok_or format (json.as_u64 v)
    p ← if leb n u16_max then ok n else err format
    ps ← u16_entries vs
    ok (p ∷ ps)

  unfoldable pub descriptor_ports : J → Result (List ℕ) Error
  unfolding u16_entries
  descriptor_ports d = do
    v ← ok_or format (json.get d (codes "ports"))
    entries ← ok_or format (json.as_array v)
    u16_entries entries

  -- `match ports { Some(s) => parse_ports(s)?, None => descriptor_ports(&d)? }`
  unfoldable pub chosen_ports : J → Option (List ℕ) → Result (List ℕ) Error
  unfolding parse_ports descriptor_ports
  chosen_ports d (some s) = parse_ports s
  chosen_ports d none = descriptor_ports d

-- What the command has found out before it knocks.
pub record Prepared (E D : Type 0) : Type 0 where
  pub knocker : Knocker E D
  pub ports : List ℕ
  pub address : List ℕ
  pub target : List ℕ

-- The first port is probed until it is open.
abbrev pub confirm_first : Probing → List ℕ → List ℕ → Option (Result (Unit {0}) Error)
confirm_first env address [] = some (ok tt)
confirm_first env address (port ∷ ports) = confirm_open env address port

module _ (J : Type 0) ⦃json : Json J⦄ ⦃hex : Hex⦄ (E D : Type 0) ⦃signing : Signing E D⦄
    ⦃aws : Primitives⦄ ⦃pkcs8 : Pkcs8 E D⦄ where
  unfoldable pub prepare : Inputs → List ℕ → List ℕ → Option (List ℕ) → Result (Prepared E D) Error
  unfolding field gate_id_arr key_path chosen_ports host_port
  prepare inputs descriptor client_key ports = do
    text ← ok_or io (inputs.file descriptor)
    d ← ok_or format (json.json_from_str text)
    suite_name ← field d (codes "suite")
    suite ← parse_suite suite_name
    pubkey_hex ← field d (codes "gate_pubkey_hex")
    gate_pubkey ← hexd pubkey_hex
    id_hex ← field d (codes "gate_id_hex")
    gate_id ← gate_id_arr id_hex
    address ← field d (codes "address")
    port_value ← ok_or format (json.get d (codes "knock_port"))
    knock_port ← ok_or format (json.as_u64 port_value)
    key_hex ← ok_or io (inputs.file (key_path inputs client_key))
    doc ← hexd (trim key_hex)
    wanted ← chosen_ports d ports
    knocker ← new_knocker suite gate_pubkey gate_id doc
    ok (record {
      knocker = knocker;
      ports = wanted;
      address = address;
      target = host_port address knock_port;
    })

  -- The outcome, `none` if the fuel of `confirm_open` ran out, and the datagrams that were sent.
  unfoldable pub knock_descriptor :
      {P : Type 0} ⦃dh : Agreement P⦄
      → Inputs
      → Answers P
      → Probing
      → List ℕ
      → List ℕ
      → Option (List ℕ)
      → Option (Result (Unit {0}) Error) × List (List ℕ)
  unfolding prepare
  knock_descriptor inputs answers env descriptor client_key ports =
      elim (prepare inputs descriptor client_key ports) [
        | err e ↦ (some (err e), [])
        | ok p ↦ elim (send_knock p.knocker answers p.ports) [
          | err e ↦ (some (err e), [])
          | ok packet ↦ (confirm_first env p.address p.ports, packet ∷ [])
        ]
      ]
