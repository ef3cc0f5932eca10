-- ===== src/Cli/Tests.antt =====
-- The commands of spa-client/src/main.rs over a table of files, with a toy provider.
use spa_device.Prelude.{
  ℕ, ◌≡◌, refl, subst, false, List, [], ◌∷◌, ◌++◌, Option, none, some, Result, ok, replicate, ℕ_eq,
  List_eq, arith,
}
use spa_device.Prelude.Text.{codes}
use spa_device.Prelude.Bytes.{IsArray}
use spa_device.Prelude.Assoc.{HashMap, lookup, insert, remove}
use spa_device.Wire.{modern, gate_id_len, thumbprint_len}
use spa_device.Bpf.Tables.{assoc_map}
use spa_device.Crypto.{AgreementAlg, thumbprint_of}
use spa_device.Crypto.Gate.{from_raw_private, generate_raw, generate_rounds}
use spa_device.Crypto.Client.{
  from_key_pairs, from_signer, from_pkcs8, to_pkcs8, sign_message, sign_detached,
}
use spa_device.Crypto.Toy.{
  toy, toy_lawful, toy_agreement, toy_agrees, toy_signing, toy_signs, bytes_array, some-injective,
}
use spa_device.Files.Table.{Table, table, table_lawful}
use spa_device.Client.File.{Error, parse_suite, hexd}
use spa_device.Gated.Config.{Formats, parse_tokens, parse_clients}
use spa_device.Gated.Bundle.{Bundle, BundleFormat}
use spa_device.Gated.Watch.{Watcher, apply_bundle, watch_round}
use spa_device.Gated.Publish.{IsPayload}
use spa_device.Cli.Keys.{keygen, gen_token, gen_anchor, sign_bundle}
use spa_device.Cli.Keygen.{IsReread, keygen-IsReread}
use spa_device.Cli.Publish.{sign_bundle-applied}
use spa_device.Cli.Toy.{hex_encode, hex_decode, hex_lawful, toy_pkcs8, toy_pkcs8_lawful, toy_makes}

abbrev pub after : {A B : Type 0} → Result A B × Table → Table
after (r, f) = f

abbrev pub fill : ℕ → Option (List ℕ)
fill n = some (replicate 32 n)

abbrev pub no_key : Option ℕ
no_key = none

abbrev pub key : Option ℕ
key = some 4

abbrev pub generated : Table
generated =
    after
      (keygen AgreementAlg (codes "me") (codes "modern") fill no_key key (some (replicate 16 1)) [])

keygen_done :
    keygen AgreementAlg (codes "me") (codes "modern") fill no_key key (some (replicate 16 1)) []
    ≡ (ok tt, generated)
unfolding keygen parse_suite generate_raw generate_rounds from_raw_private from_key_pairs
    from_signer thumbprint_of to_pkcs8 insert remove
keygen_done = refl

id_filled : (id : List ℕ) → some (replicate 16 1) ≡ some id → IsArray gate_id_len id
id_filled id h = subst (IsArray gate_id_len) (some-injective h) (bytes_array 16 1 (omega arith))

keygen-IsReread_example :
    IsReread hex_lawful AgreementAlg
      (codes "me")
      (codes "modern")
      fill
      no_key
      key
      (some (replicate 16 1))
      generated
keygen-IsReread_example =
    keygen-IsReread hex_lawful AgreementAlg toy_agrees toy_pkcs8_lawful toy_makes table_lawful
      (codes "me") (codes "modern") fill no_key key (some (replicate 16 1)) [] generated id_filled
      keygen_done

-- The same, for what follows it.
pub reread :
    IsReread hex_lawful AgreementAlg
      (codes "me")
      (codes "modern")
      fill
      no_key
      key
      (some (replicate 16 1))
      generated
reread =
    keygen-IsReread hex_lawful AgreementAlg toy_agrees toy_pkcs8_lawful toy_makes table_lawful
      (codes "me") (codes "modern") fill no_key key (some (replicate 16 1)) [] generated id_filled
      keygen_done

abbrev pub enrolled : Table
enrolled = after (gen_token (codes "me") (some (replicate 32 5)) (some (replicate 32 6)) generated)

pub token_drawn : (id : List ℕ) → some (replicate 32 5) ≡ some id → IsArray thumbprint_len id
token_drawn id h =
    subst (IsArray thumbprint_len) (some-injective h) (bytes_array 32 5 (omega arith))

pub secret_drawn : (s : List ℕ) → some (replicate 32 6) ≡ some s → IsArray 32 s
secret_drawn s h = subst (IsArray 32) (some-injective h) (bytes_array 32 6 (omega arith))

pub token_done :
    gen_token (codes "me") (some (replicate 32 5)) (some (replicate 32 6)) generated
    ≡ (ok tt, enrolled)
unfolding gen_token
token_done = refl

-- A bundle of generation 7, whose payload is its one line.
abbrev body : List ℕ
body = codes "generation = 7"

abbrev bundle : Bundle
bundle = record { generation = 7; protected_ports = 22 ∷ []; clients = []; tokens = [] }

instance abbrev formats : Formats
formats = record { hex_decode = λ s. some s; config_from_toml = λ s. none }

instance abbrev bundle_format : BundleFormat
bundle_format = record {
  bundle_from_toml =
      λ s. some (record { generation = 7; protected_ports = 22 ∷ []; client = []; token = [] });
}

body-IsPayload : IsPayload body bundle
unfolding parse_clients parse_tokens
body-IsPayload = record {
  raw = record { generation = 7; protected_ports = 22 ∷ []; client = []; token = [] };
  parsed = refl;
  clients = refl;
  tokens = refl;
  generation = refl;
  ports = refl;
}

abbrev with_payload : Table
with_payload = (codes "policy.toml", body) ∷ []

abbrev anchored : Result (List ℕ) Error × Table
anchored = gen_anchor ℕ ℕ (codes "cp") key with_payload

abbrev shown : List ℕ
shown = codes "0404040404040404040404040404040404040404040404040404040404040404"

anchor_made : gen_anchor ℕ ℕ (codes "cp") key with_payload ≡ (ok shown, anchored.1)
unfolding gen_anchor from_key_pairs from_signer thumbprint_of to_pkcs8
anchor_made = refl

payload_kept : lookup anchored.1 (codes "policy.toml") ≡ some body
unfolding gen_anchor from_key_pairs from_signer thumbprint_of to_pkcs8 lookup insert remove
payload_kept = refl

abbrev published : Table
published =
    (sign_bundle ℕ ℕ (codes "cp" ++ codes ".anchor.key") (codes "policy.toml")
      (codes "policy.bundle") 3 anchored.1).1

bundle_signed :
    sign_bundle ℕ ℕ
      (codes "cp" ++ codes ".anchor.key")
      (codes "policy.toml")
      (codes "policy.bundle")
      3
      anchored.1
    ≡ (ok tt, published)
unfolding sign_bundle gen_anchor from_key_pairs from_signer thumbprint_of to_pkcs8 lookup insert
    remove hexd from_pkcs8 sign_detached sign_message
bundle_signed = refl

abbrev watcher : Watcher (HashMap ℕ ℕ)
watcher = record {
  anchor = replicate 32 4;
  trust = record { clients = []; tokens = []; suite = modern };
  protected = [];
  nft_floor = false;
  nft = [];
  known_ports = [];
  applied_gen = 3;
  last_mtime = some 1;
}

sign_bundle-applied_example :
    watch_round watcher (record { mtime = some 2; file = lookup published (codes "policy.bundle") })
    ≡ apply_bundle (record watcher { last_mtime = some 2 }) bundle
sign_bundle-applied_example =
    sign_bundle-applied hex_lawful table_lawful toy_makes toy_pkcs8_lawful toy_lawful toy_signs
      (codes "cp") (codes "policy.toml") (codes "policy.bundle") shown body key 3 with_payload
      anchored.1 published bundle watcher 2 anchor_made payload_kept bundle_signed refl
      body-IsPayload refl (omega arith)
