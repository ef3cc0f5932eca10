-- ===== src/Gated/StartTests.antt =====
-- A daemon that starts with nothing but its key and the address of the control plane.
use spa_device.Prelude.{
  ℕ, ◌≡◌, ◌++◌, refl, ap, sym, true, [], ◌∷◌, none, some, ok, replicate, ℕ_eq, List_eq,
}
use spa_device.Prelude.Text.{codes, HexEncode, to_decimal, decimal_digits}
use spa_device.Prelude.Assoc.{HashMap, lookup, insert, remove}
use spa_device.Files.Table.{Table, table}
use spa_device.Grant.{Grant}
use spa_device.Bpf.Tables.{assoc_map, assoc_hash}
use spa_device.Ebpf.Layout.{Addr}
use spa_device.Crypto.{AgreementAlg}
use spa_device.Crypto.Gate.{from_raw_private}
use spa_device.Crypto.Toy.{toy, toy_agreement}
use spa_device.Gated.Config.{
  parse_control_plane, Formats, Raw, load_config, parse_tokens, parse_clients,
}
use spa_device.Gated.Bundle.{BundleFormat, load_verify}
use spa_device.Wire.{modern}
use spa_device.Crypto.{x25519, verify_signature}
use spa_device.Gated.Trust.{SharedTrust, set_clients, set_tokens}
use spa_device.Gated.Writer.{since_epoch, saturating_mul}
use spa_device.Gated.Nft.{install_floor}
use spa_device.Gated.Daemon.{Daemon, build_gatekeeper, replay_window}
use spa_device.Gated.Fetch.{
  Http, get, post, register_identity, client, ask, fetch_bundle, fetch_plan, parent, run_effects,
}
use spa_device.Gated.Provision.{
  Host, self_provision, fetch_first, or_fetched_id, or_fetched_anchor, parse_gate_id,
}
use spa_device.Gated.Ready.{IsFresh}
use spa_device.Gated.Start.{
  Outside, Started, start, start_gate, first_policy, start_with, protect_all, start_floor,
}
use spa_device.Gated.Started.{IsStarted, start-IsStarted}

abbrev raw : Raw
raw = record {
  interface_name = codes "eth0";
  knock_port = 62201;
  suite = codes "modern";
  gate_private_hex = replicate 32 3;
  gate_id_hex = none;
  bpf_object = codes "spa.o";
  skew_seconds = 2;
  nftables_floor = true;
  config_anchor_hex = none;
  bundle_path = some (codes "bundle.spa");
  protected_ports = [];
  client = [];
  token = [];
  control_plane = some (record {
    url = codes "https://cp.example/";
    gate_token = codes "secret";
    address = codes "10.0.0.1";
    ca_cert = none;
  });
}

-- Hexadecimal digits that stand for themselves.
instance abbrev formats : Formats
formats = record { hex_decode = λ s. some s; config_from_toml = λ s. some raw }

instance abbrev hex_encode : HexEncode
hex_encode = record { encode_hex = λ s. s }

instance abbrev bundle_format : BundleFormat
bundle_format = record {
  bundle_from_toml = λ s. some (record {
    generation = 7;
    protected_ports = 22 ∷ 443 ∷ [];
    client = [];
    token =
        record { token_id_hex = replicate 32 5; secret_hex = replicate 32 6; ports = 22 ∷ [] } ∷ [];
  });
}

instance abbrev http : Http
http = record {
  certificate_from_pem = λ pem. none;
  send = λ request. elim request.method [
    | get ↦ some (replicate 64 7 ++ codes "generation = 7")
    | post body ↦ some (codes "{}")
  ];
  provisioned_from_json =
      λ s. some (record { gate_id = some (replicate 16 1); config_anchor = some (replicate 32 4) });
}

abbrev host : Host Table
host = record {
  files = (codes "gated.toml", []) ∷ (codes "spa.o", []) ∷ [];
  log = [];
  unix = λ n. some n;
}

abbrev outside : Outside (HashMap Addr Grant) (HashMap ℕ ℕ)
outside = record {
  bind = λ address port. true;
  attach = λ object interface_name port. some ([], []);
  nft_works = true;
  mtime = some 1;
}

abbrev trust : SharedTrust
trust = record {
  clients = [];
  tokens = (replicate 32 5, (replicate 32 6, 22 ∷ [])) ∷ [];
  suite = modern;
}

abbrev gatekeeper : Daemon AgreementAlg (HashMap Addr Grant)
gatekeeper = record {
  config = record {
    gate_id = replicate 16 1;
    skew_nanos = 2000000000;
    pinhole_nanos = 30000000000;
  };
  clock = since_epoch none;
  crypto = record { suite = modern; private = x25519; public = replicate 32 0 };
  trust = trust;
  replay = (record { seen = []; window = 5000000000 }, 0);
  gate = record { writer = record { allow = []; nft_floor = true }; now_ns = 0; nft = [] };
}

abbrev cloaked : HashMap ℕ ℕ
cloaked = (443, 1) ∷ (22, 1) ∷ []

abbrev started : Started AgreementAlg (HashMap Addr Grant) (HashMap ℕ ℕ)
started = record {
  gatekeeper = gatekeeper;
  protected = cloaked;
  watcher = some (
    codes "bundle.spa",
    record {
      anchor = replicate 32 4;
      trust = trust;
      protected = cloaked;
      nft_floor = true;
      nft = install_floor [] (22 ∷ 443 ∷ []);
      known_ports = 22 ∷ 443 ∷ [];
      applied_gen = 7;
      last_mtime = some 1;
    },
  );
  fetcher = some (
    record {
      url = codes "https://cp.example/";
      gate_token = codes "secret";
      address = codes "10.0.0.1";
      ca_cert = none;
    },
    codes "bundle.spa",
  );
}

abbrev after : Host Table
after = (start {P = AgreementAlg} outside (codes "gated.toml") host).1

starts : start outside (codes "gated.toml") host ≡ (ok started, after)
unfolding start load_config parse_clients parse_tokens self_provision register_identity client ask
    fetch_first fetch_bundle fetch_plan parent run_effects or_fetched_id or_fetched_anchor
    parse_gate_id start_gate first_policy load_verify start_with protect_all start_floor
    install_floor build_gatekeeper from_raw_private saturating_mul replay_window set_tokens
    set_clients insert remove to_decimal decimal_digits verify_signature lookup parse_control_plane
starts = refl

loaded_empty : IsFresh outside
unfolding lookup
loaded_empty object interface_name port a m h p =
    let empty : [] ≡ m = cc h in ap (λ (t : HashMap ℕ ℕ). lookup t p) (sym empty)

start-IsStarted_example : IsStarted (codes "gated.toml") host after started
start-IsStarted_example =
    start-IsStarted assoc_hash outside (codes "gated.toml") host after started loaded_empty starts
