-- ===== src/Gated/RefetchTests.antt =====
-- A bundle that the control plane signed is fetched, applied and logged.
use spa_device.Prelude.{
  ℕ, ◌≡◌, ◌++◌, refl, true, false, [], ◌∷◌, List, Option, none, some, ok, replicate, ℕ_eq, List_eq,
  arith,
}
use spa_device.Prelude.Text.{codes}
use spa_device.Prelude.Assoc.{HashMap, lookup, insert, remove}
use spa_device.Files.Table.{Table, table, table_lawful}
use spa_device.Wire.{modern}
use spa_device.Bpf.Tables.{assoc_map}
use spa_device.Crypto.{verify_signature}
use spa_device.Crypto.Toy.{toy}
use spa_device.Gated.Config.{Formats, ControlPlane, parse_clients, parse_tokens}
use spa_device.Gated.Bundle.{Bundle, BundleFormat}
use spa_device.Gated.Watch.{Watcher, Round, apply_bundle, watch_round}
use spa_device.Gated.Publish.{IsPayload}
use spa_device.Gated.Fetch.{Http, get, fetch_plan, parent, client, ask, run_effects, fetch_bundle}
use spa_device.Gated.Provision.{Host}
use spa_device.Gated.Notice.{BundleText, watch_logged}
use spa_device.Gated.Noticed.{IsLogged, watch_logged-IsLogged}
use spa_device.Gated.Refetch.{ErrorText, refetch, refetch-applied}

instance abbrev formats : Formats
formats = record { hex_decode = λ s. some s; config_from_toml = λ s. none }

instance abbrev bundle_format : BundleFormat
bundle_format = record {
  bundle_from_toml =
      λ s. some (record { generation = 8; protected_ports = 22 ∷ []; client = []; token = [] });
}

instance abbrev http : Http
http = record {
  certificate_from_pem = λ pem. none;
  send = λ request. some (replicate 64 7 ++ codes "generation = 8");
  provisioned_from_json = λ s. none;
}

instance abbrev texts : ErrorText
texts = record { to_string = λ e. codes "error" }

abbrev control_plane : ControlPlane
control_plane = record {
  url = codes "https://cp.example";
  gate_token = codes "secret";
  address = codes "10.0.0.1";
  ca_cert = none;
}

abbrev host : Host Table
host = record { files = (codes "bundle.spa", codes "old") ∷ []; log = []; unix = λ n. some n }

abbrev newer : Bundle
newer = record { generation = 8; protected_ports = 22 ∷ []; clients = []; tokens = [] }

abbrev watcher : Watcher (HashMap ℕ ℕ)
watcher = record {
  anchor = replicate 32 4;
  trust = record { clients = []; tokens = []; suite = modern };
  protected = [];
  nft_floor = false;
  nft = [];
  known_ports = [];
  applied_gen = 7;
  last_mtime = some 1;
}

answered :
    ask host.files control_plane get (codes "/api/gate/bundle")
    ≡ ok (replicate 64 7 ++ codes "generation = 8")
unfolding ask client
answered = refl

fetched : (fetch_bundle control_plane (codes "bundle.spa") host.files).0 ≡ ok true
unfolding fetch_bundle ask client fetch_plan parent run_effects lookup insert remove
fetched = refl

verified : verify_signature modern watcher.anchor (codes "generation = 8") (replicate 64 7) ≡ true
unfolding verify_signature
verified = refl

payload : IsPayload (codes "generation = 8") newer
unfolding parse_clients parse_tokens
payload = record {
  raw = record { generation = 8; protected_ports = 22 ∷ []; client = []; token = [] };
  parsed = refl;
  clients = refl;
  tokens = refl;
  generation = refl;
  ports = refl;
}

refetch-applied_example :
    watch_round watcher (record {
      mtime = some 2;
      file = lookup (refetch control_plane (codes "bundle.spa") host).files (codes "bundle.spa");
    })
    ≡ apply_bundle (record watcher { last_mtime = some 2 }) newer
refetch-applied_example =
    refetch-applied table_lawful control_plane (codes "bundle.spa") (replicate 64 7)
      (codes "generation = 8") host true newer watcher 2 answered fetched refl verified payload refl
      (omega arith)

instance abbrev bundle_texts : BundleText
bundle_texts = record { to_string = λ e. codes "refused" }

-- The new bundle, and then a file that is cut off.
abbrev rounds : List (Round × Option ℕ)
rounds =
    (
      record { mtime = some 2; file = some (replicate 64 7 ++ codes "generation = 8") },
      some 5000000,
    )
    ∷ (record { mtime = some 3; file = some (codes "gen") }, some 6000000)
    ∷ []

watch_logged-IsLogged_example : IsLogged watcher [] rounds (watch_logged watcher [] rounds)
watch_logged-IsLogged_example = watch_logged-IsLogged watcher [] rounds
