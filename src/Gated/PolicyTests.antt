-- ===== src/Gated/PolicyTests.antt =====
-- A configuration and a bundle watcher over association lists.
use spa_device.Prelude.{
  ℕ, ◌*◌, ◌<◌, ◌≡◌, ◌⊎◌, refl, true, false, List, [], ◌∷◌, none, some, ok, replicate, contains,
  ℕ_eq, List_eq, arith,
}
use spa_device.Prelude.Assoc.{HashMap, lookup, insert}
use spa_device.Wire.{modern, fips}
use spa_device.Grant.{Grant}
use spa_device.Bpf.Tables.{assoc_map, assoc_hash}
use spa_device.Ebpf.Layout.{Addr}
use spa_device.Ebpf.Flows.{FlowKey_eq}
use spa_device.Crypto.{AgreementAlg, ecdh_p256}
use spa_device.Crypto.Gate.{from_raw_private}
use spa_device.Crypto.Toy.{toy, toy_agreement}
use spa_device.Gated.Config.{parse_tokens, Formats, Raw, Config, load_config}
use spa_device.Gated.Replay.{is_some}
use spa_device.Gated.Trust.{set_tokens, set_clients}
use spa_device.Gated.Writer.{saturating_mul, since_epoch}
use spa_device.Gated.Daemon.{Daemon, replay_window, build_gatekeeper}
use spa_device.Gated.Bundle.{Bundle, BundleFormat}
use spa_device.Gated.Watch.{to_set, difference, Watcher, Round, apply_bundle, watch}
use spa_device.Gated.Rollback.{SamePolicy, NewPolicy, watch-policy}
use spa_device.Gated.Cloaked.{HasRoom, apply_bundle-protected}
use spa_device.Gated.Startup.{build_gatekeeper-window}
use spa_device.Gated.Loaded.{IsLoaded, load_config-IsLoaded}

abbrev Allow : Type 0
Allow = HashMap Addr Grant

abbrev raw : Raw
raw = record {
  interface_name = b'e' ∷ [];
  knock_port = 62201;
  suite = b'f' ∷ b'i' ∷ b'p' ∷ b's' ∷ [];
  gate_private_hex = replicate 32 3;
  gate_id_hex = some (replicate 16 1);
  bpf_object = [];
  skew_seconds = 2;
  nftables_floor = true;
  config_anchor_hex = none;
  bundle_path = none;
  protected_ports = 22 ∷ [];
  client =
      record { thumbprint_hex = replicate 32 4; public_key_hex = replicate 65 5; ports = 22 ∷ [] }
      ∷ [];
  token = [];
  control_plane = none;
}

-- Hexadecimal digits that stand for themselves, and one file.
instance abbrev formats : Formats
formats = record { hex_decode = λ s. some s; config_from_toml = λ s. some raw }

abbrev config : Config
config = record {
  interface_name = raw.interface_name;
  knock_port = 62201;
  suite = fips;
  gate_private = replicate 32 3;
  gate_id = some (replicate 16 1);
  bpf_object = [];
  skew_seconds = 2;
  nftables_floor = true;
  config_anchor = none;
  bundle_path = none;
  protected_ports = 22 ∷ [];
  clients =
      record { thumbprint = replicate 32 4; public_key = replicate 65 5; ports = 22 ∷ [] } ∷ [];
  tokens = [];
  control_plane = none;
}

config_loads : load_config (some []) ≡ ok config
unfolding load_config parse_tokens
config_loads = refl

load_config-IsLoaded_example : IsLoaded config
load_config-IsLoaded_example = load_config-IsLoaded (some []) config config_loads

abbrev built : Daemon AgreementAlg Allow
built = record {
  config = record {
    gate_id = replicate 16 1;
    skew_nanos = 2000000000;
    pinhole_nanos = 30000000000;
  };
  clock = since_epoch none;
  crypto = record { suite = fips; private = ecdh_p256; public = replicate 65 0 };
  trust = record {
    clients = (replicate 32 4, (replicate 65 5, 22 ∷ [])) ∷ [];
    tokens = [];
    suite = fips;
  };
  replay = (record { seen = []; window = 5000000000 }, 0);
  gate = record { writer = record { allow = []; nft_floor = true }; now_ns = 0; nft = [] };
}

config_builds : build_gatekeeper config (replicate 16 1) config.clients [] [] ≡ ok built
unfolding build_gatekeeper from_raw_private saturating_mul set_tokens replay_window set_clients
    insert
config_builds = refl

build_gatekeeper-window_example : 2000000000 * 2 < 5000000000
build_gatekeeper-window_example =
    build_gatekeeper-window config (replicate 16 1) config.clients [] [] built config_builds
      (omega arith)

instance abbrev bundle_format : BundleFormat
bundle_format = record {
  bundle_from_toml = λ s.
      some (record {
        generation = 7;
        protected_ports = 22 ∷ 443 ∷ [];
        client = raw.client;
        token = [];
      });
}

abbrev watcher : Watcher (HashMap ℕ ℕ)
watcher = record {
  anchor = [];
  trust = record { clients = []; tokens = []; suite = modern };
  protected = (22, 1) ∷ (80, 1) ∷ [];
  nft_floor = false;
  nft = [];
  known_ports = 22 ∷ 80 ∷ [];
  applied_gen = 3;
  last_mtime = none;
}

abbrev rounds : List Round
rounds = record { mtime = some 1; file = some (replicate 70 0) } ∷ []

watch-policy_example :
    SamePolicy watcher (watch watcher rounds) ⊎ NewPolicy watcher (watch watcher rounds)
watch-policy_example = watch-policy watcher rounds

abbrev bundle : Bundle
bundle = record { generation = 7; protected_ports = 22 ∷ 443 ∷ []; clients = []; tokens = [] }

watcher_synced : (q : ℕ) → is_some (lookup watcher.protected q) ≡ contains watcher.known_ports q
unfolding lookup
watcher_synced q = ground arith

-- The association list has room for any ports.
assoc-HasRoom : (m : HashMap ℕ ℕ) (ps : List ℕ) → HasRoom m ps
assoc-HasRoom m [] = tt
assoc-HasRoom m (p ∷ ps) = (insert m p 1, refl, assoc-HasRoom (insert m p 1) ps)

apply_bundle-protected_example :
    is_some (lookup (apply_bundle watcher bundle).protected 443)
    ≡ contains {A = ℕ} (22 ∷ 443 ∷ []) 443
apply_bundle-protected_example =
    apply_bundle-protected assoc_hash watcher bundle watcher_synced
      (assoc-HasRoom watcher.protected
        (difference (to_set bundle.protected_ports) watcher.known_ports))
      443
