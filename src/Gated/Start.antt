-- ===== src/Gated/Start.antt =====
-- `main` of spa-gated/src/main.rs up to the knock loop. What the kernel, the nft program and the
-- sockets answer is an argument.
use spa_device.Prelude.{
  ℕ, not, ◌||◌, if◌then◌else◌, Bool, List, [], ◌∷◌, length, Option, none, some, Result, ok, err,
  ok_or, map_err,
}
use spa_device.Prelude.Text.{codes, HexEncode}
use spa_device.Files.{FileSystem, Io, pure, lift, ◌>>=◌, ◌>>◌}
use spa_device.Wire.{Suite, fips, modern}
use spa_device.Bpf.{BpfMap}
use spa_device.Crypto.{Primitives, Agreement}
use spa_device.Gated.Config.{Formats, ControlPlane, Config, load_config}
use spa_device.Gated.Nft.{NftCommand, install_floor}
use spa_device.Gated.Bundle.{Bundle, BundleFormat, load_verify}
use spa_device.Gated.Fetch.{Http}
use spa_device.Gated.Audit.{audit_bundle, audit_floor, audit_startup}
use spa_device.Gated.Daemon.{Daemon, build_gatekeeper}
use spa_device.Gated.Watch.{Watcher, to_set}
use spa_device.Gated.Provision.{
  StartError, bad_config, no_socket, no_key, no_gate_id, bad_bundle, no_program, map_full, no_floor,
  Host, note, on_files, self_provision,
}

-- `bind`: whether a socket can be bound to an address and a port. `attach`: the maps ALLOW and
-- PROTECTED of the program in the object file, once it is loaded, attached to the interface, and its
-- map CONFIG holds the knock port. `nft_works`: whether the floor can be installed. `mtime`: the
-- modification time of the bundle when the watcher's thread begins.
pub record Outside (A Q : Type 0) : Type 0 where
  pub bind : List ℕ → ℕ → Bool
  pub attach : List ℕ → List ℕ → ℕ → Option (A × Q)
  pub nft_works : Bool
  pub mtime : Option ℕ

-- The gatekeeper of the knock loop, the map PROTECTED, and what the two threads begin with, if they are started.
pub record Started (P A Q : Type 0) : Type 0 where
  pub gatekeeper : Daemon P A
  pub protected : Q
  pub watcher : Option (List ℕ × Watcher Q)
  pub fetcher : Option (ControlPlane × List ℕ)

abbrev pub both {ℓ} : {A B : Type ℓ} → Option A → Option B → Option (A × B)
both none b = none
both (some a) none = none
both (some a) (some b) = some (a, b)

abbrev pub suite_text : Suite → List ℕ
suite_text fips = codes "fips"
suite_text modern = codes "modern"

-- `for p in &ports { protected.insert(*p, 1u8, 0)?; }`
unfoldable pub protect_all : {Q : Type 0} ⦃map : BpfMap Q ℕ ℕ⦄ → Q → List ℕ → Result Q StartError
protect_all m [] = ok m
protect_all ⦃map⦄ m (p ∷ ps) = elim (map.insert m p 1) [
  | none ↦ err map_full
  | some m' ↦ protect_all m' ps
]

abbrev pub inline_policy : Config → Bundle
inline_policy cfg = record {
  generation = 0;
  protected_ports = cfg.protected_ports;
  clients = cfg.clients;
  tokens = cfg.tokens;
}

module _ {P A Q : Type 0} where
  abbrev pub watcher_of :
      Outside A Q
      → Config
      → Option (List ℕ × List ℕ)
      → Daemon P A
      → Q
      → List NftCommand
      → Bundle
      → Option (List ℕ × Watcher Q)
  watcher_of outside cfg none gk protected nft b = none
  watcher_of outside cfg (some (anchor, bpath)) gk protected nft b = some (
    bpath,
    record {
      anchor = anchor;
      trust = gk.trust;
      protected = protected;
      nft_floor = cfg.nftables_floor;
      nft = nft;
      known_ports = to_set b.protected_ports;
      applied_gen = b.generation;
      last_mtime = outside.mtime;
    },
  )

module _ {F : Type 0} where
  -- The floor, if it is configured.
  unfoldable pub start_floor : Bool → Bool → List ℕ → Io (Host F) StartError (List NftCommand)
  start_floor nft_works nftables_floor ports =
      if not nftables_floor
      then pure []
      else if not nft_works
      then lift (err no_floor)
      else do note (λ unix. audit_floor unix ports); pure (install_floor [] ports)

  module _ ⦃fs : FileSystem F⦄ ⦃aws : Primitives⦄ ⦃formats : Formats⦄ ⦃toml : BundleFormat⦄ where
    -- The policy of the signed bundle, or else that of the configuration.
    unfoldable pub first_policy : Config → Option (List ℕ × List ℕ) → Io (Host F) StartError Bundle
    first_policy cfg none = pure (inline_policy cfg)
    first_policy cfg (some (anchor, bpath)) = do
      b ← on_files bad_bundle (λ f. (load_verify (fs.read f bpath) anchor, f))
      note (λ unix. audit_bundle unix (codes "loaded") (some b.generation) none)
      pure b

    module _ {P A Q : Type 0} ⦃dh : Agreement P⦄ ⦃map : BpfMap Q ℕ ℕ⦄ where
      -- The program, the cloaked ports and the gatekeeper.
      unfoldable pub start_with :
          Outside A Q
          → Config
          → Option (List ℕ × List ℕ)
          → List ℕ
          → Bundle
          → Io (Host F) StartError (Started P A Q)
      unfolding protect_all start_floor
      start_with outside cfg bundle_src gate_id b = do
        object ← λ host. (ok_or no_program (fs.read host.files cfg.bpf_object), host)
        maps ← lift (ok_or no_program (outside.attach object cfg.interface_name cfg.knock_port))
        protected ← lift (protect_all maps.1 b.protected_ports)
        nft ← start_floor outside.nft_works cfg.nftables_floor b.protected_ports
        gk ← lift (map_err no_key (build_gatekeeper cfg gate_id b.clients b.tokens maps.0))
        note (λ unix.
            audit_startup unix cfg.interface_name cfg.knock_port (suite_text cfg.suite)
              b.protected_ports (length b.clients) (length b.tokens) cfg.nftables_floor)
        pure (record {
          gatekeeper = gk;
          protected = protected;
          watcher = watcher_of outside cfg bundle_src gk protected nft b;
          fetcher = both cfg.control_plane cfg.bundle_path;
        })

      unfoldable pub start_gate :
          Outside A Q
          → Config
          → Option (List ℕ × List ℕ)
          → List ℕ
          → Io (Host F) StartError (Started P A Q)
      unfolding first_policy start_with
      start_gate outside cfg bundle_src gate_id = do
        b ← first_policy cfg bundle_src
        start_with outside cfg bundle_src gate_id b

      -- `path` is the path of the configuration.
      unfoldable pub start :
          ⦃http : Http⦄ ⦃hex : HexEncode⦄
          → Outside A Q
          → List ℕ
          → Io (Host F) StartError (Started P A Q)
      unfolding self_provision start_gate
      start outside path = do
        cfg ← on_files bad_config (λ f. (load_config (fs.read f path), f))
        if not (
              outside.bind (codes "::") cfg.knock_port
              || outside.bind (codes "0.0.0.0") cfg.knock_port)
            then lift (err no_socket)
            else do
              provided ← self_provision P cfg
              gate_id ← lift (ok_or no_gate_id provided.1)
              start_gate outside cfg (both provided.0 cfg.bundle_path) gate_id
