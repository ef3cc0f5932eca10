-- ===== src/Gated/Started.antt =====
-- The daemon of spa-gated/src/main.rs when its knock loop begins: the id it answers to, the policy that
-- is in force, the cloaked ports, and the watcher.
use spa_device.Prelude.{
  ℕ, ◌≡◌, ◌∙◌, inl, inr, refl, ap, sym, subst, ◌||◌, Bool, List, length, contains, ℕ_eq, Option,
  none, some, Result, ok, ok_or, Bool-cases, Result-cases,
}
use spa_device.Prelude.Text.{codes, HexEncode}
use spa_device.Files.{FileSystem, lift, ◌>>=◌, io_step}
use spa_device.Wire.{gate_id_len}
use spa_device.Bpf.{BpfMap, LawfulHash}
use spa_device.Crypto.{Primitives, Agreement}
use spa_device.Crypto.Envelope.{ok_or-eq-ok, map_err-eq-ok}
use spa_device.Gated.Config.{Formats, Config, load_config}
use spa_device.Gated.Bundle.{Bundle, BundleFormat, load_verify}
use spa_device.Gated.Replay.{is_some}
use spa_device.Gated.Fetch.{Http}
use spa_device.Gated.Nft.{NftCommand}
use spa_device.Gated.Watch.{Watcher}
use spa_device.Gated.Provision.{StartError, bad_config, no_gate_id, Host, on_files, self_provision}
use spa_device.Gated.Provided.{IsGateId, Origin, self_provision-Origin}
use spa_device.Gated.Start.{
  Outside, Started, both, inline_policy, watcher_of, first_policy, start_gate, start,
}
use spa_device.Gated.Loaded.{load_config-IsLoaded}
use spa_device.Gated.Ready.{IsFresh, InForce, start_with-InForce}
use spa_device.Gated.Cloaked.{contains-to_set}

module _ {F : Type 0} ⦃fs : FileSystem F⦄ ⦃aws : Primitives⦄ ⦃formats : Formats⦄
    ⦃toml : BundleFormat⦄ where
  -- What the policy is, by the anchor and the path of the bundle, if there are both.
  abbrev Chosen : Config → Option (List ℕ × List ℕ) → F → Bundle → Type 0
  Chosen cfg none f b = b ≡ inline_policy cfg
  Chosen cfg (some (anchor, bpath)) f b = load_verify (fs.read f bpath) anchor ≡ ok b

  first_policy-Chosen :
      (cfg : Config) (src : Option (List ℕ × List ℕ)) (host : Host F) (b : Bundle)
      → (first_policy cfg src host).0 ≡ ok b
      → Chosen cfg src host.files b × ((first_policy cfg src host).1.files ≡ host.files)
  unfolding first_policy
  first_policy-Chosen cfg none host b h =
      let given : inline_policy cfg ≡ b = cc h in (sym given, refl)
  first_policy-Chosen cfg (some (anchor, bpath)) host b h =
      elim (Result-cases (load_verify (fs.read host.files bpath) anchor)) [
        | inr (e, bad) ↦ cc (rw bad at h)
        | inl (b', good) ↦
            let given : b' ≡ b = cc (rw good at h) in (good ∙ ap ok given, rw good refl)
      ]

module _ {A Q : Type 0} ⦃map : BpfMap Q ℕ ℕ⦄ {P : Type 0} where
  -- The watcher begins where the daemon is: with its trust store, its map and its generation, and
  -- with the ports that the map holds.
  pub record Begins (b : Bundle) (s : Started P A Q) (w : Watcher Q) : Type 0 where
    pub same_trust : w.trust ≡ s.gatekeeper.trust
    pub same_map : w.protected ≡ s.protected
    pub generation : w.applied_gen ≡ b.generation
    pub synced : (q : ℕ) → is_some (map.get w.protected q) ≡ contains w.known_ports q

  -- The watcher runs exactly if there is a bundle to watch.
  abbrev pub Watches : Option (List ℕ × List ℕ) → Bundle → Started P A Q → Type 0
  Watches none b s = s.watcher ≡ none
  Watches (some (anchor, bpath)) b s =
      (w : Watcher Q) × (s.watcher ≡ some (bpath, w)) × (w.anchor ≡ anchor) × Begins b s w

  watcher_of-Watches :
      (outside : Outside A Q) (cfg : Config) (src : Option (List ℕ × List ℕ)) (gate_id : List ℕ)
      (b : Bundle) (s : Started P A Q) (nft : List NftCommand)
      → InForce cfg gate_id b s
      → s.watcher ≡ watcher_of outside cfg src s.gatekeeper s.protected nft b
      → Watches src b s
  watcher_of-Watches outside cfg none gate_id b s nft f h = h
  watcher_of-Watches outside cfg (some (anchor, bpath)) gate_id b s nft f h = (
    _,
    h,
    refl,
    record {
      same_trust = refl;
      same_map = refl;
      generation = refl;
      synced = λ q. f.cloaked q ∙ sym (contains-to_set b.protected_ports q);
    },
  )

  module _ {F : Type 0} ⦃fs : FileSystem F⦄ ⦃aws : Primitives⦄ ⦃formats : Formats⦄
      ⦃toml : BundleFormat⦄ ⦃dh : Agreement P⦄ ⦃http : Http⦄ ⦃hex : HexEncode⦄ where
    pub record IsStarted (path : List ℕ) (host host' : Host F) (s : Started P A Q) : Type 0 where
      pub cfg : Config
      pub loaded : load_config (fs.read host.files path) ≡ ok cfg
      pub anchor : Option (List ℕ)
      pub gate_id : List ℕ
      pub origin : Origin P cfg host.files cfg.control_plane (anchor, some gate_id)
      pub id_size : length gate_id ≡ gate_id_len
      pub policy : Bundle
      pub chosen : Chosen cfg (both anchor cfg.bundle_path) host'.files policy
      pub in_force : InForce cfg gate_id policy s
      pub watches : Watches (both anchor cfg.bundle_path) policy s

    module _ (lawful : LawfulHash map) where
      -- From the socket on.
      bound_start :
          (outside : Outside A Q) (path : List ℕ) (host host' : Host F) (s : Started P A Q)
          → IsFresh outside
          → (cfg : Config) → load_config (fs.read host.files path) ≡ ok cfg
          → ◌≡◌ {A = Result (Started P A Q) StartError × Host F}
              ((do
                provided ← self_provision P cfg
                gate_id ← lift (ok_or no_gate_id provided.1)
                start_gate outside cfg (both provided.0 cfg.bundle_path) gate_id)
                host)
              (ok s, host')
          → IsStarted path host host' s
      unfolding start_gate
      bound_start outside path host host' s fresh cfg loaded h =
          io_step (self_provision P cfg) _ host h λ r e2 h.
            let (origin, sized) =
              self_provision-Origin P cfg r host (self_provision P cfg host).1
                (load_config-IsLoaded (fs.read host.files path) cfg loaded).gate_id
                (ap
                  (λ (x : Result (Option (List ℕ) × Option (List ℕ)) StartError).
                    (x, (self_provision P cfg host).1))
                  e2) in
            io_step (lift (ok_or no_gate_id r.1)) _ _ h λ gate_id e3 h.
              let id_is = ok_or-eq-ok _ _ e3 in
              let src = both r.0 cfg.bundle_path in
              let host1 = (self_provision P cfg host).1 in
              io_step (first_policy cfg src) _ host1 h λ b e4 h.
                let (chosen, same) = first_policy-Chosen cfg src host1 b e4 in
                let (f, files, (nft, w)) =
                  start_with-InForce lawful outside fresh cfg src gate_id b _ host' s h in
                record {
                  cfg = cfg;
                  loaded = loaded;
                  anchor = r.0;
                  gate_id = gate_id;
                  origin =
                      subst
                        (λ (o : Option (List ℕ)).
                          Origin P cfg host.files cfg.control_plane (r.0, o))
                        id_is origin;
                  id_size = subst IsGateId id_is sized;
                  policy = b;
                  chosen = subst (λ (g : F). Chosen cfg src g b) (sym (files ∙ same)) chosen;
                  in_force = f;
                  watches = watcher_of-Watches outside cfg src gate_id b s nft f w;
                }

      -- If the daemon starts, then with the id and the anchor of the configuration, and without a control
      -- plane with no others; with one, what the configuration leaves out is decoded from its answer to
      -- the registration of the gate's public key and knock port. The id has 16 bytes; the policy is
      -- that of a bundle that verifies under the anchor, if there are an anchor and a path, or else
      -- that of the configuration; the map of the cloaked ports, which was empty, holds exactly those of the policy; and the watcher
      -- runs if there is a bundle to watch, from the state of the daemon on.
      pub start-IsStarted :
          (outside : Outside A Q) (path : List ℕ) (host host' : Host F) (s : Started P A Q)
          → IsFresh outside
          → start outside path host ≡ (ok s, host')
          → IsStarted path host host' s
      unfolding start start_gate
      start-IsStarted outside path host host' s fresh h =
          io_step (on_files bad_config (λ f. (load_config (fs.read f path), f))) _ host h
            λ cfg e1 h.
              let loaded = map_err-eq-ok _ _ e1 in
              let bound : Bool =
                outside.bind (codes "::") cfg.knock_port
                || outside.bind (codes "0.0.0.0") cfg.knock_port in
              elim (Bool-cases bound) [
                | inr unbound ↦ cc (rw unbound at h)
                | inl open_socket ↦
                    bound_start outside path host host' s fresh cfg loaded (rw open_socket at h)
              ]
