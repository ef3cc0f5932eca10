-- ===== src/Gated/Ready.antt =====
-- `main` of spa-gated/src/main.rs from the loading of the program on: with which id, trust store and
-- cloaked ports the gatekeeper is built.
use spa_device.Prelude.{
  ℕ, ◌≡◌, ◌∙◌, inl, inr, refl, ap, sym, subst, ◌||◌, Bool, List, [], ◌∷◌, contains, ℕ_eq, Option,
  none, some, Result, ok, ok_or, map_err, bind_step, Option-cases, arith,
}
use spa_device.Files.{FileSystem, lift, io_step}
use spa_device.Bpf.{BpfMap, LawfulHash}
use spa_device.Crypto.{Primitives, Agreement}
use spa_device.Crypto.Gate.{from_raw_private}
use spa_device.Crypto.Envelope.{ok_or-eq-ok, map_err-eq-ok}
use spa_device.Gated.Config.{Formats, Config}
use spa_device.Gated.Bundle.{Bundle, BundleFormat}
use spa_device.Gated.Replay.{is_some}
use spa_device.Gated.Trust.{SharedTrust, new_trust, set_clients, set_tokens}
use spa_device.Gated.Daemon.{Daemon, build_gatekeeper}
use spa_device.Gated.Nft.{NftCommand}
use spa_device.Gated.Provision.{StartError, no_key, no_program, Host}
use spa_device.Gated.Start.{
  Outside, Started, both, protect_all, watcher_of, start_floor, start_with,
}

abbrev pub trust_of : Config → Bundle → SharedTrust
trust_of cfg b = set_tokens (set_clients (new_trust cfg.suite) b.clients) b.tokens

build_gatekeeper-ok :
    {P A : Type 0} ⦃dh : Agreement P⦄ (cfg : Config) (gate_id : List ℕ) (b : Bundle) (allow : A)
    (gk : Daemon P A)
    → build_gatekeeper cfg gate_id b.clients b.tokens allow ≡ ok gk
    → (gk.config.gate_id ≡ gate_id) × (gk.trust ≡ trust_of cfg b)
unfolding build_gatekeeper
build_gatekeeper-ok {P = P} cfg gate_id b allow gk h =
    bind_step (from_raw_private {P = P} cfg.suite cfg.gate_private) _ h λ gate_key e h. (cc h, cc h)

module _ {F : Type 0} where
  start_floor-files :
      (works floor : Bool) (ports : List ℕ) (host : Host F)
      → (start_floor works floor ports host).1.files ≡ host.files
  unfolding start_floor
  start_floor-files works Bool.false ports host = refl
  start_floor-files Bool.false Bool.true ports host = refl
  start_floor-files Bool.true Bool.true ports host = refl

module _ {A Q : Type 0} ⦃map : BpfMap Q ℕ ℕ⦄ where
  -- The maps of a program that was just loaded are empty.
  abbrev pub IsFresh : Outside A Q → Type 0
  IsFresh outside =
      (object interface_name : List ℕ) (port : ℕ) (a : A) (m : Q)
      → outside.attach object interface_name port ≡ some (a, m)
      → (p : ℕ) → map.get m p ≡ none

  module _ {P : Type 0} where
    pub record InForce (cfg : Config) (gate_id : List ℕ) (b : Bundle) (s : Started P A Q)
        : Type 0 where
      pub id_is : s.gatekeeper.config.gate_id ≡ gate_id
      pub trust_is : s.gatekeeper.trust ≡ trust_of cfg b
      pub cloaked : (p : ℕ) → is_some (map.get s.protected p) ≡ contains b.protected_ports p

module _ {Q : Type 0} ⦃map : BpfMap Q ℕ ℕ⦄ (lawful : LawfulHash map) where
  get-protect_all :
      (ps : List ℕ) (m m' : Q) (p : ℕ)
      → protect_all m ps ≡ ok m'
      → is_some (map.get m' p) ≡ (contains ps p || is_some (map.get m p))
  unfolding protect_all
  get-protect_all [] m m' p h =
      let same : m ≡ m' = cc h in ap (λ (n : Q). is_some (map.get n p)) (sym same)
  get-protect_all (q ∷ ps) m m' p h = elim (Option-cases (map.insert m q 1)) [
    | inl full ↦ cc (rw (protect_all, full) at h)
    | inr (n, stored) ↦ ground (
      arith,
      get-protect_all ps n m' p (rw (protect_all, stored) at h),
      lawful.get-insert m n q 1 p stored,
    )
  ]

  module _ {A : Type 0} (outside : Outside A Q) (fresh : IsFresh outside) where
    cloaks :
        (maps : A × Q) (m : Q) (ports object interface_name : List ℕ) (port : ℕ)
        → outside.attach object interface_name port ≡ some maps
        → protect_all maps.1 ports ≡ ok m
        → (p : ℕ) → is_some (map.get m p) ≡ contains ports p
    cloaks maps m ports object interface_name port attached stored p = ground (
      arith,
      get-protect_all ports maps.1 m p stored,
      fresh object interface_name port maps.0 maps.1 attached p,
    )

  module _ {F : Type 0} ⦃fs : FileSystem F⦄ ⦃aws : Primitives⦄ ⦃formats : Formats⦄
      ⦃toml : BundleFormat⦄ {P A : Type 0} ⦃dh : Agreement P⦄ where
    module _ (outside : Outside A Q) (fresh : IsFresh outside) where
      pub start_with-InForce :
          (cfg : Config) (src : Option (List ℕ × List ℕ)) (gate_id : List ℕ) (b : Bundle)
          (host host' : Host F) (s : Started P A Q)
          → start_with outside cfg src gate_id b host ≡ (ok s, host')
          → InForce cfg gate_id b s
            × (host'.files ≡ host.files)
            × ((nft : List NftCommand) × (s.watcher
                  ≡ watcher_of outside cfg src s.gatekeeper s.protected nft b))
      unfolding start_with
      start_with-InForce cfg src gate_id b host host' s h =
          io_step (λ (host : Host F). (ok_or no_program (fs.read host.files cfg.bpf_object), host))
            _ host h
            λ object e1 h.
              io_step
                (lift (ok_or no_program (outside.attach object cfg.interface_name cfg.knock_port)))
                _ host h
                λ maps e2 h.
                  io_step (lift (protect_all maps.1 b.protected_ports)) _ host h λ protected e3 h.
                    io_step (start_floor outside.nft_works cfg.nftables_floor b.protected_ports) _
                      host h
                      λ nft e4 h.
                        io_step
                          (lift (
                            map_err no_key
                              (build_gatekeeper cfg gate_id b.clients b.tokens maps.0)))
                          _ _ h
                          λ gk e5 h.
                            let started : record {
                              gatekeeper = gk;
                              protected = protected;
                              watcher = watcher_of outside cfg src gk protected nft b;
                              fetcher = both cfg.control_plane cfg.bundle_path;
                            }
                                ≡ s =
                              cc h in
                            let built =
                              build_gatekeeper-ok cfg gate_id b maps.0 gk (map_err-eq-ok _ _ e5) in
                            let files : host'.files ≡ host.files =
                              ap (λ (r : Result (Started P A Q) StartError × Host F). r.1.files)
                                (sym h)
                              ∙ start_floor-files outside.nft_works cfg.nftables_floor
                                  b.protected_ports host in
                            subst
                              (λ (x : Started P A Q).
                                InForce cfg gate_id b x
                                × (host'.files ≡ host.files)
                                × ((nft : List NftCommand) × (x.watcher
                                      ≡ watcher_of outside cfg src x.gatekeeper x.protected nft b)))
                              started
                              (
                                record {
                                  id_is = built.0;
                                  trust_is = built.1;
                                  cloaked =
                                      cloaks outside fresh maps protected b.protected_ports object _
                                        _ (ok_or-eq-ok _ _ e2) e3;
                                },
                                files,
                                (nft, refl),
                              )
