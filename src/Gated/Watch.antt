-- ===== src/Gated/Watch.antt =====
-- `watch_bundle` of spa-gated/src/main.rs: one round of the loop, and its runs. Modification times
-- are numbers, and sets of ports are lists.
use spa_device.Prelude.{
  ℕ, Bool, false, List, [], ◌∷◌, Option, none, some, ok, err, leb, ◌==◌, if◌then◌else◌, contains,
  ℕ_eq,
}
use spa_device.Bpf.{BpfMap, unless_full}
use spa_device.Crypto.{Primitives}
use spa_device.Gated.Config.{Formats}
use spa_device.Gated.Bundle.{Bundle, BundleFormat, load_verify}
use spa_device.Gated.Trust.{SharedTrust, set_clients, set_tokens}
use spa_device.Gated.Nft.{NftCommand, set_ports}

-- `collect::<HashSet<u16>>()` and `HashSet::difference`.
abbrev pub to_set : List ℕ → List ℕ
to_set [] = []
to_set (p ∷ ps) = let rest = to_set ps in if contains rest p then rest else p ∷ rest

abbrev pub difference : List ℕ → List ℕ → List ℕ
difference [] ys = []
difference (x ∷ xs) ys = let rest = difference xs ys in if contains ys x then rest else x ∷ rest

pub record Watcher (P : Type 0) : Type 0 where
  pub anchor : List ℕ
  pub trust : SharedTrust
  pub protected : P
  pub nft_floor : Bool
  pub nft : List NftCommand
  pub known_ports : List ℕ
  pub applied_gen : ℕ
  pub last_mtime : Option ℕ

-- What the file system answers in a round: the modification time, and the content.
pub record Round : Type 0 where
  pub mtime : Option ℕ
  pub file : Option (List ℕ)

abbrev pub same_mtime : ℕ → Option ℕ → Bool
same_mtime t none = false
same_mtime t (some u) = t == u

module _ {P : Type 0} ⦃map : BpfMap P ℕ ℕ⦄ where
  -- `let _ = protected.insert(*p, 1u8, 0)` for each port.
  unfoldable pub insert_ports : P → List ℕ → P
  insert_ports m [] = m
  insert_ports m (p ∷ ps) = insert_ports (unless_full m (map.insert m p 1)) ps

  unfoldable pub remove_ports : P → List ℕ → P
  remove_ports m [] = m
  remove_ports m (p ∷ ps) = remove_ports (map.remove m p) ps

  -- The round from `trust.set` on.
  unfoldable pub apply_bundle : Watcher P → Bundle → Watcher P
  unfolding insert_ports remove_ports
  apply_bundle w b =
      let new_ports = to_set b.protected_ports in
      record w {
        trust = set_tokens (set_clients w.trust b.clients) b.tokens;
        protected =
            remove_ports (insert_ports w.protected (difference new_ports w.known_ports))
              (difference w.known_ports new_ports);
        nft = if w.nft_floor then set_ports w.nft b.protected_ports else w.nft;
        known_ports = new_ports;
        applied_gen = b.generation;
      }

  module _ ⦃aws : Primitives⦄ ⦃formats : Formats⦄ ⦃toml : BundleFormat⦄ where
    -- The round below the test of the modification time.
    unfoldable pub reload : Watcher P → Option (List ℕ) → Watcher P
    unfolding apply_bundle
    reload w file = elim (load_verify file w.anchor) [
      | err e ↦ w
      | ok b ↦ if leb b.generation w.applied_gen then w else apply_bundle w b
    ]

    unfoldable pub watch_round : Watcher P → Round → Watcher P
    unfolding reload
    watch_round w r = elim r.mtime [
      | none ↦ w
      | some t ↦
          if same_mtime t w.last_mtime then w else reload (record w { last_mtime = some t }) r.file
    ]

    unfoldable pub watch : Watcher P → List Round → Watcher P
    unfolding watch_round
    watch w [] = w
    watch w (r ∷ rounds) = watch (watch_round w r) rounds
