-- ===== src/Gated/Cloaked.antt =====
-- The map of the cloaked ports under `watch_bundle` of spa-gated/src/main.rs.
use spa_device.Prelude.{
  ℕ, ◌≡◌, refl, not, ◌&&◌, ◌||◌, List, [], ◌∷◌, some, contains, ℕ_eq, ==_iff, arith,
}
use spa_device.Bpf.{BpfMap, LawfulHash}
use spa_device.Gated.Bundle.{Bundle}
use spa_device.Gated.Replay.{is_some}
use spa_device.Gated.Watch.{to_set, difference, Watcher, insert_ports, remove_ports, apply_bundle}

contains-difference :
    (xs ys : List ℕ) (p : ℕ)
    → contains (difference xs ys) p ≡ (contains xs p && not (contains ys p))
contains-difference [] ys p = refl
contains-difference (x ∷ xs) ys p = ground (arith, contains-difference xs ys p, ==_iff x p)

pub contains-to_set : (ps : List ℕ) (p : ℕ) → contains (to_set ps) p ≡ contains ps p
contains-to_set [] p = refl
contains-to_set (q ∷ ps) p = ground (arith, contains-to_set ps p, contains-to_set ps q, ==_iff q p)

-- The map has room for each port in turn.
abbrev pub HasRoom : {P : Type 0} → ⦃map : BpfMap P ℕ ℕ⦄ → P → List ℕ → Type 0
HasRoom m [] = Unit
HasRoom {P} ⦃map⦄ m (p ∷ ps) = (m' : P) × (map.insert m p 1 ≡ some m') × HasRoom m' ps

module _ {P : Type 0} ⦃map : BpfMap P ℕ ℕ⦄ (lawful : LawfulHash map) where
  get-insert_ports :
      (m : P) (ps : List ℕ) (p : ℕ)
      → HasRoom m ps
      → is_some (map.get (insert_ports m ps) p) ≡ (contains ps p || is_some (map.get m p))
  unfolding insert_ports
  get-insert_ports m [] p room = refl
  get-insert_ports m (q ∷ ps) p (m', stored, room) =
      ground (arith, stored, get-insert_ports m' ps p room, lawful.get-insert m m' q 1 p stored)

  get-remove_ports :
      (m : P) (ps : List ℕ) (p : ℕ)
      → is_some (map.get (remove_ports m ps) p) ≡ (not (contains ps p) && is_some (map.get m p))
  unfolding remove_ports
  get-remove_ports m [] p = refl
  get-remove_ports m (q ∷ ps) p =
      ground (arith, get-remove_ports (map.remove m q) ps p, lawful.get-remove m q p)

  -- If the map held the ports that the watcher knows, and has room for the ports that a bundle adds
  -- to them, then after the bundle was applied it holds the bundle's protected ports and no others.
  pub apply_bundle-protected :
      (w : Watcher P) (b : Bundle)
      → ((q : ℕ) → is_some (map.get w.protected q) ≡ contains w.known_ports q)
      → HasRoom w.protected (difference (to_set b.protected_ports) w.known_ports)
      → (p : ℕ) → is_some (map.get (apply_bundle w b).protected p) ≡ contains b.protected_ports p
  unfolding apply_bundle
  apply_bundle-protected w b synced room p =
      let new_ports = to_set b.protected_ports in
      let added = difference new_ports w.known_ports in
      ground (
        arith,
        get-remove_ports (insert_ports w.protected added) (difference w.known_ports new_ports) p,
        get-insert_ports w.protected added p room,
        contains-difference w.known_ports new_ports p,
        contains-difference new_ports w.known_ports p,
        contains-to_set b.protected_ports p,
        synced p,
      )
