-- ===== src/Bpf.antt =====
-- The BPF maps that spa-ebpf/src/main.rs and spa-gated/src/adapters.rs reach through aya. The maps
-- are not part of the repository: an interface, with what the kernel documents of each kind.
pub mod Tables
use spa_device.Prelude.{◌≡◌, Bool, Option, none, some, if◌then◌else◌, PartialEq}

-- `none` is an error of `insert`: the map is full.
pub record BpfMap (M K V : Type 0) : Type 0 where
  pub get : M → K → Option V
  pub insert : M → K → V → Option M
  pub remove : M → K → M

-- `let _ = map.insert(…)`: on an error the map stays as it was.
abbrev pub unless_full : {M : Type 0} → M → Option M → M
unless_full m none = m
unless_full m (some m') = m'

module _ {M K V : Type 0} ⦃eq : PartialEq K⦄ (map : BpfMap M K V) where
  -- A hash map (`HashMap` of aya): an insertion that succeeds changes one key.
  pub record LawfulHash : Type 0 where
    pub get-insert :
        (m m' : M) (k : K) (v : V) (j : K)
        → map.insert m k v ≡ some m'
        → map.get m' j ≡ (if eq.eq k j then some v else map.get m j)
    pub get-remove :
        (m : M) (k j : K) → map.get (map.remove m k) j ≡ (if eq.eq k j then none else map.get m j)

  -- An LRU map (`LruHashMap`): an insertion may also evict other keys, and adds none of them.
  pub record LawfulLru : Type 0 where
    pub get-insert_self :
        (m m' : M) (k : K) (v : V) → map.insert m k v ≡ some m' → map.get m' k ≡ some v
    pub get-insert_ne :
        (m m' : M) (k : K) (v : V) (j : K) (w : V)
        → map.insert m k v ≡ some m'
        → map.get m' j ≡ some w
        → eq.eq k j ≡ Bool.false
        → map.get m j ≡ some w
    pub get-remove :
        (m : M) (k j : K) (w : V) → map.get (map.remove m k) j ≡ some w → map.get m j ≡ some w
