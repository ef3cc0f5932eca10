-- ===== src/Bpf/Tables.antt =====
-- A concrete map with the laws of the BPF maps: an association list.
use spa_device.Prelude.{◌≡◌, ap, ◌∙◌, sym, false, some, if◌then◌else◌, PartialEq, eq_refl, arith}
use spa_device.Prelude.Assoc.{HashMap, lookup, insert, remove, lookup-insert, lookup-remove}
use spa_device.Bpf.{BpfMap, LawfulHash, LawfulLru}

module _ {K V : Type 0} ⦃e : PartialEq K⦄ where
  instance abbrev pub assoc_map : BpfMap (HashMap K V) K V
  assoc_map = record { get = lookup; insert = λ m k v. some (insert m k v); remove = remove }

  get-insert_some :
      (m m' : HashMap K V) (k : K) (v : V) (j : K)
      → some (insert m k v) ≡ some m'
      → lookup m' j ≡ (if e.eq k j then some v else lookup m j)
  get-insert_some m m' k v j h =
      ap (λ (t : HashMap K V). lookup t j) {x = m'} {y = insert m k v} (cc h)
      ∙ lookup-insert m k v j

  get-remove_some :
      (m : HashMap K V) (k j : K) (w : V) → lookup (remove m k) j ≡ some w → lookup m j ≡ some w
  get-remove_some m k j w h = ground (arith, sym (lookup-remove m k j) ∙ h)

  pub assoc_hash : LawfulHash {M = HashMap K V} assoc_map
  assoc_hash = record { get-insert = get-insert_some; get-remove = lookup-remove }

  pub assoc_lru : LawfulLru {M = HashMap K V} assoc_map
  assoc_lru = record {
    get-insert_self = λ m m' k v h.
        get-insert_some m m' k v k h ∙ ap (λ b. if b then some v else lookup m k) (eq_refl k);
    get-insert_ne = λ m m' k v j w h found ne.
        ap (λ b. if b then some v else lookup m j) {x = false} {y = e.eq k j} (sym ne)
        ∙ sym (get-insert_some m m' k v j h)
        ∙ found;
    get-remove = get-remove_some;
  }
