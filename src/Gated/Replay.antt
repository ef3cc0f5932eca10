-- ===== src/Gated/Replay.antt =====
-- `MemReplay` of spa-gated/src/adapters.rs. A reading of the monotonic clock is a number of
-- nanoseconds; the guard of the core is the cache with the reading that `Instant::now` gives.
use spa_device.Prelude.{
  refl, ℕ, ◌-◌, ◌<◌, ◌≡◌, Bool, true, false, List, [], ◌∷◌, Option, none, some, ltb, if◌then◌else◌,
  ℕ_eq, List_eq, eq_refl, list_eq_iff, arith,
}
use spa_device.Prelude.Assoc.{HashMap, lookup, insert, lookup-insert}
use spa_device.Core.{ReplayGuard}

pub record MemReplay : Type 0 where
  pub seen : HashMap (List ℕ) ℕ
  pub window : ℕ

abbrev pub new_replay : ℕ → MemReplay
new_replay window = record { seen = []; window = window }

-- `HashMap::retain` by the value.
unfoldable pub retain {ℓ} : {K V : Type ℓ} → (V → Bool) → HashMap K V → HashMap K V
retain keep [] = []
retain keep ((k, v) ∷ m) = let rest = retain keep m in if keep v then (k, v) ∷ rest else rest

abbrev pub is_some {ℓ} : {A : Type ℓ} → Option A → Bool
is_some none = false
is_some (some a) = true

unfoldable pub admit_nonce : MemReplay → ℕ → List ℕ → Bool × MemReplay
unfolding retain
admit_nonce r now nonce =
    let seen = retain (λ t. ltb (now - t) r.window) r.seen in
    if is_some (lookup seen nonce)
    then (false, record r { seen = seen })
    else (true, record r { seen = insert seen nonce now })

instance abbrev pub replay_guard : ReplayGuard (MemReplay × ℕ)
replay_guard = record {
  admit = λ (r, now) nonce. let (fresh, r') = admit_nonce r now nonce in (fresh, (r', now));
}

pub lookup-retain :
    (keep : ℕ → Bool) (m : HashMap (List ℕ) ℕ) (k : List ℕ) (t : ℕ)
    → lookup m k ≡ some t
    → keep t ≡ true
    → lookup (retain keep m) k ≡ some t
unfolding lookup retain
lookup-retain keep [] k t h kept = cc h
lookup-retain keep ((j, s) ∷ m) k t h kept = ground (arith, lookup-retain keep m k t)

module _ (r : MemReplay) (now : ℕ) (nonce : List ℕ) where
  pub window-admit_nonce : (admit_nonce r now nonce).1.window ≡ r.window
  unfolding admit_nonce
  window-admit_nonce = ground arith

  -- A nonce that is fresh is remembered, with the time.
  pub admit_nonce-fresh :
      (admit_nonce r now nonce).0 ≡ true → lookup (admit_nonce r now nonce).1.seen nonce ≡ some now
  unfolding admit_nonce
  admit_nonce-fresh h = ground (
    arith,
    lookup-insert (retain (λ t. ltb (now - t) r.window) r.seen) nonce now nonce,
    eq_refl nonce,
  )

  -- What was remembered at `t` is kept while the window has not passed, whatever nonce comes.
  pub admit_nonce-keeps :
      (k : List ℕ) (t : ℕ)
      → lookup r.seen k ≡ some t
      → now - t < r.window
      → lookup (admit_nonce r now nonce).1.seen k ≡ some t
  unfolding admit_nonce
  admit_nonce-keeps k t seen young =
      let kept = lookup-retain (λ s. ltb (now - s) r.window) r.seen k t seen (ground arith) in
      ground (
        arith,
        kept,
        lookup-insert (retain (λ s. ltb (now - s) r.window) r.seen) nonce now k,
        list_eq_iff nonce k,
      )

  -- Until the window has passed it is not fresh again.
  pub admit_nonce-stale :
      (t : ℕ)
      → lookup r.seen nonce ≡ some t
      → now - t < r.window
      → (admit_nonce r now nonce).0 ≡ false
  unfolding admit_nonce
  admit_nonce-stale t seen young =
      ground (arith, lookup-retain (λ s. ltb (now - s) r.window) r.seen nonce t seen (ground arith))

lookup-retain-none :
    (keep : ℕ → Bool) (m : HashMap (List ℕ) ℕ) (k : List ℕ)
    → lookup m k ≡ none
    → lookup (retain keep m) k ≡ none
unfolding lookup retain
lookup-retain-none keep [] k h = refl
lookup-retain-none keep ((j, s) ∷ m) k h = ground (arith, lookup-retain-none keep m k)

-- A nonce that is not in the cache is fresh.
pub admit_nonce-new :
    (r : MemReplay) (now : ℕ) (nonce : List ℕ)
    → lookup r.seen nonce ≡ none
    → (admit_nonce r now nonce).0 ≡ true
unfolding admit_nonce
admit_nonce-new r now nonce unseen =
    ground (arith, lookup-retain-none (λ s. ltb (now - s) r.window) r.seen nonce unseen)
