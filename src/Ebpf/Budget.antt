-- ===== src/Ebpf/Budget.antt =====
-- The budget that `rate_ok` of spa-ebpf/src/main.rs gives to one source.
use spa_device.Prelude.{
  ℕ, ◌&&◌, ◌+◌, ◌-◌, ◌*◌, ◌/◌, ◌^◌, ◌≤◌, ◌<◌, ◌≡◌, ◌⊎◌, inl, inr, refl, subst, true, false, List,
  [], ◌∷◌, ltb, leb, if◌then◌else◌, none, some, ℕ_eq, List_eq, list_eq, list_eq_iff, Bool-cases,
  Option, Option-cases, eq_refl, arith,
}
use spa_device.Bpf.{BpfMap, LawfulLru}
use spa_device.Ebpf.Layout.{Addr, RateState, rate_limit, rate_window_ns}
use spa_device.Ebpf.Frame.{wrapping_sub}
use spa_device.Ebpf.Rate.{rate_next, rate_ok}

-- The clock does not run backwards, and stays in 64 bits.
abbrev pub IsClock : ℕ → ℕ → List (Addr × ℕ) → Type 0
IsClock from until [] = (from ≤ until) × (until < 2 ^ 64)
IsClock from until ((src, now) ∷ knocks) = (from ≤ now) × IsClock now until knocks

-- What is left to a source with the state `s`.
abbrev left_of : RateState → ℕ → ℕ
left_of s until = rate_limit - s.count + rate_limit * ((until - s.window_ns) / rate_window_ns)

-- The stored window is not in the future, and its count is within the limit.
abbrev IsWindow : RateState → ℕ → Type 0
IsWindow s from = (s.window_ns ≤ from) × (s.count ≤ rate_limit)

clock_bounds :
    (from until : ℕ) (knocks : List (Addr × ℕ))
    → IsClock from until knocks
    → (from ≤ until) × (until < 2 ^ 64)
clock_bounds from until [] c = c
clock_bounds from until ((src, now) ∷ knocks) c =
    let (before, small) = clock_bounds now until knocks c.1 in (omega arith, small)

wrapping_sub-le : (a b : ℕ) → b ≤ a → a < 2 ^ 64 → wrapping_sub a b ≡ a - b
unfolding wrapping_sub
wrapping_sub-le a b le small = omega arith

-- A new window costs the whole of an old one.
restart :
    (s : RateState) (now until : ℕ)
    → s.window_ns + rate_window_ns ≤ now
    → now ≤ until
    → rate_limit * ((until - now) / rate_window_ns) + rate_limit ≤ left_of s until
restart s now until old le = omega arith

-- A knock that passes takes one from what is left.
rate_next-some :
    (s n : RateState) (from now until : ℕ)
    → IsWindow s from
    → from ≤ now
    → (now ≤ until) × (until < 2 ^ 64)
    → rate_next (some s) now ≡ some n
    → IsWindow n now × (left_of n until + 1 ≤ left_of s until)
unfolding rate_next
rate_next-some s n from now until w le bounds h =
    let age = wrapping_sub-le now s.window_ns (omega arith) (omega arith) in
    elim (Bool-cases (ltb (wrapping_sub now s.window_ns) rate_window_ns)) [
      | inl inside ↦ elim (Bool-cases (leb rate_limit s.count)) [
        | inl over ↦ cc (rw (inside, over) at h)
        | inr within ↦
            subst (λ (k : RateState). IsWindow k now × (left_of k until + 1 ≤ left_of s until))
              {x = record { window_ns = s.window_ns; count = s.count + 1 }}
              (cc (rw (inside, within) at h)) (ground arith)
      ]
      | inr outside ↦
          subst (λ (k : RateState). IsWindow k now × (left_of k until + 1 ≤ left_of s until))
            {x = record { window_ns = now; count = 1 }} (cc (rw outside at h))
            (omega arith, omega (arith, restart s now until (ground (arith, age, w)) bounds.0))
    ]

fresh_passes : (now : ℕ) → ¬ (rate_next none now ≡ none)
unfolding rate_next
fresh_passes now h = cc h

-- The first knock of a source opens a window and takes one from it.
fresh-IsWindow :
    (n : RateState) (now until : ℕ)
    → rate_next none now ≡ some n
    → IsWindow n now
      × (left_of n until + 1 ≤ rate_limit + rate_limit * ((until - now) / rate_window_ns))
unfolding rate_next
fresh-IsWindow n now until h =
    subst
      (λ (k : RateState).
        IsWindow k now
        × (left_of k until + 1 ≤ rate_limit + rate_limit * ((until - now) / rate_window_ns)))
      {x = record { window_ns = now; count = 1 }} (cc h) (omega arith)

module _ {R : Type 0} ⦃rate : BpfMap R Addr RateState⦄ where
  -- The knocks of `src` that pass, in a run over the knocks of all sources.
  unfoldable pub passed : Addr → R → List (Addr × ℕ) → ℕ
  unfolding rate_ok
  passed src r [] = 0
  passed src r ((other, now) ∷ knocks) =
      let answer = rate_ok r other now in
      let later = passed src answer.1 knocks in
      if list_eq other src && answer.0 then later + 1 else later

  -- If a knock of `other` is to be counted, the map takes its state, and evicts no entry of `src`.
  abbrev pub IsStored : Addr → R → Addr → Option RateState → Type 0
  IsStored src r other none = Unit
  IsStored src r other (some n) =
      (r' : R) × (rate.insert r other n ≡ some r')
      × ((s : RateState)
          → list_eq other src ≡ false
          → rate.get r src ≡ some s
          → rate.get r' src ≡ some s)

  -- So it is for each knock of a run.
  abbrev pub IsKept : Addr → R → List (Addr × ℕ) → Type 0
  IsKept src r [] = Unit
  IsKept src r ((other, now) ∷ knocks) =
      IsStored src r other (rate_next (rate.get r other) now)
      × IsKept src (rate_ok r other now).1 knocks

  module _ (lawful : LawfulLru rate) where
    -- A knock of another source leaves the state of this one alone.
    rate_ok_other :
        (r : R) (src other : Addr) (now : ℕ) (s : RateState)
        → list_eq other src ≡ false
        → IsStored src r other (rate_next (rate.get r other) now)
        → rate.get r src ≡ some s
        → rate.get (rate_ok r other now).1 src ≡ some s
    unfolding rate_ok
    rate_ok_other r src other now s differ kept found =
        elim (Option-cases (rate_next (rate.get r other) now)) [
          | inl over ↦ rw (rate_ok, over) found
          | inr (n, within) ↦
              let (r', stored, stays) = rw within at kept in
              rw (rate_ok, within, stored) (stays s differ found)
        ]

    -- A knock of another source adds none of this one.
    rate_ok_absent :
        (r : R) (src other : Addr) (now : ℕ)
        → list_eq other src ≡ false
        → IsStored src r other (rate_next (rate.get r other) now)
        → rate.get r src ≡ none
        → rate.get (rate_ok r other now).1 src ≡ none
    unfolding rate_ok
    rate_ok_absent r src other now differ kept missing =
        elim (Option-cases (rate_next (rate.get r other) now)) [
          | inl over ↦ rw (rate_ok, over) missing
          | inr (n, within) ↦
              let (r', stored, stays) = rw within at kept in
              rw (rate_ok, within, stored)
                (elim (Option-cases (rate.get r' src)) [
                  | inl e ↦ e
                  | inr (s, e) ↦
                      absurd (cc (missing, lawful.get-insert_ne r r' other n src s stored e differ))
                ])
        ]

    -- A knock of this source is refused and changes nothing, or passes and stores the next state.
    rate_ok_self :
        (r : R) (src : Addr) (now : ℕ)
        → IsStored src r src (rate_next (rate.get r src) now)
        → ((rate_next (rate.get r src) now ≡ none) × (rate_ok r src now ≡ (false, r)))
          ⊎ ((n : RateState) × (rate_next (rate.get r src) now ≡ some n)
              × ((rate_ok r src now).0 ≡ true)
              × (rate.get (rate_ok r src now).1 src ≡ some n))
    unfolding rate_ok
    rate_ok_self r src now kept = elim (Option-cases (rate_next (rate.get r src) now)) [
      | inl over ↦ inl (over, rw (rate_ok, over) refl)
      | inr (n, within) ↦
          let (r', stored, stays) = rw within at kept in
          inr (
            n,
            within,
            rw (rate_ok, within) refl,
            rw (rate_ok, within, stored) (lawful.get-insert_self r r' src n stored),
          )
    ]

    passed_from :
        (src : Addr) (knocks : List (Addr × ℕ)) (r : R) (s : RateState) (from until : ℕ)
        → rate.get r src ≡ some s
        → IsWindow s from
        → IsClock from until knocks
        → IsKept src r knocks
        → passed src r knocks ≤ left_of s until
    unfolding passed
    passed_from src [] r s from until found w c k = omega arith
    passed_from src ((other, now) ∷ knocks) r s from until found w c k =
        elim (Bool-cases (list_eq other src)) [
          | inr differ ↦
              let later =
                passed_from src knocks (rate_ok r other now).1 s now until
                  (rate_ok_other r src other now s differ k.0 found) (omega arith, w.1) c.1 k.1 in
              rw differ later
          | inl same ↦
              let (stored_now, kept) = rw ((list_eq_iff other src).0 same) at k in
              rw ((list_eq_iff other src).0 same, eq_refl src)
                (elim (rate_ok_self r src now stored_now) [
                  | inl (over, same_state) ↦ rw same_state (
                      passed_from src knocks r s now until found (omega arith, w.1) c.1
                        (rw same_state at kept))
                  | inr (n, within, passes, stored) ↦
                      let (w', less) =
                        rate_next-some s n from now until w c.0 (clock_bounds now until knocks c.1)
                          (rw found at within) in
                      let later =
                        passed_from src knocks (rate_ok r src now).1 n now until stored w' c.1
                          kept in
                      rw passes (omega (arith, later, less))
                ])
        ]

    -- A source without an entry has at most ten knocks passed, and ten more for each full second, in
    -- any run of knocks of all sources in which the map stores what is counted and does not evict the
    -- entry of this source.
    pub passed_bound :
        (src : Addr) (knocks : List (Addr × ℕ)) (r : R) (from until : ℕ)
        → rate.get r src ≡ none
        → IsClock from until knocks
        → IsKept src r knocks
        → passed src r knocks ≤ rate_limit + rate_limit * ((until - from) / rate_window_ns)
    unfolding passed
    passed_bound src [] r from until missing c k = omega arith
    passed_bound src ((other, now) ∷ knocks) r from until missing c k =
        let (before, small) = clock_bounds now until knocks c.1 in
        elim (Bool-cases (list_eq other src)) [
          | inr differ ↦
              let later =
                passed_bound src knocks (rate_ok r other now).1 now until
                  (rate_ok_absent r src other now differ k.0 missing) c.1 k.1 in
              rw differ (omega (arith, later, c.0))
          | inl same ↦
              let (stored_now, kept) = rw ((list_eq_iff other src).0 same) at k in
              rw ((list_eq_iff other src).0 same, eq_refl src)
                (elim (rate_ok_self r src now stored_now) [
                  | inl (over, same_state) ↦ absurd (fresh_passes now (rw missing at over))
                  | inr (n, within, passes, stored) ↦
                      let (w', less) = fresh-IsWindow n now until (rw missing at within) in
                      let later =
                        passed_from src knocks (rate_ok r src now).1 n now until stored w' c.1
                          kept in
                      rw passes (omega (arith, later, less, c.0))
                ])
        ]
