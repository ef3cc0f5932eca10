-- ===== src/Ebpf/Rate.antt =====
-- `rate_ok` of spa-ebpf/src/main.rs: the limit on the knocks of one source.
use spa_device.Prelude.{ℕ, ◌+◌, Bool, true, false, ltb, leb, if◌then◌else◌, Option, none, some}
use spa_device.Bpf.{BpfMap, unless_full}
use spa_device.Ebpf.Layout.{Addr, RateState, rate_limit, rate_window_ns}
use spa_device.Ebpf.Frame.{wrapping_sub}

unfoldable pub rate_next : Option RateState → ℕ → Option RateState
rate_next none now = some (record { window_ns = now; count = 1 })
rate_next (some s) now =
    if ltb (wrapping_sub now s.window_ns) rate_window_ns
    then if leb rate_limit s.count
      then none
      else some (record { window_ns = s.window_ns; count = s.count + 1 })
    else some (record { window_ns = now; count = 1 })

module _ {R : Type 0} ⦃rate : BpfMap R Addr RateState⦄ where
  -- `none` of `rate_next` is the early `return false`.
  unfoldable pub rate_ok : R → Addr → ℕ → Bool × R
  unfolding rate_next
  rate_ok r saddr now = elim (rate_next (rate.get r saddr) now) [
    | none ↦ (false, r)
    | some next ↦ (true, unless_full r (rate.insert r saddr next))
  ]
