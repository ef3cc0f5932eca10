-- ===== src/Cli/Confirm.antt =====
-- `confirm_open` of spa-client/src/main.rs: the port of the knock is probed until it is open. What the
-- resolver, the clock and the probes answer is an argument; times are in nanoseconds.
use spa_device.Prelude.{
  ℕ, zero, suc, ◌+◌, ◌*◌, ◌/◌, ◌≤◌, ◌<◌, ◌≡◌, Bool, ltb, if◌then◌else◌, List, ◌∷◌, ◌++◌, contains,
  ℕ_eq, Option, none, some, Result, ok, err,
}
use spa_device.Prelude.Text.{to_decimal}
use spa_device.Client.File.{Error, io, unreachable, u64_max, parse_uint}

-- `host:port`, with brackets around a bare IPv6 address.
unfoldable pub host_port : List ℕ → ℕ → List ℕ
unfolding to_decimal
host_port address port =
    if contains address b':'
    then b'[' ∷ address ++ b']' ∷ b':' ∷ to_decimal port
    else address ++ b':' ∷ to_decimal port

-- What `connect_timeout` gives.
pub data Probe : Type 0 where
  connected refused : Probe
  failed : List ℕ → Probe

pub record Probing : Type 0 where
  -- `SPA_KNOCK_NO_CONFIRM` and `SPA_KNOCK_CONFIRM_MS`
  pub no_confirm : Bool
  pub confirm_ms : Option (List ℕ)
  pub resolve : List ℕ → Option (List ℕ)
  -- `Instant::now()` before the loop, and after the probe of a round.
  pub start : ℕ
  pub probe : ℕ → Probe
  pub instant : ℕ → ℕ

abbrev pub sleep_nanos : ℕ
sleep_nanos = 5 * 1000000

-- The milliseconds for which the port is probed.
unfoldable pub confirm_window : Probing → ℕ
unfolding parse_uint
confirm_window env = elim env.confirm_ms [
  | none ↦ 1500
  | some v ↦ elim (parse_uint u64_max v) [ none ↦ 1500 | some ms ↦ ms ]
]

abbrev pub deadline : Probing → ℕ
deadline env = env.start + confirm_window env * 1000000

-- The loop from round `i` on; `none` means that the fuel ran out.
unfoldable pub confirm_rounds : ℕ → Probing → ℕ → Option (Result (Unit {0}) Error)
confirm_rounds zero env i = none
confirm_rounds (suc fuel) env i = elim (env.probe i) [
  | connected ↦ some (ok tt)
  | refused ↦ some (ok tt)
  | failed e ↦
      let rest = confirm_rounds fuel env (i + 1) in
      if ltb (env.instant i) (deadline env) then rest else some (err (unreachable e))
]

-- One round for each sleep in the window, and two more.
abbrev pub confirm_fuel : Probing → ℕ
confirm_fuel env = confirm_window env / 5 + 2

unfoldable pub confirm_open : Probing → List ℕ → ℕ → Option (Result (Unit {0}) Error)
unfolding confirm_rounds host_port
confirm_open env address port =
    if env.no_confirm then some (ok tt) else elim (env.resolve (host_port address port)) [
      | none ↦ some (err io)
      | some addr ↦ confirm_rounds (confirm_fuel env) env 0
    ]

-- The clock goes on, by the sleep at least from one round to the next.
pub record Ticks (env : Probing) : Type 0 where
  pub starts : env.start ≤ env.instant 0
  pub sleeps : (i : ℕ) → env.instant i + sleep_nanos ≤ env.instant (i + 1)

-- `n` rounds from round `i` on find the port closed, before the deadline.
abbrev pub Closed : Probing → ℕ → ℕ → Type 0
Closed env i zero = Unit
Closed env i (suc n) =
    ((e : List ℕ) × (env.probe i ≡ failed e) × (env.instant i < deadline env))
    × Closed env (i + 1) n

-- The ways in which the loop ends, from round `i` on.
pub data Ending (env : Probing) (i : ℕ) : Option (Result (Unit {0}) Error) → Type 0 where
  opens : (n : ℕ) → Closed env i n → env.probe (i + n) ≡ connected → Ending env i (some (ok tt))
  answers : (n : ℕ) → Closed env i n → env.probe (i + n) ≡ refused → Ending env i (some (ok tt))
  stays_dark :
      (n : ℕ) (e : List ℕ)
      → Closed env i n
      → env.probe (i + n) ≡ failed e
      → deadline env ≤ env.instant (i + n)
      → Ending env i (some (err (unreachable e)))
