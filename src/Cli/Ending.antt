-- ===== src/Cli/Ending.antt =====
-- `confirm_open` of spa-client/src/main.rs comes to an end, and says how.
use spa_device.Prelude.{
  ℕ, zero, suc, ◌+◌, ◌*◌, ◌≤◌, ◌<◌, ◌≡◌, refl, sym, subst, inl, inr, false, ltb, List, Option, some,
  Result, ◌⊎◌, Bool-cases, arith,
}
use spa_device.Client.File.{Error}
use spa_device.Cli.Confirm.{
  Probe, connected, refused, failed, Probing, sleep_nanos, deadline, confirm_rounds, confirm_fuel,
  confirm_open, host_port, Ticks, Ending, opens, answers, stays_dark,
}

pub Probe-cases : (p : Probe) → (p ≡ connected) ⊎ ((p ≡ refused) ⊎ ((e : List ℕ) × (p ≡ failed e)))
Probe-cases connected = inl refl
Probe-cases refused = inr (inl refl)
Probe-cases (failed e) = inr (inr (e, refl))

module _ (env : Probing) (ticks : Ticks env) where
  clock_runs : (i : ℕ) → env.start + i * sleep_nanos ≤ env.instant i
  clock_runs zero = omega (arith, ticks.starts)
  clock_runs (suc i) =
      subst (λ (k : ℕ). env.start + suc i * sleep_nanos ≤ env.instant k) {x = i + 1} {y = suc i}
        (omega arith) (omega (arith, clock_runs i, ticks.sleeps i))

  at_next : {B : Type 0} (f : ℕ → B) (i n : ℕ) {b : B} → f (i + 1 + n) ≡ b → f (i + suc n) ≡ b
  at_next f i n {b} h = subst (λ (k : ℕ). f k ≡ b) {x = i + 1 + n} {y = i + suc n} (omega arith) h

  one_more :
      (i : ℕ) (e : List ℕ) {r : Option (Result (Unit {0}) Error)}
      → env.probe i ≡ failed e
      → env.instant i < deadline env
      → Ending env (i + 1) r
      → Ending env i r
  one_more i e dark early (opens n closed h) =
      opens (suc n) ((e, dark, early), closed) (at_next env.probe i n h)
  one_more i e dark early (answers n closed h) =
      answers (suc n) ((e, dark, early), closed) (at_next env.probe i n h)
  one_more i e dark early (stays_dark n e' closed h late) =
      stays_dark (suc n) e' ((e, dark, early), closed) (at_next env.probe i n h)
        (subst (λ (k : ℕ). deadline env ≤ env.instant k) {x = i + 1 + n} {y = i + suc n}
          (omega arith) late)

  stop_here : {B : Type 0} (f : ℕ → B) (i : ℕ) {b : B} → f i ≡ b → f (i + 0) ≡ b
  stop_here f i {b} h = subst (λ (k : ℕ). f k ≡ b) {x = i} {y = i + 0} (omega arith) h

  confirm_rounds-Ending :
      (fuel i : ℕ)
      → deadline env + sleep_nanos ≤ env.start + (i + fuel) * sleep_nanos
      → env.start + i * sleep_nanos < deadline env + sleep_nanos
      → Ending env i (confirm_rounds fuel env i)
  unfolding confirm_rounds
  confirm_rounds-Ending zero i enough entered = absurd (omega arith)
  confirm_rounds-Ending (suc fuel) i enough entered = elim (Probe-cases (env.probe i)) [
    | inl up ↦ rw (confirm_rounds, up) (opens 0 tt (stop_here env.probe i up))
    | inr (inl rst) ↦ rw (confirm_rounds, rst) (answers 0 tt (stop_here env.probe i rst))
    | inr (inr (e, dark)) ↦ elim (Bool-cases (ltb (env.instant i) (deadline env))) [
      | inl early ↦
          rw (confirm_rounds, dark, early)
            (one_more i e dark (ground (arith, early)) (
              confirm_rounds-Ending fuel (i + 1) (omega (arith, enough))
                (ground (arith, early, clock_runs i))))
      | inr late ↦
          rw (confirm_rounds, dark, late)
            (stays_dark 0 e tt (stop_here env.probe i dark) (
              subst (λ (k : ℕ). deadline env ≤ env.instant k) {x = i} {y = i + 0} (omega arith)
                (ground (arith, late))))
    ]
  ]

  -- If SPA_KNOCK_NO_CONFIRM is not set and the target is resolved, and if the clock goes on by the
  -- length of the sleep at least between two rounds, the loop ends within its fuel: at the first round in which the port is connected to or refuses, or
  -- else at the first one that ends past the deadline, with the error of its probe.
  pub confirm_open-Ending :
      (address addr : List ℕ) (port : ℕ)
      → env.no_confirm ≡ false
      → env.resolve (host_port address port) ≡ some addr
      → Ending env 0 (confirm_open env address port)
  unfolding confirm_open
  confirm_open-Ending address addr port asked resolved =
      let asks : confirm_open env address port ≡ confirm_rounds (confirm_fuel env) env 0 =
        simp (asked, resolved) in
      subst (Ending env 0) (sym asks)
        (confirm_rounds-Ending (confirm_fuel env) 0 (omega arith) (omega arith))
