-- ===== src/Cli/Answered.antt =====
-- What a success of `confirm_open` of spa-client/src/main.rs shows.
use spa_device.Prelude.{
  ℕ, zero, suc, ◌+◌, ◌≡◌, ◌⊎◌, inl, inr, true, ltb, List, [], ◌∷◌, some, ok, Bool-cases,
  Option-cases,
}
use spa_device.Cli.Confirm.{
  Probe, connected, refused, Probing, deadline, host_port, confirm_fuel, confirm_rounds,
  confirm_open,
}
use spa_device.Cli.Ending.{Probe-cases}
use spa_device.Cli.Descriptor.{confirm_first}

-- A probe found the port open, or the connection was refused.
abbrev IsAnswer : Probe → Type 0
IsAnswer p = (p ≡ connected) ⊎ (p ≡ refused)

-- The port was not to be confirmed, or its address was resolved and a probe was answered.
abbrev IsAnswered : Probing → List ℕ → ℕ → Type 0
IsAnswered env address port =
    (env.no_confirm ≡ true)
    ⊎ ((addr : List ℕ) × (n : ℕ) × (env.resolve (host_port address port) ≡ some addr)
        × IsAnswer (env.probe n))

abbrev pub FirstAnswers : Probing → List ℕ → List ℕ → Type 0
FirstAnswers env address [] = Unit
FirstAnswers env address (port ∷ ports) = IsAnswered env address port

confirm_rounds-IsAnswer :
    (env : Probing) (fuel i : ℕ)
    → confirm_rounds fuel env i ≡ some (ok tt)
    → (n : ℕ) × IsAnswer (env.probe n)
unfolding confirm_rounds
confirm_rounds-IsAnswer env zero i h = cc h
confirm_rounds-IsAnswer env (suc fuel) i h = elim (Probe-cases (env.probe i)) [
  | inl up ↦ (i, inl up)
  | inr (inl rst) ↦ (i, inr rst)
  | inr (inr (e, dark)) ↦ elim (Bool-cases (ltb (env.instant i) (deadline env))) [
    | inl early ↦ confirm_rounds-IsAnswer env fuel (i + 1) (rw (confirm_rounds, dark, early) at h)
    | inr late ↦ cc (rw (confirm_rounds, dark, late) at h)
  ]
]

confirm_open-IsAnswered :
    (env : Probing) (address : List ℕ) (port : ℕ)
    → confirm_open env address port ≡ some (ok tt)
    → IsAnswered env address port
unfolding confirm_open
confirm_open-IsAnswered env address port h = elim (Bool-cases env.no_confirm) [
  | inl off ↦ inl off
  | inr on ↦ elim (Option-cases (env.resolve (host_port address port))) [
    | inl unknown ↦ cc (rw (on, unknown) at h)
    | inr (addr, found) ↦
        let (n, answer) = confirm_rounds-IsAnswer env (confirm_fuel env) 0 (rw (on, found) at h) in
        inr (addr, n, found, answer)
  ]
]

pub confirm_first-FirstAnswers :
    (env : Probing) (address ports : List ℕ)
    → confirm_first env address ports ≡ some (ok tt)
    → FirstAnswers env address ports
confirm_first-FirstAnswers env address [] h = tt
confirm_first-FirstAnswers env address (port ∷ ports) h = confirm_open-IsAnswered env address port h
