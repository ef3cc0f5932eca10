-- ===== src/Core.antt =====
-- spa-core/src/lib.rs: the decision core. The ports are Rust traits there, and records here that a
-- state type implements; the state comes back where a method may change it.
pub mod Admit
pub mod Refuse
pub mod Keeps
mod Tests
use spa_device.Prelude.{
  ℕ, ◌-◌, ◌≤◌, ◌+◌, Bool, true, false, not, ◌&&◌, List, [], ◌∷◌, Option, none, some, Result, ok,
  err, leb, ltb, if◌then◌else◌, ℕ_eq, list_eq, contains,
}
use spa_device.Wire.{Authorization, Suite}

-- `std::net::IpAddr`, by its octets.
pub data IpAddr : Type 0 where
  v4 v6 : List ℕ → IpAddr

pub record Config : Type 0 where
  pub gate_id : List ℕ
  pub skew_nanos : ℕ
  pub pinhole_nanos : ℕ

pub record Opened : Type 0 where
  pub auth : Authorization
  pub signing_bytes : List ℕ

pub data Auth : Type 0 where
  signature psk : Auth

pub record ClientPolicy : Type 0 where
  pub public_key : List ℕ
  pub suite : Suite
  pub allowed_ports : List ℕ
  pub auth : Auth
  pub single_use : Bool

pub data OpenError : Type 0 where
  open_error : OpenError

pub record Clock (Cl : Type 0) : Type 0 where
  pub now_unix_nanos : Cl → ℕ

pub record Crypto (Cr : Type 0) : Type 0 where
  pub open_packet : Cr → List ℕ → Result Opened OpenError
  pub verify : Cr → Suite → List ℕ → List ℕ → List ℕ → Bool
  pub verify_mac : Cr → List ℕ → List ℕ → List ℕ → Bool

pub record TrustStore (T : Type 0) : Type 0 where
  pub lookup : T → List ℕ → Option ClientPolicy
  pub consume : T → List ℕ → T

pub record ReplayGuard (R : Type 0) : Type 0 where
  pub admit : R → List ℕ → Bool × R

pub record GateWriter (G : Type 0) : Type 0 where
  pub open_ports : G → IpAddr → List ℕ → ℕ → G

-- Ordered as the checks run.
pub data Reject : Type 0 where
  undecryptable wrong_gate expired unknown_client bad_signature port_not_allowed replay : Reject

pub data Decision : Type 0 where
  opened : List ℕ → Decision
  rejected : Reject → Decision

pub record Gatekeeper (Cl Cr T R G : Type 0) : Type 0 where
  pub config : Config
  pub clock : Cl
  pub crypto : Cr
  pub trust : T
  pub replay : R
  pub gate : G

-- `requested.iter().all(|p| allowed.contains(p))`
abbrev pub ports_permitted : List ℕ → List ℕ → Bool
ports_permitted [] allowed = true
ports_permitted (p ∷ ps) allowed = contains allowed p && ports_permitted ps allowed

-- `u64::abs_diff`.
abbrev pub abs_diff : ℕ → ℕ → ℕ
abs_diff a b = if leb a b then b - a else a - b

-- `match policy.auth { … }`
abbrev pub authentic : {Cr : Type 0} ⦃crypto : Crypto Cr⦄ → Cr → ClientPolicy → Auth → Opened → Bool
authentic ⦃crypto⦄ c policy signature o =
    crypto.verify c policy.suite policy.public_key o.signing_bytes o.auth.signature
authentic ⦃crypto⦄ c policy psk o =
    crypto.verify_mac c policy.public_key o.signing_bytes o.auth.signature

module _ {Cl Cr T R G : Type 0} ⦃clock : Clock Cl⦄ ⦃crypto : Crypto Cr⦄ ⦃trust : TrustStore T⦄
    ⦃guard : ReplayGuard R⦄ ⦃writer : GateWriter G⦄ where
  -- The effects of a knock that has passed every check: burn, open, report.
  unfoldable pub grant :
      Gatekeeper Cl Cr T R G → Opened → ClientPolicy → IpAddr → Decision × Gatekeeper Cl Cr T R G
  grant gk o policy source = (
    opened o.auth.ports,
    record gk {
      trust = if policy.single_use then trust.consume gk.trust o.auth.key_thumbprint else gk.trust;
      gate = writer.open_ports gk.gate source o.auth.ports gk.config.pinhole_nanos;
    },
  )

  -- The checks after the trust lookup.
  unfoldable pub admit_known :
      Gatekeeper Cl Cr T R G → Opened → ClientPolicy → IpAddr → Decision × Gatekeeper Cl Cr T R G
  unfolding grant
  admit_known gk o policy source =
      if not (authentic gk.crypto policy policy.auth o)
      then (rejected bad_signature, gk)
      else if not (ports_permitted o.auth.ports policy.allowed_ports)
      then (rejected port_not_allowed, gk)
      else let (fresh, replay') = guard.admit gk.replay o.auth.nonce in
        if not fresh
        then (rejected replay, record gk { replay = replay' })
        else grant (record gk { replay = replay' }) o policy source

  -- The checks before it, on a knock that could be decrypted.
  unfoldable pub admit_opened :
      Gatekeeper Cl Cr T R G → Opened → IpAddr → Decision × Gatekeeper Cl Cr T R G
  unfolding admit_known
  admit_opened gk o source =
      if not (list_eq o.auth.gate_id gk.config.gate_id)
      then (rejected wrong_gate, gk)
      else if ltb gk.config.skew_nanos
          (abs_diff (clock.now_unix_nanos gk.clock) o.auth.timestamp_nanos)
      then (rejected expired, gk)
      else elim (trust.lookup gk.trust o.auth.key_thumbprint) [
        | none ↦ (rejected unknown_client, gk)
        | some policy ↦ admit_known gk o policy source
      ]

  unfoldable pub admit :
      Gatekeeper Cl Cr T R G → List ℕ → IpAddr → Decision × Gatekeeper Cl Cr T R G
  unfolding admit_opened
  admit gk packet source = elim (crypto.open_packet gk.crypto packet) [
    | err e ↦ (rejected undecryptable, gk)
    | ok o ↦ admit_opened gk o source
  ]
