-- ===== src/Core/Keeps.antt =====
-- What `Gatekeeper::admit` of spa-core/src/lib.rs leaves of the gatekeeper, whatever it decides.
use spa_device.Prelude.{
  ℕ, ◌≡◌, ◌⊎◌, inl, inr, refl, List, ℕ_eq, Bool-cases, Result-cases, subst, sym,
}
use spa_device.Core.{
  IpAddr, Opened, ClientPolicy, Clock, Crypto, TrustStore, ReplayGuard, GateWriter, Decision,
  opened, Reject, rejected, Gatekeeper, admit,
}
use spa_device.Core.Admit.{after_open, admit-opened}
use spa_device.Core.Refuse.{after_reject, admit-rejected}

pub decided :
    (d : Decision) → ((ports : List ℕ) × (d ≡ opened ports)) ⊎ ((why : Reject) × (d ≡ rejected why))
decided (opened ports) = inl (ports, refl)
decided (rejected why) = inr (why, refl)

module _ {Cl Cr T R G : Type 0} ⦃clock : Clock Cl⦄ ⦃crypto : Crypto Cr⦄ ⦃trust : TrustStore T⦄
    ⦃guard : ReplayGuard R⦄ ⦃writer : GateWriter G⦄ where
  -- From `before` to `after` at most one credential was burnt and one nonce was shown to the guard.
  pub record Keeps (before after : Gatekeeper Cl Cr T R G) : Type 0 where
    pub config : after.config ≡ before.config
    pub crypto_eq : after.crypto ≡ before.crypto
    pub trust_step :
        (after.trust ≡ before.trust) ⊎ ((k : List ℕ) × (after.trust ≡ trust.consume before.trust k))
    pub replay_step :
        (after.replay ≡ before.replay)
        ⊎ ((n : List ℕ) × (after.replay ≡ (guard.admit before.replay n).1))

  Keeps-refl : (gk : Gatekeeper Cl Cr T R G) → Keeps gk gk
  Keeps-refl gk = record {
    config = refl;
    crypto_eq = refl;
    trust_step = inl refl;
    replay_step = inl refl;
  }

  after_open-Keeps :
      (gk : Gatekeeper Cl Cr T R G) (o : Opened) (policy : ClientPolicy) (source : IpAddr)
      → Keeps gk (after_open gk o policy source)
  after_open-Keeps gk o policy source = record {
    config = refl;
    crypto_eq = refl;
    trust_step = elim (Bool-cases policy.single_use) [
      | inl once ↦ inr (o.auth.key_thumbprint, rw once refl)
      | inr many ↦ inl (rw many refl)
    ];
    replay_step = inr (o.auth.nonce, refl);
  }

  after_reject-Keeps :
      (gk : Gatekeeper Cl Cr T R G) (packet : List ℕ) (why : Reject)
      → Keeps gk (after_reject gk packet why)
  after_reject-Keeps gk packet Reject.replay =
      elim (Result-cases (crypto.open_packet gk.crypto packet)) [
        | inr (e, bad) ↦ rw (after_reject, bad) (Keeps-refl gk)
        | inl (o, good) ↦
            rw (after_reject, good)
              (record {
                config = refl;
                crypto_eq = refl;
                trust_step = inl refl;
                replay_step = inr (o.auth.nonce, refl);
              })
      ]
  after_reject-Keeps gk packet Reject.undecryptable = Keeps-refl gk
  after_reject-Keeps gk packet Reject.wrong_gate = Keeps-refl gk
  after_reject-Keeps gk packet Reject.expired = Keeps-refl gk
  after_reject-Keeps gk packet Reject.unknown_client = Keeps-refl gk
  after_reject-Keeps gk packet Reject.bad_signature = Keeps-refl gk
  after_reject-Keeps gk packet Reject.port_not_allowed = Keeps-refl gk

  -- Whatever it decides, `admit` shows at most one nonce to the guard and burns at most one
  -- credential, and leaves the configuration and the keys alone.
  pub admit-Keeps :
      (gk : Gatekeeper Cl Cr T R G) (packet : List ℕ) (source : IpAddr)
      → Keeps gk (admit gk packet source).1
  admit-Keeps gk packet source = elim (decided (admit gk packet source).0) [
    | inl (ports, e) ↦
        let a = admit-opened gk packet source ports e in
        subst (Keeps gk) (sym a.after) (after_open-Keeps gk a.o a.policy source)
    | inr (why, e) ↦
        subst (Keeps gk) (sym (admit-rejected gk packet source why e))
          (after_reject-Keeps gk packet why)
  ]
