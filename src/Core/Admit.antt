-- ===== src/Core/Admit.antt =====
-- `Gatekeeper::admit` of spa-core/src/lib.rs: when it opens, and what a rejection leaves behind.
use spa_device.Prelude.{
  ℕ, ◌+◌, ◌≤◌, ◌≡◌, ◌↔◌, inl, inr, refl, ap, ◌∙◌, true, false, List, [], ◌∷◌, some, ok, err, All,
  ltb, if◌then◌else◌, ℕ_eq, list_eq, list_eq_iff, Option-cases, Result-cases, IsIn, contains_iff,
  arith,
}
use spa_device.Core.{
  IpAddr, OpenError, Opened, ClientPolicy, Clock, Crypto, TrustStore, ReplayGuard, GateWriter,
  undecryptable, Decision, opened, rejected, Gatekeeper, ports_permitted, abs_diff, authentic,
  admit_known, admit_opened, admit,
}

-- Every requested port is one of the allowed ports.
abbrev pub Permitted : List ℕ → List ℕ → Type 0
Permitted requested allowed = All (λ p. IsIn p allowed) requested

pub ports_permitted_iff :
    (requested allowed : List ℕ)
    → (ports_permitted requested allowed ≡ true) ↔ Permitted requested allowed
ports_permitted_iff [] allowed = (λ h. tt, λ h. refl)
ports_permitted_iff (p ∷ ps) allowed =
    ground (arith, contains_iff allowed p, ports_permitted_iff ps allowed)

module _ {Cl Cr T R G : Type 0} ⦃clock : Clock Cl⦄ ⦃crypto : Crypto Cr⦄ ⦃trust : TrustStore T⦄
    ⦃guard : ReplayGuard R⦄ ⦃writer : GateWriter G⦄ where
  -- The knock `o` for this gate, in time, of a known client.
  pub record IsTimely (gk : Gatekeeper Cl Cr T R G) (packet : List ℕ) (o : Opened) : Type 0 where
    pub decrypts : crypto.open_packet gk.crypto packet ≡ ok o
    pub for_gate : o.auth.gate_id ≡ gk.config.gate_id
    pub not_old : clock.now_unix_nanos gk.clock ≤ o.auth.timestamp_nanos + gk.config.skew_nanos
    pub not_early : o.auth.timestamp_nanos ≤ clock.now_unix_nanos gk.clock + gk.config.skew_nanos

  -- All that `admit` asks of a knock.
  pub record IsAdmissible (gk : Gatekeeper Cl Cr T R G) (packet : List ℕ) (o : Opened)
      (policy : ClientPolicy) : Type 0 where
    pub timely : IsTimely gk packet o
    pub known : trust.lookup gk.trust o.auth.key_thumbprint ≡ some policy
    pub genuine : authentic gk.crypto policy policy.auth o ≡ true
    pub permitted : Permitted o.auth.ports policy.allowed_ports
    pub fresh : (guard.admit gk.replay o.auth.nonce).0 ≡ true

  -- The gatekeeper after a knock that opened ports.
  abbrev pub after_open :
      Gatekeeper Cl Cr T R G → Opened → ClientPolicy → IpAddr → Gatekeeper Cl Cr T R G
  after_open gk o policy source = record gk {
    trust = if policy.single_use then trust.consume gk.trust o.auth.key_thumbprint else gk.trust;
    replay = (guard.admit gk.replay o.auth.nonce).1;
    gate = writer.open_ports gk.gate source o.auth.ports gk.config.pinhole_nanos;
  }

  -- What an admitted knock shows.
  pub record Admits (gk : Gatekeeper Cl Cr T R G) (packet : List ℕ) (source : IpAddr)
      (ports : List ℕ) : Type 0 where
    pub o : Opened
    pub policy : ClientPolicy
    pub admissible : IsAdmissible gk packet o policy
    pub ports_eq : ports ≡ o.auth.ports
    pub after : (admit gk packet source).1 ≡ after_open gk o policy source

  module _ (gk : Gatekeeper Cl Cr T R G) (packet : List ℕ) (source : IpAddr) where
    pub in_time :
        (now ts skew : ℕ)
        → ltb skew (abs_diff now ts) ≡ false
        → (now ≤ ts + skew) × (ts ≤ now + skew)
    in_time now ts skew h = ground arith

    known_opened :
        (o : Opened) (policy : ClientPolicy) {ports : List ℕ}
        → (admit_known gk o policy source).0 ≡ opened ports
        → (authentic gk.crypto policy policy.auth o ≡ true)
          × (ports_permitted o.auth.ports policy.allowed_ports ≡ true)
          × ((guard.admit gk.replay o.auth.nonce).0 ≡ true)
          × (ports ≡ o.auth.ports)
          × ((admit_known gk o policy source).1 ≡ after_open gk o policy source)
    unfolding admit_known
    known_opened o policy h = ground arith

    -- A knock that could be decrypted and opens ports passes the checks before the trust lookup.
    opened_inv :
        (o : Opened) {ports : List ℕ}
        → (admit_opened gk o source).0 ≡ opened ports
        → (list_eq o.auth.gate_id gk.config.gate_id ≡ true)
          × (ltb gk.config.skew_nanos
                (abs_diff (clock.now_unix_nanos gk.clock) o.auth.timestamp_nanos)
              ≡ false)
          × ((policy : ClientPolicy) × (trust.lookup gk.trust o.auth.key_thumbprint ≡ some policy)
              × (admit_opened gk o source ≡ admit_known gk o policy source))
    unfolding admit_opened
    opened_inv o h = elim (Option-cases (trust.lookup gk.trust o.auth.key_thumbprint)) [
      | inl unknown ↦ absurd (ground (arith, unknown))
      | inr (policy, known) ↦ (ground arith, ground arith, (policy, known, ground (arith, known)))
    ]

    pub admit-ok :
        (o : Opened)
        → crypto.open_packet gk.crypto packet ≡ ok o
        → admit gk packet source ≡ admit_opened gk o source
    unfolding admit
    admit-ok o good = rw (good, admit)

    pub admit-err :
        {e : OpenError}
        → crypto.open_packet gk.crypto packet ≡ err e
        → admit gk packet source ≡ (rejected undecryptable, gk)
    unfolding admit
    admit-err bad = rw (bad, admit)

    -- If `admit` opens ports, the knock has passed every check, the ports are those that it asks
    -- for, and the gatekeeper has burnt a single-use credential, recorded the nonce and written one
    -- grant, and changed nothing else.
    pub admit-opened :
        (ports : List ℕ) → (admit gk packet source).0 ≡ opened ports → Admits gk packet source ports
    admit-opened ports h = elim (Result-cases (crypto.open_packet gk.crypto packet)) [
      | inr (e, bad) ↦ cc (ap (λ (d : Decision × Gatekeeper Cl Cr T R G). d.0) (admit-err bad), h)
      | inl (o, good) ↦
          let run = admit-ok o good in
          let (for_gate, window, found) = opened_inv o (rw run at h) in
          let known = found.2 in
          let passed = known_opened o found.0 (rw (run, known) at h) in
          let times = in_time (clock.now_unix_nanos gk.clock) _ _ window in
          record {
            o = o;
            policy = found.0;
            admissible = record {
              timely = record {
                decrypts = good;
                for_gate = (list_eq_iff o.auth.gate_id gk.config.gate_id).0 for_gate;
                not_old = times.0;
                not_early = times.1;
              };
              known = found.1;
              genuine = passed.0;
              permitted = (ports_permitted_iff o.auth.ports found.0.allowed_ports).0 passed.1;
              fresh = passed.2;
            };
            ports_eq = passed.3;
            after = rw (run, known) passed.4;
          }
    ]

    -- A knock that passes every check opens the ports that it asks for, with the effects of one
    -- grant.
    pub admit-admissible :
        (o : Opened) (policy : ClientPolicy)
        → IsAdmissible gk packet o policy
        → admit gk packet source ≡ (opened o.auth.ports, after_open gk o policy source)
    unfolding admit_opened
    admit-admissible o policy a =
        admit-ok o a.timely.decrypts
        ∙ ground (
          arith,
          a.known,
          (list_eq_iff o.auth.gate_id gk.config.gate_id).1 a.timely.for_gate,
          (ports_permitted_iff o.auth.ports policy.allowed_ports).1 a.permitted,
        )
