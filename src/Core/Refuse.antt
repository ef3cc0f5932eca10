-- ===== src/Core/Refuse.antt =====
-- The rejections of `Gatekeeper::admit` in spa-core/src/lib.rs: the reason is the first check that
-- fails, and nothing but the replay guard may have been touched.
use spa_device.Prelude.{
  ℕ, ◌+◌, ◌<◌, ◌≡◌, ◌≢◌, ◌↔◌, ◌⊎◌, inl, inr, ap, ◌∙◌, subst, true, false, List, none, some, ok, err,
  ltb, ℕ_eq, list_eq, list_eq_iff, Bool-cases, Option-cases, Result-cases, arith,
}
use spa_device.Core.{
  IpAddr, OpenError, Opened, ClientPolicy, Clock, Crypto, TrustStore, ReplayGuard, GateWriter,
  Reject, Decision, opened, rejected, Gatekeeper, ports_permitted, abs_diff, authentic,
  admit_opened, admit,
}
use spa_device.Core.Admit.{
  Permitted, ports_permitted_iff, IsTimely, in_time, admit-admissible, admit-ok, admit-err,
}

module _ {Cl Cr T R G : Type 0} ⦃clock : Clock Cl⦄ ⦃crypto : Crypto Cr⦄ ⦃trust : TrustStore T⦄
    ⦃guard : ReplayGuard R⦄ ⦃writer : GateWriter G⦄ where
  -- The check that fails first, for each reason.
  pub data Refuses (gk : Gatekeeper Cl Cr T R G) (packet : List ℕ) : Reject → Type 0 where
    undecryptable :
        (e : OpenError)
        → crypto.open_packet gk.crypto packet ≡ err e
        → Refuses gk packet Reject.undecryptable
    wrong_gate :
        (o : Opened)
        → crypto.open_packet gk.crypto packet ≡ ok o
        → o.auth.gate_id ≢ gk.config.gate_id
        → Refuses gk packet Reject.wrong_gate
    expired :
        (o : Opened)
        → crypto.open_packet gk.crypto packet ≡ ok o
        → o.auth.gate_id ≡ gk.config.gate_id
        → (o.auth.timestamp_nanos + gk.config.skew_nanos < clock.now_unix_nanos gk.clock)
          ⊎ (clock.now_unix_nanos gk.clock + gk.config.skew_nanos < o.auth.timestamp_nanos)
        → Refuses gk packet Reject.expired
    unknown_client :
        (o : Opened)
        → IsTimely gk packet o
        → trust.lookup gk.trust o.auth.key_thumbprint ≡ none
        → Refuses gk packet Reject.unknown_client
    bad_signature :
        (o : Opened) (policy : ClientPolicy)
        → IsTimely gk packet o
        → trust.lookup gk.trust o.auth.key_thumbprint ≡ some policy
        → authentic gk.crypto policy policy.auth o ≡ false
        → Refuses gk packet Reject.bad_signature
    port_not_allowed :
        (o : Opened) (policy : ClientPolicy)
        → IsTimely gk packet o
        → trust.lookup gk.trust o.auth.key_thumbprint ≡ some policy
        → authentic gk.crypto policy policy.auth o ≡ true
        → ¬ Permitted o.auth.ports policy.allowed_ports
        → Refuses gk packet Reject.port_not_allowed
    replay :
        (o : Opened) (policy : ClientPolicy)
        → IsTimely gk packet o
        → trust.lookup gk.trust o.auth.key_thumbprint ≡ some policy
        → authentic gk.crypto policy policy.auth o ≡ true
        → Permitted o.auth.ports policy.allowed_ports
        → (guard.admit gk.replay o.auth.nonce).0 ≡ false
        → Refuses gk packet Reject.replay

  -- The gatekeeper after a rejection.
  abbrev pub after_reject : Gatekeeper Cl Cr T R G → List ℕ → Reject → Gatekeeper Cl Cr T R G
  after_reject gk packet Reject.replay = elim (crypto.open_packet gk.crypto packet) [
    | ok o ↦ record gk { replay = (guard.admit gk.replay o.auth.nonce).1 }
    | err e ↦ gk
  ]
  after_reject gk packet why = gk

  module _ (gk : Gatekeeper Cl Cr T R G) (packet : List ℕ) (source : IpAddr) where
    -- The test of the timestamp fails outside the window.
    late :
        (now ts skew : ℕ)
        → (ts + skew < now) ⊎ (now + skew < ts)
        → ltb skew (abs_diff now ts) ≡ true
    late now ts skew h = ground arith

    outside :
        (now ts skew : ℕ)
        → ltb skew (abs_diff now ts) ≡ true
        → (ts + skew < now) ⊎ (now + skew < ts)
    outside now ts skew h = ground arith

    -- Each failing check gives its reason, and leaves the gatekeeper as it was, but for the replay
    -- guard if that is what refuses.
    pub admit-Refuses :
        (why : Reject)
        → Refuses gk packet why
        → admit gk packet source ≡ (rejected why, after_reject gk packet why)
    unfolding admit_opened
    admit-Refuses _ (undecryptable e bad) = admit-err gk packet source bad
    admit-Refuses _ (wrong_gate o good ne) =
        admit-ok gk packet source o good
        ∙ ground (arith, list_eq_iff o.auth.gate_id gk.config.gate_id)
    admit-Refuses _ (expired o good gate out) =
        admit-ok gk packet source o good
        ∙ ground (arith, (list_eq_iff o.auth.gate_id gk.config.gate_id).1 gate, late _ _ _ out)
    admit-Refuses _ (unknown_client o t known) =
        admit-ok gk packet source o t.decrypts
        ∙ ground (arith, known, (list_eq_iff o.auth.gate_id gk.config.gate_id).1 t.for_gate)
    admit-Refuses _ (bad_signature o policy t known forged) =
        admit-ok gk packet source o t.decrypts
        ∙ ground (arith, known, (list_eq_iff o.auth.gate_id gk.config.gate_id).1 t.for_gate)
    admit-Refuses _ (port_not_allowed o policy t known genuine excess) =
        admit-ok gk packet source o t.decrypts
        ∙ ground (
          arith,
          known,
          (list_eq_iff o.auth.gate_id gk.config.gate_id).1 t.for_gate,
          ports_permitted_iff o.auth.ports policy.allowed_ports,
        )
    admit-Refuses _ (replay o policy t known genuine permitted seen) =
        admit-ok gk packet source o t.decrypts
        ∙ ground (
          arith,
          known,
          (list_eq_iff o.auth.gate_id gk.config.gate_id).1 t.for_gate,
          (ports_permitted_iff o.auth.ports policy.allowed_ports).1 permitted,
        )

    -- What `admit` decides: it opens, or it gives the reason of the check that fails first.
    Verdict : Type 0
    Verdict =
        ((ports : List ℕ) × ((admit gk packet source).0 ≡ opened ports))
        ⊎ ((why : Reject) × Refuses gk packet why)

    known_cases :
        (o : Opened) (policy : ClientPolicy)
        → IsTimely gk packet o
        → trust.lookup gk.trust o.auth.key_thumbprint ≡ some policy
        → Verdict
    unfolding Verdict
    known_cases o policy t known = elim (Bool-cases (authentic gk.crypto policy policy.auth o)) [
      | inr forged ↦ inr (Reject.bad_signature, bad_signature o policy t known forged)
      | inl genuine ↦ elim (Bool-cases (ports_permitted o.auth.ports policy.allowed_ports)) [
        | inr excess ↦ inr (
          Reject.port_not_allowed,
          port_not_allowed o policy t known genuine
              (λ p. cc (excess, (ports_permitted_iff o.auth.ports policy.allowed_ports).1 p)),
        )
        | inl allowed ↦
            let permitted = (ports_permitted_iff o.auth.ports policy.allowed_ports).0 allowed in
            elim (Bool-cases (guard.admit gk.replay o.auth.nonce).0) [
              | inr seen ↦ inr (Reject.replay, replay o policy t known genuine permitted seen)
              | inl fresh ↦ inl (
                o.auth.ports,
                ap (λ (d : Decision × Gatekeeper Cl Cr T R G). d.0)
                    (admit-admissible gk packet source o policy (record {
                      timely = t;
                      known = known;
                      genuine = genuine;
                      permitted = permitted;
                      fresh = fresh;
                    })),
              )
            ]
      ]
    ]

    opened_cases : (o : Opened) → crypto.open_packet gk.crypto packet ≡ ok o → Verdict
    unfolding Verdict
    opened_cases o good = elim (Bool-cases (list_eq o.auth.gate_id gk.config.gate_id)) [
      | inr other ↦ inr (
        Reject.wrong_gate,
        wrong_gate o good (λ e. cc (other, (list_eq_iff o.auth.gate_id gk.config.gate_id).1 e)),
      )
      | inl same ↦
          let gate = (list_eq_iff o.auth.gate_id gk.config.gate_id).0 same in
          let now = clock.now_unix_nanos gk.clock in
          elim (Bool-cases (ltb gk.config.skew_nanos (abs_diff now o.auth.timestamp_nanos))) [
            | inl out ↦ inr (Reject.expired, expired o good gate (outside _ _ _ out))
            | inr inside ↦
                let times = in_time gk packet source now o.auth.timestamp_nanos _ inside in
                let t : IsTimely gk packet o = record {
                  decrypts = good;
                  for_gate = gate;
                  not_old = times.0;
                  not_early = times.1;
                } in
                elim (Option-cases (trust.lookup gk.trust o.auth.key_thumbprint)) [
                  | inl unknown ↦ inr (Reject.unknown_client, unknown_client o t unknown)
                  | inr (policy, known) ↦ known_cases o policy t known
                ]
          ]
    ]

    verdict : Verdict
    unfolding Verdict
    verdict = elim (Result-cases (crypto.open_packet gk.crypto packet)) [
      | inr (e, bad) ↦ inr (Reject.undecryptable, undecryptable e bad)
      | inl (o, good) ↦ opened_cases o good
    ]

    -- `admit` gives a reason exactly if the check of that reason is the first that fails.
    pub admit-rejected_iff :
        (why : Reject) → ((admit gk packet source).0 ≡ rejected why) ↔ Refuses gk packet why
    unfolding Verdict
    admit-rejected_iff why = (
      λ h. elim verdict [
        | inl (ports, e) ↦ cc (h, e)
        | inr (found, r) ↦
            let decided =
              ap (λ (d : Decision × Gatekeeper Cl Cr T R G). d.0) (admit-Refuses found r) in
            subst (Refuses gk packet) (cc (h, decided)) r
      ],
      λ r. ap (λ (d : Decision × Gatekeeper Cl Cr T R G). d.0) (admit-Refuses why r),
    )

    -- A rejected knock leaves the gatekeeper as it was, except that the replay guard has seen the
    -- nonce if it is the guard that refuses; no port is opened and no credential burnt.
    pub admit-rejected :
        (why : Reject)
        → (admit gk packet source).0 ≡ rejected why
        → (admit gk packet source).1 ≡ after_reject gk packet why
    admit-rejected why h =
        ap (λ (d : Decision × Gatekeeper Cl Cr T R G). d.1)
          (admit-Refuses why ((admit-rejected_iff why).0 h))
