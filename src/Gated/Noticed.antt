-- ===== src/Gated/Noticed.antt =====
-- The log of `watch_bundle` of spa-gated/src/main.rs tells which bundles came into force.
use spa_device.Prelude.{
  ℕ, ◌≡◌, ◌<◌, ◌⊎◌, inl, inr, refl, ap, sym, ◌∙◌, subst, leb, List, [], ◌∷◌, ◌++◌, append_assoc,
  append-nil, map, Option, Option-cases, Result-cases, Bool-cases, arith,
}
use spa_device.Bpf.{BpfMap}
use spa_device.Crypto.{Primitives}
use spa_device.Gated.Config.{Formats}
use spa_device.Gated.Bundle.{BundleFormat, load_verify}
use spa_device.Gated.Watch.{Watcher, Round, same_mtime, apply_bundle, reload, watch_round, watch}
use spa_device.Gated.Audit.{AuditEvent}
use spa_device.Gated.Notice.{
  BundleText, applied_gens, applied_gens-append, Rising, newest, round_events, watch_logged,
}

-- After an applied generation that is greater, the others rise.
Rising-after :
    (g h : ℕ) (new gs : List ℕ)
    → (new ≡ []) × (h ≡ g) ⊎ (new ≡ h ∷ []) × (g < h)
    → Rising h gs
    → Rising g (new ++ gs)
Rising-after g h new gs (inl (none_new, same)) rising =
    rw none_new (subst (λ (x : ℕ). Rising x gs) same rising)
Rising-after g h new gs (inr (one_new, newer)) rising = rw one_new (newer, rising)

newest-after :
    (g h : ℕ) (new gs : List ℕ)
    → (new ≡ []) × (h ≡ g) ⊎ (new ≡ h ∷ []) × (g < h)
    → newest g (new ++ gs) ≡ newest h gs
newest-after g h new gs (inl (none_new, same)) = rw (none_new, same) refl
newest-after g h new gs (inr (one_new, newer)) = rw one_new refl

module _ {P : Type 0} ⦃map_of : BpfMap P ℕ ℕ⦄ ⦃aws : Primitives⦄ ⦃formats : Formats⦄
    ⦃toml : BundleFormat⦄ ⦃texts : BundleText⦄ where
  -- A round either logs no applied bundle and leaves the generation, or logs the newer one that it is.
  round_gens :
      (w : Watcher P) (r : Round) (unix : Option ℕ)
      → (applied_gens (round_events w r unix) ≡ [])
          × ((watch_round w r).applied_gen ≡ w.applied_gen)
        ⊎ (applied_gens (round_events w r unix) ≡ (watch_round w r).applied_gen ∷ [])
          × (w.applied_gen < (watch_round w r).applied_gen)
  unfolding round_events watch_round reload apply_bundle
  round_gens w r unix = elim (Option-cases r.mtime) [
    | inl gone ↦ inl (rw gone refl, rw gone refl)
    | inr (t, is) ↦ elim (Bool-cases (same_mtime t w.last_mtime)) [
      | inl same ↦ inl (rw (is, same) refl, rw (is, same) refl)
      | inr other ↦ elim (Result-cases (load_verify r.file w.anchor)) [
        | inr (e, bad) ↦ inl (rw (is, other, bad) refl, rw (is, other, reload, bad) refl)
        | inl (b, good) ↦ elim (Bool-cases (leb b.generation w.applied_gen)) [
          | inl older ↦
              inl (rw (is, other, good, older) refl, rw (is, other, reload, good, older) refl)
          | inr later ↦ inr (
            rw (is, other, reload, good, later) refl,
            rw (is, other, reload, good, later) (ground (arith, later)),
          )
        ]
      ]
    ]
  ]

  -- What the rounds add to the log.
  pub record IsLogged (w : Watcher P) (log : List AuditEvent) (rounds : List (Round × Option ℕ))
      (after : Watcher P × List AuditEvent) : Type 0 where
    pub events : List AuditEvent
    pub gained : after.1 ≡ log ++ events
    pub rising : Rising w.applied_gen (applied_gens events)
    pub in_force : after.0.applied_gen ≡ newest w.applied_gen (applied_gens events)
    pub same_watch : after.0 ≡ watch w (map (λ r. r.0) rounds)

  -- The log of the watcher only grows; the generations that it names as applied rise, from the one in
  -- force on, and the last of them is the one in force; and the watcher is the one without a log.
  pub watch_logged-IsLogged :
      (w : Watcher P) (log : List AuditEvent) (rounds : List (Round × Option ℕ))
      → IsLogged w log rounds (watch_logged w log rounds)
  unfolding watch_logged watch
  watch_logged-IsLogged w log [] = record {
    events = [];
    gained = sym (append-nil log);
    rising = tt;
    in_force = refl;
    same_watch = refl;
  }
  watch_logged-IsLogged w log ((r, unix) ∷ rounds) =
      let new = round_events w r unix in
      let w' = watch_round w r in
      let rest = watch_logged-IsLogged w' (log ++ new) rounds in
      let one = round_gens w r unix in
      record {
        events = new ++ rest.events;
        gained = rest.gained ∙ append_assoc log new rest.events;
        rising = subst (Rising w.applied_gen) (sym (applied_gens-append new rest.events)) (
            Rising-after w.applied_gen w'.applied_gen (applied_gens new) (applied_gens rest.events)
              one rest.rising);
        in_force =
            rest.in_force
            ∙ sym (
                ap (newest w.applied_gen) (applied_gens-append new rest.events)
                ∙ newest-after w.applied_gen w'.applied_gen (applied_gens new)
                    (applied_gens rest.events) one);
        same_watch = rest.same_watch;
      }
