-- ===== src/Gated/Rollback.antt =====
-- The bundle watcher of spa-gated/src/main.rs applies signed bundles of growing generation only, and
-- keeps the map of the cloaked ports in step with the ports that it believes in.
use spa_device.Prelude.{
  ℕ, ◌≤◌, ◌<◌, ◌≡◌, ◌⊎◌, inl, inr, refl, ap, ◌∙◌, List, [], ◌∷◌, Option, some, ok, leb, ℕ_eq,
  Bool-cases, Option-cases, Result-cases, arith, subst,
}
use spa_device.Wire.{Suite}
use spa_device.Bpf.{BpfMap}
use spa_device.Crypto.{Primitives}
use spa_device.Gated.Config.{Formats}
use spa_device.Gated.Bundle.{Bundle, BundleFormat, load_verify, IsSigned, load_verify-IsSigned}
use spa_device.Gated.Trust.{SharedTrust, insert_clients, insert_tokens, set_clients, set_tokens}
use spa_device.Gated.Watch.{
  same_mtime, to_set, Watcher, Round, apply_bundle, reload, watch_round, watch,
}

-- The policy that a bundle states.
abbrev pub bundle_trust : SharedTrust → Bundle → SharedTrust
bundle_trust trust b = record {
  clients = insert_clients [] b.clients;
  tokens = insert_tokens [] b.tokens;
  suite = trust.suite;
}

module _ {P : Type 0} ⦃map : BpfMap P ℕ ℕ⦄ ⦃aws : Primitives⦄ ⦃formats : Formats⦄
    ⦃toml : BundleFormat⦄ where
  -- The policy of `w`, untouched.
  pub record SamePolicy (w w' : Watcher P) : Type 0 where
    pub anchor : w'.anchor ≡ w.anchor
    pub trust : w'.trust ≡ w.trust
    pub protected : w'.protected ≡ w.protected
    pub known_ports : w'.known_ports ≡ w.known_ports
    pub applied_gen : w'.applied_gen ≡ w.applied_gen

  -- The policy of a signed bundle that is newer than what `w` has applied.
  pub record NewPolicy (w w' : Watcher P) : Type 0 where
    pub file : Option (List ℕ)
    pub bundle : Bundle
    pub signed : IsSigned file w.anchor
    pub loaded : load_verify file w.anchor ≡ ok bundle
    pub newer : w.applied_gen < bundle.generation
    pub anchor : w'.anchor ≡ w.anchor
    pub trust : w'.trust ≡ bundle_trust w.trust bundle
    pub known_ports : w'.known_ports ≡ to_set bundle.protected_ports
    pub applied_gen : w'.applied_gen ≡ bundle.generation

  abbrev Policy : Watcher P → Watcher P → Type 0
  Policy w w' = SamePolicy w w' ⊎ NewPolicy w w'

  policy_refl : (w : Watcher P) → SamePolicy w w
  policy_refl w = record {
    anchor = refl;
    trust = refl;
    protected = refl;
    known_ports = refl;
    applied_gen = refl;
  }

  -- The modification time is no part of the policy.
  seen_policy : (w : Watcher P) (t : ℕ) → SamePolicy w (record w { last_mtime = some t })
  seen_policy w t = record {
    anchor = refl;
    trust = refl;
    protected = refl;
    known_ports = refl;
    applied_gen = refl;
  }

  apply_policy :
      (w : Watcher P) (file : Option (List ℕ)) (b : Bundle)
      → load_verify file w.anchor ≡ ok b
      → w.applied_gen < b.generation
      → NewPolicy w (apply_bundle w b)
  unfolding apply_bundle set_clients set_tokens
  apply_policy w file b good newer = record {
    file = file;
    bundle = b;
    signed = load_verify-IsSigned file w.anchor b good;
    loaded = good;
    newer = newer;
    anchor = refl;
    trust = refl;
    known_ports = refl;
    applied_gen = refl;
  }

  reload-Policy : (w : Watcher P) (file : Option (List ℕ)) → Policy w (reload w file)
  unfolding reload
  reload-Policy w file = elim (Result-cases (load_verify file w.anchor)) [
    | inr (e, bad) ↦ rw (reload, bad) (inl (policy_refl w))
    | inl (b, good) ↦ elim (Bool-cases (leb b.generation w.applied_gen)) [
      | inl old ↦ rw (reload, good, old) (inl (policy_refl w))
      | inr new ↦ rw (reload, good, new) (inr (apply_policy w file b good (ground (arith, new))))
    ]
  ]

  same_then : (w w' w'' : Watcher P) → SamePolicy w w' → SamePolicy w' w'' → SamePolicy w w''
  same_then w w' w'' s t = record {
    anchor = t.anchor ∙ s.anchor;
    trust = t.trust ∙ s.trust;
    protected = t.protected ∙ s.protected;
    known_ports = t.known_ports ∙ s.known_ports;
    applied_gen = t.applied_gen ∙ s.applied_gen;
  }

  new_then : (w w' w'' : Watcher P) → NewPolicy w w' → SamePolicy w' w'' → NewPolicy w w''
  new_then w w' w'' n t = record {
    file = n.file;
    bundle = n.bundle;
    signed = n.signed;
    loaded = n.loaded;
    newer = n.newer;
    anchor = t.anchor ∙ n.anchor;
    trust = t.trust ∙ n.trust;
    known_ports = t.known_ports ∙ n.known_ports;
    applied_gen = t.applied_gen ∙ n.applied_gen;
  }

  then_new :
      (w w' w'' : Watcher P)
      → w'.anchor ≡ w.anchor
      → w'.trust.suite ≡ w.trust.suite
      → w.applied_gen ≤ w'.applied_gen
      → NewPolicy w' w''
      → NewPolicy w w''
  then_new w w' w'' anchor suite older n = record {
    file = n.file;
    bundle = n.bundle;
    signed = subst (IsSigned n.file) anchor n.signed;
    loaded = subst (λ a. load_verify n.file a ≡ ok n.bundle) anchor n.loaded;
    newer = omega (arith, older, n.newer);
    anchor = n.anchor ∙ anchor;
    trust =
        n.trust
        ∙ ap
            (λ (s : Suite). record {
              clients = insert_clients [] n.bundle.clients;
              tokens = insert_tokens [] n.bundle.tokens;
              suite = s;
            })
            suite;
    known_ports = n.known_ports;
    applied_gen = n.applied_gen;
  }

  then-Policy : (w w' w'' : Watcher P) → Policy w w' → Policy w' w'' → Policy w w''
  then-Policy w w' w'' (inl s) (inl t) = inl (same_then w w' w'' s t)
  then-Policy w w' w'' (inr n) (inl t) = inr (new_then w w' w'' n t)
  then-Policy w w' w'' (inl s) (inr n) = inr (
      then_new w w' w'' s.anchor (ap (λ (t : SharedTrust). t.suite) s.trust)
        (omega (arith, s.applied_gen)) n)
  then-Policy w w' w'' (inr m) (inr n) = inr (
      then_new w w' w'' m.anchor (ap (λ (t : SharedTrust). t.suite) m.trust)
        (omega (arith, m.newer, m.applied_gen)) n)

  round-Policy : (w : Watcher P) (r : Round) → Policy w (watch_round w r)
  unfolding watch_round
  round-Policy w r = elim (Option-cases r.mtime) [
    | inl unreadable ↦ rw (watch_round, unreadable) (inl (policy_refl w))
    | inr (t, found) ↦ elim (Bool-cases (same_mtime t w.last_mtime)) [
      | inl same ↦ rw (watch_round, found, same) (inl (policy_refl w))
      | inr other ↦
          rw (watch_round, found, other)
            (then-Policy w (record w { last_mtime = some t }) _ (inl (seen_policy w t))
              (reload-Policy (record w { last_mtime = some t }) r.file))
    ]
  ]

  -- After any rounds the policy is the one before them, or that of a file whose signature verifies
  -- under the anchor and whose generation is greater than the one applied before them.
  pub watch-policy :
      (w : Watcher P) (rounds : List Round)
      → SamePolicy w (watch w rounds) ⊎ NewPolicy w (watch w rounds)
  unfolding watch
  watch-policy w [] = inl (policy_refl w)
  watch-policy w (r ∷ rounds) =
      then-Policy w (watch_round w r) (watch (watch_round w r) rounds) (round-Policy w r)
        (watch-policy (watch_round w r) rounds)
