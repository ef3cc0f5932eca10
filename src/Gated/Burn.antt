-- ===== src/Gated/Burn.antt =====
-- A one-time token opens once in the knock loop of spa-gated/src/main.rs.
use spa_device.Prelude.{
  ℕ, ◌≡◌, inl, inr, ap, ◌∙◌, true, List, [], ◌∷◌, take, map, none, some, ok, ℕ_eq,
}
use spa_device.Core.{Opened, opened, ClientPolicy}
use spa_device.Core.Admit.{admit-opened, after_open}
use spa_device.Core.Keeps.{admit-Keeps}
use spa_device.Grant.{Grant}
use spa_device.Bpf.{BpfMap}
use spa_device.Crypto.{Primitives, Agreement}
use spa_device.Crypto.Gate.{open_packet, gate_crypto}
use spa_device.Gated.Replay.{replay_guard}
use spa_device.Gated.Trust.{SharedTrust, lookup_policy, trust_store, lookup-burnt, lookup-gone}
use spa_device.Gated.Writer.{system_clock, gate_writer}
use spa_device.Gated.Daemon.{knock_buffer, Arrival, knocked, Daemon, read_clocks, knock, run}

module _ {P A : Type 0} ⦃dh : Agreement P⦄ ⦃aws : Primitives⦄ ⦃bpf : BpfMap A (List ℕ) Grant⦄ where
  knock-gone :
      (gk : Daemon P A) (c : Arrival) (token : List ℕ)
      → lookup_policy gk.trust token ≡ none
      → lookup_policy (knock gk c).1.trust token ≡ none
  unfolding knock
  knock-gone gk c token gone =
      elim (admit-Keeps (read_clocks gk c) (take knock_buffer c.datagram) c.source).trust_step [
        | inl same ↦ ap (λ (t : SharedTrust). lookup_policy t token) same ∙ gone
        | inr (k, burnt) ↦
            ap (λ (t : SharedTrust). lookup_policy t token) burnt
            ∙ lookup-gone gk.trust k token gone
      ]

  run-gone :
      (gk : Daemon P A) (arrivals : List Arrival) (token : List ℕ)
      → lookup_policy gk.trust token ≡ none
      → lookup_policy (run gk (map knocked arrivals)).trust token ≡ none
  unfolding run
  run-gone gk [] token gone = gone
  run-gone gk (c ∷ arrivals) token gone =
      run-gone (knock gk c).1 arrivals token (knock-gone gk c token gone)

  burnt_first :
      (gk : Daemon P A) (a : Arrival) (o : Opened) (policy : ClientPolicy)
      → lookup_policy gk.trust o.auth.key_thumbprint ≡ some policy
      → policy.single_use ≡ true
      → lookup_policy (after_open (read_clocks gk a) o policy a.source).trust o.auth.key_thumbprint
        ≡ none
  burnt_first gk a o policy known once =
      rw once (lookup-burnt gk.trust o.auth.key_thumbprint policy known once)

  -- After a knock has opened ports with a credential for one use, no knock that names the credential
  -- opens ports, whatever knocks come between, as long as the watcher writes nothing.
  pub knock-burns :
      (gk : Daemon P A) (a b : Arrival) (o o' : Opened) (policy : ClientPolicy)
      (ports later : List ℕ) (arrivals : List Arrival)
      → open_packet gk.crypto (take knock_buffer a.datagram) ≡ ok o
      → lookup_policy gk.trust o.auth.key_thumbprint ≡ some policy
      → policy.single_use ≡ true
      → (knock gk a).0 ≡ opened ports
      → open_packet
          (run (knock gk a).1 (map knocked arrivals)).crypto
          (take knock_buffer b.datagram)
        ≡ ok o'
      → o'.auth.key_thumbprint ≡ o.auth.key_thumbprint
      → ¬ ((knock (run (knock gk a).1 (map knocked arrivals)) b).0 ≡ opened later)
  unfolding knock
  knock-burns gk a b o o' policy ports later arrivals reads known once first reads' same second =
      let gk' = run (knock gk a).1 (map knocked arrivals) in
      let x = admit-opened (read_clocks gk a) (take knock_buffer a.datagram) a.source ports first in
      let y =
        admit-opened (read_clocks gk' b) (take knock_buffer b.datagram) b.source later second in
      let xo : x.o ≡ o = cc (reads, x.admissible.timely.decrypts) in
      let yo : y.o ≡ o' = cc (reads', y.admissible.timely.decrypts) in
      let xp : x.policy ≡ policy = cc (xo, known, x.admissible.known) in
      let burnt : lookup_policy (knock gk a).1.trust o.auth.key_thumbprint ≡ none =
        ap (λ (g : Daemon P A). lookup_policy g.trust o.auth.key_thumbprint)
          (rw (xo, xp) at x.after)
        ∙ burnt_first gk a o policy known once in
      let gone = run-gone (knock gk a).1 arrivals o.auth.key_thumbprint burnt in
      cc (gone, same, yo, y.admissible.known)
