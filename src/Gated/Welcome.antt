-- ===== src/Gated/Welcome.antt =====
-- From the client to the open port: a provisioned client of spa-crypto/src/lib.rs knocks at the
-- daemon of spa-gated/src/main.rs.
use spa_device.Prelude.{
  ℕ, ℕ_eq, List_eq, ◌+◌, ◌≤◌, ◌≡◌, refl, ap, ◌∙◌, List, take, take_all, Option, none, some, ok,
  arith,
}
use spa_device.Prelude.Assoc.{lookup}
use spa_device.Wire.{Suite}
use spa_device.Core.{Opened, Decision, opened}
use spa_device.Core.Admit.{Permitted, admit-admissible}
use spa_device.Grant.{Grant}
use spa_device.Bpf.{BpfMap}
use spa_device.Crypto.{AgreementAlg, Primitives, Agreement, Signing, verify_signature}
use spa_device.Crypto.Gate.{gate_crypto, open_packet}
use spa_device.Crypto.Client.{ClientKey, KnockRequest, from_key_pairs, seal}
use spa_device.Crypto.Laws.{LawfulPrimitives, LawfulAgreement, LawfulSigning, IsGateKey, DrawsKeys}
use spa_device.Crypto.Knock.{IsRequest, signed, open-seal}
use spa_device.Crypto.Size.{seal-HasKnockSize}
use spa_device.Gated.Replay.{admit_nonce-new, replay_guard}
use spa_device.Gated.Trust.{SharedTrust, lookup_policy, client_policy, trust_store}
use spa_device.Gated.Writer.{since_epoch, unix_nanos, system_clock, gate_writer}
use spa_device.Gated.Daemon.{knock_buffer, Arrival, Daemon, read_clocks, knock}

-- A client is found under its thumbprint before any token is.
found_client :
    (trust : SharedTrust) (thumbprint public ports : List ℕ)
    → lookup trust.clients thumbprint ≡ some (public, ports)
    → lookup_policy trust thumbprint ≡ some (client_policy trust.suite (public, ports))
unfolding lookup_policy
found_client trust thumbprint public ports h = rw (lookup_policy, h) refl

module _ {P A E D : Type 0} ⦃dh : Agreement P⦄ ⦃aws : Primitives⦄ ⦃signing : Signing E D⦄ where
  -- What the daemon knows of a client, and a request that suits it.
  pub record IsProvisioned (gk : Daemon P A) (a : Arrival) (client : ClientKey E D)
      (req : KnockRequest) : Type 0 where
    pub gate_key : IsGateKey gk.crypto
    pub suite : client.suite ≡ gk.crypto.suite
    pub trust_suite : gk.trust.suite ≡ gk.crypto.suite
    pub allowed : List ℕ
    pub known : lookup gk.trust.clients client.thumbprint ≡ some (client.public, allowed)
    pub typed : IsRequest req
    pub for_gate : req.gate_id ≡ gk.config.gate_id
    pub permitted : Permitted req.ports allowed
    pub not_old : unix_nanos (since_epoch a.unix) ≤ req.timestamp_nanos + gk.config.skew_nanos
    pub not_early : req.timestamp_nanos ≤ unix_nanos (since_epoch a.unix) + gk.config.skew_nanos
    pub unseen : lookup gk.replay.0.seen req.nonce ≡ none

module _ {P A E D : Type 0} ⦃dh : Agreement P⦄ ⦃aws : Primitives⦄ ⦃signing : Signing E D⦄
    ⦃bpf : BpfMap A (List ℕ) Grant⦄ (lawful : LawfulPrimitives aws) (agrees : LawfulAgreement dh)
    (signs : LawfulSigning aws signing) where
  -- The knock of a provisioned client opens the ports that it asks for: if it is sealed to the gate
  -- with the gate's id, a timestamp within the skew, permitted ports and a nonce that is not in the
  -- cache.
  pub knock-opened :
      (gk : Daemon P A) (a : Arrival) (suite : Suite) (e : Option E) (d : Option D)
      (client : ClientKey E D) (req : KnockRequest) (seed : ℕ) (drawn : AgreementAlg → Option P)
      → from_key_pairs suite e d ≡ ok client
      → DrawsKeys drawn
      → IsProvisioned gk a client req
      → seal client gk.crypto.public req seed drawn ≡ ok a.datagram
      → (knock gk a).0 ≡ opened req.ports
  unfolding knock
  knock-opened gk a suite e d client req seed drawn built draws p sealed =
      let size =
        seal-HasKnockSize lawful agrees signs suite e d client gk.crypto.public req seed drawn
          a.datagram draws p.typed built sealed in
      let whole : take knock_buffer a.datagram ≡ a.datagram =
        take_all knock_buffer a.datagram (omega (arith, size.1.1)) in
      let (region, mac, s, opens, verified) =
        open-seal lawful signs agrees gk.crypto drawn req seed suite e d client a.datagram
          p.gate_key draws p.typed built p.suite sealed in
      let o : Opened = record { auth = signed req client.thumbprint mac; signing_bytes = region } in
      let policy = client_policy gk.trust.suite (client.public, p.allowed) in
      ap (λ (r : Decision × Daemon P A). r.0)
        (admit-admissible (read_clocks gk a) (take knock_buffer a.datagram) a.source o policy
          (record {
            timely = record {
              decrypts = ap (open_packet gk.crypto) whole ∙ opens;
              for_gate = p.for_gate;
              not_old = p.not_old;
              not_early = p.not_early;
            };
            known = found_client gk.trust client.thumbprint client.public p.allowed p.known;
            genuine =
                ap (λ c. verify_signature c client.public region mac) p.trust_suite ∙ verified;
            permitted = p.permitted;
            fresh = admit_nonce-new gk.replay.0 a.instant req.nonce p.unseen;
          }))
