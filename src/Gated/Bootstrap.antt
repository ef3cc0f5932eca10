-- ===== src/Gated/Bootstrap.antt =====
-- From the enroller to the open port: an endpoint that holds a token of spa-gated/src/adapters.rs
-- seals one knock with it (seal_psk of spa-crypto/src/lib.rs).
use spa_device.Prelude.{
  ℕ, ℕ_eq, List_eq, ◌+◌, ◌≤◌, ◌≡◌, refl, ap, ◌∙◌, List, take, take_all, Option, none, some, ok,
  arith,
}
use spa_device.Prelude.Assoc.{lookup}
use spa_device.Prelude.Bytes.{IsArray}
use spa_device.Wire.{thumbprint_len}
use spa_device.Core.{Opened, Decision, opened}
use spa_device.Core.Admit.{Permitted, admit-admissible}
use spa_device.Grant.{Grant}
use spa_device.Bpf.{BpfMap}
use spa_device.Crypto.{AgreementAlg, Primitives, Agreement, mac_sha512}
use spa_device.Crypto.Gate.{gate_crypto, open_packet}
use spa_device.Crypto.Client.{KnockRequest, seal_psk}
use spa_device.Crypto.Laws.{LawfulPrimitives, LawfulAgreement, IsGateKey, DrawsKeys}
use spa_device.Crypto.Knock.{IsRequest, signed, open-seal_psk}
use spa_device.Crypto.Size.{seal_psk-HasKnockSize}
use spa_device.Gated.Replay.{admit_nonce-new, replay_guard}
use spa_device.Gated.Trust.{SharedTrust, lookup_policy, token_policy, trust_store, lookup-burnt}
use spa_device.Gated.Writer.{since_epoch, unix_nanos, system_clock, gate_writer}
use spa_device.Gated.Daemon.{knock_buffer, Arrival, Daemon, read_clocks, knock}

-- A token is found if no client has its id for a thumbprint.
found_token :
    (trust : SharedTrust) (token_id secret ports : List ℕ)
    → lookup trust.clients token_id ≡ none
    → lookup trust.tokens token_id ≡ some (secret, ports)
    → lookup_policy trust token_id ≡ some (token_policy trust.suite (secret, ports))
unfolding lookup_policy
found_token trust token_id secret ports no_client h = rw (lookup_policy, no_client, h) refl

module _ {P A : Type 0} ⦃dh : Agreement P⦄ where
  -- What the daemon knows of a token, and a request that suits it.
  pub record IsIssued (gk : Daemon P A) (a : Arrival) (secret token_id : List ℕ)
      (req : KnockRequest) : Type 0 where
    pub gate_key : IsGateKey gk.crypto
    pub allowed : List ℕ
    pub no_client : lookup gk.trust.clients token_id ≡ none
    pub known : lookup gk.trust.tokens token_id ≡ some (secret, allowed)
    pub id_length : IsArray thumbprint_len token_id
    pub typed : IsRequest req
    pub for_gate : req.gate_id ≡ gk.config.gate_id
    pub permitted : Permitted req.ports allowed
    pub not_old : unix_nanos (since_epoch a.unix) ≤ req.timestamp_nanos + gk.config.skew_nanos
    pub not_early : req.timestamp_nanos ≤ unix_nanos (since_epoch a.unix) + gk.config.skew_nanos
    pub unseen : lookup gk.replay.0.seen req.nonce ≡ none

module _ {P A : Type 0} ⦃dh : Agreement P⦄ ⦃aws : Primitives⦄ ⦃bpf : BpfMap A (List ℕ) Grant⦄
    (lawful : LawfulPrimitives aws) (agrees : LawfulAgreement dh) where
  -- The knock of an endpoint that holds a token opens the ports that it asks for and burns the token:
  -- if it is sealed to the gate with the gate's id, a timestamp within the skew, permitted ports and
  -- a nonce that is not in the cache, and no client has the token's id for a thumbprint.
  pub knock-enrolled :
      (gk : Daemon P A) (a : Arrival) (secret token_id : List ℕ) (req : KnockRequest)
      (drawn : AgreementAlg → Option P)
      → DrawsKeys drawn
      → IsIssued gk a secret token_id req
      → seal_psk gk.crypto.public gk.crypto.suite secret token_id req drawn ≡ ok a.datagram
      → ((knock gk a).0 ≡ opened req.ports) × (lookup_policy (knock gk a).1.trust token_id ≡ none)
  unfolding knock
  knock-enrolled gk a secret token_id req drawn draws p sealed =
      let size =
        seal_psk-HasKnockSize lawful agrees gk.crypto.suite gk.crypto.public secret token_id req
          drawn a.datagram draws p.typed p.id_length sealed in
      let whole : take knock_buffer a.datagram ≡ a.datagram =
        take_all knock_buffer a.datagram (omega (arith, size.1.1)) in
      let (region, s, opens, verified) =
        open-seal_psk lawful agrees gk.crypto drawn req secret token_id a.datagram p.gate_key draws
          p.typed p.id_length sealed in
      let o : Opened = record {
        auth = signed req token_id (mac_sha512 secret region);
        signing_bytes = region;
      } in
      let policy = token_policy gk.trust.suite (secret, p.allowed) in
      let found = found_token gk.trust token_id secret p.allowed p.no_client p.known in
      let admitted =
        admit-admissible (read_clocks gk a) (take knock_buffer a.datagram) a.source o policy
          (record {
            timely = record {
              decrypts = ap (open_packet gk.crypto) whole ∙ opens;
              for_gate = p.for_gate;
              not_old = p.not_old;
              not_early = p.not_early;
            };
            known = found;
            genuine = verified;
            permitted = p.permitted;
            fresh = admit_nonce-new gk.replay.0 a.instant req.nonce p.unseen;
          }) in
      (
        ap (λ (r : Decision × Daemon P A). r.0) admitted,
        ap (λ (r : Decision × Daemon P A). lookup_policy r.1.trust token_id) admitted
            ∙ lookup-burnt gk.trust token_id policy found refl,
      )
