-- ===== src/Gated/Audit.antt =====
-- spa-gated/src/audit.rs: the events of the audit log; and the knock loop of spa-gated/src/main.rs with
-- the event that it writes for each knock. An event is a value here; serde_json makes a line of it.
use spa_device.Prelude.{ℕ, ◌/◌, Bool, List, [], ◌∷◌, ◌++◌, Option, none, some}
use spa_device.Prelude.Text.{codes}
use spa_device.Core.{
  IpAddr, Decision, opened, rejected, Reject, undecryptable, wrong_gate, expired, unknown_client,
  bad_signature, port_not_allowed, replay,
}
use spa_device.Bpf.{BpfMap}
use spa_device.Grant.{Grant}
use spa_device.Crypto.{Primitives, Agreement}
use spa_device.Gated.Daemon.{Event, knocked, clients_set, tokens_set, Daemon, knock, step}

pub data AuditEvent : Type 0 where
  startup :
      (ts_ms : ℕ) (interface_name : List ℕ) (knock_port : ℕ) (suite : List ℕ) (protected : List ℕ)
      (clients tokens : ℕ) (nft_floor : Bool)
      → AuditEvent
  floor : (ts_ms : ℕ) (protected : List ℕ) → AuditEvent
  knock_event :
      (ts_ms : ℕ) (source : IpAddr) (outcome : List ℕ) (ports : Option (List ℕ))
      (reason : Option (List ℕ))
      → AuditEvent
  bundle :
      (ts_ms : ℕ) (action : List ℕ) (generation : Option ℕ) (detail : Option (List ℕ)) → AuditEvent
  control_plane : (ts_ms : ℕ) (action : List ℕ) (detail : List ℕ) → AuditEvent

-- `duration_since(UNIX_EPOCH)` in milliseconds, or 0 for its error.
abbrev pub ts_ms : Option ℕ → ℕ
ts_ms none = 0
ts_ms (some nanos) = nanos / 1000000

-- `{reason:?}`
abbrev pub reason_name : Reject → List ℕ
reason_name undecryptable = codes "Undecryptable"
reason_name wrong_gate = codes "WrongGate"
reason_name expired = codes "Expired"
reason_name unknown_client = codes "UnknownClient"
reason_name bad_signature = codes "BadSignature"
reason_name port_not_allowed = codes "PortNotAllowed"
reason_name replay = codes "Replay"

-- `audit::knock`
unfoldable pub audit_knock : Option ℕ → IpAddr → Decision → AuditEvent
audit_knock unix source (opened ports) =
    knock_event (ts_ms unix) source (codes "open") (some ports) none
audit_knock unix source (rejected reason) =
    knock_event (ts_ms unix) source (codes "deny") none (some (reason_name reason))

-- `audit::control_plane`, `audit::bundle` and `audit::floor`.
abbrev pub audit_control_plane : Option ℕ → List ℕ → List ℕ → AuditEvent
audit_control_plane unix action detail = control_plane (ts_ms unix) action detail

abbrev pub audit_bundle : Option ℕ → List ℕ → Option ℕ → Option (List ℕ) → AuditEvent
audit_bundle unix action generation detail = bundle (ts_ms unix) action generation detail

abbrev pub audit_floor : Option ℕ → List ℕ → AuditEvent
audit_floor unix protected = floor (ts_ms unix) protected

-- `audit::startup`.
abbrev pub audit_startup : Option ℕ → List ℕ → ℕ → List ℕ → List ℕ → ℕ → ℕ → Bool → AuditEvent
audit_startup unix interface_name knock_port suite protected clients tokens nft_floor =
    startup (ts_ms unix) interface_name knock_port suite protected clients tokens nft_floor

module _ {P A : Type 0} ⦃dh : Agreement P⦄ ⦃aws : Primitives⦄ ⦃map : BpfMap A (List ℕ) Grant⦄ where
  -- The loop on what happens while it runs, with the log; the newest event is the last.
  unfoldable pub serve : Daemon P A → List AuditEvent → List Event → Daemon P A × List AuditEvent
  unfolding audit_knock step knock
  serve gk log [] = (gk, log)
  serve gk log (knocked a ∷ es) =
      let decided = knock gk a in
      serve decided.1 (log ++ audit_knock a.unix a.source decided.0 ∷ []) es
  serve gk log (clients_set clients ∷ es) = serve (step gk (clients_set clients)) log es
  serve gk log (tokens_set tokens ∷ es) = serve (step gk (tokens_set tokens)) log es
