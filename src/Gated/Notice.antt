-- ===== src/Gated/Notice.antt =====
-- The events that `watch_bundle` of spa-gated/src/main.rs logs in its rounds.
use spa_device.Prelude.{
  ℕ, ◌≡◌, ◌<◌, refl, ap, sym, ◌∙◌, leb, if◌then◌else◌, List, [], ◌∷◌, ◌++◌, append_assoc, length,
  Option, none, some, ok, err, ℕ_eq, list_eq,
}
use spa_device.Prelude.Text.{codes, to_decimal}
use spa_device.Bpf.{BpfMap}
use spa_device.Crypto.{Primitives}
use spa_device.Gated.Config.{Formats}
use spa_device.Gated.Bundle.{Bundle, BundleError, BundleFormat, load_verify}
use spa_device.Gated.Watch.{Watcher, Round, same_mtime, watch_round}
use spa_device.Gated.Audit.{
  AuditEvent, startup, floor, knock_event, bundle, control_plane, audit_bundle,
}

-- `e.to_string()`
pub record BundleText : Type 0 where
  pub to_string : BundleError → List ℕ

-- `{:?}` of a list of numbers, behind its bracket.
abbrev pub listed_ports : List ℕ → List ℕ
listed_ports [] = codes "]"
listed_ports (p ∷ []) = to_decimal p ++ codes "]"
listed_ports (p ∷ q ∷ ps) = to_decimal p ++ codes ", " ++ listed_ports (q ∷ ps)

abbrev pub applied_detail : Bundle → List ℕ
applied_detail b =
    to_decimal (length b.clients)
    ++ codes " clients, "
    ++ to_decimal (length b.tokens)
    ++ codes " tokens, ports ["
    ++ listed_ports b.protected_ports

-- What a bundle that was loaded is logged as.
abbrev pub loaded_events : Option ℕ → ℕ → Bundle → List AuditEvent
loaded_events unix applied_gen b =
    if leb b.generation applied_gen
    then audit_bundle unix (codes "ignored") (some b.generation)
        (some (codes "<= applied " ++ to_decimal applied_gen))
      ∷ []
    else audit_bundle unix (codes "applied") (some b.generation) (some (applied_detail b)) ∷ []

-- The generations that events name as applied.
abbrev pub applied_in : AuditEvent → List ℕ
applied_in (bundle ts_ms action (some generation) detail) =
    if list_eq action (codes "applied") then generation ∷ [] else []
applied_in (bundle ts_ms action none detail) = []
applied_in (startup ts_ms interface_name knock_port suite protected clients tokens nft_floor) = []
applied_in (floor ts_ms protected) = []
applied_in (knock_event ts_ms source outcome ports reason) = []
applied_in (control_plane ts_ms action detail) = []

abbrev pub applied_gens : List AuditEvent → List ℕ
applied_gens [] = []
applied_gens (e ∷ es) = applied_in e ++ applied_gens es

pub applied_gens-append :
    (es fs : List AuditEvent) → applied_gens (es ++ fs) ≡ applied_gens es ++ applied_gens fs
applied_gens-append [] fs = refl
applied_gens-append (e ∷ es) fs =
    ap (λ gs. applied_in e ++ gs) (applied_gens-append es fs)
    ∙ sym (append_assoc (applied_in e) (applied_gens es) (applied_gens fs))

-- Each is greater than the one before, and the first greater than `g`.
abbrev pub Rising : ℕ → List ℕ → Type 0
Rising g [] = Unit
Rising g (h ∷ hs) = (g < h) × Rising h hs

abbrev pub newest : ℕ → List ℕ → ℕ
newest g [] = g
newest g (h ∷ hs) = newest h hs

module _ {P : Type 0} ⦃map : BpfMap P ℕ ℕ⦄ ⦃aws : Primitives⦄ ⦃formats : Formats⦄
    ⦃toml : BundleFormat⦄ ⦃texts : BundleText⦄ where
  unfoldable pub round_events : Watcher P → Round → Option ℕ → List AuditEvent
  round_events w r unix = elim r.mtime [
    | none ↦ []
    | some t ↦ if same_mtime t w.last_mtime then [] else elim (load_verify r.file w.anchor) [
      | err e ↦ audit_bundle unix (codes "rejected") none (some (texts.to_string e)) ∷ []
      | ok b ↦ loaded_events unix w.applied_gen b
    ]
  ]

  -- The rounds, each with the time that the clock reads in it, and with the log.
  unfoldable pub watch_logged :
      Watcher P → List AuditEvent → List (Round × Option ℕ) → Watcher P × List AuditEvent
  unfolding round_events watch_round
  watch_logged w log [] = (w, log)
  watch_logged w log (r ∷ rounds) =
      watch_logged (watch_round w r.0) (log ++ round_events w r.0 r.1) rounds
