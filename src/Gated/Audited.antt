-- ===== src/Gated/Audited.antt =====
-- The audit log of spa-gated/src/audit.rs tells what the knock loop of spa-gated/src/main.rs did.
use spa_device.Prelude.{
  ℕ, suc, max, ◌≡◌, refl, ap, sym, ◌∙◌, true, List, [], ◌∷◌, ◌++◌, append_assoc, append-nil, length,
  take, none, some, inl, inr, Result-cases,
}
use spa_device.Core.{IpAddr, opened, rejected, Reject}
use spa_device.Gated.Config.{ClientEntry, TokenEntry}
use spa_device.Prelude.Text.{codes}
use spa_device.Core.Admit.{admit-opened}
use spa_device.Core.Refuse.{after_reject, admit-rejected}
use spa_device.Core.Keeps.{decided, admit-Keeps}
use spa_device.Bpf.{BpfMap}
use spa_device.Grant.{Grant}
use spa_device.Crypto.{Primitives, Agreement}
use spa_device.Crypto.Gate.{gate_crypto, open_packet}
use spa_device.Gated.Nft.{NftCommand, normalize, element, nft_allow}
use spa_device.Gated.Replay.{replay_guard}
use spa_device.Gated.Trust.{trust_store}
use spa_device.Gated.Writer.{WriterAt, system_clock, gate_writer, div_ceil, open_gate}
use spa_device.Gated.Daemon.{
  knock_buffer, Arrival, Event, knocked, clients_set, tokens_set, Daemon, read_clocks, knock, step,
  run,
}
use spa_device.Gated.Audit.{
  AuditEvent, startup, floor, knock_event, bundle, control_plane, ts_ms, reason_name, audit_knock,
  serve,
}

-- The element that mirrors a grant of `pinhole` nanoseconds for a source.
abbrev mirror : ℕ → IpAddr → NftCommand
mirror pinhole source = element (normalize source) (max (div_ceil pinhole 1000000000) 1)

-- What an event says was granted.
abbrev pub granted : ℕ → AuditEvent → List NftCommand
granted pinhole (knock_event ts source outcome (some ports) reason) = mirror pinhole source ∷ []
granted pinhole (knock_event ts source outcome none reason) = []
granted pinhole (startup ts i p s ports c t n) = []
granted pinhole (floor ts ports) = []
granted pinhole (bundle ts action generation detail) = []
granted pinhole (control_plane ts action detail) = []

abbrev all_granted : ℕ → List AuditEvent → List NftCommand
all_granted pinhole [] = []
all_granted pinhole (e ∷ es) = granted pinhole e ++ all_granted pinhole es

all_granted-append :
    (pinhole : ℕ) (e : AuditEvent) (es : List AuditEvent)
    → all_granted pinhole (e ∷ []) ++ all_granted pinhole es ≡ all_granted pinhole (e ∷ es)
all_granted-append pinhole e es =
    ap (λ l. l ++ all_granted pinhole es) (append-nil (granted pinhole e))

-- The knocks among what happens.
abbrev pub knocks : List Event → ℕ
knocks [] = 0
knocks (knocked a ∷ es) = suc (knocks es)
knocks (clients_set clients ∷ es) = knocks es
knocks (tokens_set tokens ∷ es) = knocks es

open_gate-nft :
    {A : Type 0} ⦃bpf : BpfMap A (List ℕ) Grant⦄ (w : WriterAt A) (source : IpAddr) (ports : List ℕ)
    (ttl : ℕ)
    → w.writer.nft_floor ≡ true
    → ((open_gate w source ports ttl).nft ≡ w.nft ++ mirror ttl source ∷ [])
      × ((open_gate w source ports ttl).writer.nft_floor ≡ true)
unfolding open_gate nft_allow
open_gate-nft w source ports ttl on = (rw on refl, on)

module _ {P A : Type 0} ⦃dh : Agreement P⦄ ⦃aws : Primitives⦄ ⦃bpf : BpfMap A (List ℕ) Grant⦄ where
  -- A gatekeeper that rejects leaves its gate alone.
  gate-after_reject :
      (gk : Daemon P A) (packet : List ℕ) (why : Reject)
      → (after_reject gk packet why).gate ≡ gk.gate
  gate-after_reject gk packet Reject.replay = elim (Result-cases (open_packet gk.crypto packet)) [
    | inl (o, good) ↦ rw (after_reject, good) refl
    | inr (e, bad) ↦ rw (after_reject, bad) refl
  ]
  gate-after_reject gk packet Reject.undecryptable = refl
  gate-after_reject gk packet Reject.wrong_gate = refl
  gate-after_reject gk packet Reject.expired = refl
  gate-after_reject gk packet Reject.unknown_client = refl
  gate-after_reject gk packet Reject.bad_signature = refl
  gate-after_reject gk packet Reject.port_not_allowed = refl

  -- From one gatekeeper to the next, the commands of the events were given.
  abbrev Mirrors : Daemon P A → List AuditEvent → Daemon P A → Type 0
  Mirrors gk events gk' =
      (gk'.gate.nft ≡ gk.gate.nft ++ all_granted gk.config.pinhole_nanos events)
      × (gk'.gate.writer.nft_floor ≡ true)
      × (gk'.config ≡ gk.config)

  knock-Mirrors :
      (gk : Daemon P A) (a : Arrival)
      → gk.gate.writer.nft_floor ≡ true
      → Mirrors gk (audit_knock a.unix a.source (knock gk a).0 ∷ []) (knock gk a).1
  unfolding knock audit_knock
  knock-Mirrors gk a on =
      let read = read_clocks gk a in
      let packet = take knock_buffer a.datagram in
      let kept = (admit-Keeps read packet a.source).config in
      elim (decided (knock gk a).0) [
        | inl (ports, e) ↦
            let x = admit-opened read packet a.source ports e in
            let opens =
              open_gate-nft read.gate a.source x.o.auth.ports gk.config.pinhole_nanos on in
            rw e (
              ap (λ (g : Daemon P A). g.gate.nft) x.after ∙ opens.0,
              ap (λ (g : Daemon P A). g.gate.writer.nft_floor) x.after ∙ opens.1,
              kept,
            )
        | inr (why, e) ↦
            let same =
              ap (λ (g : Daemon P A). g.gate) (admit-rejected read packet a.source why e)
              ∙ gate-after_reject read packet why in
            rw e (
              ap (λ (w : WriterAt A). w.nft) same ∙ sym (append-nil gk.gate.nft),
              ap (λ (w : WriterAt A). w.writer.nft_floor) same ∙ on,
              kept,
            )
      ]

  -- The events that tell what the gatekeeper decided on each knock, one after another, each from the
  -- gatekeeper that what happened before has left.
  pub data Told : Daemon P A → List Event → List AuditEvent → Type 0 where
    quiet : {gk : Daemon P A} → Told gk [] []
    opens :
        {gk : Daemon P A} {a : Arrival} {ports : List ℕ} {es : List Event}
        {events : List AuditEvent}
        → (knock gk a).0 ≡ opened ports
        → Told (knock gk a).1 es events
        → Told gk
            (knocked a ∷ es)
            (knock_event (ts_ms a.unix) a.source (codes "open") (some ports) none ∷ events)
    denies :
        {gk : Daemon P A} {a : Arrival} {why : Reject} {es : List Event} {events : List AuditEvent}
        → (knock gk a).0 ≡ rejected why
        → Told (knock gk a).1 es events
        → Told gk (knocked a ∷ es) (
            knock_event (ts_ms a.unix) a.source (codes "deny") none (some (reason_name why))
            ∷ events)
    sets_clients :
        {gk : Daemon P A} {clients : List ClientEntry} {es : List Event} {events : List AuditEvent}
        → Told (step gk (clients_set clients)) es events
        → Told gk (clients_set clients ∷ es) events
    sets_tokens :
        {gk : Daemon P A} {tokens : List TokenEntry} {es : List Event} {events : List AuditEvent}
        → Told (step gk (tokens_set tokens)) es events
        → Told gk (tokens_set tokens ∷ es) events

  knock-Told :
      (gk : Daemon P A) (a : Arrival) (es : List Event) (events : List AuditEvent)
      → Told (knock gk a).1 es events
      → Told gk (knocked a ∷ es) (audit_knock a.unix a.source (knock gk a).0 ∷ events)
  unfolding audit_knock
  knock-Told gk a es events rest = elim (decided (knock gk a).0) [
    | inl (ports, e) ↦ rw e (opens e rest)
    | inr (why, e) ↦ rw e (denies e rest)
  ]

  -- What the log has gained, and what it says.
  pub record IsAudited (gk : Daemon P A) (log : List AuditEvent) (es : List Event)
      (after : Daemon P A × List AuditEvent) : Type 0 where
    pub events : List AuditEvent
    pub gained : after.1 ≡ log ++ events
    pub one_each : length events ≡ knocks es
    pub told : Told gk es events
    pub mirrored : after.0.gate.nft ≡ gk.gate.nft ++ all_granted gk.config.pinhole_nanos events
    pub floor_kept : after.0.gate.writer.nft_floor ≡ true
    pub same_run : after.0 ≡ run gk es

  -- While the floor is on, the log gains one event for each knock, in their order: with the time and
  -- the source of the knock, and with "open" and the ports if the gatekeeper opened, or with "deny" and
  -- the reason if it rejected. The events that name ports are the grants that were mirrored into
  -- nftables, in their order too; and the gatekeeper is the one without a log.
  pub serve-IsAudited :
      (gk : Daemon P A) (log : List AuditEvent) (es : List Event)
      → gk.gate.writer.nft_floor ≡ true
      → IsAudited gk log es (serve gk log es)
  unfolding serve run
  serve-IsAudited gk log [] on = record {
    events = [];
    gained = sym (append-nil log);
    one_each = refl;
    told = quiet;
    mirrored = sym (append-nil gk.gate.nft);
    floor_kept = on;
    same_run = refl;
  }
  serve-IsAudited gk log (knocked a ∷ es) on =
      let e = audit_knock a.unix a.source (knock gk a).0 in
      let (first, kept, config) = knock-Mirrors gk a on in
      let rest = serve-IsAudited (knock gk a).1 (log ++ e ∷ []) es kept in
      record {
        events = e ∷ rest.events;
        gained = rest.gained ∙ append_assoc log (e ∷ []) rest.events;
        one_each = ap suc rest.one_each;
        told = knock-Told gk a es rest.events rest.told;
        mirrored =
            rest.mirrored
            ∙ rw
                (
                  first,
                  config,
                  append_assoc gk.gate.nft (all_granted gk.config.pinhole_nanos (e ∷ []))
                      (all_granted gk.config.pinhole_nanos rest.events),
                  all_granted-append gk.config.pinhole_nanos e rest.events,
                )
                refl;
        floor_kept = rest.floor_kept;
        same_run = rest.same_run;
      }
  serve-IsAudited gk log (clients_set clients ∷ es) on =
      let rest = serve-IsAudited (step gk (clients_set clients)) log es on in
      record {
        events = rest.events;
        gained = rest.gained;
        one_each = rest.one_each;
        told = sets_clients rest.told;
        mirrored = rest.mirrored;
        floor_kept = rest.floor_kept;
        same_run = rest.same_run;
      }
  serve-IsAudited gk log (tokens_set tokens ∷ es) on =
      let rest = serve-IsAudited (step gk (tokens_set tokens)) log es on in
      record {
        events = rest.events;
        gained = rest.gained;
        one_each = rest.one_each;
        told = sets_tokens rest.told;
        mirrored = rest.mirrored;
        floor_kept = rest.floor_kept;
        same_run = rest.same_run;
      }
