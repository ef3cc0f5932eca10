-- ===== src/Ebpf/Flows.antt =====
-- The tracked flows of spa-ebpf/src/main.rs over a run: packets come in, and the daemon writes the
-- maps that it owns.
use spa_device.Prelude.{
  ℕ, ◌↔◌, bit_and, bit_or, ◌+◌, ◌≡◌, ◌⊎◌, inl, inr, subst, Bool, true, not, ◌&&◌, List, [], ◌∷◌,
  ltb, ◌==◌, if◌then◌else◌, Option, none, some, ok, PartialEq, ℕ_eq, list_eq, list_eq_iff,
  Bool-cases, Option-cases, Result-cases, bind_step, ==_iff, arith,
}
use spa_device.Grant.{Grant, GateConfig}
use spa_device.Bpf.{BpfMap, unless_full, LawfulLru}
use spa_device.Ebpf.Layout.{
  Addr, FlowKey, RateState, Packet, XdpAction, tcp_syn, tcp_ack, tcp_fin, tcp_rst, tcp_dport_off,
  tcp_sport_off, tcp_flags_off, udp_dport_off, ipproto_tcp, flow_idle_ns,
}
use spa_device.Ebpf.Frame.{wrapping_sub, load_be, parse}
use spa_device.Ebpf.Gate.{
  Maps, is_protected, source_allowed, tcp_new, tcp_flow, tcp_gate, udp_gate, spa_gate,
}
use spa_device.Ebpf.Verdict.{IsGranted, source_allowed_iff}

abbrev flow_eq : FlowKey → FlowKey → Bool
flow_eq a b =
    list_eq a.saddr b.saddr
    && (list_eq a.daddr b.daddr && ((a.sport == b.sport) && (a.dport == b.dport)))

pub flow_eq_iff : (a b : FlowKey) → (flow_eq a b ≡ true) ↔ (a ≡ b)
flow_eq_iff a b = ground (
  arith,
  list_eq_iff a.saddr b.saddr,
  list_eq_iff a.daddr b.daddr,
  ==_iff a.sport b.sport,
  ==_iff a.dport b.dport,
)

instance abbrev pub FlowKey_eq : PartialEq FlowKey
FlowKey_eq = record { eq = flow_eq; eq_iff = flow_eq_iff }

-- A frame at a time, or the maps that the daemon writes.
pub data Event (A P : Type 0) : Type 0 where
  frame_in : List ℕ → ℕ → Event A P
  daemon_writes : A → P → Option GateConfig → Event A P

module _ {E : Type 0} ⦃established : BpfMap E FlowKey ℕ⦄ (lru : LawfulLru established) where
  -- Storing a flow adds no other flow.
  insert_tracked :
      (e : E) (key flow : FlowKey) (now t : ℕ)
      → established.get (unless_full e (established.insert e key now)) flow ≡ some t
      → (key ≡ flow) ⊎ ((s : ℕ) × (established.get e flow ≡ some s))
  insert_tracked e key flow now t h = elim (Option-cases (established.insert e key now)) [
    | inl full ↦ inr (t, rw full at h)
    | inr (e', stored) ↦ elim (Bool-cases (flow_eq key flow)) [
      | inl same ↦ inl ((flow_eq_iff key flow).0 same)
      | inr other ↦ inr (t, lru.get-insert_ne e e' key now flow t stored (rw stored at h) other)
    ]
  ]

module _ {A P E R : Type 0} ⦃allow : BpfMap A Addr Grant⦄ ⦃protected : BpfMap P ℕ ℕ⦄
    ⦃established : BpfMap E FlowKey ℕ⦄ ⦃rate : BpfMap R Addr RateState⦄ where
  abbrev pub step : Maps A P E R → Event A P → Maps A P E R
  step m (frame_in frame now) = (spa_gate m frame now).1
  step m (daemon_writes a p c) = record m { allow = a; protected = p; config = c }

  pub data Steps : Maps A P E R → List (Event A P) → Maps A P E R → Type 0 where
    stop : (m : Maps A P E R) → Steps m [] m
    next :
        {m m' : Maps A P E R} {es : List (Event A P)} (e : Event A P)
        → Steps (step m e) es m'
        → Steps m (e ∷ es) m'

  -- At some frame of the run the source of the flow held a live grant for its port.
  abbrev pub GrantedAt : Maps A P E R → FlowKey → Event A P → Type 0
  GrantedAt m flow (frame_in frame now) = IsGranted m flow.saddr flow.dport now
  GrantedAt m flow (daemon_writes a p c) = ⊥

  abbrev pub WasGranted : Maps A P E R → FlowKey → List (Event A P) → Type 0
  WasGranted m flow [] = ⊥
  WasGranted m flow (e ∷ es) = GrantedAt m flow e ⊎ WasGranted (step m e) flow es

  abbrev pub IsTracked : Maps A P E R → FlowKey → Type 0
  IsTracked m flow = (t : ℕ) × (established.get m.established flow ≡ some t)

  module _ (lru : LawfulLru established) where
    tcp_new-IsTracked :
        (m : Maps A P E R) (key flow : FlowKey) (flags now : ℕ)
        → IsTracked (tcp_new m key flags now).1 flow
        → IsTracked m flow ⊎ IsGranted m flow.saddr flow.dport now
    unfolding tcp_new
    tcp_new-IsTracked m key flow flags now (t, h) =
        let opening =
          (not (bit_and flags tcp_syn == 0) && bit_and flags tcp_ack == 0)
          && source_allowed m key.saddr key.dport now in
        elim (Bool-cases opening) [
          | inl set ↦
              elim (insert_tracked lru m.established key flow now t (rw (tcp_new, set) at h)) [
                | inl same ↦ inr (
                    (source_allowed_iff m flow.saddr flow.dport now).0 (
                      subst (λ (f : FlowKey). source_allowed m f.saddr f.dport now ≡ true) same
                        (ground arith)))
                | inr tracked ↦ inl tracked
              ]
          | inr unset ↦ inl (t, rw (tcp_new, unset) at h)
        ]

    live-IsTracked :
        (m : Maps A P E R) (key flow : FlowKey) (flags now last t : ℕ)
        → established.get m.established key ≡ some last
        → established.get
            (if not (bit_and flags (bit_or tcp_fin tcp_rst) == 0)
              then established.remove m.established key
              else unless_full m.established (established.insert m.established key now))
            flow
          ≡ some t
        → IsTracked m flow
    live-IsTracked m key flow flags now last t found h =
        let ending = not (bit_and flags (bit_or tcp_fin tcp_rst) == 0) in
        elim (Bool-cases ending) [
          | inl set ↦ (t, lru.get-remove m.established key flow t (rw set at h))
          | inr unset ↦ elim (insert_tracked lru m.established key flow now t (rw unset at h)) [
            | inl same ↦ (
              last,
              subst (λ (f : FlowKey). established.get m.established f ≡ some last) same found,
            )
            | inr tracked ↦ tracked
          ]
        ]

    tcp_flow-IsTracked :
        (m : Maps A P E R) (key flow : FlowKey) (flags now : ℕ)
        → IsTracked (tcp_flow m key flags now).1 flow
        → IsTracked m flow ⊎ IsGranted m flow.saddr flow.dport now
    unfolding tcp_flow
    tcp_flow-IsTracked m key flow flags now (t, h) =
        let removed = record m { established = established.remove m.established key } in
        elim (Option-cases (established.get m.established key)) [
          | inl missing ↦ tcp_new-IsTracked m key flow flags now (t, rw (tcp_flow, missing) at h)
          | inr (last, found) ↦ elim (Bool-cases (ltb (wrapping_sub now last) flow_idle_ns)) [
            | inr idle ↦
                elim (tcp_new-IsTracked removed key flow flags now
                  (t, rw (tcp_flow, found, idle) at h)) [
                    | inl (s, kept) ↦ inl (s, lru.get-remove m.established key flow s kept)
                    | inr granted ↦ inr granted
                  ]
            | inl live ↦
                inl (
                  live-IsTracked m key flow flags now last t found
                    (rw (tcp_flow, found, live) at h))
          ]
        ]

    -- What `tcp_gate` does to the tracked flows is what `tcp_flow` does.
    tcp_gate-IsTracked :
        (m : Maps A P E R) (frame : List ℕ) (pkt : Packet) (flow : FlowKey) (now : ℕ)
        (answer : XdpAction × Maps A P E R)
        → tcp_gate m frame pkt now ≡ ok answer
        → IsTracked answer.1 flow
        → IsTracked m flow ⊎ IsGranted m flow.saddr flow.dport now
    unfolding tcp_gate
    tcp_gate-IsTracked m frame pkt flow now answer h (t, tracked) =
        bind_step (load_be 2 frame (pkt.l4_off + tcp_dport_off)) _ h λ dport e1 h.
          elim (Bool-cases (is_protected m dport)) [
            | inr uncloaked ↦ inl (t, ground (arith, h, tracked, uncloaked))
            | inl cloaked ↦
                let h = rw cloaked at h in
                bind_step (load_be 2 frame (pkt.l4_off + tcp_sport_off)) _ h λ sport e2 h.
                  bind_step (load_be 1 frame (pkt.l4_off + tcp_flags_off)) _ h λ flags e3 h.
                    let key : FlowKey = record {
                      saddr = pkt.saddr;
                      daddr = pkt.daddr;
                      sport = sport;
                      dport = dport;
                    } in
                    tcp_flow-IsTracked m key flow flags now (t, ground (arith, h, tracked))
          ]

    udp_gate_established :
        (m : Maps A P E R) (frame : List ℕ) (pkt : Packet) (now : ℕ)
        (answer : XdpAction × Maps A P E R)
        → udp_gate m frame pkt now ≡ ok answer
        → answer.1.established ≡ m.established
    unfolding udp_gate
    udp_gate_established m frame pkt now answer h =
        bind_step (load_be 2 frame (pkt.l4_off + udp_dport_off)) _ h λ dport e1 h.
          elim (Option-cases m.config) [
            | inl missing ↦ ground (arith, rw missing at h)
            | inr (cfg, found) ↦ ground (arith, rw found at h)
          ]

    spa_gate-IsTracked :
        (m : Maps A P E R) (frame : List ℕ) (flow : FlowKey) (now : ℕ)
        → IsTracked (spa_gate m frame now).1 flow
        → IsTracked m flow ⊎ IsGranted m flow.saddr flow.dport now
    unfolding spa_gate
    spa_gate-IsTracked m frame flow now (t, h) = elim (Result-cases (parse frame)) [
      | inr (e, bad) ↦ inl (t, rw (spa_gate, bad) at h)
      | inl (none, good) ↦ inl (t, ground (arith, good, h))
      | inl (some pkt, good) ↦ elim (Bool-cases (pkt.proto == ipproto_tcp)) [
        | inl tcp ↦ elim (Result-cases (tcp_gate m frame pkt now)) [
          | inr (e, bad) ↦ inl (t, ground (arith, good, h, tcp, bad))
          | inl (answer, ran) ↦
              tcp_gate-IsTracked m frame pkt flow now answer ran
                (t, ground (arith, good, h, tcp, ran))
        ]
        | inr other ↦ elim (Result-cases (udp_gate m frame pkt now)) [
          | inr (e, bad) ↦ inl (t, ground (arith, good, h, other, bad))
          | inl (answer, ran) ↦ inl (
            t,
            ground (arith, good, h, other, ran, udp_gate_established m frame pkt now answer ran),
          )
        ]
      ]
    ]

    step-IsTracked :
        (m : Maps A P E R) (e : Event A P) (flow : FlowKey)
        → IsTracked (step m e) flow
        → IsTracked m flow ⊎ GrantedAt m flow e
    step-IsTracked m (frame_in frame now) flow h = spa_gate-IsTracked m frame flow now h
    step-IsTracked m (daemon_writes a p c) flow h = inl h

    -- A flow that is tracked after a run was tracked before it, or a frame of the run opened it:
    -- its source held a live grant for its port when that frame came.
    pub Steps-IsTracked :
        {m m' : Maps A P E R} {es : List (Event A P)} (flow : FlowKey)
        → Steps m es m'
        → IsTracked m' flow
        → IsTracked m flow ⊎ WasGranted m flow es
    Steps-IsTracked flow (stop m) h = inl h
    Steps-IsTracked {m = m} flow (next e run) h = elim (Steps-IsTracked flow run h) [
      | inr later ↦ inr (inr later)
      | inl before ↦ elim (step-IsTracked m e flow before) [
        | inl earlier ↦ inl earlier
        | inr now ↦ inr (inl now)
      ]
    ]
