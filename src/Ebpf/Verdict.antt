-- ===== src/Ebpf/Verdict.antt =====
-- The verdict of `spa_gate` in spa-ebpf/src/main.rs on a TCP frame, and on frames that it cannot read.
use spa_device.Prelude.{
  ℕ, ◌+◌, ◌≤◌, ◌<◌, ◌≡◌, ◌≢◌, ◌↔◌, ◌⊎◌, inl, inr, refl, bit_and, true, false, List, length, ltb,
  some, ok, Bool-cases, Option-cases, ltb→lt, arith,
}
use spa_device.Grant.{Grant, allows_port}
use spa_device.Bpf.{BpfMap}
use spa_device.Ebpf.Layout.{
  Addr, FlowKey, RateState, Packet, xdp_pass, ipproto_tcp, tcp_sport_off, tcp_dport_off,
  tcp_flags_off, tcp_syn, tcp_ack, flow_idle_ns,
}
use spa_device.Ebpf.Frame.{wrapping_sub, load_be, parse}
use spa_device.Ebpf.Gate.{Maps, is_protected, source_allowed, tcp_new, tcp_flow, spa_gate}

-- A TCP segment whose header can be read.
pub record IsTcp (frame : List ℕ) (pkt : Packet) (flow : FlowKey) (flags : ℕ) : Type 0 where
  pub parsed : parse frame ≡ ok (some pkt)
  pub tcp : pkt.proto ≡ ipproto_tcp
  pub dport : load_be 2 frame (pkt.l4_off + tcp_dport_off) ≡ ok flow.dport
  pub sport : load_be 2 frame (pkt.l4_off + tcp_sport_off) ≡ ok flow.sport
  pub flag_byte : load_be 1 frame (pkt.l4_off + tcp_flags_off) ≡ ok flags
  pub saddr : flow.saddr ≡ pkt.saddr
  pub daddr : flow.daddr ≡ pkt.daddr

-- SYN without ACK.
abbrev pub IsPureSyn : ℕ → Type 0
IsPureSyn flags = (bit_and flags tcp_syn ≢ 0) × (bit_and flags tcp_ack ≡ 0)

module _ {A P E R : Type 0} ⦃allow : BpfMap A Addr Grant⦄ ⦃protected : BpfMap P ℕ ℕ⦄
    ⦃established : BpfMap E FlowKey ℕ⦄ ⦃rate : BpfMap R Addr RateState⦄ where
  -- The source holds a live grant for the port.
  abbrev pub IsGranted : Maps A P E R → Addr → ℕ → ℕ → Type 0
  IsGranted m src dport now =
      (g : Grant) × (allow.get m.allow src ≡ some g)
      × (now < g.expiry_ns)
      × (allows_port g dport ≡ true)

  -- The flow is tracked and not idle.
  abbrev pub IsLive : Maps A P E R → FlowKey → ℕ → Type 0
  IsLive m flow now =
      (last : ℕ) × (established.get m.established flow ≡ some last)
      × (wrapping_sub now last < flow_idle_ns)

  pub source_allowed_iff :
      (m : Maps A P E R) (src : Addr) (dport now : ℕ)
      → (source_allowed m src dport now ≡ true) ↔ IsGranted m src dport now
  unfolding source_allowed
  source_allowed_iff m src dport now = elim (Option-cases (allow.get m.allow src)) [
    | inl missing ↦ rw (source_allowed, missing) (λ h. cc, λ g. cc (g.1))
    | inr (g, found) ↦
        rw (source_allowed, found)
          (
            λ h. (g, refl, ground arith, ground arith),
            λ (g', found', live, covers). ground (arith, found', live, covers),
          )
  ]

  tcp_new_iff :
      (m : Maps A P E R) (flow : FlowKey) (flags now : ℕ)
      → ((tcp_new m flow flags now).0 ≡ xdp_pass)
        ↔ (IsPureSyn flags × IsGranted m flow.saddr flow.dport now)
  unfolding tcp_new
  tcp_new_iff m flow flags now = ground (arith, source_allowed_iff m flow.saddr flow.dport now)

  tcp_flow_iff :
      (m : Maps A P E R) (flow : FlowKey) (flags now : ℕ)
      → ((tcp_flow m flow flags now).0 ≡ xdp_pass)
        ↔ (IsLive m flow now ⊎ (IsPureSyn flags × IsGranted m flow.saddr flow.dport now))
  unfolding tcp_flow
  tcp_flow_iff m flow flags now = elim (Option-cases (established.get m.established flow)) [
    | inl missing ↦
        rw (tcp_flow, missing)
          (
            λ h. inr ((tcp_new_iff m flow flags now).0 h),
            λ o. elim o [ inl live ↦ cc (live.1) | inr new ↦ (tcp_new_iff m flow flags now).1 new ],
          )
    | inr (last, found) ↦ elim (Bool-cases (ltb (wrapping_sub now last) flow_idle_ns)) [
      | inl live ↦
          rw (tcp_flow, found, live)
            (λ h. inl (last, refl, ltb→lt (wrapping_sub now last) flow_idle_ns live), λ o. refl)
      | inr idle ↦
          let removed = record m { established = established.remove m.established flow } in
          rw (tcp_flow, found, idle)
            (
              λ h. inr ((tcp_new_iff removed flow flags now).0 h),
              λ o. elim o [
                | inl (last', same, live) ↦ absurd (ground (arith, same, live, idle))
                | inr new ↦ (tcp_new_iff removed flow flags now).1 new
              ],
            )
    ]
  ]

  -- A TCP segment whose header can be read up to its flags passes exactly if its port is not protected, or its flow is tracked and not idle,
  -- or it is a pure SYN from a source that holds a live grant for its port.
  pub spa_gate-tcp_iff :
      (m : Maps A P E R) (frame : List ℕ) (now : ℕ) (pkt : Packet) (flow : FlowKey) (flags : ℕ)
      → IsTcp frame pkt flow flags
      → ((spa_gate m frame now).0 ≡ xdp_pass) ↔ (
          (is_protected m flow.dport ≡ false)
          ⊎ (IsLive m flow now ⊎ (IsPureSyn flags × IsGranted m flow.saddr flow.dport now)))
  unfolding spa_gate
  spa_gate-tcp_iff m frame now pkt flow flags h = ground (
    arith,
    h.parsed,
    h.tcp,
    h.dport,
    h.sport,
    h.flag_byte,
    h.saddr,
    h.daddr,
    tcp_flow_iff m flow flags now,
  )

  -- A TCP segment that ends before its flags passes and leaves the maps alone, whatever its port and
  -- its source are.
  pub spa_gate-truncated :
      (m : Maps A P E R) (frame : List ℕ) (now : ℕ) (pkt : Packet)
      → parse frame ≡ ok (some pkt)
      → pkt.proto ≡ ipproto_tcp
      → length frame ≤ pkt.l4_off + tcp_flags_off
      → spa_gate m frame now ≡ (xdp_pass, m)
  unfolding spa_gate load_be
  spa_gate-truncated m frame now pkt parsed tcp short = ground (arith, parsed, tcp)
