-- ===== src/Ebpf/Gate.antt =====
-- The gates of spa-ebpf/src/main.rs, from the verdict on a flow to the program `spa_gate`.
use spa_device.Prelude.{
  ℕ, ◌+◌, bit_and, bit_or, Bool, true, false, not, ◌&&◌, ◌||◌, List, length, ltb, ◌==◌,
  if◌then◌else◌, Option, none, some, Result, ok, err, ◌>>=◌,
}
use spa_device.Grant.{Grant, GateConfig, allows_port}
use spa_device.Bpf.{BpfMap, unless_full}
use spa_device.Ebpf.Layout.{
  Addr, FlowKey, RateState, Packet, XdpAction, xdp_pass, xdp_drop, Fault, ipproto_tcp, ipproto_udp,
  tcp_sport_off, tcp_dport_off, tcp_flags_off, tcp_syn, tcp_ack, tcp_fin, tcp_rst, udp_hdr_len,
  udp_dport_off, flow_idle_ns, knock_min, knock_max,
}
use spa_device.Ebpf.Frame.{wrapping_sub, load_be, parse}
use spa_device.Ebpf.Rate.{rate_ok}

pub record Maps (A P E R : Type 0) : Type 0 where
  pub allow : A
  pub protected : P
  pub established : E
  pub config : Option GateConfig
  pub rate : R

module _ {A P E R : Type 0} ⦃allow : BpfMap A Addr Grant⦄ ⦃protected : BpfMap P ℕ ℕ⦄
    ⦃established : BpfMap E FlowKey ℕ⦄ ⦃rate : BpfMap R Addr RateState⦄ where
  unfoldable pub is_protected : Maps A P E R → ℕ → Bool
  is_protected m dport = elim (protected.get m.protected dport) [ none ↦ false | some v ↦ true ]

  unfoldable pub source_allowed : Maps A P E R → Addr → ℕ → ℕ → Bool
  source_allowed m src dport now = elim (allow.get m.allow src) [
    | none ↦ false
    | some g ↦ ltb now g.expiry_ns && allows_port g dport
  ]

  -- `tcp_gate` below the lookup of a live flow.
  unfoldable pub tcp_new : Maps A P E R → FlowKey → ℕ → ℕ → XdpAction × Maps A P E R
  unfolding source_allowed
  tcp_new m flow flags now =
      if (not (bit_and flags tcp_syn == 0) && bit_and flags tcp_ack == 0)
        && source_allowed m flow.saddr flow.dport now
      then (
        xdp_pass,
        record m {
          established = unless_full m.established (established.insert m.established flow now);
        },
      )
      else (xdp_drop, m)

  -- `tcp_gate` below the reads.
  unfoldable pub tcp_flow : Maps A P E R → FlowKey → ℕ → ℕ → XdpAction × Maps A P E R
  unfolding tcp_new
  tcp_flow m flow flags now = elim (established.get m.established flow) [
    | none ↦ tcp_new m flow flags now
    | some last ↦
        if ltb (wrapping_sub now last) flow_idle_ns
        then (
          xdp_pass,
          record m {
            established =
                if not (bit_and flags (bit_or tcp_fin tcp_rst) == 0)
                then established.remove m.established flow
                else unless_full m.established (established.insert m.established flow now);
          },
        )
        else tcp_new (record m { established = established.remove m.established flow }) flow flags
            now
  ]

  -- The reads come before every change of a map: an error leaves the maps as they were.
  unfoldable pub tcp_gate :
      Maps A P E R → List ℕ → Packet → ℕ → Result (XdpAction × Maps A P E R) Fault
  unfolding is_protected
  tcp_gate m frame pkt now = do
    dport ← load_be 2 frame (pkt.l4_off + tcp_dport_off)
    if not (is_protected m dport) then ok (xdp_pass, m) else do
      sport ← load_be 2 frame (pkt.l4_off + tcp_sport_off)
      flags ← load_be 1 frame (pkt.l4_off + tcp_flags_off)
      let flow : FlowKey = record {
        saddr = pkt.saddr;
        daddr = pkt.daddr;
        sport = sport;
        dport = dport;
      }
      ok (tcp_flow m flow flags now)

  unfoldable pub udp_gate :
      Maps A P E R → List ℕ → Packet → ℕ → Result (XdpAction × Maps A P E R) Fault
  unfolding rate_ok
  udp_gate m frame pkt now = do
    dport ← load_be 2 frame (pkt.l4_off + udp_dport_off)
    elim m.config [
      | none ↦ ok (xdp_pass, m)
      | some cfg ↦
          let base = pkt.l4_off + udp_hdr_len in
          let answer = rate_ok m.rate pkt.saddr now in
          if not (dport == cfg.knock_port)
          then ok (xdp_pass, m)
          else if ltb (length frame) (base + knock_min) || ltb (base + knock_max) (length frame)
          then ok (xdp_drop, m)
          else ok ((if answer.0 then xdp_pass else xdp_drop), record m { rate = answer.1 })
    ]

  unfoldable pub try_gate : Maps A P E R → List ℕ → ℕ → Result (XdpAction × Maps A P E R) Fault
  unfolding tcp_gate
  try_gate m frame now = do
    parsed ← parse frame
    elim parsed [
      | none ↦ ok (xdp_pass, m)
      | some pkt ↦
          if pkt.proto == ipproto_tcp
          then tcp_gate m frame pkt now
          else if pkt.proto == ipproto_udp
          then udp_gate m frame pkt now
          else ok (xdp_pass, m)
    ]

  unfoldable pub spa_gate : Maps A P E R → List ℕ → ℕ → XdpAction × Maps A P E R
  unfolding try_gate
  spa_gate m frame now = elim (try_gate m frame now) [ ok answer ↦ answer | err e ↦ (xdp_pass, m) ]
