-- ===== src/Ebpf/Knocks.antt =====
-- The verdict of `spa_gate` in spa-ebpf/src/main.rs on a UDP frame.
use spa_device.Prelude.{
  ℕ, ◌+◌, ◌≤◌, ◌≡◌, ◌≢◌, ◌↔◌, ◌⊎◌, true, List, length, some, ok, ==_iff, arith,
}
use spa_device.Grant.{Grant, GateConfig}
use spa_device.Bpf.{BpfMap}
use spa_device.Ebpf.Layout.{
  Addr, FlowKey, RateState, Packet, xdp_pass, ipproto_udp, udp_hdr_len, udp_dport_off, knock_min,
  knock_max,
}
use spa_device.Ebpf.Frame.{load_be, parse}
use spa_device.Ebpf.Rate.{rate_ok}
use spa_device.Ebpf.Gate.{Maps, udp_gate, spa_gate}

-- The payload of a UDP datagram at `off` in a frame has the size of a knock.
abbrev pub HasPayload : List ℕ → ℕ → Type 0
HasPayload frame off =
    (off + udp_hdr_len + knock_min ≤ length frame) × (length frame ≤ off + udp_hdr_len + knock_max)

module _ {A P E R : Type 0} ⦃allow : BpfMap A Addr Grant⦄ ⦃protected : BpfMap P ℕ ℕ⦄
    ⦃established : BpfMap E FlowKey ℕ⦄ ⦃rate : BpfMap R Addr RateState⦄ where
  -- A UDP datagram whose port can be read, at a gate with a knock port.
  pub record IsUdp (m : Maps A P E R) (frame : List ℕ) (pkt : Packet) (dport : ℕ) (cfg : GateConfig)
      : Type 0 where
    pub parsed : parse frame ≡ ok (some pkt)
    pub udp : pkt.proto ≡ ipproto_udp
    pub read : load_be 2 frame (pkt.l4_off + udp_dport_off) ≡ ok dport
    pub configured : m.config ≡ some cfg

  -- At a gate whose CONFIG holds a knock port, a UDP datagram whose destination port can be read
  -- passes exactly if it is for another port than the knock port, or its payload has the size of a
  -- knock and its source is within its rate; and the flows, the grants, the protected ports and the
  -- knock port are left alone.
  pub spa_gate-udp_iff :
      (m : Maps A P E R) (frame : List ℕ) (now : ℕ) (pkt : Packet) (dport : ℕ) (cfg : GateConfig)
      → IsUdp m frame pkt dport cfg
      → (((spa_gate m frame now).0 ≡ xdp_pass) ↔ (
          (dport ≢ cfg.knock_port)
          ⊎ (HasPayload frame pkt.l4_off × ((rate_ok m.rate pkt.saddr now).0 ≡ true))))
        × (((spa_gate m frame now).1.established ≡ m.established)
            × ((spa_gate m frame now).1.allow ≡ m.allow)
            × ((spa_gate m frame now).1.protected ≡ m.protected)
            × ((spa_gate m frame now).1.config ≡ m.config))
  unfolding spa_gate udp_gate
  spa_gate-udp_iff m frame now pkt dport cfg h =
      ground (arith, h.parsed, h.udp, h.read, h.configured, ==_iff dport cfg.knock_port)
