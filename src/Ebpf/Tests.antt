-- ===== src/Ebpf/Tests.antt =====
-- The XDP program on concrete frames, over association lists in the place of the BPF maps.
use spa_device.Prelude.{
  ℕ, ◌+◌, ◌*◌, ◌/◌, ◌-◌, ◌≤◌, ◌≡◌, ◌↔◌, ◌⊎◌, refl, ap, ◌∙◌, if◌then◌else◌, Option, false, List, [],
  ◌∷◌, ◌++◌, none, some, ok, replicate, ℕ_eq, List_eq, arith,
}
use spa_device.Prelude.Assoc.{HashMap, lookup, insert, lookup-insert}
use spa_device.Grant.{Grant, allows_port}
use spa_device.Bpf.Tables.{assoc_map, assoc_lru}
use spa_device.Ebpf.Layout.{Addr, FlowKey, RateState, Packet, xdp_pass}
use spa_device.Ebpf.Frame.{mapped_v4, load_be, parse}
use spa_device.Prelude.Bytes.{from_be_bytes}
use spa_device.Ebpf.Gate.{Maps, is_protected, tcp_flow, spa_gate}
use spa_device.Ebpf.Rate.{rate_next, rate_ok}
use spa_device.Ebpf.Knocks.{HasPayload, IsUdp, spa_gate-udp_iff}
use spa_device.Prelude.{◌≢◌, true}
use spa_device.Ebpf.Verdict.{
  IsTcp, IsPureSyn, IsGranted, IsLive, spa_gate-tcp_iff, spa_gate-truncated,
}
use spa_device.Ebpf.Flows.{FlowKey_eq, frame_in, stop, next, IsTracked, WasGranted, Steps-IsTracked}
use spa_device.Ebpf.Budget.{IsClock, IsStored, IsKept, passed, passed_bound}

abbrev TestMaps : Type 0
TestMaps = Maps (HashMap Addr Grant) (HashMap ℕ ℕ) (HashMap FlowKey ℕ) (HashMap Addr RateState)

-- Port 22 is cloaked, and 10.0.0.5 may reach it until 1000.
abbrev maps : TestMaps
maps = record {
  allow =
      (
        replicate 10 0 ++ 255 ∷ 255 ∷ 10 ∷ 0 ∷ 0 ∷ 5 ∷ [],
        record { expiry_ns = 1000; ports = 22 ∷ replicate 7 0; port_count = 1 },
      )
      ∷ [];
  protected = (22, 1) ∷ [];
  established = [];
  config = some (record { knock_port = 62201 });
  rate = [];
}

-- A frame from 10.0.0.5, port 4660, to 10.0.0.1, port 22, up to the flags.
abbrev segment : List ℕ → List ℕ
segment flags =
    replicate 12 0
    ++ 8 ∷ 0 ∷ 0x45 ∷ replicate 8 0
    ++ 6 ∷ 0 ∷ 0 ∷ 10 ∷ 0 ∷ 0 ∷ 5 ∷ 10 ∷ 0 ∷ 0 ∷ 1 ∷ 0x12 ∷ 0x34 ∷ 0 ∷ 22 ∷ replicate 9 0
    ++ flags

abbrev ssh : FlowKey
ssh = record {
  saddr = replicate 10 0 ++ 255 ∷ 255 ∷ 10 ∷ 0 ∷ 0 ∷ 5 ∷ [];
  daddr = replicate 10 0 ++ 255 ∷ 255 ∷ 10 ∷ 0 ∷ 0 ∷ 1 ∷ [];
  sport = 0x1234;
  dport = 22;
}

abbrev segment_packet : Packet
segment_packet = record { saddr = ssh.saddr; daddr = ssh.daddr; proto = 6; l4_off = 34 }

syn_opens : (spa_gate maps (segment (0x02 ∷ [])) 500).1.established ≡ (ssh, 500) ∷ []
unfolding spa_gate parse load_be from_be_bytes lookup tcp_flow mapped_v4 allows_port insert
syn_opens = refl

segment-IsTcp : IsTcp (segment (0x02 ∷ [])) segment_packet ssh 2
unfolding parse load_be from_be_bytes mapped_v4
segment-IsTcp = record {
  parsed = refl;
  tcp = refl;
  dport = refl;
  sport = refl;
  flag_byte = refl;
  saddr = refl;
  daddr = refl;
}

spa_gate-tcp_iff_example : ((spa_gate maps (segment (0x02 ∷ [])) 500).0 ≡ xdp_pass) ↔ (
    (is_protected maps 22 ≡ false)
    ⊎ (IsLive maps ssh 500 ⊎ (IsPureSyn 2 × IsGranted maps ssh.saddr 22 500)))
spa_gate-tcp_iff_example =
    spa_gate-tcp_iff maps (segment (0x02 ∷ [])) 500 segment_packet ssh 2 segment-IsTcp

truncated_parsed : parse (segment []) ≡ ok (some segment_packet)
unfolding parse load_be from_be_bytes mapped_v4
truncated_parsed = refl

spa_gate-truncated_example : spa_gate maps (segment []) 5000 ≡ (xdp_pass, maps)
spa_gate-truncated_example =
    spa_gate-truncated maps (segment []) 5000 segment_packet truncated_parsed refl (omega arith)

syn-IsTracked : IsTracked (spa_gate maps (segment (0x02 ∷ [])) 500).1 ssh
unfolding spa_gate parse load_be from_be_bytes lookup tcp_flow mapped_v4 allows_port insert
syn-IsTracked = (500, refl)

Steps-IsTracked_example :
    IsTracked maps ssh ⊎ WasGranted maps ssh (frame_in (segment (0x02 ∷ [])) 500 ∷ [])
Steps-IsTracked_example =
    Steps-IsTracked assoc_lru ssh
      (next (frame_in (segment (0x02 ∷ [])) 500) (stop (spa_gate maps (segment (0x02 ∷ [])) 500).1))
      syn-IsTracked

abbrev knocks : List (Addr × ℕ)
knocks = (ssh.saddr, 100) ∷ (ssh.daddr, 150) ∷ (ssh.saddr, 200) ∷ []

nothing_yet : lookup {V = RateState} [] ssh.saddr ≡ none
unfolding lookup
nothing_yet = refl

knocks-IsClock : IsClock 100 300 knocks
knocks-IsClock = (omega arith, (omega arith, (omega arith, (omega arith, omega arith))))

-- The association list takes every state, and evicts none.
assoc-IsStored :
    (src : Addr) (r : HashMap Addr RateState) (other : Addr) (next : Option RateState)
    → IsStored src r other next
assoc-IsStored src r other none = tt
assoc-IsStored src r other (some n) = (
  insert r other n,
  refl,
  λ s differ found.
      lookup-insert r other n src ∙ ap (λ b. if b then some n else lookup r src) differ ∙ found,
)

assoc-IsKept : (src : Addr) (r : HashMap Addr RateState) (l : List (Addr × ℕ)) → IsKept src r l
assoc-IsKept src r [] = tt
assoc-IsKept src r ((other, now) ∷ l) = (
  assoc-IsStored src r other (rate_next (lookup r other) now),
  assoc-IsKept src (rate_ok r other now).1 l,
)

passed_bound_example :
    passed {R = HashMap Addr RateState} ssh.saddr [] knocks ≤ 10 + 10 * ((300 - 100) / 1000000000)
passed_bound_example =
    passed_bound assoc_lru ssh.saddr knocks [] 100 300 nothing_yet knocks-IsClock
      (assoc-IsKept ssh.saddr [] knocks)

-- A datagram of 200 bytes from 10.0.0.5 to port 62201.
abbrev datagram : List ℕ
datagram =
    replicate 12 0
    ++ 8 ∷ 0 ∷ 0x45 ∷ replicate 8 0
    ++ 17 ∷ 0 ∷ 0 ∷ 10 ∷ 0 ∷ 0 ∷ 5 ∷ 10 ∷ 0 ∷ 0 ∷ 1 ∷ 0x12 ∷ 0x34 ∷ 0xf2 ∷ 0xf9 ∷ replicate 204 0

abbrev datagram_packet : Packet
datagram_packet = record { saddr = ssh.saddr; daddr = ssh.daddr; proto = 17; l4_off = 34 }

datagram-IsUdp : IsUdp maps datagram datagram_packet 62201 (record { knock_port = 62201 })
unfolding parse load_be from_be_bytes mapped_v4
datagram-IsUdp = record { parsed = refl; udp = refl; read = refl; configured = refl }

spa_gate-udp_iff_example :
    (((spa_gate maps datagram 500).0 ≡ xdp_pass) ↔ (
      (◌≢◌ {A = ℕ} 62201 62201)
      ⊎ (HasPayload datagram 34 × ((rate_ok maps.rate ssh.saddr 500).0 ≡ true))))
    × (((spa_gate maps datagram 500).1.established ≡ maps.established)
        × ((spa_gate maps datagram 500).1.allow ≡ maps.allow)
        × ((spa_gate maps datagram 500).1.protected ≡ maps.protected)
        × ((spa_gate maps datagram 500).1.config ≡ maps.config))
spa_gate-udp_iff_example =
    spa_gate-udp_iff maps datagram 500 datagram_packet 62201 (record { knock_port = 62201 })
      datagram-IsUdp
