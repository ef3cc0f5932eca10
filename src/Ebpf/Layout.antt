-- ===== src/Ebpf/Layout.antt =====
-- The types of spa-ebpf/src/main.rs and the offsets of the headers that it reads.
use spa_device.Prelude.{ℕ, List}

-- 16 bytes.
abbrev pub Addr : Type 0
Addr = List ℕ

pub record FlowKey : Type 0 where
  pub saddr : Addr
  pub daddr : Addr
  pub sport : ℕ
  pub dport : ℕ

pub record RateState : Type 0 where
  pub window_ns : ℕ
  pub count : ℕ

pub record Packet : Type 0 where
  pub saddr : Addr
  pub daddr : Addr
  pub proto : ℕ
  pub l4_off : ℕ

abbrev pub eth_hdr_len : ℕ
eth_hdr_len = 14

abbrev pub eth_type_off : ℕ
eth_type_off = 12

abbrev pub ethertype_ipv4 : ℕ
ethertype_ipv4 = 0x0800

abbrev pub ethertype_ipv6 : ℕ
ethertype_ipv6 = 0x86dd

abbrev pub ip_ihl_off : ℕ
ip_ihl_off = 0

abbrev pub ip_proto_off : ℕ
ip_proto_off = 9

abbrev pub ip_src_off : ℕ
ip_src_off = 12

abbrev pub ip_dst_off : ℕ
ip_dst_off = 16

abbrev pub ip6_hdr_len : ℕ
ip6_hdr_len = 40

abbrev pub ip6_nexthdr_off : ℕ
ip6_nexthdr_off = 6

abbrev pub ip6_src_off : ℕ
ip6_src_off = 8

abbrev pub ip6_dst_off : ℕ
ip6_dst_off = 24

abbrev pub ipproto_tcp : ℕ
ipproto_tcp = 6

abbrev pub ipproto_udp : ℕ
ipproto_udp = 17

abbrev pub tcp_sport_off : ℕ
tcp_sport_off = 0

abbrev pub tcp_dport_off : ℕ
tcp_dport_off = 2

abbrev pub tcp_flags_off : ℕ
tcp_flags_off = 13

abbrev pub tcp_syn : ℕ
tcp_syn = 0x02

abbrev pub tcp_ack : ℕ
tcp_ack = 0x10

abbrev pub tcp_fin : ℕ
tcp_fin = 0x01

abbrev pub tcp_rst : ℕ
tcp_rst = 0x04

abbrev pub udp_hdr_len : ℕ
udp_hdr_len = 8

abbrev pub udp_dport_off : ℕ
udp_dport_off = 2

abbrev pub flow_idle_ns : ℕ
flow_idle_ns = 120000000000

abbrev pub knock_min : ℕ
knock_min = 180

abbrev pub knock_max : ℕ
knock_max = 260

abbrev pub rate_limit : ℕ
rate_limit = 10

abbrev pub rate_window_ns : ℕ
rate_window_ns = 1000000000

pub data XdpAction : Type 0 where
  xdp_pass xdp_drop : XdpAction

-- The error `()`.
pub data Fault : Type 0 where
  fault : Fault
