-- ===== src/Ebpf/Frame.antt =====
-- The bounds-checked reads and `parse` of spa-ebpf/src/main.rs.
use spa_device.Prelude.{
  ℕ, ◌+◌, ◌-◌, ◌*◌, ◌%◌, ◌^◌, bit_and, not, ◌&&◌, List, ◌∷◌, [], ◌++◌, replicate, length, take,
  drop, get_or, ltb, ◌==◌, if◌then◌else◌, Option, none, some, Result, ok, err, ◌>>=◌,
}
use spa_device.Prelude.Bytes.{from_be_bytes}
use spa_device.Ebpf.Layout.{
  Addr, Packet, Fault, fault, eth_hdr_len, eth_type_off, ethertype_ipv4, ethertype_ipv6, ip_ihl_off,
  ip_proto_off, ip_src_off, ip_dst_off, ip6_hdr_len, ip6_nexthdr_off, ip6_src_off, ip6_dst_off,
  ipproto_tcp, ipproto_udp,
}

-- `u64::wrapping_sub`.
unfoldable pub wrapping_sub : ℕ → ℕ → ℕ
wrapping_sub a b = (a + 2 ^ 64 - b) % 2 ^ 64

-- `load::<[u8; len]>`.
unfoldable pub load : ℕ → List ℕ → ℕ → Result (List ℕ) Fault
load len frame offset =
    if ltb (length frame) (offset + len) then err fault else ok (take len (drop offset frame))

-- `load` at an unsigned type of `len` bytes, big endian.
unfoldable pub load_be : ℕ → List ℕ → ℕ → Result ℕ Fault
unfolding load
load_be len frame offset = do bytes ← load len frame offset; ok (from_be_bytes bytes)

unfoldable pub mapped_v4 : List ℕ → Addr
mapped_v4 o =
    replicate 10 0 ++ 0xff ∷ 0xff ∷ get_or o 0 0 ∷ get_or o 1 0 ∷ get_or o 2 0 ∷ get_or o 3 0 ∷ []

-- The arms of `parse`.
unfoldable pub parse_v4 : List ℕ → Result (Option Packet) Fault
unfolding load
parse_v4 frame = do
  first ← load_be 1 frame (eth_hdr_len + ip_ihl_off)
  let ihl = bit_and first 0x0f * 4
  if ltb ihl 20 then ok none else do
    saddr ← load 4 frame (eth_hdr_len + ip_src_off)
    daddr ← load 4 frame (eth_hdr_len + ip_dst_off)
    proto ← load_be 1 frame (eth_hdr_len + ip_proto_off)
    ok (
        some (record {
          saddr = mapped_v4 saddr;
          daddr = mapped_v4 daddr;
          proto = proto;
          l4_off = eth_hdr_len + ihl;
        }))

unfoldable pub parse_v6 : List ℕ → Result (Option Packet) Fault
unfolding load
parse_v6 frame = do
  proto ← load_be 1 frame (eth_hdr_len + ip6_nexthdr_off)
  if not (proto == ipproto_tcp) && not (proto == ipproto_udp) then ok none else do
    saddr ← load 16 frame (eth_hdr_len + ip6_src_off)
    daddr ← load 16 frame (eth_hdr_len + ip6_dst_off)
    ok (
        some (record {
          saddr = saddr;
          daddr = daddr;
          proto = proto;
          l4_off = eth_hdr_len + ip6_hdr_len;
        }))

unfoldable pub parse : List ℕ → Result (Option Packet) Fault
unfolding parse_v4
parse frame = do
  ethertype ← load_be 2 frame eth_type_off
  if ethertype == ethertype_ipv4
      then parse_v4 frame
      else if ethertype == ethertype_ipv6
      then parse_v6 frame
      else ok none
