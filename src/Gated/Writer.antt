-- ===== src/Gated/Writer.antt =====
-- `BpfGateWriter` of spa-gated/src/adapters.rs. The writer of the core is the daemon's writer with
-- the reading that `monotonic_now_ns` gives, and with what was asked of nftables.
use spa_device.Prelude.{
  ℕ, min, ◌+◌, ◌-◌, ◌*◌, ◌/◌, ◌%◌, ◌^◌, Bool, List, [], ◌∷◌, ◌++◌, replicate, set, take, Option,
  none, some, if◌then◌else◌,
}
use spa_device.Core.{IpAddr, v4, v6, Clock, GateWriter}
use spa_device.Grant.{max_grant_ports, Grant}
use spa_device.Bpf.{BpfMap, unless_full}
use spa_device.Gated.Nft.{NftCommand, nft_allow}

-- `duration_since(UNIX_EPOCH)` in nanoseconds, or its error, cut to a `u64`.
pub data SystemClock : Type 0 where
  since_epoch : Option ℕ → SystemClock

abbrev pub unix_nanos : SystemClock → ℕ
unix_nanos (since_epoch none) = 0
unix_nanos (since_epoch (some d)) = d % 2 ^ 64

instance abbrev pub system_clock : Clock SystemClock
system_clock = record { now_unix_nanos = unix_nanos }

abbrev pub u64_max : ℕ
u64_max = 2 ^ 64 - 1

unfoldable pub saturating_add : ℕ → ℕ → ℕ
saturating_add a b = min (a + b) u64_max

unfoldable pub saturating_mul : ℕ → ℕ → ℕ
saturating_mul a b = min (a * b) u64_max

-- The fields of the `timespec`, as unsigned numbers.
unfoldable pub monotonic_now_ns : ℕ → ℕ → ℕ
unfolding saturating_add saturating_mul
monotonic_now_ns tv_sec tv_nsec = saturating_add (saturating_mul tv_sec 1000000000) tv_nsec

-- `u64::div_ceil`.
unfoldable pub div_ceil : ℕ → ℕ → ℕ
div_ceil a b = (a + (b - 1)) / b

-- 16 octets: `v4.to_ipv6_mapped().octets()` and `v6.octets()`.
unfoldable pub addr_key : IpAddr → List ℕ
addr_key (v4 octets) = replicate 10 0 ++ 0xff ∷ 0xff ∷ octets
addr_key (v6 octets) = octets

-- `for (i, p) in … { grant.ports[i] = *p; grant.port_count += 1; }`, from `i` on.
unfoldable pub fill_ports : Grant → ℕ → List ℕ → Grant
fill_ports g i [] = g
fill_ports g i (p ∷ ps) =
    fill_ports (record g { ports = set g.ports i p; port_count = g.port_count + 1 }) (i + 1) ps

unfoldable pub new_grant : List ℕ → ℕ → Grant
unfolding fill_ports
new_grant ports expiry_ns =
    fill_ports
      (record { expiry_ns = expiry_ns; ports = replicate max_grant_ports 0; port_count = 0 }) 0
      (take max_grant_ports ports)

pub record BpfGateWriter (A : Type 0) : Type 0 where
  pub allow : A
  pub nft_floor : Bool

pub record WriterAt (A : Type 0) : Type 0 where
  pub writer : BpfGateWriter A
  pub now_ns : ℕ
  pub nft : List NftCommand

module _ {A : Type 0} ⦃map : BpfMap A (List ℕ) Grant⦄ where
  unfoldable pub open_gate : WriterAt A → IpAddr → List ℕ → ℕ → WriterAt A
  unfolding new_grant
  open_gate w source ports ttl_nanos =
      let g = new_grant ports (saturating_add w.now_ns ttl_nanos) in
      record w {
        writer = record w.writer {
          allow = unless_full w.writer.allow (map.insert w.writer.allow (addr_key source) g);
        };
        nft =
            if w.writer.nft_floor
            then nft_allow w.nft source (div_ceil ttl_nanos 1000000000)
            else w.nft;
      }

  instance abbrev pub gate_writer : GateWriter (WriterAt A)
  gate_writer = record { open_ports = open_gate }
