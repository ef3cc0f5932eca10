-- ===== src/Grant.antt =====
-- spa-ebpf-common/src/lib.rs: the entry of the allow-list, and the port test.
pub mod Ports
mod Tests
use spa_device.Prelude.{
  ℕ, zero, suc, ◌+◌, Bool, true, false, List, ltb, ◌==◌, if◌then◌else◌, get_or,
}

abbrev pub max_grant_ports : ℕ
max_grant_ports = 8

-- The padding has no meaning and is left out.
pub record Grant : Type 0 where
  pub expiry_ns : ℕ
  pub ports : List ℕ
  pub port_count : ℕ

pub record GateConfig : Type 0 where
  pub knock_port : ℕ

-- `while i < n { if self.ports[i] == port { return true; } i += 1; } false`, with the rounds left.
unfoldable pub scan_ports : ℕ → List ℕ → ℕ → ℕ → Bool
scan_ports zero ports port i = false
scan_ports (suc left) ports port i =
    let rest = scan_ports left ports port (i + 1) in if get_or ports i 0 == port then true else rest

unfoldable pub allows_port : Grant → ℕ → Bool
unfolding scan_ports
allows_port g port =
    let n = if ltb max_grant_ports g.port_count then max_grant_ports else g.port_count in
    scan_ports n g.ports port 0
