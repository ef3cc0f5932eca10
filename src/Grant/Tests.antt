-- ===== src/Grant/Tests.antt =====
-- The grants of the tests of spa-ebpf-common/src/lib.rs.
use spa_device.Prelude.{◌≡◌, refl, false, ◌∷◌, replicate}
use spa_device.Grant.{Grant, allows_port}

abbrev two_ports : Grant
two_ports = record { expiry_ns = 0; ports = 22 ∷ 443 ∷ replicate 6 0; port_count = 2 }

-- A slot past `port_count` does not count: the zeros behind the two ports.
rejects_zero : allows_port two_ports 0 ≡ false
unfolding allows_port
rejects_zero = refl
