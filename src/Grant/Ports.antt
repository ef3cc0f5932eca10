-- ===== src/Grant/Ports.antt =====
-- The loop of `Grant::allows_port` in spa-ebpf-common/src/lib.rs is a search.
use spa_device.Prelude.{
  ℕ, zero, suc, ◌+◌, ◌≤◌, ◌≡◌, ◌↔◌, inl, inr, refl, true, List, [], ◌∷◌, ltb, length, take, drop,
  get_or, min, IsIn, ==_iff, Bool-cases, arith,
}
use spa_device.Grant.{max_grant_ports, Grant, scan_ports, allows_port}

drop_front : (i : ℕ) (xs : List ℕ) → suc i ≤ length xs → drop i xs ≡ get_or xs i 0 ∷ drop (suc i) xs
drop_front i [] h = absurd (omega arith)
drop_front zero (x ∷ xs) h = refl
drop_front (suc i) (x ∷ xs) h = drop_front i xs (omega arith)

scan_ports_iff :
    (left : ℕ) (ports : List ℕ) (port i : ℕ)
    → i + left ≤ length ports
    → (scan_ports left ports port i ≡ true) ↔ IsIn port (take left (drop i ports))
unfolding scan_ports
scan_ports_iff zero ports port i h = (λ e. cc, λ e. absurd e)
scan_ports_iff (suc left) ports port i h =
    let ih = scan_ports_iff left ports port (i + 1) (omega arith) in
    let next : suc i ≡ i + 1 = omega arith in
    rw (drop_front i ports (omega arith), next) (ground (arith, ih, ==_iff (get_or ports i 0) port))

-- A grant covers a port exactly if it is among the first `port_count` of its eight ports.
pub allows_port_iff :
    (g : Grant) (port : ℕ)
    → length g.ports ≡ max_grant_ports
    → (allows_port g port ≡ true) ↔ IsIn port (take (min g.port_count max_grant_ports) g.ports)
unfolding allows_port
allows_port_iff g port h = elim (Bool-cases (ltb max_grant_ports g.port_count)) [
  | inl more ↦
      let capped : min g.port_count max_grant_ports ≡ max_grant_ports = ground arith in
      rw (more, capped) (scan_ports_iff max_grant_ports g.ports port 0 (omega arith))
  | inr less ↦
      let whole : min g.port_count max_grant_ports ≡ g.port_count = ground arith in
      rw (less, whole) (scan_ports_iff g.port_count g.ports port 0 (ground arith))
]
