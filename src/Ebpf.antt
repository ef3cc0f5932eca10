-- ===== src/Ebpf.antt =====
-- spa-ebpf/src/main.rs: the XDP program. A frame is its bytes, from `data` to `data_end`. The BPF
-- maps and the clock are not part of the repository: the maps are the instance arguments, and the
-- time of a packet is an argument.
pub mod Layout
pub mod Frame
pub mod Rate
pub mod Gate
pub mod Verdict
pub mod Flows
pub mod Budget
pub mod Knocks
mod Tests
