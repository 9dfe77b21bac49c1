-- ===== src/Cbpf.antt =====
-- crates/thekernel-axcbpf/src: the classic-BPF mechanism.
pub mod Opcode
pub mod Ancillary
pub mod Input
pub mod Program
pub mod Verify
pub mod Eval
mod Tests
