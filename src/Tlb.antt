-- ===== src/Tlb.antt =====
-- crates/thekernel-axtlb/src/lib.rs: the TLB and instruction-sync shootdown state machine.
pub mod Maintenance
pub mod Mailbox
pub mod Domain
pub mod Request
pub mod Issue
pub mod Interleaving
pub mod Invariant
mod Tests
