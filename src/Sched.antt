-- ===== src/Sched.antt =====
-- crates/thekernel-axsched: the schedulers.
pub mod Eevdf
