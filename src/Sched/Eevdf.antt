-- ===== src/Sched/Eevdf.antt =====
-- crates/thekernel-axsched/src/eevdf_model.rs and eevdf_profile.rs: the integer model of the EEVDF
-- scheduler. A `u128` is a number below `2 ^ 128`, an `i128` an integer of that range.
pub mod Word
pub mod Divide
pub mod MulDiv
pub mod Signed
pub mod Clock
pub mod Wide
pub mod Ratio
pub mod Request
pub mod Entity
mod Tests
