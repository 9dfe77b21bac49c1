-- ===== src/Lib.antt =====
-- Verification of parts of the kernel support crates.
--
-- Three crates are modelled, and of a fourth its arithmetic model. They share no state and do not
-- call each other.
--
-- crates/thekernel-axcbpf verifies and evaluates classic-BPF filter programs. The files named are
-- those of crates/thekernel-axcbpf/src.
--   Cbpf/Opcode.antt     instruction.rs, and `is_supported` of program.rs. A raw code is
--                        decoded into a symbolic operation, and a `match` on the code is a match on
--                        that operation.
--   Cbpf/Ancillary.antt  ancillary.rs: the ancillary window and packet metadata.
--   Cbpf/Input.antt      program.rs: the trait `Input` as a record of functions, with the byte
--                        slice and the packet.
--   Cbpf/Program.antt    program.rs: `Program`, `VerifyError` and `uses_ancillary`.
--   Cbpf/Verify.antt     program.rs: `verify_program`, its structural pass and the forward
--                        analysis of scratch words.
--   Cbpf/Eval.antt       program.rs: `evaluate_counted`. Its loop `while steps < len` is
--                        recursion on `len - steps`, the rounds that the source's own bound leaves;
--                        past it stands `unreachable!`, a panic of the model.
--
-- crates/thekernel-axtlb coordinates TLB and instruction-sync shootdowns between CPUs. It is the one
-- file crates/thekernel-axtlb/src/lib.rs.
--   Tlb/Maintenance.antt   `CpuMaintenance`, `CpuSet` and `IpiReason`.
--   Tlb/Mailbox.antt       `CpuMailbox`, one function for each atomic operation.
--   Tlb/Domain.antt        `TlbShootdown`, its lifecycle, reasons and service.
--   Tlb/Request.antt       `ShootdownRequest`, from its fields to `try_complete`.
--   Tlb/Issue.antt         the two issue profiles.
--   Tlb/Invariant.antt     sequences of whole calls on one domain.
--   Tlb/Interleaving.antt  the same protocol as atomic steps of several CPUs.
--
-- crates/thekernel-axpmu opens sessions of performance counters on a hardware backend. It is the
-- one file crates/thekernel-axpmu/src/lib.rs.
--   Pmu.antt           events, the trait `Backend` as a record of functions on the state of the
--                      hardware, and `Session::open`. Of the arrays of `N` slots, the first `len`.
--   Pmu/Methods.antt   `start`, `snapshot`, `stop`, `close` and the drop.
--   Pmu/Release.antt   the calls of `release` that a loop makes, each of which may fail, and
--   Pmu/Outcome.antt   the ends of an opening, both stated apart from the code.
--   Pmu/Starting.antt, Pmu/Stopping.antt
--                      the calls of `start` and `stop`, likewise.
-- Of the backend nothing is relied on but that `configure` and `read` return.
--
-- crates/thekernel-axsched/src/eevdf_model.rs is the integer model that the EEVDF scheduler keeps
-- its clock, its entities and their requests with, and eevdf_profile.rs its tuning parameters.
-- Methods that only rename another one are not repeated.
--   Sched/Eevdf/Word.antt     the constants, the profile, the classes and the checked steps on
--                             words. The profile that a build selects is an argument.
--   Sched/Eevdf/Divide.antt   `checked_div_129`, the division of 129 bits by a word.
--   Sched/Eevdf/MulDiv.antt   `checked_mul_div_rem` and its two roundings.
--   Sched/Eevdf/Signed.antt   the signed functions, from `bias_i128` to `request_start`.
--   Sched/Eevdf/Wide.antt     `Wide`, four limbs of 64 bits. `None` of its operations is the
--                             exhaustion that every caller makes of it.
--   Sched/Eevdf/Ratio.antt    `gcd_u128` and `checked_ratio_ceil`, whose array arguments are one
--                             record `Factors`.
--   Sched/Eevdf/Request.antt  `Request`; its service is in Request/Service.antt.
--   Sched/Eevdf/Clock.antt    `Clock`. A method on `&mut self` returns the new value.
--   Sched/Eevdf/Entity.antt   `Entity`, its lag and its sleep; its service, reconfiguration and
--                             migration are in modules below it.
-- The loops over bit positions recurse on the positions that are left: 129, 128 or 256 of them. Of
-- the two loops without a counter, `gcd_u128` has a round more than its second argument, and each
-- round but the last makes that smaller; a carry into a `Wide` has five rounds for its four limbs.
-- An entity calls its request and the clock of its queue, and all of them the arithmetic above.
--
-- The modules below these hold proofs. Prelude.antt and its modules hold what the crates share:
-- tests on numbers, lists with their indices as in Rust, integers, bit operations, and results with
-- errors and panics.
--
-- A u32, u64, u128 or usize is a natural number, with the wrap-around or the check of an operation
-- written out; usize has 64 bits. An i128 is an integer, with its range checked where the source
-- does. Shared memory is sequentially consistent. The allocator, the provider of metadata, the
-- local flush and the counter hardware are parameters.
--
-- Not modelled: the x86-64 translator of crates/thekernel-axcbpf and its validation; of
-- crates/thekernel-axsched the queues and the tree (eevdf.rs, eevdf_tree.rs, cfs.rs, fifo.rs and
-- round_robin.rs); the relaxed diagnostic counters of crates/thekernel-axpmu; and the crates
-- thekernel-axfault, -axpoll, -axrcu and -axtask.
pub mod Pmu
pub mod Prelude
pub mod Cbpf
pub mod Tlb
pub mod Sched
