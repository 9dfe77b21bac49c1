-- ===== src/Tlb/Mailbox.antt =====
-- crates/thekernel-axtlb/src/lib.rs: `CpuMailbox`, the state of one CPU slot.
-- `usize` and `u64` have 64 bits. In the lifecycle word `w & 0b11` is `w % 4`, `w >> 2` is `w / 4`
-- and `(w & !0b11) | 2` is `w / 4 * 4 + 2`. Each function is one atomic operation, or the
-- compare-exchange loop that ends in one.
pub mod Admission
use thekernel_ax.Prelude.{
  ℕ, ◌+◌, ◌-◌, ◌/◌, ◌%◌, ◌^◌, Bool, not, Option, ltb, ◌==◌, if◌then◌else◌, bit_and, bit_or, max,
}
use thekernel_ax.Prelude.Result.{Result, ok, err}
use thekernel_ax.Tlb.Maintenance.{
  CpuMaintenance, needs_tlb, needs_icache, from_pending, IpiReason, reason_bit,
}

abbrev pub word_mod : ℕ
word_mod = 2 ^ 64

abbrev pub cpu_offline : ℕ
cpu_offline = 0

abbrev pub cpu_online : ℕ
cpu_online = 1

abbrev pub cpu_draining : ℕ
cpu_draining = 2

abbrev pub admission_one : ℕ
admission_one = 4

-- `lifecycle & CPU_STATE_MASK`
abbrev pub state : ℕ → ℕ
state lifecycle = lifecycle % 4

-- `lifecycle >> 2`
abbrev pub admissions : ℕ → ℕ
admissions lifecycle = lifecycle / 4

pub record CpuMailbox : Type 0 where
  pub lifecycle : ℕ
  pub pending_reasons : ℕ
  pub requested_tlb_epoch : ℕ
  pub completed_tlb_epoch : ℕ
  pub requested_icache_epoch : ℕ
  pub completed_icache_epoch : ℕ

abbrev pub new_mailbox : CpuMailbox
new_mailbox = record {
  lifecycle = cpu_offline;
  pending_reasons = 0;
  requested_tlb_epoch = 0;
  completed_tlb_epoch = 0;
  requested_icache_epoch = 0;
  completed_icache_epoch = 0;
}

pub data AdmissionError : Type 0 where
  unavailable exhausted : AdmissionError

unfoldable pub try_admit : CpuMailbox → Result AdmissionError CpuMailbox
try_admit mb =
    if not (state mb.lifecycle == cpu_online)
    then err unavailable
    else if ltb (mb.lifecycle + admission_one) word_mod
    then ok (record mb { lifecycle = mb.lifecycle + admission_one })
    else err exhausted

-- `fetch_sub`, which wraps.
unfoldable pub release_admission : CpuMailbox → CpuMailbox
release_admission mb = record mb {
  lifecycle = (mb.lifecycle + word_mod - admission_one) % word_mod;
}

-- The new mailbox, and whether the reason bit was clear (`needs_kick`).
unfoldable pub post_reason : CpuMailbox → IpiReason → CpuMailbox × Bool
post_reason mb reason = (
  record mb { pending_reasons = bit_or mb.pending_reasons (reason_bit reason) },
  bit_and mb.pending_reasons (reason_bit reason) == 0,
)

-- The two conditional `fetch_max` by which a request reaches a target.
unfoldable pub raise_requests : CpuMaintenance → ℕ → CpuMailbox → CpuMailbox
raise_requests m epoch mb = record mb {
  requested_tlb_epoch =
      if needs_tlb m then max mb.requested_tlb_epoch epoch else mb.requested_tlb_epoch;
  requested_icache_epoch =
      if needs_icache m then max mb.requested_icache_epoch epoch else mb.requested_icache_epoch;
}

-- The four loads at the start of `service_maintenance`.
pub record Observed : Type 0 where
  pub requested_tlb : ℕ
  pub completed_tlb : ℕ
  pub requested_icache : ℕ
  pub completed_icache : ℕ

abbrev pub observe : CpuMailbox → Observed
observe mb = record {
  requested_tlb = mb.requested_tlb_epoch;
  completed_tlb = mb.completed_tlb_epoch;
  requested_icache = mb.requested_icache_epoch;
  completed_icache = mb.completed_icache_epoch;
}

-- The maintenance that the handler has to run locally.
unfoldable pub pending_maintenance : Observed → Option CpuMaintenance
unfolding from_pending
pending_maintenance o =
    from_pending (ltb o.completed_tlb o.requested_tlb) (ltb o.completed_icache o.requested_icache)

-- `completed_tlb_epoch.fetch_max(requested_tlb)`, if the class was run.
unfoldable pub acknowledge_tlb : CpuMaintenance → Observed → CpuMailbox → CpuMailbox
acknowledge_tlb m o mb = record mb {
  completed_tlb_epoch =
      if needs_tlb m then max mb.completed_tlb_epoch o.requested_tlb else mb.completed_tlb_epoch;
}

unfoldable pub acknowledge_icache : CpuMaintenance → Observed → CpuMailbox → CpuMailbox
acknowledge_icache m o mb = record mb {
  completed_icache_epoch =
      if needs_icache m
      then max mb.completed_icache_epoch o.requested_icache
      else mb.completed_icache_epoch;
}

-- `CpuMailbox::snapshot`
pub record CpuSnapshot : Type 0 where
  pub online : Bool
  pub draining : Bool
  pub admission_count : ℕ
  pub reasons : ℕ
  pub requested_tlb : ℕ
  pub completed_tlb : ℕ
  pub requested_icache : ℕ
  pub completed_icache : ℕ

unfoldable pub snapshot : CpuMailbox → CpuSnapshot
snapshot mb = record {
  online = state mb.lifecycle == cpu_online;
  draining = state mb.lifecycle == cpu_draining;
  admission_count = admissions mb.lifecycle;
  reasons = mb.pending_reasons;
  requested_tlb = mb.requested_tlb_epoch;
  completed_tlb = mb.completed_tlb_epoch;
  requested_icache = mb.requested_icache_epoch;
  completed_icache = mb.completed_icache_epoch;
}
