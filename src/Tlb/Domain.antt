-- ===== src/Tlb/Domain.antt =====
-- crates/thekernel-axtlb/src/lib.rs: `TlbShootdown`, its lifecycle, reasons and service.
-- Each function is a method run without interference; `Tlb.Interleaving` has the atomic steps.
use thekernel_ax.Prelude.{
  ℕ, ◌+◌, ◌*◌, ◌/◌, Bool, true, false, not, ◌||◌, Option, none, some, List, ltb, ◌==◌,
  if◌then◌else◌, max, get_elem?, set, replicate,
}
use thekernel_ax.Prelude.Result.{Result, ok, err, panic, ◌>>=◌}
use thekernel_ax.Tlb.Maintenance.{
  CpuMaintenance, needs_tlb, needs_icache, IpiReason, cpu_maintenance_reason,
}
use thekernel_ax.Tlb.Mailbox.{
  CpuMailbox, new_mailbox, cpu_offline, cpu_online, cpu_draining, state, admissions, AdmissionError,
  unavailable, exhausted, try_admit, release_admission, post_reason, observe, pending_maintenance,
  acknowledge_tlb, acknowledge_icache, CpuSnapshot, snapshot,
}

-- `MAX_CPUS` is the length of `cpus`.
pub record TlbShootdown : Type 0 where
  pub next_epoch : ℕ
  pub cpus : List CpuMailbox

-- `TlbShootdown::new` asserts that there is a slot.
unfoldable pub new_domain : ℕ → Option TlbShootdown
new_domain max_cpus =
    if ltb 0 max_cpus
    then some (record { next_epoch = 0; cpus = replicate max_cpus new_mailbox })
    else none

pub data CpuLifecycleError : Type 0 where
  invalid_cpu invalid_state mailbox_not_drained admission_in_progress : CpuLifecycleError
  shootdown_pending reason_pending : CpuLifecycleError

pub data MailboxError : Type 0 where
  invalid_cpu : MailboxError

pub data ReasonPostError : Type 0 where
  invalid_cpu cpu_unavailable admission_exhausted reserved_maintenance_reason : ReasonPostError

-- `self.cpus.get(cpu).ok_or(e)`
abbrev pub lookup {ℓ} : {E : Type ℓ} → TlbShootdown → ℕ → E → Result E CpuMailbox
lookup d cpu e = elim (get_elem? d.cpus cpu) [ none ↦ err e | some mb ↦ ok mb ]

abbrev pub update : TlbShootdown → ℕ → CpuMailbox → TlbShootdown
update d cpu mb = record d { cpus = set d.cpus cpu mb }

unfoldable pub publish_mailbox : CpuMailbox → Result CpuLifecycleError CpuMailbox
publish_mailbox mb =
    if not (mb.pending_reasons == 0)
      || not (mb.requested_tlb_epoch == mb.completed_tlb_epoch)
      || not (mb.requested_icache_epoch == mb.completed_icache_epoch)
    then err mailbox_not_drained
    else if mb.lifecycle == cpu_offline
    then ok (record mb { lifecycle = cpu_online })
    else err invalid_state

unfoldable pub publish_online : TlbShootdown → ℕ → Result CpuLifecycleError TlbShootdown
unfolding publish_mailbox
publish_online d cpu = do
  mb ← lookup d cpu CpuLifecycleError.invalid_cpu
  online ← publish_mailbox mb
  ok (update d cpu online)

unfoldable pub drain_mailbox : CpuMailbox → Result CpuLifecycleError CpuMailbox
drain_mailbox mb =
    if not (state mb.lifecycle == cpu_online)
    then err invalid_state
    else ok (record mb { lifecycle = mb.lifecycle / 4 * 4 + cpu_draining })

unfoldable pub begin_offline : TlbShootdown → ℕ → Result CpuLifecycleError TlbShootdown
unfolding drain_mailbox
begin_offline d cpu = do
  mb ← lookup d cpu CpuLifecycleError.invalid_cpu
  draining ← drain_mailbox mb
  ok (update d cpu draining)

unfoldable pub close_mailbox : CpuMailbox → Result CpuLifecycleError CpuMailbox
close_mailbox mb =
    if not (state mb.lifecycle == cpu_draining)
    then err invalid_state
    else if not (admissions mb.lifecycle == 0)
    then err admission_in_progress
    else if ltb mb.completed_tlb_epoch mb.requested_tlb_epoch
        || ltb mb.completed_icache_epoch mb.requested_icache_epoch
    then err shootdown_pending
    else if not (mb.pending_reasons == 0)
    then err reason_pending
    else ok (record mb { lifecycle = cpu_offline })

unfoldable pub complete_offline : TlbShootdown → ℕ → Result CpuLifecycleError TlbShootdown
unfolding close_mailbox
complete_offline d cpu = do
  mb ← lookup d cpu CpuLifecycleError.invalid_cpu
  offline ← close_mailbox mb
  ok (update d cpu offline)

abbrev pub post_error : AdmissionError → ReasonPostError
post_error unavailable = cpu_unavailable
post_error exhausted = admission_exhausted

-- `.map_err(f)?`
abbrev pub map_err {ℓ κ μ} :
    {E : Type ℓ} {F : Type κ} {A : Type μ} → (E → F) → Result E A → Result F A
map_err f (ok a) = ok a
map_err f (err e) = err (f e)
map_err f panic = panic

-- The new domain, and whether hardware must be kicked. The admission is released on return.
unfoldable pub post_non_maintenance_reason :
    TlbShootdown → ℕ → IpiReason → Result ReasonPostError (TlbShootdown × Bool)
post_non_maintenance_reason d cpu reason =
    if reason.index == cpu_maintenance_reason.index then err reserved_maintenance_reason else (do
      mb ← lookup d cpu ReasonPostError.invalid_cpu
      admitted ← map_err post_error (try_admit mb)
      let posted = post_reason admitted reason
      ok (update d cpu (release_admission posted.0), posted.1))

-- `swap(0)`: the new domain and the bits taken.
unfoldable pub take_pending_reasons : TlbShootdown → ℕ → Result MailboxError (TlbShootdown × ℕ)
take_pending_reasons d cpu = do
  mb ← lookup d cpu MailboxError.invalid_cpu
  ok (update d cpu (record mb { pending_reasons = 0 }), mb.pending_reasons)

pub record ShootdownService : Type 0 where
  pub completed_tlb_epoch : ℕ
  pub completed_icache_epoch : ℕ
  pub tlb_flush_count : ℕ
  pub icache_flush_count : ℕ

abbrev pub flag : Bool → ℕ
flag true = 1
flag false = 0

-- What a service of a mailbox does: the mailbox afterwards, the argument of the callback if it is
-- called, and the result.
pub record Serviced : Type 0 where
  pub mailbox : CpuMailbox
  pub called_with : Option CpuMaintenance
  pub result : ShootdownService

unfoldable pub service_mailbox : CpuMailbox → Serviced
service_mailbox mb =
    let o = observe mb in
    elim (pending_maintenance o) [
      | none ↦ record {
        mailbox = mb;
        called_with = none;
        result = record {
          completed_tlb_epoch = o.completed_tlb;
          completed_icache_epoch = o.completed_icache;
          tlb_flush_count = 0;
          icache_flush_count = 0;
        };
      }
      | some m ↦ record {
        mailbox = acknowledge_icache m o (acknowledge_tlb m o mb);
        called_with = some m;
        result = record {
          completed_tlb_epoch =
              if needs_tlb m
              then max (max mb.completed_tlb_epoch o.requested_tlb) o.requested_tlb
              else o.completed_tlb;
          completed_icache_epoch =
              if needs_icache m
              then max (max mb.completed_icache_epoch o.requested_icache) o.requested_icache
              else o.completed_icache;
          tlb_flush_count = flag (needs_tlb m);
          icache_flush_count = flag (needs_icache m);
        };
      }
    ]

unfoldable pub service_maintenance :
    TlbShootdown → ℕ → Result MailboxError (TlbShootdown × Serviced)
service_maintenance d cpu = do
  mb ← lookup d cpu MailboxError.invalid_cpu
  ok (update d cpu (service_mailbox mb).mailbox, service_mailbox mb)

unfoldable pub cpu_snapshot : TlbShootdown → ℕ → Result MailboxError CpuSnapshot
cpu_snapshot d cpu = do mb ← lookup d cpu MailboxError.invalid_cpu; ok (snapshot mb)
