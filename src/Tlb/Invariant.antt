-- ===== src/Tlb/Invariant.antt =====
-- The sequential client of crates/thekernel-axtlb/src/lib.rs: the calls that change a domain, one
-- after the other, and what is to hold of every domain that they reach.
pub mod Mailboxes
pub mod Calls
pub mod Reach
mod Tests
use thekernel_ax.Prelude.{ℕ, ◌<◌, ◌≤◌, ◌≡◌, Bool, some, get_elem?}
use thekernel_ax.Prelude.Result.{ok}
use thekernel_ax.Tlb.Maintenance.{CpuMaintenance, CpuSet, IpiReason}
use thekernel_ax.Tlb.Mailbox.{word_mod, state, cpu_offline, cpu_draining, admission_one, CpuMailbox}
use thekernel_ax.Tlb.Domain.{
  TlbShootdown, new_domain, publish_online, begin_offline, complete_offline,
  post_non_maintenance_reason, take_pending_reasons, Serviced, service_maintenance,
}
use thekernel_ax.Tlb.Request.{ShootdownRequest, drop_request}
use thekernel_ax.Tlb.Issue.{issue_after_local_maintenance, issue_for_targets}

-- One slot: the lifecycle word holds one of the three states, an offline slot is drained and holds
-- no admission, and the epochs of each class are in order.
pub record IsSound (next : ℕ) (mb : CpuMailbox) : Type 0 where
  pub word : mb.lifecycle < word_mod
  pub known : state mb.lifecycle ≤ cpu_draining
  pub tlb_order :
      (mb.completed_tlb_epoch ≤ mb.requested_tlb_epoch) × (mb.requested_tlb_epoch ≤ next)
  pub icache_order :
      (mb.completed_icache_epoch ≤ mb.requested_icache_epoch) × (mb.requested_icache_epoch ≤ next)
  pub closed :
      state mb.lifecycle ≡ cpu_offline
      → (mb.lifecycle ≡ 0)
        × (mb.completed_tlb_epoch ≡ mb.requested_tlb_epoch)
        × (mb.completed_icache_epoch ≡ mb.requested_icache_epoch)

abbrev pub IsSoundDomain : TlbShootdown → Type 0
IsSoundDomain d =
    (cpu : ℕ) (mb : CpuMailbox) → get_elem? d.cpus cpu ≡ some mb → IsSound d.next_epoch mb

-- A call that changes the domain, with its arguments; an issue may fail. A request is dropped once,
-- so its issuer still holds an admission then.
pub data Call (d : TlbShootdown) : TlbShootdown → Type 0 where
  call_publish_online : {d' : TlbShootdown} (cpu : ℕ) → publish_online d cpu ≡ ok d' → Call d d'
  call_begin_offline : {d' : TlbShootdown} (cpu : ℕ) → begin_offline d cpu ≡ ok d' → Call d d'
  call_complete_offline : {d' : TlbShootdown} (cpu : ℕ) → complete_offline d cpu ≡ ok d' → Call d d'
  call_post :
      {d' : TlbShootdown} (cpu : ℕ) (reason : IpiReason) {kick : Bool}
      → post_non_maintenance_reason d cpu reason ≡ ok (d', kick)
      → Call d d'
  call_take :
      {d' : TlbShootdown} (cpu : ℕ) {bits : ℕ}
      → take_pending_reasons d cpu ≡ ok (d', bits)
      → Call d d'
  call_service :
      {d' : TlbShootdown} (cpu : ℕ) {s : Serviced}
      → service_maintenance d cpu ≡ ok (d', s)
      → Call d d'
  call_issue :
      (issuer : ℕ) (m : CpuMaintenance) → Call d (issue_after_local_maintenance d issuer m).0
  call_issue_for_targets :
      (issuer : ℕ) (targets : CpuSet) (m : CpuMaintenance)
      → Call d (issue_for_targets d issuer targets m).0
  call_drop :
      (r : ShootdownRequest) {mb : CpuMailbox}
      → get_elem? d.cpus r.issuer ≡ some mb
      → admission_one ≤ mb.lifecycle
      → Call d (drop_request d r)

pub data Reached : TlbShootdown → Type 0 where
  created : (max_cpus : ℕ) {d : TlbShootdown} → new_domain max_cpus ≡ some d → Reached d
  then_call : {d d' : TlbShootdown} → Reached d → Call d d' → Reached d'
