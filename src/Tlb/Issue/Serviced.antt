-- ===== src/Tlb/Issue/Serviced.antt =====
-- A request of crates/thekernel-axtlb/src/lib.rs from its issue to the service of a target.
use thekernel_ax.Prelude.{
  ℕ, ◌≤◌, ◌≡◌, sym, subst, inl, inr, true, false, ◌||◌, some, arith, get_elem?, set, ◌==◌, ==_iff,
  Bool-cases, get_elem?-set_self, lt-length_of_get,
}
use thekernel_ax.Prelude.Result.{ok}
use thekernel_ax.Tlb.Maintenance.{needs_tlb, needs_icache, contains}
use thekernel_ax.Tlb.Mailbox.{CpuMailbox, raise_requests, post_reason}
use thekernel_ax.Tlb.Domain.{TlbShootdown, Serviced, service_mailbox, service_maintenance}
use thekernel_ax.Tlb.Request.{ShootdownRequest, mailbox_pending, target_pending}
use thekernel_ax.Tlb.Issue.{publish}
use thekernel_ax.Tlb.Issue.Spec.{IsIssued}
use thekernel_ax.Tlb.Issue.Completion.{HasAcknowledged, mailbox_pending_iff, service_mailbox_lem}

-- What a target's slot holds after the issue.
published_target :
    (d d' : TlbShootdown) (r : ShootdownRequest)
    → IsIssued d d' r
    → (cpu : ℕ) (mb : CpuMailbox) → get_elem? d.cpus cpu ≡ some mb
    → contains r.targets cpu ≡ true
    → get_elem? d'.cpus cpu ≡ some (publish r.maintenance r.epoch mb).0
published_target d d' r issued cpu mb g t = elim (Bool-cases (cpu == r.issuer)) [
  | inl same ↦
      let spared =
        subst (λ i. contains r.targets i ≡ false) (sym ((==_iff cpu r.issuer).0 same))
          issued.issuer_spared in
      ground arith
  | inr differ ↦ ground (arith, issued.slots cpu mb g)
]

-- A request that has just been issued is pending on each target that had acknowledged no epoch
-- beyond the last one allocated, as soon as it asks for a class.
pub issued-target_pending :
    (d d' : TlbShootdown) (r : ShootdownRequest)
    → IsIssued d d' r
    → (needs_tlb r.maintenance || needs_icache r.maintenance) ≡ true
    → (cpu : ℕ) (mb : CpuMailbox) → get_elem? d.cpus cpu ≡ some mb
    → contains r.targets cpu ≡ true
    → mb.completed_tlb_epoch ≤ d.next_epoch
    → mb.completed_icache_epoch ≤ d.next_epoch
    → target_pending d' r cpu ≡ true
unfolding target_pending mailbox_pending publish post_reason raise_requests
issued-target_pending d d' r issued asks cpu mb g t ht hi =
    ground (arith, published_target d d' r issued cpu mb g t, issued.fresh)

-- One service of a target after the issue completes the request there: it is not pending any more.
pub issued-service_maintenance :
    (d d' : TlbShootdown) (r : ShootdownRequest)
    → IsIssued d d' r
    → (cpu : ℕ) (mb : CpuMailbox) → get_elem? d.cpus cpu ≡ some mb
    → contains r.targets cpu ≡ true
    → (d'' : TlbShootdown) × (s : Serviced) × (service_maintenance d' cpu ≡ ok (d'', s))
      × (target_pending d'' r cpu ≡ false)
unfolding target_pending publish post_reason raise_requests service_maintenance
issued-service_maintenance d d' r issued cpu mb g t =
    let there = published_target d d' r issued cpu mb g t in
    let now = (publish r.maintenance r.epoch mb).0 in
    let s = service_mailbox now in
    let law = service_mailbox_lem now in
    let at_cpu =
      get_elem?-set_self d'.cpus cpu s.mailbox (lt-length_of_get d'.cpus cpu now there) in
    let done : HasAcknowledged r s.mailbox =
      (λ n. ground (arith, law.0), λ n. ground (arith, law.1)) in
    (
      record d' { cpus = set d'.cpus cpu s.mailbox },
      s,
      ground arith,
      ground (arith, (mailbox_pending_iff r s.mailbox).1 done),
    )
