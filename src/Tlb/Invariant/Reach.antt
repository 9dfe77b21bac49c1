-- ===== src/Tlb/Invariant/Reach.antt =====
-- The domains that calls of crates/thekernel-axtlb/src/lib.rs reach.
use thekernel_ax.Prelude.{
  ◌≢◌, ℕ, ◌≡◌, refl, sym, subst, inl, inr, some, arith, get_elem?, replicate, replicate-get,
}
use thekernel_ax.Prelude.Result.{panic}
use thekernel_ax.Tlb.Maintenance.{CpuMaintenance, CpuSet}
use thekernel_ax.Tlb.Mailbox.{new_mailbox, try_admit}
use thekernel_ax.Tlb.Domain.{
  TlbShootdown, new_domain, publish_mailbox, publish_online, drain_mailbox, begin_offline,
  close_mailbox, complete_offline,
}
use thekernel_ax.Tlb.Issue.{issue_after_local_maintenance, issue_for_targets}
use thekernel_ax.Prelude.Result.{Result-cases}
use thekernel_ax.Tlb.Issue.Targeted.{
  issue_for_targets-err, issue_for_targets-ne-panic, issue_for_targets-IsIssued,
}
use thekernel_ax.Tlb.Issue.Online.{issue_after_local_maintenance-IsIssued}
use thekernel_ax.Tlb.Issue.Size.{length-issue_after_local_maintenance, length-issue_for_targets}
use thekernel_ax.Tlb.Invariant.{
  IsSound, IsSoundDomain, Call, call_publish_online, call_begin_offline, call_complete_offline,
  call_post, call_take, call_service, call_issue, call_issue_for_targets, call_drop, Reached,
  created, then_call,
}
use thekernel_ax.Tlb.Invariant.Mailboxes.{
  publish_mailbox-IsSound, drain_mailbox-IsSound, close_mailbox-IsSound,
}
use thekernel_ax.Tlb.Issue.{issue_to_online}
use thekernel_ax.Tlb.Invariant.Calls.{
  issued-IsSound, lifecycle-IsSound, post-IsSound, take-IsSound, service-IsSound, drop-IsSound,
  failed-IsSound,
}

issue_after_local_maintenance-ne-panic :
    (d : TlbShootdown) (issuer : ℕ) (m : CpuMaintenance)
    → (issue_after_local_maintenance d issuer m).1 ≢ panic
unfolding issue_after_local_maintenance issue_to_online try_admit
issue_after_local_maintenance-ne-panic d issuer m h = ground arith

issue-IsSound :
    (d : TlbShootdown) (issuer : ℕ) (m : CpuMaintenance)
    → IsSoundDomain d
    → IsSoundDomain (issue_after_local_maintenance d issuer m).0
issue-IsSound d issuer m s =
    let d' = (issue_after_local_maintenance d issuer m).0 in
    let size = length-issue_after_local_maintenance d issuer m in
    elim (Result-cases (issue_after_local_maintenance d issuer m).1) [
      | inl (r, h) ↦
          issued-IsSound d d' r
            (issue_after_local_maintenance-IsIssued d issuer m d' r (ground arith)).0 size s
      | inr (inl (e, h)) ↦ failed-IsSound d issuer m e d' (ground arith) size s
      | inr (inr h) ↦ absurd (issue_after_local_maintenance-ne-panic d issuer m h)
    ]

issue_for_targets-IsSound :
    (d : TlbShootdown) (issuer : ℕ) (targets : CpuSet) (m : CpuMaintenance)
    → IsSoundDomain d
    → IsSoundDomain (issue_for_targets d issuer targets m).0
issue_for_targets-IsSound d issuer targets m s =
    let d' = (issue_for_targets d issuer targets m).0 in
    elim (Result-cases (issue_for_targets d issuer targets m).1) [
      | inl (r, h) ↦
          issued-IsSound d d' r
            (issue_for_targets-IsIssued d issuer targets m d' r (ground arith)).0
            (length-issue_for_targets d issuer targets m) s
      | inr (inl (e, h)) ↦
          subst IsSoundDomain (sym (issue_for_targets-err d issuer targets m e d' (ground arith))) s
      | inr (inr h) ↦ absurd (issue_for_targets-ne-panic d issuer targets m h)
    ]

Call-IsSound : (d d' : TlbShootdown) → Call d d' → IsSoundDomain d → IsSoundDomain d'
unfolding publish_online begin_offline complete_offline
Call-IsSound d d' (call_publish_online cpu h) s =
    lifecycle-IsSound publish_mailbox publish_mailbox-IsSound d d' cpu h s
Call-IsSound d d' (call_begin_offline cpu h) s =
    lifecycle-IsSound drain_mailbox drain_mailbox-IsSound d d' cpu h s
Call-IsSound d d' (call_complete_offline cpu h) s =
    lifecycle-IsSound close_mailbox close_mailbox-IsSound d d' cpu h s
Call-IsSound d d' (call_post cpu reason {kick} h) s = post-IsSound d d' cpu reason kick h s
Call-IsSound d d' (call_take cpu {bits} h) s = take-IsSound d d' cpu bits h s
Call-IsSound d d' (call_service cpu {s = x} h) s = service-IsSound d d' cpu x h s
Call-IsSound d d' (call_issue issuer m) s = issue-IsSound d issuer m s
Call-IsSound d d' (call_issue_for_targets issuer targets m) s =
    issue_for_targets-IsSound d issuer targets m s
Call-IsSound d d' (call_drop r {mb} g held) s = drop-IsSound d r mb g held s

new_domain-IsSound :
    (max_cpus : ℕ) (d : TlbShootdown) → new_domain max_cpus ≡ some d → IsSoundDomain d
unfolding new_domain
new_domain-IsSound max_cpus d h cpu mb g =
    let is : record { next_epoch = 0; cpus = replicate max_cpus new_mailbox } ≡ d = ground arith in
    let at_zero = subst (λ x. get_elem? x.cpus cpu ≡ some mb) (sym is) g in
    let fresh : new_mailbox ≡ mb = replicate-get max_cpus new_mailbox mb cpu at_zero in
    let sound : IsSound d.next_epoch new_mailbox = record {
      word = omega arith;
      known = omega arith;
      tlb_order = omega arith;
      icache_order = omega arith;
      closed = λ e. (refl, refl, refl);
    } in
    subst (IsSound d.next_epoch) fresh sound

-- In every domain that calls reach from a new one, each slot is sound: its lifecycle word fits 64
-- bits and holds one of the three states, an offline slot holds no admission and has no epoch open,
-- and for each class the acknowledged epoch is at most the requested one, and that at most the last
-- one allocated.
pub Reached-IsSound : (d : TlbShootdown) → Reached d → IsSoundDomain d
Reached-IsSound d (created max_cpus h) = new_domain-IsSound max_cpus d h
Reached-IsSound d (then_call {d = e} reached call) =
    Call-IsSound e d call (Reached-IsSound e reached)
