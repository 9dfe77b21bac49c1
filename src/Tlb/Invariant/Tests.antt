-- ===== src/Tlb/Invariant/Tests.antt =====
-- A run of crates/thekernel-axtlb with two CPUs, and the invariant of the domain that it reaches.
use thekernel_ax.Prelude.{refl, [], ◌∷◌}
use thekernel_ax.Tlb.Maintenance.{tlb_and_icache}
use thekernel_ax.Tlb.Mailbox.{CpuMailbox, new_mailbox}
use thekernel_ax.Tlb.Domain.{TlbShootdown, new_domain, publish_online}
use thekernel_ax.Tlb.Issue.{issue_after_local_maintenance}
use thekernel_ax.Tlb.Invariant.{
  IsSoundDomain, call_publish_online, call_issue, Reached, created, then_call,
}
use thekernel_ax.Tlb.Invariant.Reach.{Reached-IsSound}

abbrev online : CpuMailbox
online = record new_mailbox { lifecycle = 1 }

abbrev both_online : TlbShootdown
both_online = record { next_epoch = 0; cpus = online ∷ online ∷ [] }

both-Reached : Reached both_online
unfolding new_domain publish_online
both-Reached =
    then_call
      (then_call
        (created 2 {d = record { next_epoch = 0; cpus = new_mailbox ∷ new_mailbox ∷ [] }} refl)
        (call_publish_online {d' = record { next_epoch = 0; cpus = online ∷ new_mailbox ∷ [] }} 0
          refl))
      (call_publish_online 1 refl)

Reached-IsSound_example :
    IsSoundDomain (issue_after_local_maintenance both_online 0 tlb_and_icache).0
Reached-IsSound_example =
    Reached-IsSound (issue_after_local_maintenance both_online 0 tlb_and_icache).0
      (then_call both-Reached (call_issue 0 tlb_and_icache))
