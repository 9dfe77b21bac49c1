-- ===== src/Tlb/Invariant/Mailboxes.antt =====
-- The operations of crates/thekernel-axtlb/src/lib.rs on one slot and its soundness.
use thekernel_ax.Prelude.{ℕ, ◌+◌, ◌<◌, ◌≤◌, ◌≡◌, sym, subst, arith, max}
use thekernel_ax.Prelude.Result.{ok}
use thekernel_ax.Tlb.Maintenance.{CpuMaintenance}
use thekernel_ax.Tlb.Mailbox.{
  word_mod, state, cpu_online, admission_one, CpuMailbox, release_admission, post_reason,
  raise_requests,
}
use thekernel_ax.Tlb.Mailbox.Admission.{admitted}
use thekernel_ax.Tlb.Domain.{publish_mailbox, drain_mailbox, close_mailbox, service_mailbox}
use thekernel_ax.Tlb.Issue.{publish}
use thekernel_ax.Tlb.Issue.Completion.{service_mailbox_lem}
use thekernel_ax.Tlb.Invariant.{IsSound}

pub publish_mailbox-IsSound :
    (next : ℕ) (mb mb' : CpuMailbox)
    → publish_mailbox mb ≡ ok mb'
    → IsSound next mb
    → IsSound next mb'
unfolding publish_mailbox
publish_mailbox-IsSound next mb mb' h s = record {
  word = ground (arith, s.word);
  known = ground (arith, s.known);
  tlb_order = ground (arith, s.tlb_order);
  icache_order = ground (arith, s.icache_order);
  closed = λ e. ground (arith, s.closed);
}

pub drain_mailbox-IsSound :
    (next : ℕ) (mb mb' : CpuMailbox)
    → drain_mailbox mb ≡ ok mb'
    → IsSound next mb
    → IsSound next mb'
unfolding drain_mailbox
drain_mailbox-IsSound next mb mb' h s = record {
  word = ground (arith, s.word);
  known = ground (arith, s.known);
  tlb_order = ground (arith, s.tlb_order);
  icache_order = ground (arith, s.icache_order);
  closed = λ e. ground (arith, s.closed);
}

pub close_mailbox-IsSound :
    (next : ℕ) (mb mb' : CpuMailbox)
    → close_mailbox mb ≡ ok mb'
    → IsSound next mb
    → IsSound next mb'
unfolding close_mailbox
close_mailbox-IsSound next mb mb' h s = record {
  word = ground (arith, s.word);
  known = ground (arith, s.known);
  tlb_order = ground (arith, s.tlb_order);
  icache_order = ground (arith, s.icache_order);
  closed = λ e. ground (arith, s.tlb_order, s.icache_order);
}

pub publish-IsSound :
    (next epoch : ℕ) (m : CpuMaintenance) (mb : CpuMailbox)
    → state mb.lifecycle ≡ cpu_online
    → next ≤ epoch
    → IsSound next mb
    → IsSound epoch (publish m epoch mb).0
unfolding publish post_reason raise_requests
publish-IsSound next epoch m mb on le s = record {
  word = s.word;
  known = s.known;
  tlb_order = ground (arith, s.tlb_order);
  icache_order = ground (arith, s.icache_order);
  closed = λ e. ground (arith);
}

pub acknowledged-IsSound :
    (next : ℕ) (mb : CpuMailbox) (t i : ℕ)
    → t ≡ max mb.completed_tlb_epoch mb.requested_tlb_epoch
    → i ≡ max mb.completed_icache_epoch mb.requested_icache_epoch
    → IsSound next mb
    → IsSound next (record mb { completed_tlb_epoch = t; completed_icache_epoch = i })
acknowledged-IsSound next mb t i ht hi s = record {
  word = s.word;
  known = s.known;
  tlb_order = ground (arith, s.tlb_order);
  icache_order = ground (arith, s.icache_order);
  closed = λ e. ground (arith, s.closed e, s.tlb_order, s.icache_order);
}

pub service_mailbox-IsSound :
    (next : ℕ) (mb : CpuMailbox) → IsSound next mb → IsSound next (service_mailbox mb).mailbox
service_mailbox-IsSound next mb s =
    let law = service_mailbox_lem mb in
    let now = (service_mailbox mb).mailbox in
    subst (IsSound next) (sym law.4) (
      acknowledged-IsSound next mb now.completed_tlb_epoch now.completed_icache_epoch law.0 law.1 s)

pub admitted-IsSound :
    (next : ℕ) (mb : CpuMailbox)
    → state mb.lifecycle ≡ cpu_online
    → mb.lifecycle + admission_one < word_mod
    → IsSound next mb
    → IsSound next (admitted mb)
admitted-IsSound next mb on room s = record {
  word = room;
  known = omega (arith, s.known);
  tlb_order = s.tlb_order;
  icache_order = s.icache_order;
  closed = λ e. ground arith;
}

pub release-IsSound :
    (next : ℕ) (mb : CpuMailbox)
    → admission_one ≤ mb.lifecycle
    → IsSound next mb
    → IsSound next (release_admission mb)
unfolding release_admission
release-IsSound next mb held s = record {
  word = omega arith;
  known = ground (arith, s.known, s.word);
  tlb_order = s.tlb_order;
  icache_order = s.icache_order;
  closed = λ e. ground (arith, s.closed, s.word);
}

-- The reasons may be anything.
pub reasons-IsSound :
    (next reasons : ℕ) (mb : CpuMailbox)
    → IsSound next mb
    → IsSound next (record mb { pending_reasons = reasons })
reasons-IsSound next reasons mb s = record {
  word = s.word;
  known = s.known;
  tlb_order = s.tlb_order;
  icache_order = s.icache_order;
  closed = s.closed;
}

pub later-IsSound :
    (next next' : ℕ) (mb : CpuMailbox) → next ≤ next' → IsSound next mb → IsSound next' mb
later-IsSound next next' mb le s = record {
  word = s.word;
  known = s.known;
  tlb_order = ground (arith, s.tlb_order);
  icache_order = ground (arith, s.icache_order);
  closed = s.closed;
}
