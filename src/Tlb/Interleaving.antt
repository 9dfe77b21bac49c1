-- ===== src/Tlb/Interleaving.antt =====
-- crates/thekernel-axtlb/src/lib.rs as atomic steps, one for each load or read-modify-write on an
-- epoch. Any number of CPUs take them in any order. On one CPU a service of its mailbox is not
-- interrupted by another one. A step on the lifecycle or the reason word is any change of these.
-- The flush itself is the callback of a service; a ghost records the last epoch that had been
-- allocated when each CPU last ran each class.
pub mod Safety
pub mod Progress
pub mod Sequential
use thekernel_ax.Prelude.{
  ℕ, ◌+◌, ◌<◌, ◌≤◌, ◌≡◌, some, none, ◌==◌, if◌then◌else◌, get_elem?, replicate,
}
use thekernel_ax.Tlb.Maintenance.{CpuMaintenance, needs_tlb, needs_icache}
use thekernel_ax.Tlb.Mailbox.{
  word_mod, CpuMailbox, new_mailbox, raise_requests, Observed, pending_maintenance, acknowledge_tlb,
  acknowledge_icache,
}
use thekernel_ax.Tlb.Domain.{TlbShootdown, update}

-- Where a CPU is in `service_maintenance`, with what it has loaded.
pub data Handler : Type 0 where
  idle : Handler
  loaded_requested_tlb : ℕ → Handler
  loaded_completed_tlb : (rt ct : ℕ) → Handler
  loaded_requested_icache : (rt ct ri : ℕ) → Handler
  observed : Observed → Handler
  maintained : CpuMaintenance → Observed → Handler
  acknowledged : CpuMaintenance → Observed → Handler

pub record Local : Type 0 where
  pub handler : Handler
  pub flushed_tlb : ℕ
  pub flushed_icache : ℕ

-- One step of the service on a CPU, when `next` is the last epoch allocated.
pub data ServiceStep (next : ℕ) (mb : CpuMailbox) (l : Local) : CpuMailbox → Local → Type 0 where
  load_requested_tlb :
      l.handler ≡ idle
      → ServiceStep next mb l mb
          (record l { handler = loaded_requested_tlb mb.requested_tlb_epoch })
  load_completed_tlb :
      {rt : ℕ}
      → l.handler ≡ loaded_requested_tlb rt
      → ServiceStep next mb l mb
          (record l { handler = loaded_completed_tlb rt mb.completed_tlb_epoch })
  load_requested_icache :
      {rt ct : ℕ}
      → l.handler ≡ loaded_completed_tlb rt ct
      → ServiceStep next mb l mb
          (record l { handler = loaded_requested_icache rt ct mb.requested_icache_epoch })
  load_completed_icache :
      {rt ct ri : ℕ}
      → l.handler ≡ loaded_requested_icache rt ct ri
      → ServiceStep next mb l mb (record l {
        handler = observed (record {
          requested_tlb = rt;
          completed_tlb = ct;
          requested_icache = ri;
          completed_icache = mb.completed_icache_epoch;
        });
      })
  nothing_pending :
      {o : Observed}
      → l.handler ≡ observed o
      → pending_maintenance o ≡ none
      → ServiceStep next mb l mb (record l { handler = idle })
  maintain_local :
      {o : Observed} {m : CpuMaintenance}
      → l.handler ≡ observed o
      → pending_maintenance o ≡ some m
      → ServiceStep next mb l mb (record {
        handler = maintained m o;
        flushed_tlb = if needs_tlb m then next else l.flushed_tlb;
        flushed_icache = if needs_icache m then next else l.flushed_icache;
      })
  complete_tlb :
      {o : Observed} {m : CpuMaintenance}
      → l.handler ≡ maintained m o
      → ServiceStep next mb l (acknowledge_tlb m o mb) (record l { handler = acknowledged m o })
  complete_icache :
      {o : Observed} {m : CpuMaintenance}
      → l.handler ≡ acknowledged m o
      → ServiceStep next mb l (acknowledge_icache m o mb) (record l { handler = idle })

pub record World : Type 0 where
  pub domain : TlbShootdown
  pub local : ℕ → Local

abbrev pub update_local : (ℕ → Local) → ℕ → Local → ℕ → Local
update_local f cpu l c = if c == cpu then l else f c

-- The lifecycle and the reasons are free, the epochs are kept.
abbrev pub touched : CpuMailbox → (lifecycle pending_reasons : ℕ) → CpuMailbox
touched mb lifecycle pending_reasons = record mb {
  lifecycle = lifecycle;
  pending_reasons = pending_reasons;
}

-- `raise` is one `fetch_max` (or both) of an issuer that has allocated `epoch`.
pub data Step (w : World) : World → Type 0 where
  allocate :
      w.domain.next_epoch + 1 < word_mod
      → Step w (record w { domain = record w.domain { next_epoch = w.domain.next_epoch + 1 } })
  raise :
      (cpu : ℕ) (m : CpuMaintenance) (epoch : ℕ) {mb : CpuMailbox}
      → get_elem? w.domain.cpus cpu ≡ some mb
      → epoch ≤ w.domain.next_epoch
      → Step w (record w { domain = update w.domain cpu (raise_requests m epoch mb) })
  touch :
      (cpu lifecycle pending_reasons : ℕ) {mb : CpuMailbox}
      → get_elem? w.domain.cpus cpu ≡ some mb
      → Step w (record w { domain = update w.domain cpu (touched mb lifecycle pending_reasons) })
  service :
      (cpu : ℕ) {mb mb' : CpuMailbox} {l' : Local}
      → get_elem? w.domain.cpus cpu ≡ some mb
      → ServiceStep w.domain.next_epoch mb (w.local cpu) mb' l'
      → Step w (record { domain = update w.domain cpu mb'; local = update_local w.local cpu l' })

abbrev pub boot : ℕ → World
boot max_cpus = record {
  domain = record { next_epoch = 0; cpus = replicate max_cpus new_mailbox };
  local = λ _. record { handler = idle; flushed_tlb = 0; flushed_icache = 0 };
}

pub data Steps (w : World) : World → Type 0 where
  stay : Steps w w
  then_step : {v u : World} → Steps w v → Step v u → Steps w u
