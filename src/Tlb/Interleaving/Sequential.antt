-- ===== src/Tlb/Interleaving/Sequential.antt =====
-- `service_maintenance` of crates/thekernel-axtlb/src/lib.rs as a sequence of its atomic steps.
use thekernel_ax.Prelude.{
  ℕ, ◌≡◌, refl, sym, subst, inl, inr, some, arith, get_elem?, ==_refl, if◌then◌else◌, set-set,
  set-get_self, get_elem?-set_self, lt-length_of_get, Option-cases,
}
use thekernel_ax.Prelude.Result.{ok}
use thekernel_ax.Tlb.Maintenance.{CpuMaintenance, needs_tlb, needs_icache}
use thekernel_ax.Tlb.Mailbox.{
  CpuMailbox, Observed, observe, pending_maintenance, acknowledge_tlb, acknowledge_icache,
}
use thekernel_ax.Tlb.Domain.{TlbShootdown, update, Serviced, service_mailbox, service_maintenance}
use thekernel_ax.Tlb.Issue.Completion.{called_for}
use thekernel_ax.Tlb.Interleaving.{
  idle, loaded_requested_tlb, loaded_completed_tlb, loaded_requested_icache, observed, maintained,
  acknowledged, Local, ServiceStep, load_requested_tlb, load_completed_tlb, load_requested_icache,
  load_completed_icache, nothing_pending, maintain_local, complete_tlb, complete_icache, World,
  update_local, service, Steps, stay, then_step,
}

-- Steps lead from a world to a domain in which one CPU has the local state given.
abbrev Leads : World → TlbShootdown → ℕ → Local → Type 0
Leads w d cpu l = (f : ℕ → Local) × Steps w (record { domain = d; local = f }) × (f cpu ≡ l)

then_service :
    (w : World) (d : TlbShootdown) (cpu : ℕ) (mb mb' : CpuMailbox) (l l' : Local)
    → get_elem? d.cpus cpu ≡ some mb
    → Leads w d cpu l
    → ServiceStep d.next_epoch mb l mb' l'
    → Leads w (update d cpu mb') cpu l'
then_service w d cpu mb mb' l l' g (f, ss, at) st = (
  update_local f cpu l',
  then_step ss (service cpu g (subst (λ x. ServiceStep d.next_epoch mb x mb' l') (sym at) st)),
  rw (==_refl cpu) refl,
)

-- A step that leaves the mailbox alone.
then_local :
    (w : World) (d : TlbShootdown) (cpu : ℕ) (mb : CpuMailbox) (l l' : Local)
    → get_elem? d.cpus cpu ≡ some mb
    → Leads w d cpu l
    → ServiceStep d.next_epoch mb l mb l'
    → Leads w d cpu l'
then_local w d cpu mb l l' g leads st =
    subst (λ mbs. Leads w (record d { cpus = mbs }) cpu l') (set-get_self d.cpus cpu mb g)
      (then_service w d cpu mb mb l l' g leads st)

-- The four loads.
loads :
    (w : World) (cpu : ℕ) (mb : CpuMailbox)
    → get_elem? w.domain.cpus cpu ≡ some mb
    → (w.local cpu).handler ≡ idle
    → Leads w w.domain cpu (record (w.local cpu) { handler = observed (observe mb) })
loads w cpu mb g quiet =
    let l = w.local cpu in
    let d = w.domain in
    let a = record l { handler = loaded_requested_tlb mb.requested_tlb_epoch } in
    let b = record l {
      handler = loaded_completed_tlb mb.requested_tlb_epoch mb.completed_tlb_epoch;
    } in
    let c = record l {
      handler =
          loaded_requested_icache mb.requested_tlb_epoch mb.completed_tlb_epoch
            mb.requested_icache_epoch;
    } in
    let e = record l { handler = observed (observe mb) } in
    let at_a = then_local w d cpu mb l a g (w.local, stay, refl) (load_requested_tlb quiet) in
    let at_b = then_local w d cpu mb a b g at_a (load_completed_tlb refl) in
    let at_c = then_local w d cpu mb b c g at_b (load_requested_icache refl) in
    then_local w d cpu mb c e g at_c (load_completed_icache refl)

-- The two acknowledgements, once the callback has run.
acknowledges :
    (w : World) (cpu : ℕ) (mb : CpuMailbox) (m : CpuMaintenance) (o : Observed) (l : Local)
    → get_elem? w.domain.cpus cpu ≡ some mb
    → Leads w w.domain cpu (record l { handler = maintained m o })
    → Leads w
        (update w.domain cpu (acknowledge_icache m o (acknowledge_tlb m o mb)))
        cpu
        (record l { handler = idle })
acknowledges w cpu mb m o l g leads =
    let d = w.domain in
    let mb' = acknowledge_tlb m o mb in
    let mb'' = acknowledge_icache m o mb' in
    let l0 = record l { handler = maintained m o } in
    let l1 = record l { handler = acknowledged m o } in
    let l2 = record l { handler = idle } in
    let first = then_service w d cpu mb mb' l0 l1 g leads (complete_tlb refl) in
    let there = get_elem?-set_self d.cpus cpu mb' (lt-length_of_get d.cpus cpu mb g) in
    let second =
      then_service w (update d cpu mb') cpu mb' mb'' l1 l2 there first (complete_icache refl) in
    subst (λ mbs. Leads w (record d { cpus = mbs }) cpu l2) (set-set d.cpus cpu mb' mb'') second

-- On a CPU whose service is idle, a successful call of service_maintenance is a sequence of atomic
-- steps to the domain it returns, which ends idle and has recorded a flush at the last epoch
-- allocated for each class that its callback was called for, and for no other.
pub service_maintenance-Steps :
    (w : World) (cpu : ℕ) (d' : TlbShootdown) (s : Serviced)
    → (w.local cpu).handler ≡ idle
    → service_maintenance w.domain cpu ≡ ok (d', s)
    → (f : ℕ → Local) × Steps w (record { domain = d'; local = f })
      × ((f cpu).handler ≡ idle)
      × ((f cpu).flushed_tlb ≡ (
          if called_for s.called_with needs_tlb
          then w.domain.next_epoch
          else (w.local cpu).flushed_tlb))
      × ((f cpu).flushed_icache ≡ (
          if called_for s.called_with needs_icache
          then w.domain.next_epoch
          else (w.local cpu).flushed_icache))
unfolding service_maintenance service_mailbox
service_maintenance-Steps w cpu d' s quiet h = elim (Option-cases (get_elem? w.domain.cpus cpu)) [
  | inl missing ↦ ground arith
  | inr (mb, g) ↦
      let d = w.domain in
      let l = w.local cpu in
      let e = record l { handler = observed (observe mb) } in
      let seen = loads w cpu mb g quiet in
      elim (Option-cases (pending_maintenance (observe mb))) [
        | inl nothing ↦
            let (f, ss, at) =
              then_local w d cpu mb e (record l { handler = idle }) g seen
                (nothing_pending refl nothing) in
            let same : d ≡ d' = ground (arith, set-get_self d.cpus cpu mb g) in
            (
              f,
              subst (λ x. Steps w (record { domain = x; local = f })) same ss,
              rw at refl,
              rw at (ground arith),
              rw at (ground arith),
            )
        | inr (m, run) ↦
            let k = record l {
              flushed_tlb = if needs_tlb m then d.next_epoch else l.flushed_tlb;
              flushed_icache = if needs_icache m then d.next_epoch else l.flushed_icache;
            } in
            let ran =
              then_local w d cpu mb e (record k { handler = maintained m (observe mb) }) g seen
                (maintain_local refl run) in
            let (f, ss, at) = acknowledges w cpu mb m (observe mb) k g ran in
            let same : update d cpu
                  (acknowledge_icache m (observe mb) (acknowledge_tlb m (observe mb) mb))
                ≡ d' =
              ground arith in
            (
              f,
              subst (λ x. Steps w (record { domain = x; local = f })) same ss,
              rw at refl,
              rw at (ground arith),
              rw at (ground arith),
            )
      ]
]
