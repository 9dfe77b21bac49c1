-- ===== src/Tlb/Interleaving/Safety.antt =====
-- What holds of every interleaving of the steps of crates/thekernel-axtlb/src/lib.rs.
use thekernel_ax.Prelude.{
  ℕ, ◌+◌, ◌≤◌, ◌≡◌, refl, sym, subst, ◌∙◌, inl, inr, true, false, some, List, arith, ◌==◌, ==_iff,
  ==_refl, ◌⊎◌, Bool-cases, get_elem?, set, get_elem?-set_self, replicate-get, get_elem?-set_ne,
  lt-length_of_get,
}
use thekernel_ax.Tlb.Maintenance.{needs_tlb, needs_icache}
use thekernel_ax.Tlb.Mailbox.{
  CpuMailbox, new_mailbox, raise_requests, acknowledge_tlb, acknowledge_icache,
}
use thekernel_ax.Tlb.Interleaving.{
  Handler, idle, loaded_requested_tlb, loaded_completed_tlb, loaded_requested_icache, observed,
  maintained, acknowledged, Local, ServiceStep, load_requested_tlb, load_completed_tlb,
  load_requested_icache, load_completed_icache, nothing_pending, maintain_local, complete_tlb,
  complete_icache, World, touched, boot, Step, allocate, raise, touch, service, Steps, stay,
  then_step,
}

-- What a service has loaded was requested, and what it has run covers what it will acknowledge.
unfoldable pub LoadedOk : CpuMailbox → Local → Handler → Type 0
LoadedOk mb l idle = (0 ≤ 0)
LoadedOk mb l (loaded_requested_tlb rt) = (rt ≤ mb.requested_tlb_epoch)
LoadedOk mb l (loaded_completed_tlb rt ct) = (rt ≤ mb.requested_tlb_epoch)
LoadedOk mb l (loaded_requested_icache rt ct ri) =
    (rt ≤ mb.requested_tlb_epoch) × (ri ≤ mb.requested_icache_epoch)
LoadedOk mb l (observed o) =
    (o.requested_tlb ≤ mb.requested_tlb_epoch) × (o.requested_icache ≤ mb.requested_icache_epoch)
LoadedOk mb l (maintained m o) =
    (o.requested_tlb ≤ mb.requested_tlb_epoch)
    × (o.requested_icache ≤ mb.requested_icache_epoch)
    × (needs_tlb m ≡ true → o.requested_tlb ≤ l.flushed_tlb)
    × (needs_icache m ≡ true → o.requested_icache ≤ l.flushed_icache)
LoadedOk mb l (acknowledged m o) =
    (o.requested_icache ≤ mb.requested_icache_epoch)
    × (needs_icache m ≡ true → o.requested_icache ≤ l.flushed_icache)

-- The order of the epochs on one CPU: `next` is the last one allocated, `tlb` and `icache` are the
-- last ones that had been when the CPU last ran each class.
pub record IsOrdered (next : ℕ) (mb : CpuMailbox) (tlb icache : ℕ) : Type 0 where
  pub tlb_requested : mb.completed_tlb_epoch ≤ mb.requested_tlb_epoch
  pub tlb_allocated : mb.requested_tlb_epoch ≤ next
  pub tlb_flushed : mb.completed_tlb_epoch ≤ tlb
  pub icache_requested : mb.completed_icache_epoch ≤ mb.requested_icache_epoch
  pub icache_allocated : mb.requested_icache_epoch ≤ next
  pub icache_flushed : mb.completed_icache_epoch ≤ icache

-- The same while a service runs.
abbrev pub IsSafe : ℕ → CpuMailbox → Local → Type 0
IsSafe next mb l = IsOrdered next mb l.flushed_tlb l.flushed_icache × LoadedOk mb l l.handler

service-IsSafe :
    (next : ℕ) (mb mb' : CpuMailbox) (l l' : Local)
    → ServiceStep next mb l mb' l'
    → IsSafe next mb l
    → IsSafe next mb' l'
unfolding LoadedOk acknowledge_tlb acknowledge_icache
service-IsSafe next mb mb' l l' (load_requested_tlb at) s = (s.0, omega arith)
service-IsSafe next mb mb' l l' (load_completed_tlb at) s = (s.0, subst (LoadedOk mb l) at s.1)
service-IsSafe next mb mb' l l' (load_requested_icache at) s =
    let before = subst (LoadedOk mb l) at s.1 in (s.0, ground arith)
service-IsSafe next mb mb' l l' (load_completed_icache at) s =
    let before = subst (LoadedOk mb l) at s.1 in (s.0, ground arith)
service-IsSafe next mb mb' l l' (nothing_pending at n) s = (s.0, omega arith)
service-IsSafe next mb mb' l l' (maintain_local at n) s =
    let before = subst (LoadedOk mb l) at s.1 in
    let r = s.0 in
    (
      record {
        tlb_requested = r.tlb_requested;
        tlb_allocated = r.tlb_allocated;
        tlb_flushed = ground (arith, r.tlb_flushed, r.tlb_requested, r.tlb_allocated);
        icache_requested = r.icache_requested;
        icache_allocated = r.icache_allocated;
        icache_flushed = ground (arith, r.icache_flushed, r.icache_requested, r.icache_allocated);
      },
      ground (arith, r.tlb_allocated, r.icache_allocated),
    )
service-IsSafe next mb mb' l l' (complete_tlb at) s =
    let before = subst (LoadedOk mb l) at s.1 in
    let r = s.0 in
    (
      record {
        tlb_requested = ground (arith, r.tlb_requested);
        tlb_allocated = r.tlb_allocated;
        tlb_flushed = ground (arith, r.tlb_flushed);
        icache_requested = r.icache_requested;
        icache_allocated = r.icache_allocated;
        icache_flushed = r.icache_flushed;
      },
      ground arith,
    )
service-IsSafe next mb mb' l l' (complete_icache at) s =
    let before = subst (LoadedOk mb l) at s.1 in
    let r = s.0 in
    (
      record {
        tlb_requested = r.tlb_requested;
        tlb_allocated = r.tlb_allocated;
        tlb_flushed = r.tlb_flushed;
        icache_requested = ground (arith, r.icache_requested);
        icache_allocated = r.icache_allocated;
        icache_flushed = ground (arith, r.icache_flushed);
      },
      omega arith,
    )

-- More requested, more allocated.
grown-IsSafe :
    (next next' : ℕ) (mb mb' : CpuMailbox) (l : Local)
    → next ≤ next'
    → mb.requested_tlb_epoch ≤ mb'.requested_tlb_epoch
    → mb.requested_icache_epoch ≤ mb'.requested_icache_epoch
    → mb'.requested_tlb_epoch ≤ next'
    → mb'.requested_icache_epoch ≤ next'
    → mb'.completed_tlb_epoch ≡ mb.completed_tlb_epoch
    → mb'.completed_icache_epoch ≡ mb.completed_icache_epoch
    → IsSafe next mb l
    → IsSafe next' mb' l
unfolding LoadedOk
grown-IsSafe next next' mb mb' l hn ht hi bt bi ct ci s =
    let r = s.0 in
    (
      record {
        tlb_requested = ground (arith, r.tlb_requested);
        tlb_allocated = bt;
        tlb_flushed = ground (arith, r.tlb_flushed);
        icache_requested = ground (arith, r.icache_requested);
        icache_allocated = bi;
        icache_flushed = ground (arith, r.icache_flushed);
      },
      more l.handler s.1,
    )
  where
    more : (h : Handler) → LoadedOk mb l h → LoadedOk mb' l h
    more idle o = o
    more (loaded_requested_tlb rt) o = omega arith
    more (loaded_completed_tlb rt ct') o = omega arith
    more (loaded_requested_icache rt ct' ri) o = ground arith
    more (observed o') o = ground arith
    more (maintained m o') o = ground arith
    more (acknowledged m o') o = ground arith

abbrev pub IsSafeWorld : World → Type 0
IsSafeWorld w =
    (cpu : ℕ) (mb : CpuMailbox)
    → get_elem? w.domain.cpus cpu ≡ some mb
    → IsSafe w.domain.next_epoch mb (w.local cpu)

-- What stands in a slot after one slot was set.
pub slot_cases :
    (cpu c : ℕ) (mbs : List CpuMailbox) (mb mb' x : CpuMailbox)
    → get_elem? mbs cpu ≡ some mb
    → get_elem? (set mbs cpu mb') c ≡ some x
    → ((c ≡ cpu) × (mb' ≡ x)) ⊎ ((c == cpu ≡ false) × (get_elem? mbs c ≡ some x))
slot_cases cpu c mbs mb mb' x g h = elim (Bool-cases (c == cpu)) [
  | inl same ↦
      let e = (==_iff c cpu).0 same in
      let own : some mb' ≡ some x =
        sym (get_elem?-set_self mbs cpu mb' (lt-length_of_get mbs cpu mb g))
        ∙ subst (λ i. get_elem? (set mbs cpu mb') i ≡ some x) e h in
      inl (e, ground arith)
  | inr differ ↦ inr (differ, sym (get_elem?-set_ne mbs cpu c mb' (λ e. ground arith)) ∙ h)
]

-- A slot was set, the rest of the world is as it was.
kept-IsSafe :
    (w : World) (cpu c : ℕ) (mb mb' x : CpuMailbox)
    → IsSafeWorld w
    → get_elem? w.domain.cpus cpu ≡ some mb
    → IsSafe w.domain.next_epoch mb' (w.local cpu)
    → get_elem? (set w.domain.cpus cpu mb') c ≡ some x
    → IsSafe w.domain.next_epoch x (w.local c)
kept-IsSafe w cpu c mb mb' x s g here h =
    let next = w.domain.next_epoch in
    elim (slot_cases cpu c w.domain.cpus mb mb' x g h) [
      | inl (e, is) ↦
          subst (λ i. IsSafe next x (w.local i)) (sym e)
            (subst (λ y. IsSafe next y (w.local cpu)) is here)
      | inr (differ, old) ↦ s c x old
    ]

Step-IsSafe : (w w' : World) → Step w w' → IsSafeWorld w → IsSafeWorld w'
unfolding raise_requests
Step-IsSafe w w' (allocate room) s c x h =
    let next = w.domain.next_epoch in
    let old = (s c x h).0 in
    grown-IsSafe next (next + 1) x x (w.local c) (omega arith) (omega arith) (omega arith)
      (ground (arith, old.tlb_allocated)) (ground (arith, old.icache_allocated)) refl refl (s c x h)
Step-IsSafe w w' (raise cpu m epoch {mb} g le) s c x h =
    let next = w.domain.next_epoch in
    let old = (s cpu mb g).0 in
    let new = raise_requests m epoch mb in
    kept-IsSafe w cpu c mb new x s g
      (grown-IsSafe next next mb new (w.local cpu) (omega arith) (ground arith) (ground arith)
        (ground (arith, old.tlb_allocated)) (ground (arith, old.icache_allocated)) refl refl
        (s cpu mb g))
      h
Step-IsSafe w w' (touch cpu a b {mb} g) s c x h =
    let next = w.domain.next_epoch in
    let old = (s cpu mb g).0 in
    let new = touched mb a b in
    kept-IsSafe w cpu c mb new x s g
      (grown-IsSafe next next mb new (w.local cpu) (omega arith) (omega arith) (omega arith)
        old.tlb_allocated old.icache_allocated refl refl (s cpu mb g))
      h
Step-IsSafe w w' (service cpu {mb} {mb'} {l'} g st) s c x h =
    let next = w.domain.next_epoch in
    let here = service-IsSafe next mb mb' (w.local cpu) l' st (s cpu mb g) in
    elim (slot_cases cpu c w.domain.cpus mb mb' x g h) [
      | inl (e, is) ↦ rw (e, ==_refl cpu) (subst (λ y. IsSafe next y l') is here)
      | inr (differ, old) ↦ rw differ (s c x old)
    ]

Steps-IsSafe : (w w' : World) → Steps w w' → IsSafeWorld w → IsSafeWorld w'
Steps-IsSafe w w' stay s = s
Steps-IsSafe w w' (then_step {v} ss st) s = Step-IsSafe v w' st (Steps-IsSafe w v ss s)

boot-IsSafe : (max_cpus : ℕ) → IsSafeWorld (boot max_cpus)
unfolding LoadedOk
boot-IsSafe max_cpus c x h =
    let fresh : new_mailbox ≡ x = replicate-get max_cpus new_mailbox x c h in
    subst (λ y. IsSafe 0 y (record { handler = idle; flushed_tlb = 0; flushed_icache = 0 })) fresh
      (omega arith)

-- In every world that steps reach from the boot, on every CPU and for both classes: what is
-- acknowledged was requested, what is requested was allocated, and what is acknowledged was
-- followed by a local run of that class.
pub Steps-boot-IsOrdered :
    (max_cpus : ℕ) (w : World)
    → Steps (boot max_cpus) w
    → (cpu : ℕ) (mb : CpuMailbox) → get_elem? w.domain.cpus cpu ≡ some mb
    → IsOrdered w.domain.next_epoch mb (w.local cpu).flushed_tlb (w.local cpu).flushed_icache
Steps-boot-IsOrdered max_cpus w ss cpu mb g =
    (Steps-IsSafe (boot max_cpus) w ss (boot-IsSafe max_cpus) cpu mb g).0
