-- ===== src/Tlb/Interleaving/Progress.antt =====
-- What a grace of crates/thekernel-axtlb/src/lib.rs tells, whatever the interleaving.
use thekernel_ax.Prelude.{
  ℕ, ◌≤◌, ◌≡◌, sym, subst, inl, inr, true, some, List, arith, get_elem?, set,
}
use thekernel_ax.Tlb.Maintenance.{needs_tlb, needs_icache, contains}
use thekernel_ax.Tlb.Mailbox.{CpuMailbox, raise_requests, acknowledge_tlb, acknowledge_icache}
use thekernel_ax.Tlb.Request.{ShootdownRequest, ShootdownGrace, try_complete}
use thekernel_ax.Tlb.Issue.Completion.{IsAcknowledged, try_complete_iff, try_complete-eq-some}
use thekernel_ax.Tlb.Interleaving.{
  Local, ServiceStep, load_requested_tlb, load_completed_tlb, load_requested_icache,
  load_completed_icache, nothing_pending, maintain_local, complete_tlb, complete_icache, World,
  touched, boot, Step, allocate, raise, touch, service, Steps, stay, then_step,
}
use thekernel_ax.Tlb.Interleaving.Safety.{slot_cases, Steps-boot-IsOrdered}

-- No acknowledgement is taken back.
abbrev pub HasGrown : CpuMailbox → CpuMailbox → Type 0
HasGrown mb mb' =
    (mb.completed_tlb_epoch ≤ mb'.completed_tlb_epoch)
    × (mb.completed_icache_epoch ≤ mb'.completed_icache_epoch)

service-HasGrown :
    (next : ℕ) (mb mb' : CpuMailbox) (l l' : Local) → ServiceStep next mb l mb' l' → HasGrown mb mb'
unfolding acknowledge_tlb acknowledge_icache
service-HasGrown next mb mb' l l' (load_requested_tlb at) = omega arith
service-HasGrown next mb mb' l l' (load_completed_tlb at) = omega arith
service-HasGrown next mb mb' l l' (load_requested_icache at) = omega arith
service-HasGrown next mb mb' l l' (load_completed_icache at) = omega arith
service-HasGrown next mb mb' l l' (nothing_pending at n) = omega arith
service-HasGrown next mb mb' l l' (maintain_local at n) = omega arith
service-HasGrown next mb mb' l l' (complete_tlb at) = ground arith
service-HasGrown next mb mb' l l' (complete_icache at) = ground arith

slot-HasGrown :
    (mbs : List CpuMailbox) (cpu : ℕ) (mb mb' : CpuMailbox)
    → get_elem? mbs cpu ≡ some mb
    → HasGrown mb mb'
    → (c : ℕ) (x : CpuMailbox) → get_elem? (set mbs cpu mb') c ≡ some x
    → (y : CpuMailbox) × (get_elem? mbs c ≡ some y) × HasGrown y x
slot-HasGrown mbs cpu mb mb' g grown c x h = elim (slot_cases cpu c mbs mb mb' x g h) [
  | inl (e, is) ↦
      (mb, subst (λ i. get_elem? mbs i ≡ some mb) (sym e) g, subst (λ z. HasGrown mb z) is grown)
  | inr (differ, old) ↦ (x, old, omega arith)
]

Step-HasGrown :
    (w w' : World)
    → Step w w'
    → (c : ℕ) (x : CpuMailbox) → get_elem? w'.domain.cpus c ≡ some x
    → (y : CpuMailbox) × (get_elem? w.domain.cpus c ≡ some y) × HasGrown y x
unfolding raise_requests
Step-HasGrown w w' (allocate room) c x h = (x, h, omega arith)
Step-HasGrown w w' (raise cpu m epoch {mb} g le) c x h =
    slot-HasGrown w.domain.cpus cpu mb (raise_requests m epoch mb) g (omega arith) c x h
Step-HasGrown w w' (touch cpu a b {mb} g) c x h =
    slot-HasGrown w.domain.cpus cpu mb (touched mb a b) g (omega arith) c x h
Step-HasGrown w w' (service cpu {mb} {mb'} {l'} g st) c x h =
    slot-HasGrown w.domain.cpus cpu mb mb' g
      (service-HasGrown w.domain.next_epoch mb mb' (w.local cpu) l' st) c x h

IsAcknowledged-Steps :
    (r : ShootdownRequest) (w w' : World)
    → Steps w w'
    → IsAcknowledged w.domain r
    → IsAcknowledged w'.domain r
IsAcknowledged-Steps r w w' stay a cpu x g t = a cpu x g t
IsAcknowledged-Steps r w w' (then_step {v} ss st) a cpu x g t =
    let before = IsAcknowledged-Steps r w v ss a in
    let (y, old, grown) = Step-HasGrown v w' st cpu x g in
    let own = before cpu y old t in (λ n. omega (arith, own.0 n), λ n. omega (arith, own.1 n))

-- A request that has been given grace is given the same grace after any further steps.
pub try_complete-Steps :
    (r : ShootdownRequest) (g : ShootdownGrace) (w w' : World)
    → Steps w w'
    → try_complete w.domain r ≡ some g
    → try_complete w'.domain r ≡ some g
unfolding try_complete
try_complete-Steps r g w w' ss h =
    let kept =
      (try_complete_iff w'.domain r).1
        (IsAcknowledged-Steps r w w' ss (try_complete-eq-some w.domain r g h)) in
    ground arith

-- When grace is given, in any world that steps reach from the boot, each target has run each class
-- asked for at a time when the request's epoch was already allocated.
pub try_complete-flushed :
    (max_cpus : ℕ) (r : ShootdownRequest) (g : ShootdownGrace) (w : World)
    → Steps (boot max_cpus) w
    → try_complete w.domain r ≡ some g
    → (cpu : ℕ) (mb : CpuMailbox) → get_elem? w.domain.cpus cpu ≡ some mb
    → contains r.targets cpu ≡ true
    → (needs_tlb r.maintenance ≡ true → r.epoch ≤ (w.local cpu).flushed_tlb)
      × (needs_icache r.maintenance ≡ true → r.epoch ≤ (w.local cpu).flushed_icache)
try_complete-flushed max_cpus r g w ss h cpu mb found t =
    let order = Steps-boot-IsOrdered max_cpus w ss cpu mb found in
    let own = try_complete-eq-some w.domain r g h cpu mb found t in
    (
      λ n. omega (arith, own.0 n, order.tlb_flushed),
      λ n. omega (arith, own.1 n, order.icache_flushed),
    )
