-- ===== src/Tlb/Issue/Completion.antt =====
-- The completion of a request in crates/thekernel-axtlb/src/lib.rs: `try_complete` against the
-- acknowledgements, and the service that brings them.
use thekernel_ax.Prelude.{
  ℕ, zero, suc, ◌+◌, ◌<◌, ◌≤◌, ltb, max, inl, inr, ◌≡◌, ◌↔◌, refl, sym, subst, ◌⊎◌, Bool, true,
  false, ◌||◌, Option, some, none, arith, Bool-cases, Option-cases, length, get_elem?,
  lt-length_of_get,
}
use thekernel_ax.Tlb.Maintenance.{
  CpuMaintenance, tlb, icache, tlb_and_icache, needs_tlb, needs_icache, from_pending, contains,
}
use thekernel_ax.Tlb.Mailbox.{
  CpuMailbox, Observed, observe, pending_maintenance, acknowledge_tlb, acknowledge_icache,
}
use thekernel_ax.Tlb.Domain.{TlbShootdown, service_mailbox}
use thekernel_ax.Tlb.Request.{
  ShootdownRequest, ShootdownGrace, mailbox_pending, target_pending, none_pending, try_complete,
}

-- One mailbox has acknowledged every class of a request.
abbrev pub HasAcknowledged : ShootdownRequest → CpuMailbox → Type 0
HasAcknowledged r mb =
    (needs_tlb r.maintenance ≡ true → r.epoch ≤ mb.completed_tlb_epoch)
    × (needs_icache r.maintenance ≡ true → r.epoch ≤ mb.completed_icache_epoch)

abbrev pub IsAcknowledged : TlbShootdown → ShootdownRequest → Type 0
IsAcknowledged d r =
    (cpu : ℕ) (mb : CpuMailbox)
    → get_elem? d.cpus cpu ≡ some mb
    → contains r.targets cpu ≡ true
    → HasAcknowledged r mb

pub mailbox_pending_iff :
    (r : ShootdownRequest) (mb : CpuMailbox) → (mailbox_pending r mb ≡ false) ↔ HasAcknowledged r mb
unfolding mailbox_pending
mailbox_pending_iff r mb = ground arith

none_pending-get :
    (d : TlbShootdown) (r : ShootdownRequest) (left cpu : ℕ)
    → none_pending d r left cpu ≡ true
    → (j : ℕ) → j < left
    → contains r.targets (cpu + j) ≡ true
    → target_pending d r (cpu + j) ≡ false
unfolding none_pending
none_pending-get d r zero cpu h j lt t = elim lt [ ]
none_pending-get d r (suc left) cpu h zero lt t =
    let here : cpu + 0 ≡ cpu = omega arith in
    let t' = subst (λ c. contains r.targets c ≡ true) here t in rw here (ground arith)
none_pending-get d r (suc left) cpu h (suc j) lt t =
    let there : cpu + suc j ≡ suc cpu + j = omega arith in
    let t' = subst (λ c. contains r.targets c ≡ true) there t in
    rw there (none_pending-get d r left (suc cpu) (ground arith) j (omega arith) t')

none_pending_of_all :
    (d : TlbShootdown) (r : ShootdownRequest) (left cpu : ℕ)
    → ((c : ℕ) → contains r.targets c ≡ true → target_pending d r c ≡ false)
    → none_pending d r left cpu ≡ true
unfolding none_pending
none_pending_of_all d r zero cpu all = refl
none_pending_of_all d r (suc left) cpu all =
    ground (arith, all cpu, none_pending_of_all d r left (suc cpu) all)

-- Grace is given exactly when every target has acknowledged every class asked for, and it carries
-- the epoch and the maintenance of the request.
pub try_complete_iff :
    (d : TlbShootdown) (r : ShootdownRequest)
    → (try_complete d r ≡ some (record { epoch = r.epoch; maintenance = r.maintenance }))
      ↔ IsAcknowledged d r
unfolding try_complete target_pending
try_complete_iff d r = (
  λ h cpu mb g t.
      let zero_add : 0 + cpu ≡ cpu = omega arith in
      let quiet : none_pending d r (length d.cpus) 0 ≡ true = ground arith in
      let own =
        none_pending-get d r (length d.cpus) 0 quiet cpu (lt-length_of_get d.cpus cpu mb g)
          (subst (λ c. contains r.targets c ≡ true) (sym zero_add) t) in
      let own' = subst (λ c. target_pending d r c ≡ false) zero_add own in
      (mailbox_pending_iff r mb).0 (ground arith),
  λ all.
      let quiet = none_pending_of_all d r (length d.cpus) 0 (λ c t.
        elim (Option-cases (get_elem? d.cpus c)) [
          | inl missing ↦ ground arith
          | inr (mb, found) ↦ ground (arith, (mailbox_pending_iff r mb).1 (all c mb found t))
        ]) in
      ground arith,
)

-- No other grace is given.
pub try_complete-eq-some :
    (d : TlbShootdown) (r : ShootdownRequest) (g : ShootdownGrace)
    → try_complete d r ≡ some g
    → IsAcknowledged d r
unfolding try_complete
try_complete-eq-some d r g h = (try_complete_iff d r).0 (ground arith)

-- The union of what is behind.
pub pending_maintenance_cases :
    (o : Observed)
    → let t = ltb o.completed_tlb o.requested_tlb in
      let i = ltb o.completed_icache o.requested_icache in
      ((pending_maintenance o ≡ none) × (t ≡ false) × (i ≡ false))
      ⊎ ((m : CpuMaintenance) × (pending_maintenance o ≡ some m)
          × (needs_tlb m ≡ t)
          × (needs_icache m ≡ i)
          × ((t || i) ≡ true))
unfolding pending_maintenance from_pending needs_tlb needs_icache
pending_maintenance_cases o = elim (Bool-cases (ltb o.completed_tlb o.requested_tlb)) [
  | inl t ↦ elim (Bool-cases (ltb o.completed_icache o.requested_icache)) [
    | inl i ↦ rw (t, i) (inr (tlb_and_icache, refl, refl, refl, refl))
    | inr i ↦ rw (t, i) (inr (tlb, refl, refl, refl, refl))
  ]
  | inr t ↦ elim (Bool-cases (ltb o.completed_icache o.requested_icache)) [
    | inl i ↦ rw (t, i) (inr (icache, refl, refl, refl, refl))
    | inr i ↦ rw (t, i) (inl (refl, refl, refl))
  ]
]

-- Whether the callback of a service was called with a class.
abbrev pub called_for : Option CpuMaintenance → (CpuMaintenance → Bool) → Bool
called_for none needs = false
called_for (some m) needs = needs m

-- A service without interference acknowledges everything requested and keeps what was
-- acknowledged, reports those epochs and changes nothing else; it calls the callback for exactly
-- the classes that were behind, and not at all where none was.
pub service_mailbox_lem :
    (mb : CpuMailbox)
    → let s = service_mailbox mb in
      (s.mailbox.completed_tlb_epoch ≡ max mb.completed_tlb_epoch mb.requested_tlb_epoch)
      × (s.mailbox.completed_icache_epoch ≡ max mb.completed_icache_epoch mb.requested_icache_epoch)
      × (s.result.completed_tlb_epoch ≡ s.mailbox.completed_tlb_epoch)
      × (s.result.completed_icache_epoch ≡ s.mailbox.completed_icache_epoch)
      × (s.mailbox ≡ record mb {
        completed_tlb_epoch = s.mailbox.completed_tlb_epoch;
        completed_icache_epoch = s.mailbox.completed_icache_epoch;
      })
      × (called_for s.called_with needs_tlb ≡ ltb mb.completed_tlb_epoch mb.requested_tlb_epoch)
      × (called_for s.called_with needs_icache
          ≡ ltb mb.completed_icache_epoch mb.requested_icache_epoch)
      × ((s.called_with ≡ none) ↔ (
          (mb.requested_tlb_epoch ≤ mb.completed_tlb_epoch)
          × (mb.requested_icache_epoch ≤ mb.completed_icache_epoch)))
unfolding service_mailbox acknowledge_tlb acknowledge_icache
service_mailbox_lem mb = elim (pending_maintenance_cases (observe mb)) [
  | inl (idle, t, i) ↦ (
    ground arith,
    ground arith,
    ground arith,
    ground arith,
    ground arith,
    ground arith,
    ground arith,
    ground arith,
  )
  | inr (m', run, t, i, some_class) ↦ (
    ground arith,
    ground arith,
    ground arith,
    ground arith,
    ground arith,
    ground arith,
    ground arith,
    ground arith,
  )
]
