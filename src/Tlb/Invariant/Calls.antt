-- ===== src/Tlb/Invariant/Calls.antt =====
-- The calls of crates/thekernel-axtlb/src/lib.rs and the soundness of the slots.
use thekernel_ax.Prelude.{
  ℕ, ◌+◌, ◌≤◌, ◌≡◌, sym, subst, ◌∙◌, inl, inr, Bool, some, arith, ==_iff, Bool-cases, Option-cases,
  ◌==◌, length, get_elem?, get_elem?-total, lt-length_of_get,
}
use thekernel_ax.Prelude.Result.{Result, ok, err, ◌>>=◌, >>=-eq-ok}
use thekernel_ax.Tlb.Maintenance.{CpuMaintenance, contains, IpiReason}
use thekernel_ax.Tlb.Mailbox.{admission_one, CpuMailbox, try_admit, release_admission, post_reason}
use thekernel_ax.Tlb.Mailbox.Admission.{admitted, try_admit-eq-ok}
use thekernel_ax.Tlb.Domain.{
  CpuLifecycleError, TlbShootdown, lookup, update, post_non_maintenance_reason,
  take_pending_reasons, Serviced, service_mailbox, service_maintenance,
}
use thekernel_ax.Tlb.Request.{ShootdownIssueError, ShootdownRequest, drop_issuer, drop_request}
use thekernel_ax.Tlb.Issue.{publish, issue_after_local_maintenance}
use thekernel_ax.Tlb.Interleaving.Safety.{slot_cases}
use thekernel_ax.Prelude.Result.{Result-cases}
use thekernel_ax.Tlb.Issue.Spec.{IsIssued, issued_mailbox}
use thekernel_ax.Tlb.Issue.Online.{issue_after_local_maintenance-err}
use thekernel_ax.Tlb.Invariant.{IsSound, IsSoundDomain}
use thekernel_ax.Tlb.Invariant.Mailboxes.{
  publish-IsSound, service_mailbox-IsSound, admitted-IsSound, release-IsSound, reasons-IsSound,
  later-IsSound,
}

update-IsSound :
    (d : TlbShootdown) (cpu : ℕ) (mb mb' : CpuMailbox)
    → get_elem? d.cpus cpu ≡ some mb
    → IsSound d.next_epoch mb'
    → IsSoundDomain d
    → IsSoundDomain (update d cpu mb')
update-IsSound d cpu mb mb' g new s c x h = elim (slot_cases cpu c d.cpus mb mb' x g h) [
  | inl (e, is) ↦ subst (IsSound d.next_epoch) is new
  | inr (differ, old) ↦ s c x old
]

-- A successful issue.
pub issued-IsSound :
    (d d' : TlbShootdown) (r : ShootdownRequest)
    → IsIssued d d' r
    → length d'.cpus ≡ length d.cpus
    → IsSoundDomain d
    → IsSoundDomain d'
issued-IsSound d d' r issued size s c x h =
    let (old, there) = get_elem?-total d.cpus c (omega (arith, lt-length_of_get d'.cpus c x h)) in
    let before = s c old there in
    let after = issued.slots c old there in
    let is : issued_mailbox r c old ≡ x = ground arith in
    let epoch : d'.next_epoch ≡ d.next_epoch + 1 = issued.next ∙ issued.fresh in
    let le : d.next_epoch ≤ d'.next_epoch = omega arith in
    let step = λ (y : CpuMailbox) (sound : IsSound d.next_epoch y).
      later-IsSound d.next_epoch d'.next_epoch y le sound in
    subst (IsSound d'.next_epoch) is (elim (Bool-cases (c == r.issuer)) [
      | inl same ↦
          let (mb, found, online, fits) = issued.issuer_online in
          let at_c =
            subst (λ k. get_elem? d.cpus k ≡ some mb) (sym ((==_iff c r.issuer).0 same)) found in
          let own : old ≡ mb = ground arith in
          rw same (
            step (admitted old)
              (admitted-IsSound d.next_epoch old (ground arith) (ground arith) before))
      | inr differ ↦ elim (Bool-cases (contains r.targets c)) [
        | inl target ↦
            rw (differ, target)
              (subst (λ n. IsSound n (publish r.maintenance r.epoch old).0) (sym issued.next)
                (publish-IsSound d.next_epoch r.epoch r.maintenance old
                  (issued.targets_online c old there target) (omega (arith, issued.fresh)) before))
        | inr other ↦ rw (differ, other) (step old before)
      ]
    ])

-- A call of the shape of the three lifecycle calls.
pub lifecycle-IsSound :
    (f : CpuMailbox → Result CpuLifecycleError CpuMailbox)
    → ((next : ℕ) (mb mb' : CpuMailbox) → f mb ≡ ok mb' → IsSound next mb → IsSound next mb')
    → (d d' : TlbShootdown) (cpu : ℕ)
    → (lookup d cpu CpuLifecycleError.invalid_cpu >>= λ mb. f mb >>= λ mb'. ok (update d cpu mb'))
      ≡ ok d'
    → IsSoundDomain d
    → IsSoundDomain d'
lifecycle-IsSound f keeps d d' cpu h s =
    let (mb, looked, rest) =
      >>=-eq-ok (lookup d cpu CpuLifecycleError.invalid_cpu)
        (λ mb. f mb >>= λ mb'. ok (update d cpu mb')) h in
    let (mb', did, made) = >>=-eq-ok (f mb) (λ mb'. ok (update d cpu mb')) rest in
    let found : get_elem? d.cpus cpu ≡ some mb = ground arith in
    let same : update d cpu mb' ≡ d' = ground arith in
    subst IsSoundDomain same
      (update-IsSound d cpu mb mb' found (keeps d.next_epoch mb mb' did (s cpu mb found)) s)

pub post-IsSound :
    (d d' : TlbShootdown) (cpu : ℕ) (reason : IpiReason) (kick : Bool)
    → post_non_maintenance_reason d cpu reason ≡ ok (d', kick)
    → IsSoundDomain d
    → IsSoundDomain d'
unfolding post_non_maintenance_reason post_reason
post-IsSound d d' cpu reason kick h s = elim (Option-cases (get_elem? d.cpus cpu)) [
  | inl missing ↦ ground arith
  | inr (mb, g) ↦ elim (Result-cases (try_admit mb)) [
    | inl (a, admits) ↦
        let (on, room, is) = try_admit-eq-ok mb a admits in
        let posted = (post_reason (admitted mb) reason).0 in
        let same : update d cpu (release_admission posted) ≡ d' = ground arith in
        subst IsSoundDomain same (
          update-IsSound d cpu mb (release_admission posted) g
            (release-IsSound d.next_epoch posted (omega arith) (
              reasons-IsSound d.next_epoch posted.pending_reasons (admitted mb)
                (admitted-IsSound d.next_epoch mb on room (s cpu mb g))))
            s)
    | inr (inl (e, refused)) ↦ ground arith
    | inr (inr never) ↦ ground arith
  ]
]

pub take-IsSound :
    (d d' : TlbShootdown) (cpu bits : ℕ)
    → take_pending_reasons d cpu ≡ ok (d', bits)
    → IsSoundDomain d
    → IsSoundDomain d'
unfolding take_pending_reasons
take-IsSound d d' cpu bits h s = elim (Option-cases (get_elem? d.cpus cpu)) [
  | inl missing ↦ ground arith
  | inr (mb, g) ↦
      let same : update d cpu (record mb { pending_reasons = 0 }) ≡ d' = ground arith in
      subst IsSoundDomain same (
        update-IsSound d cpu mb (record mb { pending_reasons = 0 }) g
          (reasons-IsSound d.next_epoch 0 mb (s cpu mb g)) s)
]

pub service-IsSound :
    (d d' : TlbShootdown) (cpu : ℕ) (x : Serviced)
    → service_maintenance d cpu ≡ ok (d', x)
    → IsSoundDomain d
    → IsSoundDomain d'
unfolding service_maintenance
service-IsSound d d' cpu x h s = elim (Option-cases (get_elem? d.cpus cpu)) [
  | inl missing ↦ ground arith
  | inr (mb, g) ↦
      let same : update d cpu (service_mailbox mb).mailbox ≡ d' = ground arith in
      subst IsSoundDomain same (
        update-IsSound d cpu mb (service_mailbox mb).mailbox g
          (service_mailbox-IsSound d.next_epoch mb (s cpu mb g)) s)
]

pub drop-IsSound :
    (d : TlbShootdown) (r : ShootdownRequest) (mb : CpuMailbox)
    → get_elem? d.cpus r.issuer ≡ some mb
    → admission_one ≤ mb.lifecycle
    → IsSoundDomain d
    → IsSoundDomain (drop_request d r)
unfolding drop_request
drop-IsSound d r mb g held s =
    let same : update d r.issuer (release_admission mb)
        ≡ record d { cpus = drop_issuer r.issuer d.cpus } =
      ground arith in
    subst IsSoundDomain same (
      update-IsSound d r.issuer mb (release_admission mb) g
        (release-IsSound d.next_epoch mb held (s r.issuer mb g)) s)

-- A failed all-online issue.
pub failed-IsSound :
    (d : TlbShootdown) (issuer : ℕ) (m : CpuMaintenance) (e : ShootdownIssueError)
    (d' : TlbShootdown)
    → issue_after_local_maintenance d issuer m ≡ (d', err e)
    → length d'.cpus ≡ length d.cpus
    → IsSoundDomain d
    → IsSoundDomain d'
failed-IsSound d issuer m e d' h size s =
    elim (issue_after_local_maintenance-err d issuer m e d' h) [
      | inl same ↦ subst IsSoundDomain (sym same) s
      | inr (why, next, slots) ↦ λ c x g.
          let (old, there) =
            get_elem?-total d.cpus c (omega (arith, lt-length_of_get d'.cpus c x g)) in
          let before = s c old there in
          let le : d.next_epoch ≤ d'.next_epoch = omega arith in
          elim (slots c old there) [
            | inl kept ↦
                let is : old ≡ x = ground arith in
                later-IsSound d.next_epoch d'.next_epoch x le
                  (subst (IsSound d.next_epoch) is before)
            | inr (other, on, published) ↦
                let is : (publish m (d.next_epoch + 1) old).0 ≡ x = ground arith in
                rw next (
                  subst (IsSound (d.next_epoch + 1)) is
                    (publish-IsSound d.next_epoch (d.next_epoch + 1) m old on (omega arith) before))
          ]
    ]
