-- ===== src/Tlb/Issue/Lifetime.antt =====
-- The lifetime of a request in crates/thekernel-axtlb/src/lib.rs: the admission of its issuer.
use thekernel_ax.Prelude.{
  ◌+◌, ◌*◌, ◌/◌, ◌<◌, ◌≡◌, some, arith, get_elem?, set, get_elem?-set_self, lt-length_of_get,
  ==_refl,
}
use thekernel_ax.Prelude.Result.{ok, err}
use thekernel_ax.Tlb.Mailbox.{word_mod, admission_one, state, CpuMailbox, release_admission}
use thekernel_ax.Tlb.Mailbox.Admission.{admitted, release-admitted}
use thekernel_ax.Tlb.Domain.{
  TlbShootdown, admission_in_progress, drain_mailbox, begin_offline, close_mailbox,
  complete_offline,
}
use thekernel_ax.Tlb.Request.{ShootdownRequest, drop_request}
use thekernel_ax.Tlb.Issue.Spec.{IsIssued}

issuer_slot :
    (d d' : TlbShootdown) (r : ShootdownRequest)
    → IsIssued d d' r
    → (mb : CpuMailbox) → get_elem? d.cpus r.issuer ≡ some mb
    → get_elem? d'.cpus r.issuer ≡ some (admitted mb)
issuer_slot d d' r issued mb g = rw (issued.slots r.issuer mb g) (ground (arith, ==_refl r.issuer))

-- Right after an issue, the issuer can begin to go offline, which succeeds, but completing it is
-- refused with AdmissionInProgress.
pub issued-complete_offline :
    (d d' : TlbShootdown) (r : ShootdownRequest)
    → IsIssued d d' r
    → (d'' : TlbShootdown) × (begin_offline d' r.issuer ≡ ok d'')
      × (complete_offline d'' r.issuer ≡ err admission_in_progress)
unfolding begin_offline complete_offline drain_mailbox close_mailbox
issued-complete_offline d d' r issued =
    let (mb, found, online, _) = issued.issuer_online in
    let there = issuer_slot d d' r issued mb found in
    let bound = lt-length_of_get d'.cpus r.issuer (admitted mb) there in
    let draining = record (admitted mb) { lifecycle = (mb.lifecycle + 4) / 4 * 4 + 2 } in
    let running : state (admitted mb).lifecycle ≡ 1 = ground arith in
    let now = get_elem?-set_self d'.cpus r.issuer draining bound in
    let drained : state draining.lifecycle ≡ 2 = omega arith in
    (record d' { cpus = set d'.cpus r.issuer draining }, ground arith, ground arith)

-- Dropping a request right after its issue gives the issuer its slot back as it was before.
pub issued-drop_request :
    (d d' : TlbShootdown) (r : ShootdownRequest)
    → IsIssued d d' r
    → (mb : CpuMailbox) → get_elem? d.cpus r.issuer ≡ some mb
    → get_elem? (drop_request d' r).cpus r.issuer ≡ some mb
unfolding drop_request
issued-drop_request d d' r issued mb g =
    let (own, found, online, fits) = issued.issuer_online in
    let room : mb.lifecycle + admission_one < word_mod = ground arith in
    let there = issuer_slot d d' r issued mb g in
    let bound = lt-length_of_get d'.cpus r.issuer (admitted mb) there in
    ground (
      arith,
      get_elem?-set_self d'.cpus r.issuer (release_admission (admitted mb)) bound,
      release-admitted mb room,
    )
