-- ===== src/Tlb/Issue/Online.antt =====
-- `issue_after_local_maintenance` of crates/thekernel-axtlb/src/lib.rs.
use thekernel_ax.Prelude.{
  ℕ, ◌+◌, ◌<◌, ◌≡◌, ◌≢◌, refl, sym, subst, ◌⊎◌, inl, inr, false, not, ◌&&◌, some, List, arith, ltb,
  ◌==◌, if◌then◌else◌, Option-cases, Bool-cases, get_elem?, set, get_elem?-set_self,
  get_elem?-set_ne, lt-length_of_get, ==_iff,
}
use thekernel_ax.Prelude.Result.{ok, err}
use thekernel_ax.Tlb.Maintenance.{CpuMaintenance, contains}
use thekernel_ax.Tlb.Mailbox.{
  word_mod, admission_one, state, cpu_online, CpuMailbox, try_admit, release_admission, post_reason,
  raise_requests,
}
use thekernel_ax.Tlb.Mailbox.Admission.{admitted, release-admitted}
use thekernel_ax.Tlb.Domain.{TlbShootdown}
use thekernel_ax.Tlb.Request.{
  ShootdownIssueError, admission_exhausted, ShootdownRequest, drop_issuer, needs_kick,
}
use thekernel_ax.Tlb.Issue.{
  publish, publish_online_targets, issue_to_online, issue_after_local_maintenance,
}
use thekernel_ax.Tlb.Issue.Loops.{publish_online_targets-get, publish_online_targets_cases}
use thekernel_ax.Tlb.Issue.Targeted.{admitted_slot}
use thekernel_ax.Tlb.Issue.Spec.{IsIssued, drop_issuer-set}

issue_after_local_maintenance-eq-ok :
    (d : TlbShootdown) (issuer : ℕ) (m : CpuMaintenance) (d' : TlbShootdown) (r : ShootdownRequest)
    → issue_after_local_maintenance d issuer m ≡ (d', ok r)
    → (mb : CpuMailbox) × (get_elem? d.cpus issuer ≡ some mb)
      × (state mb.lifecycle ≡ cpu_online)
      × (mb.lifecycle + admission_one < word_mod)
      × (d.next_epoch + 1 < word_mod)
      × (let p =
            publish_online_targets issuer m
              (d.next_epoch + 1)
              0
              (set d.cpus issuer (admitted mb)) in
          (p.failed ≡ false)
          × (d' ≡ record { next_epoch = d.next_epoch + 1; cpus = p.mailboxes })
          × (r ≡ record {
            issuer = issuer;
            epoch = d.next_epoch + 1;
            maintenance = m;
            targets = record { members = p.targets };
            kicks = p.kicks;
          }))
unfolding issue_after_local_maintenance issue_to_online try_admit
issue_after_local_maintenance-eq-ok d issuer m d' r h =
    elim (Option-cases (get_elem? d.cpus issuer)) [
      | inl missing ↦ ground arith
      | inr (mb, found) ↦ (mb, found, ground arith, ground arith, ground arith, ground arith)
    ]

-- A call that succeeds has issued the request it returns, for the issuer and the maintenance it was
-- given, and its targets are the CPUs that were online, the issuer excepted.
pub issue_after_local_maintenance-IsIssued :
    (d : TlbShootdown) (issuer : ℕ) (m : CpuMaintenance) (d' : TlbShootdown) (r : ShootdownRequest)
    → issue_after_local_maintenance d issuer m ≡ (d', ok r)
    → IsIssued d d' r
      × (r.issuer ≡ issuer)
      × (r.maintenance ≡ m)
      × ((cpu : ℕ) (mb : CpuMailbox)
          → get_elem? d.cpus cpu ≡ some mb
          → contains r.targets cpu ≡ (not (cpu == issuer) && (state mb.lifecycle == cpu_online)))
unfolding publish needs_kick post_reason raise_requests contains
issue_after_local_maintenance-IsIssued d issuer m d' r h =
    let (mb, found, online, held, room, (through, left, request)) =
      issue_after_local_maintenance-eq-ok d issuer m d' r h in
    let mbs = set d.cpus issuer (admitted mb) in
    let slot_of = λ (cpu : ℕ) (x : CpuMailbox) (g : get_elem? d.cpus cpu ≡ some x).
      publish_online_targets-get issuer m (d.next_epoch + 1) 0 mbs through cpu
        (if cpu == issuer then admitted x else x) (admitted_slot d.cpus issuer mb found cpu x g) in
    rw (left, request)
      (
        record {
          fresh = refl;
          representable = room;
          next = refl;
          issuer_online = (mb, found, online, held);
          issuer_spared = ground (arith, slot_of issuer mb found);
          slots = λ cpu x g. ground (arith, slot_of cpu x g);
          targets_online = λ cpu x g t. ground (arith, slot_of cpu x g);
          kicks = λ cpu x g. ground (arith, slot_of cpu x g);
        },
        refl,
        refl,
        λ cpu x g. ground (arith, slot_of cpu x g),
      )

drop_issuer-get :
    (issuer : ℕ) (mbs : List CpuMailbox) (cpu : ℕ) (x : CpuMailbox)
    → get_elem? mbs cpu ≡ some x
    → get_elem? (drop_issuer issuer mbs) cpu
      ≡ some (if cpu == issuer then release_admission x else x)
drop_issuer-get issuer mbs cpu x g = elim (Bool-cases (cpu == issuer)) [
  | inl same ↦
      let e = (==_iff cpu issuer).0 same in
      rw (same, sym e)
        (ground
          (arith, get_elem?-set_self mbs cpu (release_admission x) (lt-length_of_get mbs cpu x g)))
  | inr differ ↦ elim (Option-cases (get_elem? mbs issuer)) [
    | inl missing ↦ ground arith
    | inr (y, found) ↦
        ground (arith, get_elem?-set_ne mbs issuer cpu (release_admission y) (λ e. ground arith))
  ]
]

-- The part of a call after the issuer is admitted, when it fails.
issue_to_online-err :
    (issuer : ℕ) (m : CpuMaintenance) (epoch : ℕ) (mbs : List CpuMailbox) (mb : CpuMailbox)
    (e : ShootdownIssueError) (d' : TlbShootdown)
    → get_elem? mbs issuer ≡ some mb
    → mb.lifecycle + admission_one < word_mod
    → issue_to_online issuer m epoch (set mbs issuer (admitted mb)) ≡ (d', err e)
    → (e ≡ admission_exhausted)
      × (d'.next_epoch ≡ epoch)
      × ((cpu : ℕ) (x : CpuMailbox)
          → get_elem? mbs cpu ≡ some x
          → (get_elem? d'.cpus cpu ≡ some x)
            ⊎ ((cpu ≢ issuer)
                × (state x.lifecycle ≡ cpu_online)
                × (get_elem? d'.cpus cpu ≡ some (publish m epoch x).0)))
unfolding issue_to_online
issue_to_online-err issuer m epoch mbs mb e d' found room h =
    let start = set mbs issuer (admitted mb) in
    let p = publish_online_targets issuer m epoch 0 start in
    let left : d' ≡ record { next_epoch = epoch; cpus = drop_issuer issuer p.mailboxes } =
      ground arith in
    rw left (
      ground arith,
      refl,
      λ cpu x g.
          let slot =
            publish_online_targets_cases issuer m epoch 0 start cpu
              (if cpu == issuer then admitted x else x)
              (admitted_slot mbs issuer mb found cpu x g) in
          elim (Bool-cases (cpu == issuer)) [
            | inl same ↦
                let e = (==_iff cpu issuer).0 same in
                let at_cpu = subst (λ i. get_elem? mbs i ≡ some mb) (sym e) found in
                inl (
                  ground (
                    arith,
                    slot,
                    at_cpu,
                    drop_issuer-get issuer p.mailboxes cpu (admitted x),
                    release-admitted x,
                  ))
            | inr differ ↦ ground (
              arith,
              slot,
              drop_issuer-get issuer p.mailboxes cpu x,
              drop_issuer-get issuer p.mailboxes cpu (publish m epoch x).0,
            )
          ],
    )

-- A call that fails leaves every slot as it was or, for the all-online loop stopped in the middle,
-- published to with the epoch that it took: no admission stays behind.
pub issue_after_local_maintenance-err :
    (d : TlbShootdown) (issuer : ℕ) (m : CpuMaintenance) (e : ShootdownIssueError)
    (d' : TlbShootdown)
    → issue_after_local_maintenance d issuer m ≡ (d', err e)
    → (d' ≡ d)
      ⊎ ((e ≡ admission_exhausted)
          × (d'.next_epoch ≡ d.next_epoch + 1)
          × ((cpu : ℕ) (x : CpuMailbox)
              → get_elem? d.cpus cpu ≡ some x
              → (get_elem? d'.cpus cpu ≡ some x)
                ⊎ ((cpu ≢ issuer)
                    × (state x.lifecycle ≡ cpu_online)
                    × (get_elem? d'.cpus cpu ≡ some (publish m (d.next_epoch + 1) x).0))))
unfolding issue_after_local_maintenance try_admit
issue_after_local_maintenance-err d issuer m e d' h =
    elim (Option-cases (get_elem? d.cpus issuer)) [
      | inl missing ↦ inl (ground arith)
      | inr (mb, found) ↦
          let undone = drop_issuer-set d.cpus issuer mb found in
          let later = issue_to_online-err issuer m (d.next_epoch + 1) d.cpus mb e d' found in
          elim (Bool-cases (ltb (mb.lifecycle + admission_one) word_mod)) [
            | inr full ↦ inl (ground arith)
            | inl room ↦ elim (Bool-cases (ltb (d.next_epoch + 1) word_mod)) [
              | inr last ↦ inl (ground (arith, undone))
              | inl more ↦ elim (Bool-cases (state mb.lifecycle == cpu_online)) [
                | inr off ↦ inl (ground arith)
                | inl on ↦ inr (later (ground arith) (ground arith))
              ]
            ]
          ]
    ]
