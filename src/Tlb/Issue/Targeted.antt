-- ===== src/Tlb/Issue/Targeted.antt =====
-- `issue_after_local_maintenance_for_targets` of crates/thekernel-axtlb/src/lib.rs.
use thekernel_ax.Prelude.{
  ℕ, ◌+◌, ◌<◌, ◌≡◌, ◌≢◌, refl, sym, ◌∙◌, subst, inl, inr, true, false, ◌&&◌, none, some, List,
  arith, ◌==◌, if◌then◌else◌, Option-cases, Bool-cases, get_elem?, set, get_elem?-set_self,
  get_elem?-set_ne, lt-length_of_get, ==_iff,
}
use thekernel_ax.Prelude.Result.{ok, err, panic}
use thekernel_ax.Tlb.Maintenance.{CpuMaintenance, CpuSet, contains}
use thekernel_ax.Tlb.Mailbox.{
  word_mod, admission_one, state, cpu_online, CpuMailbox, try_admit, post_reason, raise_requests,
}
use thekernel_ax.Tlb.Mailbox.Admission.{admitted, release-publish-admitted, kick-admitted}
use thekernel_ax.Tlb.Domain.{TlbShootdown}
use thekernel_ax.Tlb.Request.{ShootdownIssueError, ShootdownRequest, drop_issuer, needs_kick}
use thekernel_ax.Tlb.Issue.{
  publish, admit_targets, release_targets, publish_targets, issue_to_targets, issue_for_targets,
}
use thekernel_ax.Tlb.Issue.Loops.{
  release-admit_targets, admit_targets-get, publish_targets-get, release_targets-get,
}
use thekernel_ax.Tlb.Issue.Spec.{IsIssued, drop_issuer-set}

-- An error after the issuer is admitted gives back every admission taken.
issue_to_targets-err :
    (d : TlbShootdown) (issuer : ℕ) (targets : CpuSet) (m : CpuMaintenance) (mbs : List CpuMailbox)
    (e : ShootdownIssueError) (d' : TlbShootdown)
    → issue_to_targets d issuer targets m mbs ≡ (d', err e)
    → d' ≡ record d { cpus = drop_issuer issuer mbs }
unfolding issue_to_targets
issue_to_targets-err d issuer targets m mbs e d' h =
    ground (arith, release-admit_targets targets 0 mbs)

-- A targeted issue that returns an error leaves the domain exactly as it was: no admission is held,
-- no epoch is taken and nothing is published.
pub issue_for_targets-err :
    (d : TlbShootdown) (issuer : ℕ) (targets : CpuSet) (m : CpuMaintenance)
    (e : ShootdownIssueError) (d' : TlbShootdown)
    → issue_for_targets d issuer targets m ≡ (d', err e)
    → d' ≡ d
unfolding issue_for_targets try_admit
issue_for_targets-err d issuer targets m e d' h = elim (Option-cases (get_elem? d.cpus issuer)) [
  | inl missing ↦ ground (arith)
  | inr (mb, found) ↦ ground (
    arith,
    issue_to_targets-err d issuer targets m (set d.cpus issuer (admitted mb)) e d',
    drop_issuer-set d.cpus issuer mb found,
  )
]

-- A targeted issue does not panic.
pub issue_for_targets-ne-panic :
    (d : TlbShootdown) (issuer : ℕ) (targets : CpuSet) (m : CpuMaintenance)
    → (issue_for_targets d issuer targets m).1 ≢ panic
unfolding issue_for_targets issue_to_targets try_admit
issue_for_targets-ne-panic d issuer targets m h = ground arith

-- One slot through the three loops: a target is admitted, published to and released.
published_slot :
    (targets : CpuSet) (m : CpuMaintenance) (epoch : ℕ) (mbs : List CpuMailbox)
    → (admit_targets targets 0 mbs).error ≡ none
    → (cpu : ℕ) (mb : CpuMailbox) → get_elem? mbs cpu ≡ some mb
    → let a = admit_targets targets 0 mbs in
      let p = publish_targets targets m epoch 0 a.mailboxes in
      (get_elem? (release_targets a.guards p.0) cpu
        ≡ some (if contains targets cpu then (publish m epoch mb).0 else mb))
      × (get_elem? p.1 cpu ≡ some (contains targets cpu && (publish m epoch mb).1))
      × (contains targets cpu ≡ true → state mb.lifecycle ≡ cpu_online)
published_slot targets m epoch mbs e cpu mb g =
    let a = admit_targets targets 0 mbs in
    let there = admit_targets-get targets 0 mbs e cpu mb g in
    elim (Bool-cases (contains targets cpu)) [
      | inl target ↦
          let posted =
            publish_targets-get targets m epoch 0 a.mailboxes cpu (admitted mb)
              (ground (arith, there)) in
          let free =
            release_targets-get a.guards (publish_targets targets m epoch 0 a.mailboxes).0 cpu true
              (publish m epoch (admitted mb)).0 (ground (arith, there)) (ground (arith, posted)) in
          ground (
            arith,
            there,
            posted,
            free,
            release-publish-admitted m epoch mb,
            kick-admitted m epoch mb,
          )
      | inr other ↦
          let posted =
            publish_targets-get targets m epoch 0 a.mailboxes cpu mb (ground (arith, there)) in
          let free =
            release_targets-get a.guards (publish_targets targets m epoch 0 a.mailboxes).0 cpu false
              mb (ground (arith, there)) (ground (arith, posted)) in
          ground (arith, there, posted, free)
    ]

issue_for_targets-eq-ok :
    (d : TlbShootdown) (issuer : ℕ) (targets : CpuSet) (m : CpuMaintenance) (d' : TlbShootdown)
    (r : ShootdownRequest)
    → issue_for_targets d issuer targets m ≡ (d', ok r)
    → (mb : CpuMailbox) × (get_elem? d.cpus issuer ≡ some mb)
      × (state mb.lifecycle ≡ cpu_online)
      × (mb.lifecycle + admission_one < word_mod)
      × (contains targets issuer ≡ false)
      × (d.next_epoch + 1 < word_mod)
      × (let a = admit_targets targets 0 (set d.cpus issuer (admitted mb)) in
          let p = publish_targets targets m (d.next_epoch + 1) 0 a.mailboxes in
          (a.error ≡ none)
          × (d' ≡ record { next_epoch = d.next_epoch + 1; cpus = release_targets a.guards p.0 })
          × (r ≡ record {
            issuer = issuer;
            epoch = d.next_epoch + 1;
            maintenance = m;
            targets = targets;
            kicks = p.1;
          }))
unfolding issue_for_targets issue_to_targets try_admit
issue_for_targets-eq-ok d issuer targets m d' r h = elim (Option-cases (get_elem? d.cpus issuer)) [
  | inl missing ↦ ground arith
  | inr (mb, found) ↦
      (mb, found, ground arith, ground arith, ground arith, ground arith, ground arith)
]

-- The mailboxes once the issuer is admitted.
pub admitted_slot :
    (mbs : List CpuMailbox) (issuer : ℕ) (mb : CpuMailbox)
    → get_elem? mbs issuer ≡ some mb
    → (cpu : ℕ) (x : CpuMailbox) → get_elem? mbs cpu ≡ some x
    → get_elem? (set mbs issuer (admitted mb)) cpu ≡ some (if cpu == issuer then admitted x else x)
admitted_slot mbs issuer mb found cpu x g = elim (Bool-cases (cpu == issuer)) [
  | inl same ↦
      let e = (==_iff cpu issuer).0 same in
      let at_cpu = subst (λ i. get_elem? mbs i ≡ some mb) (sym e) found in
      rw (same, sym e)
        (ground (
          arith,
          at_cpu,
          get_elem?-set_self mbs cpu (admitted mb) (lt-length_of_get mbs cpu mb at_cpu),
        ))
  | inr differ ↦ rw differ (get_elem?-set_ne mbs issuer cpu (admitted mb) (λ e. ground (arith)) ∙ g)
]

-- A targeted issue that succeeds has issued the request it returns, for the issuer, the targets and
-- the maintenance it was given.
pub issue_for_targets-IsIssued :
    (d : TlbShootdown) (issuer : ℕ) (targets : CpuSet) (m : CpuMaintenance) (d' : TlbShootdown)
    (r : ShootdownRequest)
    → issue_for_targets d issuer targets m ≡ (d', ok r)
    → IsIssued d d' r × (r.issuer ≡ issuer) × (r.targets ≡ targets) × (r.maintenance ≡ m)
unfolding publish needs_kick post_reason raise_requests
issue_for_targets-IsIssued d issuer targets m d' r h =
    let (mb, found, online, held, spared, room, (through, left, request)) =
      issue_for_targets-eq-ok d issuer targets m d' r h in
    let mbs = set d.cpus issuer (admitted mb) in
    let slot_of = λ (cpu : ℕ) (x : CpuMailbox) (g : get_elem? d.cpus cpu ≡ some x).
      published_slot targets m (d.next_epoch + 1) mbs through cpu
        (if cpu == issuer then admitted x else x) (admitted_slot d.cpus issuer mb found cpu x g) in
    rw (left, request)
      (
        record {
          fresh = refl;
          representable = room;
          next = refl;
          issuer_online = (mb, found, online, held);
          issuer_spared = spared;
          slots = λ cpu x g. ground (arith, slot_of cpu x g);
          targets_online = λ cpu x g t. ground (arith, slot_of cpu x g);
          kicks = λ cpu x g. ground (arith, slot_of cpu x g);
        },
        refl,
        refl,
        refl,
      )
