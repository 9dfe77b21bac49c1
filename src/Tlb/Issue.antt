-- ===== src/Tlb/Issue.antt =====
-- crates/thekernel-axtlb/src/lib.rs: issuing a shootdown request. An issue returns the domain with
-- its result: an error of the all-online profile may follow partial publication.
pub mod Loops
pub mod Targeted
pub mod Spec
pub mod Online
pub mod Completion
pub mod Serviced
pub mod Lifetime
pub mod Size
use thekernel_ax.Prelude.{
  ℕ, suc, ◌+◌, Bool, true, false, not, Option, none, some, List, [], ◌∷◌, ltb, ◌==◌, if◌then◌else◌,
  length, get_elem?, set, replicate,
}
use thekernel_ax.Prelude.Result.{Result, ok, err, panic}
use thekernel_ax.Tlb.Maintenance.{
  CpuMaintenance, tlb, CpuSet, contains, is_empty, cpu_maintenance_reason,
}
use thekernel_ax.Tlb.Mailbox.{
  word_mod, CpuMailbox, AdmissionError, unavailable, exhausted, try_admit, release_admission,
  post_reason, raise_requests,
}
use thekernel_ax.Tlb.Domain.{TlbShootdown}
use thekernel_ax.Tlb.Request.{
  ShootdownIssueError, ShootdownRequest, admission_exhausted, drop_issuer, empty_target_set,
  epoch_exhausted, invalid_cpu, issuer_is_target, issuer_offline, target_offline,
}

abbrev pub Issued : Type 0
Issued = TlbShootdown × Result ShootdownIssueError ShootdownRequest

-- What one target mailbox receives: the epoch in each class asked for, then the reason bit.
unfoldable pub publish : CpuMaintenance → ℕ → CpuMailbox → CpuMailbox × Bool
publish m epoch mb = post_reason (raise_requests m epoch mb) cpu_maintenance_reason

-- The loop over all CPUs, from `cpu` on. The arrays of target bits and of kicks are written slot by
-- slot; `failed` is the early return with `AdmissionExhausted`.
pub record Published : Type 0 where
  pub mailboxes : List CpuMailbox
  pub targets : List Bool
  pub kicks : List Bool
  pub failed : Bool

abbrev pub slot : CpuMailbox → Bool → Bool → Published → Published
slot mb target kick rest = record {
  mailboxes = mb ∷ rest.mailboxes;
  targets = target ∷ rest.targets;
  kicks = kick ∷ rest.kicks;
  failed = rest.failed;
}

-- The error leaves this mailbox and the later ones as they are.
abbrev pub stopped : List CpuMailbox → Published
stopped mbs = record {
  mailboxes = mbs;
  targets = replicate (length mbs) false;
  kicks = replicate (length mbs) false;
  failed = true;
}

unfoldable pub publish_online_targets : ℕ → CpuMaintenance → ℕ → ℕ → List CpuMailbox → Published
publish_online_targets issuer m epoch cpu [] = record {
  mailboxes = [];
  targets = [];
  kicks = [];
  failed = false;
}
publish_online_targets issuer m epoch cpu (mb ∷ mbs) =
    let rest = publish_online_targets issuer m epoch (suc cpu) mbs in
    if cpu == issuer then slot mb false false rest else elim (try_admit mb) [
      | err unavailable ↦ slot mb false false rest
      | err exhausted ↦ stopped (mb ∷ mbs)
      | ok admitted ↦
          let posted = publish m epoch admitted in
          slot (release_admission posted.0) true posted.1 rest
      | panic ↦ stopped (mb ∷ mbs)
    ]

abbrev pub issuer_error : AdmissionError → ShootdownIssueError
issuer_error unavailable = issuer_offline
issuer_error exhausted = admission_exhausted

-- The rest of the call, once the issuer is admitted and the epoch is taken.
unfoldable pub issue_to_online : ℕ → CpuMaintenance → ℕ → List CpuMailbox → Issued
unfolding publish_online_targets publish
issue_to_online issuer m epoch mbs =
    let p = publish_online_targets issuer m epoch 0 mbs in
    if p.failed
    then (
      record { next_epoch = epoch; cpus = drop_issuer issuer p.mailboxes },
      err admission_exhausted,
    )
    else (
      record { next_epoch = epoch; cpus = p.mailboxes },
      ok (record {
        issuer = issuer;
        epoch = epoch;
        maintenance = m;
        targets = record { members = p.targets };
        kicks = p.kicks;
      }),
    )

-- `issue_after_local_maintenance`
unfoldable pub issue_after_local_maintenance : TlbShootdown → ℕ → CpuMaintenance → Issued
unfolding issue_to_online
issue_after_local_maintenance d issuer m = elim (get_elem? d.cpus issuer) [
  | none ↦ (d, err invalid_cpu)
  | some mb ↦ elim (try_admit mb) [
    | err e ↦ (d, err (issuer_error e))
    | panic ↦ (d, panic)
    | ok admitted ↦
        let mbs = set d.cpus issuer admitted in
        if ltb (d.next_epoch + 1) word_mod
        then issue_to_online issuer m (d.next_epoch + 1) mbs
        else (record d { cpus = drop_issuer issuer mbs }, err epoch_exhausted)
  ]
]

unfoldable pub issue_after_local_flush : TlbShootdown → ℕ → Issued
unfolding issue_after_local_maintenance
issue_after_local_flush d issuer = issue_after_local_maintenance d issuer tlb

-- The loop that takes the admission of every target, from `cpu` on: the mailboxes, the guards held
-- (one slot for each CPU), and the error that stopped it.
pub record Admitted : Type 0 where
  pub mailboxes : List CpuMailbox
  pub guards : List Bool
  pub error : Option AdmissionError

abbrev pub guarded : CpuMailbox → Bool → Admitted → Admitted
guarded mb held rest = record {
  mailboxes = mb ∷ rest.mailboxes;
  guards = held ∷ rest.guards;
  error = rest.error;
}

abbrev pub refused : AdmissionError → List CpuMailbox → Admitted
refused e mbs = record { mailboxes = mbs; guards = replicate (length mbs) false; error = some e }

unfoldable pub admit_targets : CpuSet → ℕ → List CpuMailbox → Admitted
admit_targets targets cpu [] = record { mailboxes = []; guards = []; error = none }
admit_targets targets cpu (mb ∷ mbs) =
    let rest = admit_targets targets (suc cpu) mbs in
    if not (contains targets cpu) then guarded mb false rest else elim (try_admit mb) [
      | err e ↦ refused e (mb ∷ mbs)
      | panic ↦ refused exhausted (mb ∷ mbs)
      | ok admitted ↦ guarded admitted true rest
    ]

-- `drop(target_admissions)`
unfoldable pub release_targets : List Bool → List CpuMailbox → List CpuMailbox
release_targets [] mbs = mbs
release_targets (held ∷ guards) [] = []
release_targets (held ∷ guards) (mb ∷ mbs) =
    (if held then release_admission mb else mb) ∷ release_targets guards mbs

-- The loop that publishes to every target, from `cpu` on: the mailboxes and the kicks.
unfoldable pub publish_targets :
    CpuSet → CpuMaintenance → ℕ → ℕ → List CpuMailbox → List CpuMailbox × List Bool
unfolding publish
publish_targets targets m epoch cpu [] = ([], [])
publish_targets targets m epoch cpu (mb ∷ mbs) =
    let rest = publish_targets targets m epoch (suc cpu) mbs in
    if not (contains targets cpu)
    then (mb ∷ rest.0, false ∷ rest.1)
    else let posted = publish m epoch mb in (posted.0 ∷ rest.0, posted.1 ∷ rest.1)

abbrev pub target_error : AdmissionError → ShootdownIssueError
target_error unavailable = target_offline
target_error exhausted = admission_exhausted

-- The rest of the targeted call, once the issuer is admitted.
unfoldable pub issue_to_targets :
    TlbShootdown → ℕ → CpuSet → CpuMaintenance → List CpuMailbox → Issued
unfolding admit_targets release_targets publish_targets
issue_to_targets d issuer targets m mbs =
    let a = admit_targets targets 0 mbs in
    elim a.error [
      | some e ↦ (
        record d { cpus = drop_issuer issuer (release_targets a.guards a.mailboxes) },
        err (target_error e),
      )
      | none ↦
          if ltb (d.next_epoch + 1) word_mod
          then (let p = publish_targets targets m (d.next_epoch + 1) 0 a.mailboxes in
              (
                record { next_epoch = d.next_epoch + 1; cpus = release_targets a.guards p.0 },
                ok (record {
                  issuer = issuer;
                  epoch = d.next_epoch + 1;
                  maintenance = m;
                  targets = targets;
                  kicks = p.1;
                }),
              ))
          else (
            record d { cpus = drop_issuer issuer (release_targets a.guards a.mailboxes) },
            err epoch_exhausted,
          )
    ]

-- `issue_after_local_maintenance_for_targets`
unfoldable pub issue_for_targets : TlbShootdown → ℕ → CpuSet → CpuMaintenance → Issued
unfolding issue_to_targets
issue_for_targets d issuer targets m = elim (get_elem? d.cpus issuer) [
  | none ↦ (d, err invalid_cpu)
  | some mb ↦
      if is_empty targets
      then (d, err empty_target_set)
      else if contains targets issuer
      then (d, err issuer_is_target)
      else elim (try_admit mb) [
        | err e ↦ (d, err (issuer_error e))
        | panic ↦ (d, panic)
        | ok admitted ↦ issue_to_targets d issuer targets m (set d.cpus issuer admitted)
      ]
]

unfoldable pub issue_flush_for_targets : TlbShootdown → ℕ → CpuSet → Issued
unfolding issue_for_targets
issue_flush_for_targets d issuer targets = issue_for_targets d issuer targets tlb
