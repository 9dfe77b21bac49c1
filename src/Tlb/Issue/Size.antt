-- ===== src/Tlb/Issue/Size.antt =====
-- The number of slots through an issue in crates/thekernel-axtlb/src/lib.rs.
use thekernel_ax.Prelude.{
  ℕ, suc, ◌+◌, ◌≡◌, refl, Bool, List, [], ◌∷◌, arith, length, set, length-set, get_elem?,
  Option-cases, inl, inr,
}
use thekernel_ax.Prelude.Result.{Result-cases}
use thekernel_ax.Tlb.Maintenance.{CpuMaintenance, CpuSet}
use thekernel_ax.Tlb.Mailbox.{CpuMailbox, try_admit, release_admission}
use thekernel_ax.Tlb.Domain.{TlbShootdown}
use thekernel_ax.Tlb.Request.{drop_issuer}
use thekernel_ax.Tlb.Issue.{
  publish_online_targets, admit_targets, release_targets, publish_targets, issue_to_online,
  issue_after_local_maintenance, issue_to_targets, issue_for_targets,
}

length-publish_online_targets :
    (issuer : ℕ) (m : CpuMaintenance) (epoch cpu : ℕ) (mbs : List CpuMailbox)
    → length (publish_online_targets issuer m epoch cpu mbs).mailboxes ≡ length mbs
unfolding publish_online_targets
length-publish_online_targets issuer m epoch cpu [] = refl
length-publish_online_targets issuer m epoch cpu (mb ∷ mbs) =
    ground (arith, length-publish_online_targets issuer m epoch (suc cpu) mbs)

length-admit_targets :
    (targets : CpuSet) (cpu : ℕ) (mbs : List CpuMailbox)
    → length (admit_targets targets cpu mbs).mailboxes ≡ length mbs
unfolding admit_targets
length-admit_targets targets cpu [] = refl
length-admit_targets targets cpu (mb ∷ mbs) =
    ground (arith, length-admit_targets targets (suc cpu) mbs)

length-release_targets :
    (guards : List Bool) (mbs : List CpuMailbox) → length (release_targets guards mbs) ≡ length mbs
unfolding release_targets
length-release_targets [] mbs = refl
length-release_targets (held ∷ guards) [] = refl
length-release_targets (held ∷ guards) (mb ∷ mbs) =
    ground (arith, length-release_targets guards mbs)

length-publish_targets :
    (targets : CpuSet) (m : CpuMaintenance) (epoch cpu : ℕ) (mbs : List CpuMailbox)
    → length (publish_targets targets m epoch cpu mbs).0 ≡ length mbs
unfolding publish_targets
length-publish_targets targets m epoch cpu [] = refl
length-publish_targets targets m epoch cpu (mb ∷ mbs) =
    ground (arith, length-publish_targets targets m epoch (suc cpu) mbs)

pub length-drop_issuer :
    (issuer : ℕ) (mbs : List CpuMailbox) → length (drop_issuer issuer mbs) ≡ length mbs
length-drop_issuer issuer mbs = elim (Option-cases (get_elem? mbs issuer)) [
  | inl missing ↦ ground arith
  | inr (mb, found) ↦ ground (arith, length-set mbs issuer (release_admission mb))
]

length-issue_to_online :
    (issuer : ℕ) (m : CpuMaintenance) (epoch : ℕ) (mbs : List CpuMailbox)
    → length (issue_to_online issuer m epoch mbs).0.cpus ≡ length mbs
unfolding issue_to_online
length-issue_to_online issuer m epoch mbs =
    let p = publish_online_targets issuer m epoch 0 mbs in
    ground (
      arith,
      length-publish_online_targets issuer m epoch 0 mbs,
      length-drop_issuer issuer p.mailboxes,
    )

pub length-issue_after_local_maintenance :
    (d : TlbShootdown) (issuer : ℕ) (m : CpuMaintenance)
    → length (issue_after_local_maintenance d issuer m).0.cpus ≡ length d.cpus
unfolding issue_after_local_maintenance
length-issue_after_local_maintenance d issuer m = elim (Option-cases (get_elem? d.cpus issuer)) [
  | inl missing ↦ ground arith
  | inr (mb, found) ↦ elim (Result-cases (try_admit mb)) [
    | inl (a, admits) ↦
        let mbs = set d.cpus issuer a in
        ground (
          arith,
          length-set d.cpus issuer a,
          length-drop_issuer issuer mbs,
          length-issue_to_online issuer m (d.next_epoch + 1) mbs,
        )
    | inr (inl (e, refused)) ↦ ground arith
    | inr (inr never) ↦ ground arith
  ]
]

length-issue_to_targets :
    (d : TlbShootdown) (issuer : ℕ) (targets : CpuSet) (m : CpuMaintenance) (mbs : List CpuMailbox)
    → length (issue_to_targets d issuer targets m mbs).0.cpus ≡ length mbs
unfolding issue_to_targets
length-issue_to_targets d issuer targets m mbs =
    let a = admit_targets targets 0 mbs in
    let p = publish_targets targets m (d.next_epoch + 1) 0 a.mailboxes in
    let back = release_targets a.guards a.mailboxes in
    ground (
      arith,
      length-admit_targets targets 0 mbs,
      length-publish_targets targets m (d.next_epoch + 1) 0 a.mailboxes,
      length-release_targets a.guards p.0,
      length-release_targets a.guards a.mailboxes,
      length-drop_issuer issuer back,
    )

pub length-issue_for_targets :
    (d : TlbShootdown) (issuer : ℕ) (targets : CpuSet) (m : CpuMaintenance)
    → length (issue_for_targets d issuer targets m).0.cpus ≡ length d.cpus
unfolding issue_for_targets
length-issue_for_targets d issuer targets m = elim (Option-cases (get_elem? d.cpus issuer)) [
  | inl missing ↦ ground arith
  | inr (mb, found) ↦ elim (Result-cases (try_admit mb)) [
    | inl (a, admits) ↦
        let mbs = set d.cpus issuer a in
        ground (arith, length-set d.cpus issuer a, length-issue_to_targets d issuer targets m mbs)
    | inr (inl (e, refused)) ↦ ground arith
    | inr (inr never) ↦ ground arith
  ]
]
