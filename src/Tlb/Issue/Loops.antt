-- ===== src/Tlb/Issue/Loops.antt =====
-- The loops of an issue in crates/thekernel-axtlb/src/lib.rs, slot by slot.
use thekernel_ax.Prelude.{
  ℕ, zero, suc, ◌+◌, ◌<◌, ◌≡◌, ◌≢◌, refl, ap, ◌⊎◌, Bool, true, false, not, ◌&&◌, none, some, List,
  [], ◌∷◌, arith, ◌==◌, if◌then◌else◌, length, get_elem?, replicate,
}
use thekernel_ax.Tlb.Maintenance.{CpuMaintenance, CpuSet, contains}
use thekernel_ax.Tlb.Mailbox.{
  word_mod, admission_one, state, cpu_online, CpuMailbox, try_admit, release_admission,
}
use thekernel_ax.Tlb.Mailbox.Admission.{
  admitted, release-admitted, release-publish-admitted, kick-admitted,
}
use thekernel_ax.Tlb.Issue.{
  publish, publish_online_targets, admit_targets, release_targets, publish_targets,
}

release_none : (mbs : List CpuMailbox) → release_targets (replicate (length mbs) false) mbs ≡ mbs
unfolding release_targets
release_none [] = refl
release_none (mb ∷ mbs) = ap (λ rest. mb ∷ rest) (release_none mbs)

-- Undoing the admissions of a loop, whether it was stopped or not, gives the mailboxes back.
pub release-admit_targets :
    (targets : CpuSet) (cpu : ℕ) (mbs : List CpuMailbox)
    → let a = admit_targets targets cpu mbs in release_targets a.guards a.mailboxes ≡ mbs
unfolding admit_targets release_targets try_admit
release-admit_targets targets cpu [] = refl
release-admit_targets targets cpu (mb ∷ mbs) =
    ground
      (arith, release-admit_targets targets (suc cpu) mbs, release_none mbs, release-admitted mb)

-- What a loop that went through admits: every target, which was online, and no other.
pub admit_targets-get :
    (targets : CpuSet) (cpu : ℕ) (mbs : List CpuMailbox)
    → (admit_targets targets cpu mbs).error ≡ none
    → (j : ℕ) (mb : CpuMailbox) → get_elem? mbs j ≡ some mb
    → (get_elem? (admit_targets targets cpu mbs).guards j ≡ some (contains targets (cpu + j)))
      × (get_elem? (admit_targets targets cpu mbs).mailboxes j
          ≡ some (if contains targets (cpu + j) then admitted mb else mb))
      × (contains targets (cpu + j) ≡ true
          → (state mb.lifecycle ≡ cpu_online) × (mb.lifecycle + admission_one < word_mod))
unfolding admit_targets try_admit
admit_targets-get targets cpu [] e j mb g = cc
admit_targets-get targets cpu (x ∷ mbs) e zero mb g =
    let here : cpu + 0 ≡ cpu = omega arith in rw here (ground arith)
admit_targets-get targets cpu (x ∷ mbs) e (suc j) mb g =
    let there : cpu + suc j ≡ suc cpu + j = omega arith in
    rw there (ground (arith, admit_targets-get targets (suc cpu) mbs (ground arith) j mb g))

pub publish_targets-get :
    (targets : CpuSet) (m : CpuMaintenance) (epoch cpu : ℕ) (mbs : List CpuMailbox) (j : ℕ)
    (mb : CpuMailbox)
    → get_elem? mbs j ≡ some mb
    → let p = publish_targets targets m epoch cpu mbs in
      (get_elem? p.0 j ≡ some (if contains targets (cpu + j) then (publish m epoch mb).0 else mb))
      × (get_elem? p.1 j ≡ some (contains targets (cpu + j) && (publish m epoch mb).1))
unfolding publish_targets
publish_targets-get targets m epoch cpu [] j mb g = cc
publish_targets-get targets m epoch cpu (x ∷ mbs) zero mb g =
    let here : cpu + 0 ≡ cpu = omega arith in rw here (ground arith)
publish_targets-get targets m epoch cpu (x ∷ mbs) (suc j) mb g =
    let there : cpu + suc j ≡ suc cpu + j = omega arith in
    rw there (ground (arith, publish_targets-get targets m epoch (suc cpu) mbs j mb g))

pub release_targets-get :
    (guards : List Bool) (mbs : List CpuMailbox) (j : ℕ) (held : Bool) (mb : CpuMailbox)
    → get_elem? guards j ≡ some held
    → get_elem? mbs j ≡ some mb
    → get_elem? (release_targets guards mbs) j ≡ some (if held then release_admission mb else mb)
unfolding release_targets
release_targets-get [] mbs j held mb g h = cc
release_targets-get (x ∷ guards) [] j held mb g h = cc
release_targets-get (x ∷ guards) (y ∷ mbs) zero held mb g h = ground arith
release_targets-get (x ∷ guards) (y ∷ mbs) (suc j) held mb g h =
    release_targets-get guards mbs j held mb g h

-- What the loop over all CPUs does to one slot, when it went through: it publishes to every online
-- CPU but the issuer, marks it as a target and says whether its reason bit was clear.
pub publish_online_targets-get :
    (issuer : ℕ) (m : CpuMaintenance) (epoch cpu : ℕ) (mbs : List CpuMailbox)
    → (publish_online_targets issuer m epoch cpu mbs).failed ≡ false
    → (j : ℕ) (mb : CpuMailbox) → get_elem? mbs j ≡ some mb
    → let p = publish_online_targets issuer m epoch cpu mbs in
      let target = not (cpu + j == issuer) && (state mb.lifecycle == cpu_online) in
      (get_elem? p.mailboxes j ≡ some (if target then (publish m epoch mb).0 else mb))
      × (get_elem? p.targets j ≡ some target)
      × (get_elem? p.kicks j ≡ some (target && (publish m epoch mb).1))
unfolding publish_online_targets try_admit
publish_online_targets-get issuer m epoch cpu [] e j mb g = cc
publish_online_targets-get issuer m epoch cpu (x ∷ mbs) e zero mb g =
    let here : cpu + 0 ≡ cpu = omega arith in
    rw here (ground (arith, release-publish-admitted m epoch mb, kick-admitted m epoch mb))
publish_online_targets-get issuer m epoch cpu (x ∷ mbs) e (suc j) mb g =
    let there : cpu + suc j ≡ suc cpu + j = omega arith in
    rw there (
      ground (arith, publish_online_targets-get issuer m epoch (suc cpu) mbs (ground arith) j mb g))

-- Stopped or not, each slot is left alone or, if another online CPU's, published to.
pub publish_online_targets_cases :
    (issuer : ℕ) (m : CpuMaintenance) (epoch cpu : ℕ) (mbs : List CpuMailbox) (j : ℕ)
    (mb : CpuMailbox)
    → get_elem? mbs j ≡ some mb
    → let now = get_elem? (publish_online_targets issuer m epoch cpu mbs).mailboxes j in
      (now ≡ some mb)
      ⊎ ((state mb.lifecycle ≡ cpu_online)
          × (cpu + j ≢ issuer)
          × (now ≡ some (publish m epoch mb).0))
unfolding publish_online_targets try_admit
publish_online_targets_cases issuer m epoch cpu [] j mb g = cc
publish_online_targets_cases issuer m epoch cpu (x ∷ mbs) zero mb g =
    let here : cpu + 0 ≡ cpu = omega arith in
    rw here (ground (arith, release-publish-admitted m epoch mb))
publish_online_targets_cases issuer m epoch cpu (x ∷ mbs) (suc j) mb g =
    let there : cpu + suc j ≡ suc cpu + j = omega arith in
    rw there (ground (arith, publish_online_targets_cases issuer m epoch (suc cpu) mbs j mb g))
