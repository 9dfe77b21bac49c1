-- ===== src/Tlb/Mailbox/Admission.antt =====
-- The lifecycle word of crates/thekernel-axtlb/src/lib.rs: admissions are counted beside the state.
use thekernel_ax.Prelude.{ℕ, ◌+◌, ◌-◌, ◌%◌, ◌<◌, ◌≡◌, refl, ◌≢◌, ap, arith}
use thekernel_ax.Prelude.Result.{ok, err, panic}
use thekernel_ax.Tlb.Maintenance.{CpuMaintenance}
use thekernel_ax.Tlb.Mailbox.{
  word_mod, cpu_online, state, admission_one, CpuMailbox, unavailable, try_admit, release_admission,
  post_reason, raise_requests,
}
use thekernel_ax.Tlb.Issue.{publish}

-- One more admission.
abbrev pub admitted : CpuMailbox → CpuMailbox
admitted mb = record mb { lifecycle = mb.lifecycle + admission_one }

pub try_admit-eq-ok :
    (mb a : CpuMailbox)
    → try_admit mb ≡ ok a
    → (state mb.lifecycle ≡ cpu_online)
      × (mb.lifecycle + admission_one < word_mod)
      × (a ≡ admitted mb)
unfolding try_admit
try_admit-eq-ok mb a h = ground arith

pub try_admit-ne-panic : (mb : CpuMailbox) → try_admit mb ≢ panic
unfolding try_admit
try_admit-ne-panic mb h = ground arith

pub try_admit_unavailable :
    (mb : CpuMailbox) → try_admit mb ≡ err unavailable → state mb.lifecycle ≢ cpu_online
unfolding try_admit
try_admit_unavailable mb h = ground arith

-- Releasing undoes an admission, and keeps what was published in between.
pub release-admitted :
    (mb : CpuMailbox)
    → mb.lifecycle + admission_one < word_mod
    → release_admission (admitted mb) ≡ mb
unfolding release_admission
release-admitted mb h = ground arith

pub release-publish-admitted :
    (m : CpuMaintenance) (epoch : ℕ) (mb : CpuMailbox)
    → mb.lifecycle + admission_one < word_mod
    → release_admission (publish m epoch (admitted mb)).0 ≡ (publish m epoch mb).0
unfolding release_admission publish post_reason raise_requests
release-publish-admitted m epoch mb h =
    let same : (mb.lifecycle + admission_one + word_mod - admission_one) % word_mod ≡ mb.lifecycle =
      omega arith in
    ap (λ (w : ℕ). record (publish m epoch mb).0 { lifecycle = w }) same

-- The kick does not depend on the admission.
pub kick-admitted :
    (m : CpuMaintenance) (epoch : ℕ) (mb : CpuMailbox)
    → (publish m epoch (admitted mb)).1 ≡ (publish m epoch mb).1
unfolding publish post_reason raise_requests
kick-admitted m epoch mb = refl
