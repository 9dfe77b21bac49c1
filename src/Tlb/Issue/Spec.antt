-- ===== src/Tlb/Issue/Spec.antt =====
-- What a successful issue in crates/thekernel-axtlb/src/lib.rs leaves behind.
use thekernel_ax.Prelude.{
  ℕ, ◌+◌, ◌<◌, ◌≡◌, true, false, ◌&&◌, some, List, ◌==◌, if◌then◌else◌, get_elem?, set, set-set,
  set-get_self, get_elem?-set_self, lt-length_of_get, bit_and,
}
use thekernel_ax.Tlb.Maintenance.{contains, cpu_maintenance_reason, reason_bit}
use thekernel_ax.Tlb.Mailbox.{word_mod, admission_one, state, cpu_online, CpuMailbox}
use thekernel_ax.Tlb.Mailbox.Admission.{admitted, release-admitted}
use thekernel_ax.Tlb.Domain.{TlbShootdown}
use thekernel_ax.Tlb.Request.{ShootdownRequest, drop_issuer, needs_kick}
use thekernel_ax.Tlb.Issue.{publish}

-- The issuer holds one more admission, a target has been published to, any other slot is as it was.
abbrev pub issued_mailbox : ShootdownRequest → ℕ → CpuMailbox → CpuMailbox
issued_mailbox r cpu mb =
    if cpu == r.issuer
    then admitted mb
    else if contains r.targets cpu
    then (publish r.maintenance r.epoch mb).0
    else mb

pub record IsIssued (d d' : TlbShootdown) (r : ShootdownRequest) : Type 0 where
  pub fresh : r.epoch ≡ d.next_epoch + 1
  pub representable : r.epoch < word_mod
  pub next : d'.next_epoch ≡ r.epoch
  pub issuer_online :
      (mb : CpuMailbox) × (get_elem? d.cpus r.issuer ≡ some mb)
      × (state mb.lifecycle ≡ cpu_online)
      × (mb.lifecycle + admission_one < word_mod)
  pub issuer_spared : contains r.targets r.issuer ≡ false
  pub slots :
      (cpu : ℕ) (mb : CpuMailbox)
      → get_elem? d.cpus cpu ≡ some mb
      → get_elem? d'.cpus cpu ≡ some (issued_mailbox r cpu mb)
  pub targets_online :
      (cpu : ℕ) (mb : CpuMailbox)
      → get_elem? d.cpus cpu ≡ some mb
      → contains r.targets cpu ≡ true
      → state mb.lifecycle ≡ cpu_online
  pub kicks :
      (cpu : ℕ) (mb : CpuMailbox)
      → get_elem? d.cpus cpu ≡ some mb
      → needs_kick r cpu ≡ (
          contains r.targets cpu
          && (bit_and mb.pending_reasons (reason_bit cpu_maintenance_reason) == 0))

-- Dropping the issuer's guard undoes its admission.
pub drop_issuer-set :
    (mbs : List CpuMailbox) (issuer : ℕ) (mb : CpuMailbox)
    → get_elem? mbs issuer ≡ some mb
    → mb.lifecycle + admission_one < word_mod
    → drop_issuer issuer (set mbs issuer (admitted mb)) ≡ mbs
drop_issuer-set mbs issuer mb g h =
    rw
      (
        drop_issuer,
        get_elem?-set_self mbs issuer (admitted mb) (lt-length_of_get mbs issuer mb g),
        release-admitted mb h,
        set-set mbs issuer (admitted mb) mb,
      )
      (set-get_self mbs issuer mb g)
