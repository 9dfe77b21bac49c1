-- ===== src/Tlb/Request.antt =====
-- crates/thekernel-axtlb/src/lib.rs: `ShootdownRequest`, from its fields to its completion.
-- The admission that a request holds is the one of its issuer.
use thekernel_ax.Prelude.{
  ℕ, zero, suc, Bool, true, false, not, ◌&&◌, ◌||◌, Option, none, some, List, ltb, if◌then◌else◌,
  length, get_elem?, set,
}
use mathlib.Core.Option.{get_or}
use thekernel_ax.Tlb.Maintenance.{CpuMaintenance, needs_tlb, needs_icache, CpuSet, contains, len}
use thekernel_ax.Tlb.Mailbox.{CpuMailbox, release_admission}
use thekernel_ax.Tlb.Domain.{TlbShootdown}

pub data ShootdownIssueError : Type 0 where
  invalid_cpu issuer_offline empty_target_set issuer_is_target : ShootdownIssueError
  target_offline admission_exhausted epoch_exhausted : ShootdownIssueError

pub record ShootdownRequest : Type 0 where
  pub issuer : ℕ
  pub epoch : ℕ
  pub maintenance : CpuMaintenance
  pub targets : CpuSet
  pub kicks : List Bool

-- The end of a call that returns an error: the guard of the issuer is dropped.
abbrev pub drop_issuer : ℕ → List CpuMailbox → List CpuMailbox
drop_issuer issuer mbs = elim (get_elem? mbs issuer) [
  | none ↦ mbs
  | some mb ↦ set mbs issuer (release_admission mb)
]

-- A request that is dropped releases its issuer.
unfoldable pub drop_request : TlbShootdown → ShootdownRequest → TlbShootdown
drop_request d r = record d { cpus = drop_issuer r.issuer d.cpus }

unfoldable pub needs_kick : ShootdownRequest → ℕ → Bool
needs_kick r cpu = get_or (get_elem? r.kicks cpu) false

unfoldable pub target_count : ShootdownRequest → ℕ
target_count r = len r.targets

-- An acknowledgement of one mailbox is missing.
unfoldable pub mailbox_pending : ShootdownRequest → CpuMailbox → Bool
mailbox_pending r mb =
    (needs_tlb r.maintenance && ltb mb.completed_tlb_epoch r.epoch)
    || (needs_icache r.maintenance && ltb mb.completed_icache_epoch r.epoch)

-- The index is in range for a target of a request of this domain.
unfoldable pub target_pending : TlbShootdown → ShootdownRequest → ℕ → Bool
unfolding mailbox_pending
target_pending d r cpu =
    if not (contains r.targets cpu)
    then false
    else elim (get_elem? d.cpus cpu) [ none ↦ false | some mb ↦ mailbox_pending r mb ]

unfoldable pub target_complete : TlbShootdown → ShootdownRequest → ℕ → Bool
unfolding target_pending
target_complete d r cpu = contains r.targets cpu && not (target_pending d r cpu)

pub record ShootdownGrace : Type 0 where
  pub epoch : ℕ
  pub maintenance : CpuMaintenance

-- The loop of `try_complete`, at `cpu` with `left` CPUs to go.
unfoldable pub none_pending : TlbShootdown → ShootdownRequest → (left cpu : ℕ) → Bool
unfolding target_pending
none_pending d r zero cpu = true
none_pending d r (suc left) cpu =
    if contains r.targets cpu && target_pending d r cpu
    then false
    else none_pending d r left (suc cpu)

unfoldable pub try_complete : TlbShootdown → ShootdownRequest → Option ShootdownGrace
unfolding none_pending
try_complete d r =
    if none_pending d r (length d.cpus) 0
    then some (record { epoch = r.epoch; maintenance = r.maintenance })
    else none
