-- ===== src/Tlb/Maintenance.antt =====
-- crates/thekernel-axtlb/src/lib.rs: maintenance classes, CPU sets and mailbox reasons.
-- A set for `MAX_CPUS` slots is a list of that length.
use thekernel_ax.Prelude.{
  ℕ, suc, ◌^◌, Bool, true, false, not, ◌&&◌, Option, none, some, List, [], ◌∷◌, ltb, ◌==◌,
  if◌then◌else◌, bit_and, bit_or, length, get_elem?, set, replicate,
}
use mathlib.Core.Option.{get_or}
use thekernel_ax.Prelude.Result.{Result, ok, err}

pub record CpuMaintenance : Type 0 where
  pub bits : ℕ

abbrev pub tlb : CpuMaintenance
tlb = record { bits = 2 ^ 0 }

abbrev pub icache : CpuMaintenance
icache = record { bits = 2 ^ 1 }

abbrev pub tlb_and_icache : CpuMaintenance
tlb_and_icache = record { bits = bit_or (2 ^ 0) (2 ^ 1) }

unfoldable pub needs_tlb : CpuMaintenance → Bool
needs_tlb m = not (bit_and m.bits (2 ^ 0) == 0)

unfoldable pub needs_icache : CpuMaintenance → Bool
needs_icache m = not (bit_and m.bits (2 ^ 1) == 0)

unfoldable pub from_pending : Bool → Bool → Option CpuMaintenance
from_pending false false = none
from_pending true false = some tlb
from_pending false true = some icache
from_pending true true = some tlb_and_icache

pub data CpuSetError : Type 0 where
  invalid_cpu : CpuSetError

-- `CpuSet<MAX_CPUS>`, one membership bit for each slot.
pub record CpuSet : Type 0 where
  pub members : List Bool

unfoldable pub new : ℕ → CpuSet
new max_cpus = record { members = replicate max_cpus false }

unfoldable pub try_insert : CpuSet → ℕ → Result CpuSetError CpuSet
try_insert s cpu =
    if ltb cpu (length s.members)
    then ok (record { members = set s.members cpu true })
    else err invalid_cpu

unfoldable pub contains : CpuSet → ℕ → Bool
contains s cpu = get_or (get_elem? s.members cpu) false

unfoldable pub from_cpu : ℕ → ℕ → Option CpuSet
unfolding new
from_cpu max_cpus cpu =
    if ltb cpu max_cpus
    then some (record { members = set (new max_cpus).members cpu true })
    else none

none_set : List Bool → Bool
none_set [] = true
none_set (b ∷ bs) = not b && none_set bs

unfoldable pub is_empty : CpuSet → Bool
unfolding none_set
is_empty s = none_set s.members

count_set : List Bool → ℕ
count_set [] = 0
count_set (true ∷ bs) = suc (count_set bs)
count_set (false ∷ bs) = count_set bs

unfoldable pub len : CpuSet → ℕ
unfolding count_set
len s = count_set s.members

-- A fixed mailbox reason: a bit index below the width of a machine word.
pub record IpiReason : Type 0 where
  pub index : ℕ

abbrev pub cpu_maintenance_reason : IpiReason
cpu_maintenance_reason = record { index = 0 }

unfoldable pub try_new_reason : ℕ → Option IpiReason
try_new_reason index = if ltb index 64 then some (record { index = index }) else none

-- `IpiReason::bit`
abbrev pub reason_bit : IpiReason → ℕ
reason_bit reason = 2 ^ reason.index
