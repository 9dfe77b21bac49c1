-- ===== src/Cbpf/Verify.antt =====
-- crates/thekernel-axcbpf/src/program.rs: what `Program::verify` checks.
-- The scratch analysis is a forward pass over one word of initialized slots for each instruction.
pub mod Operand
pub mod Structure
pub mod Flow
pub mod Panics
use thekernel_ax.Prelude.{
  ℕ, zero, ◌+◌, ◌^◌, ◌≡◌, refl, arith, Bool, true, false, not, ◌&&◌, ◌||◌, Option, none, some, List,
  [], ◌∷◌, ltb, leb, ◌==◌, if◌then◌else◌, bit_and, bit_or, length, get_elem?, set, replicate,
  Bool-cases, inl, inr,
}
use thekernel_ax.Prelude.Result.{Result, ok, err, panic, ◌>>=◌, ◌>>◌, >>=-eq-ok}
use thekernel_ax.Cbpf.Opcode.{
  by_k, alu_div, alu_mod, alu_lsh, alu_rsh, Opcode, ld_abs, ld_mem, ldx_mem, ldx_b_msh, st, stx,
  alu, jmp_ja, jmp, ret_k, ret_a, decode,
}
use thekernel_ax.Cbpf.Ancillary.{ancillary_from_offset}
use thekernel_ax.Cbpf.Input.{checked_add}
use thekernel_ax.Cbpf.Program.{
  Instruction, Program, VerifyError, empty, immediate_division_by_zero,
  immediate_shift_out_of_range, is_none, jump_out_of_range, max_instructions, missing_final_return,
  no_memory, scratch_out_of_range, scratch_uninitialized, scratch_words, too_long,
  unsupported_ancillary_load, unsupported_opcode,
}

abbrev pub Verdict : Type 0
Verdict = Result VerifyError (Unit {0})

abbrev pub require : Bool → VerifyError → Verdict
require true e = ok tt
require false e = err e

-- `k & 0x8000_0000 != 0`
abbrev pub is_negative : ℕ → Bool
is_negative k = not (bit_and k 0x8000_0000 == 0)

check_ja : ℕ → ℕ → ℕ → Verdict
unfolding checked_add
check_ja len pc k = elim (checked_add pc 1) [
  | none ↦ err (jump_out_of_range pc)
  | some next ↦ elim (checked_add next k) [
    | none ↦ err (jump_out_of_range pc)
    | some target ↦ require (ltb target len) (jump_out_of_range pc)
  ]
]

-- The arms of the second `match` of `verify_structure`.
unfoldable pub check_operation : ℕ → ℕ → Instruction → Opcode → Verdict
unfolding check_ja
check_operation len pc i (alu alu_div by_k) =
    require (not (i.k == 0)) (immediate_division_by_zero pc)
check_operation len pc i (alu alu_mod by_k) =
    require (not (i.k == 0)) (immediate_division_by_zero pc)
check_operation len pc i (alu alu_lsh by_k) =
    require (ltb i.k 32) (immediate_shift_out_of_range pc i.k)
check_operation len pc i (alu alu_rsh by_k) =
    require (ltb i.k 32) (immediate_shift_out_of_range pc i.k)
check_operation len pc i ld_mem = require (ltb i.k scratch_words) (scratch_out_of_range pc i.k)
check_operation len pc i ldx_mem = require (ltb i.k scratch_words) (scratch_out_of_range pc i.k)
check_operation len pc i st = require (ltb i.k scratch_words) (scratch_out_of_range pc i.k)
check_operation len pc i stx = require (ltb i.k scratch_words) (scratch_out_of_range pc i.k)
check_operation len pc i jmp_ja = check_ja len pc i.k
check_operation len pc i (jmp _ _) =
    require (not (leb len (pc + 1 + i.jt) || leb len (pc + 1 + i.jf))) (jump_out_of_range pc)
check_operation len pc i (ld_abs _) =
    require (not (is_negative i.k && is_none (ancillary_from_offset i.k)))
      (unsupported_ancillary_load pc i.k)
check_operation len pc i ldx_b_msh =
    require (not (is_negative i.k)) (unsupported_ancillary_load pc i.k)
check_operation len pc i _ = ok tt

-- One round of the loop of `verify_structure`.
unfoldable pub check_instruction : ℕ → ℕ → Instruction → Verdict
check_instruction len pc i = elim (decode i.code) [
  | none ↦ err (unsupported_opcode pc i.code)
  | some op ↦ check_operation len pc i op
]

-- The loop, from the instruction at `pc` on.
unfoldable pub check_instructions : ℕ → ℕ → List Instruction → Verdict
check_instructions len pc [] = ok tt
check_instructions len pc (i ∷ rest) =
    check_instruction len pc i >> check_instructions len (pc + 1) rest

abbrev pub last? {ℓ} : {A : Type ℓ} → List A → Option A
last? [] = none
last? (x ∷ []) = some x
last? (x ∷ y ∷ rest) = last? (y ∷ rest)

unfoldable pub is_return : Opcode → Bool
is_return ret_k = true
is_return ret_a = true
is_return _ = false

-- `matches!(instructions.last().map(code), Some(RET_K | RET_A))`
unfoldable pub ends_in_return : List Instruction → Bool
unfolding is_return
ends_in_return program = elim (last? program) [
  | none ↦ false
  | some i ↦ elim (decode i.code) [ none ↦ false | some op ↦ is_return op ]
]

unfoldable pub verify_structure : List Instruction → Verdict
verify_structure [] = err empty
verify_structure (i ∷ rest) =
    let program = i ∷ rest in
    if ltb max_instructions (length program)
    then err (too_long (length program))
    else (check_instructions (length program) 0 program
        >> require (ends_in_return program) missing_final_return)

-- `merge_initialized`
unfoldable pub merge_initialized : Option ℕ → ℕ → Option ℕ
merge_initialized (some existing) incoming = some (bit_and existing incoming)
merge_initialized none incoming = some incoming

abbrev pub Slots : Type 0
Slots = List (Option ℕ)

-- `merge_initialized(&mut incoming[target], initialized)`, which panics out of range.
unfoldable pub merge_at : Slots → ℕ → ℕ → Result VerifyError Slots
unfolding merge_initialized
merge_at incoming target initialized = elim (get_elem? incoming target) [
  | none ↦ panic
  | some slot ↦ ok (set incoming target (merge_initialized slot initialized))
]

-- `1_u16 << k`, which overflows, a panic with checks, from the width of the type on.
unfoldable pub slot_bit : ℕ → Result VerifyError ℕ
slot_bit k = if ltb k 16 then ok (2 ^ k) else panic

pub slot_bit_lem :
    (k : ℕ) {out : ℕ} (rest : ℕ → Result VerifyError ℕ)
    → (slot_bit k >>= rest) ≡ ok out
    → rest (2 ^ k) ≡ ok out
unfolding slot_bit
slot_bit_lem k rest e = elim (Bool-cases (ltb k 16)) [
  | inl within ↦ rw within at e
  | inr beyond ↦ absurd (ground arith)
]

-- The first `match` of the analysis: a load needs its slot, a store adds one.
unfoldable pub track : ℕ → Instruction → Option Opcode → ℕ → Result VerifyError ℕ
unfolding slot_bit
track pc i (some ld_mem) initialized = slot_bit i.k >>= λ bit.
    if bit_and initialized bit == 0 then err (scratch_uninitialized pc i.k) else ok initialized
track pc i (some ldx_mem) initialized = slot_bit i.k >>= λ bit.
    if bit_and initialized bit == 0 then err (scratch_uninitialized pc i.k) else ok initialized
track pc i (some st) initialized = slot_bit i.k >>= λ bit. ok (bit_or initialized bit)
track pc i (some stx) initialized = slot_bit i.k >>= λ bit. ok (bit_or initialized bit)
track pc i _ initialized = ok initialized

-- The second `match`: what is initialized flows to every successor.
unfoldable pub propagate : ℕ → Instruction → Option Opcode → ℕ → Slots → Result VerifyError Slots
unfolding merge_at
propagate pc i (some ret_k) initialized incoming = ok incoming
propagate pc i (some ret_a) initialized incoming = ok incoming
propagate pc i (some jmp_ja) initialized incoming = merge_at incoming (pc + 1 + i.k) initialized
propagate pc i (some (jmp _ _)) initialized incoming = do
  merged ← merge_at incoming (pc + 1 + i.jt) initialized
  merge_at merged (pc + 1 + i.jf) initialized
propagate pc i _ initialized incoming = merge_at incoming (pc + 1) initialized

-- One round of the loop: an instruction that no path reaches is skipped.
unfoldable pub analyse_instruction : ℕ → Instruction → Slots → Result VerifyError Slots
unfolding track propagate
analyse_instruction pc i incoming = elim (get_elem? incoming pc) [
  | none ↦ panic
  | some none ↦ ok incoming
  | some (some entry) ↦ do
    initialized ← track pc i (decode i.code) entry
    propagate pc i (decode i.code) initialized incoming
]

-- The loop, from the instruction at `pc` on; its result is `incoming` at the end.
unfoldable pub analyse : ℕ → List Instruction → Slots → Result VerifyError Slots
analyse pc [] incoming = ok incoming
analyse pc (i ∷ rest) incoming = do
  merged ← analyse_instruction pc i incoming
  analyse (pc + 1) rest merged

-- `incoming` at the start of the loop: only the first instruction is reached, with no slot.
abbrev pub initial_slots : List Instruction → Slots
initial_slots [] = []
initial_slots (i ∷ rest) = some 0 ∷ replicate (length rest) none

-- `reserved` is the answer of the allocator to `try_reserve_exact`.
unfoldable pub verify_scratch_initialization : Bool → List Instruction → Verdict
verify_scratch_initialization false program = err no_memory
verify_scratch_initialization true [] = panic
verify_scratch_initialization true (i ∷ rest) = do
  _ ← analyse 0 (i ∷ rest) (initial_slots (i ∷ rest))
  ok tt

unfoldable pub verify_program : Bool → List Instruction → Verdict
unfolding verify_structure verify_scratch_initialization
verify_program reserved program =
    verify_structure program >> verify_scratch_initialization reserved program

-- `Program::verify`; the second flag is the allocator's answer for the owned copy.
unfoldable pub verify : Bool → Bool → List Instruction → Result VerifyError Program
unfolding verify_program
verify reserved copied program = do
  verify_program reserved program
  if copied then ok (record { instructions = program }) else err no_memory

unfoldable pub try_from_vec : Bool → List Instruction → Result VerifyError Program
unfolding verify_program
try_from_vec reserved program = do
  verify_program reserved program
  ok (record { instructions = program })

-- A verified program holds the instructions given, and both passes accepted them.
pub verify-eq-ok :
    (reserved copied : Bool) (is : List Instruction) (program : Program)
    → verify reserved copied is ≡ ok program
    → (program.instructions ≡ is)
      × (verify_structure is ≡ ok tt)
      × (verify_scratch_initialization reserved is ≡ ok tt)
unfolding verify verify_program
verify-eq-ok reserved copied is program h =
    let (_, passed, made) =
      >>=-eq-ok (verify_program reserved is)
        (λ _. if copied then ok (record { instructions = is }) else err no_memory) h in
    let (_, structure, scratch) =
      >>=-eq-ok (verify_structure is) (λ _. verify_scratch_initialization reserved is) passed in
    (ground arith, structure, scratch)

pub verify_scratch-eq-ok :
    (reserved : Bool) (is : List Instruction)
    → verify_scratch_initialization reserved is ≡ ok tt
    → (after : Slots) × (get_elem? (initial_slots is) 0 ≡ some (some 0))
      × (analyse 0 is (initial_slots is) ≡ ok after)
unfolding verify_scratch_initialization
verify_scratch-eq-ok false is h = cc
verify_scratch-eq-ok true [] h = cc
verify_scratch-eq-ok true (i ∷ rest) h =
    let (after, analysed, _) =
      >>=-eq-ok (analyse 0 (i ∷ rest) (initial_slots (i ∷ rest))) (λ _. ok tt) h in
    (after, refl, analysed)
