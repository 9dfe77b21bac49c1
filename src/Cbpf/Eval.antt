-- ===== src/Cbpf/Eval.antt =====
-- crates/thekernel-axcbpf/src/program.rs: `Program::evaluate`.
-- A `u32` is a number below 2 ^ 32, with its wrap-around written out; `pc` and `steps` are `usize`.
pub mod Total
pub mod Ancillary
pub mod Lockstep
pub mod Scratch
use thekernel_ax.Prelude.{
  ℕ, zero, suc, ◌+◌, ◌-◌, ◌*◌, ◌/◌, ◌%◌, ◌^◌, Bool, true, false, not, ◌&&◌, Option, none, some,
  List, ltb, leb, ◌==◌, if◌then◌else◌, bit_and, bit_or, bit_xor, length, get_elem?, set, replicate,
}
use thekernel_ax.Cbpf.Opcode.{
  byte, Operand, by_k, by_x, AluOp, alu_add, alu_sub, alu_mul, alu_div, alu_or, alu_and, alu_lsh,
  alu_rsh, alu_mod, alu_xor, Cond, jeq, jgt, jge, jset, Opcode, ld_imm, ld_abs, ld_ind, ld_mem,
  ld_len, ldx_imm, ldx_mem, ldx_len, ldx_b_msh, st, stx, alu, alu_neg, jmp_ja, jmp, ret_k, ret_a,
  misc_tax, misc_txa, decode,
}
use thekernel_ax.Cbpf.Ancillary.{ancillary_from_offset}
use thekernel_ax.Cbpf.Input.{Input}
use thekernel_ax.Cbpf.Program.{Instruction, Program, scratch_words}
use mathlib.Core.Option.{get_or}

-- The local variables of the loop.
pub record Machine : Type 0 where
  pub accumulator : ℕ
  pub index : ℕ
  pub scratch : List ℕ
  pub pc : ℕ

-- One round: the loop goes on, the function returns, or it panics.
pub data Flow : Type 0 where
  go : Machine → Flow
  done : ℕ → Flow
  fault : Flow

-- `let Some(value) = … else { return (0, steps) };`
abbrev pub or_zero : Option ℕ → (ℕ → Flow) → Flow
or_zero none k = done 0
or_zero (some v) k = k v

-- The result of an ALU operation. A shift takes its count modulo 32, as `wrapping_shl` does.
unfoldable pub alu_value : AluOp → ℕ → ℕ → ℕ
alu_value alu_add a b = (a + b) % 2 ^ 32
alu_value alu_sub a b = (a + 2 ^ 32 - b) % 2 ^ 32
alu_value alu_mul a b = a * b % 2 ^ 32
alu_value alu_div a b = a / b
alu_value alu_or a b = bit_or a b
alu_value alu_and a b = bit_and a b
alu_value alu_lsh a b = a * 2 ^ (b % 32) % 2 ^ 32
alu_value alu_rsh a b = a / 2 ^ (b % 32)
alu_value alu_mod a b = a % b
alu_value alu_xor a b = bit_xor a b

abbrev pub is_division : AluOp → Bool
is_division alu_div = true
is_division alu_mod = true
is_division _ = false

abbrev pub operand_value : Operand → Instruction → Machine → ℕ
operand_value by_k i m = i.k
operand_value by_x i m = m.index

-- Division by a zero X ends the program with zero; by a zero immediate it would panic.
abbrev pub divided_by_zero : Operand → Flow
divided_by_zero by_k = fault
divided_by_zero by_x = done 0

unfoldable pub condition : Cond → ℕ → ℕ → Bool
condition jeq a b = a == b
condition jgt a b = ltb b a
condition jge a b = leb b a
condition jset a b = not (bit_and a b == 0)

abbrev pub next : Machine → Machine
next m = record m { pc = m.pc + 1 }

-- `scratch[k] = value`, which panics out of range.
abbrev pub store : Machine → ℕ → ℕ → Flow
store m k value =
    if ltb k (length m.scratch)
    then go (next (record m { scratch = set m.scratch k value }))
    else fault

-- The arms of the `match` in the loop.
unfoldable pub execute : Input → Instruction → Opcode → Machine → Flow
unfolding alu_value condition
execute input i ld_imm m = go (next (record m { accumulator = i.k }))
execute input i (ld_abs width) m = elim (ancillary_from_offset i.k) [
  | some field ↦ go (next (record m { accumulator = get_or (input.ancillary field) 0 }))
  | none ↦ or_zero (input.load i.k width) (λ v. go (next (record m { accumulator = v })))
]
execute input i (ld_ind width) m =
    if ltb (m.index + i.k) (2 ^ 32)
    then or_zero (input.load (m.index + i.k) width) (λ v. go (next (record m { accumulator = v })))
    else done 0
execute input i ld_mem m = elim (get_elem? m.scratch i.k) [
  | none ↦ fault
  | some v ↦ go (next (record m { accumulator = v }))
]
execute input i ld_len m = go (next (record m { accumulator = input.len }))
execute input i ldx_imm m = go (next (record m { index = i.k }))
execute input i ldx_mem m = elim (get_elem? m.scratch i.k) [
  | none ↦ fault
  | some v ↦ go (next (record m { index = v }))
]
execute input i ldx_len m = go (next (record m { index = input.len }))
execute input i ldx_b_msh m =
    or_zero (input.load i.k byte)
      (λ v. go (next (record m { index = bit_and v 0x0f * 2 ^ 2 % 2 ^ 32 })))
execute input i st m = store m i.k m.accumulator
execute input i stx m = store m i.k m.index
execute input i (alu op operand) m =
    let b = operand_value operand i m in
    if is_division op && b == 0
    then divided_by_zero operand
    else go (next (record m { accumulator = alu_value op m.accumulator b }))
execute input i alu_neg m = go (next (record m { accumulator = (2 ^ 32 - m.accumulator) % 2 ^ 32 }))
execute input i jmp_ja m = go (record m { pc = m.pc + (1 + i.k) })
execute input i (jmp cond operand) m =
    let taken = condition cond m.accumulator (operand_value operand i m) in
    go (record m { pc = m.pc + (1 + (if taken then i.jt else i.jf)) })
execute input i ret_k m = done i.k
execute input i ret_a m = done m.accumulator
execute input i misc_tax m = go (next (record m { index = m.accumulator }))
execute input i misc_txa m = go (next (record m { accumulator = m.index }))

-- A fetch out of range and an unsupported opcode panic.
unfoldable pub step : Input → List Instruction → Machine → Flow
unfolding execute
step input program m = elim (get_elem? program m.pc) [
  | none ↦ fault
  | some i ↦ elim (decode i.code) [ none ↦ fault | some op ↦ execute input i op m ]
]

pub data Evaluation : Type 0 where
  returned : (value steps : ℕ) → Evaluation
  panicked : Evaluation

-- The loop `while steps < len`, with `len - steps` rounds left; past it stands `unreachable!`.
unfoldable pub run : Input → List Instruction → (left steps : ℕ) → Machine → Evaluation
run input program zero steps m = panicked
run input program (suc left) steps m = elim (step input program m) [
  | go m' ↦ run input program left (suc steps) m'
  | done value ↦ returned value (suc steps)
  | fault ↦ panicked
]

abbrev pub start : Machine
start = record { accumulator = 0; index = 0; scratch = replicate scratch_words 0; pc = 0 }

unfoldable pub evaluate_counted : Program → Input → Evaluation
unfolding run step
evaluate_counted p input = run input p.instructions (length p.instructions) 0 start
