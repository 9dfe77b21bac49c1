-- ===== src/Cbpf/Verify/Operand.antt =====
-- The operands that `verify_structure` of crates/thekernel-axcbpf/src/program.rs lets through.
use thekernel_ax.Prelude.{
  ℕ, ◌+◌, ◌^◌, ◌≤◌, ◌<◌, ◌≡◌, refl, ◌≢◌, ◌⊎◌, inl, inr, subst, false, ◌&&◌, some, arith,
  Option-cases,
}
use thekernel_ax.Prelude.Bits.{bit-eq-div, bit_and-two_pow_zero, bit_zero-bit_and}
use thekernel_ax.Prelude.Result.{ok}
use thekernel_ax.Cbpf.Opcode.{
  by_k, alu_div, alu_mod, alu_lsh, alu_rsh, Opcode, ld_abs, ld_mem, ldx_mem, ldx_b_msh, st, stx,
  alu, jmp_ja, jmp,
}
use thekernel_ax.Cbpf.Ancillary.{
  Ancillary, encoded_offset, ancillary_from_offset, encoded_offset_of_ancillary,
  ancillary_from_offset-encoded_offset,
}
use thekernel_ax.Cbpf.Program.{Instruction, max_instructions, is_none, scratch_words}
use thekernel_ax.Cbpf.Verify.{is_negative, check_operation}

-- The operand of an operation is one that the interpreter can execute.
abbrev pub IsOperand : ℕ → ℕ → Instruction → Opcode → Type 0
IsOperand len pc i (alu alu_div by_k) = i.k ≢ 0
IsOperand len pc i (alu alu_mod by_k) = i.k ≢ 0
IsOperand len pc i (alu alu_lsh by_k) = i.k < 32
IsOperand len pc i (alu alu_rsh by_k) = i.k < 32
IsOperand len pc i ld_mem = i.k < scratch_words
IsOperand len pc i ldx_mem = i.k < scratch_words
IsOperand len pc i st = i.k < scratch_words
IsOperand len pc i stx = i.k < scratch_words
IsOperand len pc i jmp_ja = pc + 1 + i.k < len
IsOperand len pc i (jmp _ _) = (pc + 1 + i.jt < len) × (pc + 1 + i.jf < len)
IsOperand len pc i (ld_abs _) =
    (i.k < 2 ^ 31) ⊎ ((field : Ancillary) × (encoded_offset field ≡ i.k))
IsOperand len pc i ldx_b_msh = i.k < 2 ^ 31
IsOperand len pc i _ = Unit

is_negative-lt : (k : ℕ) → k < 2 ^ 32 → is_negative k ≡ false → k < 2 ^ 31
is_negative-lt k h e = omega (arith, bit-eq-div k 31, bit_zero-bit_and k 31 (ground arith))

is_negative_of_lt : (k : ℕ) → k < 2 ^ 31 → is_negative k ≡ false
is_negative_of_lt k h = ground (arith, bit_and-two_pow_zero k 31 (omega (arith, bit-eq-div k 31)))

pub check_operation-IsOperand :
    (len pc : ℕ) (i : Instruction) (op : Opcode)
    → i.k < 2 ^ 32
    → check_operation len pc i op ≡ ok tt
    → IsOperand len pc i op
unfolding check_operation
check_operation-IsOperand len pc i (alu alu_div by_k) h e = ground arith
check_operation-IsOperand len pc i (alu alu_mod by_k) h e = ground arith
check_operation-IsOperand len pc i (alu alu_lsh by_k) h e = ground arith
check_operation-IsOperand len pc i (alu alu_rsh by_k) h e = ground arith
check_operation-IsOperand len pc i ld_mem h e = ground arith
check_operation-IsOperand len pc i ldx_mem h e = ground arith
check_operation-IsOperand len pc i st h e = ground arith
check_operation-IsOperand len pc i stx h e = ground arith
check_operation-IsOperand len pc i jmp_ja h e = ground arith
check_operation-IsOperand len pc i (jmp _ _) h e = ground arith
check_operation-IsOperand len pc i (ld_abs _) h e =
    elim (Option-cases (ancillary_from_offset i.k)) [
      | inl unknown ↦ inl (ground (arith, is_negative-lt i.k h))
      | inr (field, known) ↦ inr (field, encoded_offset_of_ancillary i.k field known)
    ]
check_operation-IsOperand len pc i ldx_b_msh h e = ground (arith, is_negative-lt i.k)
check_operation-IsOperand len pc i _ h e = tt

check_ld_abs :
    (k : ℕ)
    → (k < 2 ^ 31) ⊎ ((field : Ancillary) × (encoded_offset field ≡ k))
    → (is_negative k && is_none (ancillary_from_offset k)) ≡ false
check_ld_abs k (inl low) = ground (arith, is_negative_of_lt k low)
check_ld_abs k (inr (field, e)) =
    let known : ancillary_from_offset k ≡ some field =
      subst (λ (t : ℕ). ancillary_from_offset t ≡ some field) e
        (ancillary_from_offset-encoded_offset field).0 in
    ground arith

-- `pc` and `k` are far below the limit of `checked_add`.
pub IsOperand-check :
    (len pc : ℕ) (i : Instruction) (op : Opcode)
    → pc ≤ max_instructions
    → i.k < 2 ^ 32
    → IsOperand len pc i op
    → check_operation len pc i op ≡ ok tt
unfolding check_operation
IsOperand-check len pc i (alu alu_div by_k) b h e = ground arith
IsOperand-check len pc i (alu alu_mod by_k) b h e = ground arith
IsOperand-check len pc i (alu alu_lsh by_k) b h e = ground arith
IsOperand-check len pc i (alu alu_rsh by_k) b h e = ground arith
IsOperand-check len pc i ld_mem b h e = ground arith
IsOperand-check len pc i ldx_mem b h e = ground arith
IsOperand-check len pc i st b h e = ground arith
IsOperand-check len pc i stx b h e = ground arith
IsOperand-check len pc i jmp_ja b h e = ground arith
IsOperand-check len pc i (jmp _ _) b h e = ground arith
IsOperand-check len pc i (ld_abs _) b h e = rw (check_ld_abs i.k e)
IsOperand-check len pc i ldx_b_msh b h e = ground (arith, is_negative_of_lt i.k e)
IsOperand-check len pc i _ b h e = refl
