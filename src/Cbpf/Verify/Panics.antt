-- ===== src/Cbpf/Verify/Panics.antt =====
-- `Program::verify` of crates/thekernel-axcbpf/src/program.rs: its indices and its panics.
use thekernel_ax.Prelude.{
  ℕ, suc, ◌+◌, ◌<◌, ◌≡◌, ◌≢◌, refl, ◌⊎◌, inl, inr, ap, sym, ◌∙◌, Bool, true, false, Option, none,
  some, List, [], ◌∷◌, arith, length, get_elem?, length-set, get_elem?-total, Option-cases,
  length-replicate, lt-length_of_get,
}
use thekernel_ax.Prelude.Result.{Result, ok, err, panic, ◌>>=◌}
use thekernel_ax.Cbpf.Opcode.{
  by_k, alu, alu_div, alu_mod, alu_lsh, alu_rsh, ld_abs, ldx_b_msh, Opcode, ld_mem, ldx_mem, st,
  stx, jmp_ja, jmp, ret_k, ret_a, decode,
}
use thekernel_ax.Cbpf.Program.{Instruction, VerifyError}
use thekernel_ax.Cbpf.Verify.{
  Slots, is_return, merge_initialized, merge_at, track, propagate, analyse_instruction, analyse,
  initial_slots, verify_structure, verify_scratch_initialization, verify_program, verify, Verdict,
  check_operation, check_instruction, check_instructions,
}
use thekernel_ax.Cbpf.Verify.Operand.{IsOperand}
use thekernel_ax.Cbpf.Verify.Structure.{
  IsWellFormed, ImmediatesFit, verify_structure_iff, returns_or_room,
}

shift : (pc j : ℕ) → pc + suc j ≡ pc + 1 + j
shift pc j = omega arith

zero-add_sym : (j : ℕ) → j ≡ 0 + j
zero-add_sym j = omega arith

-- No panic, and a vector of the length given if there is one.
abbrev Sized : ℕ → Result VerifyError Slots → Type 0
Sized n (ok slots) = length slots ≡ n
Sized n (err e) = Unit
Sized n panic = ⊥

Sized-bind :
    (n : ℕ) (r : Result VerifyError Slots) (f : Slots → Result VerifyError Slots)
    → Sized n r
    → ((slots : Slots) → length slots ≡ n → Sized n (f slots))
    → Sized n (r >>= f)
Sized-bind n (ok slots) f h k = k slots h
Sized-bind n (err e) f h k = tt
Sized-bind n panic f h k = h

merge_at-Sized :
    (n : ℕ) (incoming : Slots) (t initialized : ℕ)
    → length incoming ≡ n
    → t < n
    → Sized n (merge_at incoming t initialized)
unfolding merge_at
merge_at-Sized n incoming t initialized l h =
    let (slot, found) = get_elem?-total incoming t (omega arith) in
    rw (found, merge_at) (length-set incoming t (merge_initialized slot initialized) ∙ l)

propagate-Sized :
    (n pc : ℕ) (i : Instruction) (op : Opcode) (initialized : ℕ) (incoming : Slots)
    → IsOperand n pc i op
    → (is_return op ≡ true) ⊎ (pc + 1 < n)
    → length incoming ≡ n
    → Sized n (propagate pc i (some op) initialized incoming)
unfolding propagate is_return
propagate-Sized n pc i ret_k x incoming o h l = l
propagate-Sized n pc i ret_a x incoming o h l = l
propagate-Sized n pc i jmp_ja x incoming o h l = merge_at-Sized n incoming _ x l o
propagate-Sized n pc i (jmp _ _) x incoming o h l =
    Sized-bind n (merge_at incoming (pc + 1 + i.jt) x) _ (merge_at-Sized n incoming _ x l o.0)
      (λ merged l'. merge_at-Sized n merged _ x l' o.1)
propagate-Sized n pc i _ x incoming o (inl h) l = cc
propagate-Sized n pc i _ x incoming o (inr h) l = merge_at-Sized n incoming _ x l h

-- A slot index that the structural pass accepted is within the width of the mask.
track-ne-panic :
    (n pc : ℕ) (i : Instruction) (op : Opcode) (entry : ℕ)
    → IsOperand n pc i op
    → track pc i (some op) entry ≢ panic
unfolding track
track-ne-panic n pc i ld_mem entry o e = ground arith
track-ne-panic n pc i ldx_mem entry o e = ground arith
track-ne-panic n pc i st entry o e = ground arith
track-ne-panic n pc i stx entry o e = ground arith
track-ne-panic n pc i _ entry o e = cc

tracked-Sized :
    (n : ℕ) (r : Result VerifyError ℕ) (f : ℕ → Result VerifyError Slots)
    → r ≢ panic
    → ((x : ℕ) → Sized n (f x))
    → Sized n (r >>= f)
tracked-Sized n (ok x) f h k = k x
tracked-Sized n (err e) f h k = tt
tracked-Sized n panic f h k = h refl

analyse_instruction-Sized :
    (p : List Instruction)
    → IsWellFormed p
    → (pc : ℕ) (i : Instruction) (incoming : Slots) → get_elem? p pc ≡ some i
    → length incoming ≡ length p
    → Sized (length p) (analyse_instruction pc i incoming)
unfolding analyse_instruction
analyse_instruction-Sized p w pc i incoming found l =
    let (op, known, operand) = w.each pc i found in
    let (slot, here) = get_elem?-total incoming pc (omega (arith, lt-length_of_get p pc i found)) in
    rw (here, analyse_instruction) (by_slot op known operand slot)
  where
    by_slot :
        (op : Opcode)
        → decode i.code ≡ some op
        → IsOperand (length p) pc i op
        → (slot : Option ℕ)
        → Sized (length p) (elim slot [
          | none ↦ ok incoming
          | some entry ↦ track pc i (decode i.code) entry >>= λ initialized.
              propagate pc i (decode i.code) initialized incoming
        ])
    by_slot op known operand none = l
    by_slot op known operand (some entry) =
        tracked-Sized (length p) (track pc i (decode i.code) entry) _
          (rw known (track-ne-panic (length p) pc i op entry operand))
          (λ x. rw known (
            propagate-Sized (length p) pc i op x incoming operand
              (returns_or_room p w pc i op found known) l))

analyse-Sized :
    (p : List Instruction)
    → IsWellFormed p
    → (pc : ℕ) (rest : List Instruction) (incoming : Slots)
    → ((j : ℕ) → get_elem? rest j ≡ get_elem? p (pc + j))
    → length incoming ≡ length p
    → Sized (length p) (analyse pc rest incoming)
unfolding analyse
analyse-Sized p w pc [] incoming tail l = l
analyse-Sized p w pc (i ∷ rest) incoming tail l =
    let place : pc + 0 ≡ pc = omega arith in
    Sized-bind (length p) (analyse_instruction pc i incoming) _
      (analyse_instruction-Sized p w pc i incoming (sym (rw place at (tail 0))) l)
      (λ merged l'.
        analyse-Sized p w (pc + 1) rest merged (λ j. tail (suc j) ∙ ap (get_elem? p) (shift pc j))
          l')

length-initial_slots : (is : List Instruction) → length (initial_slots is) ≡ length is
length-initial_slots [] = refl
length-initial_slots (i ∷ rest) = ap suc (length-replicate (length rest) none)

verify_scratch-ne-panic :
    (reserved : Bool) (is : List Instruction)
    → IsWellFormed is
    → verify_scratch_initialization reserved is ≢ panic
unfolding verify_scratch_initialization
verify_scratch-ne-panic false is w e = cc
verify_scratch-ne-panic true [] w e = absurd (omega (arith, w.nonempty))
verify_scratch-ne-panic true (i ∷ rest) w e = by_result _ refl (
    analyse-Sized (i ∷ rest) w 0 (i ∷ rest) _ (λ j. ap (get_elem? (i ∷ rest)) (zero-add_sym j))
      (length-initial_slots (i ∷ rest)))
  where
    by_result :
        (r : Result VerifyError Slots)
        → analyse 0 (i ∷ rest) (initial_slots (i ∷ rest)) ≡ r
        → Sized (length (i ∷ rest)) r
        → ⊥
    by_result (ok after) h s = ground arith
    by_result (err x) h s = ground arith
    by_result panic h s = s

check_operation-ne-panic :
    (len pc : ℕ) (i : Instruction) (op : Opcode) → check_operation len pc i op ≢ panic
unfolding check_operation
check_operation-ne-panic len pc i (alu alu_div by_k) e = ground arith
check_operation-ne-panic len pc i (alu alu_mod by_k) e = ground arith
check_operation-ne-panic len pc i (alu alu_lsh by_k) e = ground arith
check_operation-ne-panic len pc i (alu alu_rsh by_k) e = ground arith
check_operation-ne-panic len pc i ld_mem e = ground arith
check_operation-ne-panic len pc i ldx_mem e = ground arith
check_operation-ne-panic len pc i st e = ground arith
check_operation-ne-panic len pc i stx e = ground arith
check_operation-ne-panic len pc i jmp_ja e = ground arith
check_operation-ne-panic len pc i (jmp _ _) e = ground arith
check_operation-ne-panic len pc i (ld_abs _) e = ground arith
check_operation-ne-panic len pc i ldx_b_msh e = ground arith
check_operation-ne-panic len pc i _ e = cc

check_instructions-ne-panic :
    (len pc : ℕ) (is : List Instruction) → check_instructions len pc is ≢ panic
unfolding check_instructions check_instruction
check_instructions-ne-panic len pc [] e = cc
check_instructions-ne-panic len pc (i ∷ rest) e =
    let later = check_instructions-ne-panic len (pc + 1) rest in
    elim (Option-cases (decode i.code)) [
      | inl unknown ↦ ground arith
      | inr (op, known) ↦ ground (arith, check_operation-ne-panic len pc i op)
    ]

verify_structure-ne-panic : (is : List Instruction) → verify_structure is ≢ panic
unfolding verify_structure
verify_structure-ne-panic [] e = cc
verify_structure-ne-panic (i ∷ rest) e =
    ground (arith, check_instructions-ne-panic (length (i ∷ rest)) 0 (i ∷ rest))

-- For u32 immediates, Program::verify never panics: no index of the scratch analysis is out of
-- range and no slot is beyond the width of its mask, whatever the other fields hold and the
-- allocator answers.
pub verify-ne-panic :
    (reserved copied : Bool) (is : List Instruction)
    → ImmediatesFit is
    → verify reserved copied is ≢ panic
unfolding verify verify_program
verify-ne-panic reserved copied is fit e = by_structure (verify_structure is) refl
  where
    by_structure : (r : Verdict) → verify_structure is ≡ r → ⊥
    by_structure (ok u) h =
        let w = (verify_structure_iff is fit).0 h in
        ground (arith, verify_scratch-ne-panic reserved is w)
    by_structure (err x) h = ground arith
    by_structure panic h = verify_structure-ne-panic is h
