-- ===== src/Cbpf/Eval/Total.antt =====
-- `Program::evaluate` of crates/thekernel-axcbpf/src/program.rs: its panics and the bound on its
-- steps.
use thekernel_ax.Prelude.{
  ℕ, zero, suc, ◌+◌, ◌≤◌, ◌<◌, ◌≡◌, refl, ◌⊎◌, Bool, true, some, List, arith, length, get_elem?,
  length-set, get_elem?-total,
}
use thekernel_ax.Cbpf.Opcode.{
  by_k, by_x, alu_div, alu_mod, Opcode, ld_imm, ld_abs, ld_ind, ld_mem, ld_len, ldx_imm, ldx_mem,
  ldx_len, ldx_b_msh, st, stx, alu, jmp_ja, jmp, ret_k, ret_a, decode,
}
use thekernel_ax.Cbpf.Input.{Input}
use thekernel_ax.Cbpf.Program.{Instruction, Program, scratch_words}
use thekernel_ax.Cbpf.Verify.{is_return, verify, verify-eq-ok}
use thekernel_ax.Cbpf.Verify.Operand.{IsOperand}
use thekernel_ax.Prelude.Result.{ok}
use thekernel_ax.Cbpf.Verify.Structure.{
  returns_or_room, verify_structure_iff, IsWellFormed, ImmediatesFit,
}
use thekernel_ax.Cbpf.Eval.{
  Machine, Flow, go, done, fault, execute, step, returned, run, start, evaluate_counted,
}

-- A round returns, or goes on further down the program with its scratch words in place.
abbrev pub Advances : ℕ → Machine → Flow → Type 0
Advances len m (go m') = (m.pc < m'.pc) × (m'.pc < len) × (length m'.scratch ≡ scratch_words)
Advances len m (done _) = Unit
Advances len m fault = ⊥

execute-Advances :
    (input : Input) (len : ℕ) (i : Instruction) (op : Opcode) (m : Machine)
    → length m.scratch ≡ scratch_words
    → IsOperand len m.pc i op
    → (is_return op ≡ true) ⊎ (m.pc + 1 < len)
    → Advances len m (execute input i op m)
unfolding execute is_return
execute-Advances input len i ld_imm m s o h = ground arith
execute-Advances input len i (ld_abs w) m s o h = ground arith
execute-Advances input len i (ld_ind w) m s o h = ground arith
execute-Advances input len i ld_mem m s o h = ground (arith, get_elem?-total m.scratch i.k)
execute-Advances input len i ld_len m s o h = ground arith
execute-Advances input len i ldx_imm m s o h = ground arith
execute-Advances input len i ldx_mem m s o h = ground (arith, get_elem?-total m.scratch i.k)
execute-Advances input len i ldx_len m s o h = ground arith
execute-Advances input len i ldx_b_msh m s o h = ground arith
execute-Advances input len i st m s o h = ground (arith, length-set m.scratch i.k m.accumulator)
execute-Advances input len i stx m s o h = ground (arith, length-set m.scratch i.k m.index)
execute-Advances input len i (alu alu_div by_k) m s o h = ground arith
execute-Advances input len i (alu alu_mod by_k) m s o h = ground arith
execute-Advances input len i (alu op by_x) m s o h = ground arith
execute-Advances input len i (alu op by_k) m s o h = ground arith
execute-Advances input len i jmp_ja m s o h = ground arith
execute-Advances input len i (jmp c x) m s o h = ground arith
execute-Advances input len i ret_k m s o h = tt
execute-Advances input len i ret_a m s o h = tt
execute-Advances input len i _ m s o h = ground arith

pub step-eq-execute :
    (input : Input) (p : List Instruction) (m : Machine) (i : Instruction) (op : Opcode)
    → get_elem? p m.pc ≡ some i
    → decode i.code ≡ some op
    → step input p m ≡ execute input i op m
unfolding step
step-eq-execute input p m i op found known = rw (found, known, step)

pub step-Advances :
    (input : Input) (p : List Instruction)
    → IsWellFormed p
    → (m : Machine) → m.pc < length p
    → length m.scratch ≡ scratch_words
    → Advances (length p) m (step input p m)
step-Advances input p w m below s =
    let (i, found) = get_elem?-total p m.pc below in
    let (op, known, operand) = w.each m.pc i found in
    rw (step-eq-execute input p m i op found known) (
      execute-Advances input (length p) i op m s operand
        (returns_or_room p w m.pc i op found known))

-- `run` returns from `m` within the rounds left, after at least one.
abbrev Returns : Input → List Instruction → (left steps : ℕ) → Machine → Type 0
Returns input p left steps m =
    (value taken : ℕ) × (run input p left steps m ≡ returned value taken)
    × (steps < taken)
    × (taken ≤ steps + left)

run-Returns-step :
    (input : Input) (p : List Instruction) (left steps : ℕ) (m : Machine) (f : Flow)
    → step input p m ≡ f
    → Advances (length p) m f
    → ((m' : Machine)
        → m.pc < m'.pc
        → m'.pc < length p
        → length m'.scratch ≡ scratch_words
        → Returns input p left (suc steps) m')
    → Returns input p (suc left) steps m
unfolding run
run-Returns-step input p left steps m (go m') e (later, inside, s) rest =
    let (value, taken, returns, more, most) = rest m' later inside s in
    (value, taken, rw (e, run) returns, omega arith, omega arith)
run-Returns-step input p left steps m (done v) e _ rest =
    (v, suc steps, rw (e, run), omega arith, omega arith)
run-Returns-step input p left steps m fault e h rest = absurd h

run-Returns :
    (input : Input) (p : List Instruction)
    → IsWellFormed p
    → (left steps : ℕ) (m : Machine) → length p ≤ m.pc + left
    → m.pc < length p
    → length m.scratch ≡ scratch_words
    → Returns input p left steps m
run-Returns input p w zero steps m enough below s = absurd (omega arith)
run-Returns input p w (suc left) steps m enough below s =
    run-Returns-step input p left steps m (step input p m) refl (step-Advances input p w m below s)
      (λ m' later inside s'. run-Returns input p w left (suc steps) m' (omega arith) inside s')

-- A verified program of `u32` immediates, evaluated on any input, returns a value: no fetch,
-- scratch access, division or opcode panics, and it takes at least one step and at most one for
-- each instruction.
pub evaluate_counted-returned :
    (reserved copied : Bool) (is : List Instruction) (program : Program)
    → ImmediatesFit is
    → verify reserved copied is ≡ ok program
    → (input : Input)
    → (value taken : ℕ) × (evaluate_counted program input ≡ returned value taken)
      × (0 < taken)
      × (taken ≤ length is)
unfolding evaluate_counted
evaluate_counted-returned reserved copied is program fit verified input =
    let (same, structure, _) = verify-eq-ok reserved copied is program verified in
    let w = (verify_structure_iff is fit).0 structure in
    let (value, taken, returns, more, most) =
      run-Returns input is w (length is) 0 start (omega arith) w.nonempty refl in
    (value, taken, rw same returns, more, omega arith)
