-- ===== src/Cbpf/Eval/Ancillary.antt =====
-- `Program::uses_ancillary` of crates/thekernel-axcbpf/src/program.rs, against the interpreter.
use thekernel_ax.Prelude.{
  ℕ, zero, suc, ◌≡◌, refl, ap, sym, ◌∙◌, false, Option, none, some, length, get_elem?,
}
use thekernel_ax.Cbpf.Opcode.{LoadWidth, Opcode, ld_imm, ld_abs, decode}
use thekernel_ax.Cbpf.Ancillary.{Ancillary, ancillary_from_offset}
use thekernel_ax.Cbpf.Input.{Input}
use thekernel_ax.Cbpf.Program.{Instruction, Program, uses_ancillary, uses_ancillary-false}
use thekernel_ax.Cbpf.Eval.{
  Machine, Flow, go, done, fault, execute, step, Evaluation, run, start, evaluate_counted,
}

-- The same input with another provider of metadata.
abbrev pub with_ancillary : Input → (Ancillary → Option ℕ) → Input
with_ancillary input provider = record input { ancillary = provider }

module _ (input : Input) (provider : Ancillary → Option ℕ) (p : Program)
    (unused : uses_ancillary p ≡ false) where
  execute-with_ancillary :
      (i : Instruction) (op : Opcode) (m : Machine)
      → ((width : LoadWidth) → op ≡ ld_abs width → ancillary_from_offset i.k ≡ none)
      → execute input i op m ≡ execute (with_ancillary input provider) i op m
  unfolding execute
  execute-with_ancillary i (ld_abs w) m plain = rw (plain w refl, execute)
  execute-with_ancillary i ld_imm m plain = refl
  execute-with_ancillary i _ m plain = refl

  step-with_ancillary :
      (m : Machine)
      → step input p.instructions m ≡ step (with_ancillary input provider) p.instructions m
  unfolding step
  step-with_ancillary m = by_instruction (get_elem? p.instructions m.pc) refl
    where
      by_operation :
          (i : Instruction) (op : Option Opcode)
          → get_elem? p.instructions m.pc ≡ some i
          → decode i.code ≡ op
          → elim op [ none ↦ fault | some o ↦ execute input i o m ]
            ≡ elim op [ none ↦ fault | some o ↦ execute (with_ancillary input provider) i o m ]
      by_operation i none found e = refl
      by_operation i (some op) found e =
          execute-with_ancillary i op m
            (λ w same. uses_ancillary-false p unused m.pc i w found (e ∙ ap some same))

      by_instruction :
          (o : Option Instruction)
          → get_elem? p.instructions m.pc ≡ o
          → elim o [
            | none ↦ fault
            | some i ↦ elim (decode i.code) [ none ↦ fault | some op ↦ execute input i op m ]
          ]
            ≡ elim o [
              | none ↦ fault
              | some i ↦ elim (decode i.code) [
                | none ↦ fault
                | some op ↦ execute (with_ancillary input provider) i op m
              ]
            ]
      by_instruction none found = refl
      by_instruction (some i) found = by_operation i (decode i.code) found refl

  run-with_ancillary :
      (left steps : ℕ) (m : Machine)
      → run input p.instructions left steps m
        ≡ run (with_ancillary input provider) p.instructions left steps m
  unfolding run
  run-with_ancillary zero steps m = refl
  run-with_ancillary (suc left) steps m =
      rw (← step-with_ancillary m, run)
        (by_flow (step input p.instructions m) (λ m'. run-with_ancillary left (suc steps) m'))
    where
      by_flow :
          (f : Flow)
          → ((m' : Machine)
              → run input p.instructions left (suc steps) m'
                ≡ run (with_ancillary input provider) p.instructions left (suc steps) m')
          → elim f [
            | go m' ↦ run input p.instructions left (suc steps) m'
            | done value ↦ Evaluation.returned value (suc steps)
            | fault ↦ Evaluation.panicked
          ]
            ≡ elim f [
              | go m' ↦ run (with_ancillary input provider) p.instructions left (suc steps) m'
              | done value ↦ Evaluation.returned value (suc steps)
              | fault ↦ Evaluation.panicked
            ]
      by_flow (go m') h = h m'
      by_flow (done v) h = refl
      by_flow fault h = refl

-- A program that `uses_ancillary` denies does the same with every provider of metadata.
pub evaluate_counted-with_ancillary :
    (program : Program) (input : Input) (provider : Ancillary → Option ℕ)
    → uses_ancillary program ≡ false
    → evaluate_counted program (with_ancillary input provider) ≡ evaluate_counted program input
unfolding evaluate_counted
evaluate_counted-with_ancillary program input provider unused =
    sym (run-with_ancillary input provider program unused (length program.instructions) 0 start)
