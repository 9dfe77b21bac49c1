-- ===== src/Cbpf/Eval/Scratch.antt =====
-- `Program::evaluate` of crates/thekernel-axcbpf/src/program.rs, and the scratch memory that it
-- starts with.
use thekernel_ax.Prelude.{
  ℕ, zero, suc, ◌+◌, ◌-◌, ◌≤◌, ◌≡◌, refl, ap, subst, sym, ◌∙◌, inl, inr, Bool, none, some, List, [],
  ◌∷◌, arith, Option-cases, length, get_elem?,
}
use native.Mathlib.Decide.{ℕ_discrete}
use thekernel_ax.Prelude.Bits.{bit-zero}
use thekernel_ax.Prelude.Result.{ok, >>=-eq-ok}
use thekernel_ax.Cbpf.Opcode.{Opcode, jmp_ja, jmp, ret_k, ret_a, decode}
use thekernel_ax.Cbpf.Input.{Input}
use thekernel_ax.Cbpf.Program.{Instruction, Program, scratch_words}
use thekernel_ax.Cbpf.Verify.{
  Slots, analyse_instruction, analyse, initial_slots, verify_scratch-eq-ok, verify, verify-eq-ok,
}
use thekernel_ax.Cbpf.Verify.Flow.{
  Covers, Successor, propagate-Covers, analyse_instruction-eq-ok, analyse_instruction-keeps,
}
use thekernel_ax.Cbpf.Eval.{
  Machine, Flow, go, done, fault, execute, step, Evaluation, evaluate_counted, run, start,
}
use thekernel_ax.Cbpf.Eval.Total.{step-eq-execute}
use thekernel_ax.Cbpf.Eval.Lockstep.{
  Agree, with_scratch, Lockstep, execute-Lockstep, execute-Successor,
}

zero-add_sym : (j : ℕ) → j ≡ 0 + j
zero-add_sym j = omega arith

shift : (pc j : ℕ) → pc + suc j ≡ pc + 1 + j
shift pc j = omega arith

-- A run does the same from `m` with another memory.
abbrev Unobserved : Input → List Instruction → Machine → List ℕ → Type 0
Unobserved input p m ys =
    (left steps : ℕ) → run input p left steps m ≡ run input p left steps (with_scratch m ys)

-- Where the round faults from both memories, so does the run.
fault-Unobserved :
    (input : Input) (p : List Instruction) (m : Machine) (ys : List ℕ)
    → step input p m ≡ fault
    → step input p (with_scratch m ys) ≡ fault
    → Unobserved input p m ys
unfolding run
fault-Unobserved input p m ys e f zero steps = refl
fault-Unobserved input p m ys e f (suc left) steps = rw (e, f, run)

-- One round, then the rest of the run.
Lockstep-Unobserved :
    (input : Input) (p : List Instruction) (m : Machine) (ys : List ℕ) (mask : ℕ) (f g : Flow)
    → step input p m ≡ f
    → step input p (with_scratch m ys) ≡ g
    → Lockstep mask f g
    → ((m' : Machine) (zs : List ℕ)
        → step input p m ≡ go m'
        → length m'.scratch ≡ length zs
        → Agree mask m'.scratch zs
        → Unobserved input p m' zs)
    → Unobserved input p m ys
unfolding run
Lockstep-Unobserved input p m ys mask f g e e' h rest zero steps = refl
Lockstep-Unobserved input p m ys mask (go m') (go n') e e' h rest (suc left) steps =
    rw (e, e', run)
      (rest m' n'.scratch e h.1 h.2 left (suc steps) ∙ ap (run input p left (suc steps)) (sym h.0))
Lockstep-Unobserved input p m ys mask (done v) (done w) e e' h rest (suc left) steps =
    rw (e, e', run) (ap (λ (t : ℕ). Evaluation.returned t (suc steps)) h)
Lockstep-Unobserved input p m ys mask fault fault e e' h rest (suc left) steps = rw (e, e', run)
Lockstep-Unobserved input p m ys mask (go _) (done _) e e' h rest (suc left) steps = absurd h
Lockstep-Unobserved input p m ys mask (go _) fault e e' h rest (suc left) steps = absurd h
Lockstep-Unobserved input p m ys mask (done _) (go _) e e' h rest (suc left) steps = absurd h
Lockstep-Unobserved input p m ys mask (done _) fault e e' h rest (suc left) steps = absurd h
Lockstep-Unobserved input p m ys mask fault (go _) e e' h rest (suc left) steps = absurd h
Lockstep-Unobserved input p m ys mask fault (done _) e e' h rest (suc left) steps = absurd h

-- The entry of the next instruction claims only words on which the two memories agree.
abbrev Claims : Slots → Machine → List ℕ → Type 0
Claims incoming m ys =
    (mask : ℕ) × (get_elem? incoming m.pc ≡ some (some mask))
    × Agree mask m.scratch ys
    × (length m.scratch ≡ length ys)

Covers-Claims :
    (incoming : Slots) (m : Machine) (ys : List ℕ) (claim : ℕ)
    → Covers incoming m.pc claim
    → Agree claim m.scratch ys
    → length m.scratch ≡ length ys
    → Claims incoming m ys
Covers-Claims incoming m ys claim (mask, entry, below) agree l =
    (mask, entry, (λ k b. agree k (below k b)), l)

Successor-lt :
    (pc : ℕ) (i : Instruction) (op : Opcode) (t : ℕ) → Successor pc i (some op) t → pc + 1 ≤ t
Successor-lt pc i ret_k t s = absurd s
Successor-lt pc i ret_a t s = absurd s
Successor-lt pc i jmp_ja t s = omega arith
Successor-lt pc i (jmp _ _) t s = omega arith
Successor-lt pc i _ t s = omega arith

-- The instruction that the analysis is at, given what it finds for those behind it.
analysed-Unobserved :
    (input : Input) (p : List Instruction) (i : Instruction) (incoming merged : Slots) (m : Machine)
    (ys : List ℕ)
    → get_elem? p m.pc ≡ some i
    → analyse_instruction m.pc i incoming ≡ ok merged
    → Claims incoming m ys
    → ((m' : Machine) (zs : List ℕ)
        → m.pc + 1 ≤ m'.pc
        → Claims merged m' zs
        → Unobserved input p m' zs)
    → Unobserved input p m ys
unfolding step
analysed-Unobserved input p i incoming merged m ys found e (mask, entry, agree, l) rest =
    let (initialized, tracked, flowed) =
      analyse_instruction-eq-ok m.pc i incoming merged mask entry e in
    elim (Option-cases (decode i.code)) [
      | inl unknown ↦
          fault-Unobserved input p m ys (rw (found, unknown, step)) (rw (found, unknown, step))
      | inr (op, known) ↦
          Lockstep-Unobserved input p m ys initialized (execute input i op m)
            (execute input i op (with_scratch m ys)) (step-eq-execute input p m i op found known)
            (step-eq-execute input p (with_scratch m ys) i op found known)
            (execute-Lockstep input i m ys l op mask initialized (rw known at tracked) agree)
            (λ m' zs stepped l' agree'.
              let next =
                execute-Successor input i op m m'
                  (sym (step-eq-execute input p m i op found known) ∙ stepped) in
              rest m' zs (Successor-lt m.pc i op m'.pc next) (
                Covers-Claims merged m' zs initialized
                  (propagate-Covers m.pc i initialized incoming merged (some op)
                    (rw known at flowed) m'.pc next)
                  agree' l'))
    ]

-- The rest of the analysis covers every run that starts at an instruction still to come.
analyse-Unobserved :
    (input : Input) (p rest : List Instruction) (pc : ℕ) (incoming after : Slots)
    → ((j : ℕ) → get_elem? rest j ≡ get_elem? p (pc + j))
    → analyse pc rest incoming ≡ ok after
    → (m : Machine) (ys : List ℕ) → pc ≤ m.pc
    → Claims incoming m ys
    → Unobserved input p m ys
unfolding analyse step
analyse-Unobserved input p [] pc incoming after tail e m ys le claims =
    let place : pc + (m.pc - pc) ≡ m.pc = omega arith in
    let outside : get_elem? p m.pc ≡ none = sym (rw place at (tail (m.pc - pc))) in
    fault-Unobserved input p m ys (rw (outside, step)) (rw (outside, step))
analyse-Unobserved input p (i ∷ rest) pc incoming after tail e m ys le (mask, entry, agree, l) =
    let (merged, here, later) =
      >>=-eq-ok (analyse_instruction pc i incoming) (analyse (pc + 1) rest) e in
    let shifted = λ (j : ℕ). tail (suc j) ∙ ap (get_elem? p) (shift pc j) in
    let behind = analyse-Unobserved input p rest (pc + 1) merged after shifted later in
    elim (ℕ_discrete pc m.pc) [
      | yes same ↦
          analysed-Unobserved input p i incoming merged m ys
            (let place : pc + 0 ≡ m.pc = omega arith in sym (rw place at (tail 0)))
            (subst (λ (t : ℕ). analyse_instruction t i incoming ≡ ok merged) same here)
            (mask, entry, agree, l) (λ m' zs lt. behind m' zs (omega arith))
      | no ne ↦ behind m ys (omega arith) (
          Covers-Claims merged m ys mask
            (analyse_instruction-keeps pc i incoming merged here m.pc mask (mask, entry, λ k b. b))
            agree l)
    ]

-- The interpreter started with another scratch memory.
pub evaluate_with : List ℕ → Program → Input → Evaluation
evaluate_with scratch p input =
    run input p.instructions (length p.instructions) 0 (with_scratch start scratch)

-- A verified program returns the same value after the same number of steps whatever the sixteen
-- scratch words hold at the start.
pub evaluate_counted-uninitialized :
    (reserved copied : Bool) (is : List Instruction) (program : Program)
    → verify reserved copied is ≡ ok program
    → (input : Input) (scratch : List ℕ) → length scratch ≡ scratch_words
    → evaluate_with scratch program input ≡ evaluate_counted program input
unfolding evaluate_with evaluate_counted
evaluate_counted-uninitialized reserved copied is program verified input scratch size =
    let (same, _, passed) = verify-eq-ok reserved copied is program verified in
    let (after, entry, analysed) = verify_scratch-eq-ok reserved is passed in
    let from_zero = λ (j : ℕ). ap (get_elem? is) (zero-add_sym j) in
    let unclaimed : Agree 0 start.scratch scratch = λ k b. absurd (omega (arith, bit-zero k)) in
    let unseen =
      analyse-Unobserved input is is 0 (initial_slots is) after from_zero analysed start scratch
        (omega arith) (0, entry, unclaimed, sym size) (length is) 0 in
    rw same (sym unseen)
