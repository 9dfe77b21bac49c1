-- ===== src/Cbpf/Verify/Structure.antt =====
-- What `verify_structure` of crates/thekernel-axcbpf/src/program.rs accepts, stated without it.
use thekernel_ax.Prelude.{
  ℕ, ◌⊎◌, inl, inr, zero, suc, ◌+◌, ◌-◌, ◌^◌, ◌≤◌, ◌<◌, ◌≡◌, refl, ◌↔◌, sym, subst, ◌∙◌, true,
  false, some, List, [], ◌∷◌, arith, ltb, Option-cases, length, lt-length_of_get, get_elem?,
}
use mathlib.Core.Option.{some-injective}
use thekernel_ax.Prelude.Result.{ok, >>=-eq-ok}
use native.Mathlib.Decide.{dec_lt}
use thekernel_ax.Cbpf.Opcode.{Opcode, decode}
use thekernel_ax.Cbpf.Program.{Instruction, max_instructions, missing_final_return}
use thekernel_ax.Cbpf.Verify.{
  check_instruction, check_instructions, last?, is_return, ends_in_return, verify_structure,
  require,
}
use thekernel_ax.Cbpf.Verify.Operand.{IsOperand, check_operation-IsOperand, IsOperand-check}

-- The loop accepts exactly when each round does.
check_instructions-get :
    (len pc : ℕ) (is : List Instruction)
    → check_instructions len pc is ≡ ok tt
    → (j : ℕ) (i : Instruction) → get_elem? is j ≡ some i
    → check_instruction len (pc + j) i ≡ ok tt
unfolding check_instructions
check_instructions-get len pc [] e j i g = cc
check_instructions-get len pc (x ∷ is) e zero i g =
    let (_, here, _) = >>=-eq-ok (check_instruction len pc x) _ e in
    let same : pc + 0 ≡ pc = omega arith in
    rw same
      (subst (λ (y : Instruction). check_instruction len pc y ≡ ok tt) (some-injective x i g) here)
check_instructions-get len pc (x ∷ is) e (suc j) i g =
    let (_, _, later) = >>=-eq-ok (check_instruction len pc x) _ e in
    let shifted : pc + suc j ≡ pc + 1 + j = omega arith in
    rw shifted (check_instructions-get len (pc + 1) is later j i g)

check_instructions_of_get :
    (len pc : ℕ) (is : List Instruction)
    → ((j : ℕ) (i : Instruction)
        → get_elem? is j ≡ some i
        → check_instruction len (pc + j) i ≡ ok tt)
    → check_instructions len pc is ≡ ok tt
unfolding check_instructions
check_instructions_of_get len pc [] each = refl
check_instructions_of_get len pc (x ∷ is) each =
    let same : pc + 0 ≡ pc = omega arith in
    let here : check_instruction len pc x ≡ ok tt = rw same at (each 0 x refl) in
    rw here (
      check_instructions_of_get len (pc + 1) is (λ j i g.
        let shifted : pc + 1 + j ≡ pc + suc j = omega arith in rw shifted (each (suc j) i g)))

last?-get : (is : List Instruction) → last? is ≡ get_elem? is (length is - 1)
last?-get [] = refl
last?-get (x ∷ []) = refl
last?-get (x ∷ y ∷ is) = ground (arith, last?-get (y ∷ is))

-- What makes a program one that the interpreter runs.
pub record IsWellFormed (p : List Instruction) : Type 0 where
  pub nonempty : 0 < length p
  pub few : length p ≤ max_instructions
  pub each :
      (pc : ℕ) (i : Instruction)
      → get_elem? p pc ≡ some i
      → (op : Opcode) × (decode i.code ≡ some op) × IsOperand (length p) pc i op
  pub final :
      (i : Instruction) × (op : Opcode) × (get_elem? p (length p - 1) ≡ some i)
      × (decode i.code ≡ some op)
      × (is_return op ≡ true)

-- The immediate of every instruction is a `u32`.
abbrev pub ImmediatesFit : List Instruction → Type 0
ImmediatesFit p = (pc : ℕ) (i : Instruction) → get_elem? p pc ≡ some i → i.k < 2 ^ 32

check_instruction-IsOperand :
    (len pc : ℕ) (i : Instruction)
    → i.k < 2 ^ 32
    → check_instruction len pc i ≡ ok tt
    → (op : Opcode) × (decode i.code ≡ some op) × IsOperand len pc i op
unfolding check_instruction
check_instruction-IsOperand len pc i h e = elim (Option-cases (decode i.code)) [
  | inl unknown ↦ absurd (ground arith)
  | inr (op, known) ↦ (op, known, check_operation-IsOperand len pc i op h (ground arith))
]

ends_in_return-final :
    (p : List Instruction)
    → ends_in_return p ≡ true
    → (i : Instruction) × (op : Opcode) × (get_elem? p (length p - 1) ≡ some i)
      × (decode i.code ≡ some op)
      × (is_return op ≡ true)
unfolding ends_in_return
ends_in_return-final p e = elim (Option-cases (last? p)) [
  | inl none_left ↦ absurd (ground arith)
  | inr (i, found) ↦ elim (Option-cases (decode i.code)) [
    | inl unknown ↦ absurd (ground arith)
    | inr (op, known) ↦ (i, op, sym (last?-get p) ∙ found, known, ground arith)
  ]
]

IsOperand-check_instruction :
    (len pc : ℕ) (i : Instruction)
    → pc ≤ max_instructions
    → i.k < 2 ^ 32
    → (op : Opcode) × (decode i.code ≡ some op) × IsOperand len pc i op
    → check_instruction len pc i ≡ ok tt
unfolding check_instruction
IsOperand-check_instruction len pc i b h (op, known, operand) =
    rw (known, check_instruction) (IsOperand-check len pc i op b h operand)

verify_structure-IsWellFormed :
    (p : List Instruction) → ImmediatesFit p → verify_structure p ≡ ok tt → IsWellFormed p
unfolding verify_structure
verify_structure-IsWellFormed [] fit e = cc
verify_structure-IsWellFormed (i ∷ rest) fit e =
    let program = i ∷ rest in
    let short : ltb max_instructions (length program) ≡ false = ground arith in
    let (_, checked, returns) =
      >>=-eq-ok (check_instructions (length program) 0 program)
        (λ _. require (ends_in_return program) missing_final_return) (ground arith) in
    record {
      nonempty = omega arith;
      few = ground arith;
      each = λ pc j g.
          let from_zero : 0 + pc ≡ pc = omega arith in
          check_instruction-IsOperand (length program) pc j (fit pc j g)
            (rw from_zero at (check_instructions-get (length program) 0 program checked pc j g));
      final = ends_in_return-final program (ground arith);
    }

IsWellFormed-verify_structure :
    (p : List Instruction) → ImmediatesFit p → IsWellFormed p → verify_structure p ≡ ok tt
unfolding verify_structure ends_in_return
IsWellFormed-verify_structure [] fit w = absurd (omega (arith, w.nonempty))
IsWellFormed-verify_structure (i ∷ rest) fit w =
    let program = i ∷ rest in
    let (last, op, at_end, known, returns) = w.final in
    let checked : check_instructions (length program) 0 program ≡ ok tt =
      check_instructions_of_get (length program) 0 program (λ pc j g.
        let from_zero : 0 + pc ≡ pc = omega arith in
        rw from_zero (
          IsOperand-check_instruction (length program) pc j
            (omega (arith, lt-length_of_get program pc j g, w.few)) (fit pc j g)
            (w.each pc j g))) in
    let found : last? program ≡ some last = last?-get program ∙ at_end in ground (arith, w.few)

-- For instructions whose immediates are `u32`, `verify_structure` accepts exactly the well-formed
-- programs: from 1 to 4096 supported instructions, each with a divisor that is not zero, a shift
-- below 32, a scratch index below 16, jump targets inside the program and a load offset that is
-- either not negative or a supported ancillary one, and a return at the end.
pub verify_structure_iff :
    (p : List Instruction) → ImmediatesFit p → (verify_structure p ≡ ok tt) ↔ IsWellFormed p
verify_structure_iff p fit =
    (verify_structure-IsWellFormed p fit, IsWellFormed-verify_structure p fit)

-- Only a return can stand at the end of a well-formed program.
pub returns_or_room :
    (p : List Instruction)
    → IsWellFormed p
    → (pc : ℕ) (i : Instruction) (op : Opcode) → get_elem? p pc ≡ some i
    → decode i.code ≡ some op
    → (is_return op ≡ true) ⊎ (pc + 1 < length p)
returns_or_room p w pc i op found known = elim (dec_lt (pc + 1) (length p)) [
  | yes room ↦ inr room
  | no full ↦
      let (last, final_op, at_end, final_known, returns) = w.final in
      let here : pc ≡ length p - 1 = omega (arith, lt-length_of_get p pc i found) in
      let same : i ≡ last =
        some-injective i last
          (sym found ∙ subst (λ (t : ℕ). get_elem? p t ≡ some last) (sym here) at_end) in
      inl (ground arith)
]
