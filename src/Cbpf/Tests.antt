-- ===== src/Cbpf/Tests.antt =====
-- Runs of crates/thekernel-axcbpf on one program, and applications of the theorems to it.
use thekernel_ax.Prelude.{
  ℕ, zero, suc, ◌+◌, ◌<◌, ◌≤◌, ◌≡◌, ◌≢◌, ◌↔◌, refl, arith, true, false, none, some, List, [], ◌∷◌,
  length, leb, if◌then◌else◌, take, drop,
}
use thekernel_ax.Prelude.Result.{ok, err, panic}
use thekernel_ax.Cbpf.Opcode.{half, jgt, by_x, jmp, encode, decode, decode-encode}
use thekernel_ax.Cbpf.Ancillary.{
  queue, ancillary_from_offset, encoded_offset, is_ancillary_offset,
  ancillary_from_offset-encoded_offset,
}
use thekernel_ax.Cbpf.Input.{Input, byte_input, load_bytes, bytes}
use thekernel_ax.Cbpf.Input.Load.{big_endian, load_bytes-eq-big_endian}
use thekernel_ax.Cbpf.Program.{Instruction, Program, uses_ancillary, scratch_uninitialized}
use thekernel_ax.Cbpf.Verify.{
  check_instructions, check_instruction, check_operation, ends_in_return, analyse,
  analyse_instruction, verify, verify_structure,
}
use thekernel_ax.Cbpf.Verify.Structure.{ImmediatesFit, IsWellFormed, verify_structure_iff}
use thekernel_ax.Cbpf.Verify.Panics.{verify-ne-panic}
use thekernel_ax.Cbpf.Eval.{returned, evaluate_counted}
use thekernel_ax.Cbpf.Eval.Total.{evaluate_counted-returned}
use thekernel_ax.Cbpf.Eval.Ancillary.{with_ancillary, evaluate_counted-with_ancillary}
use thekernel_ax.Cbpf.Eval.Scratch.{evaluate_with, evaluate_counted-uninitialized}

abbrev instruction : ℕ → ℕ → ℕ → ℕ → Instruction
instruction code jt jf k = record { code = code; jt = jt; jf = jf; k = k }

-- Store the first half word of the input, load it again, and compare it with 0x0800.
abbrev sample : List Instruction
sample =
    instruction 0x28 0 0 0
    ∷ instruction 0x02 0 0 3
    ∷ instruction 0x60 0 0 3
    ∷ instruction 0x15 0 1 0x0800
    ∷ instruction 0x06 0 0 1
    ∷ instruction 0x16 0 0 0
    ∷ []

abbrev program : Program
program = record { instructions = sample }

abbrev packet : List ℕ
packet = 0x08 ∷ 0x06 ∷ 0x45 ∷ []

-- A load of a slot that nothing stored.
abbrev unready : List Instruction
unready = instruction 0x60 0 0 3 ∷ instruction 0x06 0 0 1 ∷ []

sample-verify : verify true true sample ≡ ok program
unfolding verify check_instructions check_instruction decode check_operation ends_in_return analyse
    analyse_instruction
sample-verify = refl

unready-verify : verify true true unready ≡ err (scratch_uninitialized 0 3)
unfolding verify check_instructions check_instruction decode check_operation ends_in_return analyse
    analyse_instruction
unready-verify = refl

sample-evaluate : evaluate_counted program (byte_input packet) ≡ returned 0x0806 5
unfolding evaluate_counted byte_input load_bytes decode ancillary_from_offset
sample-evaluate = refl

sample-ImmediatesFit : ImmediatesFit sample
sample-ImmediatesFit zero i h = ground arith
sample-ImmediatesFit (suc zero) i h = ground arith
sample-ImmediatesFit (suc (suc zero)) i h = ground arith
sample-ImmediatesFit (suc (suc (suc zero))) i h = ground arith
sample-ImmediatesFit (suc (suc (suc (suc zero)))) i h = ground arith
sample-ImmediatesFit (suc (suc (suc (suc (suc zero))))) i h = ground arith
sample-ImmediatesFit (suc (suc (suc (suc (suc (suc pc)))))) i h = cc

abbrev constant : Input
constant = record { len = 3; load = λ offset width. some 7; ancillary = λ field. none }

evaluate_counted-returned_example :
    (value taken : ℕ) × (evaluate_counted program (byte_input packet) ≡ returned value taken)
    × (0 < taken)
    × (taken ≤ length sample)
evaluate_counted-returned_example =
    evaluate_counted-returned true true sample program sample-ImmediatesFit sample-verify
      (byte_input packet)

evaluate_counted-uninitialized_example :
    evaluate_with
      (9 ∷ 9 ∷ 9 ∷ 9 ∷ 9 ∷ 9 ∷ 9 ∷ 9 ∷ 9 ∷ 9 ∷ 9 ∷ 9 ∷ 9 ∷ 9 ∷ 9 ∷ 9 ∷ [])
      program
      (byte_input packet)
    ≡ evaluate_counted program (byte_input packet)
evaluate_counted-uninitialized_example =
    evaluate_counted-uninitialized true true sample program sample-verify (byte_input packet)
      (9 ∷ 9 ∷ 9 ∷ 9 ∷ 9 ∷ 9 ∷ 9 ∷ 9 ∷ 9 ∷ 9 ∷ 9 ∷ 9 ∷ 9 ∷ 9 ∷ 9 ∷ 9 ∷ []) refl

verify_structure_iff_example : (verify_structure sample ≡ ok tt) ↔ IsWellFormed sample
verify_structure_iff_example = verify_structure_iff sample sample-ImmediatesFit

verify-ne-panic_example : verify true true sample ≢ panic
verify-ne-panic_example = verify-ne-panic true true sample sample-ImmediatesFit

sample-evaluate_constant : evaluate_counted program constant ≡ returned 7 5
unfolding evaluate_counted decode ancillary_from_offset
sample-evaluate_constant = refl

sample-uses_ancillary : uses_ancillary program ≡ false
unfolding uses_ancillary decode ancillary_from_offset
sample-uses_ancillary = refl

evaluate_counted-with_ancillary_example :
    evaluate_counted program (with_ancillary (byte_input packet) (λ field. some 5))
    ≡ evaluate_counted program (byte_input packet)
evaluate_counted-with_ancillary_example =
    evaluate_counted-with_ancillary program (byte_input packet) (λ field. some 5)
      sample-uses_ancillary

load_bytes-eq-big_endian_example : load_bytes packet 1 half ≡ (
    if leb (1 + bytes half) (length packet)
    then some (big_endian (take (bytes half) (drop 1 packet)))
    else none)
load_bytes-eq-big_endian_example = load_bytes-eq-big_endian packet 1 half (omega arith)

decode-encode_example : decode (encode (jmp jgt by_x)) ≡ some (jmp jgt by_x)
decode-encode_example = decode-encode (jmp jgt by_x)

decode_0x2d : decode 0x2d ≡ some (jmp jgt by_x)
unfolding decode
decode_0x2d = refl

ancillary_from_offset-encoded_offset_example :
    (ancillary_from_offset (encoded_offset queue) ≡ some queue)
    × (is_ancillary_offset (encoded_offset queue) ≡ true)
ancillary_from_offset-encoded_offset_example = ancillary_from_offset-encoded_offset queue

queue_found : ancillary_from_offset 0xffff_f018 ≡ some queue
unfolding ancillary_from_offset
queue_found = refl
