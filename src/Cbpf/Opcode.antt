-- ===== src/Cbpf/Opcode.antt =====
-- crates/thekernel-axcbpf/src/instruction.rs, and `is_supported` of program.rs: the raw opcode
-- values and the symbolic operations that they stand for.
use thekernel_ax.Prelude.{ℕ, ◌≡◌, refl, Option, none, some, List, [], ◌∷◌, ◌==◌, if◌then◌else◌}

-- Width requested from a classic-BPF input.
pub data LoadWidth : Type 0 where
  byte half word : LoadWidth

-- The `_K` and `_X` forms of an operation.
pub data Operand : Type 0 where
  by_k by_x : Operand

pub data AluOp : Type 0 where
  alu_add alu_sub alu_mul alu_div alu_or alu_and alu_lsh alu_rsh alu_mod alu_xor : AluOp

pub data Cond : Type 0 where
  jeq jgt jge jset : Cond

-- The supported operations; the widths, operations and operands of a family are its arguments.
pub data Opcode : Type 0 where
  ld_imm : Opcode
  ld_abs : LoadWidth → Opcode
  ld_ind : LoadWidth → Opcode
  ld_mem ld_len ldx_imm ldx_mem ldx_len ldx_b_msh st stx : Opcode
  alu : AluOp → Operand → Opcode
  alu_neg jmp_ja : Opcode
  jmp : Cond → Operand → Opcode
  ret_k ret_a misc_tax misc_txa : Opcode

encode_alu : AluOp → Operand → ℕ
encode_alu alu_add by_k = 0x04
encode_alu alu_add by_x = 0x0c
encode_alu alu_sub by_k = 0x14
encode_alu alu_sub by_x = 0x1c
encode_alu alu_mul by_k = 0x24
encode_alu alu_mul by_x = 0x2c
encode_alu alu_div by_k = 0x34
encode_alu alu_div by_x = 0x3c
encode_alu alu_or by_k = 0x44
encode_alu alu_or by_x = 0x4c
encode_alu alu_and by_k = 0x54
encode_alu alu_and by_x = 0x5c
encode_alu alu_lsh by_k = 0x64
encode_alu alu_lsh by_x = 0x6c
encode_alu alu_rsh by_k = 0x74
encode_alu alu_rsh by_x = 0x7c
encode_alu alu_mod by_k = 0x94
encode_alu alu_mod by_x = 0x9c
encode_alu alu_xor by_k = 0xa4
encode_alu alu_xor by_x = 0xac

encode_jmp : Cond → Operand → ℕ
encode_jmp jeq by_k = 0x15
encode_jmp jeq by_x = 0x1d
encode_jmp jgt by_k = 0x25
encode_jmp jgt by_x = 0x2d
encode_jmp jge by_k = 0x35
encode_jmp jge by_x = 0x3d
encode_jmp jset by_k = 0x45
encode_jmp jset by_x = 0x4d

-- The raw value of each constant of the module `opcode`.
unfoldable pub encode : Opcode → ℕ
unfolding encode_alu encode_jmp
encode ld_imm = 0x00
encode (ld_abs word) = 0x20
encode (ld_abs half) = 0x28
encode (ld_abs byte) = 0x30
encode (ld_ind word) = 0x40
encode (ld_ind half) = 0x48
encode (ld_ind byte) = 0x50
encode ld_mem = 0x60
encode ld_len = 0x80
encode ldx_imm = 0x01
encode ldx_mem = 0x61
encode ldx_len = 0x81
encode ldx_b_msh = 0xb1
encode st = 0x02
encode stx = 0x03
encode (alu op operand) = encode_alu op operand
encode alu_neg = 0x84
encode jmp_ja = 0x05
encode (jmp cond operand) = encode_jmp cond operand
encode ret_k = 0x06
encode ret_a = 0x16
encode misc_tax = 0x07
encode misc_txa = 0x87

-- The list that `is_supported` matches against, in its order.
unfoldable pub supported : List Opcode
supported =
    ld_imm
    ∷ ld_abs word
    ∷ ld_abs half
    ∷ ld_abs byte
    ∷ ld_ind word
    ∷ ld_ind half
    ∷ ld_ind byte
    ∷ ld_mem
    ∷ ld_len
    ∷ ldx_imm
    ∷ ldx_mem
    ∷ ldx_len
    ∷ ldx_b_msh
    ∷ st
    ∷ stx
    ∷ alu alu_add by_k
    ∷ alu alu_add by_x
    ∷ alu alu_sub by_k
    ∷ alu alu_sub by_x
    ∷ alu alu_mul by_k
    ∷ alu alu_mul by_x
    ∷ alu alu_div by_k
    ∷ alu alu_div by_x
    ∷ alu alu_or by_k
    ∷ alu alu_or by_x
    ∷ alu alu_and by_k
    ∷ alu alu_and by_x
    ∷ alu alu_lsh by_k
    ∷ alu alu_lsh by_x
    ∷ alu alu_rsh by_k
    ∷ alu alu_rsh by_x
    ∷ alu_neg
    ∷ alu alu_mod by_k
    ∷ alu alu_mod by_x
    ∷ alu alu_xor by_k
    ∷ alu alu_xor by_x
    ∷ jmp_ja
    ∷ jmp jeq by_k
    ∷ jmp jeq by_x
    ∷ jmp jgt by_k
    ∷ jmp jgt by_x
    ∷ jmp jge by_k
    ∷ jmp jge by_x
    ∷ jmp jset by_k
    ∷ jmp jset by_x
    ∷ ret_k
    ∷ ret_a
    ∷ misc_tax
    ∷ misc_txa
    ∷ []

unfoldable pub find_code : ℕ → List Opcode → Option Opcode
find_code code [] = none
find_code code (op ∷ ops) = if code == encode op then some op else find_code code ops

-- The operation that a `match` on the raw code selects; `none` is the arm of an unsupported one.
unfoldable pub decode : ℕ → Option Opcode
unfolding find_code encode supported
decode code = find_code code supported

-- Every operation is found under its own raw code, so no two of them share one.
pub decode-encode : (op : Opcode) → decode (encode op) ≡ some op
unfolding decode
decode-encode ld_imm = refl
decode-encode (ld_abs byte) = refl
decode-encode (ld_abs half) = refl
decode-encode (ld_abs word) = refl
decode-encode (ld_ind byte) = refl
decode-encode (ld_ind half) = refl
decode-encode (ld_ind word) = refl
decode-encode (alu op operand) = at_alu op operand
  where
    at_alu :
        (op : AluOp) (operand : Operand) → decode (encode (alu op operand)) ≡ some (alu op operand)
    at_alu alu_add by_k = refl
    at_alu alu_add by_x = refl
    at_alu _ by_k = refl
    at_alu _ by_x = refl
decode-encode (jmp jeq by_k) = refl
decode-encode (jmp jeq by_x) = refl
decode-encode (jmp _ by_k) = refl
decode-encode (jmp _ by_x) = refl
decode-encode _ = refl
