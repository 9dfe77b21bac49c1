-- ===== src/Cbpf/Program.antt =====
-- crates/thekernel-axcbpf/src/program.rs: `Program` and its errors.
use thekernel_ax.Prelude.{
  ℕ, zero, suc, ◌≡◌, arith, Bool, true, false, not, ◌&&◌, ◌||◌, Option, none, some, List, [], ◌∷◌,
  get_elem?,
}
use thekernel_ax.Cbpf.Opcode.{LoadWidth, Opcode, ld_abs, decode}
use thekernel_ax.Cbpf.Ancillary.{ancillary_from_offset}

abbrev pub max_instructions : ℕ
max_instructions = 4096

abbrev pub scratch_words : ℕ
scratch_words = 16

pub record Instruction : Type 0 where
  pub code : ℕ
  pub jt : ℕ
  pub jf : ℕ
  pub k : ℕ

pub data VerifyError : Type 0 where
  empty : VerifyError
  too_long : (length : ℕ) → VerifyError
  no_memory : VerifyError
  unsupported_opcode : (pc code : ℕ) → VerifyError
  unsupported_ancillary_load : (pc offset : ℕ) → VerifyError
  immediate_division_by_zero : (pc : ℕ) → VerifyError
  immediate_shift_out_of_range : (pc shift : ℕ) → VerifyError
  scratch_out_of_range : (pc index : ℕ) → VerifyError
  scratch_uninitialized : (pc index : ℕ) → VerifyError
  jump_out_of_range : (pc : ℕ) → VerifyError
  missing_final_return : VerifyError

abbrev pub is_none {ℓ} : {A : Type ℓ} → Option A → Bool
is_none none = true
is_none (some _) = false

pub record Program : Type 0 where
  pub instructions : List Instruction

abbrev pub is_absolute : Option Opcode → Bool
is_absolute (some (ld_abs _)) = true
is_absolute _ = false

unfoldable pub any {ℓ} : {A : Type ℓ} → (A → Bool) → List A → Bool
any test [] = false
any test (x ∷ xs) = test x || any test xs

-- `Program::uses_ancillary`
unfoldable pub uses_ancillary : Program → Bool
unfolding any
uses_ancillary p =
    any (λ i. is_absolute (decode i.code) && not (is_none (ancillary_from_offset i.k)))
      p.instructions

-- A program that uses no ancillary value has no absolute load of one.
pub uses_ancillary-false :
    (p : Program)
    → uses_ancillary p ≡ false
    → (pc : ℕ) (i : Instruction) (width : LoadWidth) → get_elem? p.instructions pc ≡ some i
    → decode i.code ≡ some (ld_abs width)
    → ancillary_from_offset i.k ≡ none
unfolding uses_ancillary
uses_ancillary-false p h pc i width found known = each p.instructions pc h found
  where
    each :
        (is : List Instruction) (j : ℕ)
        → any (λ i. is_absolute (decode i.code) && not (is_none (ancillary_from_offset i.k))) is
          ≡ false
        → get_elem? is j ≡ some i
        → ancillary_from_offset i.k ≡ none
    each [] j a g = cc
    each (x ∷ is) zero a g = ground arith
    each (x ∷ is) (suc j) a g = each is j (ground arith) g
