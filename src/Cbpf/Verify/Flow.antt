-- ===== src/Cbpf/Verify/Flow.antt =====
-- The scratch analysis of crates/thekernel-axcbpf/src/program.rs: what an entry of `incoming` says
-- once it is written, and which instructions follow which.
use thekernel_ax.Prelude.{
  ℕ, ◌+◌, ◌≡◌, refl, ap, subst, sym, ◌∙◌, ◌⊎◌, inl, inr, Option, none, some, arith, Option-cases,
  get_elem?, set, get_elem?-set_self, get_elem?-set_ne, lt-length_of_get, bit_and,
}
use mathlib.Core.Option.{some-injective}
use native.Mathlib.Decide.{ℕ_discrete}
use thekernel_ax.Prelude.Bits.{bit, bit-bit_and, bit-lt_two}
use thekernel_ax.Prelude.Result.{ok, >>=-eq-ok}
use thekernel_ax.Cbpf.Opcode.{Opcode, jmp_ja, jmp, ret_k, ret_a, decode}
use thekernel_ax.Cbpf.Program.{Instruction}
use thekernel_ax.Cbpf.Verify.{
  Slots, merge_initialized, merge_at, track, propagate, analyse_instruction,
}

-- Every slot of the first word is a slot of the second.
abbrev pub Below : ℕ → ℕ → Type 0
Below a b = (k : ℕ) → bit a k ≡ 1 → bit b k ≡ 1

-- The entry of `target` claims no more than `initialized`.
abbrev pub Covers : Slots → ℕ → ℕ → Type 0
Covers incoming target initialized =
    (mask : ℕ) × (get_elem? incoming target ≡ some (some mask)) × Below mask initialized

bit_and-Below_left : (a b : ℕ) → Below (bit_and a b) a
bit_and-Below_left a b k h = omega (arith, bit-bit_and a b k, bit-lt_two a k, bit-lt_two b k)

bit_and-Below_right : (a b : ℕ) → Below (bit_and a b) b
bit_and-Below_right a b k h = omega (arith, bit-bit_and a b k, bit-lt_two a k, bit-lt_two b k)

merge_at-eq-ok :
    (incoming after : Slots) (t initialized : ℕ)
    → merge_at incoming t initialized ≡ ok after
    → (slot : Option ℕ) × (get_elem? incoming t ≡ some slot)
      × (after ≡ set incoming t (merge_initialized slot initialized))
unfolding merge_at
merge_at-eq-ok incoming after t initialized e = elim (Option-cases (get_elem? incoming t)) [
  | inl outside ↦ absurd (ground arith)
  | inr (slot, found) ↦ (slot, found, ground arith)
]

merge_initialized-Below :
    (slot : Option ℕ) (initialized : ℕ)
    → (mask : ℕ) × (merge_initialized slot initialized ≡ some mask) × Below mask initialized
unfolding merge_initialized
merge_initialized-Below none initialized = (initialized, refl, λ k h. h)
merge_initialized-Below (some a) initialized =
    (bit_and a initialized, refl, bit_and-Below_right a initialized)

-- After a merge the target claims no more than what flowed in.
merge_at-Covers :
    (incoming after : Slots) (t initialized : ℕ)
    → merge_at incoming t initialized ≡ ok after
    → Covers after t initialized
merge_at-Covers incoming after t initialized e =
    let (slot, found, made) = merge_at-eq-ok incoming after t initialized e in
    let (mask, merged, below) = merge_initialized-Below slot initialized in
    let written =
      get_elem?-set_self incoming t (merge_initialized slot initialized)
        (lt-length_of_get incoming t slot found) in
    (mask, rw made (written ∙ ap some merged), below)

-- A merge only takes claims away, at its target and elsewhere.
merge_at-keeps :
    (incoming after : Slots) (t initialized : ℕ)
    → merge_at incoming t initialized ≡ ok after
    → (j claim : ℕ) → Covers incoming j claim
    → Covers after j claim
unfolding merge_initialized
merge_at-keeps incoming after t initialized e j claim (mask, here, below) =
    let (slot, found, made) = merge_at-eq-ok incoming after t initialized e in
    elim (ℕ_discrete t j) [
      | yes same ↦
          let known : slot ≡ some mask = some-injective slot (some mask) (
            sym found
            ∙ subst (λ (u : ℕ). get_elem? incoming u ≡ some (some mask)) (sym same) here) in
          let written =
            get_elem?-set_self incoming t (merge_initialized slot initialized)
              (lt-length_of_get incoming t slot found) in
          let moved =
            subst
              (λ (u : ℕ).
                get_elem? (set incoming t (merge_initialized slot initialized)) u
                ≡ some (merge_initialized slot initialized))
              same written in
          (
            bit_and mask initialized,
            rw made (moved ∙ ap (λ (o : Option ℕ). some (merge_initialized o initialized)) known),
            λ k h. below k (bit_and-Below_left mask initialized k h),
          )
      | no ne ↦ (mask, rw made (get_elem?-set_ne incoming t j _ ne ∙ here), below)
    ]

-- The instructions that may run after the one at `pc`.
abbrev pub Successor : ℕ → Instruction → Option Opcode → ℕ → Type 0
Successor pc i (some ret_k) t = ⊥
Successor pc i (some ret_a) t = ⊥
Successor pc i (some jmp_ja) t = t ≡ pc + 1 + i.k
Successor pc i (some (jmp _ _)) t = (t ≡ pc + 1 + i.jt) ⊎ (t ≡ pc + 1 + i.jf)
Successor pc i _ t = t ≡ pc + 1

module _ (pc : ℕ) (i : Instruction) (initialized : ℕ) (incoming after : Slots) where
  pub propagate-Covers :
      (op : Option Opcode)
      → propagate pc i op initialized incoming ≡ ok after
      → (t : ℕ) → Successor pc i op t
      → Covers after t initialized
  unfolding propagate
  propagate-Covers (some ret_k) e t s = absurd s
  propagate-Covers (some ret_a) e t s = absurd s
  propagate-Covers (some jmp_ja) e t s = rw s (merge_at-Covers incoming after _ initialized e)
  propagate-Covers (some (jmp _ _)) e t (inl s) =
      let (merged, first, second) = >>=-eq-ok (merge_at incoming (pc + 1 + i.jt) initialized) _ e in
      rw s (
        merge_at-keeps merged after _ initialized second _ initialized
          (merge_at-Covers incoming merged _ initialized first))
  propagate-Covers (some (jmp _ _)) e t (inr s) =
      let (merged, first, second) = >>=-eq-ok (merge_at incoming (pc + 1 + i.jt) initialized) _ e in
      rw s (merge_at-Covers merged after _ initialized second)
  propagate-Covers _ e t s = rw s (merge_at-Covers incoming after _ initialized e)

  propagate-keeps :
      (op : Option Opcode)
      → propagate pc i op initialized incoming ≡ ok after
      → (j claim : ℕ) → Covers incoming j claim
      → Covers after j claim
  unfolding propagate
  propagate-keeps (some ret_k) e j claim c =
      let same : incoming ≡ after = cc in subst (λ (x : Slots). Covers x j claim) same c
  propagate-keeps (some ret_a) e j claim c =
      let same : incoming ≡ after = cc in subst (λ (x : Slots). Covers x j claim) same c
  propagate-keeps (some jmp_ja) e j claim c =
      merge_at-keeps incoming after _ initialized e j claim c
  propagate-keeps (some (jmp _ _)) e j claim c =
      let (merged, first, second) = >>=-eq-ok (merge_at incoming (pc + 1 + i.jt) initialized) _ e in
      merge_at-keeps merged after _ initialized second j claim
        (merge_at-keeps incoming merged _ initialized first j claim c)
  propagate-keeps _ e j claim c = merge_at-keeps incoming after _ initialized e j claim c

-- A round over an entry that some path reaches: the instruction passes, and what holds behind it
-- flows on.
pub analyse_instruction-eq-ok :
    (pc : ℕ) (i : Instruction) (incoming after : Slots) (entry : ℕ)
    → get_elem? incoming pc ≡ some (some entry)
    → analyse_instruction pc i incoming ≡ ok after
    → (initialized : ℕ) × (track pc i (decode i.code) entry ≡ ok initialized)
      × (propagate pc i (decode i.code) initialized incoming ≡ ok after)
unfolding analyse_instruction
analyse_instruction-eq-ok pc i incoming after entry here e =
    >>=-eq-ok (track pc i (decode i.code) entry)
      (λ initialized. propagate pc i (decode i.code) initialized incoming)
      (rw (here, analyse_instruction) at e)

pub analyse_instruction-keeps :
    (pc : ℕ) (i : Instruction) (incoming after : Slots)
    → analyse_instruction pc i incoming ≡ ok after
    → (j claim : ℕ) → Covers incoming j claim
    → Covers after j claim
unfolding analyse_instruction
analyse_instruction-keeps pc i incoming after e j claim c = by_entry (get_elem? incoming pc) refl
  where
    by_entry : (o : Option (Option ℕ)) → get_elem? incoming pc ≡ o → Covers after j claim
    by_entry none found = absurd (ground arith)
    by_entry (some none) found =
        let same : incoming ≡ after = ground arith in subst (λ (x : Slots). Covers x j claim) same c
    by_entry (some (some entry)) found =
        let (initialized, _, flowed) =
          analyse_instruction-eq-ok pc i incoming after entry found e in
        propagate-keeps pc i initialized incoming after (decode i.code) flowed j claim c
