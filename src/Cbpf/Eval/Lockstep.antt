-- ===== src/Cbpf/Eval/Lockstep.antt =====
-- One round of `Program::evaluate` of crates/thekernel-axcbpf/src/program.rs over two scratch
-- memories that agree on the slots which the analysis claims.
use thekernel_ax.Prelude.{
  ℕ, ◌+◌, ◌^◌, ◌<◌, ◌≡◌, ◌≢◌, refl, subst, sym, ◌∙◌, inl, inr, Bool, true, false, ◌&&◌, Option,
  none, some, List, arith, Bool-cases, length, get_elem?, set, length-set, get_elem?-set_self,
  get_elem?-set_ne, bit_and, bit_or, ◌==◌, if◌then◌else◌, ltb, ltb→lt,
}
use mathlib.Core.Option.{get_or}
use native.Mathlib.Decide.{ℕ_discrete}
use thekernel_ax.Prelude.Bits.{bit, bit-bit_or, bit-lt_two, bit-two_pow_ne, bit_and-two_pow_zero}
use thekernel_ax.Prelude.Result.{Result, ok, err}
use thekernel_ax.Cbpf.Opcode.{
  byte, by_k, by_x, Opcode, ld_abs, ld_ind, ld_mem, ldx_mem, ldx_b_msh, st, stx, alu, jmp, ret_k,
  ret_a,
}
use thekernel_ax.Cbpf.Ancillary.{Ancillary, ancillary_from_offset}
use thekernel_ax.Cbpf.Input.{Input}
use thekernel_ax.Cbpf.Program.{Instruction, VerifyError, scratch_uninitialized}
use thekernel_ax.Cbpf.Verify.{slot_bit_lem, track}
use thekernel_ax.Cbpf.Verify.Flow.{Successor}
use thekernel_ax.Cbpf.Eval.{
  Machine, Flow, go, done, fault, or_zero, store, next, is_division, execute,
}

-- Two scratch memories hold the same words in the slots of a mask.
abbrev pub Agree : ℕ → List ℕ → List ℕ → Type 0
Agree mask xs ys = (k : ℕ) → bit mask k ≡ 1 → get_elem? xs k ≡ get_elem? ys k

abbrev pub with_scratch : Machine → List ℕ → Machine
with_scratch m ys = record m { scratch = ys }

-- Two rounds do the same, but for scratch words outside the mask.
abbrev pub Lockstep : ℕ → Flow → Flow → Type 0
Lockstep mask (go m) (go n) =
    (n ≡ with_scratch m n.scratch)
    × (length m.scratch ≡ length n.scratch)
    × Agree mask m.scratch n.scratch
Lockstep mask (done v) (done w) = v ≡ w
Lockstep mask fault fault = Unit
Lockstep mask _ _ = ⊥

or_zero-Lockstep :
    (mask : ℕ) (o : Option ℕ) (f g : ℕ → Flow)
    → ((v : ℕ) → Lockstep mask (f v) (g v))
    → Lockstep mask (or_zero o f) (or_zero o g)
or_zero-Lockstep mask none f g h = refl
or_zero-Lockstep mask (some v) f g h = h v

if-Lockstep :
    (mask : ℕ) (b : Bool) (f g f' g' : Flow)
    → Lockstep mask f f'
    → Lockstep mask g g'
    → Lockstep mask (if b then f else g) (if b then f' else g')
if-Lockstep mask true f g f' g' h k = h
if-Lockstep mask false f g f' g' h k = k

-- Storing the same word in both keeps them alike, there too.
Agree-set :
    (entry k v : ℕ) (xs ys : List ℕ)
    → length xs ≡ length ys
    → k < length xs
    → Agree entry xs ys
    → Agree (bit_or entry (2 ^ k)) (set xs k v) (set ys k v)
Agree-set entry k v xs ys l h agree j b = elim (ℕ_discrete k j) [
  | yes same ↦
      let both : get_elem? (set xs k v) k ≡ get_elem? (set ys k v) k =
        get_elem?-set_self xs k v h ∙ sym (get_elem?-set_self ys k v (omega arith)) in
      subst (λ (t : ℕ). get_elem? (set xs k v) t ≡ get_elem? (set ys k v) t) same both
  | no ne ↦
      get_elem?-set_ne xs k j v ne
      ∙ agree j
          (omega (arith, bit-bit_or entry (2 ^ k) j, bit-two_pow_ne k j ne, bit-lt_two entry j))
      ∙ sym (get_elem?-set_ne ys k j v ne)
]

-- A load that passes the analysis reads a slot of the mask.
loaded_bit : (entry k : ℕ) → (bit_and entry (2 ^ k) == 0) ≡ false → bit entry k ≡ 1
loaded_bit entry k h = omega (arith, bit-lt_two entry k, nonzero)
  where
    nonzero : bit entry k ≢ 0
    nonzero e = ground (arith, bit_and-two_pow_zero entry k e)

Agree-carried :
    (entry initialized : ℕ) (xs ys : List ℕ)
    → ◌≡◌ {A = Result VerifyError ℕ} (ok entry) (ok initialized)
    → Agree entry xs ys
    → Agree initialized xs ys
Agree-carried entry initialized xs ys e agree =
    let same : entry ≡ initialized = cc in subst (λ (t : ℕ). Agree t xs ys) same agree

module _ (i : Instruction) (m : Machine) (ys : List ℕ) (l : length m.scratch ≡ length ys) where
  -- A load reads the same word from both memories.
  loaded-Lockstep :
      (entry initialized : ℕ) (f g : ℕ → Flow)
      → (if bit_and entry (2 ^ i.k) == 0 then err (scratch_uninitialized m.pc i.k) else ok entry)
        ≡ ok initialized
      → Agree entry m.scratch ys
      → (Agree initialized m.scratch ys → (v : ℕ) → Lockstep initialized (f v) (g v))
      → Lockstep initialized
          (elim (get_elem? m.scratch i.k) [ none ↦ fault | some v ↦ f v ])
          (elim (get_elem? ys i.k) [ none ↦ fault | some v ↦ g v ])
  loaded-Lockstep entry initialized f g e agree same =
      let held : (bit_and entry (2 ^ i.k) == 0) ≡ false = ground arith in
      let carried : Agree initialized m.scratch ys =
        Agree-carried entry initialized m.scratch ys (ground arith) agree in
      rw (← agree i.k (loaded_bit entry i.k held))
        (by_word (get_elem? m.scratch i.k) (same carried))
    where
      by_word :
          (o : Option ℕ)
          → ((v : ℕ) → Lockstep initialized (f v) (g v))
          → Lockstep initialized
              (elim o [ none ↦ fault | some v ↦ f v ])
              (elim o [ none ↦ fault | some v ↦ g v ])
      by_word none h = tt
      by_word (some v) h = h v

  stored-Lockstep :
      (entry initialized value : ℕ)
      → ◌≡◌ {A = Result VerifyError ℕ} (ok (bit_or entry (2 ^ i.k))) (ok initialized)
      → Agree entry m.scratch ys
      → Lockstep initialized (store m i.k value) (store (with_scratch m ys) i.k value)
  stored-Lockstep entry initialized value e agree = elim (Bool-cases (ltb i.k (length m.scratch))) [
    | inl inside ↦
        let too : ltb i.k (length ys) ≡ true = rw l at inside in
        rw (inside, too)
          (
            refl,
            length-set m.scratch i.k value ∙ l ∙ sym (length-set ys i.k value),
            Agree-carried _ initialized _ _ e
                (Agree-set entry i.k value m.scratch ys l (ltb→lt _ _ inside) agree),
          )
    | inr outside ↦ let too : ltb i.k (length ys) ≡ false = rw l at outside in rw (outside, too) tt
  ]

-- The claim for one instruction that passes the analysis.
module _ (input : Input) (i : Instruction) (m : Machine) (ys : List ℕ)
    (l : length m.scratch ≡ length ys) where
  pub execute-Lockstep :
      (op : Opcode) (entry initialized : ℕ)
      → track m.pc i (some op) entry ≡ ok initialized
      → Agree entry m.scratch ys
      → Lockstep initialized (execute input i op m) (execute input i op (with_scratch m ys))
  unfolding execute track
  execute-Lockstep ld_mem entry initialized e agree =
      loaded-Lockstep i m ys l entry initialized _ _ (slot_bit_lem i.k _ e) agree
        (λ a v. (refl, l, a))
  execute-Lockstep ldx_mem entry initialized e agree =
      loaded-Lockstep i m ys l entry initialized _ _ (slot_bit_lem i.k _ e) agree
        (λ a v. (refl, l, a))
  execute-Lockstep st entry initialized e agree =
      stored-Lockstep i m ys l entry initialized m.accumulator (slot_bit_lem i.k _ e) agree
  execute-Lockstep stx entry initialized e agree =
      stored-Lockstep i m ys l entry initialized m.index (slot_bit_lem i.k _ e) agree
  execute-Lockstep (ld_abs w) entry initialized e agree =
      by_field (ancillary_from_offset i.k) (input.load i.k w)
    where
      by_field :
          (field : Option Ancillary) (o : Option ℕ)
          → Lockstep initialized
              (elim field [
                | some f ↦ go (next (record m { accumulator = get_or (input.ancillary f) 0 }))
                | none ↦ or_zero o (λ v. go (next (record m { accumulator = v })))
              ])
              (elim field [
                | some f ↦ go (
                    next
                      (record (with_scratch m ys) { accumulator = get_or (input.ancillary f) 0 }))
                | none ↦ or_zero o (λ v. go (next (record (with_scratch m ys) { accumulator = v })))
              ])
      by_field (some f) o = (refl, l, Agree-carried entry initialized _ _ e agree)
      by_field none o =
          or_zero-Lockstep initialized o _ _
            (λ v. (refl, l, Agree-carried entry initialized _ _ e agree))
  execute-Lockstep (ld_ind w) entry initialized e agree =
      if-Lockstep initialized (ltb (m.index + i.k) (2 ^ 32)) _ _ _ _
        (or_zero-Lockstep initialized (input.load (m.index + i.k) w) _ _
          (λ v. (refl, l, Agree-carried entry initialized _ _ e agree)))
        refl
  execute-Lockstep ldx_b_msh entry initialized e agree =
      or_zero-Lockstep initialized (input.load i.k byte) _ _
        (λ v. (refl, l, Agree-carried entry initialized _ _ e agree))
  execute-Lockstep (alu op by_k) entry initialized e agree =
      if-Lockstep initialized (is_division op && i.k == 0) _ _ _ _ tt
        (refl, l, Agree-carried entry initialized _ _ e agree)
  execute-Lockstep (alu op by_x) entry initialized e agree =
      if-Lockstep initialized (is_division op && m.index == 0) _ _ _ _ refl
        (refl, l, Agree-carried entry initialized _ _ e agree)
  execute-Lockstep (jmp c by_k) entry initialized e agree =
      (refl, l, Agree-carried entry initialized _ _ e agree)
  execute-Lockstep (jmp c by_x) entry initialized e agree =
      (refl, l, Agree-carried entry initialized _ _ e agree)
  execute-Lockstep ret_k entry initialized e agree = refl
  execute-Lockstep ret_a entry initialized e agree = refl
  execute-Lockstep _ entry initialized e agree =
      (refl, l, Agree-carried entry initialized _ _ e agree)

-- The interpreter goes where the analysis lets the claims flow.
pub execute-Successor :
    (input : Input) (i : Instruction) (op : Opcode) (m m' : Machine)
    → execute input i op m ≡ go m'
    → Successor m.pc i (some op) m'.pc
unfolding execute
execute-Successor input i ld_mem m m' e = ground arith
execute-Successor input i ldx_mem m m' e = ground arith
execute-Successor input i (ld_abs w) m m' e = ground arith
execute-Successor input i (ld_ind w) m m' e = ground arith
execute-Successor input i ldx_b_msh m m' e = ground arith
execute-Successor input i (alu op by_k) m m' e = ground arith
execute-Successor input i (alu op by_x) m m' e = ground arith
execute-Successor input i (jmp c x) m m' e = ground arith
execute-Successor input i ret_k m m' e = ground arith
execute-Successor input i ret_a m m' e = ground arith
execute-Successor input i _ m m' e = ground arith
