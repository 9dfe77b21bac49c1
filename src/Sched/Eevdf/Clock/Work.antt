-- ===== src/Sched/Eevdf/Clock/Work.antt =====
-- crates/thekernel-axsched/src/eevdf_model.rs: the work that a clock conserves.
use thekernel_ax.Prelude.{
  ℕ, suc, ◌+◌, ◌*◌, ◌/◌, ◌%◌, ◌<◌, ◌≡◌, ◌≢◌, arith, ltb, leb, ◌==◌, if◌then◌else◌, inl, inr,
  Bool-cases, lt→ltb, true, false, refl, max, ◌&&◌, ap, sym, ◌∙◌,
}
use thekernel_ax.Prelude.Int.{
  ℤ, pos, negsuc, pos_part, neg_part, ◌+ℤ◌, int_laws, +ℤ_parts, eq_of_parts,
}
use thekernel_ax.Prelude.Result.{Result, err, ok, ◌>>=◌, >>=-eq-ok}
use thekernel_ax.Sched.Eevdf.Word.{
  u128_mod, i128_half, work_unit, ModelError, arithmetic_exhausted, checked_i128, FitsI128,
  fits_i128,
}
use thekernel_ax.Sched.Eevdf.Divide.Exact.{divided, quotient_remainder, div_unique}
use thekernel_ax.Sched.Eevdf.Signed.Exact.{scale, negated_parts}
use thekernel_ax.Sched.Eevdf.MulDiv.Exact.{checked_mul_div_rem-eq-divided, div_sum-eq-quotient}
use thekernel_ax.Sched.Eevdf.Clock.{
  Clock, ClockAdvance, idle_preview, carry_remainder, preview_work_with_ticks, preview_advance,
  advance_ticks,
}
use native.Mathlib.Nat.{
  zero-mul, div-eq_of_lt, mod-eq_of_lt, div-add-mod', mod-lt, div-lt_iff_lt-mul,
}

-- A clock's words are in range, and its residue is below its weight, or zero where it has no
-- weight.
pub record IsValid (c : Clock) : Type 0 where
  pub v_fits : FitsI128 c.v
  pub weight_fits : c.total_weight < u128_mod
  pub ticks_fit : c.accounted_ticks < u128_mod
  pub residue : c.remainder < max c.total_weight 1

-- What advancing by `work` over the total weight gives: the virtual time moves by the whole
-- quotient of the work and the residue, and the rest is the new residue.
abbrev pub advanced : Clock → ℕ → ℕ → Result ModelError ClockAdvance
advanced c work ticks =
    let moved = (work + c.remainder) / c.total_weight in
    if ltb moved i128_half
      && fits_i128 (c.v +ℤ pos moved)
      && ltb (c.accounted_ticks + ticks) u128_mod
    then ok (record {
      v = c.v +ℤ pos moved;
      remainder = (work + c.remainder) % c.total_weight;
      accounted_ticks = c.accounted_ticks + ticks;
      delta_v = pos moved;
    })
    else err arithmetic_exhausted

add_mul : (a b c : ℕ) → (a + b) * c ≡ a * c + b * c
add_mul a b c = grind arith

carry_lem :
    (c : Clock) (work ticks : ℕ)
    → c.remainder < c.total_weight
    → c.total_weight < u128_mod
    → (quotient_remainder work c.total_weight >>= λ product. carry_remainder c product ticks)
      ≡ advanced c work ticks
unfolding checked_i128
carry_lem c work ticks h hw =
    let w = c.total_weight in
    let q = work / w in
    let r = work % w in
    let t = (r + c.remainder) / w in
    let u = (r + c.remainder) % w in
    let below : r < w = mod-lt work (omega arith) in
    let below' : u < w = mod-lt (r + c.remainder) (omega arith) in
    let carried = div_sum-eq-quotient r c.remainder w (omega arith) (omega arith) (omega arith) in
    let one_carry : t < 2 = (div-lt_iff_lt-mul {k = w} (omega arith)).1 (omega arith) in
    let joined : work + c.remainder ≡ (q + t) * w + u =
      omega (arith, div-add-mod' work w, div-add-mod' (r + c.remainder) w, add_mul q t w) in
    let parts = div_unique (work + c.remainder) w (q + t) u below' joined in
    let carry_fits = lt→ltb t u128_mod (omega arith) in
    rw (parts.0, parts.1)
      (elim (Bool-cases (ltb q u128_mod)) [
        | inl fits ↦ rw (fits, carried, carry_fits) (ground arith)
        | inr over ↦ rw over (ground arith)
      ])

one_factor : (w d : ℕ) → divided (w * 1) d ≡ divided w d
one_factor w d = let same : w * 1 ≡ w = omega arith in rw same refl

idle_lem :
    (c : Clock) (ticks : ℕ)
    → IsValid c
    → c.remainder < c.total_weight
    → idle_preview c ticks ≡ advanced c 0 ticks
idle_lem c ticks valid below =
    let same : 0 + c.remainder ≡ c.remainder = omega arith in
    let stay : c.v +ℤ pos 0 ≡ c.v = omega int_laws in
    let fits : fits_i128 c.v ≡ true = ground (arith, valid.v_fits) in
    rw (same, div-eq_of_lt below, mod-eq_of_lt below, stay, fits) (ground arith)

-- On a clock whose residue is below its weight, previewing work of a `u128` word advances virtual
-- time by the whole quotient of the work and the residue by the total weight and keeps the rest as
-- residue, or reports exhaustion where one of the results is out of range. For no work it changes
-- nothing but the tick counter.
pub preview_work_with_ticks-eq-advanced :
    (c : Clock) (work ticks : ℕ)
    → IsValid c
    → c.total_weight ≢ 0
    → work < u128_mod
    → preview_work_with_ticks c work ticks ≡ advanced c work ticks
unfolding preview_work_with_ticks
preview_work_with_ticks-eq-advanced c work ticks valid weighed h =
    let below : c.remainder < c.total_weight = omega arith in
    let some_weight : (c.total_weight == 0) ≡ false = ground arith in
    let in_range : leb c.total_weight c.remainder ≡ false = ground arith in
    elim (Bool-cases (work == 0)) [
      | inl e ↦ let nothing : work ≡ 0 = ground arith in rw nothing (idle_lem c ticks valid below)
      | inr e ↦
          rw
            (
              e,
              some_weight,
              in_range,
              checked_mul_div_rem-eq-divided work 1 c.total_weight h (omega arith)
                  valid.weight_fits,
              one_factor work c.total_weight,
              some_weight,
            )
            (carry_lem c work ticks below valid.weight_fits)
    ]

-- On a clock with a residue below its weight, previewing ticks is previewing the work of the ticks,
-- also where that work is no `u128`.
pub preview_advance-eq-advanced :
    (c : Clock) (ticks : ℕ)
    → IsValid c
    → c.total_weight ≢ 0
    → ticks < u128_mod
    → preview_advance c ticks ≡ advanced c (ticks * work_unit) ticks
unfolding preview_advance
preview_advance-eq-advanced c ticks valid weighed h =
    let below : c.remainder < c.total_weight = omega arith in
    let some_weight : (c.total_weight == 0) ≡ false = ground arith in
    let in_range : leb c.total_weight c.remainder ≡ false = ground arith in
    elim (Bool-cases (ticks == 0)) [
      | inl e ↦
          let nothing : ticks ≡ 0 = ground arith in
          rw nothing (preview_work_with_ticks-eq-advanced c 0 0 valid weighed (omega arith))
      | inr e ↦
          rw
            (
              e,
              some_weight,
              in_range,
              checked_mul_div_rem-eq-divided ticks work_unit c.total_weight h (omega arith)
                  valid.weight_fits,
              some_weight,
            )
            (carry_lem c (ticks * work_unit) ticks below valid.weight_fits)
    ]

scale_parts :
    (a : ℤ) (w : ℕ)
    → (pos_part (scale a w) ≡ pos_part a * w) × (neg_part (scale a w) ≡ neg_part a * w)
unfolding scale
scale_parts (pos n) w = (refl, sym (zero-mul w))
scale_parts (negsuc n) w = omega (arith, negated_parts (suc n * w), zero-mul w)

-- Multiplying by the weight a moved virtual time.
pub scale-move : (v : ℤ) (moved w : ℕ) → scale (v +ℤ pos moved) w ≡ scale v w +ℤ pos (moved * w)
scale-move v moved w =
    let sum = ap (λ (t : ℕ). t * w) (+ℤ_parts v (pos moved)) in
    omega (
      arith,
      +ℤ_parts (scale v w) (pos (moved * w)),
      scale_parts v w,
      scale_parts (v +ℤ pos moved) w,
      eq_of_parts,
      add_mul (pos_part (v +ℤ pos moved) + neg_part v) 0 w,
      add_mul (pos_part (v +ℤ pos moved)) (neg_part v) w,
      add_mul (neg_part (v +ℤ pos moved) + pos_part v) moved w,
      add_mul (neg_part (v +ℤ pos moved)) (pos_part v) w,
    )

-- The results of a preview.
pub advanced-conserves :
    (c : Clock) (work ticks : ℕ) (a : ClockAdvance)
    → c.total_weight ≢ 0
    → advanced c work ticks ≡ ok a
    → FitsI128 a.v
      × (a.remainder < c.total_weight)
      × (scale a.v c.total_weight +ℤ pos a.remainder
          ≡ scale c.v c.total_weight +ℤ pos (c.remainder + work))
      × (a.accounted_ticks ≡ c.accounted_ticks + ticks)
      × (a.accounted_ticks < u128_mod)
      × (a.v ≡ c.v +ℤ a.delta_v)
advanced-conserves c work ticks a weighed e =
    let moved = (work + c.remainder) / c.total_weight in
    let v_moved : a.v ≡ c.v +ℤ pos moved = ground arith in
    let rest : a.remainder ≡ (work + c.remainder) % c.total_weight = ground arith in
    let delta : a.delta_v ≡ pos moved = ground arith in
    let below : (work + c.remainder) % c.total_weight < c.total_weight =
      mod-lt (work + c.remainder) (omega arith) in
    let conserved : scale a.v c.total_weight +ℤ pos a.remainder
        ≡ scale c.v c.total_weight +ℤ pos (c.remainder + work) =
      rw (v_moved, rest, scale-move c.v moved c.total_weight)
        (omega (int_laws, div-add-mod' (work + c.remainder) c.total_weight)) in
    (ground arith, omega arith, conserved, ground arith, ground arith, rw (v_moved, delta) refl)

-- A successful advance of a valid clock with weight by a u128 word of ticks conserves work: the
-- virtual time in units of the total weight and the residue grow together by exactly the work of
-- the ticks; the clock stays valid, its weight is unchanged, its tick counter grows by the ticks,
-- and the change of the virtual time is returned.
pub advance_ticks-conserves :
    (c d : Clock) (ticks : ℕ) (delta : ℤ)
    → IsValid c
    → c.total_weight ≢ 0
    → ticks < u128_mod
    → advance_ticks c ticks ≡ ok (d, delta)
    → IsValid d
      × (scale d.v c.total_weight +ℤ pos d.remainder
          ≡ scale c.v c.total_weight +ℤ pos (c.remainder + ticks * work_unit))
      × (d.total_weight ≡ c.total_weight)
      × (d.accounted_ticks ≡ c.accounted_ticks + ticks)
      × (d.v ≡ c.v +ℤ delta)
unfolding advance_ticks
advance_ticks-conserves c d ticks delta valid weighed h e =
    let (a, previewed, stored) = >>=-eq-ok (preview_advance c ticks) _ e in
    let facts =
      advanced-conserves c (ticks * work_unit) ticks a weighed
        (sym (preview_advance-eq-advanced c ticks valid weighed h) ∙ previewed) in
    ground (arith, facts)
