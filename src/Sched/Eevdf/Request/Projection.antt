-- ===== src/Sched/Eevdf/Request/Projection.antt =====
-- crates/thekernel-axsched/src/eevdf_model.rs: the projections of a request's exact fraction.
use thekernel_ax.Prelude.{
  ℕ, ◌+◌, ◌-◌, ◌*◌, ◌/◌, ◌%◌, ◌≡◌, ◌<◌, ◌≤◌, false, ◌||◌, ltb, ◌==◌, arith, not, refl, ◌∙◌,
  Bool-cases, inl, inr, ap, lt→ltb,
}
use thekernel_ax.Prelude.Result.{ok, >>=-cases, >>=-ok}
use thekernel_ax.Sched.Eevdf.Word.{u128_mod, work_unit}
use thekernel_ax.Sched.Eevdf.MulDiv.{checked_mul_div_rem}
use thekernel_ax.Sched.Eevdf.MulDiv.Exact.{checked_mul_div_rem-eq-divided}
use thekernel_ax.Sched.Eevdf.MulDiv.Round.{
  ceil_div, ceil_div_bounds, checked_mul_div_ceil-eq-ceil, checked_ceil_div-eq-ceil,
}
use thekernel_ax.Sched.Eevdf.Signed.Quantum.{le_of_mul-lt, mul-le_right}
use thekernel_ax.Sched.Eevdf.Request.{
  Request, fractional_work, projection, exact_valid, set_quantum,
}
use native.Mathlib.Nat.{
  zero-mul, div-add-mod', mod-lt, add-mul-div_right, div-eq_of_lt, mul_comm, mul_assoc,
}

projection-nonzero : (q n d : ℕ) (out : ℕ × ℕ) → projection q n d ≡ ok out → (q == 0) ≡ false
unfolding projection
projection-nonzero q n d out e = elim (Bool-cases (q == 0)) [
  | inl none_left ↦ absurd (ground (arith, rw none_left at e))
  | inr some_left ↦ some_left
]

-- A consistent request keeps its fraction and stays consistent under a new quantum that is
-- accepted, and setting the old quantum again gives back the very same request.
pub set_quantum-back :
    (r r' : Request) (q : ℕ)
    → exact_valid r ≡ ok tt
    → set_quantum r q ≡ ok r'
    → (r'.q ≡ q)
      × (exact_valid r' ≡ ok tt)
      × (r'.remaining_fraction_num ≡ r.remaining_fraction_num)
      × (r'.remaining_fraction_den ≡ r.remaining_fraction_den)
      × (set_quantum r' r.q ≡ ok r)
unfolding set_quantum exact_valid
set_quantum-back r r' q valid changed =
    let n = r.remaining_fraction_num in
    let d = r.remaining_fraction_den in
    let some_quantum : (q == 0) ≡ false = ground arith in
    >>=-cases (projection r.q n d) _ valid λ old projected checked.
      >>=-cases (projection q n d) _ (rw some_quantum at changed) λ new projected' stored.
        let work : old.0 ≡ r.remaining_work = ground arith in
        let ticks : old.1 ≡ r.remaining_ticks = ground arith in
        let same : r' ≡ record r { q = q; remaining_work = new.0; remaining_ticks = new.1 } =
          ground arith in
        let consistent : (not (new.0 == new.0) || not (new.1 == new.1)) ≡ false = ground arith in
        let old_quantum = projection-nonzero r.q n d old projected in
        rw same (
          refl,
          >>=-ok projected' _ (rw consistent refl),
          refl,
          refl,
          rw old_quantum (>>=-ok projected _ (rw (work, ticks) refl)),
        )

-- Whole multiples pass through the rounding.
ceil_div-add : (whole rest d : ℕ) → 0 < d → ceil_div (whole * d + rest) d ≡ whole + ceil_div rest d
ceil_div-add whole rest d h =
    let same : whole * d + rest + (d - 1) ≡ rest + (d - 1) + whole * d = omega arith in
    rw (same, add-mul-div_right (rest + (d - 1)) whole h) (omega arith)

ceil_div-zero : (d : ℕ) → 0 < d → ceil_div 0 d ≡ 0
ceil_div-zero d h = div-eq_of_lt (omega arith)

-- A fraction of at most one of some work is at most the work.
share_of_work : (n q w d : ℕ) → 0 < d → n ≤ d → ceil_div (n * q * w) d ≤ q * w
share_of_work n q w d h hn =
    let smaller : n * q * w ≤ d * (q * w) = le_share in
    let bounds = ceil_div_bounds (n * q * w) d h in
    le_of_mul-lt (ceil_div (n * q * w) d) (q * w) d (omega (arith, mul_comm d (q * w)))
  where
    le_share : n * q * w ≤ d * (q * w)
    le_share = rw (mul_assoc n q w) (mul-le_right n d (q * w) hn)

fraction_lem :
    (f d : ℕ)
    → 0 < d
    → f < u128_mod
    → d < u128_mod
    → ceil_div (f * work_unit) d < u128_mod
    → fractional_work f d ≡ ok (ceil_div (f * work_unit) d)
fraction_lem f d h hf hd fits = elim (Bool-cases (f == 0)) [
  | inl nothing ↦
      let zero_part : f ≡ 0 = ground arith in
      rw nothing (rw (zero_part, zero-mul work_unit, ceil_div-zero d h) refl)
  | inr something ↦
      let some_weight : (d == 0) ≡ false = ground arith in
      let tested = lt→ltb (ceil_div (f * work_unit) d) u128_mod fits in
      rw something (
        checked_mul_div_ceil-eq-ceil f work_unit d hf (omega arith) hd
        ∙ rw (some_weight, tested) refl)
]

-- For a request of at least one tick whose whole work is a u128 word, and a fraction of at most
-- one with a denominator that is a nonzero word, the projection is exact: the remaining work is
-- the fraction of the request's work, rounded up, and the remaining ticks are that work in ticks,
-- rounded up.
pub projection-eq-ceil :
    (q n d : ℕ)
    → 0 < q
    → 0 < d
    → n ≤ d
    → d < u128_mod
    → q * work_unit < u128_mod
    → projection q n d
      ≡ ok (ceil_div (n * q * work_unit) d, ceil_div (ceil_div (n * q * work_unit) d) work_unit)
unfolding projection
projection-eq-ceil q n d hq hd hn hd' hw =
    let k = n * q / d in
    let f = n * q % d in
    let part = ceil_div (f * work_unit) d in
    let split = ap (λ (t : ℕ). t * work_unit) (div-add-mod' (n * q) d) in
    let regroup : (k * d + f) * work_unit ≡ k * work_unit * d + f * work_unit = grind arith in
    let whole : n * q * work_unit ≡ k * work_unit * d + f * work_unit = omega arith in
    let total : ceil_div (n * q * work_unit) d ≡ k * work_unit + part =
      ap (λ (t : ℕ). ceil_div t d) whole ∙ ceil_div-add (k * work_unit) (f * work_unit) d hd in
    let within = share_of_work n q work_unit d hd hn in
    let guard : (q == 0 || d == 0 || ltb d n) ≡ false = ground arith in
    let some_weight : (d == 0) ≡ false = ground arith in
    let k_fits = lt→ltb k u128_mod (omega arith) in
    let whole_fits = lt→ltb (k * work_unit) u128_mod (omega arith) in
    let sum_fits = lt→ltb (k * work_unit + part) u128_mod (omega arith) in
    let below : f < d = mod-lt (n * q) hd in
    let divided_lem : checked_mul_div_rem n q d ≡ ok (k, f) =
      checked_mul_div_rem-eq-divided n q d (omega arith) (omega arith) hd'
      ∙ rw (some_weight, k_fits) refl in
    rw guard (
      >>=-ok divided_lem _ (
        >>=-ok (fraction_lem f d hd (omega arith) hd' (omega arith)) _ (
          rw (whole_fits, sum_fits)
            (>>=-ok (checked_ceil_div-eq-ceil (k * work_unit + part) work_unit (omega arith)) _
              (rw total refl)))))
