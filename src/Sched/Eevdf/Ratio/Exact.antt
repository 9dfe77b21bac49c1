-- ===== src/Sched/Eevdf/Ratio/Exact.antt =====
-- crates/thekernel-axsched/src/eevdf_model.rs: `checked_ratio_ceil` against the rounded quotient of
-- the products.
use thekernel_ax.Prelude.{
  ℕ, zero, suc, ◌+◌, ◌*◌, ◌/◌, ◌%◌, ◌^◌, ◌<◌, ◌≤◌, ◌≡◌, refl, ap, ◌∙◌, true, false, ltb, ◌==◌,
  if◌then◌else◌, arith, inl, inr, Bool-cases, lt→ltb, ◌||◌, not,
}
use thekernel_ax.Prelude.Result.{err, ok, >>=-ok}
use thekernel_ax.Sched.Eevdf.Word.{u128_mod, arithmetic_exhausted, checked_ceil_div}
use thekernel_ax.Sched.Eevdf.MulDiv.Round.{
  ceil_div, ceil_div_bounds, ceil_div-eq-quotient, checked_ceil_div-eq-ceil,
}
use thekernel_ax.Sched.Eevdf.Wide.{
  Wide, u64_mod, limb, set_limb, wide_zero, add_one_from, wide_checked_add_one, wide_mul_u128,
  wide_mul, low_u128,
}
use thekernel_ax.Sched.Eevdf.Wide.Value.{value, IsWide}
use thekernel_ax.Sched.Eevdf.Wide.Product.{weight, limb_sum, limb_fits, wide_mul_u128_lem}
use thekernel_ax.Sched.Eevdf.Wide.Factor.{Yields, wide_mul_lem}
use thekernel_ax.Sched.Eevdf.Ratio.{
  Factors, reduce_all, ratio_loop, is_wide_zero, wide_ratio_ceil, product_fits, checked_ratio_ceil,
}
use thekernel_ax.Sched.Eevdf.Ratio.Division.{ratio_loop_lem, le-mul_pos}
use thekernel_ax.Sched.Eevdf.Ratio.Reduce.{
  mul-pos, numerator, denominator, IsReduced, reduce_all_lem, ceil_div-common,
}
use native.Mathlib.Nat.{div-add-mod', mul_comm, zero-mul}

-- Adding one at a limb.
add_one_lem :
    (rounds i : ℕ) (w : Wide)
    → 3 < rounds + i
    → i < 4
    → IsWide w
    → value w + weight i < 2 ^ 256
    → Yields (add_one_from rounds i w) (value w + weight i)
unfolding add_one_from
add_one_lem zero i w hr hi h fits = absurd (omega arith)
add_one_lem (suc rounds) i w hr hi h fits =
    let step = limb_sum w i (limb w i + 1) h hi in
    let one_more : (limb w i + 1) * weight i ≡ limb w i * weight i + weight i = grind arith in
    let below = limb_fits w i h in
    elim (Bool-cases (ltb (limb w i + 1) u64_mod)) [
      | inl inside ↦
          let no_carry : (limb w i + 1) / u64_mod ≡ 0 = ground arith in
          let gone : (limb w i + 1) / u64_mod * weight (suc i) ≡ 0 =
            rw no_carry (zero-mul (weight (suc i))) in
          (set_limb w i ((limb w i + 1) % u64_mod), rw inside refl, step.0, omega arith)
      | inr over ↦
          let carry : (limb w i + 1) / u64_mod ≡ 1 = ground arith in
          let moved : (limb w i + 1) / u64_mod * weight (suc i) ≡ weight (suc i) =
            rw carry (omega arith) in
          let next = set_limb w i ((limb w i + 1) % u64_mod) in
          let total : value next + weight (suc i) ≡ value w + weight i = omega arith in
          let inner : suc i < 4 = not_last i (value next) hi (omega arith) in
          let (out, e, wide, sum) =
            add_one_lem rounds (suc i) next (omega arith) inner step.0 (omega arith) in
          (out, rw over e, wide, sum ∙ total)
    ]
  where
    not_last : (i v : ℕ) → i < 4 → v + weight (suc i) < 2 ^ 256 → suc i < 4
    not_last zero v hi h = omega arith
    not_last (suc zero) v hi h = omega arith
    not_last (suc (suc zero)) v hi h = omega arith
    not_last (suc (suc (suc i))) v hi h = absurd (omega arith)

-- A word without its two upper limbs is its number.
low_u128_lem :
    (w : Wide)
    → IsWide w
    → low_u128 w ≡ (if ltb (value w) u128_mod then ok (value w) else err arithmetic_exhausted)
unfolding low_u128
low_u128_lem w h = elim (Bool-cases (not (w.limb_2 == 0) || not (w.limb_3 == 0))) [
  | inl high ↦ rw high (ground arith)
  | inr low ↦ rw low (ground arith)
]

-- The rounded quotient that the long division ends with.
rounded_up :
    (n d : Wide)
    → IsWide n
    → IsWide d
    → 0 < value d
    → Yields
        (if is_wide_zero (ratio_loop 256 n d wide_zero wide_zero).1
          then ok (ratio_loop 256 n d wide_zero wide_zero).0
          else wide_checked_add_one (ratio_loop 256 n d wide_zero wide_zero).0)
        (ceil_div (value n) (value d))
rounded_up n d hn hd positive =
    let start : value wide_zero * value d + value wide_zero ≡ value n / 2 ^ 256 = omega arith in
    let done =
      ratio_loop_lem 256 n d wide_zero wide_zero (omega arith) hn hd (omega arith) (omega arith)
        positive start in
    go (ratio_loop 256 n d wide_zero wide_zero).0 (ratio_loop 256 n d wide_zero wide_zero).1 done.0
      done.1 done.2 done.3
  where
    go :
        (q r : Wide)
        → IsWide q
        → IsWide r
        → value q ≡ value n / value d
        → value r ≡ value n % value d
        → Yields
            (if is_wide_zero r then ok q else wide_checked_add_one q)
            (ceil_div (value n) (value d))
    go q r hq hr eq er = elim (Bool-cases (is_wide_zero r)) [
      | inl exact ↦
          let nothing : (value n % value d == 0) ≡ true = ground arith in
          rw (exact, ceil_div-eq-quotient (value n) (value d) positive, nothing) (q, refl, hq, eq)
      | inr rest ↦
          let some_rest : (value n % value d == 0) ≡ false = ground arith in
          rw (rest, ceil_div-eq-quotient (value n) (value d) positive, some_rest)
            (let grows = le-mul_pos (value n / value d) (value d) positive in
              let split = div-add-mod' (value n) (value d) in
              let fits : value q + weight 0 < 2 ^ 256 = ground arith in
              let (out, e, wide, sum) = add_one_lem 4 0 q (omega arith) (omega arith) hq fits in
              (out, e, wide, omega arith))
    ]

-- The wide path, from reduced factors.
wide_ratio_lem :
    (r : Factors)
    → 0 < denominator r
    → r.numerator_0 < u128_mod
    → r.numerator_1 < u128_mod
    → r.numerator_2 < u128_mod
    → r.denominator_0 < u128_mod
    → r.denominator_1 < u128_mod
    → numerator r < 2 ^ 256
    → wide_ratio_ceil r ≡ (
        if ltb (ceil_div (numerator r) (denominator r)) u128_mod
        then ok (ceil_div (numerator r) (denominator r))
        else err arithmetic_exhausted)
wide_ratio_lem r positive h0 h1 h2 k0 k1 fits =
    first_step (wide_mul_u128_lem r.numerator_0 r.numerator_1 h0 h1)
  where
    Goal : Type 0
    Goal = wide_ratio_ceil r ≡ (
        if ltb (ceil_div (numerator r) (denominator r)) u128_mod
        then ok (ceil_div (numerator r) (denominator r))
        else err arithmetic_exhausted)

    first_step :
        Yields (wide_mul_u128 r.numerator_0 r.numerator_1) (r.numerator_0 * r.numerator_1) → Goal
    first_step (partial, e, wide, sum) =
        second_step (wide_mul_lem partial r.numerator_2 wide h2 (rw sum fits))
      where
        second_step : Yields (wide_mul partial r.numerator_2) (value partial * r.numerator_2) → Goal
        second_step (n, e', wide', sum') =
            third_step (wide_mul_u128_lem r.denominator_0 r.denominator_1 k0 k1)
          where
            third_step :
                Yields (wide_mul_u128 r.denominator_0 r.denominator_1) (denominator r) → Goal
            third_step (d, e'', wide'', sum'') =
                let total : value n ≡ numerator r = sum' ∙ ap (λ (t : ℕ). t * r.numerator_2) sum in
                let (q, up, wide_q, sum_q) = rounded_up n d wide' wide'' (omega arith) in
                >>=-ok e _ (
                  >>=-ok e' _ (
                    >>=-ok e'' _
                      (>>=-ok up _ (low_u128_lem q wide_q ∙ rw (sum_q, total, sum'') refl))))

ceil_div-le : (n d : ℕ) → 0 < d → ceil_div n d ≤ n
ceil_div-le n d h = go (ceil_div n d) (ceil_div_bounds n d h).1
  where
    go : (q : ℕ) → q * d < n + d → q ≤ n
    go zero high = omega arith
    go (suc q) high =
        let spread : suc q * d ≡ q * d + d = grind arith in omega (arith, le-mul_pos q d h)

fast :
    (n d : ℕ)
    → 0 < d
    → n < u128_mod
    → checked_ceil_div n d
      ≡ (if ltb (ceil_div n d) u128_mod then ok (ceil_div n d) else err arithmetic_exhausted)
fast n d positive h =
    let nonzero : (d == 0) ≡ false = ground arith in
    let fits = lt→ltb (ceil_div n d) u128_mod (omega (arith, ceil_div-le n d positive)) in
    checked_ceil_div-eq-ceil n d h ∙ rw (nonzero, fits) refl

-- For factors that are u128 words, with denominators above zero and a product of the numerators
-- below 2 ^ 256, checked_ratio_ceil returns the ceiling of the quotient of the products when it
-- fits a u128, and else reports exhaustion.
pub checked_ratio_ceil-eq-ceil :
    (f : Factors)
    → 0 < f.denominator_0
    → 0 < f.denominator_1
    → f.numerator_0 < u128_mod
    → f.numerator_1 < u128_mod
    → f.numerator_2 < u128_mod
    → f.denominator_0 < u128_mod
    → f.denominator_1 < u128_mod
    → numerator f < 2 ^ 256
    → checked_ratio_ceil f ≡ (
        if ltb (ceil_div (numerator f) (denominator f)) u128_mod
        then ok (ceil_div (numerator f) (denominator f))
        else err arithmetic_exhausted)
unfolding checked_ratio_ceil
checked_ratio_ceil-eq-ceil f hd he h0 h1 h2 k0 k1 fits = go (reduce_all_lem f hd he)
  where
    go :
        (r : Factors) × (reduce_all f ≡ ok r) × IsReduced f r
        → checked_ratio_ceil f ≡ (
            if ltb (ceil_div (numerator f) (denominator f)) u128_mod
            then ok (ceil_div (numerator f) (denominator f))
            else err arithmetic_exhausted)
    go (r, e, (g, positive, n, d, pos0, pos1, l0, l1, l2, m0, m1)) =
        let below : 0 < denominator r = mul-pos r.denominator_0 r.denominator_1 pos0 pos1 in
        let same : ceil_div (numerator f) (denominator f) ≡ ceil_div (numerator r) (denominator r) =
          rw (n, d) (ceil_div-common g (numerator r) (denominator r) positive below) in
        let smaller : numerator r ≤ numerator f =
          omega (arith, le-mul_pos (numerator r) g positive, mul_comm (numerator r) g) in
        >>=-ok e _ (
          rw same (elim (Bool-cases (product_fits r)) [
            | inl small ↦ rw small (fast (numerator r) (denominator r) below (ground arith))
            | inr large ↦ rw large (
                wide_ratio_lem r below (omega arith) (omega arith) (omega arith) (omega arith)
                  (omega arith) (omega arith))
          ]))
