-- ===== src/Sched/Eevdf/Signed/Exact.antt =====
-- crates/thekernel-axsched/src/eevdf_model.rs: the signed steps against integers without a bound.
use thekernel_ax.Prelude.{
  ℕ, zero, suc, ◌+◌, ◌*◌, ◌/◌, ◌≤◌, ◌<◌, ◌≡◌, ◌⊎◌, refl, false, arith, ltb, ◌==◌, if◌then◌else◌,
}
use thekernel_ax.Prelude.Int.{
  ℤ, pos, negsuc, pos_part, neg_part, ◌+ℤ◌, ◌-ℤ◌, ◌≤ℤ◌, int_laws, +ℤ_parts,
}
use thekernel_ax.Prelude.Result.{Result, err, ok, ◌>>=◌}
use thekernel_ax.Sched.Eevdf.Word.{
  u128_mod, i128_half, ModelError, arithmetic_exhausted, invalid_weight, FitsI128, fits_i128,
  negated, checked_i128, checked_mul_i128_u128, signed_product,
}
use thekernel_ax.Sched.Eevdf.MulDiv.Round.{
  ceil_div, ceil_div_bounds, succ_mul, checked_ceil_div-eq-ceil,
}
use thekernel_ax.Sched.Eevdf.Signed.{checked_lag_at, signed_ceil_neg_div}
use native.Mathlib.Nat.{zero-mul, div-le_self, div-add-mod', mod-lt}

-- An integer times a number.
unfoldable pub scale : ℤ → ℕ → ℤ
scale (pos n) factor = pos (n * factor)
scale (negsuc n) factor = negated (suc n * factor)

-- An integer, if it is in range.
abbrev pub fitted : ℤ → Result ModelError ℤ
fitted value = if fits_i128 value then ok value else err arithmetic_exhausted

negative_product :
    (n p : ℕ)
    → ((if ltb p u128_mod then ok p else err arithmetic_exhausted) >>= λ product.
        signed_product (negsuc n) product)
      ≡ fitted (negated p)
negative_product n zero = refl
negative_product n (suc p) = ground arith

-- `checked_mul_i128_u128` gives the exact product if that is an `i128`, and else reports
-- exhaustion.
pub checked_mul_i128_u128-eq-scale :
    (value : ℤ) (factor : ℕ) → checked_mul_i128_u128 value factor ≡ fitted (scale value factor)
unfolding checked_mul_i128_u128 scale
checked_mul_i128_u128-eq-scale (pos zero) factor = ground (arith, zero-mul factor)
checked_mul_i128_u128-eq-scale (pos (suc n)) factor = ground arith
checked_mul_i128_u128-eq-scale (negsuc n) factor =
    let some_value : (suc n == 0) ≡ false = ground arith in
    rw some_value (negative_product n (suc n * factor))

-- `checked_lag_at` with a weight is `lag + weight * (v - stamp)`, with exhaustion as soon as the
-- difference, the product or the sum is no `i128`; a zero weight is refused.
pub checked_lag_at-eq-linear :
    (lag stamp : ℤ) (weight : ℕ) (v : ℤ)
    → checked_lag_at lag stamp weight v ≡ (
        if weight == 0
        then err invalid_weight
        else (fitted (v -ℤ stamp) >>= λ delta.
            fitted (scale delta weight) >>= λ change. fitted (lag +ℤ change)))
unfolding checked_lag_at
checked_lag_at-eq-linear lag stamp weight v = simp checked_mul_i128_u128-eq-scale

-- The least integer whose multiple of the denominator reaches the negated value.
abbrev pub IsCeilNeg : ℤ → ℕ → ℤ → Type 0
IsCeilNeg value denominator c =
    (pos 0 ≤ℤ scale c denominator +ℤ value) × (scale (c -ℤ pos 1) denominator +ℤ value ≤ℤ negsuc 0)

double_le : (m d : ℕ) → 1 < d → 2 * m ≤ m * d
double_le m d h = grind arith

pub negated_parts : (n : ℕ) → (pos_part (negated n) ≡ 0) × (neg_part (negated n) ≡ n)
negated_parts zero = (refl, refl)
negated_parts (suc n) = (refl, refl)

negated-suc : (n : ℕ) → negated n -ℤ pos 1 ≡ negated (n + 1)
negated-suc n = omega (int_laws, negated_parts n, negated_parts (n + 1))

negated-scale : (n d : ℕ) → scale (negated n) d ≡ negated (n * d)
unfolding scale
negated-scale zero d = ground (arith, zero-mul d)
negated-scale (suc n) d = refl

negated_fits : (n d : ℕ) → n < i128_half → FitsI128 (negated (n / d))
negated_fits n d h = omega (arith, negated_parts (n / d), div-le_self n d)

negated-IsCeilNeg : (n d : ℕ) → 0 < d → IsCeilNeg (pos n) d (negated (n / d))
negated-IsCeilNeg n d h =
    rw (negated-suc (n / d), negated-scale (n / d) d, negated-scale (n / d + 1) d)
      (omega (
        int_laws,
        +ℤ_parts (negated (n / d * d)) (pos n),
        negated_parts (n / d * d),
        negated_parts ((n / d + 1) * d),
        div-add-mod' n d,
        mod-lt n h,
        succ_mul (n / d) d,
      ))

-- The rounded quotient of a magnitude that is no zero is one above a number below the quotient.
ceil_div-predecessor :
    (n d : ℕ)
    → 0 < d
    → (m : ℕ) × (ceil_div (suc n) d ≡ suc m) × (m * d < suc n) × (suc n ≤ m * d + d)
ceil_div-predecessor n d h =
    let bounds = ceil_div_bounds (suc n) d h in go (ceil_div (suc n) d) bounds.0 bounds.1
  where
    go :
        (q : ℕ)
        → suc n ≤ q * d
        → q * d < suc n + d
        → (m : ℕ) × (q ≡ suc m) × (m * d < suc n) × (suc n ≤ m * d + d)
    go zero low high = absurd (omega (arith, zero-mul d))
    go (suc m) low high =
        let step : suc m * d ≡ m * d + d = grind arith in (m, refl, omega arith, omega arith)

pub pos-IsCeilNeg : (n d : ℕ) → 0 < d → IsCeilNeg (negsuc n) d (pos (ceil_div (suc n) d))
unfolding scale
pos-IsCeilNeg n d h =
    let (m, same, low, high) = ceil_div-predecessor n d h in
    let step : suc m * d ≡ m * d + d = grind arith in
    let back : pos (suc m) -ℤ pos 1 ≡ pos m = omega int_laws in
    rw (same, back)
      (omega (arith, +ℤ_parts (pos (suc m * d)) (negsuc n), +ℤ_parts (pos (m * d)) (negsuc n)))

ceil_div_fits :
    (n d : ℕ)
    → suc n ≤ i128_half
    → 0 < d
    → ((suc n < i128_half) ⊎ (1 < d))
    → ceil_div (suc n) d < i128_half
ceil_div_fits n d hn h u =
    let (m, same, low, high) = ceil_div-predecessor n d h in
    let grows : m ≤ m * d = grind arith in rw same (ground (arith, double_le m d))

-- For an `i128` and a nonzero `u128` denominator, `signed_ceil_neg_div` returns the ceiling of
-- `-value / denominator`, unless the value is `i128::MIN` and the denominator is one, where it
-- reports exhaustion.
pub signed_ceil_neg_div-IsCeilNeg :
    (value : ℤ) (denominator : ℕ)
    → FitsI128 value
    → 0 < denominator
    → ((neg_part value < i128_half) ⊎ (1 < denominator))
    → (c : ℤ) × (signed_ceil_neg_div value denominator ≡ ok c)
      × IsCeilNeg value denominator c
      × FitsI128 c
unfolding signed_ceil_neg_div checked_i128
signed_ceil_neg_div-IsCeilNeg (pos n) d h hd u =
    (negated (n / d), ground arith, negated-IsCeilNeg n d hd, negated_fits n d h.0)
signed_ceil_neg_div-IsCeilNeg (negsuc n) d h hd u =
    let some_weight : (d == 0) ≡ false = ground arith in
    let fits : ceil_div (suc n) d < i128_half = ceil_div_fits n d h.1 hd u in
    let returned : signed_ceil_neg_div (negsuc n) d ≡ ok (pos (ceil_div (suc n) d)) =
      rw (some_weight, checked_ceil_div-eq-ceil (suc n) d (omega arith), some_weight)
        (ground arith) in
    (pos (ceil_div (suc n) d), returned, pos-IsCeilNeg n d hd, omega arith)
