-- ===== src/Sched/Eevdf/Wide/Product.antt =====
-- crates/thekernel-axsched/src/eevdf_model.rs: the product of two words as a `Wide`.
use thekernel_ax.Prelude.{
  ℕ, zero, suc, ◌+◌, ◌-◌, ◌*◌, ◌/◌, ◌%◌, ◌^◌, ◌<◌, ◌≤◌, ◌≡◌, ◌≢◌, refl, ap, sym, ◌∙◌, false, ◌==◌,
  arith, inl, inr, Bool-cases, lt→ltb,
}
use thekernel_ax.Prelude.Result.{ok}
use thekernel_ax.Sched.Eevdf.Word.{u128_mod}
use thekernel_ax.Sched.Eevdf.Wide.{
  Wide, u64_mod, limb, set_limb, wide_zero, spread_carry, mul_limb, mul_row, wide_mul_u128,
}
use thekernel_ax.Sched.Eevdf.Wide.Value.{value, IsWide}
use native.Mathlib.Nat.{zero-mul}

-- The weight of a limb.
abbrev pub weight : ℕ → ℕ
weight zero = 1
weight (suc zero) = 2 ^ 64
weight (suc (suc zero)) = 2 ^ 128
weight (suc (suc (suc zero))) = 2 ^ 192
weight (suc (suc (suc (suc i)))) = 2 ^ 256

-- Replacing a limb by the low part of a sum, the rest of which moves up.
limb_step :
    (w : Wide) (i sum rest : ℕ)
    → IsWide w
    → i < 4
    → IsWide (set_limb w i (sum % u64_mod))
      × (value (set_limb w i (sum % u64_mod))
            + (rest + sum / u64_mod) * weight (suc i)
            + limb w i * weight i
          ≡ value w + (sum + rest * u64_mod) * weight i)
limb_step w zero sum rest h hi = ground arith
limb_step w (suc zero) sum rest h hi = ground arith
limb_step w (suc (suc zero)) sum rest h hi = ground arith
limb_step w (suc (suc (suc zero))) sum rest h hi = ground arith
limb_step w (suc (suc (suc (suc i)))) sum rest h hi = absurd (omega arith)

pub add_mul : (a b c : ℕ) → (a + b) * c ≡ a * c + b * c
add_mul a b c = grind arith

carry_inside : (w : Wide) (i c : ℕ) → i ≤ 4 → value w + c * weight i < 2 ^ 256 → c ≢ 0 → i < 4
carry_inside w zero c hi fits h = omega arith
carry_inside w (suc zero) c hi fits h = omega arith
carry_inside w (suc (suc zero)) c hi fits h = omega arith
carry_inside w (suc (suc (suc zero))) c hi fits h = omega arith
carry_inside w (suc (suc (suc (suc i)))) c hi fits h = absurd (omega arith)

pub limb_sum :
    (w : Wide) (i sum : ℕ)
    → IsWide w
    → i < 4
    → IsWide (set_limb w i (sum % u64_mod))
      × (value (set_limb w i (sum % u64_mod)) + sum / u64_mod * weight (suc i) + limb w i * weight i
          ≡ value w + sum * weight i)
limb_sum w i sum h hi =
    let step = limb_step w i sum 0 h hi in
    let above : 0 + sum / u64_mod ≡ sum / u64_mod = omega arith in
    let whole : sum + 0 * u64_mod ≡ sum = omega arith in (step.0, rw (above, whole) at step.1)

-- A carry that fits above a limb is added to the number.
pub spread_carry_lem :
    (fuel i c : ℕ) (w : Wide)
    → 4 < fuel + i
    → i ≤ 4
    → IsWide w
    → value w + c * weight i < 2 ^ 256
    → (out : Wide) × (spread_carry fuel i c w ≡ ok out)
      × IsWide out
      × (value out ≡ value w + c * weight i)
unfolding spread_carry
spread_carry_lem zero i c w hf hi h fits = absurd (omega arith)
spread_carry_lem (suc fuel) i c w hf hi h fits = elim (Bool-cases (c == 0)) [
  | inl e ↦
      let nothing : c ≡ 0 = ground arith in
      (w, rw e refl, h, rw (nothing, zero-mul (weight i)) (omega arith))
  | inr e ↦
      let inside : i < 4 = carry_inside w i c hi fits (ground arith) in
      let not_last : (i == 4) ≡ false = ground arith in
      let whole : limb w i + c % u64_mod + c / u64_mod * u64_mod ≡ limb w i + c = omega arith in
      let step = limb_step w i (limb w i + c % u64_mod) (c / u64_mod) h inside in
      let same : value (set_limb w i ((limb w i + c % u64_mod) % u64_mod))
            + (c / u64_mod + (limb w i + c % u64_mod) / u64_mod) * weight (suc i)
          ≡ value w + c * weight i =
        omega (arith, ap (λ (t : ℕ). t * weight i) whole, add_mul (limb w i) c (weight i)) in
      let (out, spread, wide, sum) =
        spread_carry_lem fuel (suc i) (c / u64_mod + (limb w i + c % u64_mod) / u64_mod)
          (set_limb w i ((limb w i + c % u64_mod) % u64_mod)) (omega arith) (omega arith) step.0
          (omega arith) in
      (out, rw (e, not_last) spread, wide, omega arith)
]

-- The largest product of limbs leaves room for a limb and a carry.
pub limb_product : (a b : ℕ) → a < u64_mod → b < u64_mod → a * b + 2 * (u64_mod - 1) < u128_mod
limb_product a b ha hb = let first : a * b ≤ (u64_mod - 1) * b = mul-le (omega arith) in omega arith
  where
    mul-le : a ≤ u64_mod - 1 → a * b ≤ (u64_mod - 1) * b
    mul-le h = grind arith

pub limb_fits : (w : Wide) (i : ℕ) → IsWide w → limb w i < u64_mod
limb_fits w zero h = omega arith
limb_fits w (suc zero) h = omega arith
limb_fits w (suc (suc zero)) h = omega arith
limb_fits w (suc (suc (suc i))) h = omega arith

mul_limb_lem :
    (a b i carry : ℕ) (w : Wide)
    → a < u64_mod
    → b < u64_mod
    → i < 4
    → carry < u64_mod
    → IsWide w
    → (out : Wide × ℕ) × (mul_limb a b i (w, carry) ≡ ok out)
      × IsWide out.0
      × (out.1 < u64_mod)
      × (value out.0 + out.1 * weight (suc i) ≡ value w + (a * b + carry) * weight i)
mul_limb_lem a b i carry w ha hb hi hc h =
    let below = limb_fits w i h in
    let room = limb_product a b ha hb in
    let v = a * b + limb w i + carry in
    let step = limb_sum w i v h hi in
    let product_fits = lt→ltb (a * b) u128_mod (omega arith) in
    let sum_fits = lt→ltb (a * b + limb w i) u128_mod (omega arith) in
    let value_fits = lt→ltb v u128_mod (omega arith) in
    let regroup : v ≡ limb w i + (a * b + carry) = omega arith in
    let scaled = ap (λ (t : ℕ). t * weight i) regroup in
    (
      (set_limb w i (v % u64_mod), v / u64_mod),
      rw (product_fits, sum_fits, value_fits) refl,
      step.0,
      omega arith,
      omega (arith, add_mul (limb w i) (a * b + carry) (weight i)),
    )

pub weight-suc : (i : ℕ) → i < 4 → weight (suc i) ≡ u64_mod * weight i
weight-suc zero h = refl
weight-suc (suc zero) h = refl
weight-suc (suc (suc zero)) h = refl
weight-suc (suc (suc (suc zero))) h = refl
weight-suc (suc (suc (suc (suc i)))) h = absurd (omega arith)

-- A factor of two limbs, times a weight.
pub split_factor :
    (a right x y : ℕ)
    → y ≡ u64_mod * x
    → a * (right % u64_mod) * x + a * (right / u64_mod) * y ≡ a * right * x
split_factor a right x y e =
    let halves : right ≡ right % u64_mod + u64_mod * (right / u64_mod) = omega arith in
    let joined = ap (λ (t : ℕ). a * t * x) halves in rw e (sym joined_lem ∙ sym joined)
  where
    joined_lem :
        a * (right % u64_mod + u64_mod * (right / u64_mod)) * x
        ≡ a * (right % u64_mod) * x + a * (right / u64_mod) * (u64_mod * x)
    joined_lem = grind arith

-- One row of the schoolbook product.
mul_row_lem :
    (a right i : ℕ) (w : Wide)
    → a < u64_mod
    → right < u128_mod
    → i < 2
    → IsWide w
    → value w + a * right * weight i < 2 ^ 256
    → (out : Wide) × (mul_row i a right w ≡ ok out)
      × IsWide out
      × (value out ≡ value w + a * right * weight i)
mul_row_lem a right i w ha hr hi h fits =
    let one_up : i + 1 ≡ suc i = omega arith in
    let two_up : i + 2 ≡ suc (suc i) = omega arith in
    let (first, e, wide, carry, sum) =
      mul_limb_lem a (right % u64_mod) i 0 w ha (omega arith) (omega arith) (omega arith) h in
    let (second, e', wide', carry', sum') =
      mul_limb_lem a (right / u64_mod) (suc i) first.1 first.0 ha (omega arith) (omega arith) carry
        wide in
    let split = split_factor a right (weight i) (weight (suc i)) (weight-suc i (omega arith)) in
    let total : value second.0 + second.1 * weight (suc (suc i)) ≡ value w + a * right * weight i =
      omega (
        arith,
        add_mul (a * (right % u64_mod)) 0 (weight i),
        add_mul (a * (right / u64_mod)) first.1 (weight (suc i)),
      ) in
    let (out, e'', wide'', sum'') =
      spread_carry_lem 5 (suc (suc i)) second.1 second.0 (omega arith) (omega arith) wide'
        (omega arith) in
    (out, rw (e, one_up, e', two_up) e'', wide'', sum'' ∙ total)

product-lt : (a b m n : ℕ) → a < m → b < n → a * b < m * n
product-lt a b m n ha hb =
    let first : a * b ≤ a * n = grind arith in
    let second : a * n < m * n = grind arith in omega arith

-- The product of two words of 128 bits is exact.
pub wide_mul_u128_lem :
    (a b : ℕ)
    → a < u128_mod
    → b < u128_mod
    → (out : Wide) × (wide_mul_u128 a b ≡ ok out) × IsWide out × (value out ≡ a * b)
unfolding wide_mul_u128
wide_mul_u128_lem a b ha hb =
    let bound : a * b < u128_mod * u128_mod = product-lt a b u128_mod u128_mod ha hb in
    let halves : a ≡ a % u64_mod + a / u64_mod * u64_mod = omega arith in
    let joined : a * b ≡ a % u64_mod * b + a / u64_mod * b * u64_mod =
      ap (λ (t : ℕ). t * b) halves ∙ regroup (a % u64_mod) (a / u64_mod) b in
    let (first, e, wide, sum) =
      mul_row_lem (a % u64_mod) b 0 wide_zero (omega arith) hb (omega arith) (omega arith)
        (omega arith) in
    let (out, e', wide', sum') =
      mul_row_lem (a / u64_mod) b 1 first (omega arith) hb (omega arith) wide (omega arith) in
    (out, rw e e', wide', omega arith)
  where
    regroup : (x y b : ℕ) → (x + y * u64_mod) * b ≡ x * b + y * b * u64_mod
    regroup x y b = grind arith
