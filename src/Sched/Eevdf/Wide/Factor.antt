-- ===== src/Sched/Eevdf/Wide/Factor.antt =====
-- crates/thekernel-axsched/src/eevdf_model.rs: the product of a `Wide` and a word.
use thekernel_ax.Prelude.{
  ℕ, suc, ◌+◌, ◌*◌, ◌/◌, ◌%◌, ◌^◌, ◌<◌, ◌≡◌, refl, ◌∙◌, true, false, leb, ◌==◌, arith, lt→ltb,
}
use thekernel_ax.Prelude.Result.{Result, ok, ◌>>=◌, >>=-ok}
use thekernel_ax.Sched.Eevdf.Word.{ModelError, u128_mod}
use thekernel_ax.Sched.Eevdf.Wide.{Wide, u64_mod, limb, set_limb, wide_zero, mul_index, wide_mul}
use thekernel_ax.Sched.Eevdf.Wide.Value.{value, IsWide}
use thekernel_ax.Sched.Eevdf.Wide.Product.{
  weight, add_mul, limb_sum, spread_carry_lem, limb_product, limb_fits, weight-suc, split_factor,
}

==→eq : (m n : ℕ) → (m == n) ≡ true → m ≡ n
==→eq m n h = ground arith

-- A step of the loop of `mul` below the highest limb.
mul_index_lem :
    (w result : Wide) (right i : ℕ)
    → IsWide w
    → right < u128_mod
    → i < 3
    → IsWide result
    → value result + limb w i * right * weight i < 2 ^ 256
    → (out : Wide) × (mul_index w right i result ≡ ok out)
      × IsWide out
      × (value out ≡ value result + limb w i * right * weight i)
mul_index_lem w result right i hw hr hi h fits =
    let a = limb w i in
    let ha = limb_fits w i hw in
    let one_up : i + 1 ≡ suc i = omega arith in
    let two_up : i + 2 ≡ suc (suc i) = omega arith in
    let inner : leb 4 (suc i) ≡ false = ground arith in
    let p = a * (right % u64_mod) + limb result i in
    let room = limb_product a (right % u64_mod) ha (omega arith) in
    let below = limb_fits result i h in
    let low_fits = lt→ltb (a * (right % u64_mod)) u128_mod (omega arith) in
    let p_fits = lt→ltb p u128_mod (omega arith) in
    let room' = limb_product a (right / u64_mod) ha (omega arith) in
    let high_fits = lt→ltb (a * (right / u64_mod)) u128_mod (omega arith) in
    let mid = set_limb result i (p % u64_mod) in
    let step = limb_sum result i p h (omega arith) in
    let below' = limb_fits mid (suc i) step.0 in
    let s = a * (right / u64_mod) + limb mid (suc i) in
    let s_fits = lt→ltb s u128_mod (omega arith) in
    let n = s + p / u64_mod in
    let n_fits = lt→ltb n u128_mod (omega arith) in
    let step' = limb_sum mid (suc i) n step.0 (omega arith) in
    let split = split_factor a right (weight i) (weight (suc i)) (weight-suc i (omega arith)) in
    let total : value (set_limb mid (suc i) (n % u64_mod)) + n / u64_mod * weight (suc (suc i))
        ≡ value result + a * right * weight i =
      omega (
        arith,
        add_mul (a * (right % u64_mod)) (limb result i) (weight i),
        add_mul s (p / u64_mod) (weight (suc i)),
        add_mul (a * (right / u64_mod)) (limb mid (suc i)) (weight (suc i)),
      ) in
    let (out, e, wide, sum) =
      spread_carry_lem 5 (suc (suc i)) (n / u64_mod) (set_limb mid (suc i) (n % u64_mod))
        (omega arith) (omega arith) step'.0 (omega arith) in
    (
      out,
      rw (low_fits, p_fits, high_fits, one_up, inner, s_fits, n_fits, two_up) e,
      wide,
      sum ∙ total,
    )

-- The highest limb takes no carry.
mul_index_last :
    (w result : Wide) (right : ℕ)
    → IsWide w
    → right < u128_mod
    → IsWide result
    → value result + w.limb_3 * right * weight 3 < 2 ^ 256
    → (out : Wide) × (mul_index w right 3 result ≡ ok out)
      × IsWide out
      × (value out ≡ value result + w.limb_3 * right * weight 3)
mul_index_last w result right hw hr h fits =
    let a = w.limb_3 in
    let ha = hw.limb_3_fits in
    let p = a * (right % u64_mod) + result.limb_3 in
    let room = limb_product a (right % u64_mod) ha (omega arith) in
    let room' = limb_product a (right / u64_mod) ha (omega arith) in
    let low_fits = lt→ltb (a * (right % u64_mod)) u128_mod (omega arith) in
    let p_fits = lt→ltb p u128_mod (omega arith) in
    let high_fits = lt→ltb (a * (right / u64_mod)) u128_mod (omega arith) in
    let split = split_factor a right (weight 3) (weight 4) refl in
    let no_high : (a * (right / u64_mod) == 0) ≡ true = ground arith in
    let no_carry : (p / u64_mod == 0) ≡ true = ground arith in
    let step = limb_sum result 3 p h (omega arith) in
    (
      set_limb result 3 (p % u64_mod),
      rw (low_fits, p_fits, high_fits, no_high, no_carry) refl,
      step.0,
      omega (arith, ==→eq _ 0 no_high, ==→eq _ 0 no_carry),
    )

-- A step that returns a word of a given value.
abbrev pub Yields : Result ModelError Wide → ℕ → Type 0
Yields step total = (out : Wide) × (step ≡ ok out) × IsWide out × (value out ≡ total)

pub Yields-bind :
    {v total : ℕ} (step : Result ModelError Wide) (rest : Wide → Result ModelError Wide)
    → Yields step v
    → ((out : Wide) → IsWide out → value out ≡ v → Yields (rest out) total)
    → Yields (step >>= rest) total
Yields-bind step rest (out, e, wide, sum) next =
    let after = next out wide sum in (after.0, >>=-ok e rest after.1, after.2, after.3)

-- A product that is below `2 ^ 256` is exact.
pub wide_mul_lem :
    (w : Wide) (right : ℕ)
    → IsWide w
    → right < u128_mod
    → value w * right < 2 ^ 256
    → Yields (wide_mul w right) (value w * right)
unfolding wide_mul
wide_mul_lem w right hw hr fits =
    let parts : value w * right
        ≡ w.limb_0 * right * weight 0
          + w.limb_1 * right * weight 1
          + w.limb_2 * right * weight 2
          + w.limb_3 * right * weight 3 =
      grind arith in
    Yields-bind (mul_index w right 0 wide_zero) _
      (mul_index_lem w wide_zero right 0 hw hr (omega arith) (omega arith) (omega arith))
      λ r0 wide0 sum0.
        Yields-bind (mul_index w right 1 r0) _
          (mul_index_lem w r0 right 1 hw hr (omega arith) wide0 (omega arith))
          λ r1 wide1 sum1.
            Yields-bind (mul_index w right 2 r1) _
              (mul_index_lem w r1 right 2 hw hr (omega arith) wide1 (omega arith))
              λ r2 wide2 sum2.
                let (out, e, wide, sum) = mul_index_last w r2 right hw hr wide2 (omega arith) in
                (out, e, wide, omega arith)
