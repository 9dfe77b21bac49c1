-- ===== src/Sched/Eevdf/Signed/Quantum.antt =====
-- crates/thekernel-axsched/src/eevdf_model.rs: `request_quantum`, and the biased keys.
use thekernel_ax.Prelude.{
  ℕ, zero, suc, ◌+◌, ◌-◌, ◌*◌, ◌≤◌, ◌<◌, ◌≡◌, ◌↔◌, arith, leb, ◌==◌, inl, inr, Bool-cases, false,
  min, leb→le, refl, ◌||◌,
}
use native.Mathlib.Nat.{zero-mul}
use thekernel_ax.Prelude.Int.{ℤ, pos, negsuc, pos_part, neg_part, ◌≤ℤ◌}
use thekernel_ax.Prelude.Xor.{bit_xor-two_pow}
use thekernel_ax.Prelude.Result.{ok}
use thekernel_ax.Sched.Eevdf.Word.{
  u128_mod, i128_half, EevdfProfile, RequestClass, target_ticks, FitsI128,
}
use thekernel_ax.Sched.Eevdf.MulDiv.Round.{
  ceil_div, ceil_div_bounds, checked_mul_div_ceil-eq-ceil, succ_mul,
}
use thekernel_ax.Sched.Eevdf.Signed.{request_quantum, to_u128, to_i128, bias_i128, unbias_i128}

-- The number that a biased key is.
bias_value : (a : ℤ) → FitsI128 a → bias_i128 a + neg_part a ≡ pos_part a + i128_half
unfolding bias_i128 to_u128
bias_value (pos n) h = ground (arith, bit_xor-two_pow 127 n)
bias_value (negsuc n) h = ground (arith, bit_xor-two_pow 127 (u128_mod - suc n))

unbias-bias : (a : ℤ) → FitsI128 a → unbias_i128 (bias_i128 a) ≡ a
unfolding unbias_i128 to_i128
unbias-bias (pos n) h =
    let key : bias_i128 (pos n) ≡ n + i128_half = omega (arith, bias_value (pos n) h) in
    rw key (ground (arith, bit_xor-two_pow 127 (n + i128_half)))
unbias-bias (negsuc n) h =
    let key : bias_i128 (negsuc n) ≡ i128_half - suc n = omega (arith, bias_value (negsuc n) h) in
    rw key (ground (arith, bit_xor-two_pow 127 (i128_half - suc n)))

-- Biased keys of i128 values are u128 words in the order of the values, and turn back.
pub bias_i128-monotone :
    (a b : ℤ)
    → FitsI128 a
    → FitsI128 b
    → (bias_i128 a < u128_mod)
      × (unbias_i128 (bias_i128 a) ≡ a)
      × ((a ≤ℤ b) ↔ (bias_i128 a ≤ bias_i128 b))
bias_i128-monotone a b ha hb =
    let value = bias_value a ha in
    let value' = bias_value b hb in
    (omega arith, unbias-bias a ha, (λ h. omega arith, λ h. omega arith))

pub mul-le_right : (a b n : ℕ) → a ≤ b → a * n ≤ b * n
mul-le_right a b n h = grind arith

pub le_of_mul-lt : (q t n : ℕ) → q * n < t * n + n → q ≤ t
le_of_mul-lt q t n h = elim (Bool-cases (leb q t)) [
  | inl le ↦ leb→le q t le
  | inr more ↦
      let over : (t + 1) * n ≤ q * n = mul-le_right (t + 1) q n (ground arith) in
      absurd (omega (arith, succ_mul t n))
]

pub share-le : (t w n : ℕ) → w < n → 0 < n → ceil_div (t * w) n ≤ t
share-le t w n hw h =
    let bounds = ceil_div_bounds (t * w) n h in
    let shorter : t * w ≤ t * n = grind arith in le_of_mul-lt (ceil_div (t * w) n) t n (omega arith)

pos_of_share : (t w q n : ℕ) → 0 < t → 0 < w → t * w ≤ q * n → 1 ≤ q
pos_of_share t w zero n ht hw h =
    let positive : 0 < t * w = grind arith in absurd (omega (arith, zero-mul n))
pos_of_share t w (suc q) n ht hw h = omega arith

-- For weights and a target that are nonzero u128 words, request_quantum gives the least number of
-- ticks that is no less than the share of the target that the weight, at most the total, has of
-- the total: at least one tick, at most the target, and less than one tick above the share.
pub request_quantum-share :
    (profile : EevdfProfile) (kind : RequestClass) (weight total_weight : ℕ)
    → 0 < target_ticks profile kind
    → target_ticks profile kind < u128_mod
    → 0 < weight
    → weight < u128_mod
    → 0 < total_weight
    → total_weight < u128_mod
    → (q : ℕ) × (request_quantum profile kind weight total_weight ≡ ok q)
      × (1 ≤ q)
      × (q ≤ target_ticks profile kind)
      × (target_ticks profile kind * min weight total_weight ≤ q * total_weight)
      × (q * total_weight < target_ticks profile kind * min weight total_weight + total_weight)
unfolding request_quantum
request_quantum-share profile kind weight total_weight ht ht' hw hw' hn hn' =
    let target = target_ticks profile kind in
    let q = ceil_div (target * weight) total_weight in
    let weighed : (weight == 0 || total_weight == 0) ≡ false = ground arith in
    elim (Bool-cases (leb total_weight weight)) [
      | inl large ↦
          let least : min weight total_weight ≡ total_weight = ground arith in
          (
            target,
            rw (weighed, large) refl,
            omega arith,
            omega arith,
            rw least (omega arith),
            rw least (omega arith),
          )
      | inr smaller ↦
          let below : weight < total_weight = ground arith in
          let least : min weight total_weight ≡ weight = omega arith in
          let bounds = ceil_div_bounds (target * weight) total_weight hn in
          let within = share-le target weight total_weight below hn in
          let positive : 1 ≤ q = pos_of_share target weight q total_weight ht hw bounds.0 in
          (
            q,
            rw
                (
                  weighed,
                  smaller,
                  checked_mul_div_ceil-eq-ceil target weight total_weight ht' hw' hn',
                )
                (ground arith),
            positive,
            within,
            rw least (omega arith),
            rw least (omega arith),
          )
    ]
