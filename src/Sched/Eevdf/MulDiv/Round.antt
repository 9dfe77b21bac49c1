-- ===== src/Sched/Eevdf/MulDiv/Round.antt =====
-- crates/thekernel-axsched/src/eevdf_model.rs: the rounding of `checked_ceil_div`,
-- `checked_mul_div_ceil` and `checked_mul_div_round_nearest_even` against rational rounding.
use thekernel_ax.Prelude.{
  ℕ, zero, suc, ◌+◌, ◌-◌, ◌*◌, ◌/◌, ◌%◌, ◌≤◌, ◌<◌, ◌≡◌, refl, arith, ltb, ◌==◌, if◌then◌else◌, inl,
  inr, Bool-cases,
}
use thekernel_ax.Prelude.Result.{Result, err, ok}
use thekernel_ax.Sched.Eevdf.Word.{
  u128_mod, ModelError, arithmetic_exhausted, invalid_weight, checked_ceil_div,
}
use thekernel_ax.Sched.Eevdf.MulDiv.{checked_mul_div_ceil, checked_mul_div_round_nearest_even}
use thekernel_ax.Sched.Eevdf.MulDiv.Exact.{checked_mul_div_rem-eq-divided}
use native.Mathlib.Nat.{div-add-mod', mod-lt, div-eq_of_lt-le}

-- A rounded quotient, where the denominator is no zero and the rounding fits a `u128`.
abbrev pub rounded : ℕ → ℕ → Result ModelError ℕ
rounded denominator value =
    if denominator == 0
    then err invalid_weight
    else if ltb value u128_mod
    then ok value
    else err arithmetic_exhausted

-- The least number whose multiple of the denominator reaches the value.
abbrev pub ceil_div : ℕ → ℕ → ℕ
ceil_div value denominator = (value + (denominator - 1)) / denominator

pub succ_mul : (q d : ℕ) → (q + 1) * d ≡ q * d + d
succ_mul q d = grind arith

pub ceil_div_bounds : (v d : ℕ) → 0 < d → (v ≤ ceil_div v d * d) × (ceil_div v d * d < v + d)
ceil_div_bounds v d h = omega (arith, div-add-mod' (v + (d - 1)) d, mod-lt (v + (d - 1)) h)

le-mul_pos : (q d : ℕ) → 0 < d → q ≤ q * d
le-mul_pos q d h = grind arith

pub ceil_div-eq-quotient :
    (v d : ℕ) → 0 < d → ceil_div v d ≡ (if v % d == 0 then v / d else v / d + 1)
ceil_div-eq-quotient v d h =
    let split = div-add-mod' v d in
    let below : v % d < d = mod-lt v h in
    elim (Bool-cases (v % d == 0)) [
      | inl e ↦ rw e (div-eq_of_lt-le d (ground arith) (ground (arith, succ_mul (v / d) d)))
      | inr e ↦ rw e (
          div-eq_of_lt-le d (ground (arith, succ_mul (v / d) d))
            (ground (arith, succ_mul (v / d) d, succ_mul (v / d + 1) d)))
    ]

-- The nearest number to the quotient, and the even one of two that are as near.
abbrev pub nearest_even : ℕ → ℕ → ℕ
nearest_even value denominator =
    if ltb (2 * (value % denominator)) denominator
    then value / denominator
    else if ltb denominator (2 * (value % denominator))
    then value / denominator + 1
    else value / denominator + value / denominator % 2

-- For `u128` operands `checked_ceil_div` rounds up, and only a zero denominator is refused.
pub checked_ceil_div-eq-ceil :
    (n d : ℕ)
    → n < u128_mod
    → checked_ceil_div n d ≡ (if d == 0 then err invalid_weight else ok (ceil_div n d))
unfolding checked_ceil_div
checked_ceil_div-eq-ceil n d h = elim (Bool-cases (d == 0)) [
  | inl e ↦ rw e refl
  | inr e ↦
      let grows : n / d ≤ n / d * d = le-mul_pos (n / d) d (ground arith) in
      rw (e, ceil_div-eq-quotient n d (ground arith)) (ground (arith, div-add-mod' n d))
]

-- For `u128` operands `checked_mul_div_ceil` rounds the exact product's quotient up, and reports
-- exhaustion exactly when the rounded quotient does not fit; a zero denominator is an invalid
-- weight.
pub checked_mul_div_ceil-eq-ceil :
    (a b d : ℕ)
    → a < u128_mod
    → b < u128_mod
    → d < u128_mod
    → checked_mul_div_ceil a b d ≡ rounded d (ceil_div (a * b) d)
unfolding checked_mul_div_ceil
checked_mul_div_ceil-eq-ceil a b d ha hb hd =
    rw (checked_mul_div_rem-eq-divided a b d ha hb hd) (elim (Bool-cases (d == 0)) [
      | inl e ↦ rw e refl
      | inr e ↦ rw (e, ceil_div-eq-quotient (a * b) d (ground arith)) (ground arith)
    ])

-- For `u128` operands the rounding to nearest gives the number nearest to the exact quotient of the
-- product, the even one on a tie, and reports exhaustion exactly when that does not fit; a zero
-- denominator is an invalid weight.
pub checked_mul_div_round-eq-nearest :
    (a b d : ℕ)
    → a < u128_mod
    → b < u128_mod
    → d < u128_mod
    → checked_mul_div_round_nearest_even a b d ≡ rounded d (nearest_even (a * b) d)
unfolding checked_mul_div_round_nearest_even
checked_mul_div_round-eq-nearest a b d ha hb hd =
    rw (checked_mul_div_rem-eq-divided a b d ha hb hd) (elim (Bool-cases (d == 0)) [
      | inl e ↦ rw e refl
      | inr e ↦ rw e (ground (arith, mod-lt (a * b) {m = d}))
    ])

-- The nearest number is within half a unit of the quotient, and an odd one only where it is nearer.
pub nearest_even_bounds :
    (v d : ℕ)
    → 0 < d
    → (2 * (nearest_even v d * d) ≤ 2 * v + d)
      × (2 * v ≤ 2 * (nearest_even v d * d) + d)
      × (nearest_even v d ≤ v / d + 1)
nearest_even_bounds v d h =
    let split = div-add-mod' v d in
    let below : v % d < d = mod-lt v h in
    let up = succ_mul (v / d) d in
    elim (Bool-cases (ltb (2 * (v % d)) d)) [
      | inl low ↦ rw low (ground arith)
      | inr high ↦ elim (Bool-cases (ltb d (2 * (v % d)))) [
        | inl above ↦ rw (high, above) (ground arith)
        | inr tie ↦ rw (high, tie) (tied (v / d) (v / d % 2) v d (omega arith) up (ground arith))
      ]
    ]
  where
    tied :
        (q parity v d : ℕ)
        → parity < 2
        → (q + 1) * d ≡ q * d + d
        → 2 * v ≡ 2 * (q * d) + d
        → (2 * ((q + parity) * d) ≤ 2 * v + d)
          × (2 * v ≤ 2 * ((q + parity) * d) + d)
          × (q + parity ≤ q + 1)
    tied q zero v d hp up e = let same : q + 0 ≡ q = omega arith in rw same (omega arith)
    tied q (suc zero) v d hp up e = omega arith
    tied q (suc (suc parity)) v d hp up e = absurd (omega arith)
