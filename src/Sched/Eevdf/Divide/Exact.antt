-- ===== src/Sched/Eevdf/Divide/Exact.antt =====
-- crates/thekernel-axsched/src/eevdf_model.rs: the loop of `checked_div_129` against division of
-- numbers.
use thekernel_ax.Prelude.{
  ℕ, zero, suc, ◌+◌, ◌*◌, ◌/◌, ◌%◌, ◌^◌, ◌≤◌, ◌<◌, ◌≡◌, refl, sym, ap, subst, Bool, arith, ltb,
  ◌==◌, if◌then◌else◌, inl, inr, Bool-cases,
}
use thekernel_ax.Prelude.Bits.{bit, bit-eq-div, bit-below, bit-at, bit-lt_two}
use thekernel_ax.Prelude.Result.{Result, err, ok}
use thekernel_ax.Sched.Eevdf.Word.{u128_mod, ModelError, arithmetic_exhausted, invalid_weight}
use thekernel_ax.Sched.Eevdf.Divide.{from_bit, bit_set, div_step, div_loop, checked_div_129}
use thekernel_ax.Sched.Eevdf.Divide.Step.{div_step_lem}
use native.Mathlib.Nat.{
  pow-suc, one-le-pow, div-div-eq-div-mul, le-div_iff_mul-le, div-add-mod', div-eq_of_lt-le,
}

-- The dividend of `checked_div_129`.
abbrev pub wide : Bool → ℕ → ℕ
wide high low = from_bit high * u128_mod + low

-- What a division to a `u128` quotient gives.
abbrev pub quotient_remainder : ℕ → ℕ → Result ModelError (ℕ × ℕ)
quotient_remainder value denominator =
    if ltb (value / denominator) u128_mod
    then ok (value / denominator, value % denominator)
    else err arithmetic_exhausted

-- The same, with the test of the denominator.
abbrev pub divided : ℕ → ℕ → Result ModelError (ℕ × ℕ)
divided value denominator =
    if denominator == 0 then err invalid_weight else quotient_remainder value denominator

-- A quotient and a remainder below the divisor are the quotient and the remainder.
pub div_unique : (v d q r : ℕ) → r < d → v ≡ q * d + r → (v / d ≡ q) × (v % d ≡ r)
div_unique v d q r h e =
    let quotient : v / d ≡ q = div-eq_of_lt-le d (omega arith) (grind arith) in
    (quotient, omega (arith, div-add-mod' v d, ap (λ (t : ℕ). t * d) quotient))

pub from_bit-bit_set : (word position : ℕ) → from_bit (bit_set word position) ≡ bit word position
from_bit-bit_set word position = ground (arith, bit-lt_two word position)

pub from_bit-lt_two : (b : Bool) → from_bit b < 2
from_bit-lt_two b = ground arith

-- The digit that a round reads.
dividend_digit :
    (high : Bool) (low k : ℕ)
    → low < u128_mod
    → k ≤ 128
    → from_bit (if k == 128 then high else bit_set low k) ≡ wide high low / 2 ^ k % 2
dividend_digit high low k hl hk = elim (Bool-cases (k == 128)) [
  | inl e ↦
      let top : k ≡ 128 = ground arith in
      rw e (
        rw top (
          omega (
            arith,
            bit-at 128 (from_bit high) low hl,
            bit-eq-div (wide high low) 128,
            from_bit-lt_two high,
          )))
  | inr e ↦
      let below : k < 128 = ground arith in
      rw e (
        omega (
          arith,
          from_bit-bit_set low k,
          bit-below 128 k (from_bit high) low below,
          bit-eq-div (wide high low) k,
        ))
]

-- A quotient of the leading digits bounds the quotient.
pub prefix-le : (v k d q : ℕ) → 0 < d → q * d ≤ v / 2 ^ k → q * 2 ^ k ≤ v / d
prefix-le v k d q h le =
    let scaled : q * d * 2 ^ k ≤ v = (le-div_iff_mul-le (one-le-pow k 2 (omega arith))).0 le in
    (le-div_iff_mul-le h).1 (grind arith)

le-mul_pow : (q k : ℕ) → q ≤ q * 2 ^ k
le-mul_pow q k = grind (arith, one-le-pow k 2)

-- A round keeps the quotient and the remainder of the digits read so far.
div_step_keeps :
    (v k d q r : ℕ) (b : Bool)
    → r < d
    → q * d + r ≡ v / 2 ^ suc k
    → from_bit b ≡ v / 2 ^ k % 2
    → (q * 2 + from_bit (div_step d r b).0) * d + (div_step d r b).1 ≡ v / 2 ^ k
div_step_keeps v k d q r b h e bit_read =
    let halves : v / 2 ^ suc k ≡ v / 2 ^ k / 2 =
      rw (pow-suc 2 k) (sym (div-div-eq-div-mul v (2 ^ k) 2)) in
    let doubled : (q * 2 + from_bit (div_step d r b).0) * d
        ≡ 2 * (q * d) + from_bit (div_step d r b).0 * d =
      grind arith in
    omega (arith, div_step_lem d r b h)

pub quotient_remainder_exhausted :
    (v d : ℕ) → u128_mod ≤ v / d → quotient_remainder v d ≡ err arithmetic_exhausted
quotient_remainder_exhausted v d h = ground arith

-- Before position 128 no digit has been read that counts.
no_leading_digit :
    (high : Bool) (low d q r : ℕ)
    → low < u128_mod
    → 0 < d
    → q * d + r ≡ wide high low / 2 ^ 129
    → q ≡ 0
no_leading_digit high low d zero r hl hd e = refl
no_leading_digit high low d (suc q) r hl hd e =
    let large : d ≤ suc q * d = grind arith in absurd (omega (arith, from_bit-lt_two high))

div_loop_lem :
    (k : ℕ) (high : Bool) (low d q r : ℕ)
    → k ≤ 129
    → low < u128_mod
    → r < d
    → q < u128_mod
    → q * d + r ≡ wide high low / 2 ^ k
    → div_loop k high low d q r ≡ quotient_remainder (wide high low) d
unfolding div_loop
div_loop_lem zero high low d q r hk hl hr hq e =
    let parts = div_unique (wide high low) d q r hr (omega arith) in
    rw (parts.0, parts.1) (ground arith)
div_loop_lem (suc k) high low d q r hk hl hr hq e =
    let b : Bool = if k == 128 then high else bit_set low k in
    let kept =
      div_step_keeps (wide high low) k d q r b hr e (dividend_digit high low k hl (omega arith)) in
    let small = (div_step_lem d r b hr).0 in
    let bound =
      prefix-le (wide high low) k d (q * 2 + from_bit (div_step d r b).0) (omega arith)
        (omega arith) in
    let later =
      div_loop_lem k high low d (q * 2 + from_bit (div_step d r b).0) (div_step d r b).1 in
    elim (Bool-cases (k == 128)) [
      | inl top ↦
          let at : k ≡ 128 = ground arith in
          let first : q ≡ 0 =
            no_leading_digit high low d q r hl (omega arith)
              (subst (λ (t : ℕ). q * d + r ≡ wide high low / 2 ^ suc t) at e) in
          let bound' : (q * 2 + from_bit (div_step d r b).0) * 2 ^ 128 ≤ wide high low / d =
            subst (λ (t : ℕ). (q * 2 + from_bit (div_step d r b).0) * 2 ^ t ≤ wide high low / d) at
              bound in
          ground (
            arith,
            later (omega arith) hl small (ground arith) kept,
            quotient_remainder_exhausted (wide high low) d,
          )
      | inr below ↦
          let grows : q * 2 + from_bit (div_step d r b).0 ≤ wide high low / d =
            omega (arith, le-mul_pow (q * 2 + from_bit (div_step d r b).0) k) in
          ground (
            arith,
            later (omega arith) hl small,
            quotient_remainder_exhausted (wide high low) d,
            from_bit-lt_two (div_step d r b).0,
          )
    ]

nothing_read : (high : Bool) (low : ℕ) → low < u128_mod → wide high low / 2 ^ 129 ≡ 0
nothing_read high low h = omega (arith, from_bit-lt_two high)

-- `checked_div_129` returns the quotient and the remainder of the 129-bit dividend exactly when the
-- quotient fits a `u128`; it reports exhaustion when it does not, and a zero denominator as an
-- invalid weight.
pub checked_div_129-eq-divided :
    (high : Bool) (low d : ℕ)
    → low < u128_mod
    → checked_div_129 high low d ≡ divided (wide high low) d
unfolding checked_div_129
checked_div_129-eq-divided high low d h =
    ground (arith, div_loop_lem 129 high low d 0 0, nothing_read high low h)
