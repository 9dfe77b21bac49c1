-- ===== src/Sched/Eevdf/Request/Service.antt =====
-- crates/thekernel-axsched/src/eevdf_model.rs: `Request::next_after_service`, `consume`,
-- `consume_work` and `consume_work_up_to`.
use Prim.Native.Nat.{lt}
use thekernel_ax.Prelude.{
  ℕ, ◌-◌, ◌*◌, ◌/◌, ◌%◌, Bool, true, false, not, ◌&&◌, ltb, ◌==◌, if◌then◌else◌,
}
use thekernel_ax.Prelude.Result.{Result, err, ok, ◌>>=◌, ◌>>◌}
use thekernel_ax.Sched.Eevdf.Word.{
  u128_mod, one_unit, nice_0, ModelError, invalid_state, mul_u128, unsigned_abs,
}
use thekernel_ax.Sched.Eevdf.MulDiv.{checked_mul_div_rem}
use thekernel_ax.Sched.Eevdf.Signed.{checked_work}
use thekernel_ax.Sched.Eevdf.Wide.{
  Wide, wide_cmp, wide_mul_u128, wide_wrapping_sub, rem_u128, div_exact_u128, low_u128,
}
use thekernel_ax.Sched.Eevdf.Ratio.{gcd_u128}
use thekernel_ax.Sched.Eevdf.Request.{Request, exact_valid, set_fraction}

-- The common factor that a wide difference shares with the divisors' one.
abbrev pub wide_gcd : Wide → ℕ → Result ModelError ℕ
wide_gcd difference denominator_gcd =
    if denominator_gcd == 1
    then ok 1
    else rem_u128 difference denominator_gcd >>= λ left_mod. ok (gcd_u128 left_mod denominator_gcd)

-- The reduced numerator and the common factor, where a product is no `u128`.
abbrev pub wide_numerator : Wide → Wide → ℕ → Result ModelError (ℕ × ℕ)
wide_numerator left right denominator_gcd =
    if elim (wide_cmp left right) [ lt ↦ true | _ ↦ false ]
    then err invalid_state
    else wide_gcd (wide_wrapping_sub left right) denominator_gcd >>= λ reduced_gcd.
        div_exact_u128 (wide_wrapping_sub left right) reduced_gcd >>= λ quotient.
        low_u128 quotient >>= λ numerator. ok (numerator, reduced_gcd)

-- The reduced numerator of `num * right_den - service_num * left_den`, and its factor.
abbrev pub next_numerator : ℕ → ℕ → ℕ → ℕ → ℕ → Result ModelError (ℕ × ℕ)
next_numerator num right_den service_num left_den denominator_gcd =
    if ltb (num * right_den) u128_mod && ltb (service_num * left_den) u128_mod
    then if ltb (num * right_den) (service_num * left_den)
      then err invalid_state
      else (let numerator = num * right_den - service_num * left_den in
          let reduced_gcd = gcd_u128 numerator denominator_gcd in
          ok (numerator / reduced_gcd, reduced_gcd))
    else wide_mul_u128 num right_den >>= λ left.
        wide_mul_u128 service_num left_den >>= λ right. wide_numerator left right denominator_gcd

-- From the service fraction in lowest terms on.
abbrev pub subtract_service : Request → ℕ → ℕ → Result ModelError Request
subtract_service r service_num service_den =
    let denominator_gcd = gcd_u128 r.remaining_fraction_den service_den in
    let left_den = r.remaining_fraction_den / denominator_gcd in
    let right_den = service_den / denominator_gcd in
    next_numerator r.remaining_fraction_num right_den service_num left_den denominator_gcd
    >>= λ next. mul_u128 left_den (denominator_gcd / next.1) >>= λ partial.
        mul_u128 partial right_den >>= λ denominator. set_fraction r next.0 denominator

-- After the comparison of the service with what remains.
abbrev pub serve : Request → ℕ → ℕ → Bool → ℕ × ℕ → Result ModelError Request
serve r service_ticks service_den saturating (remaining_service, remaining_remainder) =
    if ltb remaining_service service_ticks
    then if saturating then set_fraction r 0 1 else err invalid_state
    else if (service_ticks == remaining_service) && (remaining_remainder == 0)
    then set_fraction r 0 1
    else if service_ticks == 0
    then ok r
    else subtract_service r (service_ticks / gcd_u128 service_ticks service_den)
        (service_den / gcd_u128 service_ticks service_den)

unfoldable pub next_after_service : Request → ℕ → Bool → Result ModelError Request
next_after_service r work saturating =
    exact_valid r
    >> (if not (work % nice_0 == 0)
        then err invalid_state
        else mul_u128 r.q one_unit >>= λ service_den.
            checked_mul_div_rem r.remaining_fraction_num service_den r.remaining_fraction_den
            >>= λ remaining. serve r (work / nice_0) service_den saturating remaining)

unfoldable pub consume_work : Request → ℕ → Result ModelError Request
unfolding next_after_service
consume_work r work = next_after_service r work false

unfoldable pub consume_work_up_to : Request → ℕ → Result ModelError Request
unfolding next_after_service
consume_work_up_to r work = next_after_service r work true

unfoldable pub consume : Request → ℕ → Result ModelError Request
unfolding consume_work_up_to
consume r ticks =
    if ltb r.remaining_ticks ticks
    then err invalid_state
    else checked_work ticks >>= λ work. consume_work_up_to r (unsigned_abs work)
