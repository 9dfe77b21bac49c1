-- ===== src/Sched/Eevdf/Entity/Eligible.antt =====
-- crates/thekernel-axsched/src/eevdf_model.rs: when an entity is eligible.
use thekernel_ax.Prelude.{ℕ, suc, ◌-◌, ◌≡◌, ◌<◌, false, ◌==◌, if◌then◌else◌, arith, ap}
use native.Mathlib.Nat.{zero-mul}
use thekernel_ax.Prelude.Int.{ℤ, pos, negsuc, ◌+ℤ◌, ◌-ℤ◌, ◌≤ℤ◌, leb_ℤ, int_laws}
use thekernel_ax.Prelude.Result.{ok, ◌>>=◌, >>=-eq-ok}
use thekernel_ax.Sched.Eevdf.Word.{u128_mod, checked_ceil_div, checked_i128, add_i128, FitsI128}
use thekernel_ax.Sched.Eevdf.MulDiv.Round.{ceil_div, checked_ceil_div-eq-ceil}
use thekernel_ax.Sched.Eevdf.Signed.Exact.{scale, pos-IsCeilNeg}
use thekernel_ax.Sched.Eevdf.Entity.{Entity, eligible_at, debt_offset}

-- The lag at a virtual time, without a bound.
abbrev pub lag_line : Entity → ℤ → ℤ
lag_line e v = e.lag +ℤ scale (v -ℤ e.lag_stamp) e.weight

+ℤ_comm : (a b : ℤ) → a +ℤ b ≡ b +ℤ a
+ℤ_comm a b = omega int_laws

scale-zero : (w : ℕ) → scale (pos 0) w ≡ pos 0
unfolding scale
scale-zero w = ap pos (zero-mul w)

debt_lem :
    (n w : ℕ)
    → 0 < w
    → n < u128_mod - 1
    → (t : ℤ) → debt_offset (negsuc n) w ≡ ok t
    → t ≡ pos (ceil_div (suc n) w)
unfolding checked_i128
debt_lem n w hw hn t e =
    let some_weight : (w == 0) ≡ false = ground arith in
    let quotient = checked_ceil_div-eq-ceil (suc n) w (omega arith) in
    ground (arith, >>=-eq-ok (checked_ceil_div (suc n) w) checked_i128 e)

-- The first time at which a debt is paid.
first_lem :
    (n w : ℕ) (stamp t : ℤ)
    → 0 < w
    → n < u128_mod - 1
    → (debt_offset (negsuc n) w >>= λ offset. add_i128 stamp offset) ≡ ok t
    → (pos 0 ≤ℤ negsuc n +ℤ scale (t -ℤ stamp) w)
      × (negsuc n +ℤ scale (t -ℤ pos 1 -ℤ stamp) w ≤ℤ negsuc 0)
first_lem n w stamp t hw hn r =
    let (offset, paid, added) = >>=-eq-ok (debt_offset (negsuc n) w) _ r in
    let quotient = debt_lem n w hw hn offset paid in
    let first : t ≡ stamp +ℤ offset = ground arith in
    let back : t -ℤ stamp ≡ pos (ceil_div (suc n) w) = rw (first, quotient) (omega int_laws) in
    let before : t -ℤ pos 1 -ℤ stamp ≡ pos (ceil_div (suc n) w) -ℤ pos 1 =
      rw (first, quotient) (omega int_laws) in
    let bounds = pos-IsCeilNeg n w hw in
    (
      rw back (rw (+ℤ_comm (negsuc n) (scale (pos (ceil_div (suc n) w)) w)) bounds.0),
      rw before (rw (+ℤ_comm (negsuc n) (scale (pos (ceil_div (suc n) w) -ℤ pos 1) w)) bounds.1),
    )

eligible_lem :
    (lag stamp : ℤ) (w : ℕ) (t : ℤ)
    → FitsI128 lag
    → 0 < w
    → (if leb_ℤ (pos 0) lag
        then ok stamp
        else (debt_offset lag w >>= λ offset. add_i128 stamp offset))
      ≡ ok t
    → (pos 0 ≤ℤ lag +ℤ scale (t -ℤ stamp) w)
      × (pos 0 ≤ℤ lag → t ≡ stamp)
      × (lag ≤ℤ negsuc 0 → lag +ℤ scale (t -ℤ pos 1 -ℤ stamp) w ≤ℤ negsuc 0)
eligible_lem (pos n) stamp w t h hw r =
    let same : t ≡ stamp = ground arith in
    let nothing : t -ℤ stamp ≡ pos 0 = rw same (omega int_laws) in
    let still : scale (pos 0) w ≡ pos 0 = scale-zero w in
    (rw (nothing, still) (omega int_laws), (λ h'. same), λ h'. absurd (omega arith))
eligible_lem (negsuc n) stamp w t h hw r =
    let in_debt : leb_ℤ (pos 0) (negsuc n) ≡ false = ground arith in
    let (paid, before) = first_lem n w stamp t hw (omega arith) (rw in_debt at r) in
    (paid, (λ h'. absurd (omega arith)), λ h'. before)

-- For an entity with a weight and a lag that is an i128, a time that eligible_at returns is the
-- stamp where there is no debt, and otherwise the first virtual time at which the lag line is not
-- below zero.
pub eligible_at-IsFirst :
    (e : Entity) (t : ℤ)
    → FitsI128 e.lag
    → 0 < e.weight
    → eligible_at e ≡ ok t
    → (pos 0 ≤ℤ lag_line e t)
      × (pos 0 ≤ℤ e.lag → t ≡ e.lag_stamp)
      × (e.lag ≤ℤ negsuc 0 → lag_line e (t -ℤ pos 1) ≤ℤ negsuc 0)
unfolding eligible_at
eligible_at-IsFirst e t h hw r =
    let some_weight : (e.weight == 0) ≡ false = ground arith in
    eligible_lem e.lag e.lag_stamp e.weight t h hw (rw some_weight at r)
