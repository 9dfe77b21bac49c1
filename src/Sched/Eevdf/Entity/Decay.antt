-- ===== src/Sched/Eevdf/Entity/Decay.antt =====
-- crates/thekernel-axsched/src/eevdf_model.rs: the decay of a sleeper's lag.
use thekernel_ax.Prelude.{
  ℕ, zero, suc, ◌+◌, ◌-◌, ◌*◌, ◌≡◌, ◌<◌, ◌≤◌, false, leb, ◌==◌, arith, refl, ◌∙◌, Bool-cases, inl,
  inr, min, lt→ltb,
}
use thekernel_ax.Prelude.Int.{ℤ, pos, negsuc, pos_part, neg_part}
use thekernel_ax.Prelude.Result.{ok, >>=-ok}
use thekernel_ax.Sched.Eevdf.Word.{
  u128_mod, i128_half, EevdfProfile, RequestClass, checked_i128, FitsI128, negated,
}
use thekernel_ax.Sched.Eevdf.MulDiv.{checked_mul_div_ceil}
use thekernel_ax.Sched.Eevdf.MulDiv.Round.{ceil_div, checked_mul_div_ceil-eq-ceil}
use thekernel_ax.Sched.Eevdf.Signed.Exact.{negated_parts}
use thekernel_ax.Sched.Eevdf.Signed.Quantum.{share-le}
use thekernel_ax.Sched.Eevdf.Entity.{
  bounded_sleeper_decay, credit_cap, grace, decay_window, scaled_lag, capped,
}

-- The decayed lag lies between zero and the capped lag.
abbrev pub Between : ℕ → ℤ → ℤ → Type 0
Between limit lag r = (pos_part r ≤ min (pos_part lag) limit) × (neg_part r ≤ neg_part lag)

scaled-word :
    (n rest window : ℕ)
    → rest < window
    → n < u128_mod
    → window < u128_mod
    → checked_mul_div_ceil n rest window ≡ ok (ceil_div (n * rest) window)
scaled-word n rest window h hn hw =
    let within = share-le n rest window h (omega arith) in
    let some_window : (window == 0) ≡ false = ground arith in
    let fits = lt→ltb (ceil_div (n * rest) window) u128_mod (omega arith) in
    checked_mul_div_ceil-eq-ceil n rest window hn (omega arith) hw ∙ rw (some_window, fits) refl

scaled_lag-Between :
    (limit : ℕ) (lag : ℤ) (rest window : ℕ)
    → rest < window
    → window < u128_mod
    → FitsI128 lag
    → (r : ℤ) × (scaled_lag limit lag rest window ≡ ok r) × Between limit lag r
unfolding checked_i128
scaled_lag-Between limit (pos zero) rest window h hw hl = (pos 0, refl, omega arith)
scaled_lag-Between limit (pos (suc n)) rest window h hw hl =
    let within = share-le (suc n) rest window h (omega arith) in
    let some_lag : (suc n == 0) ≡ false = ground arith in
    (
      pos (min (ceil_div (suc n * rest) window) limit),
      rw some_lag (>>=-ok (scaled-word (suc n) rest window h (omega arith) hw) _ (ground arith)),
      omega arith,
    )
scaled_lag-Between limit (negsuc n) rest window h hw hl =
    let within = share-le (suc n) rest window h (omega arith) in
    let parts = negated_parts (ceil_div (suc n * rest) window) in
    (
      negated (ceil_div (suc n * rest) window),
      >>=-ok (scaled-word (suc n) rest window h (omega arith) hw) _ refl,
      omega arith,
    )

capped-Between :
    (limit : ℕ) (lag : ℤ)
    → FitsI128 lag
    → limit < i128_half
    → Between limit lag (capped limit lag) × FitsI128 (capped limit lag)
capped-Between limit lag h hl = ground arith

-- For an elapsed time that is not negative, a lag and a credit cap that are i128 values, and a
-- window that is a u128 word, the decay succeeds: the result has the sign of the lag or is zero,
-- is no larger in magnitude, and a credit is at most the cap; a debt and a capped credit are
-- unchanged within the grace time, and are gone once the window has passed too.
pub bounded_sleeper_decay-Between :
    (profile : EevdfProfile) (kind : RequestClass) (lag : ℤ) (elapsed : ℕ)
    → FitsI128 lag
    → credit_cap profile kind < i128_half
    → decay_window profile < u128_mod
    → (r : ℤ) × (bounded_sleeper_decay profile kind lag (pos elapsed) ≡ ok r)
      × Between (credit_cap profile kind) lag r
      × (elapsed ≤ grace profile → r ≡ capped (credit_cap profile kind) lag)
      × (grace profile + decay_window profile ≤ elapsed → grace profile < elapsed → r ≡ pos 0)
unfolding bounded_sleeper_decay
bounded_sleeper_decay-Between profile kind lag elapsed h hc hw =
    let limit = credit_cap profile kind in
    let window = decay_window profile in
    let beyond = min (elapsed - grace profile) window in
    let (within, fits) = capped-Between limit lag h hc in
    elim (Bool-cases (leb elapsed (grace profile))) [
      | inl early ↦ (capped limit lag, rw early refl, within, (λ h'. refl), λ h' h''. ground arith)
      | inr late ↦ elim (Bool-cases (leb window beyond)) [
        | inl gone ↦
            (pos 0, rw (late, gone) refl, omega arith, (λ h'. ground arith), λ h' h''. refl)
        | inr inside ↦
            let below : beyond < window = ground arith in
            let after : 0 < beyond = ground arith in
            let (r, e, bounds) =
              scaled_lag-Between limit (capped limit lag) (window - beyond) window (omega arith) hw
                fits in
            (r, rw (late, inside) e, omega arith, (λ h'. ground arith), λ h' h''. ground arith)
      ]
    ]
