-- ===== src/Sched/Eevdf/Clock/Weight.antt =====
-- crates/thekernel-axsched/src/eevdf_model.rs: a clock when the total weight changes.
use thekernel_ax.Prelude.{
  ℕ, ◌+◌, ◌*◌, ◌/◌, ◌≤◌, ◌<◌, ◌≡◌, ◌≢◌, ◌⊎◌, arith, leb, ◌==◌, inl, inr, Bool-cases, lt→ltb, true,
  false, refl, ◌||◌, sym, ◌∙◌,
}
use thekernel_ax.Prelude.Int.{ℤ, pos, pos_part, ◌+ℤ◌, int_laws, +ℤ_parts}
use thekernel_ax.Prelude.Result.{ok}
use thekernel_ax.Sched.Eevdf.Word.{u128_mod, i128_half, FitsI128, fits_i128}
use thekernel_ax.Sched.Eevdf.Signed.Exact.{scale}
use thekernel_ax.Sched.Eevdf.MulDiv.Round.{
  nearest_even, nearest_even_bounds, checked_mul_div_round-eq-nearest,
}
use thekernel_ax.Sched.Eevdf.Clock.{Clock, rescaled, set_total_weight}
use thekernel_ax.Sched.Eevdf.Clock.Work.{IsValid, scale-move}
use native.Mathlib.Nat.{div-lt_iff_lt-mul}

-- The units of the new weight that the residue is rounded to.
abbrev rounded_residue : Clock → ℕ → ℕ
rounded_residue c w = nearest_even (c.remainder * w) c.total_weight

rounded_residue_le :
    (c : Clock) (w : ℕ) → c.remainder < c.total_weight → 0 < w → rounded_residue c w ≤ w
rounded_residue_le c w h hw =
    let less : c.remainder * w < w * c.total_weight = grind arith in
    let quotient : c.remainder * w / c.total_weight < w =
      (div-lt_iff_lt-mul {k = c.total_weight} (omega arith)).1 less in
    omega (arith, nearest_even_bounds (c.remainder * w) c.total_weight (omega arith))

rescaled-exact :
    (c : Clock) (w : ℕ)
    → IsValid c
    → w < u128_mod
    → c.total_weight ≢ 0
    → w ≢ 0
    → c.total_weight ≢ w
    → set_total_weight c w ≡ rescaled c w (rounded_residue c w)
unfolding set_total_weight
rescaled-exact c w valid h weighed weighed' changed =
    let other : (c.total_weight == w) ≡ false = ground arith in
    let both : (c.total_weight == 0 || w == 0) ≡ false = ground arith in
    let in_range : leb c.total_weight c.remainder ≡ false = ground arith in
    let some_weight : (c.total_weight == 0) ≡ false = ground arith in
    let fits =
      lt→ltb (rounded_residue c w) u128_mod
        (omega (arith, rounded_residue_le c w (omega arith) (omega arith))) in
    rw
      (
        other,
        both,
        in_range,
        checked_mul_div_round-eq-nearest c.remainder w c.total_weight (omega arith) h
            valid.weight_fits,
        some_weight,
        fits,
      )
      refl

-- What every change of the weight leaves behind.
abbrev pub Changed : Clock → ℕ → Clock → Type 0
Changed c w d =
    IsValid d
    × (d.total_weight ≡ w)
    × ((d.v ≡ c.v) ⊎ (d.v ≡ c.v +ℤ pos 1))
    × (d.accounted_ticks ≡ c.accounted_ticks)

add-one_fits : (v : ℤ) → FitsI128 v → pos_part v + 1 < i128_half → FitsI128 (v +ℤ pos 1)
unfolding ◌+ℤ◌
add-one_fits v h room = ground arith

rescaled-Changed :
    (c : Clock) (w n : ℕ)
    → IsValid c
    → w < u128_mod
    → 0 < w
    → n ≤ w
    → pos_part c.v + 1 < i128_half
    → (d : Clock) × (rescaled c w n ≡ ok d) × Changed c w d
rescaled-Changed c w n valid h hw hn room = elim (Bool-cases (n == w)) [
  | inl full ↦
      let parts = +ℤ_parts c.v (pos 1) in
      let fits : FitsI128 (c.v +ℤ pos 1) = add-one_fits c.v valid.v_fits room in
      let tested : fits_i128 (c.v +ℤ pos 1) ≡ true = ground (arith, fits) in
      (
        record c { v = c.v +ℤ pos 1; remainder = 0; total_weight = w },
        rw (full, tested) refl,
        (ground (arith, fits), refl, inr refl, refl),
      )
  | inr less ↦
      let below = lt→ltb n w (ground arith) in
      (
        record c { remainder = n; total_weight = w },
        rw (less, below) refl,
        (ground arith, refl, inl refl, refl),
      )
]

-- A valid clock whose virtual time can still grow by one takes any total weight that is a u128
-- word: it stays valid, has the new weight, and its virtual time is kept or grows by one; its tick
-- counter is unchanged.
pub set_total_weight-IsValid :
    (c : Clock) (w : ℕ)
    → IsValid c
    → w < u128_mod
    → pos_part c.v + 1 < i128_half
    → (d : Clock) × (set_total_weight c w ≡ ok d) × Changed c w d
unfolding set_total_weight
set_total_weight-IsValid c w valid h room = elim (Bool-cases (c.total_weight == w)) [
  | inl same ↦ elim (Bool-cases (w == 0)) [
    | inl empty ↦ (
      record c { remainder = 0 },
      rw (same, empty) refl,
      (ground arith, ground arith, inl refl, refl),
    )
    | inr some_weight ↦ (c, rw (same, some_weight) refl, (valid, ground arith, inl refl, refl))
  ]
  | inr changed ↦ elim (Bool-cases (c.total_weight == 0 || w == 0)) [
    | inl empty ↦ (
      record c { total_weight = w; remainder = 0 },
      rw (changed, empty) refl,
      (ground arith, refl, inl refl, refl),
    )
    | inr both ↦
        let below : c.remainder < c.total_weight = ground arith in
        let positive : 0 < w = ground arith in
        let (d, stored, facts) =
          rescaled-Changed c w (rounded_residue c w) valid h positive
            (rounded_residue_le c w below positive) room in
        (
          d,
          rescaled-exact c w valid h (λ z. ground arith) (λ z. ground arith) (λ z. ground arith)
              ∙ stored,
          facts,
        )
  ]
]

rescaled-value :
    (c d : Clock) (w n : ℕ)
    → rescaled c w n ≡ ok d
    → scale d.v w +ℤ pos d.remainder ≡ scale c.v w +ℤ pos n
rescaled-value c d w n e = elim (Bool-cases (n == w)) [
  | inl full ↦
      let whole : n ≡ w = ground arith in
      let moved : d.v ≡ c.v +ℤ pos 1 = ground arith in
      let rest : d.remainder ≡ 0 = ground arith in
      rw (moved, rest, scale-move c.v 1 w, whole) (omega int_laws)
  | inr less ↦
      let stay : d.v ≡ c.v = ground arith in
      let rest : d.remainder ≡ n = ground arith in rw (stay, rest) refl
]

-- Between weights that are u128 words and not zero, a successful change of a valid clock's weight
-- moves its fraction by at most half a unit of the new weight: in units of the new weight, the
-- virtual time and the residue grow together by a number that is within one half of the exact
-- residue.
pub set_total_weight-rounds :
    (c d : Clock) (w : ℕ)
    → IsValid c
    → w < u128_mod
    → c.total_weight ≢ 0
    → w ≢ 0
    → set_total_weight c w ≡ ok d
    → (units : ℕ) × (scale d.v w +ℤ pos d.remainder ≡ scale c.v w +ℤ pos units)
      × (2 * (units * c.total_weight) ≤ 2 * (c.remainder * w) + c.total_weight)
      × (2 * (c.remainder * w) ≤ 2 * (units * c.total_weight) + c.total_weight)
unfolding set_total_weight
set_total_weight-rounds c d w valid h weighed weighed' e = elim (Bool-cases (c.total_weight == w)) [
  | inl same ↦
      let equal : c.total_weight ≡ w = ground arith in
      let kept : d ≡ c = ground arith in
      (c.remainder, rw kept refl, rw equal (omega arith), rw equal (omega arith))
  | inr changed ↦
      let n = rounded_residue c w in
      let bounds = nearest_even_bounds (c.remainder * w) c.total_weight (omega arith) in
      let stored : rescaled c w n ≡ ok d =
        sym (rescaled-exact c w valid h weighed weighed' (λ z. ground arith)) ∙ e in
      (n, rescaled-value c d w n stored, bounds.0, bounds.1)
]
