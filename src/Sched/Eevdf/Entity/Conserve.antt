-- ===== src/Sched/Eevdf/Entity/Conserve.antt =====
-- crates/thekernel-axsched/src/eevdf_model.rs: the work that `Entity::service` accounts.
use thekernel_ax.Prelude.{
  ℕ, ◌+◌, ◌*◌, ◌≡◌, ◌≢◌, ◌<◌, false, ◌&&◌, leb, ◌==◌, arith, refl, sym, ◌∙◌, Bool-cases, inl, inr,
}
use thekernel_ax.Prelude.Int.{ℤ, pos, ◌+ℤ◌, ◌-ℤ◌, int_laws}
use thekernel_ax.Prelude.Result.{ok, >>=-cases}
use thekernel_ax.Sched.Eevdf.Word.{
  u128_mod, one_unit, nice_0, work_unit, add_u128, mul_u128, sub_i128, checked_i128, unsigned_abs,
}
use thekernel_ax.Sched.Eevdf.Signed.{checked_work, checked_lag_at}
use thekernel_ax.Sched.Eevdf.Signed.Exact.{scale, fitted, checked_lag_at-eq-linear}
use thekernel_ax.Sched.Eevdf.Clock.{Clock, preview_work_with_ticks}
use thekernel_ax.Sched.Eevdf.Clock.Work.{
  IsValid, advanced-conserves, preview_work_with_ticks-eq-advanced,
}
use thekernel_ax.Sched.Eevdf.Request.Service.{consume_work_up_to}
use thekernel_ax.Sched.Eevdf.Entity.{Entity, is_sleeping}
use thekernel_ax.Sched.Eevdf.Entity.Eligible.{lag_line}
use thekernel_ax.Sched.Eevdf.Entity.Service.{service, commit_service}

-- A lag that is computed lies on the line.
lag_on_line :
    (lag stamp : ℤ) (w : ℕ) (v out : ℤ)
    → checked_lag_at lag stamp w v ≡ ok out
    → out ≡ lag +ℤ scale (v -ℤ stamp) w
lag_on_line lag stamp w v out e =
    let linear = sym (checked_lag_at-eq-linear lag stamp w v) ∙ e in
    elim (Bool-cases (w == 0)) [
      | inl e' ↦ absurd (ground (arith, rw e' at linear))
      | inr e' ↦ >>=-cases (fitted (v -ℤ stamp)) _ (rw e' at linear) λ delta fits r1.
          >>=-cases (fitted (scale delta w)) _ r1 λ change fits' r2.
            let moved : delta ≡ v -ℤ stamp = ground arith in
            let scaled : change ≡ scale delta w = ground arith in
            let last : out ≡ lag +ℤ change = ground arith in rw (last, scaled, moved) refl
    ]

-- What a committed service of some work leaves.
abbrev pub Served : Entity → Clock → ℕ → ℕ → Entity → Clock → Type 0
Served e c work ticks e' c' =
    IsValid c'
    × (scale c'.v c.total_weight +ℤ pos c'.remainder
        ≡ scale c.v c.total_weight +ℤ pos (c.remainder + work))
    × (c'.total_weight ≡ c.total_weight)
    × (c'.accounted_ticks ≡ c.accounted_ticks + ticks)
    × (e'.lag_stamp ≡ c'.v)
    × (e'.lag +ℤ pos work ≡ lag_line e c'.v)

commit-Served :
    (e e' : Entity) (c c' : Clock) (ticks work : ℕ) (delta : ℤ)
    → IsValid c
    → c.total_weight ≢ 0
    → work < u128_mod
    → commit_service e c ticks work ≡ ok (e', c', delta)
    → Served e c work ticks e' c'
unfolding checked_i128
commit-Served e e' c c' ticks work delta valid weighed h r =
    >>=-cases (preview_work_with_ticks c work ticks) _ r λ a previewed r1.
      >>=-cases (checked_lag_at e.lag e.lag_stamp e.weight a.v) _ r1 λ lag on_line r2.
        >>=-cases (checked_i128 work) _ r2 λ charge charged r3.
          >>=-cases (sub_i128 lag charge) _ r3 λ next_lag subtracted r4.
            >>=-cases (consume_work_up_to e.request work) _ r4 λ request consumed r5.
              let facts = advanced-conserves c work ticks a weighed (
                sym (preview_work_with_ticks-eq-advanced c work ticks valid weighed h)
                ∙ previewed) in
              let line = lag_on_line e.lag e.lag_stamp e.weight a.v lag on_line in
              let amount : charge ≡ pos work = ground arith in
              let rest : next_lag ≡ lag -ℤ charge = ground arith in
              let lag' : e'.lag ≡ lag -ℤ charge = ground arith in
              let stamp' : e'.lag_stamp ≡ a.v = ground arith in
              let v' : c'.v ≡ a.v = ground arith in
              let rest' : c'.remainder ≡ a.remainder = ground arith in
              let weight' : c'.total_weight ≡ c.total_weight = ground arith in
              let ticks' : c'.accounted_ticks ≡ a.accounted_ticks = ground arith in
              let keeps : IsValid c' = ground (arith, facts, valid) in
              (
                keeps,
                rw (v', rest') facts.2,
                weight',
                ticks' ∙ facts.3,
                stamp' ∙ sym v',
                rw (lag', v', amount, line) (omega int_laws),
              )

work_lem : (ticks : ℕ) (whole : ℤ) → checked_work ticks ≡ ok whole → whole ≡ pos (ticks * work_unit)
unfolding checked_work checked_i128
work_lem ticks whole e = ground arith

-- The work of ticks and of a fraction of a tick.
abbrev pub service_work : ℕ → ℕ → ℕ
service_work ticks fraction_q = ticks * work_unit + fraction_q * nice_0

-- A service of some work that succeeds on a valid clock with weight accounts one amount of work,
-- that of its ticks and its fraction, in both places: the clock's virtual time in units of the
-- total weight and its residue grow together by it, and the entity's lag is the lag line at the
-- new virtual time less it; the clock stays valid, its weight is unchanged, and its tick counter
-- grows by the whole ticks.
pub service-Served :
    (e e' : Entity) (c c' : Clock) (ticks fraction_q : ℕ) (delta : ℤ)
    → IsValid c
    → c.total_weight ≢ 0
    → 0 < ticks + fraction_q
    → service e c ticks fraction_q ≡ ok (e', c', delta)
    → Served e c (service_work ticks fraction_q) ticks e' c'
unfolding service
service-Served e e' c c' ticks fraction_q delta valid weighed some_service r =
    let in_tick : leb one_unit fraction_q ≡ false = ground arith in
    let busy : ((ticks == 0) && (fraction_q == 0)) ≡ false = ground arith in
    let weighed' : (e.weight == 0) ≡ false = ground arith in
    let awake : is_sleeping e ≡ false = ground arith in
    >>=-cases (checked_work ticks) _ (rw (in_tick, busy, weighed', awake) at r)
      λ whole converted r1. >>=-cases (mul_u128 fraction_q nice_0) _ r1 λ part scaled r2.
        >>=-cases (add_u128 (unsigned_abs whole) part) _ r2 λ work summed r3.
          let whole' : whole ≡ pos (ticks * work_unit) = work_lem ticks whole converted in
          let part' : part ≡ fraction_q * nice_0 = ground arith in
          let total : work ≡ unsigned_abs whole + part = ground arith in
          let total' : work ≡ service_work ticks fraction_q = rw (total, whole', part') refl in
          let fits : work < u128_mod = ground arith in
          rw (← total') (commit-Served e e' c c' ticks work delta valid weighed fits r3)
