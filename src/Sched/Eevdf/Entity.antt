-- ===== src/Sched/Eevdf/Entity.antt =====
-- crates/thekernel-axsched/src/eevdf_model.rs: `Entity`, its lag, its service and its sleep, and
-- the decay of a sleeper's lag. A method returns what it changes; an error changes nothing.
pub mod Decay
pub mod Eligible
pub mod Service
pub mod Conserve
pub mod Reconfigure
pub mod Migration
use thekernel_ax.Prelude.{
  ℕ, suc, ◌-◌, ◌*◌, Bool, true, false, leb, ◌==◌, if◌then◌else◌, Option, none, some, min,
}
use thekernel_ax.Prelude.Int.{ℤ, pos, negsuc, leb_ℤ, ltb_ℤ}
use thekernel_ax.Prelude.Result.{Result, err, ok, ◌>>=◌}
use thekernel_ax.Sched.Eevdf.Word.{
  EevdfProfile, RequestClass, target_ticks, one_unit, work_unit, ModelError, invalid_weight,
  invalid_state, add_i128, sub_i128, checked_i128, checked_ceil_div, unsigned_abs, negated,
}
use thekernel_ax.Sched.Eevdf.MulDiv.{checked_mul_div_ceil}
use thekernel_ax.Sched.Eevdf.Signed.{checked_lag_at}
use thekernel_ax.Sched.Eevdf.Clock.{Clock, jump_to}
use thekernel_ax.Sched.Eevdf.Request.{Request, new_request, yielded}

-- `credit_cap`, `GRACE` and `DECAY_WINDOW`.
abbrev pub credit_cap : EevdfProfile → RequestClass → ℕ
credit_cap profile kind = target_ticks profile kind * work_unit

abbrev pub grace : EevdfProfile → ℕ
grace profile = profile.sleeper_grace_ticks * one_unit

abbrev pub decay_window : EevdfProfile → ℕ
decay_window profile = profile.sleeper_decay_ticks * one_unit

abbrev pub capped : ℕ → ℤ → ℤ
capped limit lag = if ltb_ℤ (pos limit) lag then pos limit else lag

-- The share of the lag that is left after a part of the window.
abbrev pub scaled_lag : ℕ → ℤ → ℕ → ℕ → Result ModelError ℤ
scaled_lag limit (pos n) remaining window =
    if n == 0
    then ok (pos 0)
    else checked_mul_div_ceil n remaining window >>= λ scaled. checked_i128 (min scaled limit)
scaled_lag limit (negsuc n) remaining window =
    checked_mul_div_ceil (suc n) remaining window >>= λ scaled. ok (negated scaled)

unfoldable pub bounded_sleeper_decay : EevdfProfile → RequestClass → ℤ → ℤ → Result ModelError ℤ
bounded_sleeper_decay profile kind lag (negsuc n) = err invalid_state
bounded_sleeper_decay profile kind lag (pos elapsed) =
    let limit = credit_cap profile kind in
    let beyond = min (elapsed - grace profile) (decay_window profile) in
    if leb elapsed (grace profile)
    then ok (capped limit lag)
    else if leb (decay_window profile) beyond
    then ok (pos 0)
    else scaled_lag limit (capped limit lag) (decay_window profile - beyond) (decay_window profile)

pub record Entity : Type 0 where
  pub kind : RequestClass
  pub weight : ℕ
  pub lag : ℤ
  pub lag_stamp : ℤ
  pub request : Request
  pub sleeper_v : Option ℤ

abbrev pub is_sleeping : Entity → Bool
is_sleeping e = elim e.sleeper_v [ none ↦ false | some slept_at ↦ true ]

unfoldable pub with_lag : EevdfProfile → RequestClass → ℕ → ℕ → ℤ → ℤ → Result ModelError Entity
with_lag profile kind weight total_weight v lag =
    new_request profile kind weight total_weight v lag >>= λ request. ok (record {
      kind = kind;
      weight = weight;
      lag = lag;
      lag_stamp = v;
      request = request;
      sleeper_v = none;
    })

unfoldable pub lag_at : Entity → ℤ → Result ModelError ℤ
lag_at e v =
    if e.weight == 0
    then err invalid_weight
    else if is_sleeping e
    then ok e.lag
    else checked_lag_at e.lag e.lag_stamp e.weight v

unfoldable pub materialize : Entity → ℤ → Result ModelError Entity
unfolding lag_at
materialize e v =
    lag_at e v >>= λ next. ok (if is_sleeping e then e else record e { lag = next; lag_stamp = v })

-- The rounded time that a negative lag takes to be paid.
abbrev pub debt_offset : ℤ → ℕ → Result ModelError ℤ
debt_offset lag weight =
    checked_ceil_div (unsigned_abs lag) weight >>= λ offset. checked_i128 offset

unfoldable pub eligible_at : Entity → Result ModelError ℤ
eligible_at e =
    if e.weight == 0
    then err invalid_weight
    else if leb_ℤ (pos 0) e.lag
    then ok e.lag_stamp
    else debt_offset e.lag e.weight >>= λ offset. add_i128 e.lag_stamp offset

unfoldable pub is_eligible : Entity → ℤ → Result ModelError Bool
unfolding lag_at
is_eligible e v = lag_at e v >>= λ lag. ok (leb_ℤ (pos 0) lag)

unfoldable pub jump_to_eligibility : Clock → Entity → Result ModelError Clock
unfolding eligible_at
jump_to_eligibility c e = eligible_at e >>= λ v. jump_to c v

unfoldable pub renew : EevdfProfile → Entity → ℕ → ℤ → Result ModelError Entity
unfolding lag_at
renew profile e total_weight v =
    if is_sleeping e
    then err invalid_state
    else lag_at e v >>= λ lag. new_request profile e.kind e.weight total_weight v lag >>= λ next.
        ok (record e { lag = lag; lag_stamp = v; request = next })

unfoldable pub yield_request : EevdfProfile → Entity → ℕ → ℤ → Result ModelError Entity
unfolding lag_at
yield_request profile e total_weight v =
    if is_sleeping e
    then err invalid_state
    else lag_at e v >>= λ lag. yielded profile e.request e.weight total_weight v lag >>= λ next.
        ok (record e { lag = lag; lag_stamp = v; request = next })

abbrev pub preempt_request : Entity → Result ModelError Entity
preempt_request e = if is_sleeping e then err invalid_state else ok e

unfoldable pub begin_sleep : EevdfProfile → Entity → ℤ → Result ModelError Entity
unfolding lag_at
begin_sleep profile e v =
    if is_sleeping e
    then err invalid_state
    else lag_at e v >>= λ lag. ok (record e {
      lag =
          if leb_ℤ lag (pos (credit_cap profile e.kind))
          then lag
          else pos (credit_cap profile e.kind);
      lag_stamp = v;
      sleeper_v = some v;
    })

unfoldable pub begin_sleep_frozen : Entity → ℤ → Result ModelError Entity
begin_sleep_frozen e v =
    if e.weight == 0
    then err invalid_weight
    else if is_sleeping e
    then err invalid_state
    else ok (record e { lag_stamp = v; sleeper_v = some v })

-- `sleeper_v.ok_or(InvalidState)?`.
abbrev pub slept_at {ℓ} : {A : Type ℓ} → Entity → (ℤ → Result ModelError A) → Result ModelError A
slept_at e rest = elim e.sleeper_v [ none ↦ err invalid_state | some v ↦ rest v ]

unfoldable pub wake : EevdfProfile → Entity → ℤ → Result ModelError Entity
unfolding bounded_sleeper_decay
wake profile e v = slept_at e λ since. sub_i128 v since >>= λ elapsed.
    bounded_sleeper_decay profile e.kind e.lag elapsed >>= λ lag.
    ok (record e { lag = lag; lag_stamp = v; sleeper_v = none })

-- `v < slept_at` of an entity that sleeps.
abbrev pub before_sleep : Entity → ℤ → Bool
before_sleep e v = elim e.sleeper_v [ none ↦ false | some since ↦ ltb_ℤ v since ]

unfoldable pub end_sleep_frozen : Entity → ℤ → Result ModelError Entity
end_sleep_frozen e v =
    if e.weight == 0
    then err invalid_weight
    else if before_sleep e v
    then err invalid_state
    else ok (record e { sleeper_v = none; lag_stamp = v })
