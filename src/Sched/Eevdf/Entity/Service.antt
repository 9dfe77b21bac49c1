-- ===== src/Sched/Eevdf/Entity/Service.antt =====
-- crates/thekernel-axsched/src/eevdf_model.rs: `Entity::service` and the methods that call it. The
-- entity and the queue's clock are returned together.
use thekernel_ax.Prelude.{ℕ, ◌%◌, ◌^◌, ◌&&◌, ◌||◌, leb, ◌==◌, if◌then◌else◌}
use thekernel_ax.Prelude.Int.{ℤ, pos}
use thekernel_ax.Prelude.Result.{Result, err, ok, ◌>>=◌}
use thekernel_ax.Sched.Eevdf.Word.{
  one_unit, nice_0, ModelError, invalid_weight, invalid_state, add_u128, mul_u128, sub_i128,
  checked_i128, unsigned_abs,
}
use thekernel_ax.Sched.Eevdf.MulDiv.{checked_mul_div_rem}
use thekernel_ax.Sched.Eevdf.Signed.{checked_work, checked_lag_at}
use thekernel_ax.Sched.Eevdf.Clock.{Clock, preview_work_with_ticks}
use thekernel_ax.Sched.Eevdf.Request.Service.{consume_work_up_to}
use thekernel_ax.Sched.Eevdf.Entity.{Entity, is_sleeping}

-- Everything is computed before anything is stored.
abbrev pub commit_service : Entity → Clock → ℕ → ℕ → Result ModelError (Entity × Clock × ℤ)
commit_service e c ticks service_work =
    preview_work_with_ticks c service_work ticks >>= λ next_clock.
    checked_lag_at e.lag e.lag_stamp e.weight next_clock.v >>= λ lag.
    checked_i128 service_work >>= λ work. sub_i128 lag work >>= λ next_lag.
    consume_work_up_to e.request service_work >>= λ next_request. ok (
      record e { lag = next_lag; lag_stamp = next_clock.v; request = next_request },
      record c {
        v = next_clock.v;
        remainder = next_clock.remainder;
        accounted_ticks = next_clock.accounted_ticks;
      },
      next_clock.delta_v,
    )

unfoldable pub service : Entity → Clock → ℕ → ℕ → Result ModelError (Entity × Clock × ℤ)
service e c ticks fraction_q =
    if leb one_unit fraction_q
    then err invalid_state
    else if (ticks == 0) && (fraction_q == 0)
    then ok (e, c, pos 0)
    else if e.weight == 0
    then err invalid_weight
    else if is_sleeping e
    then err invalid_state
    else checked_work ticks >>= λ whole_work. mul_u128 fraction_q nice_0 >>= λ fractional_work.
        add_u128 (unsigned_abs whole_work) fractional_work >>= λ service_work.
        commit_service e c ticks service_work

unfoldable pub tick_service : Entity → Clock → ℕ → Result ModelError (Entity × Clock × ℤ)
unfolding service
tick_service e c ticks = service e c ticks 0

unfoldable pub fractional_service_ns :
    Entity → Clock → ℕ → ℕ → Result ModelError (Entity × Clock × ℕ)
unfolding service
fractional_service_ns e c elapsed_ns period_ns =
    if period_ns == 0 || leb period_ns elapsed_ns
    then err invalid_state
    else checked_mul_div_rem elapsed_ns one_unit period_ns >>= λ parts.
        service e c 0 (parts.0 % 2 ^ 64) >>= λ served. ok (served.0, served.1, parts.1 % 2 ^ 64)
