-- ===== src/Sched/Eevdf/Entity/Reconfigure.antt =====
-- crates/thekernel-axsched/src/eevdf_model.rs: the methods of `Entity` that move a request to
-- another class, weight or virtual time and keep its progress.
use thekernel_ax.Prelude.{ℕ, ◌||◌, ◌==◌, if◌then◌else◌, none, some}
use thekernel_ax.Prelude.Int.{ℤ}
use thekernel_ax.Prelude.Result.{Result, err, ok, ◌>>=◌, ◌>>◌}
use thekernel_ax.Sched.Eevdf.Word.{
  EevdfProfile, RequestClass, ModelError, invalid_weight, invalid_state, sub_i128,
}
use thekernel_ax.Sched.Eevdf.Signed.{
  checked_virtual_length, checked_deadline, request_quantum, request_start,
}
use thekernel_ax.Sched.Eevdf.Request.{Request, exact_valid, remaining_virtual_length, set_quantum}
use thekernel_ax.Sched.Eevdf.Entity.{Entity, is_sleeping, slept_at, lag_at, bounded_sleeper_decay}

unfoldable pub reconfigured_request :
    Entity → RequestClass → ℕ → ℕ → ℤ → ℤ → Result ModelError Request
reconfigured_request e new_kind new_q new_weight anchor lag =
    exact_valid e.request
    >> (set_quantum (record e.request { kind = new_kind }) new_q >>= λ request.
        checked_virtual_length new_q new_weight >>= λ full_r.
        remaining_virtual_length request new_weight >>= λ remaining_r.
        request_start anchor lag new_weight >>= λ start.
        checked_deadline start remaining_r >>= λ deadline.
        ok (record request { virtual_length = full_r; start = start; deadline = deadline }))

-- `sleeper_v.unwrap_or(lag_stamp)`.
abbrev pub request_anchor : Entity → ℤ
request_anchor e = elim e.sleeper_v [ none ↦ e.lag_stamp | some since ↦ since ]

unfoldable pub rebind_request_quantum : Entity → ℕ → Result ModelError Entity
unfolding reconfigured_request
rebind_request_quantum e quantum =
    if quantum == 0
    then err invalid_state
    else reconfigured_request e e.kind quantum e.weight (request_anchor e) e.lag >>= λ request.
        ok (record e { request = request; lag_stamp = request_anchor e })

unfoldable pub rebind_default_request_quantum : EevdfProfile → Entity → ℕ → Result ModelError Entity
unfolding rebind_request_quantum
rebind_default_request_quantum profile e total_weight =
    request_quantum profile e.kind e.weight total_weight >>= λ quantum.
    rebind_request_quantum e quantum

-- The new entity, with a lag and an anchor that the caller chooses.
abbrev pub rebuilt : EevdfProfile → Entity → RequestClass → ℕ → ℕ → ℤ → ℤ → Result ModelError Entity
rebuilt profile e new_kind new_weight new_total_weight anchor lag =
    request_quantum profile new_kind new_weight new_total_weight >>= λ new_q.
    reconfigured_request e new_kind new_q new_weight anchor lag >>= λ request. ok (record e {
      kind = new_kind;
      weight = new_weight;
      lag = lag;
      lag_stamp = anchor;
      request = request;
    })

unfoldable pub reconfigure :
    EevdfProfile → Entity → RequestClass → ℕ → ℕ → ℤ → Result ModelError Entity
unfolding reconfigured_request lag_at
reconfigure profile e new_kind new_weight new_total_weight v =
    if new_weight == 0
    then err invalid_weight
    else if is_sleeping e
    then err invalid_state
    else lag_at e v >>= λ lag. rebuilt profile e new_kind new_weight new_total_weight v lag

unfoldable pub reconfigure_frozen :
    EevdfProfile → Entity → RequestClass → ℕ → ℕ → ℤ → Result ModelError Entity
unfolding reconfigured_request
reconfigure_frozen profile e new_kind new_weight new_total_weight v =
    if new_weight == 0
    then err invalid_weight
    else if is_sleeping e
    then err invalid_state
    else rebuilt profile e new_kind new_weight new_total_weight v e.lag

unfoldable pub reconfigure_sleeping :
    EevdfProfile → Entity → RequestClass → ℕ → ℕ → Result ModelError Entity
unfolding reconfigured_request
reconfigure_sleeping profile e new_kind new_weight new_total_weight = slept_at e λ since.
    if new_weight == 0
    then err invalid_weight
    else rebuilt profile e new_kind new_weight new_total_weight since e.lag

abbrev pub reweight : EevdfProfile → Entity → ℕ → ℕ → ℤ → Result ModelError Entity
reweight profile e new_weight new_total_weight v =
    reconfigure profile e e.kind new_weight new_total_weight v

-- The request at a new start, with the virtual length that remains of it.
abbrev pub reanchored : Entity → ℤ → ℤ → Result ModelError Request
reanchored e v lag = request_start v lag e.weight >>= λ start.
    remaining_virtual_length e.request e.weight >>= λ remaining_r.
    checked_deadline start remaining_r >>= λ deadline.
    ok (record e.request { start = start; deadline = deadline })

unfoldable pub wake_preserving_progress : EevdfProfile → Entity → ℤ → Result ModelError Entity
wake_preserving_progress profile e v = slept_at e λ since. sub_i128 v since >>= λ elapsed.
    (if e.weight == 0 || e.request.q == 0
      then err invalid_state
      else exact_valid e.request
        >> (bounded_sleeper_decay profile e.kind e.lag elapsed >>= λ lag.
            reanchored e v lag >>= λ request.
            ok (record e { lag = lag; lag_stamp = v; request = request; sleeper_v = none })))

unfoldable pub activate_preserving_progress : Entity → ℤ → Result ModelError Entity
unfolding lag_at
activate_preserving_progress e v =
    if is_sleeping e
    then err invalid_state
    else if e.weight == 0
    then err invalid_weight
    else if e.request.q == 0
    then err invalid_state
    else exact_valid e.request
      >> (lag_at e v >>= λ lag. reanchored e v lag >>= λ request.
          ok (record e { lag = lag; lag_stamp = v; request = request }))
