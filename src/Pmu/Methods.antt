-- ===== src/Pmu/Methods.antt =====
-- crates/thekernel-axpmu/src/lib.rs: the methods of an open `Session`. Each returns the session as
-- it leaves it, with the state of the backend in it.
use thekernel_ax.Prelude.{
  ℕ, Bool, true, false, Option, none, some, List, [], ◌∷◌, ◌++◌, if◌then◌else◌,
}
use thekernel_ax.Prelude.Result.{Result, panic, err, ok, ◌>>=◌}
use thekernel_ax.Pmu.{
  Error, already_running, not_running, Backend, Session, Snapshot, release_slots, stop_slots,
}

module _ {ℓ κ} {State : Type ℓ} {Counter : Type κ} (b : Backend State Counter) where
  -- A start that failed: the slots before it are stopped, and the session runs on if that fails.
  unfoldable pub roll_back :
      State → List (Option Counter) → Error → State × Bool × Result Error (Unit {0})
  unfolding stop_slots
  roll_back s started error =
      let out = stop_slots b s started in
      elim out.1 [
        | ok none ↦ (out.0, false, err error)
        | ok (some cleanup) ↦ (out.0, true, err cleanup)
        | err impossible ↦ (out.0, false, panic)
        | panic ↦ (out.0, false, panic)
      ]

  -- The loop of `start`: the slots that are started, and those that are left. The Boolean is the
  -- new `running`.
  unfoldable pub start_slots :
      State → List (Option Counter) → List (Option Counter) → State × Bool × Result Error (Unit {0})
  start_slots s started [] = (s, true, ok tt)
  start_slots s started (none ∷ rest) = (s, false, panic)
  start_slots s started (some counter ∷ rest) =
      let out = b.start s counter in
      elim out.1 [
        | none ↦ start_slots out.0 (started ++ (some counter ∷ [])) rest
        | some error ↦ roll_back out.0 started error
      ]

  unfoldable pub start_session :
      Session State Counter → Session State Counter × Result Error (Unit {0})
  unfolding start_slots
  start_session session =
      if session.running
      then (session, err already_running)
      else let out = start_slots session.backend [] session.counters in
        (record session { backend = out.0; running = out.1 }, out.2)

  -- The loop of `snapshot`: it leaves at the first error.
  unfoldable pub read_slots : State → List (Option Counter) → State × Result Error (List ℕ)
  read_slots s [] = (s, ok [])
  read_slots s (none ∷ rest) = (s, panic)
  read_slots s (some counter ∷ rest) =
      let out = b.read s counter in
      let later = read_slots out.0 rest in
      elim out.1 [
        | ok value ↦ (later.0, later.1 >>= λ values. ok (value ∷ values))
        | err error ↦ (out.0, err error)
        | panic ↦ (out.0, panic)
      ]

  unfoldable pub take_snapshot :
      Session State Counter → Session State Counter × Result Error Snapshot
  unfolding read_slots
  take_snapshot session =
      if session.running
      then (let out = read_slots session.backend session.counters in
          (
            record session { backend = out.0 },
            out.1 >>= λ values. ok (record {
              events = session.events;
              values = values;
              consistent = (b.capabilities out.0).consistent_snapshot;
            }),
          ))
      else (session, err not_running)

  unfoldable pub stop_session :
      Session State Counter → Session State Counter × Result Error (Unit {0})
  unfolding stop_slots
  stop_session session =
      if session.running
      then (let out = stop_slots b session.backend session.counters in
          elim out.1 [
            | ok none ↦ (record session { backend = out.0; running = false }, ok tt)
            | ok (some error) ↦ (record session { backend = out.0; running = true }, err error)
            | err impossible ↦ (record session { backend = out.0 }, panic)
            | panic ↦ (record session { backend = out.0 }, panic)
          ])
      else (session, err not_running)

  unfoldable pub cleanup : Session State Counter → Session State Counter × Option Error
  unfolding release_slots
  cleanup session =
      let out = release_slots b session.backend session.counters in
      elim out.2 [
        | none ↦ (record session { backend = out.0; counters = out.1; running = false }, none)
        | some error ↦ (record session { backend = out.0; counters = out.1 }, some error)
      ]

  -- `Drop`.
  unfoldable pub drop_session : Session State Counter → State
  unfolding cleanup
  drop_session session = if session.closed then session.backend else (cleanup session).0.backend

  -- `close`, with the drop of the session at its end.
  unfoldable pub close_session : Session State Counter → State × Option Error
  unfolding cleanup drop_session
  close_session session =
      let out = cleanup session in
      elim out.1 [
        | none ↦ (drop_session (record out.0 { closed = true }), none)
        | some error ↦ (drop_session out.0, some error)
      ]

-- The calls that a client makes of an open session.
pub data Call : Type 0 where
  start_call : Call
  snapshot_call : Call
  stop_call : Call

abbrev pub is_panic {ℓ} : {A : Type ℓ} → Result Error A → Bool
is_panic panic = true
is_panic (err error) = false
is_panic (ok value) = false

module _ {ℓ κ} {State : Type ℓ} {Counter : Type κ} (b : Backend State Counter) where
  -- The session after a call, and whether the call panicked. A client may go on after an error.
  unfoldable pub call_session : Session State Counter → Call → Session State Counter × Bool
  unfolding start_session take_snapshot stop_session
  call_session session start_call = let out = start_session b session in (out.0, is_panic out.1)
  call_session session snapshot_call = let out = take_snapshot b session in (out.0, is_panic out.1)
  call_session session stop_call = let out = stop_session b session in (out.0, is_panic out.1)

  unfoldable pub call_all : Session State Counter → List Call → Result Error (Session State Counter)
  unfolding call_session
  call_all session [] = ok session
  call_all session (call ∷ rest) =
      let out = call_session session call in if out.1 then panic else call_all out.0 rest
