-- ===== src/Pmu/Tests.antt =====
-- crates/thekernel-axpmu/src/lib.rs: sessions on a backend that counts, and fails its first releases.
use thekernel_ax.Prelude.{
  ℕ, zero, suc, ◌+◌, ◌≡◌, ◌≢◌, ◌⊎◌, refl, arith, true, false, Option, none, some, List, [], ◌∷◌,
  ◌==◌, if◌then◌else◌, length,
}
use thekernel_ax.Prelude.Result.{ok, err, panic}
use thekernel_ax.Pmu.{
  Event, cpu_cycles, instructions, Error, no_counter, duplicate_event, already_running, not_running,
  all_events, Backend, Session, mask_contains, abandon, open_session,
}
use thekernel_ax.Pmu.Methods.{
  roll_back, start_slots, start_session, stop_session, cleanup, drop_session, close_session,
  call_all, start_call, snapshot_call, stop_call,
}
use thekernel_ax.Pmu.Release.{newest_first}
use thekernel_ax.Pmu.Stopping.{Stops, has_failed, stop_session-Stops}
use thekernel_ax.Pmu.Starting.{Starts, FailsToStart, start_session-Starts}
use thekernel_ax.Pmu.Opening.{Opens, open_session-Opens}
use thekernel_ax.Pmu.Closing.{Ends, close_session-Ends}

-- The counters handed out and not given back, and how many releases fail from now on.
abbrev Hardware : Type 0
Hardware = List ℕ × ℕ

abbrev without : ℕ → List ℕ → List ℕ
without counter [] = []
without counter (c ∷ rest) = if c == counter then rest else c ∷ without counter rest

abbrev release_one : Hardware → ℕ → Hardware × Option Error
release_one (claims, zero) counter = ((without counter claims, 0), none)
release_one (claims, suc failures) counter = ((claims, failures), some no_counter)

abbrev flaky : Backend Hardware ℕ
flaky = record {
  capabilities = λ s. record {
    counter_count = 5;
    requestable_events = all_events;
    consistent_snapshot = false;
  };
  configure = λ s event. ((length s.0 ∷ s.0, s.1), ok (length s.0));
  start = λ s counter. (s, none);
  read = λ s counter. (s, ok (counter + 10));
  stop = λ s counter. (s, none);
  release = λ s counter. release_one s counter;
}

configure_returns : (s : Hardware) (event : Event) → (flaky.configure s event).1 ≢ panic
configure_returns s event e = ground arith

read_returns : (s : Hardware) (counter : ℕ) → (flaky.read s counter).1 ≢ panic
read_returns s counter e = ground arith

abbrev both : List Event
both = cpu_cycles ∷ instructions ∷ []

opened : (open_session flaky 2 (7 ∷ [], 0) both).0 ≡ (2 ∷ 1 ∷ 7 ∷ [], 0)
unfolding open_session mask_contains
opened = refl

twice : open_session flaky 3 ([], 0) (cpu_cycles ∷ cpu_cycles ∷ []) ≡ (([], 0), err duplicate_event)
unfolding open_session mask_contains abandon
twice = refl

-- A release that fails takes the place of the cause, and leaves the counter claimed.
twice_failing :
    open_session flaky 3 ([], 1) (cpu_cycles ∷ cpu_cycles ∷ []) ≡ ((0 ∷ [], 0), err no_counter)
unfolding open_session mask_contains abandon
twice_failing = refl

abbrev pair : ℕ → Session Hardware ℕ
pair failures = record {
  backend = (2 ∷ 1 ∷ 7 ∷ [], failures);
  counters = some 1 ∷ some 2 ∷ [];
  events = both;
  running = false;
  closed = false;
}

-- The release that fails is tried again by the drop.
closed_late : close_session flaky (pair 1) ≡ ((7 ∷ [], 0), some no_counter)
unfolding close_session cleanup drop_session
closed_late = refl

open_session-Opens_example :
    Opens flaky 3
      ([], 1)
      (cpu_cycles ∷ cpu_cycles ∷ [])
      (open_session flaky 3 ([], 1) (cpu_cycles ∷ cpu_cycles ∷ []))
open_session-Opens_example =
    open_session-Opens flaky 3 ([], 1) (cpu_cycles ∷ cpu_cycles ∷ []) configure_returns

close_session-Ends_example :
    (last : Session Hardware ℕ) × (call_all flaky
        (pair 1)
        (start_call ∷ snapshot_call ∷ start_call ∷ stop_call ∷ [])
      ≡ ok last)
    × (last.counters ≡ some 1 ∷ some 2 ∷ [])
    × Ends flaky last
close_session-Ends_example =
    close_session-Ends flaky (pair 1) (start_call ∷ snapshot_call ∷ start_call ∷ stop_call ∷ [])
      read_returns tt refl

abbrev half_starts : Backend Hardware ℕ
half_starts = record flaky {
  start = λ s counter. (s, if counter == 2 then some no_counter else none);
}

started_half : start_session half_starts (pair 0) ≡ (pair 0, err no_counter)
unfolding start_session start_slots roll_back
started_half = refl

start_session-Starts_example :
    (((pair 0).running ≡ true)
      × (start_session half_starts (pair 0) ≡ (pair 0, err already_running)))
    ⊎ (((pair 0).running ≡ false)
        × (last : Hardware) × Starts half_starts (pair 0).backend (1 ∷ 2 ∷ []) last
        × (start_session half_starts (pair 0)
            ≡ (record (pair 0) { backend = last; running = true }, ok tt)))
    ⊎ (((pair 0).running ≡ false)
        × (last : Hardware) × (first : Option Error) × (error : Error) × FailsToStart half_starts []
            (pair 0).backend
            (1 ∷ 2 ∷ [])
            last
            first
            error
        × (start_session half_starts (pair 0)
            ≡ (record (pair 0) { backend = last; running = has_failed first }, err error)))
start_session-Starts_example = start_session-Starts half_starts (pair 0) (1 ∷ 2 ∷ []) refl

abbrev active : Session Hardware ℕ
active = record (pair 0) { running = true }

stop_session-Stops_example :
    ((active.running ≡ false) × (stop_session flaky active ≡ (active, err not_running)))
    ⊎ ((active.running ≡ true)
        × (last : Hardware) × (first : Option Error) × Stops flaky active.backend
            (newest_first active.counters)
            last
            first
        × (stop_session flaky active ≡ (
          record active { backend = last; running = has_failed first },
          elim first [ none ↦ ok tt | some error ↦ err error ],
        )))
stop_session-Stops_example = stop_session-Stops flaky active (1 ∷ 2 ∷ []) refl
