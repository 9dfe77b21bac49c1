-- ===== src/Pmu/Stopping.antt =====
-- crates/thekernel-axpmu/src/lib.rs: what stopping a session does to the backend.
use thekernel_ax.Prelude.{
  ◌≡◌, refl, ◌⊎◌, inl, inr, Bool, true, false, Option, none, some, List, [], ◌∷◌, ◌++◌, map,
  Bool-cases, subst,
}
use thekernel_ax.Prelude.Result.{err, ok}
use thekernel_ax.Pmu.{Error, not_running, Backend, Session, get_or_insert, stop_slots}
use thekernel_ax.Pmu.Methods.{stop_session}
use thekernel_ax.Pmu.Release.{newest_first}

-- One call of `stop` for each counter of a list, in its order, and the first error.
pub data Stops {ℓ κ} {State : Type ℓ} {Counter : Type κ} (b : Backend State Counter)
    : State → List Counter → State → Option Error → Type (ℓ ⊔ κ) where
  stops_nothing : {s : State} → Stops b s [] s none
  stops :
      {s last : State} {counter : Counter} {rest : List Counter} {first : Option Error}
      → Stops b (b.stop s counter).0 rest last first
      → Stops b s (counter ∷ rest) last (get_or_insert (b.stop s counter).1 first)

abbrev pub has_failed : Option Error → Bool
has_failed none = false
has_failed (some error) = true

get_or_insert-none : (first : Option Error) → get_or_insert first none ≡ first
get_or_insert-none none = refl
get_or_insert-none (some error) = refl

get_or_insert_assoc :
    (a b c : Option Error)
    → get_or_insert a (get_or_insert b c) ≡ get_or_insert (get_or_insert a b) c
get_or_insert_assoc none b c = refl
get_or_insert_assoc (some error) b c = refl

module _ {ℓ κ} {State : Type ℓ} {Counter : Type κ} (b : Backend State Counter) where
  Stops-one :
      {s last : State} {counters : List Counter} {first : Option Error} (counter : Counter)
      → Stops b s counters last first
      → Stops b s
          (counters ++ (counter ∷ []))
          (b.stop last counter).0
          (get_or_insert first (b.stop last counter).1)
  Stops-one {s} counter stops_nothing =
      subst (Stops b s (counter ∷ []) (b.stop s counter).0)
        (get_or_insert-none (b.stop s counter).1) (stops stops_nothing)
  Stops-one {s} {last} counter (stops {counter = c} {rest} {first} g) =
      subst (Stops b s (c ∷ (rest ++ (counter ∷ []))) (b.stop last counter).0)
        (get_or_insert_assoc (b.stop s c).1 first (b.stop last counter).1)
        (stops (Stops-one counter g))

  pub stop_slots-Stops :
      (s : State) (counters : List Counter)
      → (first : Option Error) × ((stop_slots b s (map some counters)).1 ≡ ok first)
        × Stops b s (newest_first (map some counters)) (stop_slots b s (map some counters)).0 first
  unfolding stop_slots
  stop_slots-Stops s [] = (none, refl, stops_nothing)
  stop_slots-Stops s (counter ∷ rest) =
      let (first, e, g) = stop_slots-Stops s rest in
      let reached = (stop_slots b s (map some rest)).0 in
      (get_or_insert first (b.stop reached counter).1, rw e refl, rw e (Stops-one counter g))

  filled_slots-Stops :
      (s : State) (slots : List (Option Counter)) (counters : List Counter)
      → slots ≡ map some counters
      → (first : Option Error) × ((stop_slots b s slots).1 ≡ ok first)
        × Stops b s (newest_first slots) (stop_slots b s slots).0 first
  filled_slots-Stops s slots counters filled = rw filled (stop_slots-Stops s counters)

  stopped_lem :
      (session : Session State Counter) (first : Option Error)
      → session.running ≡ true
      → (stop_slots b session.backend session.counters).1 ≡ ok first
      → stop_session b session ≡ (
        record session {
          backend = (stop_slots b session.backend session.counters).0;
          running = has_failed first;
        },
        elim first [ none ↦ ok tt | some error ↦ err error ],
      )
  unfolding stop_session
  stopped_lem session none on e = simp (stop_session, on, e)
  stopped_lem session (some error) on e = simp (stop_session, on, e)

  -- Stopping a running session with a counter in each slot calls stop once for each counter, the
  -- newest first, whether or not one fails; it succeeds and leaves the session stopped where none
  -- fails, and otherwise reports the first error and the session counts as running still; a
  -- session that does not run is refused with NotRunning and changes nothing.
  pub stop_session-Stops :
      (session : Session State Counter) (counters : List Counter)
      → session.counters ≡ map some counters
      → ((session.running ≡ false) × (stop_session b session ≡ (session, err not_running)))
        ⊎ ((session.running ≡ true)
            × (last : State) × (first : Option Error) × Stops b session.backend
                (newest_first session.counters)
                last
                first
            × (stop_session b session ≡ (
              record session { backend = last; running = has_failed first },
              elim first [ none ↦ ok tt | some error ↦ err error ],
            )))
  unfolding stop_session
  stop_session-Stops session counters slots = elim (Bool-cases session.running) [
    | inr off ↦ inl (off, simp (stop_session, off))
    | inl on ↦
        let (first, e, g) = filled_slots-Stops session.backend session.counters counters slots in
        let last = (stop_slots b session.backend session.counters).0 in
        inr (on, last, first, g, stopped_lem session first on e)
  ]
