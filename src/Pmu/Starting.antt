-- ===== src/Pmu/Starting.antt =====
-- crates/thekernel-axpmu/src/lib.rs: what starting a session does to the backend.
use thekernel_ax.Prelude.{
  ◌≡◌, refl, ap, ◌∙◌, ◌⊎◌, inl, inr, Bool, true, false, Option, none, some, List, [], ◌∷◌, ◌++◌,
  map, Option-cases, Bool-cases, subst,
}
use thekernel_ax.Prelude.Result.{Result, err, ok}
use mathlib.Core.List.{append-nil, append_assoc}
use mathlib.Core.Option.{get_or}
use thekernel_ax.Pmu.{Error, already_running, Backend, Session, stop_slots}
use thekernel_ax.Pmu.Methods.{roll_back, start_slots, start_session}
use thekernel_ax.Pmu.Release.{newest_first}
use thekernel_ax.Pmu.Stopping.{Stops, has_failed, stop_slots-Stops}

-- Every call of `start` for a list of counters, in its order, succeeds.
pub data Starts {ℓ κ} {State : Type ℓ} {Counter : Type κ} (b : Backend State Counter)
    : State → List Counter → State → Type (ℓ ⊔ κ) where
  starts_nothing : {s : State} → Starts b s [] s
  starts :
      {s last : State} {counter : Counter} {rest : List Counter}
      → (b.start s counter).1 ≡ none
      → Starts b (b.start s counter).0 rest last
      → Starts b s (counter ∷ rest) last

-- A start of counters behind others that stops at one of them: those started are stopped again,
-- the newest first.
pub record FailsToStart {ℓ κ} {State : Type ℓ} {Counter : Type κ} (b : Backend State Counter)
    (started : List Counter) (s : State) (counters : List Counter) (last : State)
    (first : Option Error) (error : Error) : Type (ℓ ⊔ κ) where
  pub passed : List Counter
  pub counter : Counter
  pub more : List Counter
  pub reached : State
  pub cause : Error
  pub split : counters ≡ passed ++ (counter ∷ more)
  pub running : Starts b s passed reached
  pub refused : (b.start reached counter).1 ≡ some cause
  pub undone :
      Stops b (b.start reached counter).0 (newest_first (map some (started ++ passed))) last first
  pub reported : error ≡ get_or first cause

map-some-append {ℓ} :
    {A : Type ℓ} (xs : List A) (x : A) → map some (xs ++ (x ∷ [])) ≡ map some xs ++ (some x ∷ [])
map-some-append [] x = refl
map-some-append (y ∷ ys) x = ap (λ zs. some y ∷ zs) (map-some-append ys x)

module _ {ℓ κ} {State : Type ℓ} {Counter : Type κ} (b : Backend State Counter) where
  -- The loop of `start` ends.
  abbrev Begins :
      List Counter → State → List Counter → State × Bool × Result Error (Unit {0}) → Type (ℓ ⊔ κ)
  Begins started s counters out =
      ((last : State) × Starts b s counters last × (out ≡ (last, true, ok tt)))
      ⊎ ((last : State) × (first : Option Error) × (error : Error) × FailsToStart b started s
            counters last first error
          × (out ≡ (last, has_failed first, err error)))

  rolls_back :
      (s : State) (started : List Counter) (counter : Counter) (rest : List Counter) (cause : Error)
      → (b.start s counter).1 ≡ some cause
      → Begins started s
          (counter ∷ rest)
          (roll_back b (b.start s counter).0 (map some started) cause)
  unfolding roll_back
  rolls_back s started counter rest cause e =
      let then_s = (b.start s counter).0 in
      let (first, stopped, g) = stop_slots-Stops b then_s started in
      let out = stop_slots b then_s (map some started) in
      inr (
        out.0,
        first,
        get_or first cause,
        record {
          passed = [];
          counter = counter;
          more = rest;
          reached = s;
          cause = cause;
          split = refl;
          running = starts_nothing;
          refused = e;
          undone = rw (append-nil started) g;
          reported = refl;
        },
        elim (Option-cases first) [
          | inl clean ↦ rw (roll_back, stopped, clean) refl
          | inr (error, failed) ↦ rw (roll_back, stopped, failed) refl
        ],
      )

  goes_on :
      (started : List Counter) (s : State) (counter : Counter) (rest : List Counter)
      (out : State × Bool × Result Error (Unit {0}))
      → (b.start s counter).1 ≡ none
      → Begins (started ++ (counter ∷ [])) (b.start s counter).0 rest out
      → Begins started s (counter ∷ rest) out
  goes_on started s counter rest out e (inl (last, g, result)) = inl (last, starts e g, result)
  goes_on started s counter rest out e (inr (last, first, error, f, result)) = inr (
    last,
    first,
    error,
    record {
      passed = counter ∷ f.passed;
      counter = f.counter;
      more = f.more;
      reached = f.reached;
      cause = f.cause;
      split = ap (λ counters. counter ∷ counters) f.split;
      running = starts e f.running;
      refused = f.refused;
      undone =
          subst
            (λ counters.
              Stops b (b.start f.reached f.counter).0 (newest_first (map some counters)) last first)
            (append_assoc started (counter ∷ []) f.passed) f.undone;
      reported = f.reported;
    },
    result,
  )

  start_slots-Begins :
      (started : List Counter) (s : State) (counters : List Counter)
      → Begins started s counters (start_slots b s (map some started) (map some counters))
  unfolding start_slots
  start_slots-Begins started s [] = inl (s, starts_nothing, refl)
  start_slots-Begins started s (counter ∷ rest) =
      let then_s = (b.start s counter).0 in
      let out = start_slots b s (map some started) (some counter ∷ map some rest) in
      elim (Option-cases (b.start s counter).1) [
        | inl e ↦
            let goes : start_slots b then_s (map some (started ++ (counter ∷ []))) (map some rest)
                ≡ out =
              rw (start_slots, e, map-some-append started counter) refl in
            goes_on started s counter rest out e (
              subst (Begins (started ++ (counter ∷ [])) then_s rest) goes
                (start_slots-Begins (started ++ (counter ∷ [])) then_s rest))
        | inr (cause, e) ↦
            let back : roll_back b then_s (map some started) cause ≡ out =
              rw (start_slots, e) refl in
            subst (Begins started s (counter ∷ rest)) back
              (rolls_back s started counter rest cause e)
      ]

  -- A stopped session with a counter in each slot starts: either every call of start succeeds and
  -- the session runs, or one fails, each counter started before it is stopped once, the newest
  -- first, the error is the first failure of a stop or else the cause, and the session counts as
  -- running only where a stop failed; a session that runs is refused with AlreadyRunning and
  -- changes nothing.
  pub start_session-Starts :
      (session : Session State Counter) (counters : List Counter)
      → session.counters ≡ map some counters
      → ((session.running ≡ true) × (start_session b session ≡ (session, err already_running)))
        ⊎ ((session.running ≡ false)
            × (last : State) × Starts b session.backend counters last
            × (start_session b session
                ≡ (record session { backend = last; running = true }, ok tt)))
        ⊎ ((session.running ≡ false)
            × (last : State) × (first : Option Error) × (error : Error) × FailsToStart b []
                session.backend counters last first error
            × (start_session b session
                ≡ (record session { backend = last; running = has_failed first }, err error)))
  unfolding start_session
  start_session-Starts session counters slots = elim (Bool-cases session.running) [
    | inl on ↦ inl (on, simp (start_session, on))
    | inr off ↦
        let pack : State × Bool × Result Error (Unit {0})
            → Session State Counter × Result Error (Unit {0}) =
          λ out. (record session { backend = out.0; running = out.1 }, out.2) in
        let goes : start_session b session
            ≡ pack (start_slots b session.backend [] session.counters) =
          simp (start_session, off) in
        let of_counters = goes ∙ ap (λ cs. pack (start_slots b session.backend [] cs)) slots in
        elim (start_slots-Begins [] session.backend counters) [
          | inl (last, g, e) ↦ inr (inl (off, last, g, of_counters ∙ ap pack e))
          | inr (last, first, error, f, e) ↦
              inr (inr (off, last, first, error, f, of_counters ∙ ap pack e))
        ]
  ]
