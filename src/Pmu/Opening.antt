-- ===== src/Pmu/Opening.antt =====
-- crates/thekernel-axpmu/src/lib.rs: what opening a session does to the backend.
use thekernel_ax.Prelude.{
  ℕ, ◌≤◌, ◌<◌, ◌≡◌, ◌≢◌, refl, ap, ◌∙◌, ◌⊎◌, inl, inr, false, Option, some, List, [], ◌∷◌, ◌++◌,
  map, ltb, length, Bool-cases, arith, Option-cases, subst, ltb→lt,
}
use thekernel_ax.Prelude.Result.{Result, panic, err, ok, Result-cases}
use mathlib.Core.List.{append-nil, append_assoc}
use mathlib.Core.Option.{get_or}
use thekernel_ax.Pmu.{
  Event, Error, duplicate_event, unsupported, empty_session, capacity_exceeded, Capabilities,
  Backend, Session, mask_contains, release_slots, abandon, open_slots, into_session, open_session,
  is_available,
}
use thekernel_ax.Pmu.Release.{Gives, newest_first, release_slots-Gives}
use thekernel_ax.Pmu.Outcome.{
  Admitted, Configures, configures_nothing, configures, Refuses, refuses_duplicate,
  refuses_unsupported, refuses_configure, Fails, stored_contains_cases,
}

module _ {ℓ κ} {State : Type ℓ} {Counter : Type κ} (b : Backend State Counter) where
  abandon_lem :
      {A : Type κ} (s : State) (slots : List (Option Counter)) (cause : Error)
      → let out = release_slots b s slots in
        abandon b {A = A} s slots cause ≡ (out.0, err (get_or out.2 cause))
  unfolding abandon
  abandon_lem s slots cause = elim (Option-cases (release_slots b s slots).2) [
    | inl clean ↦ rw (abandon, clean) refl
    | inr (error, failed) ↦ rw (abandon, failed) refl
  ]

  -- The loop of `open` ends with a slot for each event, or fails.
  abbrev Loops :
      Capabilities
      → List (Option Counter)
      → List Event
      → State
      → List Event
      → State × Result Error (List (Option Counter) × List Event)
      → Type (ℓ ⊔ κ)
  Loops capabilities slots stored s events out =
      ((last : State) × (counters : List Counter) × Admitted capabilities stored events
        × Configures b s events last counters
        × (out ≡ (last, ok (slots ++ map some counters, stored ++ events))))
      ⊎ ((last : State) × (error : Error) × Fails b capabilities slots stored s events last error
          × (out ≡ (last, err error)))

  abandons :
      (capabilities : Capabilities) (slots : List (Option Counter)) (stored : List Event)
      (s refused : State) (event : Event) (rest : List Event) (cause : Error)
      → Refuses b capabilities stored s event refused cause
      → Loops capabilities slots stored s (event ∷ rest) (abandon b refused slots cause)
  abandons capabilities slots stored s refused event rest cause refusal =
      let out = release_slots b refused slots in
      inr (
        out.0,
        get_or out.2 cause,
        record {
          passed = [];
          event = event;
          more = rest;
          counters = [];
          reached = s;
          refused = refused;
          cause = cause;
          left = newest_first out.1;
          first = out.2;
          split = refl;
          admitted = tt;
          configured = configures_nothing;
          refusal = rw (append-nil stored) refusal;
          cleanup = rw (append-nil slots) (release_slots-Gives b refused slots);
          reported = refl;
        },
        abandon_lem refused slots cause,
      )

  advances :
      (capabilities : Capabilities) (slots : List (Option Counter)) (stored : List Event)
      (s : State) (event : Event) (rest : List Event) (counter : Counter)
      (out : State × Result Error (List (Option Counter) × List Event))
      → Admitted capabilities stored (event ∷ [])
      → (b.configure s event).1 ≡ ok counter
      → Loops capabilities
          (slots ++ (some counter ∷ []))
          (stored ++ (event ∷ []))
          (b.configure s event).0
          rest
          out
      → Loops capabilities slots stored s (event ∷ rest) out
  advances capabilities slots stored s event rest counter out (absent, offered, _) e
        (inl (last, counters, admitted, configured, result)) =
      inl (
        last,
        counter ∷ counters,
        (absent, offered, admitted),
        configures e configured,
        result
            ∙ ap (λ filled. (last, ok (filled, (stored ++ (event ∷ [])) ++ rest)))
                (append_assoc slots (some counter ∷ []) (map some counters))
            ∙ ap (λ events. (last, ok (slots ++ (some counter ∷ map some counters), events)))
                (append_assoc stored (event ∷ []) rest),
      )
  advances capabilities slots stored s event rest counter out (absent, offered, _) e
        (inr (last, error, f, result)) =
      inr (
        last,
        error,
        record {
          passed = event ∷ f.passed;
          event = f.event;
          more = f.more;
          counters = counter ∷ f.counters;
          reached = f.reached;
          refused = f.refused;
          cause = f.cause;
          left = f.left;
          first = f.first;
          split = ap (λ events. event ∷ events) f.split;
          admitted = (absent, offered, f.admitted);
          configured = configures e f.configured;
          refusal =
              subst (λ events. Refuses b capabilities events f.reached f.event f.refused f.cause)
                (append_assoc stored (event ∷ []) f.passed) f.refusal;
          cleanup =
              subst (λ filled. Gives b f.refused (newest_first filled) last f.left f.first)
                (append_assoc slots (some counter ∷ []) (map some f.counters)) f.cleanup;
          reported = f.reported;
        },
        result,
      )

  open_slots-Loops :
      (returns : (s : State) (event : Event) → (b.configure s event).1 ≢ panic)
      (capabilities : Capabilities) (slots : List (Option Counter)) (stored : List Event)
      (s : State) (events : List Event)
      → Loops capabilities slots stored s events (open_slots b capabilities s slots stored events)
  unfolding open_slots
  open_slots-Loops returns capabilities slots stored s [] =
      inl (s, [], tt, configures_nothing, rw (append-nil slots, append-nil stored) refl)
  open_slots-Loops returns capabilities slots stored s (event ∷ rest) =
      let ends = Loops capabilities slots stored s (event ∷ rest) in
      let out = open_slots b capabilities s slots stored (event ∷ rest) in
      let then_s = (b.configure s event).0 in
      elim (stored_contains_cases stored event) [
        | inl (twice, present) ↦
            let stops : abandon b s slots duplicate_event ≡ out = rw twice refl in
            subst ends stops (
              abandons capabilities slots stored s s event rest duplicate_event
                (refuses_duplicate present))
        | inr (fresh, absent) ↦
            elim (Bool-cases (mask_contains capabilities.requestable_events event)) [
              | inr missing ↦
                  let stops : abandon b s slots unsupported ≡ out = rw (fresh, missing) refl in
                  subst ends stops (
                    abandons capabilities slots stored s s event rest unsupported
                      (refuses_unsupported absent missing))
              | inl offered ↦ elim (Result-cases (b.configure s event).1) [
                | inl (counter, e) ↦
                    let goes : open_slots b capabilities then_s (slots ++ (some counter ∷ []))
                          (stored ++ (event ∷ [])) rest
                        ≡ out =
                      rw (fresh, offered, e) refl in
                    subst ends goes (
                      advances capabilities slots stored s event rest counter _
                        (absent, offered, tt) e
                        (open_slots-Loops returns capabilities (slots ++ (some counter ∷ []))
                          (stored ++ (event ∷ [])) then_s rest))
                | inr (inl (error, e)) ↦
                    let stops : abandon b then_s slots error ≡ out = rw (fresh, offered, e) refl in
                    subst ends stops (
                      abandons capabilities slots stored s then_s event rest error
                        (refuses_configure absent offered e))
                | inr (inr e) ↦ absurd (returns s event e)
              ]
            ]
      ]

  -- The guards before the loop, in their order.
  abbrev pub TurnedAway : ℕ → State → List Event → Error → Type 0
  TurnedAway capacity s events error =
      ((events ≡ []) × (error ≡ empty_session))
      ⊎ ((capacity < length events) × (events ≢ []) × (error ≡ capacity_exceeded))
      ⊎ ((length events ≤ capacity)
          × (events ≢ [])
          × ((b.capabilities s).counter_count ≡ 0)
          × (error ≡ unsupported))

  -- The three ends of opening a session.
  abbrev pub Opens :
      ℕ → State → List Event → State × Result Error (Session State Counter) → Type (ℓ ⊔ κ)
  Opens capacity s events out =
      ((error : Error) × TurnedAway capacity s events error × (out ≡ (s, err error)))
      ⊎ ((length events ≤ capacity)
          × ((b.capabilities s).counter_count ≢ 0)
          × (((last : State) × (counters : List Counter) × Admitted (b.capabilities s) [] events
                × Configures b s events last counters
                × (out ≡ (
                  last,
                  ok (record {
                    backend = last;
                    counters = map some counters;
                    events = events;
                    running = false;
                    closed = false;
                  }),
                )))
              ⊎ ((last : State) × (error : Error) × Fails b (b.capabilities s) [] [] s events last
                    error
                  × (out ≡ (last, err error)))))

  -- For a backend whose configure returns, opening a session ends in one of three ways: a guard
  -- turns it away before any counter is made, with the backend as it was; or every event is
  -- requestable and occurs once, each has been given a counter, and the session is stopped and
  -- holds exactly those; or the loop stopped at an event that repeats, cannot be requested or was
  -- refused, every counter made before has been released once, the newest first, whether or not
  -- that failed, and the error is the first failure of a release or else the cause.
  pub open_session-Opens :
      (capacity : ℕ) (s : State) (events : List Event)
      → ((t : State) (event : Event) → (b.configure t event).1 ≢ panic)
      → Opens capacity s events (open_session b capacity s events)
  unfolding open_session
  open_session-Opens capacity s [] returns = inl (empty_session, inl (refl, refl), refl)
  open_session-Opens capacity s (event ∷ rest) returns =
      elim (Bool-cases (ltb capacity (length (event ∷ rest)))) [
        | inl over ↦
            inl (capacity_exceeded, inr (inl (ltb→lt _ _ over, (λ h. cc), refl)), rw over refl)
        | inr room ↦
            let within : length (event ∷ rest) ≤ capacity = ground arith in
            elim (Bool-cases (is_available (b.capabilities s))) [
              | inr nothing ↦ inl (
                unsupported,
                inr (inr (within, (λ h. cc), ground arith, refl)),
                rw (room, nothing) refl,
              )
              | inl offered ↦
                  let some_counter : (b.capabilities s).counter_count ≢ 0 = ground arith in
                  let finish : open_session b capacity s (event ∷ rest)
                      ≡ into_session b (open_slots b (b.capabilities s) s [] [] (event ∷ rest)) =
                    rw (room, offered) refl in
                  elim (open_slots-Loops returns (b.capabilities s) [] [] s (event ∷ rest)) [
                    | inl (last, counters, admitted, configured, e) ↦ inr (
                      within,
                      some_counter,
                      inl (last, counters, admitted, configured, finish ∙ ap (into_session b) e),
                    )
                    | inr (last, error, fails, e) ↦ inr (
                      within,
                      some_counter,
                      inr (last, error, fails, finish ∙ ap (into_session b) e),
                    )
                  ]
            ]
      ]
