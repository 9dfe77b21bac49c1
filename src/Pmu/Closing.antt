-- ===== src/Pmu/Closing.antt =====
-- crates/thekernel-axpmu/src/lib.rs: the calls of a session and its end, with errors of the backend.
use thekernel_ax.Prelude.{
  ◌≡◌, ◌≢◌, refl, sym, subst, ap, ◌∙◌, ◌⊎◌, inl, inr, false, Option, none, some, List, [], ◌∷◌,
  ◌++◌, Bool-cases, Option-cases,
}
use thekernel_ax.Prelude.Result.{Result, panic, err, ok, Result-cases, ◌>>=◌}
use thekernel_ax.Pmu.{Error, Backend, Session, get_or_insert, release_slots, stop_slots}
use thekernel_ax.Pmu.Methods.{
  roll_back, start_slots, start_session, read_slots, take_snapshot, stop_session, cleanup,
  drop_session, close_session, Call, start_call, snapshot_call, stop_call, is_panic, call_session,
  call_all,
}
use thekernel_ax.Pmu.Release.{Gives, newest_first, release_slots-Gives, Gives-first}

is_panic-bind {ℓ κ} :
    {A : Type ℓ} {B : Type κ} (r : Result Error A) (rest : A → Result Error B)
    → is_panic r ≡ false
    → ((value : A) → is_panic (rest value) ≡ false)
    → is_panic (r >>= rest) ≡ false
is_panic-bind panic rest h fine = h
is_panic-bind (err error) rest h fine = refl
is_panic-bind (ok value) rest h fine = fine value

-- Every slot has its counter.
abbrev pub Filled {ℓ} : {Counter : Type ℓ} → List (Option Counter) → Type 0
Filled [] = Unit
Filled (none ∷ rest) = ⊥
Filled (some counter ∷ rest) = Filled rest

Filled-append {ℓ} :
    {Counter : Type ℓ} (slots : List (Option Counter)) (counter : Counter)
    → Filled slots
    → Filled (slots ++ (some counter ∷ []))
Filled-append [] counter h = tt
Filled-append (none ∷ rest) counter h = absurd h
Filled-append (some c ∷ rest) counter h = Filled-append rest counter h

module _ {ℓ κ} {State : Type ℓ} {Counter : Type κ} (b : Backend State Counter) where
  stop_slots_lem :
      (s : State) (slots : List (Option Counter))
      → Filled slots
      → (first_error : Option Error) × ((stop_slots b s slots).1 ≡ ok first_error)
  unfolding stop_slots
  stop_slots_lem s [] filled = (none, refl)
  stop_slots_lem s (none ∷ rest) filled = absurd filled
  stop_slots_lem s (some counter ∷ rest) filled =
      let (first_error, e) = stop_slots_lem s rest filled in
      (get_or_insert first_error (b.stop (stop_slots b s rest).0 counter).1, rw e refl)

  roll_back_lem :
      (s : State) (started : List (Option Counter)) (error : Error)
      → Filled started
      → is_panic (roll_back b s started error).2 ≡ false
  unfolding roll_back
  roll_back_lem s started error filled =
      let (first_error, e) = stop_slots_lem s started filled in
      elim (Option-cases first_error) [
        | inl clean ↦ rw (roll_back, e, clean) refl
        | inr (first, failed) ↦ rw (roll_back, e, failed) refl
      ]

  start_slots_lem :
      (s : State) (started slots : List (Option Counter))
      → Filled started
      → Filled slots
      → is_panic (start_slots b s started slots).2 ≡ false
  unfolding start_slots
  start_slots_lem s started [] before filled = refl
  start_slots_lem s started (none ∷ rest) before filled = absurd filled
  start_slots_lem s started (some counter ∷ rest) before filled =
      elim (Option-cases (b.start s counter).1) [
        | inl e ↦
            rw (start_slots, e)
              (start_slots_lem (b.start s counter).0 (started ++ (some counter ∷ [])) rest
                (Filled-append started counter before) filled)
        | inr (error, e) ↦
            rw (start_slots, e) (roll_back_lem (b.start s counter).0 started error before)
      ]

  read_slots_lem :
      ((s : State) (counter : Counter) → (b.read s counter).1 ≢ panic)
      → (s : State) (slots : List (Option Counter)) → Filled slots
      → is_panic (read_slots b s slots).1 ≡ false
  unfolding read_slots
  read_slots_lem returns s [] filled = refl
  read_slots_lem returns s (none ∷ rest) filled = absurd filled
  read_slots_lem returns s (some counter ∷ rest) filled = elim (Result-cases (b.read s counter).1) [
    | inl (value, e) ↦
        rw (read_slots, e)
          (is_panic-bind (read_slots b (b.read s counter).0 rest).1 (λ values. ok (value ∷ values))
            (read_slots_lem returns (b.read s counter).0 rest filled) (λ values. refl))
    | inr (inl (error, e)) ↦ rw (read_slots, e) refl
    | inr (inr e) ↦ absurd (returns s counter e)
  ]

  -- A call leaves the slots alone and does not panic.
  call_session_lem :
      ((s : State) (counter : Counter) → (b.read s counter).1 ≢ panic)
      → (session : Session State Counter) (call : Call) → Filled session.counters
      → ((call_session b session call).0.counters ≡ session.counters)
        × ((call_session b session call).0.closed ≡ session.closed)
        × ((call_session b session call).1 ≡ false)
  unfolding call_session start_session take_snapshot stop_session
  call_session_lem returns session start_call filled = elim (Bool-cases session.running) [
    | inl on ↦ rw on (refl, refl, refl)
    | inr off ↦ rw off (refl, refl, start_slots_lem session.backend [] session.counters tt filled)
  ]
  call_session_lem returns session snapshot_call filled = elim (Bool-cases session.running) [
    | inr off ↦ rw off (refl, refl, refl)
    | inl on ↦ rw on (
      refl,
      refl,
      is_panic-bind (read_slots b session.backend session.counters).1 _
          (read_slots_lem returns session.backend session.counters filled) (λ values. refl),
    )
  ]
  call_session_lem returns session stop_call filled = elim (Bool-cases session.running) [
    | inr off ↦ rw off (refl, refl, refl)
    | inl on ↦
        let (first_error, e) = stop_slots_lem session.backend session.counters filled in
        elim (Option-cases first_error) [
          | inl clean ↦ rw (on, e, clean) (refl, refl, refl)
          | inr (error, failed) ↦ rw (on, e, failed) (refl, refl, refl)
        ]
  ]

  call_all_lem :
      ((s : State) (counter : Counter) → (b.read s counter).1 ≢ panic)
      → (session : Session State Counter) (calls : List Call) → Filled session.counters
      → (last : Session State Counter) × (call_all b session calls ≡ ok last)
        × (last.counters ≡ session.counters)
        × (last.closed ≡ session.closed)
  unfolding call_all
  call_all_lem returns session [] filled = (session, refl, refl, refl)
  call_all_lem returns session (call ∷ rest) filled =
      let next = (call_session b session call).0 in
      let (slots, alive, fine) = call_session_lem returns session call filled in
      let (last, e, slots', alive') =
        call_all_lem returns next rest (subst Filled (sym slots) filled) in
      (last, rw fine e, slots' ∙ slots, alive' ∙ alive)

  -- The end of a session: each counter is released once, the newest first. Where all of them are
  -- given back, closing succeeds; otherwise it reports the first error, and the drop at its end
  -- tries the counters that are left once more.
  abbrev pub Ends : Session State Counter → Type (ℓ ⊔ κ)
  Ends session =
      (last : State) × (left : List Counter) × (first : Option Error) × Gives b session.backend
        (newest_first session.counters) last left first
      × (drop_session b session ≡ last)
      × (((first ≡ none) × (left ≡ []) × (close_session b session ≡ (last, none)))
          ⊎ ((error : Error) × (first ≡ some error)
              × (left ≢ [])
              × (final : State) × (still : List Counter) × (again : Option Error) × Gives b last
                  left final still again
              × (close_session b session ≡ (final, some error))))

  cleanup-Gives :
      (session : Session State Counter)
      → let out = cleanup b session in
        Gives b session.backend
          (newest_first session.counters)
          out.0.backend
          (newest_first out.0.counters)
          out.1
        × (out.0.closed ≡ session.closed)
  unfolding cleanup
  cleanup-Gives session =
      let gives = release_slots-Gives b session.backend session.counters in
      let released = release_slots b session.backend session.counters in
      let gave =
        Gives b session.backend (newest_first session.counters) released.0
          (newest_first released.1) in
      elim (Option-cases (release_slots b session.backend session.counters).2) [
        | inl clean ↦ rw (cleanup, clean) (subst gave clean gives, refl)
        | inr (error, failed) ↦ rw (cleanup, failed) (subst gave failed gives, refl)
      ]

  drop_session_lem :
      (session : Session State Counter)
      → session.closed ≡ false
      → drop_session b session ≡ (cleanup b session).0.backend
  unfolding drop_session
  drop_session_lem session alive = simp (drop_session, alive)

  ends : (session : Session State Counter) → session.closed ≡ false → Ends session
  unfolding close_session drop_session
  ends session alive =
      let out = cleanup b session in
      let (gives, kept) = cleanup-Gives session in
      let (gives', kept') = cleanup-Gives out.0 in
      (
        out.0.backend,
        newest_first out.0.counters,
        out.1,
        gives,
        drop_session_lem session alive,
        elim (Gives-first b gives) [
          | inl (clean, nothing) ↦ inl (clean, nothing, rw (close_session, clean) refl)
          | inr (error, failed, something) ↦ inr (
            error,
            failed,
            something,
            (cleanup b out.0).0.backend,
            newest_first (cleanup b out.0).0.counters,
            (cleanup b out.0).1,
            gives',
            rw (close_session, failed)
                (ap (λ s. (s, some error)) (drop_session_lem out.0 (kept ∙ alive))),
          )
        ],
      )

  -- For a backend whose read returns, a session with a counter in each slot can be started,
  -- stopped and read in any order, errors included, without a panic and keeps its counters;
  -- dropping it then releases each counter once, the newest first; closing it does that too, and
  -- succeeds where all are given back, else reports the first failure and tries the counters that
  -- are left once more.
  pub close_session-Ends :
      (session : Session State Counter) (calls : List Call)
      → ((s : State) (counter : Counter) → (b.read s counter).1 ≢ panic)
      → Filled session.counters
      → session.closed ≡ false
      → (last : Session State Counter) × (call_all b session calls ≡ ok last)
        × (last.counters ≡ session.counters)
        × Ends last
  close_session-Ends session calls returns filled alive =
      let (last, e, slots, alive') = call_all_lem returns session calls filled in
      (last, e, slots, ends last (alive' ∙ alive))
