-- ===== src/Pmu/Release.antt =====
-- crates/thekernel-axpmu/src/lib.rs: the loops that release counters, as calls of the backend.
use thekernel_ax.Prelude.{
  ◌≡◌, ◌≢◌, refl, ◌⊎◌, inl, inr, Option, none, some, List, [], ◌∷◌, ◌++◌, Option-cases,
}
use thekernel_ax.Pmu.{Error, Backend, get_or_insert, release_slots}

-- The counters of slots, those of later slots first.
abbrev pub newest_first {ℓ} : {Counter : Type ℓ} → List (Option Counter) → List Counter
newest_first [] = []
newest_first (none ∷ rest) = newest_first rest
newest_first (some counter ∷ rest) = newest_first rest ++ (counter ∷ [])

-- One call of `release` for each counter of a list, in its order: the state and the counters that
-- could not be given back at the end, and the first error.
pub data Gives {ℓ κ} {State : Type ℓ} {Counter : Type κ} (b : Backend State Counter)
    : State → List Counter → State → List Counter → Option Error → Type (ℓ ⊔ κ) where
  gives_nothing : {s : State} → Gives b s [] s [] none
  gives_back :
      {s last : State} {counter : Counter} {rest left : List Counter} {first : Option Error}
      → (b.release s counter).1 ≡ none
      → Gives b (b.release s counter).0 rest last left first
      → Gives b s (counter ∷ rest) last left first
  keeps :
      {s last : State} {counter : Counter} {rest left : List Counter} {first : Option Error}
      {error : Error}
      → (b.release s counter).1 ≡ some error
      → Gives b (b.release s counter).0 rest last left first
      → Gives b s (counter ∷ rest) last (counter ∷ left) (some error)

module _ {ℓ κ} {State : Type ℓ} {Counter : Type κ} (b : Backend State Counter) where
  gives_one :
      {s last : State} {counters left : List Counter} {first : Option Error} {counter : Counter}
      → Gives b s counters last left first
      → (b.release last counter).1 ≡ none
      → Gives b s (counters ++ (counter ∷ [])) (b.release last counter).0 left first
  gives_one gives_nothing e = gives_back e gives_nothing
  gives_one (gives_back f g) e = gives_back f (gives_one g e)
  gives_one (keeps f g) e = keeps f (gives_one g e)

  keeps_one :
      {s last : State} {counters left : List Counter} {first : Option Error} {counter : Counter}
      {error : Error}
      → Gives b s counters last left first
      → (b.release last counter).1 ≡ some error
      → Gives b s
          (counters ++ (counter ∷ []))
          (b.release last counter).0
          (left ++ (counter ∷ []))
          (get_or_insert first (some error))
  keeps_one gives_nothing e = keeps e gives_nothing
  keeps_one (gives_back f g) e = gives_back f (keeps_one g e)
  keeps_one (keeps f g) e = keeps f (keeps_one g e)

  -- The loops call `release` once for the counter of each slot, later slots first; the slots keep
  -- the counters that could not be given back.
  pub release_slots-Gives :
      (s : State) (slots : List (Option Counter))
      → let out = release_slots b s slots in
        Gives b s (newest_first slots) out.0 (newest_first out.1) out.2
  unfolding release_slots
  release_slots-Gives s [] = gives_nothing
  release_slots-Gives s (none ∷ rest) = release_slots-Gives s rest
  release_slots-Gives s (some counter ∷ rest) =
      let later = release_slots b s rest in
      let gives = release_slots-Gives s rest in
      elim (Option-cases (b.release later.0 counter).1) [
        | inl e ↦ rw (release_slots, e) (gives_one gives e)
        | inr (error, e) ↦ rw (release_slots, e) (keeps_one gives e)
      ]

  -- There is an error exactly when a counter could not be given back.
  pub Gives-first :
      {s last : State} {counters left : List Counter} {first : Option Error}
      → Gives b s counters last left first
      → ((first ≡ none) × (left ≡ [])) ⊎ ((error : Error) × (first ≡ some error) × (left ≢ []))
  Gives-first gives_nothing = inl (refl, refl)
  Gives-first (gives_back e g) = Gives-first g
  Gives-first (keeps {error = error} e g) = inr (error, refl, λ h. cc)
