-- ===== src/Pmu/Outcome.antt =====
-- crates/thekernel-axpmu/src/lib.rs: what opening a session may do to the backend.
use thekernel_ax.Prelude.{
  ℕ, zero, suc, ◌≡◌, ◌≢◌, refl, ap, ◌⊎◌, inl, inr, true, false, Option, some, List, [], ◌∷◌, ◌++◌,
  map, get_elem?, Bool-cases, arith,
}
use thekernel_ax.Prelude.Result.{err, ok}
use mathlib.Core.Option.{get_or}
use thekernel_ax.Pmu.{
  Event, event_bit, cpu_cycles, instructions, data_tlb_read_misses, data_tlb_write_misses,
  instruction_tlb_read_misses, Error, duplicate_event, unsupported, Capabilities, Backend,
  same_event, stored_contains, mask_contains,
}
use thekernel_ax.Pmu.Release.{Gives, newest_first}

abbrev pub Present : Event → List Event → Type 0
Present event events = (j : ℕ) × (get_elem? events j ≡ some event)

abbrev pub Absent : Event → List Event → Type 0
Absent event events = (j : ℕ) → get_elem? events j ≢ some event

-- Events that may follow others: requestable ones, each of which is not there yet.
abbrev pub Admitted : Capabilities → List Event → List Event → Type 0
Admitted capabilities stored [] = Unit
Admitted capabilities stored (event ∷ rest) =
    Absent event stored
    × (mask_contains capabilities.requestable_events event ≡ true)
    × Admitted capabilities (stored ++ (event ∷ [])) rest

-- The backend configures a counter for each event of a list, in its order.
pub data Configures {ℓ κ} {State : Type ℓ} {Counter : Type κ} (b : Backend State Counter)
    : State → List Event → State → List Counter → Type (ℓ ⊔ κ) where
  configures_nothing : {s : State} → Configures b s [] s []
  configures :
      {s last : State} {event : Event} {rest : List Event} {counter : Counter}
      {counters : List Counter}
      → (b.configure s event).1 ≡ ok counter
      → Configures b (b.configure s event).0 rest last counters
      → Configures b s (event ∷ rest) last (counter ∷ counters)

-- Why no counter is made for an event behind others, and what that leaves of the backend.
pub data Refuses {ℓ κ} {State : Type ℓ} {Counter : Type κ} (b : Backend State Counter)
    (capabilities : Capabilities) (stored : List Event) (s : State) (event : Event)
    : State → Error → Type (ℓ ⊔ κ) where
  refuses_duplicate : Present event stored → Refuses b capabilities stored s event s duplicate_event
  refuses_unsupported :
      Absent event stored
      → mask_contains capabilities.requestable_events event ≡ false
      → Refuses b capabilities stored s event s unsupported
  refuses_configure :
      {error : Error}
      → Absent event stored
      → mask_contains capabilities.requestable_events event ≡ true
      → (b.configure s event).1 ≡ err error
      → Refuses b capabilities stored s event (b.configure s event).0 error

-- The loop of `open` over `events`, with `slots` filled for the events `stored`, that ends in an
-- error: the events it passed, the one it stopped at, and the calls of `release` that follow.
pub record Fails {ℓ κ} {State : Type ℓ} {Counter : Type κ} (b : Backend State Counter)
    (capabilities : Capabilities) (slots : List (Option Counter)) (stored : List Event) (s : State)
    (events : List Event) (last : State) (error : Error) : Type (ℓ ⊔ κ) where
  pub passed : List Event
  pub event : Event
  pub more : List Event
  pub counters : List Counter
  pub reached : State
  pub refused : State
  pub cause : Error
  pub left : List Counter
  pub first : Option Error
  pub split : events ≡ passed ++ (event ∷ more)
  pub admitted : Admitted capabilities stored passed
  pub configured : Configures b s passed reached counters
  pub refusal : Refuses b capabilities (stored ++ passed) reached event refused cause
  pub cleanup : Gives b refused (newest_first (slots ++ map some counters)) last left first
  pub reported : error ≡ get_or first cause

same_event-eq : (a b : Event) → same_event a b ≡ true → a ≡ b
unfolding event_bit
same_event-eq cpu_cycles cpu_cycles h = refl
same_event-eq instructions instructions h = refl
same_event-eq data_tlb_read_misses data_tlb_read_misses h = refl
same_event-eq data_tlb_write_misses data_tlb_write_misses h = refl
same_event-eq instruction_tlb_read_misses instruction_tlb_read_misses h = refl
same_event-eq _ _ h = ground arith

same_event_self : (a : Event) → same_event a a ≡ true
unfolding event_bit
same_event_self cpu_cycles = refl
same_event_self instructions = refl
same_event_self data_tlb_read_misses = refl
same_event_self data_tlb_write_misses = refl
same_event_self instruction_tlb_read_misses = refl

pub stored_contains_cases :
    (stored : List Event) (event : Event)
    → ((stored_contains stored event ≡ true) × Present event stored)
      ⊎ ((stored_contains stored event ≡ false) × Absent event stored)
stored_contains_cases [] event = inr (refl, λ j e. cc)
stored_contains_cases (a ∷ rest) event = elim (Bool-cases (same_event a event)) [
  | inl same ↦ inl (rw same refl, (zero, ap some (same_event-eq a event same)))
  | inr other ↦ elim (stored_contains_cases rest event) [
    | inl (contained, (j, found)) ↦ inl (rw other contained, (suc j, found))
    | inr (missing, absent) ↦ inr (rw other missing, behind other absent)
  ]
]
  where
    behind : same_event a event ≡ false → Absent event rest → Absent event (a ∷ rest)
    behind other absent zero e = ground (arith, same_event_self event)
    behind other absent (suc j) e = absent j e
