-- ===== src/Pmu.antt =====
-- crates/thekernel-axpmu/src/lib.rs: counter sessions over a hardware backend, which is a
-- parameter.
pub mod Methods
pub mod Release
pub mod Outcome
pub mod Opening
pub mod Closing
pub mod Stopping
pub mod Starting
mod Tests
use thekernel_ax.Prelude.{
  ℕ, ◌^◌, Bool, true, false, not, Option, none, some, List, [], ◌∷◌, ◌++◌, ltb, ◌==◌, if◌then◌else◌,
  bit_and, bit_or, length,
}
use thekernel_ax.Prelude.Result.{Result, panic, err, ok}

pub data Event : Type 0 where
  cpu_cycles : Event
  instructions : Event
  data_tlb_read_misses : Event
  data_tlb_write_misses : Event
  instruction_tlb_read_misses : Event

unfoldable pub event_bit : Event → ℕ
event_bit cpu_cycles = 2 ^ 0
event_bit instructions = 2 ^ 1
event_bit data_tlb_read_misses = 2 ^ 2
event_bit data_tlb_write_misses = 2 ^ 3
event_bit instruction_tlb_read_misses = 2 ^ 4

-- `EventMask`, a u8 of which five bits are in use.
pub record EventMask : Type 0 where
  pub bits : ℕ

abbrev pub no_events : EventMask
no_events = record { bits = 0 }

abbrev pub all_events : EventMask
all_events = record { bits = 31 }

abbrev pub from_event : Event → EventMask
unfolding event_bit
from_event event = record { bits = event_bit event }

unfoldable pub mask_contains : EventMask → Event → Bool
unfolding event_bit
mask_contains mask event = not (bit_and mask.bits (event_bit event) == 0)

abbrev pub union : EventMask → EventMask → EventMask
union mask other = record { bits = bit_or mask.bits other.bits }

-- `CounterSource` has one value and is left out.
pub record Capabilities : Type 0 where
  pub counter_count : ℕ
  pub requestable_events : EventMask
  pub consistent_snapshot : Bool

abbrev pub is_available : Capabilities → Bool
is_available capabilities = not (capabilities.counter_count == 0)

-- The payload of `BackendFailure` is not looked at by the session: a number stands for it.
pub data Error : Type 0 where
  unsupported : Error
  no_counter : Error
  empty_session : Error
  capacity_exceeded : Error
  duplicate_event : Error
  already_running : Error
  not_running : Error
  invalid_request : Error
  value_unavailable : Error
  backend_failure : ℕ → Error

-- The trait, with the state of the hardware passed on. Where the source has `Result<(), Error>`,
-- `none` is success.
pub record Backend {ℓ κ} (State : Type ℓ) (Counter : Type κ) : Type (ℓ ⊔ κ) where
  pub capabilities : State → Capabilities
  pub configure : State → Event → State × Result Error Counter
  pub start : State → Counter → State × Option Error
  pub read : State → Counter → State × Result Error ℕ
  pub stop : State → Counter → State × Option Error
  pub release : State → Counter → State × Option Error

-- Of the arrays of `N` slots, the first `len` ones; the later ones are never read.
pub record Session {ℓ κ} (State : Type ℓ) (Counter : Type κ) : Type (ℓ ⊔ κ) where
  pub backend : State
  pub counters : List (Option Counter)
  pub events : List Event
  pub running : Bool
  pub closed : Bool

pub record Snapshot : Type 0 where
  pub events : List Event
  pub values : List ℕ
  pub consistent : Bool

-- `first_error.get_or_insert(error)`.
abbrev pub get_or_insert : Option Error → Option Error → Option Error
get_or_insert none error = error
get_or_insert (some first) error = some first

-- The match on the result of a release: a slot whose counter is given back is emptied.
abbrev pub record_release {ℓ κ} :
    {State : Type ℓ} {Counter : Type κ}
    → State
    → List (Option Counter)
    → Option Error
    → Counter
    → Option Error
    → State × List (Option Counter) × Option Error
record_release s later first_error counter none = (s, none ∷ later, first_error)
record_release s later first_error counter (some error) =
    (s, some counter ∷ later, get_or_insert first_error (some error))

abbrev pub same_event : Event → Event → Bool
unfolding event_bit
same_event a b = event_bit a == event_bit b

abbrev pub stored_contains : List Event → Event → Bool
stored_contains [] event = false
stored_contains (stored ∷ rest) event =
    if same_event stored event then true else stored_contains rest event

module _ {ℓ κ} {State : Type ℓ} {Counter : Type κ} (b : Backend State Counter) where
  -- One round of the loops that release, from what the later slots left.
  abbrev pub release_slot :
      State
      → List (Option Counter)
      → Option Error
      → Option Counter
      → State × List (Option Counter) × Option Error
  release_slot s later first_error none = (s, none ∷ later, first_error)
  release_slot s later first_error (some counter) =
      let out = b.release s counter in record_release out.0 later first_error counter out.1

  -- The loops run over the slots in reverse.
  unfoldable pub release_slots :
      State → List (Option Counter) → State × List (Option Counter) × Option Error
  release_slots s [] = (s, [], none)
  release_slots s (slot ∷ rest) =
      let later = release_slots s rest in release_slot later.0 later.1 later.2 slot

  -- `release_prefix`, and the error that `open` returns then.
  unfoldable pub abandon {μ} :
      {A : Type μ} → State → List (Option Counter) → Error → State × Result Error A
  unfolding release_slots
  abandon s counters error =
      let out = release_slots s counters in
      (out.0, elim out.2 [ none ↦ err error | some cleanup ↦ err cleanup ])

  -- The loop of `open`: the slots filled so far, and the events that are left.
  unfoldable pub open_slots :
      Capabilities
      → State
      → List (Option Counter)
      → List Event
      → List Event
      → State × Result Error (List (Option Counter) × List Event)
  open_slots capabilities s counters stored [] = (s, ok (counters, stored))
  open_slots capabilities s counters stored (event ∷ rest) =
      let out = b.configure s event in
      if stored_contains stored event
      then abandon s counters duplicate_event
      else if not (mask_contains capabilities.requestable_events event)
      then abandon s counters unsupported
      else elim out.1 [
        | ok counter ↦
            open_slots capabilities out.0 (counters ++ (some counter ∷ [])) (stored ++ (event ∷ []))
              rest
        | err error ↦ abandon out.0 counters error
        | panic ↦ (out.0, panic)
      ]

  -- The session that `open` makes of what its loop has filled.
  abbrev pub into_session :
      State × Result Error (List (Option Counter) × List Event)
      → State × Result Error (Session State Counter)
  into_session out = (
    out.0,
    elim out.1 [
      | ok parts ↦ ok (record {
        backend = out.0;
        counters = parts.0;
        events = parts.1;
        running = false;
        closed = false;
      })
      | err error ↦ err error
      | panic ↦ panic
    ],
  )

  -- `Session::open` with room for `capacity` counters.
  unfoldable pub open_session :
      ℕ → State → List Event → State × Result Error (Session State Counter)
  unfolding open_slots
  open_session capacity s [] = (s, err empty_session)
  open_session capacity s (event ∷ rest) =
      if ltb capacity (length (event ∷ rest))
      then (s, err capacity_exceeded)
      else if not (is_available (b.capabilities s))
      then (s, err unsupported)
      else into_session (open_slots (b.capabilities s) s [] [] (event ∷ rest))

  -- One round of the loops that stop; an empty slot is a panic.
  abbrev pub stop_slot :
      State → Result Error (Option Error) → Option Counter → State × Result Error (Option Error)
  stop_slot s (ok first_error) (some counter) =
      let out = b.stop s counter in (out.0, ok (get_or_insert first_error out.1))
  stop_slot s (ok first_error) none = (s, panic)
  stop_slot s _ slot = (s, panic)

  -- In reverse, with the first error.
  unfoldable pub stop_slots : State → List (Option Counter) → State × Result Error (Option Error)
  stop_slots s [] = (s, ok none)
  stop_slots s (slot ∷ rest) = let later = stop_slots s rest in stop_slot later.0 later.1 slot
