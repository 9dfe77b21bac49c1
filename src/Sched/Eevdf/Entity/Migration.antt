-- ===== src/Sched/Eevdf/Entity/Migration.antt =====
-- crates/thekernel-axsched/src/eevdf_model.rs: `MigrationSnapshot`, `migration_snapshot` and
-- `from_migration`.
use thekernel_ax.Prelude.{
  ℕ, ◌≡◌, ◌≤◌, Bool, true, false, ◌||◌, ◌&&◌, leb, ◌==◌, if◌then◌else◌, none, arith, not, refl,
  le→leb,
}
use thekernel_ax.Prelude.Int.{ℤ, ◌+ℤ◌, ◌-ℤ◌, int_laws, leb_ℤ}
use thekernel_ax.Prelude.Result.{Result, err, ok, ◌>>=◌, ◌>>◌, >>=-ok}
use thekernel_ax.Sched.Eevdf.Word.{
  EevdfProfile, RequestClass, normal, batch, idle, target_ticks, ModelError, invalid_weight,
  invalid_state, sub_i128, add_i128, FitsI128, fits_i128,
}
use thekernel_ax.Sched.Eevdf.Signed.{checked_virtual_length}
use thekernel_ax.Sched.Eevdf.Request.{Request, exact_valid}
use thekernel_ax.Sched.Eevdf.Entity.{Entity, is_sleeping, lag_at}

pub record MigrationSnapshot : Type 0 where
  pub kind : RequestClass
  pub weight : ℕ
  pub request : Request
  pub lag : ℤ
  pub source_v : ℤ
  pub start_offset : ℤ
  pub deadline_offset : ℤ

unfoldable pub migration_snapshot : Entity → ℤ → Result ModelError MigrationSnapshot
migration_snapshot e source_v =
    if e.weight == 0
    then err invalid_weight
    else if is_sleeping e
    then err invalid_state
    else lag_at e source_v >>= λ lag. sub_i128 e.request.start source_v >>= λ start_offset.
        sub_i128 e.request.deadline source_v >>= λ deadline_offset. ok (record {
          kind = e.kind;
          weight = e.weight;
          request = e.request;
          lag = lag;
          source_v = source_v;
          start_offset = start_offset;
          deadline_offset = deadline_offset;
        })

-- Equality of classes and of integers.
abbrev pub same_kind : RequestClass → RequestClass → Bool
same_kind normal normal = true
same_kind batch batch = true
same_kind idle idle = true
same_kind _ _ = false

abbrev pub same_ℤ : ℤ → ℤ → Bool
same_ℤ a b = leb_ℤ a b && leb_ℤ b a

-- The tests before the request is checked, and those after.
abbrev pub request_in_bounds : EevdfProfile → MigrationSnapshot → Bool
request_in_bounds profile s =
    leb s.request.q (target_ticks profile s.kind)
    && leb s.request.remaining_ticks s.request.q
    && not (s.request.remaining_fraction_den == 0)
    && leb s.request.remaining_fraction_num s.request.remaining_fraction_den

-- The comparison of the offsets stops at the first that differs.
abbrev pub check_offsets : MigrationSnapshot → Result ModelError (Unit {0})
check_offsets s = sub_i128 s.request.start s.source_v >>= λ start.
    if not (same_ℤ s.start_offset start)
    then err invalid_state
    else sub_i128 s.request.deadline s.source_v >>= λ deadline.
        if same_ℤ s.deadline_offset deadline then ok tt else err invalid_state

abbrev pub rebased : MigrationSnapshot → ℤ → Result ModelError Entity
rebased s destination_v = add_i128 destination_v s.start_offset >>= λ start.
    add_i128 destination_v s.deadline_offset >>= λ deadline. ok (record {
      kind = s.kind;
      weight = s.weight;
      lag = s.lag;
      lag_stamp = destination_v;
      request = record s.request { start = start; deadline = deadline };
      sleeper_v = none;
    })

unfoldable pub from_migration : EevdfProfile → MigrationSnapshot → ℤ → Result ModelError Entity
from_migration profile s destination_v =
    if s.weight == 0 || s.request.q == 0
    then err invalid_state
    else if not (same_kind s.request.kind s.kind)
    then err invalid_state
    else if not (request_in_bounds profile s)
    then err invalid_state
    else exact_valid s.request
      >> (checked_virtual_length s.request.q s.weight >>= λ expected_length.
          if not (same_ℤ s.request.virtual_length expected_length)
          then err invalid_state
          else check_offsets s >> rebased s destination_v)

-- An entity that a queue at `source_v` can hand over: awake, with a weight and with a consistent
-- request of its own class.
pub record IsMigratable (profile : EevdfProfile) (e : Entity) (source_v lag : ℤ) : Type 0 where
  pub awake : is_sleeping e ≡ false
  pub weighed : (e.weight == 0) ≡ false
  pub lag_known : lag_at e source_v ≡ ok lag
  pub class_kept : same_kind e.request.kind e.kind ≡ true
  pub quantum_left : (e.request.q == 0) ≡ false
  pub quantum_bound : e.request.q ≤ target_ticks profile e.kind
  pub ticks_bound : e.request.remaining_ticks ≤ e.request.q
  pub fraction_den : (e.request.remaining_fraction_den == 0) ≡ false
  pub fraction_bound : e.request.remaining_fraction_num ≤ e.request.remaining_fraction_den
  pub consistent : exact_valid e.request ≡ ok tt
  pub length_exact : checked_virtual_length e.request.q e.weight ≡ ok e.request.virtual_length
  pub start_fits : FitsI128 (e.request.start -ℤ source_v)
  pub deadline_fits : FitsI128 (e.request.deadline -ℤ source_v)

same_ℤ_refl : (a : ℤ) → same_ℤ a a ≡ true
same_ℤ_refl a = ground arith

in_range : (a : ℤ) → FitsI128 a → fits_i128 a ≡ true
in_range a h = ground arith

abbrev snapshot_of : Entity → ℤ → ℤ → MigrationSnapshot
snapshot_of e source_v lag = record {
  kind = e.kind;
  weight = e.weight;
  request = e.request;
  lag = lag;
  source_v = source_v;
  start_offset = e.request.start -ℤ source_v;
  deadline_offset = e.request.deadline -ℤ source_v;
}

-- An entity that can be handed over arrives at any queue whose virtual time leaves room for its
-- request: it brings its lag to the new stamp, its request keeps its distance from the virtual
-- time, its progress and its quantum, it has the class and the weight it had, and it is awake.
pub migration-arrives :
    (profile : EevdfProfile) (e : Entity) (source_v destination_v lag : ℤ)
    → IsMigratable profile e source_v lag
    → FitsI128 (destination_v +ℤ (e.request.start -ℤ source_v))
    → FitsI128 (destination_v +ℤ (e.request.deadline -ℤ source_v))
    → (moved : Entity) × ((migration_snapshot e source_v >>= λ s.
          from_migration profile s destination_v)
        ≡ ok moved)
      × (moved.lag ≡ lag)
      × (moved.lag_stamp ≡ destination_v)
      × (moved.request.start -ℤ destination_v ≡ e.request.start -ℤ source_v)
      × (moved.request.deadline -ℤ destination_v ≡ e.request.deadline -ℤ source_v)
      × (moved.request
          ≡ record e.request { start = moved.request.start; deadline = moved.request.deadline })
      × (moved.kind ≡ e.kind)
      × (moved.weight ≡ e.weight)
      × (is_sleeping moved ≡ false)
unfolding migration_snapshot from_migration
migration-arrives profile e source_v destination_v lag m hs hd =
    let s : MigrationSnapshot = snapshot_of e source_v lag in
    let start = destination_v +ℤ (e.request.start -ℤ source_v) in
    let deadline = destination_v +ℤ (e.request.deadline -ℤ source_v) in
    let start_tested = in_range (e.request.start -ℤ source_v) m.start_fits in
    let deadline_tested = in_range (e.request.deadline -ℤ source_v) m.deadline_fits in
    let start_tested' = in_range start hs in
    let deadline_tested' = in_range deadline hd in
    let taken : migration_snapshot e source_v ≡ ok s =
      rw (m.weighed, m.awake) (>>=-ok m.lag_known _ (rw (start_tested, deadline_tested) refl)) in
    let guard : (e.weight == 0 || e.request.q == 0) ≡ false = rw (m.weighed, m.quantum_left) refl in
    let bounds : request_in_bounds profile s ≡ true =
      rw
        (
          le→leb _ _ m.quantum_bound,
          le→leb _ _ m.ticks_bound,
          m.fraction_den,
          le→leb _ _ m.fraction_bound,
        )
        refl in
    let moved : Entity = record {
      kind = e.kind;
      weight = e.weight;
      lag = lag;
      lag_stamp = destination_v;
      request = record e.request { start = start; deadline = deadline };
      sleeper_v = none;
    } in
    let arrives : from_migration profile s destination_v ≡ ok moved =
      rw (guard, m.class_kept, bounds)
        (>>=-ok m.consistent _ (
          >>=-ok m.length_exact _ (
            rw
              (
                same_ℤ_refl e.request.virtual_length,
                start_tested,
                same_ℤ_refl (e.request.start -ℤ source_v),
                deadline_tested,
                same_ℤ_refl (e.request.deadline -ℤ source_v),
                start_tested',
                deadline_tested',
              )
              refl))) in
    (
      moved,
      >>=-ok taken _ arrives,
      refl,
      refl,
      omega int_laws,
      omega int_laws,
      refl,
      refl,
      refl,
      refl,
    )
