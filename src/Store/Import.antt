-- ===== src/Store/Import.antt =====
-- crates/store/src/import.rs: the planned run of an atomic append, and the two checks that every
-- atomic append makes before storage work.
pub mod Valid
pub mod Plan
use mnesis.Base.{ℕ, suc, Option, none, some, List, [], ◌∷◌, map, ◌==◌, if◌then◌else◌}
use mnesis.Base.Result.{Result, ok, err, ◌>>=◌, ◌>>◌}
use mnesis.Kernel.Version
use mnesis.Kernel.Version.{Version}
use mnesis.Store.Envelope.{PendingEnvelope, PendingBatch, batch_iter}
use mnesis.Store.Append.{StreamKey, key_eq}

pub record PlannedAppend : Type 0 where
  pub target : StreamKey
  pub expected_version : Option Version
  pub head : PendingEnvelope
  pub tail : List PendingEnvelope

-- `PlannedAppend::batch`
abbrev pub batch : PlannedAppend → PendingBatch
batch w = record { first = w.head; rest = w.tail }

pub data InvalidRun : Type 0 where
  non_sequential : ℕ → Version → Version → InvalidRun
  version_overflow : ℕ → InvalidRun

pub record InvalidRoute : Type 0 where
  pub target : StreamKey
  pub first_index : ℕ
  pub index : ℕ

-- The version that a run must start at.
abbrev pub first_version : Option Version → Option Version
first_version none = some Version.initial
first_version (some v) = Version.next v

-- The inner loop of `validate_atomic_runs`, over one run.
unfoldable pub check_run : ℕ → Option Version → List PendingEnvelope → Result InvalidRun (Unit {0})
check_run index next [] = ok tt
check_run index next (envelope ∷ envelopes) = elim next [
  | none ↦ err (version_overflow index)
  | some expected ↦
      if envelope.version.as_u64 == expected.as_u64
      then check_run index (Version.next expected) envelopes
      else err (non_sequential index expected envelope.version)
]

-- `validate_atomic_runs`, from the run at `index` on.
unfoldable pub check_runs : ℕ → List PlannedAppend → Result InvalidRun (Unit {0})
check_runs index [] = ok tt
check_runs index (write ∷ writes) = do
  check_run index (first_version write.expected_version) (batch_iter (batch write))
  check_runs (suc index) writes

abbrev pub validate_atomic_runs : List PlannedAppend → Result InvalidRun (Unit {0})
validate_atomic_runs = check_runs 0

-- `seen.get(target)`: the index at which the target was seen.
unfoldable pub seen_at : StreamKey → List (StreamKey × ℕ) → Option ℕ
seen_at target [] = none
seen_at target ((key, index) ∷ seen) = if key_eq key target then some index else seen_at target seen

-- `validate_distinct_targets`, from the target at `index` on.
unfoldable pub check_targets :
    ℕ → List (StreamKey × ℕ) → List StreamKey → Result InvalidRoute (Unit {0})
check_targets index seen [] = ok tt
check_targets index seen (target ∷ targets) = elim (seen_at target seen) [
  | some first_index ↦ err (record { target = target; first_index = first_index; index = index })
  | none ↦ check_targets (suc index) ((target, index) ∷ seen) targets
]

abbrev pub validate_distinct_targets : List StreamKey → Result InvalidRoute (Unit {0})
validate_distinct_targets = check_targets 0 []

abbrev pub targets : List PlannedAppend → List StreamKey
targets = map (λ w. w.target)
