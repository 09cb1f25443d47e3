-- ===== src/Store/Checkpoint.antt =====
-- crates/store/src/checkpoint.rs: the conditional write of a projection's checkpoint. The position
-- type and its order are the application's.
use mnesis.Base.{ℕ, Bool, true, false, Option, none, some, ◌==◌, if◌then◌else◌}
use mnesis.Base.Words.{u64_max, checked_add}
use mnesis.Base.Result.{Result, ok, err, ◌>>◌, ok_or}
use mathlib.Core.Option

-- A position type with its `<=`.
pub record Positions : Type 1 where
  pub Position : Type 0
  pub is_at_most : Position → Position → Bool

pub data CheckpointMode : Type 0 where
  advance rebuild : CheckpointMode

-- What a store says to a write that it rejects.
pub data CheckpointRejection : Type 0 where
  conflict : Option ℕ → Option ℕ → CheckpointRejection
  schema_mismatch : ℕ → ℕ → CheckpointRejection
  non_increasing_position invalid_rebuild revision_overflow : CheckpointRejection

abbrev pub revision_eq : Option ℕ → Option ℕ → Bool
revision_eq none none = true
revision_eq none (some b) = false
revision_eq (some a) none = false
revision_eq (some a) (some b) = a == b

module _ (𝓟 : Positions) (State : Type 0) where
  open 𝓟 use {Position}

  pub data CheckpointHydrated : Type 0 where
    absent : CheckpointHydrated
    stale : ℕ → ℕ → CheckpointHydrated
    found : ℕ → Position → State → CheckpointHydrated

  pub record CheckpointWrite : Type 0 where
    pub expected : Option ℕ
    pub schema_version : ℕ
    pub position : Position
    pub state : State
    pub mode : CheckpointMode

  -- The revision, the schema and the position of the stored checkpoint.
  pub record Current : Type 0 where
    pub revision : ℕ
    pub schema_version : ℕ
    pub position : Position

  -- The `match` on the mode and what is stored.
  unfoldable pub check_mode :
      CheckpointWrite → Option Current → Result CheckpointRejection (Unit {0})
  check_mode write none = elim write.mode [ advance ↦ ok tt | rebuild ↦ err invalid_rebuild ]
  check_mode write (some current) = elim write.mode [
    | advance ↦
        if current.schema_version == write.schema_version
        then if 𝓟.is_at_most write.position current.position
          then err non_increasing_position
          else ok tt
        else err (schema_mismatch current.schema_version write.schema_version)
    | rebuild ↦
        if current.schema_version == write.schema_version then err invalid_rebuild else ok tt
  ]

  abbrev pub revision_of : Option Current → Option ℕ
  revision_of current = Option.map (λ c. c.revision) current

  -- `actual.map_or(Some(1), |revision| revision.get().checked_add(1))`; a sum is not 0.
  abbrev pub revision_after : Option ℕ → Option ℕ
  revision_after none = some 1
  revision_after (some revision) = checked_add u64_max revision 1

  -- `CheckpointWrite::next_revision`
  unfoldable pub next_revision : CheckpointWrite → Option Current → Result CheckpointRejection ℕ
  next_revision write current =
      if revision_eq write.expected (revision_of current)
      then (do
        check_mode write current
        ok_or (revision_after (revision_of current)) revision_overflow)
      else err (conflict write.expected (revision_of current))
