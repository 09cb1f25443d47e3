-- ===== src/Store/Projection.antt =====
-- crates/store/src/projection.rs: a projection, which owns its state and its place in the events. A
-- panic of application code and a future that is dropped while a write is pending are endings of
-- their own. The projector, the trigger and the checkpoint store are the application's.
pub mod Contract
pub mod Fold
pub mod Cases
pub mod Truth
pub mod Sole
pub mod Failure
pub mod Flush
pub mod Start
pub mod Advance
pub mod Workers
pub mod Ready
pub mod CatchUp
pub mod Codec
use mnesis.Base.{ℕ, Bool, true, false, Option, none, some, List, [], ◌∷◌, ◌&&◌, if◌then◌else◌}
use mnesis.Base.Result.{Result, ok, err, ◌>>=◌, map_err}
use mnesis.Store.Checkpoint.{
  Positions, CheckpointMode, advance, rebuild, CheckpointRejection, schema_mismatch,
  invalid_rebuild, CheckpointHydrated, absent, stale, found, CheckpointWrite,
}

-- `trait Projector`; a panic of `apply_attributed` is `none`. The key is that of the stream an
-- event of `$all` came from.
pub record Projector : Type 1 where
  pub State : Type 0
  pub Event : Type 0
  pub Error : Type 0
  pub initial : State
  pub apply_attributed : State → Option (List ℕ) → Event → Option (Result Error State)
  pub name : Event → List ℕ

-- How a call ends: it returns, it unwinds, or its future is dropped at a pending write.
pub data Ending (A : Type 0) : Type 0 where
  returned : A → Ending A
  panicked : Ending A
  dropped : Ending A

-- `CheckpointError` of crates/store/src/checkpoint.rs.
pub data CheckpointError (E : Type 0) : Type 0 where
  store : E → CheckpointError E
  rejected : CheckpointRejection → CheckpointError E

-- `trait CheckpointStore`: an adapter, over what it stores.
pub record CheckpointStore (𝓟 : Positions) (State : Type 0) : Type 1 where
  pub World : Type 0
  pub Error : Type 0
  pub hydrate_checkpoint : List ℕ → ℕ → World → Result Error (CheckpointHydrated 𝓟 State)
  pub commit_checkpoint :
      List ℕ → CheckpointWrite 𝓟 State → World → World × Ending (Result (CheckpointError Error) ℕ)

pub data ProjectionStateError : Type 0 where
  poisoned reload_required : ProjectionStateError

pub data ProjectionError (E F : Type 0) : Type 0 where
  apply : E → ProjectionError E F
  commit : CheckpointError F → ProjectionError E F
  unusable : ProjectionStateError → ProjectionError E F
  non_increasing_position : ProjectionError E F

-- `PersistTrigger::should_persist`, which is application code; `none` is its panic.
abbrev pub Trigger : Positions → Type 0
Trigger 𝓟 = Option 𝓟.Position → 𝓟.Position → List (List ℕ) → Option Bool

module _ (𝓟 : Positions) where
  open 𝓟 use {Position}

  -- `position <= previous`
  abbrev pub is_past : Option Position → Position → Bool
  is_past none position = false
  is_past (some previous) position = 𝓟.is_at_most position previous

  -- `Some(*observed) != self.checkpoint`; two positions are equal when neither is greater.
  abbrev pub is_checkpoint : Option Position → Position → Bool
  is_checkpoint none position = false
  is_checkpoint (some stored) position =
      𝓟.is_at_most position stored && 𝓟.is_at_most stored position

  abbrev pub mode_of : Option Position → Option ℕ → CheckpointMode
  mode_of none (some revision) = rebuild
  mode_of none none = advance
  mode_of (some position) revision = advance

module _ (𝓟 : Positions) (𝓙 : Projector) where
  open 𝓟 use {Position}
  open 𝓙 use {State, Event}

  -- What `Positioned::into_parts` makes of a decoded item.
  pub record Positioned : Type 0 where
    pub position : Position
    pub key : Option (List ℕ)
    pub event : Event

  pub record Projection : Type 0 where
    pub id : List ℕ
    pub schema_version : ℕ
    pub state : Option State
    pub revision : Option ℕ
    pub checkpoint : Option Position
    pub observed : Option Position
    pub reload_required : Bool
    pub rebuilt_from : Option ℕ

  -- `Projection::state`
  abbrev pub state_of : Projection → Result ProjectionStateError State
  state_of p =
      if p.reload_required
      then err reload_required
      else elim p.state [ none ↦ err poisoned | some state ↦ ok state ]

  -- The position that a flush has to write.
  abbrev pub unpersisted : Projection → Option Position
  unpersisted p = elim p.observed [
    | none ↦ none
    | some position ↦ if is_checkpoint 𝓟 p.checkpoint position then none else some position
  ]

  abbrev pub write_of : Projection → Position → State → CheckpointWrite 𝓟 State
  write_of p position state = record {
    expected = p.revision;
    schema_version = p.schema_version;
    position = position;
    state = state;
    mode = mode_of 𝓟 p.checkpoint p.revision;
  }

  module _ (𝓢 : CheckpointStore 𝓟 State) where
    open 𝓢 use {World}

    -- What a call leaves, and how it ends.
    abbrev pub Out : Type 0
    Out = World × Projection × Ending (Result (ProjectionError 𝓙.Error 𝓢.Error) (Unit {0}))

    -- What `assemble` makes of the reading: the state, the checkpoint, the revision and the schema
    -- that a rebuild discards.
    unfoldable pub starting :
        CheckpointMode
        → ℕ
        → CheckpointHydrated 𝓟 State
        → Result (CheckpointError 𝓢.Error) (State × Option Position × Option ℕ × Option ℕ)
    starting advance schema (found revision position state) =
        ok (state, some position, some revision, none)
    starting advance schema absent = ok (𝓙.initial, none, none, none)
    starting advance schema (stale revision stored) = err (rejected (schema_mismatch stored schema))
    starting rebuild schema (stale revision stored) =
        ok (𝓙.initial, none, some revision, some stored)
    starting rebuild schema absent = err (rejected invalid_rebuild)
    starting rebuild schema (found revision position state) = err (rejected invalid_rebuild)

    abbrev pub assembled : List ℕ → ℕ → State × Option Position × Option ℕ × Option ℕ → Projection
    assembled id schema (state, checkpoint, revision, rebuilt_from) = record {
      id = id;
      schema_version = schema;
      state = some state;
      revision = revision;
      checkpoint = checkpoint;
      observed = checkpoint;
      reload_required = false;
      rebuilt_from = rebuilt_from;
    }

    -- `Projection::assemble`; `load` is it with `advance`, `rebuild` with `rebuild`.
    unfoldable pub assemble :
        List ℕ → ℕ → CheckpointMode → World → Result (CheckpointError 𝓢.Error) (Projection)
    assemble id schema mode world = do
      hydrated ← map_err store (𝓢.hydrate_checkpoint id schema world)
      start ← starting mode schema hydrated
      ok (assembled id schema start)

    -- The end of `flush`, behind the write: `reload_required` was set before it.
    abbrev pub flushed :
        Projection → Position → World × Ending (Result (CheckpointError 𝓢.Error) ℕ) → Out
    flushed p position (world, returned (ok revision)) = (
      world,
      record p { revision = some revision; checkpoint = some position; reload_required = false },
      returned (ok tt),
    )
    flushed p position (world, returned (err e)) =
        (world, record p { reload_required = true }, returned (err (commit e)))
    flushed p position (world, panicked) = (world, record p { reload_required = true }, panicked)
    flushed p position (world, dropped) = (world, record p { reload_required = true }, dropped)

    -- `Projection::flush`
    unfoldable pub flush : World → Projection → Out
    flush world p = elim (state_of p) [
      | err e ↦ (world, p, returned (err (unusable e)))
      | ok state ↦ elim (unpersisted p) [
        | none ↦ (world, p, returned (ok tt))
        | some position ↦
            flushed p position (𝓢.commit_checkpoint p.id (write_of p position state) world)
      ]
    ]

    -- What `advance` does once it has asked the trigger: the instance holds the new state by then.
    abbrev pub triggered : World → Projection → Option Bool → Out
    triggered world p none = (world, p, panicked)
    triggered world p (some true) = flush world p
    triggered world p (some false) = (world, p, returned (ok tt))

    module _ (should_persist : Trigger 𝓟) where
      -- `Projection::advance` from the fold on; the state is taken out before application code
      -- runs.
      abbrev pub folded : World → Projection → Positioned → Option (Result 𝓙.Error State) → Out
      folded world p item none = (world, record p { state = none }, panicked)
      folded world p item (some (err e)) =
          (world, record p { state = none }, returned (err (apply e)))
      folded world p item (some (ok state)) =
          let p' = record p { state = some state; observed = some item.position } in
          triggered world p' (should_persist p.checkpoint item.position (𝓙.name item.event ∷ []))

      -- `Projection::advance`
      unfoldable pub advance_by : World → Projection → Positioned → Out
      advance_by world p item = elim (state_of p) [
        | err e ↦ (world, p, returned (err (unusable e)))
        | ok state ↦
            if is_past 𝓟 p.observed item.position
            then (world, p, returned (err non_increasing_position))
            else folded world p item (𝓙.apply_attributed state item.key item.event)
      ]
