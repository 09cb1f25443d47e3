-- ===== src/InMemory/Snapshot.antt =====
-- crates/store/src/snapshot.rs with the store of adapters/inmemory/src/snapshot.rs: the repository
-- that keeps snapshots, over the `EventStore` facade. The trigger is the application's.
pub mod Restart
pub mod Load
pub mod Held
pub mod Loaded
pub mod Sound
pub mod Kept
pub mod Sessions
pub mod Effect
pub mod Codec
use mnesis.Base.{ℕ, Bool, true, false, Option, none, some, List, map, ◌==◌, if◌then◌else◌}
use mnesis.Base.Maps.{get, insert}
use mnesis.Base.Result.{Result, ok, err}
use mnesis.Kernel.Version
use mnesis.Kernel.Version.{Version}
use mnesis.Kernel.Events
use mnesis.Kernel.Events.{Events}
use mnesis.Kernel.Aggregate.{Aggregate, AggregateRoot, restore, state_of}
use mnesis.Store.Value.{FromUtf8}
use mnesis.InMemory.Store.{Inner}
use mnesis.InMemory.Read.{BatchSize}
use mnesis.InMemory.Repository.{
  Facade, SaveError, Outcome, returned, panicked, save, load, replay_from,
}

-- `Hydrated` of crates/store/src/state.rs.
pub data Hydrated (State : Type 0) : Type 0 where
  absent : Hydrated State
  stale : ℕ → Hydrated State
  found : Version → State → Hydrated State

-- `SnapshotStore` of crates/store/src/state.rs, over what the adapter stores.
pub record SnapshotStore (State : Type 0) : Type 1 where
  pub World : Type 0
  pub Error : Type 0
  pub hydrate : List ℕ → ℕ → World → Result Error (Hydrated State)
  pub commit : List ℕ → ℕ → Version → State → World → World × Result Error (Unit {0})

-- A slot of `InMemorySnapshotStore`: the schema version, the position and the state.
abbrev pub Slot : Type 0 → Type 0
Slot State = ℕ × Version × State

abbrev pub hydrated_slot : {State : Type 0} → ℕ → Option (Slot State) → Hydrated State
hydrated_slot schema none = absent
hydrated_slot schema (some (stored, position, state)) =
    if stored == schema then found position state else stale stored

pub data Infallible : Type 0 where

-- `InMemorySnapshotStore`: `commit` replaces whatever is there.
abbrev pub in_memory_snapshots : (State : Type 0) → SnapshotStore State
in_memory_snapshots State = record {
  World = List (List ℕ × Slot State);
  Error = Infallible;
  hydrate = λ id schema slots. ok (hydrated_slot schema (get id slots));
  commit = λ id schema position state slots. (insert id (schema, position, state) slots, ok tt);
}

-- `Snapshotting`: its trigger, its schema version, and whether a full replay takes a snapshot.
pub record Policy : Type 0 where
  pub should_persist : Option Version → Version → List (List ℕ) → Bool
  pub schema_version : ℕ
  pub snapshot_on_read : Bool

module _ {𝓐 : Aggregate} (𝓕 : Facade 𝓐) (𝓢 : SnapshotStore 𝓐.State) (policy : Policy) where
  open 𝓐 use {AggregateId, Event}
  open 𝓢 use {World}

  -- `try_load_from_snapshot`
  unfoldable pub try_load_from_snapshot :
      AggregateId → World → Option (AggregateRoot 𝓐 × Option Version)
  try_load_from_snapshot id world = elim (𝓢.hydrate (𝓕.id_bytes id) policy.schema_version world) [
    | err e ↦ none
    | ok hydrated ↦ elim hydrated [
      | absent ↦ none
      | stale stored ↦ none
      | found version state ↦ some (restore id state version, Version.next version)
    ]
  ]

  -- `try_save_snapshot`, whose errors are dropped.
  unfoldable pub try_save_snapshot : AggregateRoot 𝓐 → Version → World → World
  try_save_snapshot root version world = elim (state_of root) [
    | err e ↦ world
    | ok state ↦ (𝓢.commit (𝓕.id_bytes root.id) policy.schema_version version state world).0
  ]

  -- The snapshot behind a full replay.
  abbrev pub snapshot_on_read : Outcome (SaveError 𝓕) (AggregateRoot 𝓐) → World → World
  snapshot_on_read (returned (ok root)) world = elim root.version [
    | none ↦ world
    | some version ↦ if policy.snapshot_on_read then try_save_snapshot root version world else world
  ]
  snapshot_on_read (returned (err e)) world = world
  snapshot_on_read panicked world = world

  -- `Snapshotting::load`, whose streams are polled at most `fuel` times.
  unfoldable pub load_snapshotting :
      ℕ
      → FromUtf8
      → BatchSize
      → AggregateId
      → Inner
      → World
      → World × Outcome (SaveError 𝓕) (AggregateRoot 𝓐)
  load_snapshotting fuel u size id inner world = elim (try_load_from_snapshot id world) [
    | some hit ↦ (
      world,
      elim hit.1 [
        | none ↦ returned (ok hit.0)
        | some next ↦ replay_from 𝓕 fuel u size hit.0 next inner
      ],
    )
    | none ↦ let loaded = load 𝓕 fuel u size id inner in (snapshot_on_read loaded world, loaded)
  ]

  -- The snapshot behind a save that has returned a position.
  abbrev pub snapshot_on_save :
      Option Version → List (List ℕ) → AggregateRoot 𝓐 → Outcome (SaveError 𝓕) ℕ → World → World
  snapshot_on_save old names root (returned (ok position)) world = elim root.version [
    | none ↦ world
    | some version ↦
        if policy.should_persist old version names
        then try_save_snapshot root version world
        else world
  ]
  snapshot_on_save old names root (returned (err e)) world = world
  snapshot_on_save old names root panicked world = world

  -- `Snapshotting::save`
  unfoldable pub save_snapshotting :
      AggregateRoot 𝓐
      → Events Event
      → Inner
      → World
      → World × (Inner × (AggregateRoot 𝓐 × Outcome (SaveError 𝓕) ℕ))
  save_snapshotting root events inner world =
      let (inner', (root', outcome)) = save 𝓕 root events inner in
      (
        snapshot_on_save root.version (map 𝓕.name (Events.iter events)) root' outcome world,
        (inner', (root', outcome)),
      )
