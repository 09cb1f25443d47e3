-- ===== src/InMemory/Snapshot/Effect.antt =====
-- What a save through the repository with snapshots leaves in the snapshot store.
use mnesis.Base.{ℕ, ◌+◌, ◌≡◌, some, List, map, if◌then◌else◌}
use mnesis.Base.Result.{ok, err}
use mnesis.Kernel.Version.{Version}
use mnesis.Kernel.Events
use mnesis.Kernel.Events.{Events}
use mnesis.Kernel.Aggregate.{Aggregate, AggregateRoot, version_or_zero, apply_all}
use mnesis.Store.Value.{FromUtf8}
use mnesis.InMemory.Repository.{Facade, Outcome, SaveError, returned, panicked}
use mnesis.InMemory.Snapshot.{SnapshotStore, Policy}

module _ (u : FromUtf8) {𝓐 : Aggregate} (𝓕 : Facade 𝓐) (𝓢 : SnapshotStore 𝓐.State) (policy : Policy)
    (root : AggregateRoot 𝓐) (events : Events 𝓐.Event) (world : 𝓢.World) where
  abbrev names : List (List ℕ)
  names = map 𝓕.name (Events.iter events)

  abbrev after_batch : Version
  after_batch = record { as_u64 = version_or_zero root.version + Events.len events }

  -- A save that returns a position has folded the events, and where the trigger fires it commits
  -- what they fold to, at the version of the batch; one that does not return a position commits
  -- nothing.
  abbrev pub IsSnapshotEffect : Outcome (SaveError 𝓕) ℕ → 𝓢.World → Type 0
  IsSnapshotEffect (returned (ok position)) world' =
      (s : 𝓐.State) × (s' : 𝓐.State) × (root.state ≡ some s)
      × (apply_all 𝓐 s (Events.iter events) ≡ some s')
      × (world' ≡ (
          if policy.should_persist root.version after_batch names
          then (𝓢.commit (𝓕.id_bytes root.id) policy.schema_version after_batch s' world).0
          else world))
  IsSnapshotEffect (returned (err e)) world' = world' ≡ world
  IsSnapshotEffect panicked world' = world' ≡ world
