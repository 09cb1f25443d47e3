-- ===== src/InMemory/Snapshot/Sessions.antt =====
-- Sessions over the repository with snapshots: any sequence of loads and saves, of any roots.
use mnesis.Base.{ℕ, ◌+◌, ◌≤◌, ◌<◌, ◌≡◌, refl, none, some, List, [], ◌∷◌, ◌++◌, map, length}
use mnesis.Base.Words.{u64_max, usize_max}
use mnesis.Base.Result.{ok, err}
use mnesis.Kernel.Events
use mnesis.Kernel.Events.{Events}
use mnesis.Kernel.Aggregate.{Aggregate, AggregateRoot, new_root, version_or_zero}
use mnesis.Store.Value.{FromUtf8}
use mnesis.InMemory.Store.{Inner}
use mnesis.InMemory.Consistent.{IsConsistent}
use mnesis.InMemory.Read.{BatchSize, batch_size_new}
use mnesis.InMemory.Repository.{Facade, Outcome, SaveError, save, returned, panicked}
use mnesis.InMemory.Repository.Encode.{IsLawful}
use mnesis.InMemory.Repository.Load.{IsCodec}
use mnesis.InMemory.Repository.Save.{save_events_effect}
use mnesis.InMemory.Snapshot.{SnapshotStore, Policy, load_snapshotting, save_snapshotting}
use mnesis.InMemory.Snapshot.Load.{rows_for}
use mnesis.InMemory.Snapshot.Held.{IsHeld, new_root-IsHeld}
use mnesis.InMemory.Snapshot.Sound.{IsSlotStore, IsSound}
use mnesis.InMemory.Snapshot.Kept.{
  save-IsHeld, save-IsReplayed, snapshot_on_save-IsSound, load_snapshotting-IsSound,
}
use mnesis.InMemory.Snapshot.Loaded.{load_snapshotting-IsHeld}

module _ (u : FromUtf8) {𝓐 : Aggregate} (𝓕 : Facade 𝓐) where
  -- The root of a load that has succeeded.
  abbrev pub handed_out : Outcome (SaveError 𝓕) (AggregateRoot 𝓐) → List (AggregateRoot 𝓐)
  handed_out (returned (ok root)) = root ∷ []
  handed_out (returned (err e)) = []
  handed_out panicked = []

  abbrev pub AllHeld : List (AggregateRoot 𝓐) → Inner → Type 0
  AllHeld [] inner = Unit
  AllHeld (root ∷ roots) inner = IsHeld u 𝓕 root inner × AllHeld roots inner

  module _ (𝓢 : SnapshotStore 𝓐.State) (policy : Policy) (fuel : ℕ) (batch : BatchSize) where
    -- What loads and saves make of the two stores and of the roots that are held. Nobody drops a
    -- root: one that another has overtaken stays, and may be saved, and fail.
    pub data Session : 𝓢.World → Inner → List (AggregateRoot 𝓐) → Type 0 where
      begins :
          (world : 𝓢.World) (inner : Inner)
          → IsConsistent u inner
          → IsSound u 𝓕 𝓢 policy world inner
          → Session world inner []
      creates :
          (world : 𝓢.World) (inner : Inner) (roots : List (AggregateRoot 𝓐)) (id : 𝓐.AggregateId)
          → Session world inner roots
          → Session world inner (new_root id ∷ roots)
      loads :
          (world : 𝓢.World) (inner : Inner) (roots : List (AggregateRoot 𝓐)) (id : 𝓐.AggregateId)
          → length (rows_for u 𝓕 id inner) < u64_max
          → length (rows_for u 𝓕 id inner) < fuel
          → length (rows_for u 𝓕 id inner) ≤ 𝓐.max_rehydration_events
          → Session world inner roots
          → Session
              (load_snapshotting 𝓕 𝓢 policy fuel u batch id inner world).0
              inner
              (handed_out (load_snapshotting 𝓕 𝓢 policy fuel u batch id inner world).1 ++ roots)
      saves :
          (world : 𝓢.World) (inner : Inner) (before after : List (AggregateRoot 𝓐))
          (root : AggregateRoot 𝓐) (events : Events 𝓐.Event)
          → version_or_zero root.version + Events.len events ≤ 𝓐.max_rehydration_events
          → Session world inner (before ++ root ∷ after)
          → Session
              (save_snapshotting 𝓕 𝓢 policy root events inner world).0
              (save_snapshotting 𝓕 𝓢 policy root events inner world).1.0
              (before ++ (save_snapshotting 𝓕 𝓢 policy root events inner world).1.1.0 ∷ after)

  AllHeld-at :
      (before after : List (AggregateRoot 𝓐)) (root : AggregateRoot 𝓐) (inner : Inner)
      → AllHeld (before ++ root ∷ after) inner
      → IsHeld u 𝓕 root inner
  AllHeld-at [] after root inner all = all.0
  AllHeld-at (other ∷ before) after root inner all = AllHeld-at before after root inner all.1

  AllHeld-moved :
      (roots : List (AggregateRoot 𝓐)) (inner inner' : Inner)
      → ((r : AggregateRoot 𝓐) → IsHeld u 𝓕 r inner → IsHeld u 𝓕 r inner')
      → AllHeld roots inner
      → AllHeld roots inner'
  AllHeld-moved [] inner inner' moved all = tt
  AllHeld-moved (root ∷ roots) inner inner' moved all =
      (moved root all.0, AllHeld-moved roots inner inner' moved all.1)

  AllHeld-replaced :
      (before after : List (AggregateRoot 𝓐)) (root root' : AggregateRoot 𝓐) (inner inner' : Inner)
      → ((r : AggregateRoot 𝓐) → IsHeld u 𝓕 r inner → IsHeld u 𝓕 r inner')
      → IsHeld u 𝓕 root' inner'
      → AllHeld (before ++ root ∷ after) inner
      → AllHeld (before ++ root' ∷ after) inner'
  AllHeld-replaced [] after root root' inner inner' moved held all =
      (held, AllHeld-moved after inner inner' moved all.1)
  AllHeld-replaced (other ∷ before) after root root' inner inner' moved held all =
      (moved other all.0, AllHeld-replaced before after root root' inner inner' moved held all.1)

  handed_out-AllHeld :
      (outcome : Outcome (SaveError 𝓕) (AggregateRoot 𝓐)) (roots : List (AggregateRoot 𝓐))
      (inner : Inner)
      → ((root : AggregateRoot 𝓐) → outcome ≡ returned (ok root) → IsHeld u 𝓕 root inner)
      → AllHeld roots inner
      → AllHeld (handed_out outcome ++ roots) inner
  handed_out-AllHeld (returned (ok root)) roots inner held all = (held root refl, all)
  handed_out-AllHeld (returned (err e)) roots inner held all = all
  handed_out-AllHeld panicked roots inner held all = all

  module _ (𝓢 : SnapshotStore 𝓐.State) (policy : Policy) (slots : IsSlotStore 𝓢)
      (injective : (a b : 𝓐.AggregateId) → 𝓕.id_bytes a ≡ 𝓕.id_bytes b → a ≡ b) (codec : IsCodec 𝓕)
      (laws : IsLawful u 𝓕 (λ name. none)) (word : 𝓐.max_rehydration_events ≤ usize_max)
      (size fuel : ℕ) (batch : BatchSize) (sized : batch_size_new size ≡ some batch) where
    -- In every session over the repository with snapshots, whatever its trigger says and its loads
    -- and saves end in: the store stays consistent, every snapshot that is found is the state of
    -- the events of its stream up to its version, and so is the state of every root, loaded through
    -- a snapshot or not, overtaken or not, saved or not, at the root's version, unless an unwound
    -- fold has poisoned it. A session begins on a consistent store whose snapshots are so; each
    -- root is created or loaded in it; the snapshot store answers with what has been committed, and
    -- its commits may fail. The application's values hold to their laws and two ids have two byte
    -- strings; no stream that is loaded or saved grows beyond the replay budget, and those that are
    -- loaded stay below `u64::MAX` rows and the number of polls.
    pub Session-IsSound :
        (world : 𝓢.World) (inner : Inner) (roots : List (AggregateRoot 𝓐))
        → Session 𝓢 policy fuel batch world inner roots
        → IsConsistent u inner × IsSound u 𝓕 𝓢 policy world inner × AllHeld roots inner
    unfolding save_snapshotting
    Session-IsSound world inner roots (begins _ _ c sound) = (c, sound, tt)
    Session-IsSound world inner roots (creates _ _ before id session) =
        let (c, sound, all) = Session-IsSound world inner before session in
        (c, sound, (new_root-IsHeld u 𝓕 id inner, all))
    Session-IsSound _ inner _ (loads world _ roots id few enough budget session) =
        let (c, sound, all) = Session-IsSound world inner roots session in
        (
          c,
          load_snapshotting-IsSound u 𝓕 𝓢 policy slots injective word size fuel batch sized id inner
              world c few enough sound,
          handed_out-AllHeld (load_snapshotting 𝓕 𝓢 policy fuel u batch id inner world).1 roots
              inner
              (λ root loaded.
                load_snapshotting-IsHeld u 𝓕 𝓢 policy size fuel batch sized word id inner world root
                  c few enough budget (sound id) loaded)
              all,
        )
    Session-IsSound _ _ _ (saves world inner before after root events budget session) =
        let (c, sound, all) = Session-IsSound world inner (before ++ root ∷ after) session in
        let (c', effect) = save_events_effect u 𝓕 root events inner (λ name. none) laws c in
        let (inner', (root', outcome)) = save 𝓕 root events inner in
        let held =
          save-IsHeld u 𝓕 word codec root root' events inner inner' outcome effect budget
            (AllHeld-at before after root inner all) in
        let moved = save-IsReplayed u 𝓕 root root' events inner inner' outcome effect in
        (
          c',
          snapshot_on_save-IsSound u 𝓕 𝓢 policy slots injective root.version
              (map 𝓕.name (Events.iter events)) root' outcome inner' world held
              (λ id version state h. moved id (some version) state (sound id version state h)),
          AllHeld-replaced before after root root' inner inner'
              (λ r usable state has. moved r.id r.version state (usable state has)) held all,
        )
