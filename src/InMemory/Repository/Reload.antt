-- ===== src/InMemory/Repository/Reload.antt =====
-- `load` against `save`: a saved root, read back from the store.
use mnesis.Base.{
  ℕ, suc, ◌+◌, ◌≤◌, ◌<◌, ◌≡◌, ◌∙◌, sym, ap, some, List, ◌++◌, map, arith, length, length-append,
  Bool-cases, inl, inr, if◌then◌else◌,
}
use mathlib.Core.Path.{subst}
use mathlib.Core.List.{map-append}
use mnesis.Base.Words.{u64_max, usize_max}
use mnesis.Base.Result.{ok}
use mnesis.Kernel.Version
use mnesis.Kernel.Version.{Version}
use mnesis.Kernel.Events
use mnesis.Kernel.Events.{Events}
use mnesis.Kernel.Aggregate.{Aggregate, AggregateRoot, new_root, version_or_zero, apply_all}
use mnesis.Kernel.Aggregate.Replay.{rehydrate-batch}
use mnesis.Store.Value.{FromUtf8}
use mnesis.Store.Append.{StreamKey, key_eq}
use mnesis.InMemory.Streams.{rows_of, key_eq→eq, key_eq_refl}
use mnesis.InMemory.Frame.{StoredFrame, frame_to_envelope}
use mnesis.InMemory.Store.{Inner}
use mnesis.InMemory.Consistent.{IsConsistent}
use mnesis.InMemory.Read.{BatchSize, batch_size_new}
use mnesis.InMemory.Read.Scan.{at_least-all}
use mnesis.InMemory.Read.Drain.{drain-read_stream}
use mnesis.InMemory.Repository.{
  Facade, key_of, save_events, replay_items, replay_from, load, returned,
}
use mnesis.InMemory.Repository.Encode.{SchemaLookup, IsLawful}
use mnesis.InMemory.Repository.Save.{IsPersisted, IsSaveEffect, committed, save_events_effect}
use mnesis.InMemory.Repository.Load.{
  IsCodec, replay_items-append, replay_items-id, replay_items-rehydrate, suc_of,
}

-- A stream does not shrink when rows are put behind one.
grown-le :
    (key j : StreamKey) (inner inner' : Inner) (new : List StoredFrame)
    → ((i : StreamKey)
        → rows_of i inner'.streams
          ≡ (if key_eq key i then rows_of key inner.streams ++ new else rows_of i inner.streams))
    → length (rows_of j inner.streams) ≤ length (rows_of j inner'.streams)
grown-le key j inner inner' new grown = elim (Bool-cases (key_eq key j)) [
  | inl e ↦
      rw (grown j, e, ← key_eq→eq key j e)
        (omega (arith, length-append (rows_of key inner.streams) new))
  | inr e ↦ rw (grown j, e) (omega arith)
]

module _ (u : FromUtf8) {𝓐 : Aggregate} (𝓕 : Facade 𝓐) (size fuel : ℕ) (batch : BatchSize)
    (sized : batch_size_new size ≡ some batch) where
  -- On a consistent store, a load replays every row of its stream.
  pub load-rows :
      (id : 𝓐.AggregateId) (inner : Inner)
      → IsConsistent u inner
      → length (rows_of (key_of 𝓕 (new_root id)) inner.streams) < u64_max
      → length (rows_of (key_of 𝓕 (new_root id)) inner.streams) < fuel
      → load 𝓕 fuel u batch id inner
        ≡ replay_items 𝓕
            (new_root id)
            (map (frame_to_envelope u) (rows_of (key_of 𝓕 (new_root id)) inner.streams))
  unfolding replay_from
  load-rows id inner c few enough =
      let key = key_of 𝓕 (new_root id) in
      let drained =
        (drain-read_stream u key inner c few size fuel batch Version.initial sized
          (omega arith, omega arith) enough).0 in
      ap (replay_items 𝓕 (new_root id)) (
        drained
        ∙ ap (map (frame_to_envelope u))
            (at_least-all 1 1 (rows_of key inner.streams) (c.gapless key) (omega arith)))

-- The rows that a save has put behind its stream replay, behind the root that was saved, as the
-- root that has folded the events; `n` counts the events that were replayed before.
pub persisted-replays :
    (u : FromUtf8) {𝓐 : Aggregate} (𝓕 : Facade 𝓐)
    → IsCodec 𝓕
    → (root : AggregateRoot 𝓐) (events : Events 𝓐.Event) (inner inner' : Inner) (n : ℕ)
      (s s' : 𝓐.State) (p : IsPersisted u 𝓕 root events inner inner')
    → root.state ≡ some s
    → apply_all 𝓐 s (Events.iter events) ≡ some s'
    → n + Events.len events ≤ 𝓐.max_rehydration_events
    → 𝓐.max_rehydration_events ≤ usize_max
    → replay_items 𝓕 (record root { replayed_events = n }) (map (frame_to_envelope u) p.new)
      ≡ returned (
          ok (record (committed u 𝓕 root events inner (some s')) {
            replayed_events = n + Events.len events;
          }))
persisted-replays u 𝓕 codec root events inner inner' n s s' p usable folds budget word =
    let full = record root { replayed_events = n } in
    let after = record (committed u 𝓕 root events inner (some s')) {
      replayed_events = n + Events.len events;
    } in
    replay_items-rehydrate u 𝓕 codec p.new p.envs (Events.iter events)
      (suc (version_or_zero root.version)) full after p.held p.encoded
      (rw (suc_of u 𝓕 (version_or_zero root.version))
        (rehydrate-batch events full s s' usable p.fits budget word folds))

module _ (u : FromUtf8) {𝓐 : Aggregate} (𝓕 : Facade 𝓐) (codec : IsCodec 𝓕) (size fuel : ℕ)
    (batch : BatchSize) (sized : batch_size_new size ≡ some batch) where
  -- Whatever a save has persisted is loaded: on a consistent store that holds to the laws of the
  -- codec and of the application's values, if a load gives a root, and a save of events on that
  -- root returns a position, then a load from the store behind it gives the root that the save has
  -- left, with the events counted as replayed. The events stay within the replay budget; the stream
  -- stays below `u64::MAX` rows; one poll more than there are rows is enough.
  pub load-save :
      (current : SchemaLookup) (inner inner' : Inner) (id : 𝓐.AggregateId)
      (root root' : AggregateRoot 𝓐) (events : Events 𝓐.Event) (pos : ℕ)
      → IsLawful u 𝓕 current
      → IsConsistent u inner
      → load 𝓕 fuel u batch id inner ≡ returned (ok root)
      → save_events 𝓕 current root events inner ≡ (inner', (root', returned (ok pos)))
      → root.replayed_events + Events.len events ≤ 𝓐.max_rehydration_events
      → 𝓐.max_rehydration_events ≤ usize_max
      → length (rows_of (key_of 𝓕 (new_root id)) inner'.streams) < u64_max
      → length (rows_of (key_of 𝓕 (new_root id)) inner'.streams) < fuel
      → load 𝓕 fuel u batch id inner'
        ≡ returned
            (ok (record root' { replayed_events = root.replayed_events + Events.len events }))
  load-save current inner inner' id root root' events pos laws c loaded saves budget word few
        enough =
      let effect =
        subst (λ x. IsConsistent u x.0 × IsSaveEffect u 𝓕 root events inner x) saves
          (save_events_effect u 𝓕 root events inner current laws c) in
      let (c', (p, last, s, s', usable, folds, ended)) = effect in
      let key = key_of 𝓕 (new_root id) in
      let shorter = grown-le (key_of 𝓕 root) key inner inner' p.new p.grown in
      let before =
        load-rows u 𝓕 size fuel batch sized id inner c (omega (arith, shorter, few))
          (omega (arith, shorter, enough)) in
      let rows = rows_of key inner.streams in
      let replayed = sym before ∙ loaded in
      let same : root.id ≡ id =
        replay_items-id u 𝓕 (map (frame_to_envelope u) rows) (new_root id) root replayed in
      let grown : rows_of key inner'.streams ≡ rows ++ p.new = rw (← same) (
        p.grown (key_of 𝓕 root)
        ∙ ap
            (λ b.
              if b
              then rows_of (key_of 𝓕 root) inner.streams ++ p.new
              else rows_of (key_of 𝓕 root) inner.streams)
            (key_eq_refl (key_of 𝓕 root))) in
      load-rows u 𝓕 size fuel batch sized id inner' c' few enough
      ∙ ap (λ l. replay_items 𝓕 (new_root id) (map (frame_to_envelope u) l)) grown
      ∙ ap (replay_items 𝓕 (new_root id)) (map-append (frame_to_envelope u) rows p.new)
      ∙ replay_items-append u 𝓕 (map (frame_to_envelope u) rows) (map (frame_to_envelope u) p.new)
          (new_root id) root replayed
      ∙ persisted-replays u 𝓕 codec root events inner inner' root.replayed_events s s' p usable
          folds budget word
      ∙ ap
          (λ (r : AggregateRoot 𝓐).
            returned (ok (record r { replayed_events = root.replayed_events + Events.len events })))
          (sym ended)
