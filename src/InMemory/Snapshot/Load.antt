-- ===== src/InMemory/Snapshot/Load.antt =====
-- A load through a snapshot against a full one.
use mnesis.Base.{
  ℕ, zero, suc, ◌+◌, ◌≤◌, ◌<◌, ◌≡◌, ◌∙◌, refl, sym, ap, inl, inr, Option, none, some, List, [], ◌∷◌,
  map, arith, length, take, drop, length-take, length-map, take-append-drop,
}
use mathlib.Core.List.{map-append}
use mnesis.Base.Words.{u64_max, usize_max}
use mnesis.Base.Result.{ok, Result-cases}
use mnesis.Kernel.Version
use mnesis.Kernel.Version.{Version}
use mnesis.Kernel.Aggregate.{Aggregate, AggregateRoot, new_root, restore, version_or_zero}
use mnesis.Store.Value.{FromUtf8}
use mnesis.InMemory.Streams.{rows_of}
use mnesis.InMemory.Frame.{StoredFrame, frame_to_envelope}
use mnesis.InMemory.Store.{Inner}
use mnesis.InMemory.Consistent.{IsConsistent, AreVersions}
use mnesis.InMemory.Read.{BatchSize, batch_size_new}
use mnesis.InMemory.Read.Scan.{at_least, at_least-all}
use mnesis.InMemory.Read.Drain.{drain-read_stream}
use mnesis.InMemory.Repository.{Facade, key_of, replay_items, replay_from, load, returned}
use mnesis.InMemory.Repository.Load.{replay_items-append, replay_items-id}
use mnesis.InMemory.Repository.Reload.{load-rows}
use mnesis.InMemory.Snapshot.{
  SnapshotStore, Policy, absent, stale, found, try_load_from_snapshot, load_snapshotting,
}
use mnesis.InMemory.Snapshot.Restart.{recounted, replay_items-length, replay_items-recounted}

pub at_least-drop :
    (v m : ℕ) (rows : List StoredFrame) → AreVersions m rows → at_least (v + m) rows ≡ drop v rows
unfolding at_least
at_least-drop zero m rows h = at_least-all (0 + m) m rows h (omega arith)
at_least-drop (suc v) m [] h = refl
at_least-drop (suc v) m (row ∷ rows) h =
    let shift : suc v + m ≡ v + suc m = omega arith in
    let rest : at_least (suc v + m) rows ≡ drop v rows =
      ap (λ k. at_least k rows) shift ∙ at_least-drop v (suc m) rows h.1 in
    ground (arith, h.0, rest)

module _ (u : FromUtf8) {𝓐 : Aggregate} (𝓕 : Facade 𝓐) where
  abbrev pub rows_for : 𝓐.AggregateId → Inner → List StoredFrame
  rows_for id inner = rows_of (key_of 𝓕 (new_root id)) inner.streams

  -- The state is that of the events of the stream up to the version, or that of none.
  abbrev pub IsReplayed : 𝓐.AggregateId → Option Version → 𝓐.State → Inner → Type 0
  IsReplayed id version state inner =
      (mid : AggregateRoot 𝓐) × (replay_items 𝓕 (new_root id)
          (map (frame_to_envelope u) (take (version_or_zero version) (rows_for id inner)))
        ≡ returned (ok mid))
      × (mid.version ≡ version)
      × (mid.state ≡ some state)

  -- The state is that of the first `version` events of the stream.
  abbrev pub IsGenuine : 𝓐.AggregateId → Version → 𝓐.State → Inner → Type 0
  IsGenuine id version state inner = IsReplayed id (some version) state inner

  pub IsReplayed-le :
      (id : 𝓐.AggregateId) (version : Option Version) (state : 𝓐.State) (inner : Inner)
      → IsReplayed id version state inner
      → version_or_zero version ≤ length (rows_for id inner)
  IsReplayed-le id version state inner (mid, replays, at, has) =
      let taken = take (version_or_zero version) (rows_for id inner) in
      omega (
        arith,
        ap version_or_zero at,
        replay_items-length u 𝓕 (map (frame_to_envelope u) taken) (new_root id) mid replays,
        length-map taken (frame_to_envelope u),
        length-take (version_or_zero version) (rows_for id inner),
      )

  pub IsGenuine-le :
      (id : 𝓐.AggregateId) (version : Version) (state : 𝓐.State) (inner : Inner)
      → IsGenuine id version state inner
      → version.as_u64 ≤ length (rows_for id inner)
  IsGenuine-le id version state inner = IsReplayed-le id (some version) state inner

module _ (u : FromUtf8) {𝓐 : Aggregate} (𝓕 : Facade 𝓐) (𝓢 : SnapshotStore 𝓐.State) (policy : Policy)
    (size fuel : ℕ) (batch : BatchSize) (sized : batch_size_new size ≡ some batch)
    (word : 𝓐.max_rehydration_events ≤ usize_max) where
  tail_loads :
      (id : 𝓐.AggregateId) (version : Version) (state : 𝓐.State) (inner : Inner)
      (root : AggregateRoot 𝓐)
      → IsConsistent u inner
      → length (rows_for u 𝓕 id inner) < u64_max
      → length (rows_for u 𝓕 id inner) < fuel
      → load 𝓕 fuel u batch id inner ≡ returned (ok root)
      → IsGenuine u 𝓕 id version state inner
      → (count : ℕ) × (count ≤ root.replayed_events)
        × (replay_from 𝓕 fuel u batch
              (restore id state version)
              (record { as_u64 = version.as_u64 + 1 })
              inner
            ≡ returned (ok (recounted u 𝓕 count root)))
  unfolding replay_from
  tail_loads id version state inner root c few enough loaded genuine =
      let (mid, replays, at, has) = genuine in
      let v = version.as_u64 in
      let rows = rows_for u 𝓕 id inner in
      let frames = frame_to_envelope u in
      let le = IsGenuine-le u 𝓕 id version state inner genuine in
      let whole : replay_items 𝓕 (new_root id) (map frames rows) ≡ returned (ok root) =
        sym (load-rows u 𝓕 size fuel batch sized id inner c few enough) ∙ loaded in
      let rest : replay_items 𝓕 mid (map frames (drop v rows)) ≡ returned (ok root) =
        sym (
          replay_items-append u 𝓕 (map frames (take v rows)) (map frames (drop v rows))
            (new_root id) mid replays)
        ∙ ap (replay_items 𝓕 (new_root id)) (
            sym (map-append frames (take v rows) (drop v rows))
            ∙ ap (map frames) (take-append-drop v rows))
        ∙ whole in
      let (count, less, ends) =
        replay_items-recounted u 𝓕 word (map frames (drop v rows)) mid root 0 (omega arith) rest in
      let is_id = replay_items-id u 𝓕 (map frames (take v rows)) (new_root id) mid replays in
      let same : restore id state version ≡ recounted u 𝓕 0 mid = λ i. record {
        id = sym is_id i;
        state = sym has i;
        version = sym at i;
        replayed_events = 0;
      } in
      let drained =
        (drain-read_stream u (key_of 𝓕 (new_root id)) inner c few size fuel batch
          (record { as_u64 = v + 1 }) sized (omega arith, omega (arith, le, few)) enough).0 in
      (
        count,
        less,
        ap (replay_items 𝓕 (restore id state version)) (
              drained
              ∙ ap (map frames) (at_least-drop v 1 rows (c.gapless (key_of 𝓕 (new_root id)))))
            ∙ ap (λ r. replay_items 𝓕 r (map frames (drop v rows))) same
            ∙ ends,
      )

  pub next_version :
      (version : Version)
      → version.as_u64 < u64_max
      → Version.next version ≡ some (record { as_u64 = version.as_u64 + 1 })
  next_version version h = ground arith

  pub misses :
      (id : 𝓐.AggregateId) (inner : Inner) (world : 𝓢.World)
      → try_load_from_snapshot 𝓕 𝓢 policy id world ≡ none
      → (load_snapshotting 𝓕 𝓢 policy fuel u batch id inner world).1 ≡ load 𝓕 fuel u batch id inner
  unfolding load_snapshotting
  misses id inner world h = rw (h, load_snapshotting) refl

  pub hits :
      (id : 𝓐.AggregateId) (inner : Inner) (world : 𝓢.World) (root : AggregateRoot 𝓐)
      (next : Version)
      → try_load_from_snapshot 𝓕 𝓢 policy id world ≡ some (root, some next)
      → (load_snapshotting 𝓕 𝓢 policy fuel u batch id inner world).1
        ≡ replay_from 𝓕 fuel u batch root next inner
  unfolding load_snapshotting
  hits id inner world root next h = rw (h, load_snapshotting) refl

  -- On a consistent store, whatever snapshot store is used and whatever it answers, if the snapshot
  -- that it finds is the state of the events up to its version, then a load through it gives the
  -- root that a full load gives, with at most as many events counted as replayed. The stream stays
  -- below `u64::MAX` rows; one poll more than there are rows is enough.
  pub load_snapshotting-load :
      (id : 𝓐.AggregateId) (inner : Inner) (world : 𝓢.World) (root : AggregateRoot 𝓐)
      → IsConsistent u inner
      → length (rows_for u 𝓕 id inner) < u64_max
      → length (rows_for u 𝓕 id inner) < fuel
      → ((version : Version) (state : 𝓐.State)
          → 𝓢.hydrate (𝓕.id_bytes id) policy.schema_version world ≡ ok (found version state)
          → IsGenuine u 𝓕 id version state inner)
      → load 𝓕 fuel u batch id inner ≡ returned (ok root)
      → (count : ℕ) × (count ≤ root.replayed_events)
        × ((load_snapshotting 𝓕 𝓢 policy fuel u batch id inner world).1
            ≡ returned (ok (recounted u 𝓕 count root)))
  unfolding try_load_from_snapshot
  load_snapshotting-load id inner world root c few enough genuine loaded =
      elim (Result-cases (𝓢.hydrate (𝓕.id_bytes id) policy.schema_version world)) [
        | inr (e, h) ↦ (
          root.replayed_events,
          omega arith,
          misses id inner world (rw (h, try_load_from_snapshot) refl) ∙ loaded,
        )
        | inl (absent, h) ↦ (
          root.replayed_events,
          omega arith,
          misses id inner world (rw (h, try_load_from_snapshot) refl) ∙ loaded,
        )
        | inl (stale stored, h) ↦ (
          root.replayed_events,
          omega arith,
          misses id inner world (rw (h, try_load_from_snapshot) refl) ∙ loaded,
        )
        | inl (found version state, h) ↦
            let g = genuine version state h in
            let (count, less, ends) =
              tail_loads id version state inner root c few enough loaded g in
            let low : version.as_u64 < u64_max =
              omega (arith, IsGenuine-le u 𝓕 id version state inner g, few) in
            (
              count,
              less,
              hits id inner world (restore id state version)
                    (record { as_u64 = version.as_u64 + 1 })
                    (rw (h, try_load_from_snapshot)
                      (ap (λ next. some (restore id state version, next))
                        (next_version version low)))
                  ∙ ends,
            )
      ]
