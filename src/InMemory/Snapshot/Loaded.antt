-- ===== src/InMemory/Snapshot/Loaded.antt =====
-- The roots that a load hands out, through a snapshot or not.
use mnesis.Base.{
  ℕ, ◌+◌, ◌≤◌, ◌<◌, ◌≡◌, ◌∙◌, refl, sym, ap, inl, inr, none, some, map, arith, length, take, drop,
  length-map, length-drop, take-all, take-append-drop,
}
use mathlib.Core.Path.{subst}
use mathlib.Core.List.{map-append}
use mnesis.Base.Words.{u64_max, usize_max}
use mnesis.Base.Result.{ok, Result-cases}
use mnesis.Kernel.Version.{Version}
use mnesis.Kernel.Aggregate.{Aggregate, AggregateRoot, new_root, restore, version_or_zero}
use mnesis.Store.Value.{FromUtf8}
use mnesis.InMemory.Frame.{frame_to_envelope}
use mnesis.InMemory.Store.{Inner}
use mnesis.InMemory.Consistent.{IsConsistent}
use mnesis.InMemory.Read.{BatchSize, batch_size_new}
use mnesis.InMemory.Read.Drain.{drain-read_stream}
use mnesis.InMemory.Repository.{Facade, key_of, replay_items, replay_from, load, returned}
use mnesis.InMemory.Repository.Load.{replay_items-append, replay_items-id}
use mnesis.InMemory.Repository.Reload.{load-rows}
use mnesis.InMemory.Snapshot.{
  SnapshotStore, Policy, absent, stale, found, try_load_from_snapshot, load_snapshotting,
}
use mnesis.InMemory.Snapshot.Restart.{recounted, replay_items-length, replay_items-counted}
use mnesis.InMemory.Snapshot.Load.{
  rows_for, IsReplayed, IsGenuine, IsGenuine-le, at_least-drop, misses, hits, next_version,
}
use mnesis.InMemory.Snapshot.Held.{IsHeld, replayed_exactly}

module _ (u : FromUtf8) {𝓐 : Aggregate} (𝓕 : Facade 𝓐) where
  -- A root that has replayed its whole stream is held.
  whole-IsHeld :
      (id : 𝓐.AggregateId) (inner : Inner) (count : ℕ) (root : AggregateRoot 𝓐)
      → replay_items 𝓕 (new_root id) (map (frame_to_envelope u) (rows_for u 𝓕 id inner))
        ≡ returned (ok (recounted u 𝓕 count root))
      → IsHeld u 𝓕 root inner
  whole-IsHeld id inner count root whole state has =
      let rows = rows_for u 𝓕 id inner in
      let frames = frame_to_envelope u in
      let v = version_or_zero root.version in
      let all : take v rows ≡ rows = take-all v rows (
        omega (
          arith,
          replay_items-length u 𝓕 (map frames rows) (new_root id) (recounted u 𝓕 count root) whole,
          length-map rows frames,
        )) in
      subst (λ x. IsReplayed u 𝓕 x root.version state inner)
        (sym (replay_items-id u 𝓕 (map frames rows) (new_root id) (recounted u 𝓕 count root) whole))
        (
          recounted u 𝓕 count root,
          ap (λ l. replay_items 𝓕 (new_root id) (map frames l)) all ∙ whole,
          refl,
          has,
        )

  module _ (𝓢 : SnapshotStore 𝓐.State) (policy : Policy) (size fuel : ℕ) (batch : BatchSize)
      (sized : batch_size_new size ≡ some batch) (word : 𝓐.max_rehydration_events ≤ usize_max) where
    pub load-IsHeld :
        (id : 𝓐.AggregateId) (inner : Inner) (root : AggregateRoot 𝓐)
        → IsConsistent u inner
        → length (rows_for u 𝓕 id inner) < u64_max
        → length (rows_for u 𝓕 id inner) < fuel
        → load 𝓕 fuel u batch id inner ≡ returned (ok root)
        → IsHeld u 𝓕 root inner
    load-IsHeld id inner root c few enough loaded =
        whole-IsHeld id inner root.replayed_events root
          (sym (load-rows u 𝓕 size fuel batch sized id inner c few enough) ∙ loaded)

    -- Behind a restored snapshot.
    tail-IsHeld :
        (id : 𝓐.AggregateId) (version : Version) (state : 𝓐.State) (inner : Inner)
        (root : AggregateRoot 𝓐)
        → IsConsistent u inner
        → length (rows_for u 𝓕 id inner) < u64_max
        → length (rows_for u 𝓕 id inner) < fuel
        → length (rows_for u 𝓕 id inner) ≤ 𝓐.max_rehydration_events
        → IsGenuine u 𝓕 id version state inner
        → replay_from 𝓕 fuel u batch
            (restore id state version)
            (record { as_u64 = version.as_u64 + 1 })
            inner
          ≡ returned (ok root)
        → IsHeld u 𝓕 root inner
    unfolding replay_from
    tail-IsHeld id version state inner root c few enough budget genuine loaded =
        let v = version.as_u64 in
        let key = key_of 𝓕 (new_root id) in
        let rows = rows_for u 𝓕 id inner in
        let frames = frame_to_envelope u in
        let le = IsGenuine-le u 𝓕 id version state inner genuine in
        let restored : AggregateRoot 𝓐 = restore id state version in
        let drained =
          (drain-read_stream u key inner c few size fuel batch (record { as_u64 = v + 1 }) sized
            (omega arith, omega (arith, le, few)) enough).0 in
        let rest : replay_items 𝓕 restored (map frames (drop v rows)) ≡ returned (ok root) =
          sym (
            ap (replay_items 𝓕 restored)
              (drained ∙ ap (map frames) (at_least-drop v 1 rows (c.gapless key))))
          ∙ loaded in
        let n = v + length (map frames (drop v rows)) in
        let fits : n ≤ 𝓐.max_rehydration_events =
          omega (arith, le, budget, length-map (drop v rows) frames, length-drop v rows) in
        let counted =
          replay_items-counted u 𝓕 word (map frames (drop v rows)) restored root v fits rest in
        let before =
          replayed_exactly u 𝓕 word id (some version) state inner genuine
            (omega (arith, le, budget)) in
        whole-IsHeld id inner n root (
          ap (replay_items 𝓕 (new_root id)) (
            ap (map frames) (sym (take-append-drop v rows))
            ∙ map-append frames (take v rows) (drop v rows))
          ∙ replay_items-append u 𝓕 (map frames (take v rows)) (map frames (drop v rows))
              (new_root id) (recounted u 𝓕 v restored) before
          ∙ counted)

    -- A load through the snapshot that is found, if that one is genuine, hands out a held root.
    pub load_snapshotting-IsHeld :
        (id : 𝓐.AggregateId) (inner : Inner) (world : 𝓢.World) (root : AggregateRoot 𝓐)
        → IsConsistent u inner
        → length (rows_for u 𝓕 id inner) < u64_max
        → length (rows_for u 𝓕 id inner) < fuel
        → length (rows_for u 𝓕 id inner) ≤ 𝓐.max_rehydration_events
        → ((version : Version) (state : 𝓐.State)
            → 𝓢.hydrate (𝓕.id_bytes id) policy.schema_version world ≡ ok (found version state)
            → IsGenuine u 𝓕 id version state inner)
        → (load_snapshotting 𝓕 𝓢 policy fuel u batch id inner world).1 ≡ returned (ok root)
        → IsHeld u 𝓕 root inner
    unfolding try_load_from_snapshot
    load_snapshotting-IsHeld id inner world root c few enough budget genuine loaded =
        let plain : try_load_from_snapshot 𝓕 𝓢 policy id world ≡ none → IsHeld u 𝓕 root inner =
          λ miss.
            load-IsHeld id inner root c few enough
              (sym (misses u 𝓕 𝓢 policy size fuel batch sized word id inner world miss) ∙ loaded) in
        elim (Result-cases (𝓢.hydrate (𝓕.id_bytes id) policy.schema_version world)) [
          | inr (e, h) ↦ plain (rw (h, try_load_from_snapshot) refl)
          | inl (absent, h) ↦ plain (rw (h, try_load_from_snapshot) refl)
          | inl (stale stored, h) ↦ plain (rw (h, try_load_from_snapshot) refl)
          | inl (found version state, h) ↦
              let g = genuine version state h in
              let low : version.as_u64 < u64_max =
                omega (arith, IsGenuine-le u 𝓕 id version state inner g, few) in
              let hit : try_load_from_snapshot 𝓕 𝓢 policy id world
                  ≡ some (restore id state version, some (record { as_u64 = version.as_u64 + 1 })) =
                rw (h, try_load_from_snapshot)
                  (ap (λ next. some (restore id state version, next))
                    (next_version u 𝓕 𝓢 policy size fuel batch sized word version low)) in
              tail-IsHeld id version state inner root c few enough budget g (
                sym (
                  hits u 𝓕 𝓢 policy size fuel batch sized word id inner world
                    (restore id state version) (record { as_u64 = version.as_u64 + 1 }) hit)
                ∙ loaded)
        ]
