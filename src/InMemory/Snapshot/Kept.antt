-- ===== src/InMemory/Snapshot/Kept.antt =====
-- A load and a save through the repository with snapshots, against the snapshots that are found and
-- the roots that are held.
use mnesis.Base.{
  ℕ, ◌+◌, ◌≤◌, ◌<◌, ◌≡◌, refl, sym, inl, inr, Option, some, List, arith, length, Option-cases,
  Bool-cases,
}
use mathlib.Core.Path.{subst}
use mnesis.Base.Words.{u64_max, usize_max}
use mnesis.Base.Result.{ok, err}
use mnesis.Kernel.Version.{Version}
use mnesis.Kernel.Events
use mnesis.Kernel.Events.{Events}
use mnesis.Kernel.Aggregate.{Aggregate, AggregateRoot, version_or_zero}
use mnesis.Store.Value.{FromUtf8}
use mnesis.InMemory.Store.{Inner}
use mnesis.InMemory.Consistent.{IsConsistent}
use mnesis.InMemory.Read.{BatchSize, batch_size_new}
use mnesis.InMemory.Repository.{Facade, Outcome, SaveError, load, returned, panicked}
use mnesis.InMemory.Repository.Load.{IsCodec}
use mnesis.InMemory.Repository.Save.{IsSaveEffect, committed}
use mnesis.InMemory.Snapshot.{
  SnapshotStore, Policy, try_load_from_snapshot, try_save_snapshot, snapshot_on_read,
  snapshot_on_save, load_snapshotting,
}
use mnesis.InMemory.Snapshot.Load.{rows_for, IsReplayed}
use mnesis.InMemory.Snapshot.Held.{IsHeld, grown-IsReplayed, committed-IsReplayed}
use mnesis.InMemory.Snapshot.Loaded.{load-IsHeld}
use mnesis.InMemory.Snapshot.Sound.{IsSlotStore, IsSound, try_save_snapshot-IsSound}

module _ (u : FromUtf8) {𝓐 : Aggregate} (𝓕 : Facade 𝓐) where
  module _ (word : 𝓐.max_rehydration_events ≤ usize_max) (codec : IsCodec 𝓕) where
    -- A root that was held is held behind its save.
    pub save-IsHeld :
        (root root' : AggregateRoot 𝓐) (events : Events 𝓐.Event) (inner inner' : Inner)
        (outcome : Outcome (SaveError 𝓕) ℕ)
        → IsSaveEffect u 𝓕 root events inner (inner', (root', outcome))
        → version_or_zero root.version + Events.len events ≤ 𝓐.max_rehydration_events
        → IsHeld u 𝓕 root inner
        → IsHeld u 𝓕 root' inner'
    save-IsHeld root root' events inner inner' (returned (ok position))
          (p, _, s, s', usable, folds, is) budget held =
        subst (λ r. IsHeld u 𝓕 r inner') (sym is)
          λ state has.
            subst
              (λ t.
                IsReplayed u 𝓕 root.id (committed u 𝓕 root events inner (some s')).version t inner')
              (ground (arith, has))
              (committed-IsReplayed u 𝓕 word codec root events inner inner' s s' p usable folds
                (held s usable) budget)
    save-IsHeld root root' events inner inner' (returned (err x)) (same, is) budget held =
        subst (λ r. IsHeld u 𝓕 r inner') (sym is) (subst (IsHeld u 𝓕 root) (sym same) held)
    save-IsHeld root root' events inner inner' panicked (inl (same, is)) budget held =
        subst (λ r. IsHeld u 𝓕 r inner') (sym is) (subst (IsHeld u 𝓕 root) (sym same) held)
    save-IsHeld root root' events inner inner' panicked (inr (p, is)) budget held =
        subst (λ r. IsHeld u 𝓕 r inner') (sym is) λ state has. absurd (ground arith)

  -- What stood for a prefix of its stream stands for it behind a save of any root.
  pub save-IsReplayed :
      (root root' : AggregateRoot 𝓐) (events : Events 𝓐.Event) (inner inner' : Inner)
      (outcome : Outcome (SaveError 𝓕) ℕ)
      → IsSaveEffect u 𝓕 root events inner (inner', (root', outcome))
      → (id : 𝓐.AggregateId) (version : Option Version) (state : 𝓐.State)
      → IsReplayed u 𝓕 id version state inner
      → IsReplayed u 𝓕 id version state inner'
  save-IsReplayed root root' events inner inner' (returned (ok position)) (p, _, _, _, _, _, _) id
        version state replayed =
      grown-IsReplayed u 𝓕 root events inner inner' p id version state replayed
  save-IsReplayed root root' events inner inner' (returned (err x)) (same, _) id version state
        replayed =
      subst (IsReplayed u 𝓕 id version state) (sym same) replayed
  save-IsReplayed root root' events inner inner' panicked (inl (same, _)) id version state
        replayed =
      subst (IsReplayed u 𝓕 id version state) (sym same) replayed
  save-IsReplayed root root' events inner inner' panicked (inr (p, _)) id version state replayed =
      grown-IsReplayed u 𝓕 root events inner inner' p id version state replayed

  module _ (𝓢 : SnapshotStore 𝓐.State) (policy : Policy) (slots : IsSlotStore 𝓢)
      (injective : (a b : 𝓐.AggregateId) → 𝓕.id_bytes a ≡ 𝓕.id_bytes b → a ≡ b) where
    -- A snapshot of a held root is sound.
    pub snapshot_on_save-IsSound :
        (old : Option Version) (names : List (List ℕ)) (root : AggregateRoot 𝓐)
        (outcome : Outcome (SaveError 𝓕) ℕ) (inner : Inner) (world : 𝓢.World)
        → IsHeld u 𝓕 root inner
        → IsSound u 𝓕 𝓢 policy world inner
        → IsSound u 𝓕 𝓢 policy (snapshot_on_save 𝓕 𝓢 policy old names root outcome world) inner
    unfolding try_save_snapshot
    snapshot_on_save-IsSound old names root (returned (ok position)) inner world held sound =
        elim (Option-cases root.version) [
          | inl e ↦ rw e sound
          | inr (version, e) ↦ elim (Bool-cases (policy.should_persist old version names)) [
            | inr quiet ↦ rw (e, quiet) sound
            | inl fires ↦
                rw (e, fires)
                  (try_save_snapshot-IsSound u 𝓕 𝓢 policy slots injective root version world inner
                    sound
                    (λ state has.
                      subst (λ v. IsReplayed u 𝓕 root.id v state inner) e (held state has)))
          ]
        ]
    snapshot_on_save-IsSound old names root (returned (err x)) inner world held sound = sound
    snapshot_on_save-IsSound old names root panicked inner world held sound = sound

    pub snapshot_on_read-IsSound :
        (outcome : Outcome (SaveError 𝓕) (AggregateRoot 𝓐)) (inner : Inner) (world : 𝓢.World)
        → ((root : AggregateRoot 𝓐) → outcome ≡ returned (ok root) → IsHeld u 𝓕 root inner)
        → IsSound u 𝓕 𝓢 policy world inner
        → IsSound u 𝓕 𝓢 policy (snapshot_on_read 𝓕 𝓢 policy outcome world) inner
    unfolding try_save_snapshot
    snapshot_on_read-IsSound (returned (ok root)) inner world held sound =
        elim (Option-cases root.version) [
          | inl e ↦ rw e sound
          | inr (version, e) ↦ elim (Bool-cases policy.snapshot_on_read) [
            | inr quiet ↦ rw (e, quiet) sound
            | inl fires ↦
                rw (e, fires)
                  (try_save_snapshot-IsSound u 𝓕 𝓢 policy slots injective root version world inner
                    sound
                    (λ state has.
                      subst (λ v. IsReplayed u 𝓕 root.id v state inner) e
                        (held root refl state has)))
          ]
        ]
    snapshot_on_read-IsSound (returned (err x)) inner world held sound = sound
    snapshot_on_read-IsSound panicked inner world held sound = sound

    pub load_snapshotting-IsSound :
        (word : 𝓐.max_rehydration_events ≤ usize_max) (size fuel : ℕ) (batch : BatchSize)
        (sized : batch_size_new size ≡ some batch) (id : 𝓐.AggregateId) (inner : Inner)
        (world : 𝓢.World)
        → IsConsistent u inner
        → length (rows_for u 𝓕 id inner) < u64_max
        → length (rows_for u 𝓕 id inner) < fuel
        → IsSound u 𝓕 𝓢 policy world inner
        → IsSound u 𝓕 𝓢 policy (load_snapshotting 𝓕 𝓢 policy fuel u batch id inner world).0 inner
    unfolding load_snapshotting
    load_snapshotting-IsSound word size fuel batch sized id inner world c few enough sound =
        elim (Option-cases (try_load_from_snapshot 𝓕 𝓢 policy id world)) [
          | inr (hit, h) ↦ rw (h, load_snapshotting) sound
          | inl h ↦
              rw (h, load_snapshotting)
                (snapshot_on_read-IsSound (load 𝓕 fuel u batch id inner) inner world
                  (λ root loaded.
                    load-IsHeld u 𝓕 𝓢 policy size fuel batch sized word id inner root c few enough
                      loaded)
                  sound)
        ]
