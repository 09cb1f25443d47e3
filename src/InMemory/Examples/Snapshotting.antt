-- ===== src/InMemory/Examples/Snapshotting.antt =====
-- The counter behind a repository that takes a snapshot at every save.
use mnesis.Base.{
  ℕ, ◌+◌, ◌++◌, ◌≤◌, ◌<◌, ◌≡◌, refl, sym, true, false, none, some, [], ◌∷◌, arith, length,
}
use mathlib.Core.Path.{subst}
use mnesis.Base.Words.{u64_max}
use mnesis.Base.Bytes.{bytes_eq}
use mnesis.Base.Maps.{get}
use mnesis.Base.Result.{ok}
use mnesis.Kernel.Version.{Version}
use mnesis.Kernel.Aggregate.{AggregateRoot, version_or_zero}
use mnesis.InMemory.Streams.{rows_of}
use mnesis.InMemory.Store.{Inner, default}
use mnesis.InMemory.Append.{default-IsConsistent}
use mnesis.InMemory.Consistent.{IsConsistent}
use mnesis.InMemory.Read.{batch_size_new}
use mnesis.InMemory.Repository.{Outcome, SaveError, load, returned}
use mnesis.InMemory.Repository.Save.{save_events_effect}
use mnesis.InMemory.Repository.Reload.{load-save}
use mnesis.InMemory.Snapshot.{
  Policy, found, in_memory_snapshots, save_snapshotting, load_snapshotting,
}
use mnesis.InMemory.Snapshot.Restart.{recounted}
use mnesis.InMemory.Snapshot.Load.{rows_for, IsGenuine, load_snapshotting-load}
use mnesis.InMemory.Snapshot.Sound.{IsSound, taken, load-IsGenuine, in_memory_snapshots-IsSlotStore}
use mnesis.InMemory.Snapshot.Sessions.{
  Session, begins, creates, loads, saves as then_saves, handed_out, AllHeld, Session-IsSound,
}
use mnesis.InMemory.Examples.{any_utf8, id}
use mnesis.InMemory.Examples.Saving.{
  Counter, counters, counters-IsLawful, counters-IsCodec, root, page, added, saved_root,
  saved_store, saves, loads_empty,
}

abbrev always : Policy
always = record {
  should_persist = λ old new names. true;
  schema_version = 1;
  snapshot_on_read = false;
}

abbrev Slots : Type 0
Slots = (in_memory_snapshots ℕ).World

sized : batch_size_new 10 ≡ some page
sized = unfold batch_size_new in refl

few : length (rows_of id saved_store.streams) < u64_max
few = unfold rows_of bytes_eq in omega arith

enough : length (rows_of id saved_store.streams) < 10
enough = unfold rows_of bytes_eq in omega arith

abbrev none_taken : Slots
none_taken = []

abbrev Stepped : Type 0
Stepped = Slots × (Inner × (AggregateRoot Counter × Outcome (SaveError counters) ℕ))

abbrev once : Stepped
once = save_snapshotting counters (in_memory_snapshots ℕ) always root added default none_taken

abbrev read_back : Slots × Outcome (SaveError counters) (AggregateRoot Counter)
read_back =
    load_snapshotting counters (in_memory_snapshots ℕ) always 10 any_utf8 page (115 ∷ []) once.1.0
      once.0

abbrev twice : Stepped
twice =
    save_snapshotting counters (in_memory_snapshots ℕ) always once.1.1.0 added once.1.0 read_back.0

-- A created root is saved, its stream is loaded through the snapshot, and the root is saved again.
session :
    Session any_utf8 counters
      (in_memory_snapshots ℕ)
      always
      10
      page
      twice.0
      twice.1.0
      (handed_out any_utf8 counters read_back.1 ++ twice.1.1.0 ∷ [])
session =
    then_saves read_back.0 once.1.0 (handed_out any_utf8 counters read_back.1) [] once.1.1.0 added
      at_one
      (loads once.0 once.1.0 (once.1.1.0 ∷ []) (115 ∷ []) few_saved enough_saved short (
        then_saves none_taken default [] [] root added (omega arith) (
          creates none_taken default [] (115 ∷ [])
            (begins none_taken default (default-IsConsistent any_utf8) nothing_found))))
  where
    saved_once : once.1 ≡ (saved_store, (saved_root, returned (ok 1)))
    saved_once = unfold save_snapshotting in saves

    at_one : version_or_zero once.1.1.0.version + 1 ≤ 1000
    at_one = subst (λ x. version_or_zero x.1.0.version + 1 ≤ 1000) (sym saved_once) (omega arith)

    few_saved : length (rows_for any_utf8 counters (115 ∷ []) once.1.0) < u64_max
    few_saved = subst (λ x. length (rows_of id x.0.streams) < u64_max) (sym saved_once) few

    enough_saved : length (rows_for any_utf8 counters (115 ∷ []) once.1.0) < 10
    enough_saved = subst (λ x. length (rows_of id x.0.streams) < 10) (sym saved_once) enough

    short : length (rows_for any_utf8 counters (115 ∷ []) once.1.0) ≤ 1000
    short =
        subst (λ x. length (rows_of id x.0.streams) ≤ 1000) (sym saved_once) (omega (arith, enough))

    nothing_found : IsSound any_utf8 counters (in_memory_snapshots ℕ) always none_taken default
    nothing_found = unfold get in λ id version state h. absurd (ground arith)

Session-IsSound_example :
    IsConsistent any_utf8 twice.1.0
    × IsSound any_utf8 counters (in_memory_snapshots ℕ) always twice.0 twice.1.0
    × AllHeld any_utf8 counters
        (handed_out any_utf8 counters read_back.1 ++ twice.1.1.0 ∷ [])
        twice.1.0
Session-IsSound_example =
    Session-IsSound any_utf8 counters (in_memory_snapshots ℕ) always
      (in_memory_snapshots-IsSlotStore ℕ) (λ a b e. e) counters-IsCodec counters-IsLawful
      (omega arith) 10 10 page sized twice.0 twice.1.0
      (handed_out any_utf8 counters read_back.1 ++ twice.1.1.0 ∷ []) session

abbrev version_1 : Version
version_1 = record { as_u64 = 1 }

abbrev taken_at_1 : Slots
taken_at_1 = (115 ∷ [], (1, version_1, 5)) ∷ []

abbrev reloaded : AggregateRoot Counter
reloaded = record saved_root { replayed_events = 1 }

loads_saved : load counters 10 any_utf8 page (115 ∷ []) saved_store ≡ returned (ok reloaded)
loads_saved =
    load-save any_utf8 counters counters-IsCodec 10 10 page sized (λ name. none) default saved_store
      (115 ∷ []) root saved_root added 1 counters-IsLawful (default-IsConsistent any_utf8)
      loads_empty saves (omega arith) (omega arith) few enough

saved-IsConsistent : IsConsistent any_utf8 saved_store
saved-IsConsistent =
    subst (λ x. IsConsistent any_utf8 x.0) saves
      (save_events_effect any_utf8 counters root added default (λ name. none) counters-IsLawful
        (default-IsConsistent any_utf8)).0

genuine :
    (version : Version) (state : ℕ)
    → (in_memory_snapshots ℕ).hydrate (115 ∷ []) 1 taken_at_1 ≡ ok (found version state)
    → IsGenuine any_utf8 counters (115 ∷ []) version state saved_store
unfolding get bytes_eq
genuine version state h =
    let (v, s) = taken 1 version_1 version 5 state h in
    subst (λ x. IsGenuine any_utf8 counters (115 ∷ []) x state saved_store) v
      (subst (λ x. IsGenuine any_utf8 counters (115 ∷ []) version_1 x saved_store) s
        (load-IsGenuine any_utf8 counters 10 10 page sized (115 ∷ []) saved_store reloaded version_1
          5 saved-IsConsistent few enough loads_saved refl refl).1)

load_snapshotting-load_example :
    (count : ℕ) × (count ≤ 1)
    × ((load_snapshotting counters
          (in_memory_snapshots ℕ)
          always
          10
          any_utf8
          page
          (115 ∷ [])
          saved_store
          taken_at_1).1
        ≡ returned (ok (recounted any_utf8 counters count reloaded)))
load_snapshotting-load_example =
    load_snapshotting-load any_utf8 counters (in_memory_snapshots ℕ) always 10 10 page sized
      (omega arith) (115 ∷ []) saved_store taken_at_1 reloaded saved-IsConsistent few enough genuine
      loads_saved
