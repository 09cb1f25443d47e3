-- ===== src/InMemory/Examples/Checkpointing.antt =====
-- Two writers of one checkpoint.
use mnesis.Base.{ℕ, ◌≤◌, ◌≡◌, ◌≢◌, refl, false, none, some, List, [], ◌∷◌, leb}
use mathlib.Core.Option
use mnesis.Base.Bytes.{bytes_eq}
use mnesis.Base.Result.{ok, err}
use mnesis.Store.Checkpoint.{
  Positions, advance, CheckpointRejection, conflict, CheckpointWrite, found, stale, revision_after,
  check_mode, next_revision,
}
use mnesis.InMemory.Checkpoint.{Record, Records, hydrate_checkpoint, current_of, commit_checkpoint}
use mnesis.Base.Maps.{get, insert}
use mnesis.InMemory.Checkpoint.Commit.{IsAdmitted, commit_checkpoint_effect}
use mnesis.InMemory.Checkpoint.History.{at_rest, then_commit, no_lost_write}

-- Positions are sequence numbers.
abbrev sequence : Positions
sequence = record { Position = ℕ; is_at_most = leb }

abbrev total : List ℕ
total = 116 ∷ []

abbrev first : CheckpointWrite sequence ℕ
first = record { expected = none; schema_version = 1; position = 10; state = 100; mode = advance }

abbrev second : CheckpointWrite sequence ℕ
second = record first { expected = some 1; position = 20 }

abbrev written : Records sequence ℕ
written = (total, record { revision = 1; schema_version = 1; position = 10; state = 100 }) ∷ []

commits : commit_checkpoint sequence ℕ total first [] ≡ (written, ok 1)
unfolding commit_checkpoint next_revision check_mode get insert
commits = refl

abbrev advanced : Records sequence ℕ
advanced = (commit_checkpoint sequence ℕ total second written).0

commit_checkpoint_effect_example :
    ((revision : ℕ)
      → commit_checkpoint sequence ℕ total first [] ≡ (written, ok revision)
      → (first.expected ≡ Option.map (λ (r : Record sequence ℕ). r.revision) (get total []))
        × IsAdmitted sequence ℕ first (Option.map (current_of sequence ℕ) (get total []))
        × (revision_after sequence ℕ
              (Option.map (λ (r : Record sequence ℕ). r.revision) (get total []))
            ≡ some revision)
        × (hydrate_checkpoint sequence ℕ total 1 written ≡ found revision 10 100)
        × ((schema : ℕ)
            → schema ≢ 1
            → hydrate_checkpoint sequence ℕ total schema written ≡ stale revision 1)
        × ((j : List ℕ) → bytes_eq total j ≡ false → get j written ≡ get j []))
    × ((e : CheckpointRejection)
        → commit_checkpoint sequence ℕ total first [] ≡ (written, err e)
        → written ≡ [])
    × ((revision : ℕ)
        → first.expected ≡ Option.map (λ (r : Record sequence ℕ). r.revision) (get total [])
        → IsAdmitted sequence ℕ first (Option.map (current_of sequence ℕ) (get total []))
        → revision_after sequence ℕ
            (Option.map (λ (r : Record sequence ℕ). r.revision) (get total []))
          ≡ some revision
        → (commit_checkpoint sequence ℕ total first []).1 ≡ ok revision)
commit_checkpoint_effect_example = commit_checkpoint_effect sequence ℕ total first [] written

no_lost_write_example :
    (r : Record sequence ℕ) × (get total advanced ≡ some r)
    × (1 ≤ r.revision)
    × (commit_checkpoint sequence ℕ total first advanced
        ≡ (advanced, err (conflict none (some r.revision))))
no_lost_write_example =
    no_lost_write sequence ℕ total first first [] written advanced 1 commits
      (then_commit (at_rest written) total second) refl
