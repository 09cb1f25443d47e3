-- ===== src/InMemory/Atomic.antt =====
-- adapters/inmemory/src/lib.rs: `atomic_append_many`, several runs in one critical section.
pub mod Commit
pub mod Whole
use mnesis.Base.{
  ℕ, suc, ◌+◌, Option, none, some, List, [], ◌∷◌, ◌++◌, map, ◌==◌, if◌then◌else◌, length,
}
use mnesis.Base.Words.{u64_max, try_from}
use mnesis.Base.Result.{Result, ok, err, ◌>>=◌, ◌>>◌, ok_or, map_err}
use mnesis.Kernel.Version
use mnesis.Kernel.Version.{Version}
use mnesis.Kernel.Aggregate.{version_or_zero}
use mnesis.Store.Envelope.{batch_iter}
use mnesis.Store.Append.{StreamKey}
use mnesis.Store.Import.{
  PlannedAppend, InvalidRun, InvalidRoute, batch, validate_atomic_runs, validate_distinct_targets,
  targets,
}
use mnesis.InMemory.Streams.{rows_of, extend}
use mnesis.InMemory.Frame.{StoredFrame, InMemoryStoreError, version_overflow}
use mnesis.InMemory.Store.{Inner, Staged, stage, index_rows, frames}

pub data AtomicAppendError : Type 0 where
  invalid_run : InvalidRun → AtomicAppendError
  invalid_route : InvalidRoute → AtomicAppendError
  conflict : ℕ → Option Version → AtomicAppendError
  store : InMemoryStoreError → AtomicAppendError

-- The first phase: every target against its head, from the write at `index` on.
unfoldable pub check_heads :
    ℕ
    → List (StreamKey × List StoredFrame)
    → List PlannedAppend
    → Result AtomicAppendError (Unit {0})
check_heads index streams [] = ok tt
check_heads index streams (w ∷ writes) = do
  actual ← ok_or (try_from u64_max (length (rows_of w.target streams))) (store version_overflow)
  if actual == version_or_zero w.expected_version
      then check_heads (suc index) streams writes
      else err (conflict index (Version.new actual))

-- The staged runs with their targets, the next free position and the last one given.
pub record StagedRuns : Type 0 where
  pub runs : List (StreamKey × Staged)
  pub seq : ℕ
  pub last_assigned : ℕ

abbrev pub cons_run : StreamKey → Staged → StagedRuns → StagedRuns
cons_run key s r = record r { runs = (key, s) ∷ r.runs }

-- The second phase: positions and frames for every run in turn.
unfoldable pub stage_runs : ℕ → ℕ → List PlannedAppend → Result InMemoryStoreError StagedRuns
stage_runs seq last_assigned [] =
    ok (record { runs = []; seq = seq; last_assigned = last_assigned })
stage_runs seq last_assigned (w ∷ writes) = do
  s ← stage seq last_assigned (batch_iter (batch w))
  rest ← stage_runs s.seq s.last_assigned writes
  ok (cons_run w.target s rest)

unfoldable pub index_runs :
    List (StreamKey × Staged)
    → List (ℕ × (StreamKey × StoredFrame))
    → List (ℕ × (StreamKey × StoredFrame))
index_runs [] index = index
index_runs ((key, s) ∷ runs) index = index_runs runs (index_rows key s.rows index)

unfoldable pub extend_runs :
    List (StreamKey × Staged)
    → List (StreamKey × List StoredFrame)
    → List (StreamKey × List StoredFrame)
extend_runs [] streams = streams
extend_runs ((key, s) ∷ runs) streams = extend_runs runs (extend key (frames s.rows) streams)

-- The third phase and the wakes after it.
unfoldable pub commit_runs : List (StreamKey × Staged) → ℕ → Inner → Inner
commit_runs runs seq inner = record {
  streams = extend_runs runs inner.streams;
  next_global_seq = seq;
  global_index = index_runs runs inner.global_index;
  woken = inner.woken ++ map (λ r. r.0) runs;
}

-- Everything before the first write, on at least one run.
unfoldable pub atomic_checks : List PlannedAppend → Inner → Result AtomicAppendError StagedRuns
atomic_checks writes inner = do
  map_err invalid_route (validate_distinct_targets (targets writes))
  map_err invalid_run (validate_atomic_runs writes)
  check_heads 0 inner.streams writes
  map_err store (stage_runs inner.next_global_seq inner.next_global_seq writes)

-- `AtomicAppend::atomic_append_many`: the state after it and the last position assigned.
unfoldable pub atomic_append_many :
    List PlannedAppend → Inner → Inner × Result AtomicAppendError (Option ℕ)
atomic_append_many [] inner = (inner, ok none)
atomic_append_many (w ∷ writes) inner = elim (atomic_checks (w ∷ writes) inner) [
  | err e ↦ (inner, err e)
  | ok staged ↦ (commit_runs staged.runs staged.seq inner, ok (some staged.last_assigned))
]
