-- ===== src/InMemory/Import.antt =====
-- crates/store/src/import.rs on the in-memory store: `import_per_stream` and `import_whole_chunk`.
pub mod Section
pub mod PerStream
pub mod Writes
pub mod Errors
pub mod Entire
pub mod Whole
use mnesis.Base.{ℕ, suc, Option, none, some, List, [], ◌∷◌, map, get_elem?}
use mnesis.Base.Result.{Result, ok, err, ◌>>=◌, ◌>>◌, map_err}
use mnesis.Kernel.Version
use mnesis.Kernel.Version.{Version}
use mnesis.Store.Envelope.{PendingBatch}
use mnesis.Store.Append.{StreamKey}
use mnesis.Store.Import.{PlannedAppend, InvalidRun, InvalidRoute, validate_distinct_targets}
use mnesis.Store.Import.Plan.{
  StreamSection, Halt, gap, RunPlan, SectionPlan, run, empty, first_corrupt, plan_section,
}
use mnesis.InMemory.Frame.{InMemoryStoreError}
use mnesis.InMemory.Store.{Inner, AppendError, append}
use mnesis.InMemory.Atomic.{AtomicAppendError, atomic_append_many}

pub data Atomicity : Type 0 where
  whole_chunk per_stream : Atomicity

pub data StreamOutcome : Type 0 where
  complete : Version → StreamOutcome
  corrupt : Option Version → StreamOutcome
  mismatch : Option Version → Version → StreamOutcome

-- `StreamOutcome::reached`
abbrev pub reached : StreamOutcome → Option Version
reached (complete version) = some version
reached (corrupt reached_) = reached_
reached (mismatch reached_ got) = reached_

pub record StreamReport : Type 0 where
  pub stream : StreamKey
  pub outcome : StreamOutcome

pub data AbortReason : Type 0 where
  corrupt : AbortReason
  mismatch : Version → Version → AbortReason

pub data ImportError : Type 0 where
  invalid_run : InvalidRun → ImportError
  invalid_route : InvalidRoute → ImportError
  aborted : StreamKey → AbortReason → ImportError
  version_overflow : ImportError
  store : InMemoryStoreError → ImportError

-- `route_sections`
unfoldable pub route_sections :
    List StreamSection → (List ℕ → StreamKey) → Result ImportError (List StreamKey)
route_sections sections route = do
  let targets = map (λ s. route s.origin) sections
  map_err invalid_route (validate_distinct_targets targets)
  ok targets

-- `sections.iter().zip(targets)`
abbrev pub zip : List StreamSection → List StreamKey → List (StreamSection × StreamKey)
zip [] targets = []
zip (s ∷ sections) [] = []
zip (s ∷ sections) (t ∷ targets) = (s, t) ∷ zip sections targets

abbrev pub run_batch : RunPlan → PendingBatch
run_batch p = record { first = p.head; rest = p.tail }

-- The outcome of a run that was appended.
abbrev pub appended : RunPlan → StreamOutcome
appended p = elim p.halt [
  | Halt.complete ↦ StreamOutcome.complete p.last
  | Halt.corrupt ↦ StreamOutcome.corrupt (some p.last)
  | gap got ↦ StreamOutcome.mismatch (some p.last) got
]

-- One round of the loop of `import_per_stream`: the state after it, and the report of the section,
-- if it makes one.
unfoldable pub import_section :
    StreamSection → StreamKey → Inner → Inner × Result ImportError (Option StreamOutcome)
import_section section target inner = elim (plan_section section) [
  | err overflow ↦ (inner, err version_overflow)
  | ok plan ↦ elim plan [
    | empty ↦ (inner, ok none)
    | first_corrupt ↦ (inner, ok (some (StreamOutcome.corrupt none)))
    | run p ↦
        let (inner', result) = append target p.expected_version (run_batch p) inner in
        elim result [
          | ok position ↦ (inner', ok (some (appended p)))
          | err e ↦ elim e [
            | AppendError.conflict id expected actual ↦
                (inner', ok (some (StreamOutcome.mismatch none p.first)))
            | AppendError.store error ↦ (inner', err (store error))
          ]
        ]
  ]
]

abbrev pub push_report : StreamKey → Option StreamOutcome → List StreamReport → List StreamReport
push_report target none reports = reports
push_report target (some outcome) reports = record { stream = target; outcome = outcome } ∷ reports

-- The loop of `import_per_stream`.
unfoldable pub import_sections :
    List (StreamSection × StreamKey) → Inner → Inner × Result ImportError (List StreamReport)
import_sections [] inner = (inner, ok [])
import_sections ((section, target) ∷ pairs) inner =
    let (inner', result) = import_section section target inner in
    let (after, reports) = import_sections pairs inner' in
    elim result [
      | err e ↦ (inner', err e)
      | ok outcome ↦ elim reports [
        | err e ↦ (after, err e)
        | ok rs ↦ (after, ok (push_report target outcome rs))
      ]
    ]

-- `import_per_stream`
unfoldable pub import_per_stream :
    List StreamSection
    → (List ℕ → StreamKey)
    → Inner
    → Inner × Result ImportError (List StreamReport)
import_per_stream sections route inner = elim (route_sections sections route) [
  | err e ↦ (inner, err e)
  | ok targets ↦ import_sections (zip sections targets) inner
]

-- A write of a whole chunk, with the first and the last version of its run.
pub record ChunkWrite : Type 0 where
  pub write : PlannedAppend
  pub first : Version
  pub last : Version

-- The write that a section makes, if any, or the reason that it aborts the chunk.
unfoldable pub chunk_write : StreamSection → StreamKey → Result ImportError (Option ChunkWrite)
chunk_write section target = elim (plan_section section) [
  | err overflow ↦ err version_overflow
  | ok plan ↦ elim plan [
    | empty ↦ ok none
    | first_corrupt ↦ err (aborted target AbortReason.corrupt)
    | run p ↦ elim p.halt [
      | Halt.complete ↦ ok (
          some (record {
            write = record {
              target = target;
              expected_version = p.expected_version;
              head = p.head;
              tail = p.tail;
            };
            first = p.first;
            last = p.last;
          }))
      | Halt.corrupt ↦ err (aborted target AbortReason.corrupt)
      | gap got ↦ elim (Version.next p.last) [
        | none ↦ err version_overflow
        | some expected ↦ err (aborted target (AbortReason.mismatch expected got))
      ]
    ]
  ]
]

abbrev pub push_write : Option ChunkWrite → List ChunkWrite → List ChunkWrite
push_write none writes = writes
push_write (some w) writes = w ∷ writes

-- The first phase of `import_whole_chunk`.
unfoldable pub chunk_writes :
    List (StreamSection × StreamKey) → Result ImportError (List ChunkWrite)
chunk_writes [] = ok []
chunk_writes ((section, target) ∷ pairs) = do
  w ← chunk_write section target
  writes ← chunk_writes pairs
  ok (push_write w writes)

-- `writes.get(index).or_else(|| writes.first())`
abbrev pub get_or_first : List ChunkWrite → ℕ → Option ChunkWrite
get_or_first writes index = elim (get_elem? writes index) [
  | some w ↦ some w
  | none ↦ get_elem? writes 0
]

-- `map_atomic_conflict`
unfoldable pub map_atomic_conflict : List ChunkWrite → ℕ → Option Version → ImportError
map_atomic_conflict writes index actual = elim (get_or_first writes index) [
  | none ↦ version_overflow
  | some w ↦ elim actual [
    | none ↦ aborted w.write.target (AbortReason.mismatch Version.initial w.first)
    | some head ↦ elim (Version.next head) [
      | none ↦ version_overflow
      | some next ↦ aborted w.write.target (AbortReason.mismatch next w.first)
    ]
  ]
]

abbrev pub planned : List ChunkWrite → List PlannedAppend
planned = map (λ w. w.write)

abbrev pub completed : List ChunkWrite → List StreamReport
completed = map (λ w. record { stream = w.write.target; outcome = StreamOutcome.complete w.last })

-- The errors of the second phase of `import_whole_chunk`.
abbrev pub chunk_error : List ChunkWrite → AtomicAppendError → ImportError
chunk_error writes (AtomicAppendError.invalid_run e) = invalid_run e
chunk_error writes (AtomicAppendError.invalid_route e) = invalid_route e
chunk_error writes (AtomicAppendError.conflict index actual) =
    map_atomic_conflict writes index actual
chunk_error writes (AtomicAppendError.store e) = store e

-- `import_whole_chunk`
unfoldable pub import_whole_chunk :
    List StreamSection
    → (List ℕ → StreamKey)
    → Inner
    → Inner × Result ImportError (List StreamReport)
import_whole_chunk sections route inner =
    elim (route_sections sections route >>= λ targets. chunk_writes (zip sections targets)) [
      | err e ↦ (inner, err e)
      | ok writes ↦
          let (inner', result) = atomic_append_many (planned writes) inner in
          elim result [
            | err e ↦ (inner', err (chunk_error writes e))
            | ok position ↦ (inner', ok (completed writes))
          ]
    ]

-- `EventImporter::import`
unfoldable pub import :
    List StreamSection
    → (List ℕ → StreamKey)
    → Atomicity
    → Inner
    → Inner × Result ImportError (List StreamReport)
import sections route per_stream inner = import_per_stream sections route inner
import sections route whole_chunk inner = import_whole_chunk sections route inner
