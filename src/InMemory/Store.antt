-- ===== src/InMemory/Store.antt =====
-- adapters/inmemory/src/lib.rs: the state behind the mutex, and `append`.
use mnesis.Base.{ℕ, Option, List, [], ◌∷◌, ◌++◌, map, ltb, ◌==◌, if◌then◌else◌, length}
use mnesis.Base.Words.{u64_max, checked_add, try_from}
use mnesis.Base.Result.{Result, ok, err, ◌>>=◌, ◌>>◌, ok_or, map_err}
use mnesis.Kernel.Version.{Version}
use mnesis.Store.Envelope.{PendingEnvelope, PendingBatch, batch_iter}
use mnesis.Store.Append.{StreamKey, AppendValidationError, validate_append_versions}
use mnesis.InMemory.Streams.{rows_of, extend}
use mnesis.InMemory.Frame.{
  StoredFrame, InMemoryStoreError, version_overflow, global_seq_overflow, encode_pending_to_frame,
}

-- `Inner`, with the calls of `StreamNotifiers::wake` made so far. The index is the `BTreeMap` by
-- position, in its order.
pub record Inner : Type 0 where
  pub streams : List (StreamKey × List StoredFrame)
  pub next_global_seq : ℕ
  pub global_index : List (ℕ × (StreamKey × StoredFrame))
  pub woken : List StreamKey

-- `Inner::default`
abbrev pub default : Inner
default = record { streams = []; next_global_seq = 1; global_index = []; woken = [] }

-- `InMemoryAllPos::next`
abbrev pub next_pos : ℕ → Option ℕ
next_pos pos = checked_add u64_max pos 1

-- `BTreeMap::insert`: in key order, an equal key being replaced.
unfoldable pub insert_at : {V : Type 0} → ℕ → V → List (ℕ × V) → List (ℕ × V)
insert_at pos v [] = (pos, v) ∷ []
insert_at pos v ((p, w) ∷ index) =
    if ltb pos p
    then (pos, v) ∷ (p, w) ∷ index
    else if pos == p
    then (pos, v) ∷ index
    else (p, w) ∷ insert_at pos v index

-- `AppendError`
pub data AppendError : Type 0 where
  conflict : StreamKey → Option Version → Option Version → AppendError
  store : InMemoryStoreError → AppendError

-- `inmemory_validation_err`
abbrev pub inmemory_validation_err : StreamKey → AppendValidationError → AppendError
inmemory_validation_err id (AppendValidationError.conflict _ expected actual) =
    conflict id expected actual
inmemory_validation_err id AppendValidationError.version_overflow = store version_overflow

-- What staging a run yields: the rows by position, the next free position and the last one given.
pub record Staged : Type 0 where
  pub rows : List (ℕ × StoredFrame)
  pub seq : ℕ
  pub last_assigned : ℕ

abbrev pub cons_row : ℕ → StoredFrame → Staged → Staged
cons_row pos frame s = record s { rows = (pos, frame) ∷ s.rows }

-- The staging loop: each envelope takes the next position, which must leave a successor.
unfoldable pub stage : ℕ → ℕ → List PendingEnvelope → Result InMemoryStoreError Staged
stage seq last_assigned [] = ok (record { rows = []; seq = seq; last_assigned = last_assigned })
stage seq last_assigned (env ∷ envs) = do
  frame ← encode_pending_to_frame env
  seq' ← ok_or (next_pos seq) global_seq_overflow
  staged ← stage seq' seq envs
  ok (cons_row seq frame staged)

unfoldable pub index_rows :
    StreamKey
    → List (ℕ × StoredFrame)
    → List (ℕ × (StreamKey × StoredFrame))
    → List (ℕ × (StreamKey × StoredFrame))
index_rows id [] index = index
index_rows id ((pos, frame) ∷ rows) index = index_rows id rows (insert_at pos (id, frame) index)

abbrev pub frames : List (ℕ × StoredFrame) → List StoredFrame
frames = map (λ r. r.1)

-- The commit of one staged run, in one critical section, and the wake after it.
unfoldable pub commit : StreamKey → Staged → Inner → Inner
commit id staged inner = record {
  streams = extend id (frames staged.rows) inner.streams;
  next_global_seq = staged.seq;
  global_index = index_rows id staged.rows inner.global_index;
  woken = inner.woken ++ (id ∷ []);
}

-- Everything of `append` before its first write: the staged rows, or the error.
unfoldable pub append_checks :
    StreamKey → Option Version → PendingBatch → Inner → Result AppendError Staged
append_checks id expected_version envelopes inner = do
  current ← ok_or (try_from u64_max (length (rows_of id inner.streams))) (store version_overflow)
  map_err (inmemory_validation_err id)
      (validate_append_versions current expected_version envelopes id)
  map_err store (stage inner.next_global_seq inner.next_global_seq (batch_iter envelopes))

-- `RawEventStore::append`: the state after it and its result, the last position assigned.
unfoldable pub append :
    StreamKey → Option Version → PendingBatch → Inner → Inner × Result AppendError ℕ
append id expected_version envelopes inner =
    elim (append_checks id expected_version envelopes inner) [
      | err e ↦ (inner, err e)
      | ok staged ↦ (commit id staged inner, ok staged.last_assigned)
    ]
