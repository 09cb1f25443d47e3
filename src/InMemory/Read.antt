-- ===== src/InMemory/Read.antt =====
-- adapters/inmemory/src/lib.rs, the read side: `read_stream` as a paged stream over the store.
-- A poll takes the store as it is at that time. The monotonicity check of debug builds is left out.
pub mod Page
pub mod Scan
pub mod Drain
use mnesis.Base.{
  ℕ, zero, suc, Bool, true, false, Option, none, some, List, [], ◌∷◌, ltb, leb, ◌==◌, ◌||◌,
  if◌then◌else◌, length, take, drop,
}
use mnesis.Base.Result.{Result, ok, err, ok_or}
use mnesis.Kernel.Version
use mnesis.Kernel.Version.{Version}
use mnesis.Store.Value.{FromUtf8}
use mnesis.Store.Append.{StreamKey}
use mnesis.Store.Envelope.Persisted.{PersistedEnvelope}
use mnesis.InMemory.Streams.{rows_of}
use mnesis.InMemory.Frame.{StoredFrame, InMemoryStoreError, version_overflow, frame_to_envelope}
use mnesis.InMemory.Store.{Inner}

-- crates/store/src/batch.rs: `BatchSize`, its ceiling and its constructor; `none` is the error.
pub record BatchSize : Type 0 where
  pub get : ℕ

abbrev pub max_batch : ℕ
max_batch = 4096

-- `BatchSize::new`
unfoldable pub batch_size_new : ℕ → Option BatchSize
batch_size_new n = if (n == 0) || ltb max_batch n then none else some (record { get = n })

-- `rows.partition_point(|row| row.version < from)`: on rows in version order, the number of leading
-- rows below `from`.
unfoldable pub partition_point : ℕ → List StoredFrame → ℕ
partition_point from [] = 0
partition_point from (row ∷ rows) =
    let rest = partition_point from rows in if ltb row.version from then suc rest else 0

-- `scan_batch`
unfoldable pub scan_batch : List StoredFrame → ℕ → ℕ → List StoredFrame
scan_batch rows from batch_size = take batch_size (drop (partition_point from rows) rows)

pub record ReadState : Type 0 where
  pub stream_id : StreamKey
  pub from : Version
  pub last_version : Option Version
  pub batch_size : ℕ
  pub buffer : List StoredFrame
  pub done : Bool

-- `ReadState::next_read_version`
abbrev pub next_read_version : ReadState → Result InMemoryStoreError Version
next_read_version s = elim s.last_version [
  | none ↦ ok s.from
  | some v ↦ ok_or (Version.next v) version_overflow
]

-- `ReadState::refill`
abbrev pub refill : Inner → Version → ReadState → ReadState
refill inner from s =
    let batch = scan_batch (rows_of s.stream_id inner.streams) from.as_u64 s.batch_size in
    record s { buffer = batch; done = ltb (length batch) s.batch_size }

abbrev pub Item : Type 0
Item = Result InMemoryStoreError PersistedEnvelope

-- The row at the head of the buffer is yielded; one that does not open ends the paging.
unfoldable pub yield_row :
    FromUtf8 → ReadState → StoredFrame → List StoredFrame → Option Item × ReadState
yield_row u s row rest = elim (frame_to_envelope u row) [
  | ok env ↦ (some (ok env), record s { buffer = rest; last_version = some env.version })
  | err e ↦ (some (err e), record s { buffer = rest; done = true })
]

-- The poll after a refill, which ends the stream on an empty batch.
unfoldable pub after_refill : FromUtf8 → ReadState → Option Item × ReadState
after_refill u s = elim s.buffer [ [] ↦ (none, s) | row ∷ rest ↦ yield_row u s row rest ]

-- The poll of an empty buffer.
unfoldable pub next_page : FromUtf8 → Inner → ReadState → Option Item × ReadState
next_page u inner s = if s.done then (none, s) else elim (next_read_version s) [
  | err e ↦ (some (err e), record s { done = true })
  | ok from ↦ after_refill u (refill inner from s)
]

-- One step of the `unfold` of `read_stream`. Its loop runs at most twice: a page that is not empty
-- is yielded from at once.
unfoldable pub poll_next : FromUtf8 → Inner → ReadState → Option Item × ReadState
poll_next u inner s = elim s.buffer [
  | [] ↦ next_page u inner s
  | row ∷ rest ↦ yield_row u s row rest
]

-- `read_stream`: the state of the stream before its first poll.
abbrev pub read_stream : BatchSize → StreamKey → Version → ReadState
read_stream batch id from = record {
  stream_id = id;
  from = from;
  last_version = none;
  batch_size = batch.get;
  buffer = [];
  done = false;
}

-- What a consumer sees that polls until the stream ends, in at most `fuel` polls.
unfoldable pub drain : ℕ → FromUtf8 → Inner → ReadState → List Item
drain zero u inner s = []
drain (suc fuel) u inner s =
    let (item, s') = poll_next u inner s in
    let rest = drain fuel u inner s' in elim item [ none ↦ [] | some r ↦ r ∷ rest ]
