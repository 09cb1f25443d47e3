-- ===== src/InMemory/All.antt =====
-- adapters/inmemory/src/lib.rs: `read_all`, the paged stream over every event in `$all` order.
pub mod Range
pub mod Drain
use mnesis.Base.{
  ℕ, zero, suc, Bool, true, false, Option, none, some, List, [], ◌∷◌, ltb, if◌then◌else◌, length,
  take,
}
use mnesis.Base.Result.{Result, ok, err}
use mnesis.Store.Value.{FromUtf8}
use mnesis.Store.Append.{StreamKey}
use mnesis.Store.Envelope.Persisted.{PersistedEnvelope}
use mnesis.InMemory.Frame.{StoredFrame, InMemoryStoreError, frame_to_envelope}
use mnesis.InMemory.Store.{Inner}
use mnesis.InMemory.Read.{BatchSize}

-- A row of the index: its position, its stream and its frame.
abbrev pub Row : Type 0
Row = ℕ × (StreamKey × StoredFrame)

-- The lower bound of the range: nothing, or an excluded position.
abbrev pub is_after : Option ℕ → ℕ → Bool
is_after none pos = true
is_after (some after) pos = ltb after pos

-- `BTreeMap::range((lower, Unbounded))`: the entries beyond the bound, in key order.
unfoldable pub range_after : Option ℕ → List Row → List Row
range_after after [] = []
range_after after (row ∷ index) =
    let rest = range_after after index in if is_after after row.0 then row ∷ rest else rest

pub record GlobalReadState : Type 0 where
  pub after : Option ℕ
  pub batch_size : ℕ
  pub buffer : List Row
  pub done : Bool

-- `GlobalReadState::refill`
abbrev pub refill_all : Inner → GlobalReadState → GlobalReadState
refill_all inner s =
    let batch = take s.batch_size (range_after s.after inner.global_index) in
    record s { buffer = batch; done = ltb (length batch) s.batch_size }

abbrev pub AllItem : Type 0
AllItem = Result InMemoryStoreError (ℕ × (StreamKey × PersistedEnvelope))

-- The item that a row is yielded as.
abbrev pub opened : FromUtf8 → Row → AllItem
opened u (pos, (key, frame)) = elim (frame_to_envelope u frame) [
  | ok env ↦ ok (pos, (key, env))
  | err e ↦ err e
]

-- The row at the head of the buffer is yielded; one that does not open ends the paging.
unfoldable pub yield_all :
    FromUtf8 → GlobalReadState → Row → List Row → Option AllItem × GlobalReadState
yield_all u s row rest = elim (opened u row) [
  | ok item ↦ (some (ok item), record s { buffer = rest; after = some row.0 })
  | err e ↦ (some (err e), record s { buffer = rest; done = true })
]

-- The poll after a refill, which ends the stream on an empty batch.
unfoldable pub after_refill_all : FromUtf8 → GlobalReadState → Option AllItem × GlobalReadState
after_refill_all u s = elim s.buffer [ [] ↦ (none, s) | row ∷ rest ↦ yield_all u s row rest ]

-- One step of the `unfold` of `read_all`.
unfoldable pub poll_all : FromUtf8 → Inner → GlobalReadState → Option AllItem × GlobalReadState
poll_all u inner s = elim s.buffer [
  | [] ↦ if s.done then (none, s) else after_refill_all u (refill_all inner s)
  | row ∷ rest ↦ yield_all u s row rest
]

-- `read_all`: the state of the stream before its first poll.
abbrev pub read_all : BatchSize → Option ℕ → GlobalReadState
read_all batch from = record { after = from; batch_size = batch.get; buffer = []; done = false }

-- What a consumer sees that polls until the stream ends, in at most `fuel` polls.
unfoldable pub drain_all : ℕ → FromUtf8 → Inner → GlobalReadState → List AllItem
drain_all zero u inner s = []
drain_all (suc fuel) u inner s =
    let (item, s') = poll_all u inner s in
    let rest = drain_all fuel u inner s' in elim item [ none ↦ [] | some r ↦ r ∷ rest ]
