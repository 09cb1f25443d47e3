-- ===== src/InMemory/Examples/Several.antt =====
-- The read stream and the atomic append at concrete inputs.
use mnesis.Base.{ℕ, suc, ◌≡◌, ◌↔◌, ◌<◌, refl, none, some, [], ◌∷◌, map, length, arith}
use mathlib.Core.Path.{subst}
use mnesis.Base.Bytes.{bytes_eq}
use mnesis.Base.Words.{u64_max, to_le_bytes}
use mnesis.Base.Result.{ok, err}
use mnesis.Kernel.Version.{Version}
use mnesis.Store.Wire.{encode_frame}
use mnesis.Store.Wire.Layout.{align_padding, compute}
use mnesis.Store.Wire.Header.{write_into, from_validated_lengths}
use mnesis.Store.Append.{StreamKey}
use mnesis.Store.Import.{PlannedAppend, seen_at, check_run, check_runs, check_targets, targets}
use mnesis.Store.Import.Valid.{AllOther, AreDistinct}
use mnesis.InMemory.Streams.{rows_of, extend}
use mnesis.InMemory.Frame.{encode_pending_to_frame, frame_to_envelope}
use mnesis.InMemory.Store.{Inner, default, insert_at, index_rows, stage}
use mnesis.InMemory.Consistent.{AllReadable, IsConsistent}
use mnesis.InMemory.Append.{append-IsConsistent, default-IsConsistent}
use mnesis.InMemory.Read.{BatchSize, batch_size_new, read_stream, drain}
use mnesis.InMemory.Read.Scan.{at_least}
use mnesis.InMemory.Read.Drain.{drain-read_stream}
use mnesis.InMemory.Atomic.{
  AtomicAppendError, conflict, check_heads, stage_runs, index_runs, extend_runs, commit_runs,
  atomic_checks, atomic_append_many,
}
use mnesis.InMemory.Atomic.Commit.{AtHeads}
use mnesis.InMemory.Atomic.Whole.{
  AllLanded, atomic_append_many-IsConsistent, atomic_append_many_whole,
}
use mnesis.InMemory.All.{opened, range_after, read_all, drain_all}
use mnesis.InMemory.All.Drain.{drain_all-read_all}
use mnesis.InMemory.Examples.{any_utf8, envelope, envelope-IsPending, id, batch, after, append_runs}

abbrev two : BatchSize
two = record { get = 2 }

abbrev start : Version
start = record { as_u64 = 1 }

two_runs : batch_size_new 2 ≡ some two
unfolding batch_size_new
two_runs = refl

after-IsConsistent : IsConsistent any_utf8 after
after-IsConsistent =
    subst (λ (r : Inner × _). IsConsistent any_utf8 r.0) append_runs
      (append-IsConsistent any_utf8 id none batch default (envelope-IsPending, tt)
        (default-IsConsistent any_utf8))

few_rows : (length (rows_of id after.streams) < u64_max) × (length (rows_of id after.streams) < 2)
unfolding rows_of bytes_eq
few_rows = (omega arith, omega arith)

drain-read_stream_example :
    (drain 2 any_utf8 after (read_stream two id start)
      ≡ map (frame_to_envelope any_utf8) (at_least 1 (rows_of id after.streams)))
    × AllReadable any_utf8 (at_least 1 (rows_of id after.streams))
drain-read_stream_example =
    drain-read_stream any_utf8 id after after-IsConsistent few_rows.0 2 2 two start two_runs
      (omega arith, omega arith) few_rows.1

abbrev write : PlannedAppend
write = record { target = id; expected_version = none; head = envelope; tail = [] }

atomic_runs : atomic_append_many (write ∷ []) default ≡ (after, ok (some 1))
unfolding atomic_append_many atomic_checks check_targets check_runs check_run check_heads stage_runs
    commit_runs index_runs extend_runs seen_at stage rows_of extend index_rows insert_at
    encode_pending_to_frame encode_frame compute align_padding from_validated_lengths write_into
    to_le_bytes
atomic_runs = refl

-- The same write again finds its stream at version 1.
atomic_conflict :
    atomic_append_many (write ∷ []) after ≡ (after, err (conflict 0 (some (record { as_u64 = 1 }))))
unfolding atomic_append_many atomic_checks check_targets check_runs check_run check_heads seen_at
    rows_of bytes_eq
atomic_conflict = refl

atomic_append_many-IsConsistent_example :
    IsConsistent any_utf8 (atomic_append_many (write ∷ []) default).0
atomic_append_many-IsConsistent_example =
    atomic_append_many-IsConsistent any_utf8 (write ∷ []) default ((envelope-IsPending, tt), tt)
      (default-IsConsistent any_utf8)

atomic_append_many_whole_example :
    ((pos : ℕ)
      → atomic_append_many (write ∷ []) default ≡ (after, ok (some pos))
      → AreDistinct (targets (write ∷ []))
        × AtHeads default.streams (write ∷ [])
        × AllLanded any_utf8 default.streams after.streams (write ∷ [])
        × ((j : StreamKey)
            → AllOther j (targets (write ∷ []))
            → rows_of j after.streams ≡ rows_of j default.streams)
        × (suc pos ≡ after.next_global_seq))
    × ((e : AtomicAppendError)
        → atomic_append_many (write ∷ []) default ≡ (after, err e)
        → after ≡ default)
    × ((atomic_append_many (write ∷ []) default ≡ (after, ok none))
        ↔ ((after ≡ default) × (write ∷ [] ≡ [])))
atomic_append_many_whole_example =
    atomic_append_many_whole any_utf8 (write ∷ []) default after ((envelope-IsPending, tt), tt)
      (default-IsConsistent any_utf8)

few_positions : length after.global_index < 2
few_positions = omega arith

drain_all-read_all_example :
    drain_all 2 any_utf8 after (read_all two none)
    ≡ map (opened any_utf8) (range_after none after.global_index)
drain_all-read_all_example =
    drain_all-read_all any_utf8 after after-IsConsistent 2 2 two none two_runs few_positions
