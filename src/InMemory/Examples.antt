-- ===== src/InMemory/Examples.antt =====
-- Runs of the in-memory store on one envelope, and its theorems at concrete inputs.
mod Several
mod Saving
mod Importing
mod Subscribing
mod Checkpointing
mod Projecting
mod Bridging
mod Reacting
mod Snapshotting
use mnesis.Base.{
  ℕ, suc, ◌+◌, ◌≡◌, refl, none, some, List, [], ◌∷◌, ◌++◌, arith, length, if◌then◌else◌,
}
use mnesis.Base.Result.{ok, err}
use mnesis.Base.Words.{to_le_bytes}
use mnesis.Base.Bytes.{bytes_eq}
use mnesis.Store.Value.{FromUtf8}
use mnesis.Store.Wire.{encode_frame}
use mnesis.Store.Wire.Layout.{align_padding, compute}
use mnesis.Store.Wire.Header.{write_into, from_validated_lengths}
use mnesis.Store.Envelope.{
  PendingEnvelope, IsPending, PendingBatch, batch_of, batch_iter, batch_len,
}
use mnesis.Store.Append.{
  StreamKey, key_eq, actual_version, check_sequence, validate_append_versions,
}
use mnesis.InMemory.Streams.{rows_of, extend}
use mnesis.InMemory.Frame.{StoredFrame, Holds, encode_pending_to_frame, encode-Holds}
use mnesis.InMemory.Store.{
  Inner, Staged, AppendError, conflict, default, insert_at, stage, index_rows, commit,
  append_checks, append,
}
use mnesis.InMemory.Stage.{AllHold, IsStaged, stage-IsStaged}
use mnesis.InMemory.Consistent.{IsConsistent}
use mnesis.InMemory.Append.{append-IsConsistent, default-IsConsistent, append_effect}

-- A decoder that accepts every byte string, in place of `core::str::from_utf8`.
abbrev any_utf8 : FromUtf8
any_utf8 bytes = ok tt

abbrev envelope : PendingEnvelope
envelope = record {
  version = record { as_u64 = 1 };
  event_type = record { bytes = 67 ∷ [] };
  schema_version = record { get = 3 };
  payload = record { bytes = 1 ∷ 2 ∷ [] };
  metadata = none;
}

envelope-IsPending : IsPending any_utf8 envelope
envelope-IsPending = record {
  version = omega arith;
  event_type = (omega arith, refl);
  schema_version = omega arith;
  payload = omega arith;
  metadata = tt;
}

abbrev id : StreamKey
id = record { bytes = 115 ∷ [] }

abbrev batch : PendingBatch
batch = batch_of envelope

-- Header, event type, four bytes of padding, payload.
abbrev frame : StoredFrame
frame = record {
  version = 1;
  value = 2 ∷ 3 ∷ 0 ∷ 0 ∷ 0 ∷ 1 ∷ 0 ∷ 255 ∷ 255 ∷ 255 ∷ 255 ∷ 67 ∷ 0 ∷ 0 ∷ 0 ∷ 0 ∷ 1 ∷ 2 ∷ [];
  offsets = record {
    event_type = record { start = 11; end = 12 };
    metadata = none;
    payload = record { start = 16; end = 18 };
  };
  schema_version = record { get = 3 };
}

abbrev staged : Staged
staged = record { rows = (1, frame) ∷ []; seq = 2; last_assigned = 1 }

abbrev after : Inner
after = record {
  streams = (id, frame ∷ []) ∷ [];
  next_global_seq = 2;
  global_index = (1, (id, frame)) ∷ [];
  woken = id ∷ [];
}

frame_runs : encode_pending_to_frame envelope ≡ ok frame
unfolding encode_pending_to_frame encode_frame compute align_padding from_validated_lengths
    write_into to_le_bytes
frame_runs = refl

stage_runs : stage 1 1 (envelope ∷ []) ≡ ok staged
unfolding stage encode_pending_to_frame encode_frame compute align_padding from_validated_lengths
    write_into to_le_bytes
stage_runs = refl

append_runs : append id none batch default ≡ (after, ok 1)
unfolding append append_checks stage rows_of validate_append_versions check_sequence commit extend
    index_rows insert_at encode_pending_to_frame encode_frame compute align_padding
    from_validated_lengths write_into to_le_bytes
append_runs = refl

-- A second append that expects an empty stream conflicts.
append_conflict :
    append id none batch after ≡ (after, err (conflict id none (some (record { as_u64 = 1 }))))
unfolding append append_checks rows_of validate_append_versions bytes_eq
append_conflict = refl

append-IsConsistent_example : IsConsistent any_utf8 (append id none batch default).0
append-IsConsistent_example =
    append-IsConsistent any_utf8 id none batch default (envelope-IsPending, tt)
      (default-IsConsistent any_utf8)

append_effect_example :
    ((pos : ℕ)
      → append id none batch default ≡ (after, ok pos)
      → (none ≡ actual_version (length (rows_of id default.streams)))
        × ((new : List StoredFrame) × AllHold any_utf8 new (batch_iter batch)
            × ((j : StreamKey)
                → rows_of j after.streams ≡ (
                    if key_eq id j
                    then rows_of id default.streams ++ new
                    else rows_of j default.streams)))
        × (suc pos ≡ after.next_global_seq)
        × (after.next_global_seq ≡ default.next_global_seq + batch_len batch)
        × (after.woken ≡ default.woken ++ (id ∷ [])))
    × ((e : AppendError) → append id none batch default ≡ (after, err e) → after ≡ default)
append_effect_example =
    append_effect any_utf8 id none batch default after (envelope-IsPending, tt)
      (default-IsConsistent any_utf8)
