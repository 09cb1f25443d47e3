-- ===== src/InMemory/Examples/Saving.antt =====
-- A counter behind the `EventStore` facade: it saves, loads and executes on the in-memory store.
use mnesis.Base.{ℕ, ◌+◌, ◌≡◌, ◌<◌, length, refl, Option, none, some, List, [], ◌∷◌, arith}
use mnesis.Base.Result.{Result, ok, err}
use mnesis.Base.Words.{u64_max, to_le_bytes}
use mnesis.Base.Bytes.{bytes_eq}
use mnesis.Kernel.Events.{Events}
use mnesis.Kernel.Aggregate.{
  Aggregate, AggregateRoot, new_root, fold_events, commit_version, commit_persisted,
}
use mnesis.Store.Value.{event_type_from_static_str, payload_from_bytes, metadata_from_bytes}
use mnesis.Store.Envelope.{build, build_metadata}
use mnesis.Store.Envelope.Persisted.{payload_value}
use mnesis.Store.Wire.{encode_frame}
use mnesis.Store.Wire.Layout.{align_padding, compute}
use mnesis.Store.Wire.Header.{write_into, from_validated_lengths}
use mnesis.Store.Append.{check_sequence, validate_append_versions}
use mnesis.InMemory.Streams.{rows_of, extend}
use mnesis.InMemory.Frame.{StoredFrame, encode_pending_to_frame}
use mnesis.InMemory.Store.{
  Inner, default, insert_at, stage, index_rows, commit, append_checks, append,
}
use mnesis.InMemory.Consistent.{IsConsistent}
use mnesis.InMemory.Append.{default-IsConsistent}
use mnesis.InMemory.Read.{
  BatchSize, batch_size_new, partition_point, scan_batch, after_refill, next_page, poll_next, drain,
}
use mnesis.InMemory.Repository.{
  Facade, returned, encode_at, encode_tail, prepare, save_events, replay_items, replay_from, load,
  execute,
}
use mnesis.InMemory.Repository.Encode.{IsLawful}
use mnesis.InMemory.Repository.Load.{IsCodec}
use mnesis.InMemory.Repository.Save.{IsSaveEffect, save_events_effect}
use mnesis.InMemory.Repository.Execute.{IsExecuteEffect, execute_effect}
use mnesis.InMemory.Repository.Reload.{load-save}
use mnesis.InMemory.Examples.{any_utf8, id}

abbrev pub Counter : Aggregate
Counter = record {
  State = ℕ;
  Event = ℕ;
  Error = ℕ;
  AggregateId = List ℕ;
  initial = 0;
  apply = λ total n. some (total + n);
  max_rehydration_events = 1000;
}

abbrev pub read_byte : List ℕ → Result ℕ ℕ
read_byte [] = err 0
read_byte (b ∷ bs) = ok b

abbrev pub counters : Facade Counter
counters = record {
  EncodeError = ℕ;
  DecodeError = ℕ;
  encode = λ n. ok (n ∷ []);
  decode = λ p. read_byte (payload_value p).bytes;
  name = λ n. 67 ∷ [];
  id_bytes = λ bytes. bytes;
  metadata = λ version event payload. none;
}

pub counters-IsLawful : IsLawful any_utf8 counters (λ name. none)
counters-IsLawful = record {
  names = λ e. refl;
  schemas = λ name s h. absurd (ground arith);
  metadata = λ v e p m h. absurd (ground arith);
}

pub counters-IsCodec : IsCodec counters
counters-IsCodec = record { decodes = λ event p h name. ground arith }

abbrev pub root : AggregateRoot Counter
root = new_root (115 ∷ [])

abbrev pub added : Events ℕ
added = record { first = 5; rest = [] }

abbrev pub page : BatchSize
page = record { get = 10 }

save_events_effect_example :
    IsConsistent any_utf8 (save_events counters (λ name. none) root added default).0
    × IsSaveEffect any_utf8 counters root added default
        (save_events counters (λ name. none) root added default)
save_events_effect_example =
    save_events_effect any_utf8 counters root added default (λ name. none) counters-IsLawful
      (default-IsConsistent any_utf8)

abbrev add : ℕ → ℕ → Result ℕ (Option (Events ℕ))
add total n = ok (some (record { first = n; rest = [] }))

execute_effect_example :
    IsConsistent any_utf8 (execute counters add root 5 default).0
    × IsExecuteEffect any_utf8 counters add root 5 default (execute counters add root 5 default)
execute_effect_example =
    execute_effect any_utf8 counters add root 5 default counters-IsLawful
      (default-IsConsistent any_utf8)

pub loads_empty : load counters 10 any_utf8 page (115 ∷ []) default ≡ returned (ok root)
unfolding replay_from drain poll_next next_page after_refill scan_batch partition_point rows_of
    replay_items
loads_empty = refl

abbrev pub saved_root : AggregateRoot Counter
saved_root = record root { state = some 5; version = some (record { as_u64 = 1 }) }

abbrev pub saved_frame : StoredFrame
saved_frame = record {
  version = 1;
  value = 2 ∷ 1 ∷ 0 ∷ 0 ∷ 0 ∷ 1 ∷ 0 ∷ 255 ∷ 255 ∷ 255 ∷ 255 ∷ 67 ∷ 0 ∷ 0 ∷ 0 ∷ 0 ∷ 5 ∷ [];
  offsets = record {
    event_type = record { start = 11; end = 12 };
    metadata = none;
    payload = record { start = 16; end = 17 };
  };
  schema_version = record { get = 1 };
}

abbrev pub saved_store : Inner
saved_store = record {
  streams = (id, saved_frame ∷ []) ∷ [];
  next_global_seq = 2;
  global_index = (1, (id, saved_frame)) ∷ [];
  woken = id ∷ [];
}

pub saves :
    save_events counters (λ name. none) root added default
    ≡ (saved_store, (saved_root, returned (ok 1)))
unfolding save_events prepare encode_at encode_tail event_type_from_static_str payload_from_bytes
    metadata_from_bytes build build_metadata commit_version commit_persisted fold_events append
    append_checks stage rows_of validate_append_versions check_sequence commit extend index_rows
    insert_at encode_pending_to_frame encode_frame compute align_padding from_validated_lengths
    write_into to_le_bytes
saves = refl

load-save_example :
    load counters 10 any_utf8 page (115 ∷ []) saved_store
    ≡ returned (ok (record saved_root { replayed_events = 1 }))
load-save_example =
    load-save any_utf8 counters counters-IsCodec 10 10 page sized (λ name. none) default saved_store
      (115 ∷ []) root saved_root added 1 counters-IsLawful (default-IsConsistent any_utf8)
      loads_empty saves (omega arith) (omega arith) few enough
  where
    sized : batch_size_new 10 ≡ some page
    sized = unfold batch_size_new in refl

    few : length (rows_of id saved_store.streams) < u64_max
    few = unfold rows_of bytes_eq in omega arith

    enough : length (rows_of id saved_store.streams) < 10
    enough = unfold rows_of bytes_eq in omega arith
