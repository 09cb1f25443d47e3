-- ===== src/InMemory/Examples/Importing.antt =====
-- A section of one event in front of a corrupt block, imported both ways.
use mnesis.Base.{ℕ, ◌≡◌, sym, refl, none, List, [], ◌∷◌, arith}
use mathlib.Core.Path.{subst}
use mnesis.Base.Result.{ok}
use mnesis.Store.Envelope.{IsPending}
use mnesis.Store.Envelope.Persisted.{PersistedEnvelope, from_persisted}
use mnesis.Store.Append.{StreamKey}
use mnesis.Store.Import.Plan.{
  ImportBlock, event, StreamSection, Halt, SectionPlan, run, extend_run, plan_section,
}
use mnesis.Store.Import.Plan.Exact.{IsPlanOf, plan_section_exact}
use mnesis.Store.Import.Valid.{AllOther}
use mnesis.InMemory.Streams.{rows_of}
use mnesis.InMemory.Store.{default}
use mnesis.InMemory.Consistent.{IsConsistent}
use mnesis.InMemory.Append.{default-IsConsistent}
use mnesis.InMemory.Import.{StreamReport, import_per_stream, import_whole_chunk}
use mnesis.InMemory.Import.PerStream.{AllSections, AllTold, routed, import_per_stream_effect}
use mnesis.InMemory.Import.Whole.{IsAllOrNothing, import_whole_chunk_atomic}
use mnesis.InMemory.Examples.{any_utf8, envelope, envelope-IsPending, frame}

abbrev persisted : PersistedEnvelope
persisted = record {
  version = record { as_u64 = 1 };
  schema_version = frame.schema_version;
  value = frame.value;
  event_type_range = frame.offsets.event_type;
  payload_range = frame.offsets.payload;
  metadata_range = none;
}

persisted-envelope : from_persisted persisted ≡ envelope
unfolding from_persisted
persisted-envelope = refl

abbrev section : StreamSection
section = record { origin = 115 ∷ []; blocks = event persisted ∷ ImportBlock.corrupt ∷ [] }

-- The origin's bytes are the target.
abbrev same_key : List ℕ → StreamKey
same_key origin = record { bytes = origin }

abbrev plan : SectionPlan
plan = run (record {
  first = record { as_u64 = 1 };
  expected_version = none;
  head = from_persisted persisted;
  tail = [];
  last = record { as_u64 = 1 };
  halt = Halt.corrupt;
})

plans : plan_section section ≡ ok plan
unfolding plan_section extend_run
plans = refl

plan_section_exact_example : IsPlanOf section.blocks plan
plan_section_exact_example = plan_section_exact section plan ((omega arith, omega arith), tt) plans

sections-AllSections : AllSections any_utf8 (section ∷ [])
sections-AllSections =
    ((subst (IsPending any_utf8) (sym persisted-envelope) envelope-IsPending, tt), tt)

import_per_stream_effect_example :
    IsConsistent any_utf8 (import_per_stream (section ∷ []) same_key default).0
    × ((j : StreamKey)
        → AllOther j (routed (section ∷ []) same_key)
        → rows_of j (import_per_stream (section ∷ []) same_key default).0.streams
          ≡ rows_of j default.streams)
    × ((reports : List StreamReport)
        → (import_per_stream (section ∷ []) same_key default).1 ≡ ok reports
        → AllTold default (import_per_stream (section ∷ []) same_key default).0 reports)
import_per_stream_effect_example =
    import_per_stream_effect any_utf8 (section ∷ []) same_key default
      (default-IsConsistent any_utf8) sections-AllSections

import_whole_chunk_atomic_example :
    IsAllOrNothing any_utf8
      (section ∷ [])
      same_key
      default
      (import_whole_chunk (section ∷ []) same_key default)
import_whole_chunk_atomic_example =
    import_whole_chunk_atomic any_utf8 (section ∷ []) same_key default
      (default-IsConsistent any_utf8) sections-AllSections
