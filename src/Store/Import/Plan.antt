-- ===== src/Store/Import/Plan.antt =====
-- crates/store/src/import.rs: the planner of one section, before any store access.
pub mod Exact
use mnesis.Base.{ℕ, true, false, Option, none, some, List, [], ◌∷◌, ◌==◌, if◌then◌else◌}
use mnesis.Base.Words.{checked_sub}
use mnesis.Base.Chain.{◌>>=◌ as and_then}
use mnesis.Base.Result.{Result, ok, err, ◌>>=◌}
use mnesis.Kernel.Version
use mnesis.Kernel.Version.{Version}
use mnesis.Store.Envelope.{PendingEnvelope}
use mnesis.Store.Envelope.Persisted.{PersistedEnvelope, from_persisted}

pub data ImportBlock : Type 0 where
  event : PersistedEnvelope → ImportBlock
  corrupt : ImportBlock

pub record StreamSection : Type 0 where
  pub origin : List ℕ
  pub blocks : List ImportBlock

pub data Halt : Type 0 where
  complete corrupt : Halt
  gap : Version → Halt

-- The fields of `SectionPlan::Run`.
pub record RunPlan : Type 0 where
  pub first : Version
  pub expected_version : Option Version
  pub head : PendingEnvelope
  pub tail : List PendingEnvelope
  pub last : Version
  pub halt : Halt

pub data SectionPlan : Type 0 where
  empty first_corrupt : SectionPlan
  run : RunPlan → SectionPlan

pub data PlanError : Type 0 where
  version_overflow : PlanError

-- What the loop of `plan_section` leaves: the tail, the last version and why it stopped.
pub record Extension : Type 0 where
  pub tail : List PendingEnvelope
  pub last : Version
  pub halt : Halt

abbrev pub cons_event : PersistedEnvelope → Extension → Extension
cons_event e x = record x { tail = from_persisted e ∷ x.tail }

-- The loop of `plan_section`, behind the version `last`.
unfoldable pub extend_run : Version → List ImportBlock → Result PlanError Extension
extend_run last [] = ok (record { tail = []; last = last; halt = Halt.complete })
extend_run last (ImportBlock.corrupt ∷ blocks) =
    ok (record { tail = []; last = last; halt = Halt.corrupt })
extend_run last (event e ∷ blocks) = elim (Version.next last) [
  | none ↦ err version_overflow
  | some expected_next ↦ elim (e.version.as_u64 == expected_next.as_u64) [
    | false ↦ ok (record { tail = []; last = last; halt = gap e.version })
    | true ↦ do x ← extend_run e.version blocks; ok (cons_event e x)
  ]
]

-- `first.as_u64().checked_sub(1).and_then(Version::new)`
abbrev pub expected_before : Version → Option Version
expected_before first = and_then (checked_sub first.as_u64 1) Version.new

-- `plan_section`
unfoldable pub plan_section : StreamSection → Result PlanError SectionPlan
plan_section section = elim section.blocks [
  | [] ↦ ok empty
  | block ∷ blocks ↦ elim block [
    | corrupt ↦ ok first_corrupt
    | event first_event ↦ do
      x ← extend_run first_event.version blocks
      ok (
          run (record {
            first = first_event.version;
            expected_version = expected_before first_event.version;
            head = from_persisted first_event;
            tail = x.tail;
            last = x.last;
            halt = x.halt;
          }))
  ]
]
