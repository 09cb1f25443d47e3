-- ===== src/InMemory/Checkpoint.antt =====
-- adapters/inmemory/src/checkpoint.rs: the checkpoint store, whose write lock makes each operation
-- a function of its records.
pub mod Commit
pub mod History
pub mod Contract
use mnesis.Base.{ℕ, Option, none, some, List, ◌==◌, if◌then◌else◌}
use mnesis.Base.Maps.{get, insert}
use mnesis.Base.Result.{Result, ok, err}
use mathlib.Core.Option
use mnesis.Store.Checkpoint.{
  Positions, CheckpointRejection, CheckpointHydrated, absent, stale, found, CheckpointWrite,
  Current, next_revision,
}

module _ (𝓟 : Positions) (State : Type 0) where
  pub record Record : Type 0 where
    pub revision : ℕ
    pub schema_version : ℕ
    pub position : 𝓟.Position
    pub state : State

  abbrev pub Records : Type 0
  Records = List (List ℕ × Record)

  abbrev pub hydrated : ℕ → Option Record → CheckpointHydrated 𝓟 State
  hydrated schema_version none = absent
  hydrated schema_version (some r) =
      if r.schema_version == schema_version
      then found r.revision r.position r.state
      else stale r.revision r.schema_version

  -- `hydrate_checkpoint`
  abbrev pub hydrate_checkpoint : List ℕ → ℕ → Records → CheckpointHydrated 𝓟 State
  hydrate_checkpoint id schema_version records = hydrated schema_version (get id records)

  abbrev pub current_of : Record → Current 𝓟 State
  current_of r = record {
    revision = r.revision;
    schema_version = r.schema_version;
    position = r.position;
  }

  abbrev pub record_of : ℕ → CheckpointWrite 𝓟 State → Record
  record_of revision write = record {
    revision = revision;
    schema_version = write.schema_version;
    position = write.position;
    state = write.state;
  }

  -- `commit_checkpoint`
  unfoldable pub commit_checkpoint :
      List ℕ → CheckpointWrite 𝓟 State → Records → Records × Result CheckpointRejection ℕ
  commit_checkpoint id write records =
      elim (next_revision 𝓟 State write (Option.map current_of (get id records))) [
        | err e ↦ (records, err e)
        | ok revision ↦ (insert id (record_of revision write) records, ok revision)
      ]
