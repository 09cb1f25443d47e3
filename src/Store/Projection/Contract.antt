-- ===== src/Store/Projection/Contract.antt =====
-- What a projection relies on in its checkpoint store: the contract that the documentation of
-- `CheckpointStore` in crates/store/src/checkpoint.rs gives. A rejected write has changed nothing;
-- an adapter's failure and a dropped write may have committed.
use mnesis.Base.{ℕ, ◌≡◌, ◌⊎◌, Option, none, some, List, ◌==◌, if◌then◌else◌}
use mathlib.Core.Option
use mnesis.Base.Result.{Result, ok, err}
use mnesis.Store.Checkpoint.{
  Positions, CheckpointHydrated, absent, stale, found, CheckpointWrite, Current, next_revision,
}
use mnesis.Store.Projection.{
  CheckpointStore, CheckpointError, store, rejected, Ending, returned, panicked, dropped,
}

module _ (𝓟 : Positions) (State : Type 0) where
  -- The checkpoint of an id.
  pub record Kept : Type 0 where
    pub revision : ℕ
    pub schema_version : ℕ
    pub position : 𝓟.Position
    pub state : State

  abbrev pub reading : ℕ → Option Kept → CheckpointHydrated 𝓟 State
  reading schema none = absent
  reading schema (some r) =
      if r.schema_version == schema
      then found r.revision r.position r.state
      else stale r.revision r.schema_version

  abbrev pub facts_of : Kept → Current 𝓟 State
  facts_of r = record {
    revision = r.revision;
    schema_version = r.schema_version;
    position = r.position;
  }

  abbrev pub kept_of : ℕ → CheckpointWrite 𝓟 State → Kept
  kept_of revision write = record {
    revision = revision;
    schema_version = write.schema_version;
    position = write.position;
    state = write.state;
  }

  -- The write is admitted at this revision, and stored.
  abbrev pub IsCommitted : CheckpointWrite 𝓟 State → Option Kept → Option Kept → ℕ → Type 0
  IsCommitted write before after revision =
      (next_revision 𝓟 State write (Option.map facts_of before) ≡ ok revision)
      × (after ≡ some (kept_of revision write))

  -- The write may have taken place.
  abbrev pub IsUncertain : CheckpointWrite 𝓟 State → Option Kept → Option Kept → Type 0
  IsUncertain write before after =
      (after ≡ before) ⊎ ((revision : ℕ) × IsCommitted write before after revision)

  abbrev pub IsWritten :
      {E : Type 0}
      → CheckpointWrite 𝓟 State
      → Option Kept
      → Option Kept
      → Ending (Result (CheckpointError E) ℕ)
      → Type 0
  IsWritten write before after (returned (ok revision)) = IsCommitted write before after revision
  IsWritten write before after (returned (err (rejected e))) =
      (next_revision 𝓟 State write (Option.map facts_of before) ≡ err e) × (after ≡ before)
  IsWritten write before after (returned (err (store e))) = IsUncertain write before after
  IsWritten write before after panicked = IsUncertain write before after
  IsWritten write before after dropped = IsUncertain write before after

  -- The laws, for what `kept` reads off the world.
  pub record IsLawful (𝓢 : CheckpointStore 𝓟 State) (kept : 𝓢.World → List ℕ → Option Kept)
      : Type 0 where
    pub reads :
        (id : List ℕ) (schema : ℕ) (world : 𝓢.World) (hydrated : CheckpointHydrated 𝓟 State)
        → 𝓢.hydrate_checkpoint id schema world ≡ ok hydrated
        → hydrated ≡ reading schema (kept world id)
    pub writes :
        (id : List ℕ) (write : CheckpointWrite 𝓟 State) (world : 𝓢.World)
        → let (world', ending) = 𝓢.commit_checkpoint id write world in
          IsWritten write (kept world id) (kept world' id) ending

  -- An adapter that answers every reading and stores every write that is admitted.
  pub record IsAnswering (𝓢 : CheckpointStore 𝓟 State) (kept : 𝓢.World → List ℕ → Option Kept)
      : Type 0 where
    pub reads_answer :
        (id : List ℕ) (schema : ℕ) (world : 𝓢.World)
        → 𝓢.hydrate_checkpoint id schema world ≡ ok (reading schema (kept world id))
    pub writes_answer :
        (id : List ℕ) (write : CheckpointWrite 𝓟 State) (world : 𝓢.World) (revision : ℕ)
        → next_revision 𝓟 State write (Option.map facts_of (kept world id)) ≡ ok revision
        → (𝓢.commit_checkpoint id write world).1 ≡ returned (ok revision)
