-- ===== src/InMemory/Checkpoint/Contract.antt =====
-- The in-memory checkpoint store of adapters/inmemory/src/checkpoint.rs is a lawful one that
-- answers.
use mnesis.Base.{ℕ, ◌≡◌, ◌∙◌, refl, sym, ap, inl, inr, Option, none, some, List, if◌then◌else◌}
use mathlib.Core.Option
use mnesis.Base.Bytes.{bytes_eq_refl}
use mnesis.Base.Result.{Result, ok, err, map_err, Result-cases}
use mnesis.Store.Checkpoint.{
  Positions, CheckpointHydrated, CheckpointRejection, CheckpointWrite, next_revision,
}
use mnesis.Store.Projection.{CheckpointStore, rejected, returned}
use mnesis.Store.Projection.Contract.{
  Kept, reading, facts_of, kept_of, IsWritten, IsLawful, IsAnswering,
}
use mnesis.InMemory.Checkpoint.{
  Record, Records, hydrated, hydrate_checkpoint, current_of, record_of, commit_checkpoint,
}
use mnesis.Base.Maps.{get, insert, get-insert}

-- `core::convert::Infallible`
pub data Infallible : Type 0 where

module _ (𝓟 : Positions) (State : Type 0) where
  abbrev pub in_memory : CheckpointStore 𝓟 State
  in_memory = record {
    World = Records 𝓟 State;
    Error = Infallible;
    hydrate_checkpoint = λ id schema records. ok (hydrate_checkpoint 𝓟 State id schema records);
    commit_checkpoint = λ id write records.
        let (records', result) = commit_checkpoint 𝓟 State id write records in
        (records', returned (map_err rejected result));
  }

  abbrev keep : Record 𝓟 State → Kept 𝓟 State
  keep r = record {
    revision = r.revision;
    schema_version = r.schema_version;
    position = r.position;
    state = r.state;
  }

  abbrev pub kept_in : Records 𝓟 State → List ℕ → Option (Kept 𝓟 State)
  kept_in records id = Option.map keep (get id records)

  reading-keep :
      (schema : ℕ) (r : Option (Record 𝓟 State))
      → hydrated 𝓟 State schema r ≡ reading 𝓟 State schema (Option.map keep r)
  reading-keep schema none = refl
  reading-keep schema (some r) = refl

  facts-keep :
      (r : Option (Record 𝓟 State))
      → Option.map (facts_of 𝓟 State) (Option.map keep r) ≡ Option.map (current_of 𝓟 State) r
  facts-keep none = refl
  facts-keep (some r) = refl

  module _ (id : List ℕ) (write : CheckpointWrite 𝓟 State) (records : Records 𝓟 State) where
    rejects :
        (e : CheckpointRejection)
        → next_revision 𝓟 State write (Option.map (current_of 𝓟 State) (get id records)) ≡ err e
        → commit_checkpoint 𝓟 State id write records ≡ (records, err e)
    unfolding commit_checkpoint
    rejects e h = rw (h, commit_checkpoint) refl

    accepts :
        (revision : ℕ)
        → next_revision 𝓟 State write (Option.map (current_of 𝓟 State) (get id records))
          ≡ ok revision
        → commit_checkpoint 𝓟 State id write records
          ≡ (insert id (record_of 𝓟 State revision write) records, ok revision)
    unfolding commit_checkpoint
    accepts revision h = rw (h, commit_checkpoint) refl

    stored :
        (revision : ℕ)
        → kept_in (insert id (record_of 𝓟 State revision write) records) id
          ≡ some (kept_of 𝓟 State revision write)
    stored revision =
        let new = record_of 𝓟 State revision write in
        ap (Option.map keep) (
          get-insert id id new records
          ∙ ap (λ b. if b then some new else get id records) (bytes_eq_refl id))

    writes :
        let out = in_memory.commit_checkpoint id write records in
        IsWritten 𝓟 State write (kept_in records id) (kept_in out.0 id) out.1
    writes =
        elim (Result-cases
          (next_revision 𝓟 State write (Option.map (current_of 𝓟 State) (get id records)))) [
            | inr (e, q) ↦
                rw (rejects e q)
                  (ap (next_revision 𝓟 State write) (facts-keep (get id records)) ∙ q, refl)
            | inl (revision, q) ↦ rw (accepts revision q) (
              ap (next_revision 𝓟 State write) (facts-keep (get id records)) ∙ q,
              stored revision,
            )
          ]

  read_inj :
      (a b : CheckpointHydrated 𝓟 State)
      → ◌≡◌ {A = Result Infallible (CheckpointHydrated 𝓟 State)} (ok a) (ok b)
      → a ≡ b
  read_inj a b h = cc

  -- The store holds to the contract, its records read as checkpoints.
  pub in_memory-IsLawful : IsLawful 𝓟 State in_memory kept_in
  in_memory-IsLawful = record {
    reads = λ id schema records hydrated_ h.
        sym (read_inj (hydrate_checkpoint 𝓟 State id schema records) hydrated_ h)
        ∙ reading-keep schema (get id records);
    writes = writes;
  }

  pub in_memory-IsAnswering : IsAnswering 𝓟 State in_memory kept_in
  in_memory-IsAnswering = record {
    reads_answer = λ id schema records. ap ok (reading-keep schema (get id records));
    writes_answer = λ id write records revision h.
        ap (λ o. returned (map_err rejected o.1))
          (accepts id write records revision
            (ap (next_revision 𝓟 State write) (sym (facts-keep (get id records))) ∙ h));
  }
