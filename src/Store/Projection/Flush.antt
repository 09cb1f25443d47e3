-- ===== src/Store/Projection/Flush.antt =====
-- `flush` of crates/store/src/projection.rs keeps the stored checkpoint and the instance true,
-- however the write ends.
use mnesis.Base.{ℕ, ◌≡◌, inl, inr, ◌∙◌, refl, sym, Option, some, List, Option-cases}
use mathlib.Core.Path.{subst}
use mnesis.Base.Result.{Result, ok, err, Result-cases}
use mnesis.Store.Checkpoint.{Positions, CheckpointWrite}
use mnesis.Store.Projection.{
  Projector, Positioned, Projection, CheckpointStore, CheckpointError, store, rejected, Ending,
  returned, panicked, dropped, state_of, flush, flushed, write_of, unpersisted,
}
use mnesis.Store.Projection.Contract.{Kept, IsUncertain, IsWritten, IsLawful, kept_of}
use mnesis.Store.Projection.Cases.{usable, due, flush-unusable, flush-idle, flush-due}
use mnesis.Store.Projection.Truth
use mnesis.Store.Projection.Truth.{some_inj}

module _ (𝓟 : Positions) (𝓙 : Projector) (𝓢 : CheckpointStore 𝓟 𝓙.State)
    (kept : 𝓢.World → List ℕ → Option (Kept 𝓟 𝓙.State)) (id : List ℕ) (schema : ℕ)
    (log : List (Positioned 𝓟 𝓙)) where
  abbrev IsFold : Option 𝓟.Position → 𝓙.State → Type 0
  IsFold = Truth.IsFold 𝓟 𝓙 id schema log

  abbrev IsTrue : Option (Kept 𝓟 𝓙.State) → Type 0
  IsTrue = Truth.IsTrue 𝓟 𝓙 id schema log

  abbrev IsCurrent : Projection 𝓟 𝓙 → Type 0
  IsCurrent = Truth.IsCurrent 𝓟 𝓙 id schema log

  module _ (write : CheckpointWrite 𝓟 𝓙.State)
      (good : IsFold (some write.position) write.state) where
    stored-IsTrue :
        (stored : Option (Kept 𝓟 𝓙.State)) (revision : ℕ)
        → stored ≡ some (kept_of 𝓟 𝓙.State revision write)
        → IsTrue stored
    stored-IsTrue stored revision e r q same =
        subst (λ x. IsFold (some x.position) x.state)
          (some_inj (kept_of 𝓟 𝓙.State revision write) r (sym e ∙ q)) good

    IsUncertain-IsTrue :
        (before stored : Option (Kept 𝓟 𝓙.State))
        → IsUncertain 𝓟 𝓙.State write before stored
        → IsTrue before
        → IsTrue stored
    IsUncertain-IsTrue before stored (inl same) held = subst IsTrue (sym same) held
    IsUncertain-IsTrue before stored (inr (revision, (_, e))) held = stored-IsTrue stored revision e

    IsWritten-IsTrue :
        (before stored : Option (Kept 𝓟 𝓙.State))
        (ending : Ending (Result (CheckpointError 𝓢.Error) ℕ))
        → IsWritten 𝓟 𝓙.State write before stored ending
        → IsTrue before
        → IsTrue stored
    IsWritten-IsTrue before stored (returned (ok revision)) (_, e) held =
        stored-IsTrue stored revision e
    IsWritten-IsTrue before stored (returned (err (rejected e))) (_, same) held =
        subst IsTrue (sym same) held
    IsWritten-IsTrue before stored (returned (err (store e))) done held =
        IsUncertain-IsTrue before stored done held
    IsWritten-IsTrue before stored panicked done held = IsUncertain-IsTrue before stored done held
    IsWritten-IsTrue before stored dropped done held = IsUncertain-IsTrue before stored done held

  -- What a write leaves of an instance.
  flushed-keeps :
      (p : Projection 𝓟 𝓙) (position : 𝓟.Position)
      (written : 𝓢.World × Ending (Result (CheckpointError 𝓢.Error) ℕ))
      → IsCurrent p
      → let out = flushed 𝓟 𝓙 𝓢 p position written in (out.0 ≡ written.0) × IsCurrent out.1
  flushed-keeps p position (world, returned (ok revision)) now =
      (refl, record { of_id = now.of_id; of_schema = now.of_schema; of_state = now.of_state })
  flushed-keeps p position (world, returned (err e)) now =
      (refl, record { of_id = now.of_id; of_schema = now.of_schema; of_state = now.of_state })
  flushed-keeps p position (world, panicked) now =
      (refl, record { of_id = now.of_id; of_schema = now.of_schema; of_state = now.of_state })
  flushed-keeps p position (world, dropped) now =
      (refl, record { of_id = now.of_id; of_schema = now.of_schema; of_state = now.of_state })

  module _ (lawful : IsLawful 𝓟 𝓙.State 𝓢 kept) where
    pub flush-keeps :
        (world : 𝓢.World) (p : Projection 𝓟 𝓙)
        → IsTrue (kept world id)
        → IsCurrent p
        → let out = flush 𝓟 𝓙 𝓢 world p in IsTrue (kept out.0 id) × IsCurrent out.1
    flush-keeps world p held now = elim (Result-cases (state_of 𝓟 𝓙 p)) [
      | inr (e, q) ↦ rw (flush-unusable 𝓟 𝓙 𝓢 world p e q) (held, now)
      | inl (state, q) ↦ elim (Option-cases (unpersisted 𝓟 𝓙 p)) [
        | inl none_due ↦ rw (flush-idle 𝓟 𝓙 𝓢 world p state q none_due) (held, now)
        | inr (position, is_due) ↦
            let write = write_of 𝓟 𝓙 p position state in
            let written = 𝓢.commit_checkpoint p.id write world in
            let good : IsFold (some write.position) write.state =
              subst (λ at. IsFold at state) (due 𝓟 𝓙 p position is_due)
                (now.of_state state (usable 𝓟 𝓙 p state q)) in
            let true_ : IsTrue (kept written.0 p.id) =
              IsWritten-IsTrue write good (kept world p.id) (kept written.0 p.id) written.1
                (lawful.writes p.id write world)
                (subst (λ k. IsTrue (kept world k)) (sym now.of_id) held) in
            let (same, current) = flushed-keeps p position written now in
            rw (flush-due 𝓟 𝓙 𝓢 world p state q position is_due) (
              subst (λ w. IsTrue (kept w id)) (sym same)
                  (subst (λ k. IsTrue (kept written.0 k)) now.of_id true_),
              current,
            )
      ]
    ]
