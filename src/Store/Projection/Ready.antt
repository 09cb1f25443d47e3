-- ===== src/Store/Projection/Ready.antt =====
-- `flush` of crates/store/src/projection.rs, for an instance that is alone on its checkpoint and a
-- store that answers.
use mnesis.Base.{
  ℕ, suc, ◌+◌, ◌≤◌, ◌≡◌, ◌∙◌, inl, inr, refl, sym, ap, true, false, Option, none, some, List, arith,
  Option-cases,
}
use mathlib.Core.Path.{subst}
use mnesis.Base.Words.{u64_max}
use mnesis.Base.Result.{ok}
use mnesis.Store.Checkpoint.{Positions}
use mnesis.Store.Projection.{
  Projector, Positioned, Projection, CheckpointStore, returned, is_checkpoint, state_of, flush,
  flushed, write_of, unpersisted,
}
use mnesis.Store.Projection.Contract.{Kept, IsWritten, IsLawful, IsAnswering, kept_of}
use mnesis.Store.Projection.Cases.{usable, due, flush-idle, flush-due}
use mnesis.Store.Projection.Fold.{IsOrder, le_refl}
use mnesis.Store.Projection.Truth
use mnesis.Store.Projection.Truth.{some_inj}
use mnesis.Store.Projection.Flush.{flush-keeps}
use mnesis.Store.Projection.Sole.{IsLinked, relaxed, next_revision-accepts}

module _ (𝓟 : Positions) (𝓙 : Projector) (𝓢 : CheckpointStore 𝓟 𝓙.State)
    (kept : 𝓢.World → List ℕ → Option (Kept 𝓟 𝓙.State)) (id : List ℕ) (schema : ℕ)
    (log : List (Positioned 𝓟 𝓙)) where
  abbrev IsFold : Option 𝓟.Position → 𝓙.State → Type 0
  IsFold = Truth.IsFold 𝓟 𝓙 id schema log

  abbrev IsTrue : Option (Kept 𝓟 𝓙.State) → Type 0
  IsTrue = Truth.IsTrue 𝓟 𝓙 id schema log

  abbrev IsCurrent : Projection 𝓟 𝓙 → Type 0
  IsCurrent = Truth.IsCurrent 𝓟 𝓙 id schema log

  -- A usable instance that is alone on its checkpoint.
  pub record IsReady (world : 𝓢.World) (p : Projection 𝓟 𝓙) (state : 𝓙.State) (left : ℕ)
      : Type 0 where
    pub usable_ : state_of 𝓟 𝓙 p ≡ ok state
    pub current : IsCurrent p
    pub held : IsTrue (kept world id)
    pub linked : IsLinked 𝓟 𝓙 p (kept world id) left

  -- What the instance has observed is stored.
  abbrev pub IsStored : 𝓢.World → Projection 𝓟 𝓙 → 𝓙.State → Type 0
  IsStored world p total =
      (position : 𝓟.Position)
      → p.observed ≡ some position
      → (revision : ℕ) × (kept world id
          ≡ some (record {
            revision = revision;
            schema_version = schema;
            position = position;
            state = total;
          }))

  module _ (order : IsOrder 𝓟) (lawful : IsLawful 𝓟 𝓙.State 𝓢 kept)
      (answering : IsAnswering 𝓟 𝓙.State 𝓢 kept) where
    idle-IsStored :
        (world : 𝓢.World) (p : Projection 𝓟 𝓙) (state : 𝓙.State) (left : ℕ)
        (stored : Option (Kept 𝓟 𝓙.State))
        → kept world id ≡ stored
        → IsReady world p state left
        → IsLinked 𝓟 𝓙 p stored left
        → unpersisted 𝓟 𝓙 p ≡ none
        → IsStored world p state
    idle-IsStored world p state left none is ready (_, fresh, _) h position seen =
        absurd (ground (arith, fresh, seen, h))
    idle-IsStored world p state left (some r) is ready (_, _, inr (_, fresh)) h position seen =
        absurd (ground (arith, fresh, seen, h))
    idle-IsStored world p state left (some r) is ready
          (_, _, inl (schema_, checkpoint, o, observed, le)) h position seen =
        let both : is_checkpoint 𝓟 (some r.position) position ≡ true =
          ap (λ c. is_checkpoint 𝓟 c position) (sym checkpoint) ∙ ground (arith, seen, h) in
        let at : r.position ≡ position =
          order.le_antisym r.position position (ground (arith, both)) (ground (arith, both)) in
        let now = ready.current in
        let of_schema : r.schema_version ≡ schema = schema_ ∙ now.of_schema in
        let stored : IsFold (some position) r.state =
          subst (λ x. IsFold (some x) r.state) at (ready.held r is of_schema) in
        let mine : IsFold (some position) state =
          subst (λ x. IsFold x state) seen
            (now.of_state state (usable 𝓟 𝓙 p state ready.usable_)) in
        let same : r.state ≡ state = some_inj r.state state (sym stored ∙ mine) in
        (
          r.revision,
          is
              ∙ ap some (λ i. record {
                revision = r.revision;
                schema_version = of_schema i;
                position = at i;
                state = same i;
              }),
        )

    module _ (world : 𝓢.World) (p : Projection 𝓟 𝓙) (state : 𝓙.State) (left : ℕ)
        (ready : IsReady world p state (suc left)) where
      -- A flush that has something to write stores it.
      flush_commits :
          (position : 𝓟.Position)
          → unpersisted 𝓟 𝓙 p ≡ some position
          → let write = write_of 𝓟 𝓙 p position state in
            let world' = (𝓢.commit_checkpoint p.id write world).0 in
            (revision : ℕ) × (revision + left ≤ u64_max)
            × (flush 𝓟 𝓙 𝓢 world p ≡ (
              world',
              record p {
                revision = some revision;
                checkpoint = some position;
                reload_required = false;
              },
              returned (ok tt),
            ))
            × (kept world' id ≡ some (kept_of 𝓟 𝓙.State revision write))
      flush_commits position is_due =
          let write = write_of 𝓟 𝓙 p position state in
          let written = 𝓢.commit_checkpoint p.id write world in
          let of_id = ready.current.of_id in
          let linked : IsLinked 𝓟 𝓙 p (kept world p.id) (suc left) =
            subst (λ k. IsLinked 𝓟 𝓙 p (kept world k) (suc left)) (sym of_id) ready.linked in
          let (revision, accepts, fits) =
            next_revision-accepts 𝓟 𝓙 p (kept world p.id) left position state linked is_due in
          let ends : written.1 ≡ returned (ok revision) =
            answering.writes_answer p.id write world revision accepts in
          let stored : kept written.0 p.id ≡ some (kept_of 𝓟 𝓙.State revision write) =
            (subst (IsWritten 𝓟 𝓙.State write (kept world p.id) (kept written.0 p.id)) ends
              (lawful.writes p.id write world)).1 in
          (
            revision,
            fits,
            flush-due 𝓟 𝓙 𝓢 world p state ready.usable_ position is_due
                ∙ (λ i. flushed 𝓟 𝓙 𝓢 p position (written.0, ends i)),
            subst (λ k. kept written.0 k ≡ some (kept_of 𝓟 𝓙.State revision write)) of_id stored,
          )

      pub flush-IsReady :
          let out = flush 𝓟 𝓙 𝓢 world p in
          (out.2 ≡ returned (ok tt))
          × IsReady out.0 out.1 state left
          × (out.1.observed ≡ p.observed)
          × IsStored out.0 out.1 state
      flush-IsReady = elim (Option-cases (unpersisted 𝓟 𝓙 p)) [
        | inl none_due ↦ rw (flush-idle 𝓟 𝓙 𝓢 world p state ready.usable_ none_due) (
          refl,
          record {
            usable_ = ready.usable_;
            current = ready.current;
            held = ready.held;
            linked = relaxed 𝓟 𝓙 p (kept world id) left ready.linked;
          },
          refl,
          idle-IsStored world p state (suc left) (kept world id) refl ready ready.linked none_due,
        )
        | inr (position, is_due) ↦
            let (revision, fits, out, own) = flush_commits position is_due in
            let now = ready.current in
            let seen : p.observed ≡ some position = due 𝓟 𝓙 p position is_due in
            let (held', now') =
              subst (λ o. IsTrue (kept o.0 id) × IsCurrent o.1) out
                (flush-keeps 𝓟 𝓙 𝓢 kept id schema log lawful world p ready.held now) in
            let p' : Projection 𝓟 𝓙 = record p {
              revision = some revision;
              checkpoint = some position;
              reload_required = false;
            } in
            rw out (
              refl,
              record {
                usable_ = rw (usable 𝓟 𝓙 p state ready.usable_) refl;
                current = now';
                held = held';
                linked =
                    subst (λ s. IsLinked 𝓟 𝓙 p' s left) (sym own)
                      (refl, fits, inl (refl, refl, position, seen, le_refl 𝓟 𝓙 order position));
              },
              refl,
              λ at h.
                  let same : position ≡ at = some_inj position at (sym seen ∙ h) in
                  (
                    revision,
                    own
                        ∙ ap some (λ i. record {
                          revision = revision;
                          schema_version = now.of_schema i;
                          position = same i;
                          state = state;
                        }),
                  ),
            )
      ]
