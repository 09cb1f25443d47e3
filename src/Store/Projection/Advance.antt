-- ===== src/Store/Projection/Advance.antt =====
-- `advance` of crates/store/src/projection.rs keeps the stored checkpoint and the instance true.
use mnesis.Base.{
  ℕ, ◌≡◌, inl, inr, refl, sym, Bool, true, false, Option, none, some, List, [], ◌∷◌, arith,
  Bool-cases,
}
use mathlib.Core.Path.{subst}
use mnesis.Base.Result.{Result, ok, err, Result-cases}
use mnesis.Store.Checkpoint.{Positions}
use mnesis.Store.Projection.{
  Projector, Positioned, Projection, Trigger, CheckpointStore, is_past, state_of, advance_by,
  folded, triggered,
}
use mnesis.Store.Projection.Contract.{Kept, IsLawful}
use mnesis.Store.Projection.Cases.{usable, advance-unusable, advance-past, advance-folds}
use mnesis.Store.Projection.Fold.{
  IsOrder, applied, fold_items, fold_items-snoc, upto, after, IsIncreasing, after-cons,
}
use mnesis.Store.Projection.Truth
use mnesis.Store.Projection.Truth.{some_inj}
use mnesis.Store.Projection.Flush.{flush-keeps}

module _ (𝓟 : Positions) (𝓙 : Projector) (𝓢 : CheckpointStore 𝓟 𝓙.State)
    (kept : 𝓢.World → List ℕ → Option (Kept 𝓟 𝓙.State)) (should_persist : Trigger 𝓟) (id : List ℕ)
    (schema : ℕ) (log : List (Positioned 𝓟 𝓙)) where
  abbrev IsFold : Option 𝓟.Position → 𝓙.State → Type 0
  IsFold = Truth.IsFold 𝓟 𝓙 id schema log

  abbrev IsOffered : Projection 𝓟 𝓙 → Positioned 𝓟 𝓙 → Type 0
  IsOffered = Truth.IsOffered 𝓟 𝓙 id schema log

  abbrev IsTrue : Option (Kept 𝓟 𝓙.State) → Type 0
  IsTrue = Truth.IsTrue 𝓟 𝓙 id schema log

  abbrev IsCurrent : Projection 𝓟 𝓙 → Type 0
  IsCurrent = Truth.IsCurrent 𝓟 𝓙 id schema log

  module _ (lawful : IsLawful 𝓟 𝓙.State 𝓢 kept) where
    module _ (order : IsOrder 𝓟) (increasing : IsIncreasing 𝓟 𝓙 log) where
      -- The instance once an item has folded.
      pub folded-IsCurrent :
          (p : Projection 𝓟 𝓙) (item : Positioned 𝓟 𝓙) (state state' : 𝓙.State)
          (todo : List (Positioned 𝓟 𝓙))
          → 𝓙.apply_attributed state item.key item.event ≡ some (ok state')
          → IsFold p.observed state
          → after 𝓟 𝓙 p.observed log ≡ item ∷ todo
          → IsCurrent p
          → IsCurrent (record p { state = some state'; observed = some item.position })
      folded-IsCurrent p item state state' todo e fold next now =
          let (up, _, _) = after-cons 𝓟 𝓙 order p.observed log todo item increasing next in
          let one : applied 𝓟 𝓙 state item ≡ some state' = rw (e, applied) refl in
          let all : IsFold (some item.position) state' =
            subst (λ xs. fold_items 𝓟 𝓙 𝓙.initial xs ≡ some state') (sym up)
              (fold_items-snoc 𝓟 𝓙 𝓙.initial (upto 𝓟 𝓙 p.observed log) item state state' fold
                one) in
          record {
            of_id = now.of_id;
            of_schema = now.of_schema;
            of_state = λ s h. subst (λ x. IsFold (some item.position) x) (some_inj state' s h) all;
          }

      triggered-keeps :
          (world : 𝓢.World) (p : Projection 𝓟 𝓙) (answer : Option Bool)
          → IsTrue (kept world id)
          → IsCurrent p
          → let out = triggered 𝓟 𝓙 𝓢 world p answer in IsTrue (kept out.0 id) × IsCurrent out.1
      triggered-keeps world p none held now = (held, now)
      triggered-keeps world p (some true) held now =
          flush-keeps 𝓟 𝓙 𝓢 kept id schema log lawful world p held now
      triggered-keeps world p (some false) held now = (held, now)

      folded-keeps :
          (world : 𝓢.World) (p : Projection 𝓟 𝓙) (item : Positioned 𝓟 𝓙) (state : 𝓙.State)
          (todo : List (Positioned 𝓟 𝓙)) (result : Option (Result 𝓙.Error 𝓙.State))
          → 𝓙.apply_attributed state item.key item.event ≡ result
          → IsFold p.observed state
          → after 𝓟 𝓙 p.observed log ≡ item ∷ todo
          → IsTrue (kept world id)
          → IsCurrent p
          → let out = folded 𝓟 𝓙 𝓢 should_persist world p item result in
            IsTrue (kept out.0 id) × IsCurrent out.1
      folded-keeps world p item state todo none e fold next held now = (
        held,
        record { of_id = now.of_id; of_schema = now.of_schema; of_state = λ s h. absurd cc },
      )
      folded-keeps world p item state todo (some (err x)) e fold next held now = (
        held,
        record { of_id = now.of_id; of_schema = now.of_schema; of_state = λ s h. absurd cc },
      )
      folded-keeps world p item state todo (some (ok state')) e fold next held now =
          let p' : Projection 𝓟 𝓙 = record p {
            state = some state';
            observed = some item.position;
          } in
          let now' = folded-IsCurrent p item state state' todo e fold next now in
          triggered-keeps world p'
            (should_persist p.checkpoint item.position (𝓙.name item.event ∷ [])) held now'

      pub advance-keeps :
          (world : 𝓢.World) (p : Projection 𝓟 𝓙) (item : Positioned 𝓟 𝓙)
          → IsOffered p item
          → IsTrue (kept world id)
          → IsCurrent p
          → let out = advance_by 𝓟 𝓙 𝓢 should_persist world p item in
            IsTrue (kept out.0 id) × IsCurrent out.1
      advance-keeps world p item offered held now = elim (Result-cases (state_of 𝓟 𝓙 p)) [
        | inr (e, q) ↦ rw (advance-unusable 𝓟 𝓙 𝓢 world p should_persist item e q) (held, now)
        | inl (state, q) ↦ elim (Bool-cases (is_past 𝓟 p.observed item.position)) [
          | inl past ↦ rw (advance-past 𝓟 𝓙 𝓢 world p should_persist item state q past) (held, now)
          | inr new ↦
              rw (advance-folds 𝓟 𝓙 𝓢 world p should_persist item state q new) (elim offered [
                | inr past ↦ absurd (ground arith)
                | inl (todo, next) ↦
                    folded-keeps world p item state todo
                      (𝓙.apply_attributed state item.key item.event) refl
                      (now.of_state state (usable 𝓟 𝓙 p state q)) next held now
              ])
        ]
      ]
