-- ===== src/Store/Projection/Truth.antt =====
-- What holds of a projection and of its stored checkpoint: each is the fold of the items up to its
-- place.
use mnesis.Base.{ℕ, ◌≡◌, ◌⊎◌, true, Option, some, List, ◌∷◌}
use mnesis.Store.Checkpoint.{Positions}
use mnesis.Store.Projection.{Projector, Positioned, Projection, is_past}
use mnesis.Store.Projection.Contract.{Kept}
use mnesis.Store.Projection.Fold.{fold_items, upto, after}

pub some_inj : {A : Type 0} (a b : A) → ◌≡◌ {A = Option A} (some a) (some b) → a ≡ b
some_inj a b h = cc

module _ (𝓟 : Positions) (𝓙 : Projector) (id : List ℕ) (schema : ℕ)
    (log : List (Positioned 𝓟 𝓙)) where
  -- What a subscription may hand to a projection: the item behind its place, or, again, one that
  -- it has passed.
  abbrev pub IsOffered : Projection 𝓟 𝓙 → Positioned 𝓟 𝓙 → Type 0
  IsOffered p item =
      ((todo : List (Positioned 𝓟 𝓙)) × (after 𝓟 𝓙 p.observed log ≡ item ∷ todo))
      ⊎ (is_past 𝓟 p.observed item.position ≡ true)

  abbrev pub IsFold : Option 𝓟.Position → 𝓙.State → Type 0
  IsFold at state = fold_items 𝓟 𝓙 𝓙.initial (upto 𝓟 𝓙 at log) ≡ some state

  -- The stored checkpoint is the fold of the items up to its position.
  abbrev pub IsTrue : Option (Kept 𝓟 𝓙.State) → Type 0
  IsTrue stored =
      (r : Kept 𝓟 𝓙.State)
      → stored ≡ some r
      → r.schema_version ≡ schema
      → IsFold (some r.position) r.state

  -- The state of a worker is the fold of the items up to the one that it has observed last.
  pub record IsCurrent (p : Projection 𝓟 𝓙) : Type 0 where
    pub of_id : p.id ≡ id
    pub of_schema : p.schema_version ≡ schema
    pub of_state : (state : 𝓙.State) → p.state ≡ some state → IsFold p.observed state
