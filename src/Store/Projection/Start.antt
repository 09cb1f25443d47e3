-- ===== src/Store/Projection/Start.antt =====
-- What `assemble` of crates/store/src/projection.rs starts from.
use mnesis.Base.{
  ℕ, ◌+◌, ◌≤◌, ◌≡◌, ◌≢◌, inl, inr, ◌∙◌, refl, sym, Option, none, some, List, arith, ◌==◌,
  Bool-cases,
}
use mathlib.Core.Path.{subst}
use mnesis.Base.Words.{u64_max}
use mnesis.Base.Result.{Result, ok, Result-cases}
use mnesis.Store.Checkpoint.{Positions, CheckpointMode, advance, rebuild}
use mnesis.Store.Projection.{
  Projector, Positioned, Projection, CheckpointStore, CheckpointError, state_of, assemble,
  assembled, starting,
}
use mnesis.Store.Projection.Contract.{Kept, reading, IsLawful}
use mnesis.Store.Projection.Fold.{IsOrder, le_refl, fold_items, upto-none}
use mnesis.Store.Projection.Truth
use mnesis.Store.Projection.Truth.{some_inj}
use mnesis.Store.Projection.Sole.{IsLinked}

module _ (𝓟 : Positions) (𝓙 : Projector) (𝓢 : CheckpointStore 𝓟 𝓙.State)
    (kept : 𝓢.World → List ℕ → Option (Kept 𝓟 𝓙.State)) (id : List ℕ) (schema : ℕ)
    (log : List (Positioned 𝓟 𝓙)) where
  abbrev IsFold : Option 𝓟.Position → 𝓙.State → Type 0
  IsFold = Truth.IsFold 𝓟 𝓙 id schema log

  abbrev IsTrue : Option (Kept 𝓟 𝓙.State) → Type 0
  IsTrue = Truth.IsTrue 𝓟 𝓙 id schema log

  abbrev IsCurrent : Projection 𝓟 𝓙 → Type 0
  IsCurrent = Truth.IsCurrent 𝓟 𝓙 id schema log

  initial-IsFold : IsFold none 𝓙.initial
  unfolding fold_items
  initial-IsFold = rw (upto-none 𝓟 𝓙 log) refl

  abbrev Start : Type 0
  Start = 𝓙.State × Option 𝓟.Position × Option ℕ × Option ℕ

  started :
      (P : Start → Type 0) (a start : Start)
      → ◌≡◌ {A = Result (CheckpointError 𝓢.Error) Start} (ok a) (ok start)
      → P a
      → P start
  started P a start e holds = let same : a ≡ start = ground arith in subst P same holds

  -- What a reading starts, by what is stored and by the mode.
  starting-cases :
      (P : Start → Type 0) (mode : CheckpointMode) (stored : Option (Kept 𝓟 𝓙.State))
      (start : Start)
      → starting 𝓟 𝓙 𝓢 mode schema (reading 𝓟 𝓙.State schema stored) ≡ ok start
      → (stored ≡ none → P (𝓙.initial, none, none, none))
      → ((r : Kept 𝓟 𝓙.State)
          → stored ≡ some r
          → r.schema_version ≡ schema
          → P (r.state, some r.position, some r.revision, none))
      → ((r : Kept 𝓟 𝓙.State)
          → stored ≡ some r
          → r.schema_version ≢ schema
          → P (𝓙.initial, none, some r.revision, some r.schema_version))
      → P start
  unfolding starting
  starting-cases P advance none start e absent_ found_ stale_ =
      started P (𝓙.initial, none, none, none) start e (absent_ refl)
  starting-cases P advance (some r) start e absent_ found_ stale_ =
      elim (Bool-cases (r.schema_version == schema)) [
        | inl same ↦
            started P (r.state, some r.position, some r.revision, none) start
              (sym (ground (arith, same)) ∙ e) (found_ r refl (ground arith))
        | inr other ↦ absurd (ground arith)
      ]
  starting-cases P rebuild none start e absent_ found_ stale_ = absurd (ground arith)
  starting-cases P rebuild (some r) start e absent_ found_ stale_ =
      elim (Bool-cases (r.schema_version == schema)) [
        | inl same ↦ absurd (ground arith)
        | inr other ↦
            started P (𝓙.initial, none, some r.revision, some r.schema_version) start
              (sym (ground (arith, other)) ∙ e) (stale_ r refl (λ x. ground (arith, other)))
      ]

  module _ (lawful : IsLawful 𝓟 𝓙.State 𝓢 kept) where
    assemble-starts :
        (world : 𝓢.World) (mode : CheckpointMode) (p : Projection 𝓟 𝓙)
        → assemble 𝓟 𝓙 𝓢 id schema mode world ≡ ok p
        → (start : Start) × (starting 𝓟 𝓙 𝓢 mode schema (reading 𝓟 𝓙.State schema (kept world id))
            ≡ ok start)
          × (assembled 𝓟 𝓙 𝓢 id schema start ≡ p)
    unfolding assemble
    assemble-starts world mode p made = elim (Result-cases (𝓢.hydrate_checkpoint id schema world)) [
      | inr (e, q) ↦ absurd (ground arith)
      | inl (hydrated, q) ↦ elim (Result-cases (starting 𝓟 𝓙 𝓢 mode schema hydrated)) [
        | inr (e, q') ↦ absurd (ground arith)
        | inl (start, q') ↦ (
          start,
          subst (λ h. starting 𝓟 𝓙 𝓢 mode schema h ≡ ok start)
              (lawful.reads id schema world hydrated q) q',
          ground arith,
        )
      ]
    ]

    pub assemble-keeps :
        (world : 𝓢.World) (mode : CheckpointMode) (p : Projection 𝓟 𝓙)
        → assemble 𝓟 𝓙 𝓢 id schema mode world ≡ ok p
        → IsTrue (kept world id)
        → IsCurrent p
    assemble-keeps world mode p made held =
        let (start, starts, is_p) = assemble-starts world mode p made in
        let fold : IsFold start.1 start.0 =
          starting-cases (λ a. IsFold a.1 a.0) mode (kept world id) start starts
            (λ e. initial-IsFold) (λ r e same. held r e same) (λ r e other. initial-IsFold) in
        subst IsCurrent is_p (record {
          of_id = refl;
          of_schema = refl;
          of_state = λ s h. subst (IsFold start.1) (some_inj start.0 s h) fold;
        })

    -- A loaded instance is usable, and knows what is stored.
    pub assemble-IsLinked :
        (order : IsOrder 𝓟) (world : 𝓢.World) (mode : CheckpointMode) (p : Projection 𝓟 𝓙)
        (left : ℕ)
        → assemble 𝓟 𝓙 𝓢 id schema mode world ≡ ok p
        → left ≤ u64_max
        → ((r : Kept 𝓟 𝓙.State) → kept world id ≡ some r → r.revision + left ≤ u64_max)
        → ((state : 𝓙.State) × (state_of 𝓟 𝓙 p ≡ ok state)) × IsLinked 𝓟 𝓙 p (kept world id) left
    assemble-IsLinked order world mode p left made fits bound =
        let (start, starts, is_p) = assemble-starts world mode p made in
        let link : Option (Kept 𝓟 𝓙.State) → Start → Type 0 =
          λ s a. IsLinked 𝓟 𝓙 (assembled 𝓟 𝓙 𝓢 id schema a) s left in
        let linked : link (kept world id) start =
          starting-cases (link (kept world id)) mode (kept world id) start starts
            (λ e. subst (λ s. link s (𝓙.initial, none, none, none)) (sym e) (refl, refl, fits))
            (λ r e same.
              subst (λ s. link s (r.state, some r.position, some r.revision, none)) (sym e)
                (refl, bound r e, inl (same, refl, r.position, refl, le_refl 𝓟 𝓙 order r.position)))
            (λ r e other.
              subst (λ s. link s (𝓙.initial, none, some r.revision, some r.schema_version)) (sym e)
                (refl, bound r e, inr (other, refl))) in
        subst
          (λ q.
            ((state : 𝓙.State) × (state_of 𝓟 𝓙 q ≡ ok state)) × IsLinked 𝓟 𝓙 q (kept world id) left)
          is_p ((start.0, refl), linked)
