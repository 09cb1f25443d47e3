-- ===== src/Store/Projection/Cases.antt =====
-- The ways through `flush` and `advance` of crates/store/src/projection.rs, one equation for each.
use mnesis.Base.{◌≡◌, refl, true, false, inl, inr, none, some, arith, Option-cases}
use mnesis.Base.Result.{ok, err}
use mnesis.Store.Checkpoint.{Positions}
use mnesis.Store.Projection.{
  Projector, Positioned, Projection, ProjectionStateError, Trigger, CheckpointStore, unusable,
  non_increasing_position, returned, state_of, is_past, unpersisted, write_of, flushed, flush,
  folded, advance_by,
}

module _ (𝓟 : Positions) (𝓙 : Projector) where
  -- What `state` and the check of `flush` read.
  pub usable :
      (p : Projection 𝓟 𝓙) (state : 𝓙.State) → state_of 𝓟 𝓙 p ≡ ok state → p.state ≡ some state
  usable p state h = elim (Option-cases p.state) [
    | inl e ↦ absurd (ground arith)
    | inr (s, e) ↦ ground arith
  ]

  pub due :
      (p : Projection 𝓟 𝓙) (position : 𝓟.Position)
      → unpersisted 𝓟 𝓙 p ≡ some position
      → p.observed ≡ some position
  due p position h = elim (Option-cases p.observed) [
    | inl e ↦ absurd (ground arith)
    | inr (s, e) ↦ ground arith
  ]

module _ (𝓟 : Positions) (𝓙 : Projector) (𝓢 : CheckpointStore 𝓟 𝓙.State) where
  module _ (world : 𝓢.World) (p : Projection 𝓟 𝓙) where
    pub flush-unusable :
        (e : ProjectionStateError)
        → state_of 𝓟 𝓙 p ≡ err e
        → flush 𝓟 𝓙 𝓢 world p ≡ (world, p, returned (err (unusable e)))
    unfolding flush
    flush-unusable e h = rw (h, flush) refl

    module _ (state : 𝓙.State) (usable_ : state_of 𝓟 𝓙 p ≡ ok state) where
      pub flush-idle : unpersisted 𝓟 𝓙 p ≡ none → flush 𝓟 𝓙 𝓢 world p ≡ (world, p, returned (ok tt))
      unfolding flush
      flush-idle h = rw (usable_, h, flush) refl

      pub flush-due :
          (position : 𝓟.Position)
          → unpersisted 𝓟 𝓙 p ≡ some position
          → flush 𝓟 𝓙 𝓢 world p
            ≡ flushed 𝓟 𝓙 𝓢 p position
                (𝓢.commit_checkpoint p.id (write_of 𝓟 𝓙 p position state) world)
      unfolding flush
      flush-due position h = rw (usable_, h, flush) refl

    module _ (should_persist : Trigger 𝓟) (item : Positioned 𝓟 𝓙) where
      pub advance-unusable :
          (e : ProjectionStateError)
          → state_of 𝓟 𝓙 p ≡ err e
          → advance_by 𝓟 𝓙 𝓢 should_persist world p item ≡ (world, p, returned (err (unusable e)))
      unfolding advance_by
      advance-unusable e h = rw (h, advance_by) refl

      module _ (state : 𝓙.State) (usable_ : state_of 𝓟 𝓙 p ≡ ok state) where
        pub advance-past :
            is_past 𝓟 p.observed item.position ≡ true
            → advance_by 𝓟 𝓙 𝓢 should_persist world p item
              ≡ (world, p, returned (err non_increasing_position))
        unfolding advance_by
        advance-past h = rw (usable_, h, advance_by) refl

        pub advance-folds :
            is_past 𝓟 p.observed item.position ≡ false
            → advance_by 𝓟 𝓙 𝓢 should_persist world p item
              ≡ folded 𝓟 𝓙 𝓢 should_persist world p item
                  (𝓙.apply_attributed state item.key item.event)
        unfolding advance_by
        advance-folds h = rw (usable_, h, advance_by) refl
