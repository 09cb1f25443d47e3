-- ===== src/Store/Projection/Failure.antt =====
-- How `advance` and `flush` of crates/store/src/projection.rs leave an instance, by how they end.
use mnesis.Base.{
  ℕ, ◌≡◌, ◌⊎◌, ◌∙◌, refl, sym, inl, inr, Bool, true, false, List, Option, none, some, [], ◌∷◌,
  arith, Bool-cases, Option-cases,
}
use mnesis.Base.Result.{Result, ok, err, Result-cases}
use mnesis.Store.Checkpoint.{Positions, CheckpointWrite}
use mnesis.Store.Projection.{
  Projector, Positioned, Projection, ProjectionStateError, poisoned, reload_required, Trigger,
  CheckpointStore, CheckpointError, apply, commit, unusable, non_increasing_position, Ending,
  returned, panicked, dropped, Out, state_of, is_past, unpersisted, write_of, flushed, flush,
  folded, triggered, advance_by,
}
use mnesis.Store.Projection.Cases.{
  usable, flush-unusable, flush-idle, flush-due, advance-unusable, advance-past, advance-folds,
}

module _ (𝓟 : Positions) (𝓙 : Projector) (𝓢 : CheckpointStore 𝓟 𝓙.State) where
  abbrev pub IsUsable : Projection 𝓟 𝓙 → Type 0
  IsUsable p = (state : 𝓙.State) × (state_of 𝓟 𝓙 p ≡ ok state)

  module _ (should_persist : Trigger 𝓟) where
    -- The instance is out of use: from now on its calls answer the same error and do nothing.
    abbrev pub IsOut : ProjectionStateError → Projection 𝓟 𝓙 → Type 0
    IsOut e p =
        (state_of 𝓟 𝓙 p ≡ err e)
        × ((world : 𝓢.World) (item : Positioned 𝓟 𝓙)
            → advance_by 𝓟 𝓙 𝓢 should_persist world p item
              ≡ (world, p, returned (err (unusable e))))
        × ((world : 𝓢.World) → flush 𝓟 𝓙 𝓢 world p ≡ (world, p, returned (err (unusable e))))

    -- A write has ended so.
    abbrev pub Wrote : 𝓢.World → 𝓢.World → Ending (Result (CheckpointError 𝓢.Error) ℕ) → Type 0
    Wrote world world' ending =
        (id : List ℕ) × (write : CheckpointWrite 𝓟 𝓙.State) × (𝓢.commit_checkpoint id write world
          ≡ (world', ending))

    -- The item is folded into the instance, with this result.
    abbrev pub Folds : Projection 𝓟 𝓙 → Positioned 𝓟 𝓙 → Option (Result 𝓙.Error 𝓙.State) → Type 0
    Folds p item result =
        (state : 𝓙.State) × (state_of 𝓟 𝓙 p ≡ ok state)
        × (is_past 𝓟 p.observed item.position ≡ false)
        × (𝓙.apply_attributed state item.key item.event ≡ result)

    -- The instance holds the fold of the item.
    abbrev pub HasFolded : Projection 𝓟 𝓙 → Positioned 𝓟 𝓙 → Projection 𝓟 𝓙 → Type 0
    HasFolded p item p' =
        (state : 𝓙.State) × Folds p item (some (ok state)) × (state_of 𝓟 𝓙 p' ≡ ok state)

    -- What an ending of `flush` says of the world and the instance that it leaves.
    abbrev pub IsFlushed : 𝓢.World → Projection 𝓟 𝓙 → Out 𝓟 𝓙 𝓢 → Type 0
    IsFlushed world p (world', p', returned (ok u)) =
        IsUsable p × (state_of 𝓟 𝓙 p' ≡ state_of 𝓟 𝓙 p)
    IsFlushed world p (world', p', returned (err (commit e))) =
        Wrote world world' (returned (err e)) × IsOut reload_required p'
    IsFlushed world p (world', p', returned (err (unusable e))) =
        (world' ≡ world) × (p' ≡ p) × IsOut e p
    IsFlushed world p (world', p', returned (err (apply e))) = ⊥
    IsFlushed world p (world', p', returned (err non_increasing_position)) = ⊥
    IsFlushed world p (world', p', panicked) =
        Wrote world world' panicked × IsOut reload_required p'
    IsFlushed world p (world', p', dropped) = Wrote world world' dropped × IsOut reload_required p'

    -- What an ending of `advance` says of what has happened, and of the world and the instance that
    -- it leaves.
    abbrev pub IsSettled : 𝓢.World → Projection 𝓟 𝓙 → Positioned 𝓟 𝓙 → Out 𝓟 𝓙 𝓢 → Type 0
    IsSettled world p item (world', p', returned (ok u)) = HasFolded p item p'
    IsSettled world p item (world', p', returned (err (apply e))) =
        Folds p item (some (err e)) × (world' ≡ world) × IsOut poisoned p'
    IsSettled world p item (world', p', returned (err (commit e))) =
        Wrote world world' (returned (err e)) × IsOut reload_required p'
    IsSettled world p item (world', p', returned (err (unusable e))) =
        (world' ≡ world) × (p' ≡ p) × IsOut e p
    IsSettled world p item (world', p', returned (err non_increasing_position)) =
        (is_past 𝓟 p.observed item.position ≡ true) × (world' ≡ world) × (p' ≡ p) × IsUsable p
    IsSettled world p item (world', p', panicked) =
        (Folds p item none × (world' ≡ world) × IsOut poisoned p')
        ⊎ ((HasFolded p item p'
              × (should_persist p.checkpoint item.position (𝓙.name item.event ∷ []) ≡ none)
              × (world' ≡ world))
            ⊎ (Wrote world world' panicked × IsOut reload_required p'))
    IsSettled world p item (world', p', dropped) =
        Wrote world world' dropped × IsOut reload_required p'

    is_out : (e : ProjectionStateError) (p : Projection 𝓟 𝓙) → state_of 𝓟 𝓙 p ≡ err e → IsOut e p
    is_out e p h = (
      h,
      λ world item. advance-unusable 𝓟 𝓙 𝓢 world p should_persist item e h,
      λ world. flush-unusable 𝓟 𝓙 𝓢 world p e h,
    )

    flushed-IsFlushed :
        (world world' : 𝓢.World) (p : Projection 𝓟 𝓙) (state : 𝓙.State) (position : 𝓟.Position)
        (ending : Ending (Result (CheckpointError 𝓢.Error) ℕ))
        → state_of 𝓟 𝓙 p ≡ ok state
        → Wrote world world' ending
        → IsFlushed world p (flushed 𝓟 𝓙 𝓢 p position (world', ending))
    flushed-IsFlushed world world' p state position (returned (ok revision)) h wrote =
        ((state, h), rw (usable 𝓟 𝓙 p state h) (ground (arith, h)))
    flushed-IsFlushed world world' p state position (returned (err e)) h wrote =
        (wrote, is_out reload_required _ refl)
    flushed-IsFlushed world world' p state position panicked h wrote =
        (wrote, is_out reload_required _ refl)
    flushed-IsFlushed world world' p state position dropped h wrote =
        (wrote, is_out reload_required _ refl)

    -- A flush leaves an instance that can be used as before, or one that is out of use, for a write
    -- that has ended so.
    pub flush-IsFlushed :
        (world : 𝓢.World) (p : Projection 𝓟 𝓙) → IsFlushed world p (flush 𝓟 𝓙 𝓢 world p)
    flush-IsFlushed world p = elim (Result-cases (state_of 𝓟 𝓙 p)) [
      | inr (e, q) ↦ rw (flush-unusable 𝓟 𝓙 𝓢 world p e q) (refl, refl, is_out e p q)
      | inl (state, q) ↦ elim (Option-cases (unpersisted 𝓟 𝓙 p)) [
        | inl none_due ↦ rw (flush-idle 𝓟 𝓙 𝓢 world p state q none_due) ((state, q), refl)
        | inr (position, is_due) ↦ rw (flush-due 𝓟 𝓙 𝓢 world p state q position is_due) (
            let write = write_of 𝓟 𝓙 p position state in
            let out = 𝓢.commit_checkpoint p.id write world in
            flushed-IsFlushed world out.0 p state position out.1 q (p.id, write, refl))
      ]
    ]

    module _ (world : 𝓢.World) (p : Projection 𝓟 𝓙) (item : Positioned 𝓟 𝓙) where
      -- A flush behind the fold, of the instance `q`.
      flushes :
          (q : Projection 𝓟 𝓙) (out : Out 𝓟 𝓙 𝓢)
          → HasFolded p item q
          → IsFlushed world q out
          → IsSettled world p item out
      flushes q (world', p', returned (ok u)) (state, f, h) (usable_, same) = (state, f, same ∙ h)
      flushes q (world', p', returned (err (commit e))) f done = done
      flushes q (world', p', returned (err (unusable e))) (state, f, h) (a, b, (off, c, d)) =
          absurd (ground (arith, sym h ∙ off))
      flushes q (world', p', returned (err (apply e))) f done = absurd done
      flushes q (world', p', returned (err non_increasing_position)) f done = absurd done
      flushes q (world', p', panicked) f done = inr (inr done)
      flushes q (world', p', dropped) f done = done

      triggered-IsSettled :
          (q : Projection 𝓟 𝓙) (answer : Option Bool)
          → HasFolded p item q
          → should_persist p.checkpoint item.position (𝓙.name item.event ∷ []) ≡ answer
          → IsSettled world p item (triggered 𝓟 𝓙 𝓢 world q answer)
      triggered-IsSettled q none f h = inr (inl (f, h, refl))
      triggered-IsSettled q (some true) f h =
          flushes q (flush 𝓟 𝓙 𝓢 world q) f (flush-IsFlushed world q)
      triggered-IsSettled q (some false) f h = f

      folded-IsSettled :
          (result : Option (Result 𝓙.Error 𝓙.State))
          → p.reload_required ≡ false
          → Folds p item result
          → IsSettled world p item (folded 𝓟 𝓙 𝓢 should_persist world p item result)
      folded-IsSettled none h f = inl (f, refl, is_out poisoned _ (rw h refl))
      folded-IsSettled (some (err e)) h f = (f, refl, is_out poisoned _ (rw h refl))
      folded-IsSettled (some (ok state)) h f =
          triggered-IsSettled (record p { state = some state; observed = some item.position })
            (should_persist p.checkpoint item.position (𝓙.name item.event ∷ []))
            (state, f, rw h refl) refl

      -- `advance` leaves an instance that holds the fold of the item, or that is as it was, or that
      -- is out of use: every later call answers the same error and changes nothing. A fold that
      -- fails or panics leaves the store as it was and the instance poisoned; only a write that
      -- failed, panicked or was dropped leaves one that requires a reload; a panic of the trigger
      -- leaves the store as it was and an instance that holds the fold; a position that does not
      -- increase, and no other, is refused, and it changes nothing, as does a call of an instance
      -- that is out of use already.
      pub advance-IsSettled : IsSettled world p item (advance_by 𝓟 𝓙 𝓢 should_persist world p item)
      advance-IsSettled = elim (Result-cases (state_of 𝓟 𝓙 p)) [
        | inr (e, q) ↦
            rw (advance-unusable 𝓟 𝓙 𝓢 world p should_persist item e q) (refl, refl, is_out e p q)
        | inl (state, q) ↦ elim (Bool-cases (is_past 𝓟 p.observed item.position)) [
          | inl past ↦
              rw (advance-past 𝓟 𝓙 𝓢 world p should_persist item state q past)
                (past, refl, refl, (state, q))
          | inr new ↦ rw (advance-folds 𝓟 𝓙 𝓢 world p should_persist item state q new) (
              folded-IsSettled (𝓙.apply_attributed state item.key item.event) (ground arith)
                (state, q, new, refl))
        ]
      ]
