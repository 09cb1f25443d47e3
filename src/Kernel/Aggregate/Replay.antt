-- ===== src/Kernel/Aggregate/Replay.antt =====
-- Replay and commit against each other: what succeeds and what is refused.
use mnesis.Base.{
  ℕ, ◌+◌, ◌≤◌, ◌<◌, ◌≡◌, ◌∙◌, refl, none, some, List, [], ◌∷◌, arith, Option-cases, inl, inr,
  length,
}
use mnesis.Base.Words.{u64_max, usize_max}
use mnesis.Base.Result.{ok, err}
use mnesis.Kernel.Version.{Version}
use mnesis.Kernel.Events
use mnesis.Kernel.Events.{Events}
use mnesis.Kernel.Aggregate.{
  Aggregate, AggregateRoot, KernelError, returned, done, apply_all, fold_events, replay_checks,
  replay, version_or_zero, commit_version, commit_persisted, rehydrate,
}
use mnesis.Kernel.Aggregate.Fold.{fold_done}

-- A batch stamped with consecutive versions, as a store returns it.
abbrev pub stamped : {Event : Type 0} → ℕ → List Event → List (Version × Event)
stamped v [] = []
stamped v (e ∷ es) = (record { as_u64 = v }, e) ∷ stamped (v + 1) es

module _ {𝓐 : Aggregate} where
  open 𝓐 use {State, Event}

  -- `replay` of the next version, within the budget, folds the event and counts it.
  pub replay-done :
      (root : AggregateRoot 𝓐) (version : Version) (event : Event) (s s' : State)
      → root.state ≡ some s
      → version.as_u64 ≡ version_or_zero root.version + 1
      → version.as_u64 ≤ u64_max
      → root.replayed_events < 𝓐.max_rehydration_events
      → root.replayed_events < usize_max
      → 𝓐.apply s event ≡ some s'
      → replay root version event ≡ (
        record root {
          state = some s';
          version = some version;
          replayed_events = root.replayed_events + 1;
        },
        done,
      )
  unfolding replay replay_checks fold_events
  replay-done root version event s s' hs hv top budget word a = ground arith

  -- `commit_version` on a usable root: the version after the batch, or overflow.
  pub commit_version_lem :
      (root : AggregateRoot 𝓐) (events : Events Event) (s : State)
      → root.state ≡ some s
      → version_or_zero root.version + Events.len events ≤ u64_max
      → commit_version root events
        ≡ ok (record { as_u64 = version_or_zero root.version + Events.len events })
  unfolding commit_version
  commit_version_lem root events s hs fits = ground arith

  pub commit_version_overflow :
      (root : AggregateRoot 𝓐) (events : Events Event) (s : State)
      → root.state ≡ some s
      → u64_max < version_or_zero root.version + Events.len events
      → commit_version root events ≡ err KernelError.version_overflow
  unfolding commit_version
  commit_version_overflow root events s hs over = ground arith

  rehydrate_step :
      (root root' : AggregateRoot 𝓐) (version : Version) (event : Event)
      (history : List (Version × Event))
      → replay root version event ≡ (root', done)
      → rehydrate root ((version, event) ∷ history) ≡ rehydrate root' history
  unfolding rehydrate
  rehydrate_step root root' version event history h = ground arith

  -- Replaying a stamped batch on top of version `v`, one event after another.
  rehydrate-stamped :
      (es : List Event) (root : AggregateRoot 𝓐) (v : ℕ) (s s' : State)
      → root.state ≡ some s
      → root.version ≡ some (record { as_u64 = v })
      → v + length es ≤ u64_max
      → root.replayed_events + length es ≤ 𝓐.max_rehydration_events
      → 𝓐.max_rehydration_events ≤ usize_max
      → apply_all 𝓐 s es ≡ some s'
      → rehydrate root (stamped (v + 1) es) ≡ (
        record root {
          state = some s';
          version = some (record { as_u64 = v + length es });
          replayed_events = root.replayed_events + length es;
        },
        done,
      )
  rehydrate-stamped [] root v s s' hs hv top budget word a = unfold rehydrate in ground arith
  rehydrate-stamped (e ∷ es) root v s s' hs hv top budget word a =
      elim (Option-cases (𝓐.apply s e)) [
        | inl p ↦ ground arith
        | inr (t, p) ↦
            let root' : AggregateRoot 𝓐 = record root {
              state = some t;
              version = some (record { as_u64 = v + 1 });
              replayed_events = root.replayed_events + 1;
            } in
            rehydrate_step root root' (record { as_u64 = v + 1 }) e (stamped (v + 1 + 1) es)
              (replay-done root (record { as_u64 = v + 1 }) e s t hs (ground arith) (omega arith)
                (omega arith) (omega arith) p)
            ∙ rehydrate-stamped es root' (v + 1) t s' refl refl (omega arith) (omega arith) word
                (ground arith)
            ∙ ground arith
      ]

  -- A refused `replay` or `commit_persisted` leaves the root as it was.
  pub error_keeps_root :
      (root root' : AggregateRoot 𝓐) (version : Version) (event : Event) (events : Events Event)
      (e : KernelError)
      → ((replay root version event ≡ (root', returned (err e))) → root' ≡ root)
        × ((commit_persisted root events ≡ (root', returned (err e))) → root' ≡ root)
  unfolding replay commit_persisted fold_events commit_version
  error_keeps_root root root' version event events e = (λ h. ground arith, λ h. ground arith)

  -- A first event on any usable root, then the rest of the batch.
  pub rehydrate-batch :
      (events : Events Event) (root : AggregateRoot 𝓐) (s s' : State)
      → root.state ≡ some s
      → version_or_zero root.version + Events.len events ≤ u64_max
      → root.replayed_events + Events.len events ≤ 𝓐.max_rehydration_events
      → 𝓐.max_rehydration_events ≤ usize_max
      → apply_all 𝓐 s (Events.iter events) ≡ some s'
      → rehydrate root (stamped (version_or_zero root.version + 1) (Events.iter events)) ≡ (
        record root {
          state = some s';
          version = some (record { as_u64 = version_or_zero root.version + Events.len events });
          replayed_events = root.replayed_events + Events.len events;
        },
        done,
      )
  rehydrate-batch events root s s' hs top budget word a =
      elim (Option-cases (𝓐.apply s events.first)) [
        | inl p ↦ ground arith
        | inr (t, p) ↦
            let v : ℕ = version_or_zero root.version in
            let root' : AggregateRoot 𝓐 = record root {
              state = some t;
              version = some (record { as_u64 = v + 1 });
              replayed_events = root.replayed_events + 1;
            } in
            rehydrate_step root root' (record { as_u64 = v + 1 }) events.first
              (stamped (v + 1 + 1) events.rest)
              (replay-done root (record { as_u64 = v + 1 }) events.first s t hs refl (omega arith)
                (omega arith) (omega arith) p)
            ∙ rehydrate-stamped events.rest root' (v + 1) t s' refl refl (omega arith) (omega arith)
                word (ground arith)
            ∙ ground arith
      ]

  -- On a usable root, where the batch stays within the version range and the replay budget and no
  -- event panics, committing the persisted batch and replaying it from the store end in the same
  -- state and version, both without error: they differ only in the replay budget that is spent.
  pub commit-rehydrate :
      (root : AggregateRoot 𝓐) (events : Events Event) (s s' : State)
      → root.state ≡ some s
      → version_or_zero root.version + Events.len events ≤ u64_max
      → root.replayed_events + Events.len events ≤ 𝓐.max_rehydration_events
      → 𝓐.max_rehydration_events ≤ usize_max
      → apply_all 𝓐 s (Events.iter events) ≡ some s'
      → (committed : AggregateRoot 𝓐) × (commit_persisted root events ≡ (committed, done))
        × (rehydrate root (stamped (version_or_zero root.version + 1) (Events.iter events)) ≡ (
          record committed { replayed_events = root.replayed_events + Events.len events },
          done,
        ))
        × (committed.state ≡ some s')
        × (committed.replayed_events ≡ root.replayed_events)
  unfolding commit_persisted
  commit-rehydrate root events s s' hs top budget word a =
      let next : Version = record { as_u64 = version_or_zero root.version + Events.len events } in
      (
        record root { state = some s'; version = some next },
        rw (commit_version_lem root events s hs top, commit_persisted)
            (fold_done (record root { version = some next }) (Events.iter events) s s' hs a),
        rehydrate-batch events root s s' hs top budget word a,
        refl,
        refl,
      )

  -- A root without state refuses every operation, with the same error, and does not change.
  pub poisoned_refuses :
      (root : AggregateRoot 𝓐) (version : Version) (event : Event) (events : Events Event)
      → root.state ≡ none
      → (replay root version event ≡ (root, returned (err KernelError.poisoned_aggregate)))
        × (commit_persisted root events ≡ (root, returned (err KernelError.poisoned_aggregate)))
        × (commit_version root events ≡ err KernelError.poisoned_aggregate)
        × (fold_events root (Events.iter events)
            ≡ (root, returned (err KernelError.poisoned_aggregate)))
  unfolding replay replay_checks commit_persisted fold_events commit_version
  poisoned_refuses root version event events h =
      (ground arith, ground arith, ground arith, ground arith)

  -- `replay` succeeds only on a usable root, at the next version, within the budget, and then it
  -- has folded the event, recorded its version and counted it.
  pub replay_inversion :
      (root root' : AggregateRoot 𝓐) (version : Version) (event : Event)
      → replay root version event ≡ (root', done)
      → (s : State) × (s' : State) × (root.state ≡ some s)
        × (𝓐.apply s event ≡ some s')
        × (version.as_u64 ≡ version_or_zero root.version + 1)
        × (version.as_u64 ≤ u64_max)
        × (root.replayed_events < 𝓐.max_rehydration_events)
        × (root' ≡ record root {
          state = some s';
          version = some version;
          replayed_events = root.replayed_events + 1;
        })
  unfolding replay replay_checks fold_events
  replay_inversion root root' version event h = elim (Option-cases root.state) [
    | inl p ↦ ground arith
    | inr (s, p) ↦ elim (Option-cases (𝓐.apply s event)) [
      | inl q ↦ ground arith
      | inr (s', q) ↦ (s, s', p, q, ground arith, ground arith, ground arith, ground arith)
    ]
  ]
