-- ===== src/InMemory/Saga.antt =====
-- crates/store/src/saga.rs: a saga reacts to an event, its own events are saved, and its intents
-- are projected from them; on the `EventStore` facade over the in-memory store. `react` and
-- `intent_for` are the application's.
pub mod Intents
pub mod Effect
use mnesis.Base.{ℕ, ◌+◌, Option, none, some, List, [], ◌∷◌, ◌++◌, ltb, if◌then◌else◌, length}
use mnesis.Base.Result.{Result, ok, err, ok_or}
use mnesis.Kernel.Version
use mnesis.Kernel.Version.{Version}
use mnesis.Kernel.Events
use mnesis.Kernel.Events.{Events}
use mnesis.Kernel.Aggregate.{Aggregate, AggregateRoot, KernelError, DecisionError, handle}
use mnesis.Store.Value.{FromUtf8}
use mnesis.InMemory.Store.{Inner}
use mnesis.InMemory.Read.{BatchSize}
use mnesis.InMemory.Repository.{
  Facade, SaveError, Outcome, returned, panicked, first_persisted_version, save, load,
}

module _ (AggregateId Intent : Type 0) where
  pub record ProjectedIntent : Type 0 where
    pub saga_id : AggregateId
    pub source_version : Version
    pub intent : Intent

  -- The capacity `n` of the rest is the type's constant in the source.
  pub record ProjectedIntents : Type 0 where
    pub first : Option ProjectedIntent
    pub rest : List ProjectedIntent

  pub data Reaction : Type 0 where
    ignored : Reaction
    reacted : Version → ℕ → ProjectedIntents → Reaction

pub data SagaError (E F : Type 0) : Type 0 where
  kernel : KernelError → SagaError E F
  react : E → SagaError E F
  store : F → SagaError E F
  version_overflow : SagaError E F

abbrev pub to_list : {A : Type 0} → Option A → List A
to_list none = []
to_list (some a) = a ∷ []

module _ {AggregateId Intent : Type 0} where
  -- `ProjectedIntents::new`
  abbrev pub no_intents : ProjectedIntents AggregateId Intent
  no_intents = record { first = none; rest = [] }

  -- `ProjectedIntents::push`; `none` is its panic at capacity.
  unfoldable pub push :
      ℕ
      → ProjectedIntents AggregateId Intent
      → ProjectedIntent AggregateId Intent
      → Option (ProjectedIntents AggregateId Intent)
  push n intents intent = elim intents.first [
    | none ↦ some (record intents { first = some intent })
    | some i ↦
        if ltb (length intents.rest) n
        then some (record intents { rest = intents.rest ++ intent ∷ [] })
        else none
  ]

  -- `ProjectedIntents::iter`
  abbrev pub iter : ProjectedIntents AggregateId Intent → List (ProjectedIntent AggregateId Intent)
  iter intents = to_list intents.first ++ intents.rest

module _ {𝓐 : Aggregate} (𝓕 : Facade 𝓐) {Intent : Type 0} (n : ℕ)
    (intent_for : 𝓐.Event → Option Intent) where
  open 𝓐 use {AggregateId, Event}

  abbrev pub Failure : Type 0
  Failure = SagaError 𝓐.Error (SaveError 𝓕)

  -- An event's part in the loop.
  abbrev pub pushed :
      AggregateId
      → Version
      → Event
      → ProjectedIntents AggregateId Intent
      → Option (ProjectedIntents AggregateId Intent)
  pushed id current event intents = elim (intent_for event) [
    | none ↦ some intents
    | some intent ↦
        push n intents (record { saga_id = id; source_version = current; intent = intent })
  ]

  -- The version moves on if the iterator has a next event.
  abbrev pub moved : Version → List Event → Option Version
  moved current [] = some current
  moved current (event ∷ events) = Version.next current

  -- The loop of `react_and_save_inner`, with what it leaves in `current` and `intents`.
  unfoldable pub project :
      AggregateId
      → Version
      → List Event
      → ProjectedIntents AggregateId Intent
      → Outcome Failure (Version × ProjectedIntents AggregateId Intent)
  project id current [] intents = returned (ok (current, intents))
  project id current (event ∷ events) intents = elim (pushed id current event intents) [
    | none ↦ panicked
    | some intents' ↦ elim (moved current events) [
      | none ↦ returned (err version_overflow)
      | some current' ↦ project id current' events intents'
    ]
  ]

  abbrev pub reported :
      ℕ
      → Outcome Failure (Version × ProjectedIntents AggregateId Intent)
      → Outcome Failure (Reaction AggregateId Intent)
  reported position (returned (ok (version, intents))) =
      returned (ok (reacted version position intents))
  reported position (returned (err e)) = returned (err e)
  reported position panicked = panicked

  abbrev pub reaction :
      Version
      → Events Event
      → AggregateId
      → Outcome (SaveError 𝓕) ℕ
      → Outcome Failure (Reaction AggregateId Intent)
  reaction first produced id (returned (ok position)) =
      reported position (project id first (Events.iter produced) no_intents)
  reaction first produced id (returned (err e)) = returned (err (store e))
  reaction first produced id panicked = panicked

  abbrev pub refused : DecisionError 𝓐.Error → Failure
  refused (DecisionError.kernel cause) = kernel cause
  refused (DecisionError.domain cause) = react cause

  module _ {Upstream : Type 0}
      (decide : 𝓐.State → Upstream → Result 𝓐.Error (Option (Events Event))) where
    -- `react_and_save_inner`, and so `SagaRepository::react_and_save`.
    unfoldable pub react_and_save :
        AggregateRoot 𝓐
        → Upstream
        → Inner
        → Inner × (AggregateRoot 𝓐 × Outcome Failure (Reaction AggregateId Intent))
    react_and_save root event inner = elim (handle decide root event) [
      | err e ↦ (inner, (root, returned (err (refused e))))
      | ok decision ↦ elim decision [
        | none ↦ (inner, (root, returned (ok ignored)))
        | some produced ↦ elim (first_persisted_version root.version) [
          | none ↦ (inner, (root, returned (err version_overflow)))
          | some first ↦
              let (inner', (root', outcome)) = save 𝓕 root produced inner in
              (inner', (root', reaction first produced root'.id outcome))
        ]
      ]
    ]

    -- `SagaRepository::dispatch`, whose `load` polls its stream at most `fuel` times. The root is
    -- its own, and is dropped.
    unfoldable pub dispatch :
        ℕ
        → FromUtf8
        → BatchSize
        → AggregateId
        → Upstream
        → Inner
        → Inner × Outcome Failure (Reaction AggregateId Intent)
    dispatch fuel u size id event inner = elim (load 𝓕 fuel u size id inner) [
      | panicked ↦ (inner, panicked)
      | returned r ↦ elim r [
        | err e ↦ (inner, returned (err (store e)))
        | ok root ↦
            let (inner', (root', outcome)) = react_and_save root event inner in (inner', outcome)
      ]
    ]
