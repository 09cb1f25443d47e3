-- ===== src/InMemory/Repository/Execute.antt =====
-- What `execute` does on each of its ends.
use mnesis.Base.{ℕ, ◌≡◌, ◌∙◌, refl, ap, Option, none, some, inl, inr, Option-cases}
use mnesis.Base.Result.{Result, ok, err, Result-cases}
use mnesis.Kernel.Events.{Events}
use mnesis.Kernel.Aggregate.{Aggregate, AggregateRoot, handle}
use mnesis.Store.Value.{FromUtf8}
use mnesis.InMemory.Store.{Inner}
use mnesis.InMemory.Consistent.{IsConsistent}
use mnesis.InMemory.Repository.{
  Facade, Outcome, SaveError, Execution, ExecuteError, save, execute, execution, returned, panicked,
  executed, ignored,
}
use mnesis.InMemory.Repository.Encode.{IsLawful}
use mnesis.InMemory.Repository.Save.{IsSaveEffect, save_events_effect}

module _ (u : FromUtf8) {𝓐 : Aggregate} (𝓕 : Facade 𝓐) {Command : Type 0}
    (handler : 𝓐.State → Command → Result 𝓐.Error (Option (Events 𝓐.Event)))
    (root : AggregateRoot 𝓐) (command : Command) (inner : Inner) where
  -- An executed command was decided on the root's state, and its events, not others, are persisted
  -- and folded into the root. An ignored one was decided to do nothing, and like an error it leaves
  -- the store and the root alone. A panic does so too, or its events are persisted and the root is
  -- poisoned.
  abbrev pub IsExecuteEffect :
      Inner × (AggregateRoot 𝓐 × Outcome (ExecuteError 𝓕) (Execution 𝓕)) → Type 0
  IsExecuteEffect (inner', (root', returned (ok (executed pos decided)))) =
      (handle handler root command ≡ ok (some decided))
      × IsSaveEffect u 𝓕 root decided inner (inner', (root', returned (ok pos)))
  IsExecuteEffect (inner', (root', returned (ok ignored))) =
      (handle handler root command ≡ ok none) × (inner' ≡ inner) × (root' ≡ root)
  IsExecuteEffect (inner', (root', returned (err e))) = (inner' ≡ inner) × (root' ≡ root)
  IsExecuteEffect (inner', (root', panicked)) =
      (decided : Events 𝓐.Event) × (handle handler root command ≡ ok (some decided))
      × IsSaveEffect u 𝓕 root decided inner (inner', (root', panicked))

  execution-IsExecuteEffect :
      (decided : Events 𝓐.Event) (inner' : Inner) (root' : AggregateRoot 𝓐)
      (outcome : Outcome (SaveError 𝓕) ℕ)
      → handle handler root command ≡ ok (some decided)
      → IsSaveEffect u 𝓕 root decided inner (inner', (root', outcome))
      → IsExecuteEffect (inner', (root', execution 𝓕 decided outcome))
  execution-IsExecuteEffect decided inner' root' (returned (ok pos)) h e = (h, e)
  execution-IsExecuteEffect decided inner' root' (returned (err x)) h e = e
  execution-IsExecuteEffect decided inner' root' panicked h e = (decided, h, e)

  -- On a consistent store, for a codec and values that hold to the laws of their types, `execute`
  -- leaves the store consistent, and: a command is reported executed only with the events that the
  -- handler decided, when they are persisted at the head of the root's stream and folded into the
  -- root; a command is reported ignored only when the handler decided nothing; an ignored command
  -- and every error, of the decision, the kernel or the store, leave the store and the root as they
  -- were; a panic behind the decision leaves them so as well, or the events are persisted and the
  -- root is poisoned.
  pub execute_effect :
      IsLawful u 𝓕 (λ name. none)
      → IsConsistent u inner
      → IsConsistent u (execute 𝓕 handler root command inner).0
        × IsExecuteEffect (execute 𝓕 handler root command inner)
  unfolding execute
  execute_effect laws c = elim (Result-cases (handle handler root command)) [
    | inr (e, h) ↦ rw (h, execute) (c, (refl, refl))
    | inl (decision, h) ↦ elim (Option-cases decision) [
      | inl nothing ↦
          let decides : handle handler root command ≡ ok none = h ∙ ap ok nothing in
          rw (decides, execute) (c, (decides, refl, refl))
      | inr (decided, d) ↦
          let decides : handle handler root command ≡ ok (some decided) = h ∙ ap ok d in
          let (c', e) = save_events_effect u 𝓕 root decided inner (λ name. none) laws c in
          let (inner', (root', outcome)) = save 𝓕 root decided inner in
          rw (decides, execute)
            (c', execution-IsExecuteEffect decided inner' root' outcome decides e)
    ]
  ]
