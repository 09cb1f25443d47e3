-- ===== src/Kernel/Aggregate/Fold.antt =====
-- `fold_events` on its three outcomes, and the owned fold over a batch in two parts.
use mnesis.Base.{◌≡◌, none, some, List, [], ◌∷◌, ◌++◌, arith, Option-cases, inl, inr}
use mnesis.Base.Result.{err}
use mnesis.Kernel.Aggregate.{
  Aggregate, AggregateRoot, KernelError, returned, panicked, done, apply_all, fold_events,
}

module _ {𝓐 : Aggregate} where
  open 𝓐 use {State, Event}

  pub fold_poisoned :
      (root : AggregateRoot 𝓐) (events : List Event)
      → root.state ≡ none
      → fold_events root events ≡ (root, returned (err KernelError.poisoned_aggregate))
  unfolding fold_events
  fold_poisoned root events h = ground arith

  pub fold_done :
      (root : AggregateRoot 𝓐) (events : List Event) (s s' : State)
      → root.state ≡ some s
      → apply_all 𝓐 s events ≡ some s'
      → fold_events root events ≡ (record root { state = some s' }, done)
  unfolding fold_events
  fold_done root events s s' h a = ground arith

  pub fold_panics :
      (root : AggregateRoot 𝓐) (events : List Event) (s : State)
      → root.state ≡ some s
      → apply_all 𝓐 s events ≡ none
      → fold_events root events ≡ (record root { state = none }, panicked)
  unfolding fold_events
  fold_panics root events s h a = ground arith

-- Folding a batch in two parts is folding it whole, panics included.
pub apply_all-append :
    (𝓐 : Aggregate) (s : 𝓐.State) (es fs : List 𝓐.Event) (s' : 𝓐.State)
    → apply_all 𝓐 s es ≡ some s'
    → apply_all 𝓐 s (es ++ fs) ≡ apply_all 𝓐 s' fs
apply_all-append 𝓐 s [] fs s' h = ground arith
apply_all-append 𝓐 s (e ∷ es) fs s' h = elim (Option-cases (𝓐.apply s e)) [
  | inl p ↦ ground arith
  | inr (t, p) ↦ ground (arith, apply_all-append 𝓐 t es fs s')
]
