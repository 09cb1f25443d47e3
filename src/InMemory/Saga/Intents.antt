-- ===== src/InMemory/Saga/Intents.antt =====
-- The intents of a reaction, and the versions they are pinned to.
use mnesis.Base.{
  ℕ, suc, ◌+◌, ◌≤◌, ◌≡◌, ◌∙◌, refl, sym, ap, Option, none, some, List, [], ◌∷◌, ◌++◌, arith, length,
  length-append, Option-cases, inl, inr,
}
use mathlib.Core.List.{append-nil, append_assoc}
use mnesis.Base.Words.{u64_max}
use mnesis.Base.Result.{ok}
use mnesis.Kernel.Version
use mnesis.Kernel.Version.{Version}
use mnesis.Kernel.Aggregate.{Aggregate}
use mnesis.InMemory.Repository.{Facade, returned}
use mnesis.InMemory.Saga.{ProjectedIntent, ProjectedIntents, push, iter, pushed, moved, project}

module _ {AggregateId Event Intent : Type 0} (intent_for : Event → Option Intent) where
  -- The intents of consecutive events, the first of them at version `v`.
  abbrev pub intents_of : AggregateId → ℕ → List Event → List (ProjectedIntent AggregateId Intent)
  intents_of id v [] = []
  intents_of id v (event ∷ events) = elim (intent_for event) [
    | none ↦ intents_of id (suc v) events
    | some intent ↦
        record { saga_id = id; source_version = record { as_u64 = v }; intent = intent }
        ∷ intents_of id (suc v) events
  ]

plus_zero : (v : ℕ) → v ≡ v + 0
plus_zero v = omega arith

shifted : (v k : ℕ) → suc v + k ≡ v + suc k
shifted v k = omega arith

-- The first slot fills before the rest.
abbrev pub IsPacked : {AggregateId Intent : Type 0} → ProjectedIntents AggregateId Intent → Type 0
IsPacked intents = intents.first ≡ none → intents.rest ≡ []

abbrev packed_with :
    {AggregateId Intent : Type 0}
    → Option (ProjectedIntent AggregateId Intent)
    → List (ProjectedIntent AggregateId Intent)
    → ProjectedIntents AggregateId Intent
packed_with first rest = record { first = first; rest = rest }

module _ {AggregateId Intent : Type 0} (n : ℕ) (intent : ProjectedIntent AggregateId Intent) where
  push-iter :
      (first : Option (ProjectedIntent AggregateId Intent))
      (rest : List (ProjectedIntent AggregateId Intent))
      → let intents = packed_with first rest in
        IsPacked intents
        → length (iter intents) ≤ n
        → (intents' : ProjectedIntents AggregateId Intent) × (push n intents intent ≡ some intents')
          × (iter intents' ≡ iter intents ++ intent ∷ [])
          × IsPacked intents'
  unfolding push
  push-iter none rest packed fits = (
    record { first = some intent; rest = rest },
    refl,
    ap (λ r. intent ∷ r) (packed refl) ∙ ap (λ r. r ++ intent ∷ []) (sym (packed refl)),
    λ h. absurd cc,
  )
  push-iter (some i) rest packed fits =
      (record { first = some i; rest = rest ++ intent ∷ [] }, ground arith, refl, λ h. absurd cc)

module _ {𝓐 : Aggregate} (𝓕 : Facade 𝓐) {Intent : Type 0} (n : ℕ)
    (intent_for : 𝓐.Event → Option Intent) where
  pushed_exact :
      (id : 𝓐.AggregateId) (v : ℕ) (event : 𝓐.Event)
      (intents : ProjectedIntents 𝓐.AggregateId Intent)
      → IsPacked intents
      → length (iter intents) ≤ n
      → (intents' : ProjectedIntents 𝓐.AggregateId Intent) × (pushed 𝓕 n intent_for id
            (record { as_u64 = v })
            event
            intents
          ≡ some intents')
        × (iter intents' ≡ iter intents ++ intents_of intent_for id v (event ∷ []))
        × IsPacked intents'
        × (length (iter intents') ≤ length (iter intents) + 1)
  pushed_exact id v event intents packed fits = elim (Option-cases (intent_for event)) [
    | inl none_ ↦ (
      intents,
      rw (none_, pushed) refl,
      rw (none_, intents_of) (sym (append-nil (iter intents))),
      packed,
      omega arith,
    )
    | inr (intent, e) ↦
        let (intents', pushes, grows, packed') =
          push-iter n
            (record { saga_id = id; source_version = record { as_u64 = v }; intent = intent })
            intents.first intents.rest packed fits in
        (
          intents',
          rw (e, pushed) pushes,
          rw (e, intents_of) grows,
          packed',
          rw grows (
              omega (
                arith,
                length-append (iter intents) (
                    record { saga_id = id; source_version = record { as_u64 = v }; intent = intent }
                    ∷ []),
              )),
        )
  ]

  intents_of-cons :
      (id : 𝓐.AggregateId) (v : ℕ) (event : 𝓐.Event) (events : List 𝓐.Event)
      → intents_of intent_for id v (event ∷ events)
        ≡ intents_of intent_for id v (event ∷ []) ++ intents_of intent_for id (suc v) events
  intents_of-cons id v event events = elim (Option-cases (intent_for event)) [
    | inl none_ ↦ rw (none_, intents_of) refl
    | inr (intent, e) ↦ rw (e, intents_of) refl
  ]

  project-cons :
      (id : 𝓐.AggregateId) (current current' : Version) (event : 𝓐.Event) (events : List 𝓐.Event)
      (intents mid : ProjectedIntents 𝓐.AggregateId Intent)
      → pushed 𝓕 n intent_for id current event intents ≡ some mid
      → moved 𝓕 n intent_for current events ≡ some current'
      → project 𝓕 n intent_for id current (event ∷ events) intents
        ≡ project 𝓕 n intent_for id current' events mid
  unfolding project
  project-cons id current current' event events intents mid pushes moves =
      rw (pushes, moves, project) refl

  -- The loop neither panics nor overflows, and projects the intents of its events.
  pub project_exact :
      (id : 𝓐.AggregateId) (v : ℕ) (event : 𝓐.Event) (events : List 𝓐.Event)
      (intents : ProjectedIntents 𝓐.AggregateId Intent)
      → IsPacked intents
      → length (iter intents) + length events ≤ n
      → v + length events ≤ u64_max
      → (intents' : ProjectedIntents 𝓐.AggregateId Intent) × (project 𝓕 n intent_for id
            (record { as_u64 = v })
            (event ∷ events)
            intents
          ≡ returned (ok (record { as_u64 = v + length events }, intents')))
        × (iter intents' ≡ iter intents ++ intents_of intent_for id v (event ∷ events))
  unfolding project
  project_exact id v event [] intents packed fits top =
      let (intents', pushes, grows, _, _) =
        pushed_exact id v event intents packed (omega (arith, fits)) in
      (
        intents',
        project-cons id (record { as_u64 = v }) (record { as_u64 = v }) event [] intents intents'
              pushes refl
            ∙ ap (λ x. returned (ok (record { as_u64 = x }, intents'))) (plus_zero v),
        grows,
      )
  project_exact id v event (next ∷ events) intents packed fits top =
      let (mid, pushes, grows, packed', small) =
        pushed_exact id v event intents packed (omega (arith, fits)) in
      let (intents', projects, grows') =
        project_exact id (suc v) next events mid packed' (omega (arith, fits, small))
          (omega (arith, top)) in
      let goes : Version.next (record { as_u64 = v }) ≡ some (record { as_u64 = suc v }) =
        ground arith in
      (
        intents',
        project-cons id (record { as_u64 = v }) (record { as_u64 = suc v }) event (next ∷ events)
              intents mid pushes goes
            ∙ projects
            ∙ ap (λ x. returned (ok (record { as_u64 = x }, intents'))) (shifted v (length events)),
        grows'
            ∙ ap (λ x. x ++ intents_of intent_for id (suc v) (next ∷ events)) grows
            ∙ append_assoc (iter intents) (intents_of intent_for id v (event ∷ []))
                (intents_of intent_for id (suc v) (next ∷ events))
            ∙ ap (λ x. iter intents ++ x) (sym (intents_of-cons id v event (next ∷ events))),
      )
