-- ===== src/InMemory/Saga/Effect.antt =====
-- What a reaction does on each of its ends.
use mnesis.Base.{
  ℕ, suc, ◌+◌, ◌≤◌, ◌≡◌, ◌∙◌, refl, sym, ap, inl, inr, Option, none, some, arith, length,
  Option-cases,
}
use mathlib.Core.Path.{subst}
use mnesis.Base.Result.{Result, ok, err, Result-cases}
use mnesis.Kernel.Version.{Version}
use mnesis.Kernel.Events
use mnesis.Kernel.Events.{Events}
use mnesis.Kernel.Aggregate.{Aggregate, AggregateRoot, handle, version_or_zero}
use mnesis.Store.Value.{FromUtf8}
use mnesis.InMemory.Store.{Inner}
use mnesis.InMemory.Consistent.{IsConsistent}
use mnesis.InMemory.Repository.{
  Facade, Outcome, SaveError, returned, panicked, save, first_persisted_version,
}
use mnesis.InMemory.Repository.Encode.{IsLawful}
use mnesis.InMemory.Repository.Save.{IsSaveEffect, save_events_effect}
use mnesis.InMemory.Saga.{
  Reaction, ignored, reacted, no_intents, iter, Failure, reaction, reported, project,
  react_and_save,
}
use mnesis.InMemory.Saga.Intents.{intents_of, project_exact}

first_is :
    (o : Option Version) (first : Version)
    → first_persisted_version o ≡ some first
    → record { as_u64 = suc (version_or_zero o) } ≡ first
first_is none first h = ground arith
first_is (some v) first h =
    let n : suc v.as_u64 ≡ first.as_u64 = ground arith in λ i. record { as_u64 = n i }

ends_at : (v k : ℕ) → suc v + k ≡ v + (k + 1)
ends_at v k = omega arith

module _ (u : FromUtf8) {𝓐 : Aggregate} (𝓕 : Facade 𝓐) {Intent Upstream : Type 0} (n : ℕ)
    (intent_for : 𝓐.Event → Option Intent)
    (decide : 𝓐.State → Upstream → Result 𝓐.Error (Option (Events 𝓐.Event)))
    (root : AggregateRoot 𝓐) (event : Upstream) (inner : Inner) where
  abbrev pub IsReactionEffect :
      Inner × (AggregateRoot 𝓐 × Outcome (Failure 𝓕 n intent_for) (Reaction 𝓐.AggregateId Intent))
      → Type 0
  IsReactionEffect (inner', (root', returned (ok (reacted version position intents)))) =
      (produced : Events 𝓐.Event) × (handle decide root event ≡ ok (some produced))
      × IsSaveEffect u 𝓕 root produced inner (inner', (root', returned (ok position)))
      × (root'.version ≡ some version)
      × (iter intents
          ≡ intents_of intent_for root.id (suc (version_or_zero root.version))
              (Events.iter produced))
  IsReactionEffect (inner', (root', returned (ok ignored))) =
      (handle decide root event ≡ ok none) × (inner' ≡ inner) × (root' ≡ root)
  IsReactionEffect (inner', (root', returned (err e))) = (inner' ≡ inner) × (root' ≡ root)
  IsReactionEffect (inner', (root', panicked)) =
      (produced : Events 𝓐.Event) × (handle decide root event ≡ ok (some produced))
      × IsSaveEffect u 𝓕 root produced inner (inner', (root', panicked))

  reaction-IsReactionEffect :
      (produced : Events 𝓐.Event) (first : Version) (inner' : Inner) (root' : AggregateRoot 𝓐)
      (outcome : Outcome (SaveError 𝓕) ℕ)
      → handle decide root event ≡ ok (some produced)
      → first_persisted_version root.version ≡ some first
      → length produced.rest ≤ n
      → IsSaveEffect u 𝓕 root produced inner (inner', (root', outcome))
      → IsReactionEffect (inner', (root', reaction 𝓕 n intent_for first produced root'.id outcome))
  reaction-IsReactionEffect produced first inner' root' (returned (ok position)) h f room e =
      let (persisted, last, state, state', has, folds, is_committed) = e in
      let (intents, projects, all) =
        project_exact 𝓕 n intent_for root'.id (suc (version_or_zero root.version)) produced.first
          produced.rest no_intents (λ x. refl) (omega (arith, room))
          (omega (arith, persisted.fits)) in
      let projects' =
        ap (λ v. project 𝓕 n intent_for root'.id v (Events.iter produced) no_intents)
          (sym (first_is root.version first f))
        ∙ projects in
      let at : suc (version_or_zero root.version) + length produced.rest
          ≡ version_or_zero root.version + (length produced.rest + 1) =
        ends_at (version_or_zero root.version) (length produced.rest) in
      subst (λ x. IsReactionEffect (inner', (root', reported 𝓕 n intent_for position x)))
        (sym projects')
        (
          produced,
          h,
          e,
          ap (λ (r : AggregateRoot 𝓐). r.version) is_committed
              ∙ (λ i. some (record { as_u64 = sym at i })),
          all
              ∙ ap
                  (λ id.
                    intents_of intent_for id (suc (version_or_zero root.version))
                      (Events.iter produced))
                  (ap (λ (r : AggregateRoot 𝓐). r.id) is_committed),
        )
  reaction-IsReactionEffect produced first inner' root' (returned (err x)) h f room e = e
  reaction-IsReactionEffect produced first inner' root' panicked h f room e = (produced, h, e)

  -- On a consistent store, for a codec and values that hold to the laws of their types, and a
  -- reaction within the capacity of its type, `react_and_save` leaves the store consistent, and: a
  -- saga has reacted only with the events that its state decided, when they are persisted at the
  -- head of its stream and folded into its root, the version reported is that of the root, and the
  -- intents are exactly those of the produced events, in order, each pinned to the version at which
  -- its event was stored; an ignored event and every error leave the store and the root as they
  -- were, so no intent of a persisted event is lost to one; a panic does so too, or the events are
  -- persisted and the root is poisoned.
  pub react_and_save_effect :
      IsLawful u 𝓕 (λ name. none)
      → IsConsistent u inner
      → ((produced : Events 𝓐.Event)
          → handle decide root event ≡ ok (some produced)
          → length produced.rest ≤ n)
      → IsConsistent u (react_and_save 𝓕 n intent_for decide root event inner).0
        × IsReactionEffect (react_and_save 𝓕 n intent_for decide root event inner)
  unfolding react_and_save
  react_and_save_effect laws c room = elim (Result-cases (handle decide root event)) [
    | inr (e, h) ↦ rw (h, react_and_save) (c, (refl, refl))
    | inl (decision, h) ↦ elim (Option-cases decision) [
      | inl nothing ↦
          let decides : handle decide root event ≡ ok none = h ∙ ap ok nothing in
          rw (decides, react_and_save) (c, (decides, refl, refl))
      | inr (produced, d) ↦
          let decides : handle decide root event ≡ ok (some produced) = h ∙ ap ok d in
          elim (Option-cases (first_persisted_version root.version)) [
            | inl full ↦ rw (decides, full, react_and_save) (c, (refl, refl))
            | inr (first, f) ↦
                let (c', e) = save_events_effect u 𝓕 root produced inner (λ name. none) laws c in
                let (inner', (root', outcome)) = save 𝓕 root produced inner in
                rw (decides, f, react_and_save)
                  (
                    c',
                    reaction-IsReactionEffect produced first inner' root' outcome decides f
                        (room produced decides) e,
                  )
          ]
    ]
  ]
