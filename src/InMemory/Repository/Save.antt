-- ===== src/InMemory/Repository/Save.antt =====
-- What `save_events` leaves behind, on each of its ends.
use mnesis.Base.{
  ℕ, suc, ◌+◌, ◌≤◌, ◌≡◌, refl, sym, ap, Option, none, some, List, ◌++◌, arith, length, ◌⊎◌, inl,
  inr, Option-cases, if◌then◌else◌,
}
use mnesis.Base.Words.{u64_max}
use mnesis.Base.Result.{ok, err, Result-cases}
use mnesis.Kernel.Version.{Version}
use mnesis.Kernel.Events
use mnesis.Kernel.Events.{Events}
use mnesis.Kernel.Aggregate
use mnesis.Kernel.Aggregate.{
  Aggregate, AggregateRoot, commit_version, commit_persisted, fold_events, version_or_zero,
  apply_all,
}
use mnesis.Kernel.Aggregate.Fold.{fold_done, fold_panics}
use mnesis.Store.Value.{FromUtf8}
use mnesis.Store.Envelope.{PendingEnvelope, batch_iter}
use mnesis.Store.Append.{key_eq, actual_version}
use mnesis.Store.Append.{StreamKey}
use mnesis.InMemory.Streams.{rows_of}
use mnesis.InMemory.Frame.{StoredFrame}
use mnesis.InMemory.Store.{Inner, append}
use mnesis.InMemory.Stage.{AllHold}
use mnesis.InMemory.Consistent.{IsConsistent}
use mnesis.InMemory.Append.{append_effect, append-IsConsistent}
use mnesis.InMemory.Repository.{
  Facade, Outcome, Fault, SaveError, key_of, prepare, save_events, returned, panicked, fails,
  panics, saved, fault,
}
use mnesis.InMemory.Repository.Encode.{
  SchemaLookup, IsLawful, AllEncoded, prepare-AllEncoded, AllEncoded-AllPending,
}

module _ (u : FromUtf8) {𝓐 : Aggregate} (𝓕 : Facade 𝓐) (root : AggregateRoot 𝓐)
    (events : Events 𝓐.Event) (inner : Inner) where
  -- The events stand, readable, behind the rows of the root's stream, which was at the root's
  -- version; the other streams are as they were.
  pub record IsPersisted (inner' : Inner) : Type 0 where
    pub head : root.version ≡ actual_version (length (rows_of (key_of 𝓕 root) inner.streams))
    pub fits : version_or_zero root.version + Events.len events ≤ u64_max
    pub envs : List PendingEnvelope
    pub encoded : AllEncoded u 𝓕 (suc (version_or_zero root.version)) (Events.iter events) envs
    pub new : List StoredFrame
    pub held : AllHold u new envs
    pub grown :
        (j : StreamKey)
        → rows_of j inner'.streams ≡ (
            if key_eq (key_of 𝓕 root) j
            then rows_of (key_of 𝓕 root) inner.streams ++ new
            else rows_of j inner.streams)

  abbrev pub committed : Option 𝓐.State → AggregateRoot 𝓐
  committed state = record root {
    state = state;
    version = some (record { as_u64 = version_or_zero root.version + Events.len events });
  }

  -- A position is returned behind a persisted batch that the root has folded; an error leaves the
  -- store and the root alone; a panic does so too, or it is one of `apply` behind a persisted
  -- batch.
  abbrev pub IsSaveEffect : Inner × (AggregateRoot 𝓐 × Outcome (SaveError 𝓕) ℕ) → Type 0
  IsSaveEffect (inner', (root', returned (ok pos))) =
      IsPersisted inner'
      × (suc pos ≡ inner'.next_global_seq)
      × (s : 𝓐.State) × (s' : 𝓐.State) × (root.state ≡ some s)
      × (apply_all 𝓐 s (Events.iter events) ≡ some s')
      × (root' ≡ committed (some s'))
  IsSaveEffect (inner', (root', returned (err e))) = (inner' ≡ inner) × (root' ≡ root)
  IsSaveEffect (inner', (root', panicked)) =
      ((inner' ≡ inner) × (root' ≡ root)) ⊎ (IsPersisted inner' × (root' ≡ committed none))

  commit_version_shape :
      (ending : Version)
      → commit_version root events ≡ ok ending
      → ((s : 𝓐.State) × (root.state ≡ some s))
        × (version_or_zero root.version + Events.len events ≤ u64_max)
        × (record { as_u64 = version_or_zero root.version + Events.len events } ≡ ending)
  unfolding commit_version
  commit_version_shape ending h = elim (Option-cases root.state) [
    | inl e ↦ absurd (ground arith)
    | inr (s, e) ↦ ((s, e), ground arith, ground arith)
  ]

  -- Behind a successful append.
  commit-IsSaveEffect :
      (inner' : Inner) (position : ℕ) (ending : Version)
      → commit_version root events ≡ ok ending
      → IsPersisted inner'
      → suc position ≡ inner'.next_global_seq
      → IsSaveEffect (
        inner',
        ((commit_persisted root events).0, saved 𝓕 position (commit_persisted root events).1),
      )
  commit-IsSaveEffect inner' position ending c p at =
      let ((s, usable), fits, same) = commit_version_shape ending c in
      elim (Option-cases (apply_all 𝓐 s (Events.iter events))) [
        | inl e ↦
            let folds =
              fold_panics (record root { version = some ending }) (Events.iter events) s usable e in
            let ends : commit_persisted root events
                ≡ (record root { state = none; version = some ending }, Aggregate.panicked) =
              unfold commit_persisted in rw (c, commit_persisted) folds in
            rw ends (inr (p, ap (λ v. record root { state = none; version = some v }) (sym same)))
        | inr (s', e) ↦
            let folds =
              fold_done (record root { version = some ending }) (Events.iter events) s s' usable
                e in
            let ends : commit_persisted root events
                ≡ (record root { state = some s'; version = some ending }, Aggregate.done) =
              unfold commit_persisted in rw (c, commit_persisted) folds in
            let counted = ap (λ v. record root { state = some s'; version = some v }) (sym same) in
            rw ends (p, at, s, s', usable, e, counted)
      ]

  fault-IsSaveEffect : (f : Fault (SaveError 𝓕)) → IsSaveEffect (inner, (root, fault 𝓕 f))
  fault-IsSaveEffect (fails e) = (refl, refl)
  fault-IsSaveEffect panics = inl (refl, refl)

  -- On a consistent store, for any root, events and lookup that hold to the laws of their types,
  -- `save_events` leaves the store consistent, and: if it returns a position, then the root stood
  -- at the head of its stream, the encoded events are readable behind its rows and no other stream
  -- has changed, the position is the last one given, and the root has folded the events and counted
  -- them; if it returns an error, then neither the store nor the root has changed; and if it
  -- panics, then either nothing has changed, or the batch is persisted and the root is poisoned at
  -- its version.
  pub save_events_effect :
      (current : SchemaLookup)
      → IsLawful u 𝓕 current
      → IsConsistent u inner
      → IsConsistent u (save_events 𝓕 current root events inner).0
        × IsSaveEffect (save_events 𝓕 current root events inner)
  unfolding save_events
  save_events_effect current laws c = elim (Result-cases (prepare 𝓕 current root events)) [
    | inr (f, p) ↦ rw (p, save_events) (c, fault-IsSaveEffect f)
    | inl (batch, p) ↦
        let ((ending, v), coded) = prepare-AllEncoded u 𝓕 current laws root events batch p in
        let pending =
          AllEncoded-AllPending u 𝓕 (suc (version_or_zero root.version)) (Events.iter events)
            (batch_iter batch) coded in
        let key = key_of 𝓕 root in
        let after = append key root.version batch inner in
        let kept = append-IsConsistent u key root.version batch inner pending c in
        let (good, bad) = append_effect u key root.version batch inner after.0 pending c in
        elim (Result-cases after.1) [
          | inr (e, a) ↦ rw (p, a, save_events) (kept, (bad e (λ i. (after.0, a i)), refl))
          | inl (pos, a) ↦
              let (head, (new, held, grown), last, _, _) = good pos (λ i. (after.0, a i)) in
              rw (p, a, save_events)
                (
                  kept,
                  commit-IsSaveEffect after.0 pos ending v
                      (record {
                        head = head;
                        fits = (commit_version_shape ending v).1;
                        envs = batch_iter batch;
                        encoded = coded;
                        new = new;
                        held = held;
                        grown = grown;
                      })
                      last,
                )
        ]
  ]
