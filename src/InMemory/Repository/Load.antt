-- ===== src/InMemory/Repository/Load.antt =====
-- `load` behind `save`: the root that is read back.
use mnesis.Base.{
  ℕ, suc, ◌+◌, ◌≡◌, ◌∙◌, refl, sym, ap, List, [], ◌∷◌, ◌++◌, map, arith, ◌⊎◌, inl, inr,
}
use mnesis.Base.Result.{ok, err, Result-cases}
use mnesis.Kernel.Version.{Version}
use mnesis.Kernel.Aggregate
use mnesis.Kernel.Aggregate.{
  Aggregate, AggregateRoot, KernelError, Reply, done, replay_checks, fold_events, replay, rehydrate,
  version_or_zero,
}
use mnesis.Kernel.Aggregate.Replay.{stamped}
use mnesis.Store.Value.{FromUtf8}
use mnesis.Store.Envelope.{PendingEnvelope}
use mnesis.Store.Envelope.Persisted.{
  PersistedEnvelope, event_type_value, payload_value, from_persisted,
}
use mnesis.InMemory.Frame.{StoredFrame, frame_to_envelope, Holds}
use mnesis.InMemory.Stage.{AllHold}
use mnesis.InMemory.Read.{Item}
use mnesis.InMemory.Repository.{
  Facade, Outcome, SaveError, StoreError, replay_items, returned, panicked,
}
use mnesis.InMemory.Repository.Encode.{IsEncoded, AllEncoded}

-- The codec's round trip: an envelope that carries what the codec wrote for an event, under the
-- name of the event, decodes to the event.
pub record IsCodec {𝓐 : Aggregate} (𝓕 : Facade 𝓐) : Type 0 where
  pub decodes :
      (event : 𝓐.Event) (p : PersistedEnvelope)
      → 𝓕.encode event ≡ ok (payload_value p).bytes
      → (event_type_value p).bytes ≡ 𝓕.name event
      → 𝓕.decode p ≡ ok event

Reply-cases :
    (r : Reply (Unit {0}))
    → (r ≡ done)
      ⊎ ((r ≡ Aggregate.panicked) ⊎ ((e : KernelError) × (r ≡ Aggregate.returned (err e))))
Reply-cases (Aggregate.returned (ok t)) = inl refl
Reply-cases (Aggregate.returned (err e)) = inr (inr (e, refl))
Reply-cases Aggregate.panicked = inr (inl refl)

module _ (u : FromUtf8) {𝓐 : Aggregate} (𝓕 : Facade 𝓐) where
  open 𝓐 use {Event}

  -- The outcome of a load that has folded the whole history.
  abbrev outcome_of : AggregateRoot 𝓐 × Reply (Unit {0}) → Outcome (SaveError 𝓕) (AggregateRoot 𝓐)
  outcome_of (root, Aggregate.returned (ok t)) = returned (ok root)
  outcome_of (root, Aggregate.returned (err e)) = returned (err (StoreError.kernel e))
  outcome_of (root, Aggregate.panicked) = panicked

  -- An item that decodes and replays leaves the rest to be replayed.
  pub replay_items_step :
      (root mid : AggregateRoot 𝓐) (env : PersistedEnvelope) (event : Event) (items : List Item)
      → 𝓕.decode env ≡ ok event
      → replay root env.version event ≡ (mid, done)
      → replay_items 𝓕 root (ok env ∷ items) ≡ replay_items 𝓕 mid items
  unfolding replay_items
  replay_items_step root mid env event items d r =
      rw (d, r, replay_items) (ap (λ x. replay_items 𝓕 x.0 items) r)

  -- A load that succeeds has decoded and replayed its first item.
  pub replay_items_inversion :
      (root root' : AggregateRoot 𝓐) (env : PersistedEnvelope) (items : List Item)
      → replay_items 𝓕 root (ok env ∷ items) ≡ returned (ok root')
      → (event : Event) × (mid : AggregateRoot 𝓐) × (𝓕.decode env ≡ ok event)
        × (replay root env.version event ≡ (mid, done))
  unfolding replay_items
  replay_items_inversion root root' env items h = elim (Result-cases (𝓕.decode env)) [
    | inr (e, d) ↦ absurd (ground arith)
    | inl (event, d) ↦ elim (Reply-cases (replay root env.version event).1) [
      | inl ended ↦ (
        event,
        (replay root env.version event).0,
        d,
        λ i. ((replay root env.version event).0, ended i),
      )
      | inr (inl unwound) ↦ absurd (ground arith)
      | inr (inr (e, failed)) ↦ absurd (ground arith)
    ]
  ]

  pub replay_items-append :
      (xs ys : List Item) (root root' : AggregateRoot 𝓐)
      → replay_items 𝓕 root xs ≡ returned (ok root')
      → replay_items 𝓕 root (xs ++ ys) ≡ replay_items 𝓕 root' ys
  replay_items-append [] ys root root' h =
      let same : root ≡ root' = unfold replay_items in ground arith in
      ap (λ r. replay_items 𝓕 r ys) same
  replay_items-append (err e ∷ xs) ys root root' h = absurd (unfold replay_items in ground arith)
  replay_items-append (ok env ∷ xs) ys root root' h =
      let (event, mid, d, r) = replay_items_inversion root root' env xs h in
      replay_items_step root mid env event (xs ++ ys) d r
      ∙ replay_items-append xs ys mid root' (sym (replay_items_step root mid env event xs d r) ∙ h)

  replay-id :
      (root : AggregateRoot 𝓐) (version : Version) (event : Event)
      → (replay root version event).0.id ≡ root.id
  unfolding replay replay_checks fold_events
  replay-id root version event = ground arith

  -- A load keeps the id of its root.
  pub replay_items-id :
      (xs : List Item) (root root' : AggregateRoot 𝓐)
      → replay_items 𝓕 root xs ≡ returned (ok root')
      → root'.id ≡ root.id
  replay_items-id [] root root' h = unfold replay_items in ground arith
  replay_items-id (err e ∷ xs) root root' h = absurd (unfold replay_items in ground arith)
  replay_items-id (ok env ∷ xs) root root' h =
      let (event, mid, d, r) = replay_items_inversion root root' env xs h in
      replay_items-id xs mid root' (sym (replay_items_step root mid env event xs d r) ∙ h)
      ∙ ap (λ x. x.0.id) (sym r)
      ∙ replay-id root env.version event

  rehydrate_inversion :
      (root root' : AggregateRoot 𝓐) (version : Version) (event : Event)
      (history : List (Version × Event))
      → rehydrate root ((version, event) ∷ history) ≡ (root', done)
      → (mid : AggregateRoot 𝓐) × (replay root version event ≡ (mid, done))
        × (rehydrate mid history ≡ (root', done))
  unfolding rehydrate
  rehydrate_inversion root root' version event history h =
      elim (Reply-cases (replay root version event).1) [
        | inl ended ↦ (
          (replay root version event).0,
          λ i. ((replay root version event).0, ended i),
          ground (arith, ended),
        )
        | inr (inl unwound) ↦ absurd (ground arith)
        | inr (inr (e, failed)) ↦ absurd (ground arith)
      ]

  -- The persisted form of a held envelope has its version, and decodes to its event.
  Holds-decodes :
      (codec : IsCodec 𝓕) (f : StoredFrame) (env : PendingEnvelope) (v : ℕ) (event : Event)
      (h : Holds u f env)
      → IsEncoded u 𝓕 v event env
      → (h.persisted.version ≡ record { as_u64 = v }) × (𝓕.decode h.persisted ≡ ok event)
  Holds-decodes codec f env v event h c =
      let same : from_persisted h.persisted ≡ env = h.same in
      let version : h.persisted.version ≡ env.version =
        unfold from_persisted in ap (λ (x : PendingEnvelope). x.version) same in
      let name : (event_type_value h.persisted).bytes ≡ env.event_type.bytes =
        unfold from_persisted in ap (λ (x : PendingEnvelope). x.event_type.bytes) same in
      let bytes : (payload_value h.persisted).bytes ≡ env.payload.bytes =
        unfold from_persisted in ap (λ (x : PendingEnvelope). x.payload.bytes) same in
      (
        version ∙ (λ i. record { as_u64 = c.at_version i }),
        codec.decodes event h.persisted (c.payload ∙ ap ok (sym bytes)) (name ∙ c.event_type),
      )

  pub suc_of : (v : ℕ) → suc v ≡ v + 1
  suc_of v = omega arith

  -- The items of frames that hold encoded events replay as the stamped events do.
  pub replay_items-rehydrate :
      (IsCodec 𝓕)
      → (new : List StoredFrame) (envs : List PendingEnvelope) (events : List Event) (v : ℕ)
        (root root' : AggregateRoot 𝓐)
      → AllHold u new envs
      → AllEncoded u 𝓕 v events envs
      → rehydrate root (stamped v events) ≡ (root', done)
      → replay_items 𝓕 root (map (frame_to_envelope u) new) ≡ returned (ok root')
  replay_items-rehydrate codec [] [] [] v root root' h c r =
      unfold replay_items rehydrate in ground arith
  replay_items-rehydrate codec [] [] (x ∷ es) v root root' h c r = elim c [ ]
  replay_items-rehydrate codec [] (e ∷ envs) es v root root' h c r = elim h [ ]
  replay_items-rehydrate codec (f ∷ new) [] es v root root' h c r = elim h [ ]
  replay_items-rehydrate codec (f ∷ new) (e ∷ envs) [] v root root' h c r = elim c [ ]
  replay_items-rehydrate codec (f ∷ new) (e ∷ envs) (x ∷ es) v root root' h c r =
      let (version, d) = Holds-decodes codec f e v x h.0 c.0 in
      let (mid, first, rest) =
        rehydrate_inversion root root' (record { as_u64 = v }) x (stamped (v + 1) es) r in
      let first' : replay root h.0.persisted.version x ≡ (mid, done) = rw version first in
      rw h.0.readable (
        replay_items_step root mid h.0.persisted x (map (frame_to_envelope u) new) d first'
        ∙ replay_items-rehydrate codec new envs es (suc v) mid root' h.1 c.1 (rw (suc_of v) rest))
