-- ===== src/InMemory/Snapshot/Sound.antt =====
-- The snapshots that are found, against the states of the events up to their versions.
use mnesis.Base.{
  ℕ, ◌<◌, ◌≡◌, ◌⊎◌, ◌∙◌, sym, ap, inl, inr, some, List, map, arith, if◌then◌else◌, length, take,
  length-map, take-all, Option-cases, Bool-cases,
}
use mathlib.Core.Path.{subst}
use mnesis.Base.Words.{u64_max}
use mnesis.Base.Maps.{get, get-insert}
use mnesis.Base.Bytes.{bytes_eq, bytes_eq→eq}
use mnesis.Base.Result.{Result, ok}
use mnesis.Kernel.Version.{Version}
use mnesis.Kernel.Aggregate.{Aggregate, AggregateRoot, new_root, version_or_zero}
use mnesis.Store.Value.{FromUtf8}
use mnesis.InMemory.Frame.{frame_to_envelope}
use mnesis.InMemory.Store.{Inner}
use mnesis.InMemory.Consistent.{IsConsistent}
use mnesis.InMemory.Read.{BatchSize, batch_size_new}
use mnesis.InMemory.Repository.{Facade, replay_items, load, returned}
use mnesis.InMemory.Repository.Load.{replay_items-id}
use mnesis.InMemory.Repository.Reload.{load-rows}
use mnesis.InMemory.Snapshot.{
  SnapshotStore, Policy, Hydrated, Infallible, found, hydrated_slot, in_memory_snapshots,
  try_save_snapshot,
}
use mnesis.InMemory.Snapshot.Restart.{replay_items-length}
use mnesis.InMemory.Snapshot.Load.{rows_for, IsGenuine}

-- What is found behind a commit, whether it failed or not, was committed or was found before.
pub record IsSlotStore {State : Type 0} (𝓢 : SnapshotStore State) : Type 0 where
  pub replaces :
      (id j : List ℕ) (schema : ℕ) (version at : Version) (state s : State) (world : 𝓢.World)
      → 𝓢.hydrate j schema (𝓢.commit id schema version state world).0 ≡ ok (found at s)
      → ((id ≡ j) × (version ≡ at) × (state ≡ s)) ⊎ (𝓢.hydrate j schema world ≡ ok (found at s))

pub taken :
    {State : Type 0} (schema : ℕ) (version at : Version) (state s : State)
    → ◌≡◌ {A = Result Infallible (Hydrated State)}
        (ok (hydrated_slot schema (some (schema, version, state))))
        (ok (found at s))
    → (version ≡ at) × (state ≡ s)
taken schema version at state s h = (ground arith, ground arith)

pub in_memory_snapshots-IsSlotStore : (State : Type 0) → IsSlotStore (in_memory_snapshots State)
in_memory_snapshots-IsSlotStore State = record {
  replaces = λ id j schema version at state s slots h.
      let reads = get-insert id j (schema, version, state) slots in
      elim (Bool-cases (bytes_eq id j)) [
        | inr other ↦ inr (
            sym (
              ap (λ o. ok (hydrated_slot schema o))
                (reads ∙ ap (λ b. if b then some (schema, version, state) else get j slots) other))
            ∙ h)
        | inl same ↦
            let (v, t) = taken schema version at state s (
              sym (
                ap (λ o. ok (hydrated_slot schema o))
                  (reads ∙ ap (λ b. if b then some (schema, version, state) else get j slots) same))
              ∙ h) in
            inl (bytes_eq→eq id j same, v, t)
      ];
}

module _ (u : FromUtf8) {𝓐 : Aggregate} (𝓕 : Facade 𝓐) where
  module _ (size fuel : ℕ) (batch : BatchSize) (sized : batch_size_new size ≡ some batch) where
    pub load-IsGenuine :
        (id : 𝓐.AggregateId) (inner : Inner) (root : AggregateRoot 𝓐) (version : Version)
        (state : 𝓐.State)
        → IsConsistent u inner
        → length (rows_for u 𝓕 id inner) < u64_max
        → length (rows_for u 𝓕 id inner) < fuel
        → load 𝓕 fuel u batch id inner ≡ returned (ok root)
        → root.version ≡ some version
        → root.state ≡ some state
        → (root.id ≡ id) × IsGenuine u 𝓕 id version state inner
    load-IsGenuine id inner root version state c few enough loaded at has =
        let rows = rows_for u 𝓕 id inner in
        let frames = frame_to_envelope u in
        let whole : replay_items 𝓕 (new_root id) (map frames rows) ≡ returned (ok root) =
          sym (load-rows u 𝓕 size fuel batch sized id inner c few enough) ∙ loaded in
        let all : take version.as_u64 rows ≡ rows = take-all version.as_u64 rows (
          omega (
            arith,
            ap version_or_zero at,
            replay_items-length u 𝓕 (map frames rows) (new_root id) root whole,
            length-map rows frames,
          )) in
        (
          replay_items-id u 𝓕 (map frames rows) (new_root id) root whole,
          (root, ap (λ l. replay_items 𝓕 (new_root id) (map frames l)) all ∙ whole, at, has),
        )

  module _ (𝓢 : SnapshotStore 𝓐.State) (policy : Policy) where
    -- Every snapshot that is found is genuine.
    abbrev pub IsSound : 𝓢.World → Inner → Type 0
    IsSound world inner =
        (id : 𝓐.AggregateId) (version : Version) (state : 𝓐.State)
        → 𝓢.hydrate (𝓕.id_bytes id) policy.schema_version world ≡ ok (found version state)
        → IsGenuine u 𝓕 id version state inner

  module _ (𝓢 : SnapshotStore 𝓐.State) (policy : Policy) (slots : IsSlotStore 𝓢)
      (injective : (a b : 𝓐.AggregateId) → 𝓕.id_bytes a ≡ 𝓕.id_bytes b → a ≡ b) where
    pub try_save_snapshot-IsSound :
        (root : AggregateRoot 𝓐) (version : Version) (world : 𝓢.World) (inner : Inner)
        → IsSound 𝓢 policy world inner
        → ((state : 𝓐.State) → root.state ≡ some state → IsGenuine u 𝓕 root.id version state inner)
        → IsSound 𝓢 policy (try_save_snapshot 𝓕 𝓢 policy root version world) inner
    unfolding try_save_snapshot
    try_save_snapshot-IsSound root version world inner sound own = elim (Option-cases root.state) [
      | inl e ↦ rw (e, try_save_snapshot) sound
      | inr (state, e) ↦
          rw (e, try_save_snapshot)
            λ id at s h.
              elim (slots.replaces (𝓕.id_bytes root.id) (𝓕.id_bytes id) policy.schema_version
                version at state s world h) [
                  | inr before ↦ sound id at s before
                  | inl (key, v, t) ↦
                      subst (λ x. IsGenuine u 𝓕 x at s inner) (injective root.id id key)
                        (subst (λ x. IsGenuine u 𝓕 root.id x s inner) v
                          (subst (λ x. IsGenuine u 𝓕 root.id version x inner) t (own state e)))
                ]
    ]
