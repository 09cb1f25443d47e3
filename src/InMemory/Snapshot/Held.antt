-- ===== src/InMemory/Snapshot/Held.antt =====
-- The state that a root holds, against the events of its stream up to its version, while streams
-- grow.
use mnesis.Base.{
  ℕ, zero, suc, ◌+◌, ◌≤◌, ◌≡◌, ◌∙◌, refl, sym, ap, inl, inr, Option, some, List, [], ◌∷◌, ◌++◌, map,
  arith, length, take, length-map, take-all, Bool-cases, if◌then◌else◌,
}
use mathlib.Core.List.{map-append}
use mnesis.Base.Words.{usize_max}
use mnesis.Base.Result.{ok}
use mnesis.Kernel.Version.{Version}
use mnesis.Kernel.Events
use mnesis.Kernel.Events.{Events}
use mnesis.Kernel.Aggregate.{Aggregate, AggregateRoot, new_root, version_or_zero, apply_all}
use mnesis.Store.Value.{FromUtf8}
use mnesis.Store.Append.{key_eq, actual_version}
use mnesis.InMemory.Streams.{rows_of, key_eq→eq, key_eq_refl}
use mnesis.InMemory.Frame.{frame_to_envelope}
use mnesis.InMemory.Store.{Inner}
use mnesis.InMemory.Repository.{Facade, key_of, replay_items, returned}
use mnesis.InMemory.Repository.Load.{IsCodec, replay_items-id, replay_items-append}
use mnesis.InMemory.Repository.Save.{IsPersisted, committed}
use mnesis.InMemory.Repository.Reload.{persisted-replays}
use mnesis.InMemory.Snapshot.Restart.{replay_items-length, replay_items-counted}
use mnesis.InMemory.Snapshot.Load.{rows_for, IsReplayed, IsReplayed-le}

take-prefix : {A : Type 0} (n : ℕ) (xs ys : List A) → n ≤ length xs → take n (xs ++ ys) ≡ take n xs
take-prefix zero xs ys le = refl
take-prefix (suc n) [] ys le = absurd (omega arith)
take-prefix (suc n) (x ∷ xs) ys le = ap (◌∷◌ x) (take-prefix n xs ys (omega arith))

head_is : (n : ℕ) → version_or_zero (actual_version n) ≡ n
head_is n = ground arith

module _ (u : FromUtf8) {𝓐 : Aggregate} (𝓕 : Facade 𝓐) where
  -- The root has no state, or that of the events of its stream up to its version.
  abbrev pub IsHeld : AggregateRoot 𝓐 → Inner → Type 0
  IsHeld root inner =
      (state : 𝓐.State) → root.state ≡ some state → IsReplayed u 𝓕 root.id root.version state inner

  pub new_root-IsHeld : (id : 𝓐.AggregateId) (inner : Inner) → IsHeld (new_root id) inner
  unfolding replay_items
  new_root-IsHeld id inner state has = (new_root id, refl, refl, has)

  -- A stream that grows keeps the prefix that a state stands for.
  pub grown-IsReplayed :
      (root : AggregateRoot 𝓐) (events : Events 𝓐.Event) (inner inner' : Inner)
      → IsPersisted u 𝓕 root events inner inner'
      → (id : 𝓐.AggregateId) (version : Option Version) (state : 𝓐.State)
      → IsReplayed u 𝓕 id version state inner
      → IsReplayed u 𝓕 id version state inner'
  grown-IsReplayed root events inner inner' p id version state (mid, replays, at, has) =
      let key = key_of 𝓕 (new_root id) in
      let v = version_or_zero version in
      let le = IsReplayed-le u 𝓕 id version state inner (mid, replays, at, has) in
      let same : take v (rows_of key inner'.streams) ≡ take v (rows_of key inner.streams) =
        elim (Bool-cases (key_eq (key_of 𝓕 root) key)) [
          | inr other ↦ rw (p.grown key, other) refl
          | inl own ↦
              rw (p.grown key, own, key_eq→eq (key_of 𝓕 root) key own)
                (take-prefix v (rows_of key inner.streams) p.new le)
        ] in
      (
        mid,
        ap (λ l. replay_items 𝓕 (new_root id) (map (frame_to_envelope u) l)) same ∙ replays,
        at,
        has,
      )

  module _ (word : 𝓐.max_rehydration_events ≤ usize_max) where
    -- The replay that a state stands for ends in the root that has counted every event.
    pub replayed_exactly :
        (id : 𝓐.AggregateId) (version : Option Version) (state : 𝓐.State) (inner : Inner)
        → IsReplayed u 𝓕 id version state inner
        → version_or_zero version ≤ 𝓐.max_rehydration_events
        → replay_items 𝓕
            (new_root id)
            (map (frame_to_envelope u) (take (version_or_zero version) (rows_for u 𝓕 id inner)))
          ≡ returned (
              ok (record {
                id = id;
                state = some state;
                version = version;
                replayed_events = version_or_zero version;
              }))
    replayed_exactly id version state inner replayed budget =
        let (mid, replays, at, has) = replayed in
        let v = version_or_zero version in
        let rows = rows_for u 𝓕 id inner in
        let items = map (frame_to_envelope u) (take v rows) in
        let many : length items ≡ v =
          omega (
            arith,
            ap version_or_zero at,
            replay_items-length u 𝓕 items (new_root id) mid replays,
          ) in
        let many' : 0 + length items ≡ v = omega (arith, many) in
        let is_id = replay_items-id u 𝓕 items (new_root id) mid replays in
        replay_items-counted u 𝓕 word items (new_root id) mid 0 (omega (arith, many, budget))
          replays
        ∙ (λ i. returned (
            ok (record { id = is_id i; state = has i; version = at i; replayed_events = many' i })))

    -- A root that was held, and has persisted and folded its events, is held.
    pub committed-IsReplayed :
        (codec : IsCodec 𝓕) (root : AggregateRoot 𝓐) (events : Events 𝓐.Event)
        (inner inner' : Inner) (s s' : 𝓐.State) (p : IsPersisted u 𝓕 root events inner inner')
        → root.state ≡ some s
        → apply_all 𝓐 s (Events.iter events) ≡ some s'
        → IsReplayed u 𝓕 root.id root.version s inner
        → version_or_zero root.version + Events.len events ≤ 𝓐.max_rehydration_events
        → IsReplayed u 𝓕 root.id (committed u 𝓕 root events inner (some s')).version s' inner'
    committed-IsReplayed codec root events inner inner' s s' p usable folds held budget =
        let frames = frame_to_envelope u in
        let v = version_or_zero root.version in
        let len = Events.len events in
        let key = key_of 𝓕 root in
        let rows = rows_of key inner.streams in
        let full : AggregateRoot 𝓐 = record root { replayed_events = v } in
        let after : AggregateRoot 𝓐 = record (committed u 𝓕 root events inner (some s')) {
          replayed_events = v + len;
        } in
        let at_head : v ≡ length rows = ap version_or_zero p.head ∙ head_is (length rows) in
        let before : replay_items 𝓕 (new_root root.id) (map frames rows) ≡ returned (ok full) =
          ap (λ l. replay_items 𝓕 (new_root root.id) (map frames l))
            (sym (take-all v rows (omega (arith, at_head))))
          ∙ replayed_exactly root.id root.version s inner held (omega (arith, budget))
          ∙ (λ i. returned (ok (record root { state = sym usable i; replayed_events = v }))) in
        let tail =
          persisted-replays u 𝓕 codec root events inner inner' v s s' p usable folds budget word in
        let grown : rows_of key inner'.streams ≡ rows ++ p.new =
          p.grown key ∙ ap (λ b. if b then rows ++ p.new else rows) (key_eq_refl key) in
        let whole : replay_items 𝓕 (new_root root.id) (map frames (rows ++ p.new))
            ≡ returned (ok after) =
          ap (replay_items 𝓕 (new_root root.id)) (map-append frames rows p.new)
          ∙ replay_items-append u 𝓕 (map frames rows) (map frames p.new) (new_root root.id) full
              before
          ∙ tail in
        let ends : v + len ≡ length (rows ++ p.new) = omega (
          arith,
          replay_items-length u 𝓕 (map frames (rows ++ p.new)) (new_root root.id) after whole,
          length-map (rows ++ p.new) frames,
        ) in
        (
          after,
          ap (λ l. replay_items 𝓕 (new_root root.id) (map frames (take (v + len) l))) grown
              ∙ ap (λ l. replay_items 𝓕 (new_root root.id) (map frames l))
                  (take-all (v + len) (rows ++ p.new) (omega (arith, ends)))
              ∙ whole,
          refl,
          refl,
        )
