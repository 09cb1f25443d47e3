-- ===== src/InMemory/Snapshot/Restart.antt =====
-- A replay that starts from a restored root, whose count of replayed events starts again.
use mnesis.Base.{ℕ, suc, ◌+◌, ◌≤◌, ◌≡◌, ◌∙◌, sym, ap, List, [], ◌∷◌, arith, length}
use mathlib.Core.Path.{subst}
use mnesis.Base.Words.{usize_max}
use mnesis.Base.Result.{ok, err}
use mnesis.Kernel.Aggregate.{Aggregate, AggregateRoot, done, replay, version_or_zero}
use mnesis.Kernel.Aggregate.Replay.{replay-done, replay_inversion}
use mnesis.Store.Value.{FromUtf8}
use mnesis.InMemory.Read.{Item}
use mnesis.InMemory.Repository.{Facade, replay_items, returned}
use mnesis.InMemory.Repository.Load.{replay_items_step, replay_items_inversion}

module _ (u : FromUtf8) {𝓐 : Aggregate} (𝓕 : Facade 𝓐) where
  -- A replay moves the version on by one for every item.
  pub replay_items-length :
      (xs : List Item) (a b : AggregateRoot 𝓐)
      → replay_items 𝓕 a xs ≡ returned (ok b)
      → version_or_zero b.version ≡ version_or_zero a.version + length xs
  unfolding replay_items
  replay_items-length [] a b h =
      let same : a ≡ b = ground arith in
      omega (arith, ap (λ (r : AggregateRoot 𝓐). version_or_zero r.version) same)
  replay_items-length (err e ∷ xs) a b h = absurd (ground arith)
  replay_items-length (ok env ∷ xs) a b h =
      let (event, mid, d, r) = replay_items_inversion u 𝓕 a b env xs h in
      let rest = sym (replay_items_step u 𝓕 a mid env event xs d r) ∙ h in
      let (s, s', _, _, at, _, _, is) = replay_inversion a mid env.version event r in
      let moved : version_or_zero mid.version ≡ env.version.as_u64 =
        ap (λ (r : AggregateRoot 𝓐). version_or_zero r.version) is in
      omega (arith, replay_items-length xs mid b rest, moved, at)

  -- The same root, with another count.
  abbrev pub recounted : ℕ → AggregateRoot 𝓐 → AggregateRoot 𝓐
  recounted n root = record root { replayed_events = n }

  pub replay_items-recounted :
      𝓐.max_rehydration_events ≤ usize_max
      → (xs : List Item) (a b : AggregateRoot 𝓐) (n : ℕ) → n ≤ a.replayed_events
      → replay_items 𝓕 a xs ≡ returned (ok b)
      → (m : ℕ) × (m ≤ b.replayed_events)
        × (replay_items 𝓕 (recounted n a) xs ≡ returned (ok (recounted m b)))
  unfolding replay_items
  replay_items-recounted word [] a b n le h =
      let same : a ≡ b = ground arith in
      (
        n,
        subst (λ (r : AggregateRoot 𝓐). n ≤ r.replayed_events) same le,
        ap (λ r. returned (ok (recounted n r))) same,
      )
  replay_items-recounted word (err e ∷ xs) a b n le h = absurd (ground arith)
  replay_items-recounted word (ok env ∷ xs) a b n le h =
      let (event, mid, d, r) = replay_items_inversion u 𝓕 a b env xs h in
      let rest = sym (replay_items_step u 𝓕 a mid env event xs d r) ∙ h in
      let (s, s', has, folds, at, top, budget, is) = replay_inversion a mid env.version event r in
      let again =
        replay-done (recounted n a) env.version event s s' has at top (omega arith) (omega arith)
          folds in
      let counted : mid.replayed_events ≡ a.replayed_events + 1 =
        ap (λ (r : AggregateRoot 𝓐). r.replayed_events) is in
      let (m, less, ends) =
        replay_items-recounted word xs mid b (n + 1) (omega (arith, counted, le)) rest in
      let again' : replay (recounted n a) env.version event ≡ (recounted (n + 1) mid, done) =
        again ∙ (λ i. (recounted (n + 1) (sym is i), done)) in
      (
        m,
        less,
        replay_items_step u 𝓕 (recounted n a) (recounted (n + 1) mid) env event xs d again' ∙ ends,
      )

  -- With the count that is wanted, as long as it stays within the budget.
  pub replay_items-counted :
      𝓐.max_rehydration_events ≤ usize_max
      → (xs : List Item) (a b : AggregateRoot 𝓐) (n : ℕ) → n + length xs ≤ 𝓐.max_rehydration_events
      → replay_items 𝓕 a xs ≡ returned (ok b)
      → replay_items 𝓕 (recounted n a) xs ≡ returned (ok (recounted (n + length xs) b))
  unfolding replay_items
  replay_items-counted word [] a b n le h =
      let same : a ≡ b = ground arith in
      let none_more : n ≡ n + 0 = omega arith in
      (λ i. returned (ok (recounted (none_more i) (same i))))
  replay_items-counted word (err e ∷ xs) a b n le h = absurd (ground arith)
  replay_items-counted word (ok env ∷ xs) a b n le h =
      let (event, mid, d, r) = replay_items_inversion u 𝓕 a b env xs h in
      let rest = sym (replay_items_step u 𝓕 a mid env event xs d r) ∙ h in
      let (s, s', has, folds, at, top, budget, is) = replay_inversion a mid env.version event r in
      let again =
        replay-done (recounted n a) env.version event s s' has at top (omega (arith, le))
          (omega (arith, le, word)) folds in
      let again' : replay (recounted n a) env.version event ≡ (recounted (n + 1) mid, done) =
        again ∙ (λ i. (recounted (n + 1) (sym is i), done)) in
      let more : n + 1 + length xs ≡ n + suc (length xs) = omega arith in
      replay_items_step u 𝓕 (recounted n a) (recounted (n + 1) mid) env event xs d again'
      ∙ replay_items-counted word xs mid b (n + 1) (omega (arith, le)) rest
      ∙ (λ i. returned (ok (recounted (more i) b)))
