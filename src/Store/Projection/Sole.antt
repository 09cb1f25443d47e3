-- ===== src/Store/Projection/Sole.antt =====
-- A projection that is alone on its checkpoint: its writes are admitted.
use mnesis.Base.{
  ℕ, suc, ◌+◌, ◌≤◌, ◌≡◌, ◌≢◌, ◌⊎◌, inl, inr, sym, ap, ◌∙◌, true, false, Option, none, some, arith,
}
use mathlib.Core.Option
use mnesis.Base.Words.{u64_max}
use mnesis.Base.Result.{ok}
use mnesis.Store.Checkpoint.{Positions, next_revision, check_mode}
use mnesis.Store.Projection.{Projector, Projection, is_checkpoint, unpersisted, write_of}
use mnesis.Store.Projection.Contract.{Kept, facts_of}
use mnesis.Store.Projection.Cases.{due}

module _ (𝓟 : Positions) (𝓙 : Projector) where
  -- The instance knows what is stored, and at least `left` revisions are left.
  abbrev pub IsLinked : Projection 𝓟 𝓙 → Option (Kept 𝓟 𝓙.State) → ℕ → Type 0
  IsLinked p none left = (p.revision ≡ none) × (p.checkpoint ≡ none) × (left ≤ u64_max)
  IsLinked p (some r) left =
      (p.revision ≡ some r.revision)
      × (r.revision + left ≤ u64_max)
      × (((r.schema_version ≡ p.schema_version)
            × (p.checkpoint ≡ some r.position)
            × (o : 𝓟.Position) × (p.observed ≡ some o)
            × (𝓟.is_at_most r.position o ≡ true))
          ⊎ ((r.schema_version ≢ p.schema_version) × (p.checkpoint ≡ none)))

  pub relaxed :
      (p : Projection 𝓟 𝓙) (stored : Option (Kept 𝓟 𝓙.State)) (left : ℕ)
      → IsLinked p stored (suc left)
      → IsLinked p stored left
  relaxed p none left (a, b, fits) = (a, b, omega (arith, fits))
  relaxed p (some r) left (a, fits, c) = (a, omega (arith, fits), c)

  pub next_revision-accepts :
      (p : Projection 𝓟 𝓙) (stored : Option (Kept 𝓟 𝓙.State)) (left : ℕ) (position : 𝓟.Position)
      (state : 𝓙.State)
      → IsLinked p stored (suc left)
      → unpersisted 𝓟 𝓙 p ≡ some position
      → (revision : ℕ) × (next_revision 𝓟 𝓙.State
            (write_of 𝓟 𝓙 p position state)
            (Option.map (facts_of 𝓟 𝓙.State) stored)
          ≡ ok revision)
        × (revision + left ≤ u64_max)
  unfolding next_revision check_mode
  next_revision-accepts p none left position state (no_revision, no_checkpoint, fits) h =
      (1, ground (arith, no_revision, no_checkpoint), omega (arith, fits))
  next_revision-accepts p (some r) left position state
        (same, fits, inl (schema, checkpoint, o, observed, le)) h =
      let seen = due 𝓟 𝓙 p position h in
      let open_ : is_checkpoint 𝓟 (some r.position) position ≡ false =
        ap (λ c. is_checkpoint 𝓟 c position) (sym checkpoint) ∙ ground (arith, seen, h) in
      let greater : 𝓟.is_at_most position r.position ≡ false =
        ground (arith, le, observed, seen, open_) in
      (r.revision + 1, ground (arith, same, schema, checkpoint, greater), omega (arith, fits))
  next_revision-accepts p (some r) left position state (same, fits, inr (schema, fresh)) h =
      (r.revision + 1, ground (arith, same, schema, fresh), omega (arith, fits))
