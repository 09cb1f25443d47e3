-- ===== src/InMemory/Checkpoint/Commit.antt =====
-- What a committed checkpoint is, and that no write is lost under another.
use mnesis.Base.{
  ℕ, ◌≡◌, ◌≢◌, ◌∙◌, ◌⊎◌, refl, sym, ap, true, false, Option, none, some, List, arith, inl, inr,
  if◌then◌else◌,
}
use mathlib.Core.Option
use mnesis.Base.Bytes.{bytes_eq, bytes_eq_refl}
use mnesis.Base.Result.{ok, err, Result-cases}
use mnesis.Store.Checkpoint.{
  Positions, CheckpointMode, advance, rebuild, CheckpointRejection, found, stale, CheckpointWrite,
  Current, check_mode, next_revision, revision_of, revision_after, revision_eq,
}
use mnesis.InMemory.Checkpoint.{
  Record, Records, hydrate_checkpoint, hydrated, current_of, record_of, commit_checkpoint,
}
use mnesis.Base.Maps.{get, insert, get-insert}

revision_eq→eq : (a b : Option ℕ) → revision_eq a b ≡ true → a ≡ b
revision_eq→eq none none h = refl
revision_eq→eq none (some b) h = cc
revision_eq→eq (some a) none h = cc
revision_eq→eq (some a) (some b) h = ground arith

revision_eq_refl : (a : Option ℕ) → revision_eq a a ≡ true
revision_eq_refl none = refl
revision_eq_refl (some a) = ground arith

module _ (𝓟 : Positions) (State : Type 0) where
  -- What the mode of a write asks of the stored checkpoint.
  abbrev pub IsAdmitted : CheckpointWrite 𝓟 State → Option (Current 𝓟 State) → Type 0
  IsAdmitted write none = write.mode ≡ advance
  IsAdmitted write (some c) =
      ((write.mode ≡ advance)
        × (c.schema_version ≡ write.schema_version)
        × (𝓟.is_at_most write.position c.position ≡ false))
      ⊎ ((write.mode ≡ rebuild) × (c.schema_version ≢ write.schema_version))

  check_mode-IsAdmitted :
      (write : CheckpointWrite 𝓟 State) (current : Option (Current 𝓟 State))
      → check_mode 𝓟 State write current ≡ ok tt
      → IsAdmitted write current
  unfolding check_mode
  check_mode-IsAdmitted write none h = by_mode write.mode refl
    where
      by_mode : (m : CheckpointMode) → write.mode ≡ m → write.mode ≡ advance
      by_mode advance e = e
      by_mode rebuild e = absurd (ground arith)
  check_mode-IsAdmitted write (some c) h = by_mode write.mode refl
    where
      by_mode : (m : CheckpointMode) → write.mode ≡ m → IsAdmitted write (some c)
      by_mode advance e = inl (e, ground arith, ground arith)
      by_mode rebuild e = inr (e, λ x. ground arith)

  IsAdmitted-check_mode :
      (write : CheckpointWrite 𝓟 State) (current : Option (Current 𝓟 State))
      → IsAdmitted write current
      → check_mode 𝓟 State write current ≡ ok tt
  unfolding check_mode
  IsAdmitted-check_mode write none h = ground arith
  IsAdmitted-check_mode write (some c) (inl (m, s, p)) = ground arith
  IsAdmitted-check_mode write (some c) (inr (m, s)) = ground arith

  -- A revision is given to exactly the write that names the stored revision and that its mode
  -- admits.
  next_revision_iff :
      (write : CheckpointWrite 𝓟 State) (current : Option (Current 𝓟 State)) (revision : ℕ)
      → (next_revision 𝓟 State write current ≡ ok revision
          → (write.expected ≡ revision_of 𝓟 State current)
            × IsAdmitted write current
            × (revision_after 𝓟 State (revision_of 𝓟 State current) ≡ some revision))
        × (write.expected ≡ revision_of 𝓟 State current
            → IsAdmitted write current
            → revision_after 𝓟 State (revision_of 𝓟 State current) ≡ some revision
            → next_revision 𝓟 State write current ≡ ok revision)
  unfolding next_revision
  next_revision_iff write current revision = (
    λ h. (
      revision_eq→eq write.expected (revision_of 𝓟 State current) (ground arith),
      check_mode-IsAdmitted write current (ground arith),
      ground arith,
    ),
    λ e a r.
        let stored = revision_of 𝓟 State current in
        let same : revision_eq write.expected stored ≡ true =
          ap (λ x. revision_eq x stored) e ∙ revision_eq_refl stored in
        ground (arith, same, IsAdmitted-check_mode write current a, r),
  )

  map_current :
      (r : Option (Record 𝓟 State))
      → revision_of 𝓟 State (Option.map (current_of 𝓟 State) r) ≡ Option.map (λ x. x.revision) r
  map_current none = refl
  map_current (some r) = refl

  -- A write is accepted exactly when it names the stored revision, its mode admits it, and the
  -- revision after the stored one fits `u64`, and it is given that revision. A reader at its schema
  -- then finds its position and state, a reader at another schema is told that it is stale, and no
  -- other id is affected. A rejected write changes nothing.
  pub commit_checkpoint_effect :
      (id : List ℕ) (write : CheckpointWrite 𝓟 State) (records after : Records 𝓟 State)
      → ((revision : ℕ)
          → commit_checkpoint 𝓟 State id write records ≡ (after, ok revision)
          → (write.expected ≡ Option.map (λ r. r.revision) (get id records))
            × IsAdmitted write (Option.map (current_of 𝓟 State) (get id records))
            × (revision_after 𝓟 State (Option.map (λ r. r.revision) (get id records))
                ≡ some revision)
            × (hydrate_checkpoint 𝓟 State id write.schema_version after
                ≡ found revision write.position write.state)
            × ((schema : ℕ)
                → schema ≢ write.schema_version
                → hydrate_checkpoint 𝓟 State id schema after ≡ stale revision write.schema_version)
            × ((j : List ℕ) → bytes_eq id j ≡ false → get j after ≡ get j records))
        × ((e : CheckpointRejection)
            → commit_checkpoint 𝓟 State id write records ≡ (after, err e)
            → after ≡ records)
        × ((revision : ℕ)
            → write.expected ≡ Option.map (λ r. r.revision) (get id records)
            → IsAdmitted write (Option.map (current_of 𝓟 State) (get id records))
            → revision_after 𝓟 State (Option.map (λ r. r.revision) (get id records)) ≡ some revision
            → (commit_checkpoint 𝓟 State id write records).1 ≡ ok revision)
  unfolding commit_checkpoint
  commit_checkpoint_effect id write records after =
      let current = Option.map (current_of 𝓟 State) (get id records) in
      let stored = map_current (get id records) in
      (
        λ revision h. elim (Result-cases (next_revision 𝓟 State write current)) [
          | inr (e, q) ↦ absurd (ground arith)
          | inl (r, q) ↦
              let new = record_of 𝓟 State revision write in
              let given : r ≡ revision = ground arith in
              let now : insert id new records ≡ after = ground arith in
              let (named, admitted, next) =
                (next_revision_iff write current revision).0 (q ∙ ap ok given) in
              let own : get id after ≡ some new =
                ap (get id) (sym now)
                ∙ get-insert id id new records
                ∙ ap (λ b. if b then some new else get id records) (bytes_eq_refl id) in
              (
                named ∙ stored,
                admitted,
                ap (revision_after 𝓟 State) (sym stored) ∙ next,
                ap (hydrated 𝓟 State write.schema_version) own ∙ ground arith,
                λ schema other. ap (hydrated 𝓟 State schema) own ∙ ground (arith, other),
                λ j other.
                    ap (get j) (sym now)
                    ∙ get-insert id j new records
                    ∙ ap (λ b. if b then some new else get j records) other,
              )
        ],
        λ e h. elim (Result-cases (next_revision 𝓟 State write current)) [
          | inr (x, q) ↦ ground arith
          | inl (r, q) ↦ absurd (ground arith)
        ],
        λ revision named admitted next.
            let q =
              (next_revision_iff write current revision).1 (named ∙ sym stored) admitted
                (ap (revision_after 𝓟 State) stored ∙ next) in
            ground arith,
      )
