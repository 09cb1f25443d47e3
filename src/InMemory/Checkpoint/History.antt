-- ===== src/InMemory/Checkpoint/History.antt =====
-- Any number of writers on one checkpoint store: what a committed write keeps against the later
-- ones.
use mnesis.Base.{
  ℕ, ◌≤◌, ◌≡◌, ◌∙◌, refl, sym, ap, false, Option, none, some, List, arith, inl, inr, Option-cases,
  Bool-cases,
}
use mathlib.Core.Option
use mathlib.Core.Path.{subst}
use mnesis.Base.Bytes.{bytes_eq, bytes_eq→eq}
use mnesis.Base.Result.{ok, err, Result-cases}
use mnesis.Store.Checkpoint.{
  Positions, conflict, CheckpointWrite, next_revision, revision_eq, revision_after, found,
}
use mnesis.InMemory.Checkpoint.{Record, Records, hydrated, commit_checkpoint}
use mnesis.Base.Maps.{get}
use mnesis.InMemory.Checkpoint.Commit.{commit_checkpoint_effect}

module _ (𝓟 : Positions) (State : Type 0) where
  -- Writes, by anyone, accepted or not.
  pub data Writes : Records 𝓟 State → Records 𝓟 State → Type 0 where
    at_rest : (records : Records 𝓟 State) → Writes records records
    then_commit :
        {before after : Records 𝓟 State}
        → Writes before after
        → (id : List ℕ) (write : CheckpointWrite 𝓟 State)
        → Writes before (commit_checkpoint 𝓟 State id write after).0

  -- The id is at the revision `revision` or a later one.
  abbrev pub IsPast : List ℕ → ℕ → Records 𝓟 State → Type 0
  IsPast id revision records =
      (r : Record 𝓟 State) × (get id records ≡ some r) × (revision ≤ r.revision)

  found-get :
      (id : List ℕ) (revision schema : ℕ) (position : 𝓟.Position) (state : State)
      (records : Records 𝓟 State)
      → hydrated 𝓟 State schema (get id records) ≡ found revision position state
      → (r : Record 𝓟 State) × (get id records ≡ some r) × (r.revision ≡ revision)
  found-get id revision schema position state records h = elim (Option-cases (get id records)) [
    | inl e ↦ absurd (ground arith)
    | inr (r, e) ↦ (r, e, ground arith)
  ]

  commit-IsPast :
      (id j : List ℕ) (write : CheckpointWrite 𝓟 State) (records : Records 𝓟 State) (revision : ℕ)
      → IsPast id revision records
      → IsPast id revision (commit_checkpoint 𝓟 State j write records).0
  commit-IsPast id j write records revision (r, e, le) =
      let out = commit_checkpoint 𝓟 State j write records in
      let (good, bad, _) = commit_checkpoint_effect 𝓟 State j write records out.0 in
      elim (Result-cases out.1) [
        | inr (x, q) ↦ subst (IsPast id revision) (sym (bad x (λ i. (out.0, q i)))) (r, e, le)
        | inl (given, q) ↦
            let (_, _, next, now, _, others) = good given (λ i. (out.0, q i)) in
            elim (Bool-cases (bytes_eq j id)) [
              | inr other ↦ (r, others id other ∙ e, le)
              | inl own ↦
                  let same : j ≡ id = bytes_eq→eq j id own in
                  let (r', e', at) =
                    found-get j given write.schema_version write.position write.state out.0 now in
                  let stored : get j records ≡ some r = ap (λ k. get k records) same ∙ e in
                  let up : revision_after 𝓟 State (some r.revision) ≡ some given =
                    ap (λ x. revision_after 𝓟 State (Option.map (λ y. y.revision) x)) (sym stored)
                    ∙ next in
                  (r', ap (λ k. get k out.0) (sym same) ∙ e', ground (arith, up, at, le))
            ]
      ]

  -- A checkpoint does not vanish, and its revision does not fall.
  Writes-IsPast :
      {before after : Records 𝓟 State} (id : List ℕ) (revision : ℕ)
      → Writes before after
      → IsPast id revision before
      → IsPast id revision after
  Writes-IsPast id revision (at_rest records) h = h
  Writes-IsPast id revision (then_commit {after = after} ws j write) h =
      commit-IsPast id j write after revision (Writes-IsPast id revision ws h)

  -- The revision that a write was accepted on is none of the later ones.
  behind :
      (stored : Option ℕ) (revision actual : ℕ)
      → revision_after 𝓟 State stored ≡ some revision
      → revision ≤ actual
      → revision_eq stored (some actual) ≡ false
  behind none revision actual h le = refl
  behind (some a) revision actual h le = ground arith

  conflicts :
      (id : List ℕ) (write : CheckpointWrite 𝓟 State) (records : Records 𝓟 State)
      (r : Record 𝓟 State)
      → get id records ≡ some r
      → revision_eq write.expected (some r.revision) ≡ false
      → commit_checkpoint 𝓟 State id write records
        ≡ (records, err (conflict write.expected (some r.revision)))
  unfolding commit_checkpoint next_revision
  conflicts id write records r e differs = rw (e, differs, commit_checkpoint, next_revision) refl

  -- No write is lost: once a write to a checkpoint has been accepted, then whatever is written
  -- after it, by anyone and to any id, every other write to that checkpoint that names the same
  -- revision is refused with a conflict that names the revision now stored, which is no less than
  -- that of the accepted write, and changes nothing.
  pub no_lost_write :
      (id : List ℕ) (write stale_write : CheckpointWrite 𝓟 State)
      (records after later : Records 𝓟 State) (revision : ℕ)
      → commit_checkpoint 𝓟 State id write records ≡ (after, ok revision)
      → Writes after later
      → stale_write.expected ≡ write.expected
      → (r : Record 𝓟 State) × (get id later ≡ some r)
        × (revision ≤ r.revision)
        × (commit_checkpoint 𝓟 State id stale_write later
            ≡ (later, err (conflict stale_write.expected (some r.revision))))
  no_lost_write id write stale_write records after later revision done ws same =
      let (named, _, next, now, _, _) =
        (commit_checkpoint_effect 𝓟 State id write records after).0 revision done in
      let (r, e, at) =
        found-get id revision write.schema_version write.position write.state after now in
      let (r', e', le) = Writes-IsPast id revision ws (r, e, omega (arith, at)) in
      (
        r',
        e',
        le,
        conflicts id stale_write later r' e' (
            ap (λ x. revision_eq x (some r'.revision)) (same ∙ named)
            ∙ behind (Option.map (λ x. x.revision) (get id records)) revision r'.revision next le),
      )
