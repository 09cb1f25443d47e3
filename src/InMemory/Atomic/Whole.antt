-- ===== src/InMemory/Atomic/Whole.antt =====
-- `atomic_append_many` as a whole, on success and on failure.
use mnesis.Base.{
  ℕ, suc, ◌<◌, ◌≡◌, ◌↔◌, ◌∙◌, refl, sym, ap, inl, inr, ◌⊎◌, false, none, some, List, [], ◌∷◌, ◌++◌,
  arith, length,
}
use mathlib.Core.Path.{subst}
use mnesis.Base.Result.{ok, err, >>=-eq-ok, Result-cases}
use mnesis.Store.Value.{FromUtf8}
use mnesis.Store.Envelope.{batch_iter}
use mnesis.Store.Append.{StreamKey, key_eq}
use mnesis.Store.Import.{PlannedAppend, batch, targets}
use mnesis.Store.Import.Valid.{
  AllRuns, AllOther, AreDistinct, validate_atomic_runs_iff, validate_distinct_targets_iff,
}
use mnesis.InMemory.Streams.{rows_of, extend, rows_of-extend, key_eq_refl, key_eq_sym}
use mnesis.InMemory.Frame.{StoredFrame}
use mnesis.InMemory.Store.{Inner, Staged, stage, commit, frames}
use mnesis.InMemory.Stage.{AllHold, stage-IsStaged}
use mnesis.InMemory.Consistent.{IsConsistent, commit-IsConsistent}
use mnesis.InMemory.Atomic.{
  AtomicAppendError, StagedRuns, cons_run, stage_runs, extend_runs, index_runs, commit_runs,
  atomic_checks, atomic_append_many,
}
use mnesis.InMemory.Atomic.Commit.{
  commit_runs-cons, AtHeads, check_heads_sound, AtHeads-extend, AllWritesPending, staged-IsRun,
}

-- The run of every write stands, readable, behind the rows that its target had.
abbrev pub AllLanded :
    FromUtf8
    → List (StreamKey × List StoredFrame)
    → List (StreamKey × List StoredFrame)
    → List PlannedAppend
    → Type 0
AllLanded u before after [] = Unit
AllLanded u before after (w ∷ ws) =
    ((new : List StoredFrame) × AllHold u new (batch_iter (batch w))
      × (rows_of w.target after ≡ rows_of w.target before ++ new))
    × AllLanded u before after ws

AllLanded-extend :
    (u : FromUtf8) (id : StreamKey) (new : List StoredFrame)
    (before after : List (StreamKey × List StoredFrame)) (ws : List PlannedAppend)
    → AllOther id (targets ws)
    → AllLanded u (extend id new before) after ws
    → AllLanded u before after ws
AllLanded-extend u id new before after [] o h = tt
AllLanded-extend u id new before after (w ∷ ws) o ((rows, held, at), h) =
    let same : rows_of w.target (extend id new before) ≡ rows_of w.target before =
      rows_of-extend id w.target new before ∙ rw o.0 refl in
    ((rows, held, at ∙ ap (λ l. l ++ rows) same), AllLanded-extend u id new before after ws o.1 h)

stage_runs-parts :
    (seq last : ℕ) (w : PlannedAppend) (ws : List PlannedAppend) (r : StagedRuns)
    → stage_runs seq last (w ∷ ws) ≡ ok r
    → (s : Staged) × (t : StagedRuns) × (stage seq last (batch_iter (batch w)) ≡ ok s)
      × (stage_runs s.seq s.last_assigned ws ≡ ok t)
      × (cons_run w.target s t ≡ r)
unfolding stage_runs
stage_runs-parts seq last w ws r h =
    let (s, staged, h') = >>=-eq-ok (stage seq last (batch_iter (batch w))) _ h in
    let (t, rest, h'') = >>=-eq-ok (stage_runs s.seq s.last_assigned ws) _ h' in
    (s, t, staged, rest, ground arith)

-- What the commit of the staged runs `r` does to `inner`.
record IsWhole (u : FromUtf8) (inner : Inner) (last : ℕ) (ws : List PlannedAppend) (r : StagedRuns)
    : Type 0 where
  consistent : IsConsistent u (commit_runs r.runs r.seq inner)
  landed : AllLanded u inner.streams (commit_runs r.runs r.seq inner).streams ws
  others :
      (j : StreamKey)
      → AllOther j (targets ws)
      → rows_of j (commit_runs r.runs r.seq inner).streams ≡ rows_of j inner.streams
  position : (suc last ≡ inner.next_global_seq) ⊎ (0 < length ws) → suc r.last_assigned ≡ r.seq

nothing-IsWhole :
    (u : FromUtf8) (inner : Inner) (last : ℕ)
    → IsConsistent u inner
    → IsWhole u inner last []
        (record { runs = []; seq = inner.next_global_seq; last_assigned = last })
unfolding commit_runs extend_runs index_runs
nothing-IsWhole u inner last c = record {
  consistent = record {
    ascending = c.ascending;
    counter = c.counter;
    agree = c.agree;
    gapless = c.gapless;
    readable = c.readable;
  };
  landed = tt;
  others = λ j o. refl;
  position = elim [ inl e ↦ e | inr more ↦ absurd (omega arith) ];
}

module _ (u : FromUtf8) (w : PlannedAppend) (ws : List PlannedAppend) (inner : Inner) (last : ℕ)
    (s : Staged) (t : StagedRuns) where
  -- One more run in front.
  cons-IsWhole :
      AllOther w.target (targets ws)
      → AllHold u (frames s.rows) (batch_iter (batch w))
      → suc s.last_assigned ≡ s.seq
      → IsWhole u (commit w.target s inner) s.last_assigned ws t
      → IsWhole u inner last (w ∷ ws) (cons_run w.target s t)
  unfolding commit
  cons-IsWhole o held pos i =
      let split = commit_runs-cons w.target s t.runs t.seq inner in
      let new : List StoredFrame = frames s.rows in
      record {
        consistent = subst (IsConsistent u) (sym split) i.consistent;
        landed = (
          (
            new,
            held,
            ap (λ (x : Inner). rows_of w.target x.streams) split
                ∙ i.others w.target o
                ∙ rows_of-extend w.target w.target new inner.streams
                ∙ rw (key_eq_refl w.target) refl,
          ),
          AllLanded-extend u w.target new inner.streams _ ws o (
              subst (λ (x : Inner). AllLanded u (extend w.target new inner.streams) x.streams ws)
                (sym split) i.landed),
        );
        others = λ j other.
            let apart : key_eq w.target j ≡ false = key_eq_sym w.target j ∙ other.0 in
            ap (λ (x : Inner). rows_of j x.streams) split
            ∙ i.others j other.1
            ∙ rows_of-extend w.target j new inner.streams
            ∙ rw apart refl;
        position = λ _. i.position (inl pos);
      }

stage_runs-IsWhole :
    (u : FromUtf8) (ws : List PlannedAppend) (inner : Inner) (last : ℕ) (r : StagedRuns)
    → IsConsistent u inner
    → AllWritesPending u ws
    → AllRuns ws
    → AreDistinct (targets ws)
    → AtHeads inner.streams ws
    → stage_runs inner.next_global_seq last ws ≡ ok r
    → IsWhole u inner last ws r
unfolding stage_runs commit
stage_runs-IsWhole u [] inner last r c p a d h e =
    let same : record { runs = []; seq = inner.next_global_seq; last_assigned = last } ≡ r =
      ground arith in
    subst (IsWhole u inner last []) same (nothing-IsWhole u inner last c)
stage_runs-IsWhole u (w ∷ ws) inner last r c p a d h e =
    let (s, t, staged, rest, same) = stage_runs-parts inner.next_global_seq last w ws r e in
    let st =
      stage-IsStaged u (batch_iter (batch w)) inner.next_global_seq last s p.0 c.counter staged in
    let c' = commit-IsConsistent u w.target inner s c (staged-IsRun u w inner last s a.0 h.0 st) in
    subst (IsWhole u inner last (w ∷ ws)) same (
      cons-IsWhole u w ws inner last s t d.0 st.held (st.last (inr (omega arith))) (
        stage_runs-IsWhole u ws (commit w.target s inner) s.last_assigned t c' p.1 a.1 d.1
          (AtHeads-extend w.target (frames s.rows) inner.streams ws d.0 h.1) rest))

atomic_checks-parts :
    (ws : List PlannedAppend) (inner : Inner) (r : StagedRuns)
    → atomic_checks ws inner ≡ ok r
    → AreDistinct (targets ws)
      × AllRuns ws
      × AtHeads inner.streams ws
      × (stage_runs inner.next_global_seq inner.next_global_seq ws ≡ ok r)
unfolding atomic_checks
atomic_checks-parts ws inner r h = (
  (validate_distinct_targets_iff (targets ws)).0 (ground (arith, h)),
  (validate_atomic_runs_iff ws).0 (ground (arith, h)),
  check_heads_sound 0 inner.streams ws (ground (arith, h)),
  ground (arith, h),
)

atomic_checks-IsWhole :
    (u : FromUtf8) (ws : List PlannedAppend) (inner : Inner) (r : StagedRuns)
    → AllWritesPending u ws
    → IsConsistent u inner
    → atomic_checks ws inner ≡ ok r
    → IsWhole u inner inner.next_global_seq ws r
atomic_checks-IsWhole u ws inner r p c h =
    let (distinct, runs, heads, staged) = atomic_checks-parts ws inner r h in
    stage_runs-IsWhole u ws inner inner.next_global_seq r c p runs distinct heads staged

-- `atomic_append_many` of runs of well-formed envelopes keeps the invariant of the store, on
-- success and on every error.
pub atomic_append_many-IsConsistent :
    (u : FromUtf8) (ws : List PlannedAppend) (inner : Inner)
    → AllWritesPending u ws
    → IsConsistent u inner
    → IsConsistent u (atomic_append_many ws inner).0
unfolding atomic_append_many
atomic_append_many-IsConsistent u [] inner p c = c
atomic_append_many-IsConsistent u (w ∷ ws) inner p c =
    elim (Result-cases (atomic_checks (w ∷ ws) inner)) [
      | inl (r, h) ↦
          rw (h, atomic_append_many) (atomic_checks-IsWhole u (w ∷ ws) inner r p c h).consistent
      | inr (e, h) ↦ rw (h, atomic_append_many) c
    ]

-- All or nothing, on a consistent store and for runs of well-formed envelopes: a successful
-- `atomic_append_many` had distinct targets, each at the version that its
-- write expects; every run then stands, readable, behind the rows of its target, no other stream
-- changes, and the position returned is the last one given. A failed one changes nothing. The empty
-- one, and no other, succeeds without a position, and it changes nothing.
pub atomic_append_many_whole :
    (u : FromUtf8) (ws : List PlannedAppend) (inner after : Inner)
    → AllWritesPending u ws
    → IsConsistent u inner
    → ((pos : ℕ)
        → atomic_append_many ws inner ≡ (after, ok (some pos))
        → AreDistinct (targets ws)
          × AtHeads inner.streams ws
          × AllLanded u inner.streams after.streams ws
          × ((j : StreamKey)
              → AllOther j (targets ws)
              → rows_of j after.streams ≡ rows_of j inner.streams)
          × (suc pos ≡ after.next_global_seq))
      × ((e : AtomicAppendError) → atomic_append_many ws inner ≡ (after, err e) → after ≡ inner)
      × ((atomic_append_many ws inner ≡ (after, ok none)) ↔ ((after ≡ inner) × (ws ≡ [])))
unfolding atomic_append_many commit_runs
atomic_append_many_whole u [] inner after p c = (
  λ pos h. absurd (ground arith),
  λ e h. absurd (ground arith),
  (λ h. (ground arith, refl), λ (same, _). rw same refl),
)
atomic_append_many_whole u (w ∷ ws) inner after p c =
    elim (Result-cases (atomic_checks (w ∷ ws) inner)) [
      | inl (r, h) ↦
          let i = atomic_checks-IsWhole u (w ∷ ws) inner r p c h in
          let (distinct, _, heads, _) = atomic_checks-parts (w ∷ ws) inner r h in
          (
            λ pos e.
                let same : commit_runs r.runs r.seq inner ≡ after = ground arith in
                let at : r.last_assigned ≡ pos = ground arith in
                (
                  distinct,
                  heads,
                  subst (λ (x : Inner). AllLanded u inner.streams x.streams (w ∷ ws)) same i.landed,
                  λ j o. rw (← same) (i.others j o),
                  ap suc (sym at)
                      ∙ i.position (inr (omega arith))
                      ∙ ap (λ (x : Inner). x.next_global_seq) same,
                ),
            λ e x. absurd (ground arith),
            (λ x. absurd (ground arith), λ (_, nothing). absurd (cc)),
          )
      | inr (e, h) ↦ (
        λ pos x. absurd (ground arith),
        λ y x. ground arith,
        (λ x. absurd (ground arith), λ (_, nothing). absurd (cc)),
      )
    ]
