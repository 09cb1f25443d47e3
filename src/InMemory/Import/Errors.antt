-- ===== src/InMemory/Import/Errors.antt =====
-- Which errors the parts of a whole-chunk import can end in.
use mnesis.Base.{ℕ, suc, ◌≡◌, ◌≢◌, inl, inr, none, some, List, [], ◌∷◌, map, arith, Option-cases}
use mnesis.Base.Result.{ok, err, ◌>>=◌, Result-cases}
use mnesis.Kernel.Version
use mnesis.Kernel.Version.{Version}
use mnesis.Store.Append.{StreamKey}
use mnesis.Store.Import.{
  PlannedAppend, InvalidRun, targets, validate_atomic_runs, validate_distinct_targets,
}
use mnesis.Store.Import.Valid.{AllRuns, validate_atomic_runs_iff}
use mnesis.Store.Import.Plan.{StreamSection, SectionPlan, run, empty, first_corrupt, plan_section}
use mnesis.InMemory.Frame.{StoredFrame}
use mnesis.InMemory.Store.{Inner}
use mnesis.InMemory.Atomic.{
  AtomicAppendError, atomic_append_many, atomic_checks, check_heads, stage_runs,
}
use mnesis.InMemory.Import.{
  ImportError, zip, ChunkWrite, chunk_write, chunk_writes, chunk_error, map_atomic_conflict,
  get_or_first, route_sections,
}
use mnesis.InMemory.Import.Section.{Halt-cases}

heads_no_invalid_run :
    (i : ℕ) (streams : List (StreamKey × List StoredFrame)) (ws : List PlannedAppend)
    (e : InvalidRun)
    → check_heads i streams ws ≢ err (AtomicAppendError.invalid_run e)
unfolding check_heads
heads_no_invalid_run i streams [] e h = cc
heads_no_invalid_run i streams (w ∷ ws) e h =
    ground (arith, heads_no_invalid_run (suc i) streams ws e)

-- The commit of a planned chunk never meets a malformed run.
pub no_invalid_run :
    (ws : List PlannedAppend) (inner : Inner) (e : InvalidRun)
    → AllRuns ws
    → (atomic_append_many ws inner).1 ≢ err (AtomicAppendError.invalid_run e)
unfolding atomic_append_many atomic_checks
no_invalid_run [] inner e runs h = cc
no_invalid_run (w ∷ ws) inner e runs h =
    let valid : validate_atomic_runs (w ∷ ws) ≡ ok tt =
      (validate_atomic_runs_iff (w ∷ ws)).1 runs in
    elim (Result-cases (validate_distinct_targets (targets (w ∷ ws)))) [
      | inr (x, d) ↦ absurd (ground (arith, valid, d, h))
      | inl (x, d) ↦ elim (Result-cases (check_heads 0 inner.streams (w ∷ ws))) [
        | inr (y, q) ↦
            absurd (ground (arith, valid, d, q, h, heads_no_invalid_run 0 inner.streams (w ∷ ws) e))
        | inl (y, q) ↦
            elim (Result-cases (stage_runs inner.next_global_seq inner.next_global_seq (w ∷ ws))) [
              | inr (z, st) ↦ absurd (ground (arith, valid, d, q, st, h))
              | inl (z, st) ↦ absurd (ground (arith, valid, d, q, st, h))
            ]
      ]
    ]

pub chunk_error-valid :
    (ws : List ChunkWrite) (x : AtomicAppendError) (e : InvalidRun)
    → chunk_error ws x ≡ ImportError.invalid_run e
    → x ≡ AtomicAppendError.invalid_run e
unfolding map_atomic_conflict
chunk_error-valid ws (AtomicAppendError.invalid_run y) e h = ground arith
chunk_error-valid ws (AtomicAppendError.invalid_route y) e h = absurd (cc)
chunk_error-valid ws (AtomicAppendError.store y) e h = absurd (cc)
chunk_error-valid ws (AtomicAppendError.conflict index none) e h =
    elim (Option-cases (get_or_first ws index)) [
      | inl q ↦ absurd (ground (arith, q, h))
      | inr (w, q) ↦ absurd (ground (arith, q, h))
    ]
chunk_error-valid ws (AtomicAppendError.conflict index (some v)) e h =
    elim (Option-cases (get_or_first ws index)) [
      | inl q ↦ absurd (ground (arith, q, h))
      | inr (w, q) ↦ elim (Option-cases (Version.next v)) [
        | inl n ↦ absurd (ground (arith, q, n, h))
        | inr (next, n) ↦ absurd (ground (arith, q, n, h))
      ]
    ]

chunk_write-valid :
    (s : StreamSection) (t : StreamKey) (x : InvalidRun)
    → chunk_write s t ≢ err (ImportError.invalid_run x)
unfolding chunk_write
chunk_write-valid s t x e = elim (Result-cases (plan_section s)) [
  | inr (y, q) ↦ ground (arith, q, e)
  | inl (plan, q) ↦ go plan q
]
  where
    go : (plan : SectionPlan) → plan_section s ≡ ok plan → ⊥
    go empty q = ground (arith, q, e)
    go first_corrupt q = ground (arith, q, e)
    go (run p) q = elim (Halt-cases p.halt) [
      | inl done ↦ ground (arith, q, done, e)
      | inr (inl bad) ↦ ground (arith, q, bad, e)
      | inr (inr (got, off)) ↦ elim (Option-cases (Version.next p.last)) [
        | inl over ↦ ground (arith, q, off, over, e)
        | inr (next, n) ↦ ground (arith, q, off, n, e)
      ]
    ]

chunk_writes-valid :
    (pairs : List (StreamSection × StreamKey)) (x : InvalidRun)
    → chunk_writes pairs ≢ err (ImportError.invalid_run x)
unfolding chunk_writes
chunk_writes-valid [] x e = cc
chunk_writes-valid ((s, t) ∷ pairs) x e = elim (Result-cases (chunk_write s t)) [
  | inr (y, q) ↦ ground (arith, q, e, chunk_write-valid s t x)
  | inl (y, q) ↦ elim (Result-cases (chunk_writes pairs)) [
    | inr (z, r) ↦ ground (arith, q, r, e, chunk_writes-valid pairs x)
    | inl (z, r) ↦ ground (arith, q, r, e)
  ]
]

-- Neither routing nor planning reports a malformed run.
pub plan-valid :
    (sections : List StreamSection) (route : List ℕ → StreamKey) (x : InvalidRun)
    → (route_sections sections route >>= λ targets. chunk_writes (zip sections targets))
      ≢ err (ImportError.invalid_run x)
unfolding route_sections
plan-valid sections route x e =
    elim (Result-cases (validate_distinct_targets (map (λ s. route s.origin) sections))) [
      | inr (y, q) ↦ ground (arith, q, e)
      | inl (y, q) ↦
          chunk_writes-valid (zip sections (map (λ s. route s.origin) sections)) x
            (ground (arith, q, e))
    ]
