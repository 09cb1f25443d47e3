-- ===== src/InMemory/Append.antt =====
-- `append` against the invariant of the store, and its effect on the streams.
use mnesis.Base.{
  ℕ, suc, ◌+◌, ◌≤◌, ◌≡◌, refl, sym, ap, Option, List, [], ◌∷◌, ◌++◌, arith, length, if◌then◌else◌,
  inl, inr,
}
use mnesis.Base.Words.{u64_max}
use mnesis.Base.Result.{ok, err, Result-cases}
use mnesis.Kernel.Version.{Version}
use mnesis.Store.Value.{FromUtf8}
use mnesis.Store.Envelope.{PendingEnvelope, PendingBatch, batch_iter, batch_len}
use mnesis.Store.Append.{StreamKey, key_eq, validate_append_versions, actual_version}
use mnesis.Store.Append.Exact.{validate_append_iff}
use mnesis.InMemory.Streams.{rows_of, rows_of-extend}
use mnesis.InMemory.Frame.{StoredFrame}
use mnesis.InMemory.Store.{
  Inner, default, Staged, AppendError, stage, commit, frames, append, append_checks,
}
use mnesis.InMemory.Stage.{AllHold, AllPending, IsStaged, stage-IsStaged}
use mnesis.InMemory.Index.{frames_at}
use mnesis.InMemory.Consistent.{
  IsConsistent, IsRun, AllHold-AllReadable, AllHold-AreVersions, commit-IsConsistent,
}

pub length-AllHold :
    (u : FromUtf8) (rows : List (ℕ × StoredFrame)) (es : List PendingEnvelope)
    → AllHold u (frames rows) es
    → length rows ≡ length es
length-AllHold u [] [] h = refl
length-AllHold u [] (e ∷ es) h = elim h [ ]
length-AllHold u (r ∷ rows) [] h = elim h [ ]
length-AllHold u (r ∷ rows) (e ∷ es) h = ap suc (length-AllHold u rows es h.1)

append_checks_parts :
    (id : StreamKey) (expected : Option Version) (batch : PendingBatch) (inner : Inner) (s : Staged)
    → append_checks id expected batch inner ≡ ok s
    → (length (rows_of id inner.streams) ≤ u64_max)
      × (validate_append_versions (length (rows_of id inner.streams)) expected batch id ≡ ok tt)
      × (stage inner.next_global_seq inner.next_global_seq (batch_iter batch) ≡ ok s)
unfolding append_checks
append_checks_parts id expected batch inner s h = ground arith

-- What passes the checks of `append` is a run on top of its stream, expected by the caller.
pub append_checks-IsRun :
    (u : FromUtf8) (id : StreamKey) (expected : Option Version) (batch : PendingBatch)
    (inner : Inner) (s : Staged)
    → AllPending u (batch_iter batch)
    → inner.next_global_seq ≤ u64_max
    → append_checks id expected batch inner ≡ ok s
    → IsRun u id inner s
      × (expected ≡ actual_version (length (rows_of id inner.streams)))
      × IsStaged u inner.next_global_seq inner.next_global_seq (batch_iter batch) s
append_checks-IsRun u id expected batch inner s p top h =
    let n : ℕ = length (rows_of id inner.streams) in
    let (fits, valid, staged) = append_checks_parts id expected batch inner s h in
    let (head, vs, _) = (validate_append_iff n expected batch id fits).0 valid in
    let st = stage-IsStaged u (batch_iter batch) inner.next_global_seq _ s p top staged in
    (
      record {
        positions = st.positions;
        next = omega (arith, st.next, length-AllHold u s.rows (batch_iter batch) st.held);
        bound = st.bound;
        readable = AllHold-AllReadable u (frames s.rows) (batch_iter batch) st.held;
        versions = AllHold-AreVersions u (frames s.rows) (batch_iter batch) (suc n) st.held vs;
      },
      head,
      st,
    )

-- `append` of a batch of well-formed envelopes keeps the invariant, on success and on every error.
pub append-IsConsistent :
    (u : FromUtf8) (id : StreamKey) (expected : Option Version) (batch : PendingBatch)
    (inner : Inner)
    → AllPending u (batch_iter batch)
    → IsConsistent u inner
    → IsConsistent u (append id expected batch inner).0
unfolding append
append-IsConsistent u id expected batch inner p c =
    elim (Result-cases (append_checks id expected batch inner)) [
      | inl (s, h) ↦
          rw (h, append)
            (commit-IsConsistent u id inner s c
              (append_checks-IsRun u id expected batch inner s p c.counter h).0)
      | inr (e, h) ↦ rw (h, append) c
    ]

-- The empty store is consistent.
pub default-IsConsistent : (u : FromUtf8) → IsConsistent u default
default-IsConsistent u = record {
  ascending = omega arith;
  counter = omega arith;
  agree = λ id. unfold frames_at rows_of in refl;
  gapless = λ id. unfold rows_of in tt;
  readable = λ id. unfold rows_of in tt;
}

-- On a consistent store, a successful `append` of a batch of well-formed envelopes was expected at
-- the head of its stream; it advances the counter by the length of the batch; it puts the batch,
-- readable, behind the rows of its stream and touches no other stream; it returns the position of
-- its last event, which is the last position given; and it wakes its stream once. A failed one
-- changes nothing.
pub append_effect :
    (u : FromUtf8) (id : StreamKey) (expected : Option Version) (batch : PendingBatch)
    (inner after : Inner)
    → AllPending u (batch_iter batch)
    → IsConsistent u inner
    → ((pos : ℕ)
        → append id expected batch inner ≡ (after, ok pos)
        → (expected ≡ actual_version (length (rows_of id inner.streams)))
          × ((new : List StoredFrame) × AllHold u new (batch_iter batch)
              × ((j : StreamKey)
                  → rows_of j after.streams ≡ (
                      if key_eq id j
                      then rows_of id inner.streams ++ new
                      else rows_of j inner.streams)))
          × (suc pos ≡ after.next_global_seq)
          × (after.next_global_seq ≡ inner.next_global_seq + batch_len batch)
          × (after.woken ≡ inner.woken ++ (id ∷ [])))
      × ((e : AppendError) → append id expected batch inner ≡ (after, err e) → after ≡ inner)
unfolding append commit
append_effect u id expected batch inner after p c =
    elim (Result-cases (append_checks id expected batch inner)) [
      | inl (s, h) ↦
          let (run, head, st) = append_checks-IsRun u id expected batch inner s p c.counter h in
          (
            λ pos e.
                let same : commit id s inner ≡ after = ground arith in
                let at : s.last_assigned ≡ pos = ground arith in
                (
                  head,
                  (
                    frames s.rows,
                    st.held,
                    λ j. rw (← same) (rows_of-extend id j (frames s.rows) inner.streams),
                  ),
                  omega (
                    arith,
                    st.last (inr (omega arith)),
                    at,
                    ap (λ (x : Inner). x.next_global_seq) same,
                  ),
                  omega (arith, st.next, ap (λ (x : Inner). x.next_global_seq) same),
                  ap (λ (x : Inner). x.woken) (sym same),
                ),
            λ x e. ground arith,
          )
      | inr (x, h) ↦ (λ pos e. absurd (ground arith), λ y e. ground arith)
    ]
