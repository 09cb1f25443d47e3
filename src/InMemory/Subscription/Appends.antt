-- ===== src/InMemory/Subscription/Appends.antt =====
-- The in-memory store under a subscription: what an append does to the log of a stream, and that
-- its scans do not fail.
use mnesis.Base.{
  ℕ, suc, ◌+◌, ◌<◌, ◌≡◌, ◌≢◌, ◌∙◌, refl, sym, ap, inl, inr, Option, none, some, [], ◌∷◌, ◌++◌,
  arith, length, Bool-cases, if◌then◌else◌,
}
use mathlib.Core.List.{append-nil}
use mathlib.Core.Path.{subst}
use mnesis.Base.Words.{u64_max}
use mnesis.Base.Result.{ok, err, Result-cases}
use mnesis.Kernel.Version.{Version}
use mnesis.Store.Value.{FromUtf8}
use mnesis.Store.Append.{StreamKey, key_eq}
use mnesis.Store.Envelope.{PendingBatch, batch_iter}
use mnesis.Store.Subscription.Progress.{IsWorking}
use mnesis.InMemory.Streams.{rows_of, key_eq→eq, key_eq_refl}
use mnesis.Store.Envelope.Persisted.{PersistedEnvelope}
use mnesis.InMemory.Frame.{InMemoryStoreError}
use mnesis.InMemory.Store.{Inner, append}
use mnesis.InMemory.Stage.{AllPending}
use mnesis.InMemory.Consistent.{IsConsistent}
use mnesis.InMemory.Append.{append_effect, append-IsConsistent}
use mnesis.InMemory.Read.{BatchSize, Item, batch_size_new, ReadState, poll_next}
use mnesis.InMemory.Read.Drain.{at_least-readable}
use mnesis.InMemory.Subscription.{tag_next, resume, scan_from, wakes_of, stream_catchup, next_of}
use mnesis.InMemory.Subscription.Scan.{poll_next-IsYield}
use mnesis.InMemory.Subscription.Growth.{IsSound, IsGrown, IsScan, refl-IsGrown, wakes_of-append}
use mnesis.InMemory.Subscription.Log.{stream_IsLog}

module _ (u : FromUtf8) (id : StreamKey) where
  -- Any append to a consistent store, to any stream and with any outcome, grows the log of the
  -- stream `id` or leaves it, and wakes the stream when it has grown. The batch is of well-formed
  -- envelopes, and the stream stays below `u64::MAX` rows.
  pub append-IsGrown :
      (key : StreamKey) (expected : Option Version) (batch : PendingBatch) (inner : Inner)
      → AllPending u (batch_iter batch)
      → IsConsistent u inner
      → length (rows_of id (append key expected batch inner).0.streams) < u64_max
      → IsGrown u id inner (append key expected batch inner).0
  append-IsGrown key expected batch inner pending c few =
      let after : Inner = (append key expected batch inner).0 in
      let sound : IsSound u id after = record {
        consistent = append-IsConsistent u key expected batch inner pending c;
        few = few;
      } in
      let (good, bad) = append_effect u key expected batch inner after pending c in
      elim (Result-cases (append key expected batch inner).1) [
        | inr (e, q) ↦
            subst (IsGrown u id inner) (sym (bad e (λ i. (after, q i)))) (refl-IsGrown u id inner)
        | inl (pos, q) ↦
            let (_, (new, _, rows), _, _, woken) = good pos (λ i. (after, q i)) in
            let heard : wakes_of id after.woken ≡ wakes_of id inner.woken + wakes_of id (key ∷ []) =
              ap (wakes_of id) woken ∙ wakes_of-append id inner.woken (key ∷ []) in
            elim (Bool-cases (key_eq key id)) [
              | inl own ↦
                  let same : key ≡ id = key_eq→eq key id own in
                  let once : wakes_of id (key ∷ []) ≡ 1 =
                    unfold wakes_of in rw (same, key_eq_refl id, wakes_of) refl in
                  record {
                    new = new;
                    rows =
                        rows id
                        ∙ ap
                            (λ b.
                              if b
                              then rows_of key inner.streams ++ new
                              else rows_of id inner.streams)
                            own
                        ∙ ap (λ k. rows_of k inner.streams ++ new) same;
                    heard = omega (arith, heard);
                    woke = λ h. omega (arith, heard, once);
                    sound = λ h. sound;
                  }
              | inr other ↦ record {
                new = [];
                rows =
                    rows id
                    ∙ ap
                        (λ b.
                          if b then rows_of key inner.streams ++ new else rows_of id inner.streams)
                        other
                    ∙ sym (append-nil (rows_of id inner.streams));
                heard = omega (arith, heard);
                woke = λ h. absurd (omega arith);
                sound = λ h. sound;
              }
            ]
      ]

  tag_next-err :
      (out : Option Item × ReadState) (p : PersistedEnvelope) (e : InMemoryStoreError)
      → out.0 ≡ some (ok p)
      → (tag_next out).0 ≢ some (err e)
  tag_next-err (none, r) p e h = cc
  tag_next-err (some (err x), r) p e h = absurd (ground arith)
  tag_next-err (some (ok q), r) p e h = λ x. absurd (ground arith)

  tag_next-end :
      (out : Option Item × ReadState) (e : InMemoryStoreError)
      → out.0 ≡ none
      → (tag_next out).0 ≢ some (err e)
  tag_next-end (none, r) e h = λ x. cc
  tag_next-end (some i, r) e h = cc

  never_fails :
      (inner : Inner)
      → IsSound u id inner
      → (b n : ℕ) (s : Option ReadState) (e : InMemoryStoreError) → IsScan u id inner b n s
      → (next_of u s inner).0 ≢ some (err e)
  never_fails inner sound b n none e h = λ x. cc
  never_fails inner sound b n (some s) e h =
      elim (poll_next-IsYield u id inner sound.consistent sound.few b n s h) [
        | inr (q, le) ↦ tag_next-end (poll_next u inner s) e q
        | inl (row, rest, split, y) ↦
            let c = sound.consistent in
            let ((p, opens), _) =
              at_least-readable u (rows_of id inner.streams) (suc n) 1 row rest (c.gapless id)
                (c.readable id) split in
            tag_next-err (poll_next u inner s) p e (y.item ∙ ap some opens)
      ]

  module _ (size : ℕ) (batch : BatchSize) (sized : batch_size_new size ≡ some batch) where
    -- The adapter never fails on a sound store.
    pub stream-IsWorking :
        (inner : Inner) (n : ℕ)
        → IsSound u id inner
        → IsWorking (stream_catchup u batch id) (stream_IsLog u id size batch sized) inner n
    stream-IsWorking inner n sound = record {
      reads = λ p. (scan_from batch id (resume p), refl);
      scans = never_fails inner sound;
    }
