-- ===== src/InMemory/Subscription/Log.antt =====
-- The in-memory store holds to what a subscription relies on: its scans are complete and yield the
-- entries of the log in order, and its appends wake.
use mnesis.Base.{
  ℕ, suc, ◌≤◌, ◌≡◌, ◌≢◌, ◌∙◌, refl, sym, ap, inl, inr, Option, none, some, List, ◌∷◌, arith, length,
  drop, Option-cases,
}
use mathlib.Core.Path.{subst}
use mnesis.Base.Words.{u64_max}
use mnesis.Base.Result.{Result, ok, err}
use mnesis.Kernel.Version
use mnesis.Kernel.Version.{Version}
use mnesis.Store.Value.{FromUtf8}
use mnesis.Store.Append.{StreamKey}
use mnesis.Store.Envelope.Persisted.{PersistedEnvelope}
use mnesis.Store.Subscription.Log.{IsLog}
use mnesis.InMemory.Streams.{rows_of}
use mnesis.InMemory.Frame.{frame_to_envelope}
use mnesis.InMemory.Store.{Inner}
use mnesis.InMemory.Read.{BatchSize, Item, batch_size_new, ReadState, read_stream, poll_next}
use mnesis.InMemory.Read.Scan.{at_least, at_least-cons}
use mnesis.InMemory.Read.Drain.{frame_to_envelope-version, at_least-readable}
use mnesis.InMemory.Subscription.{tag_next, resume, scan_from, next_of, stream_catchup}
use mnesis.InMemory.Subscription.Scan.{IsPaging, at_least-behind, poll_next-IsYield}
use mnesis.InMemory.Subscription.Growth.{
  Entry, log_of, log_of-cons, drop-log_of, length-log_of_le, IsSound, IsGrown, IsScan, IsAt,
  refl-IsGrown, trans-IsGrown, grown_log, grown-IsScan, grown_wakes,
}

pub ok_injective : {E A : Type 0} {a b : A} → ◌≡◌ {A = Result E A} (ok a) (ok b) → a ≡ b
ok_injective h = cc

some_ok_injective :
    {E A : Type 0} {a b : A} → ◌≡◌ {A = Option (Result E A)} (some (ok a)) (some (ok b)) → a ≡ b
some_ok_injective h = cc

tag_next-none :
    (out : Option Item × ReadState)
    → out.0 ≡ none
    → (item : Entry) (s : Option ReadState) → tag_next out ≢ (some (ok item), s)
tag_next-none (none, r) h item s e = cc
tag_next-none (some i, r) h item s e = cc

tag_next-some :
    (out : Option Item × ReadState) (i : Item)
    → out.0 ≡ some i
    → (s : Option ReadState) → tag_next out ≢ (none, s)
tag_next-some (none, r) i h s e = cc
tag_next-some (some j, r) i h s e = cc

tag_next-ok :
    (out : Option Item × ReadState) (p : PersistedEnvelope)
    → out.0 ≡ some (ok p)
    → tag_next out ≡ (some (ok (p.version, p)), some out.1)
tag_next-ok (none, r) p h = cc
tag_next-ok (some (err e), r) p h = absurd (ground arith)
tag_next-ok (some (ok q), r) p h =
    let same : q ≡ p = some_ok_injective h in
    ap (λ (x : PersistedEnvelope). (some (ok (x.version, x)), some r)) same

module _ (u : FromUtf8) (id : StreamKey) where
  module _ (size : ℕ) (batch : BatchSize) (sized : batch_size_new size ≡ some batch) where
    page_of : 1 ≤ batch.get
    page_of = unfold batch_size_new in ground (arith, sized)

    paging :
        (inner : Inner) (v : Version) (n : ℕ)
        → v.as_u64 ≡ suc n
        → IsPaging id
            (rows_of id inner.streams)
            (length (log_of u (rows_of id inner.streams)))
            n
            (read_stream batch id v)
    paging inner v n e = record {
      stream = refl;
      page = page_of;
      tail = at_least (suc n) (rows_of id inner.streams);
      split = refl;
      ended = λ d. absurd (cc);
      next = λ i. ok (record { as_u64 = e i });
      opened = length-log_of_le u (rows_of id inner.streams);
    }

    pub opens-IsScan :
        (inner : Inner) (p : Option Version) (n : ℕ)
        → IsSound u id inner
        → IsAt u id p n
        → IsScan u id inner
            (length (log_of u (rows_of id inner.streams)))
            n
            (scan_from batch id (resume p))
    opens-IsScan inner none n sound at = paging inner Version.initial n (omega (arith, at))
    opens-IsScan inner (some v) n sound at = elim (Option-cases (Version.next v)) [
      | inl e ↦
          rw e (
            omega
              (arith, sound.few, length-log_of_le u (rows_of id inner.streams), ceiling v e, at))
      | inr (v', e) ↦ rw e (paging inner v' n (ground (arith, e, at)))
    ]
      where
        ceiling : (x : Version) → Version.next x ≡ none → u64_max ≤ x.as_u64
        ceiling x e = ground arith

    pub ends_scan :
        (inner : Inner) (b n : ℕ) (s s' : Option ReadState)
        → IsSound u id inner
        → IsScan u id inner b n s
        → next_of u s inner ≡ (none, s')
        → b ≤ n
    ends_scan inner b n none s' sound h e = h
    ends_scan inner b n (some s) s' sound h e =
        elim (poll_next-IsYield u id inner sound.consistent sound.few b n s h) [
          | inr (q, le) ↦ le
          | inl (row, rest, split, y) ↦
              absurd (tag_next-some (poll_next u inner s) (frame_to_envelope u row) y.item s' e)
        ]

    -- An entry that a scan yields is the next one of the log.
    pub yields-IsScan :
        (inner : Inner) (b n : ℕ) (s s' : Option ReadState) (item : Entry)
        → IsSound u id inner
        → IsScan u id inner b n s
        → next_of u s inner ≡ (some (ok item), s')
        → ((rest : List Entry) × (drop n (log_of u (rows_of id inner.streams)) ≡ item ∷ rest))
          × IsScan u id inner b (suc n) s'
          × (item.0.as_u64 ≡ suc n)
    yields-IsScan inner b n none s' item sound h e = absurd (cc)
    yields-IsScan inner b n (some s) s' item sound h e =
        elim (poll_next-IsYield u id inner sound.consistent sound.few b n s h) [
          | inr (q, le) ↦ absurd (tag_next-none (poll_next u inner s) q item s' e)
          | inl (row, rest, split, y) ↦
              let c = sound.consistent in
              let rows = rows_of id inner.streams in
              let ((p, opens), low) =
                at_least-readable u rows (suc n) 1 row rest (c.gapless id) (c.readable id) split in
              let (at, _) =
                at_least-cons rows (suc n) 1 row rest (c.gapless id) (omega arith) split in
              let tagged = sym (tag_next-ok (poll_next u inner s) p (y.item ∙ ap some opens)) ∙ e in
              let same : (p.version, p) ≡ item = some_ok_injective (ap (λ x. x.0) tagged) in
              let entry : drop n (log_of u rows) ≡ (p.version, p) ∷ log_of u rest =
                drop-log_of u n rows (c.readable id)
                ∙ ap (log_of u) (sym (at_least-behind n rows (c.gapless id)) ∙ split)
                ∙ log_of-cons u row rest p opens in
              (
                (log_of u rest, entry ∙ ap (λ x. x ∷ log_of u rest) same),
                subst (IsScan u id inner b (suc n)) (ap (λ x. x.1) tagged) y.after,
                ap (λ x. x.0.as_u64) (sym same) ∙ frame_to_envelope-version u row p opens ∙ at,
              )
        ]

    -- `StreamCatchup` over the in-memory store holds to the laws of the subscription loop.
    abbrev pub stream_IsLog : IsLog (stream_catchup u batch id)
    stream_IsLog = record {
      log = λ inner. log_of u (rows_of id inner.streams);
      IsValid = IsSound u id;
      Grows = IsGrown u id;
      IsAt = λ inner. IsAt u id;
      IsScan = IsScan u id;
      grows_refl = refl-IsGrown u id;
      grows_trans = trans-IsGrown u id;
      grows_valid = λ g. g.sound;
      grows_log = grown_log u id;
      grows_at = λ {w} {w'} {p} {n} g h. h;
      grows_scan = λ {w} {w'} {b} {n} {s} g h. grown-IsScan u id b n s g h;
      opens = λ inner p n s sound at e.
          subst (IsScan u id inner (length (log_of u (rows_of id inner.streams))) n)
            (ok_injective e) (opens-IsScan inner p n sound at);
      yields = yields-IsScan;
      ends = ends_scan;
      wakes = λ sound g more. grown_wakes u id g more;
    }
