-- ===== src/InMemory/Read/Drain.antt =====
-- A read stream drained against a store at rest: every page in turn, until the stream ends.
use mnesis.Base.{
  ℕ, zero, suc, ◌≤◌, ◌<◌, ◌+◌, ◌≡◌, ◌∙◌, refl, sym, ap, inl, inr, true, Option, none, some, List,
  [], ◌∷◌, ◌++◌, map, arith, length, take, drop, take-append-drop, leb, List-cases, Bool-cases,
}
use mathlib.Core.Path.{subst}
use mnesis.Base.Words.{u64_max}
use mnesis.Base.Result.{ok}
use mnesis.Kernel.Version.{Version, IsVersion}
use mnesis.Store.Value.{FromUtf8}
use mnesis.Store.Envelope.Persisted.{PersistedEnvelope, try_new}
use mnesis.Store.Append.{StreamKey}
use mnesis.InMemory.Streams.{rows_of}
use mnesis.InMemory.Frame.{StoredFrame, frame_to_envelope}
use mnesis.InMemory.Store.{Inner}
use mnesis.InMemory.Consistent.{AreVersions, AllReadable, IsConsistent}
use mnesis.InMemory.Read.{
  BatchSize, batch_size_new, ReadState, Item, next_read_version, refill, yield_row, after_refill,
  next_page, poll_next, read_stream, drain,
}
use mnesis.InMemory.Read.Page.{short_page, take-nil, take-ne-nil}
use mnesis.InMemory.Read.Scan.{
  at_least, at_least-cons, scan_batch-at_least, length-at_least, at_least-AllReadable,
}

pub frame_to_envelope-version :
    (u : FromUtf8) (f : StoredFrame) (p : PersistedEnvelope)
    → frame_to_envelope u f ≡ ok p
    → p.version.as_u64 ≡ f.version
unfolding frame_to_envelope try_new
frame_to_envelope-version u f p h = ground arith

-- A row from `from` on is readable, and its version is one of the stream's.
pub at_least-readable :
    (u : FromUtf8) (rows : List StoredFrame) (from m : ℕ) (row : StoredFrame)
    (rest : List StoredFrame)
    → AreVersions m rows
    → AllReadable u rows
    → at_least from rows ≡ row ∷ rest
    → ((p : PersistedEnvelope) × (frame_to_envelope u row ≡ ok p)) × (row.version < m + length rows)
unfolding at_least
at_least-readable u [] from m row rest h r e = absurd (ground arith)
at_least-readable u (f ∷ rows) from m row rest h r e = elim (Bool-cases (leb from f.version)) [
  | inl here ↦
      let same : f ≡ row = ground (arith, here, e) in
      subst
        (λ x.
          ((p : PersistedEnvelope) × (frame_to_envelope u x ≡ ok p))
          × (x.version < m + suc (length rows)))
        same ((r.0.1.persisted, r.0.1.readable), omega (arith, h.0))
  | inr below ↦
      let (p, low) =
        at_least-readable u rows from (suc m) row rest h.1 r.1 (ground (arith, below, e)) in
      (p, omega (arith, low))
]

-- The stream stands before version `n` of its rows: the buffer is the front of what is left, all of
-- it once the paging is over, and the next page starts at `n`.
record IsAt (id : StreamKey) (rows : List StoredFrame) (n : ℕ) (s : ReadState) : Type 0 where
  stream : s.stream_id ≡ id
  page : 1 ≤ s.batch_size
  tail : List StoredFrame
  split : at_least n rows ≡ s.buffer ++ tail
  ended : s.done ≡ true → tail ≡ []
  next : next_read_version s ≡ ok (record { as_u64 = n })
  from_one : 1 ≤ n

module _ (u : FromUtf8) (id : StreamKey) (inner : Inner) (c : IsConsistent u inner)
    (few : length (rows_of id inner.streams) < u64_max) where
  abbrev rows : List StoredFrame
  rows = rows_of id inner.streams

  -- `out` delivers `row`, and leaves the stream behind version `n`.
  record Delivers (n : ℕ) (row : StoredFrame) (out : Option Item × ReadState) : Type 0 where
    item : out.0 ≡ some (frame_to_envelope u row)
    after : IsAt id rows (suc n) out.1

  yield_row-Delivers :
      (n : ℕ) (s : ReadState) (row : StoredFrame) (rest tail : List StoredFrame)
      → s.stream_id ≡ id
      → 1 ≤ s.batch_size
      → at_least n rows ≡ row ∷ (rest ++ tail)
      → (s.done ≡ true → tail ≡ [])
      → 1 ≤ n
      → Delivers n row (yield_row u s row rest)
  unfolding yield_row
  yield_row-Delivers n s row rest tail hs hb e ended hn =
      let ((p, opened), low) =
        at_least-readable u rows n 1 row (rest ++ tail) (c.gapless id) (c.readable id) e in
      let (at, e') = at_least-cons rows n 1 row (rest ++ tail) (c.gapless id) hn e in
      let v = frame_to_envelope-version u row p opened in
      rw (opened, yield_row)
        (record {
          item = ap some (sym opened);
          after = record {
            stream = hs;
            page = hb;
            tail = tail;
            split = e';
            ended = ended;
            next = ground (arith, v, at, low, few);
            from_one = omega arith;
          };
        })

  refill-buffer :
      (n : ℕ) (s : ReadState)
      → IsAt id rows n s
      → (refill inner (record { as_u64 = n }) s).buffer ≡ take s.batch_size (at_least n rows)
  refill-buffer n s a = rw a.stream (scan_batch-at_least rows n 1 s.batch_size (c.gapless id))

  after_refill-Delivers :
      (n : ℕ) (s : ReadState) (row : StoredFrame) (rest : List StoredFrame)
      → IsAt id rows n s
      → at_least n rows ≡ row ∷ rest
      → Delivers n row (after_refill u (refill inner (record { as_u64 = n }) s))
  unfolding after_refill
  after_refill-Delivers n s row rest a e =
      elim (List-cases (refill inner (record { as_u64 = n }) s).buffer) [
        | inl b ↦ absurd (
            take-ne-nil s.batch_size row rest a.page
              (ap (take s.batch_size) (sym e) ∙ sym (refill-buffer n s a) ∙ b))
        | inr (x, xs, b) ↦
            let k : ℕ = s.batch_size in
            let left : List StoredFrame = at_least n rows in
            let page : take k left ≡ x ∷ xs = sym (refill-buffer n s a) ∙ b in
            let split : left ≡ x ∷ (xs ++ drop k left) =
              sym (take-append-drop k left) ∙ ap (λ l. l ++ drop k left) page in
            let same : x ≡ row = cc (split, e) in
            subst (λ r. Delivers n r (after_refill u (refill inner (record { as_u64 = n }) s))) same
              (rw (b, after_refill)
                (yield_row-Delivers n (refill inner (record { as_u64 = n }) s) x xs (drop k left)
                  a.stream a.page split (λ d. short_page k left (rw (← refill-buffer n s a) d))
                  a.from_one))
      ]

  poll_next-Delivers :
      (n : ℕ) (s : ReadState) (row : StoredFrame) (rest : List StoredFrame)
      → IsAt id rows n s
      → at_least n rows ≡ row ∷ rest
      → Delivers n row (poll_next u inner s)
  unfolding poll_next next_page
  poll_next-Delivers n s row rest a e = elim (List-cases s.buffer) [
    | inl b ↦ elim (Bool-cases s.done) [
      | inl d ↦ absurd (cc (a.split, a.ended d, b, e))
      | inr d ↦ rw (b, d, a.next, poll_next, next_page) (after_refill-Delivers n s row rest a e)
    ]
    | inr (x, xs, b) ↦
        let split : at_least n rows ≡ x ∷ (xs ++ a.tail) = a.split ∙ ap (λ l. l ++ a.tail) b in
        let same : x ≡ row = cc (split, e) in
        subst (λ r. Delivers n r (poll_next u inner s)) same
          (rw (b, poll_next)
            (yield_row-Delivers n s x xs a.tail a.stream a.page split a.ended a.from_one))
  ]

  poll_next-end :
      (n : ℕ) (s : ReadState)
      → IsAt id rows n s
      → at_least n rows ≡ []
      → (poll_next u inner s).0 ≡ none
  unfolding poll_next next_page after_refill
  poll_next-end n s a e = elim (List-cases s.buffer) [
    | inl b ↦ elim (Bool-cases s.done) [
      | inl d ↦ rw (b, d, poll_next, next_page) refl
      | inr d ↦
          let page : (refill inner (record { as_u64 = n }) s).buffer ≡ [] =
            refill-buffer n s a ∙ ap (take s.batch_size) e ∙ take-nil s.batch_size in
          rw (b, d, a.next, page, poll_next, next_page, after_refill) refl
    ]
    | inr (x, xs, b) ↦ absurd (cc (a.split, b, e))
  ]

  drain-IsAt :
      (fuel n : ℕ) (s : ReadState)
      → IsAt id rows n s
      → length (at_least n rows) < fuel
      → drain fuel u inner s ≡ map (frame_to_envelope u) (at_least n rows)
  unfolding drain
  drain-IsAt zero n s a enough = absurd (omega arith)
  drain-IsAt (suc fuel) n s a enough = elim (List-cases (at_least n rows)) [
    | inl e ↦ rw (e, poll_next-end n s a e, drain) refl
    | inr (row, rest, e) ↦
        let d = poll_next-Delivers n s row rest a e in
        let (_, e') = at_least-cons rows n 1 row rest (c.gapless id) a.from_one e in
        let less : length (at_least (suc n) rows) < fuel = ground (arith, e, e', enough) in
        rw (e, d.item, drain)
          (ap (λ l. frame_to_envelope u row ∷ l)
            (drain-IsAt fuel (suc n) (poll_next u inner s).1 d.after less
              ∙ ap (map (frame_to_envelope u)) e'))
  ]

  -- On a consistent store, a stream opened at `from` and polled until it ends delivers every row of
  -- its stream at `from` and above, once and in order, whatever the page size, and each of them
  -- opens; one poll more than there are rows is enough. The stream has fewer than `u64::MAX` rows.
  pub drain-read_stream :
      (size fuel : ℕ) (batch : BatchSize) (from : Version)
      → batch_size_new size ≡ some batch
      → IsVersion from
      → length (rows_of id inner.streams) < fuel
      → (drain fuel u inner (read_stream batch id from)
          ≡ map (frame_to_envelope u) (at_least from.as_u64 (rows_of id inner.streams)))
        × AllReadable u (at_least from.as_u64 (rows_of id inner.streams))
  unfolding batch_size_new
  drain-read_stream size fuel batch from sized v enough = (
    drain-IsAt fuel from.as_u64 (read_stream batch id from)
        (record {
          stream = refl;
          page = ground (arith, sized);
          tail = at_least from.as_u64 rows;
          split = refl;
          ended = λ d. absurd (cc);
          next = refl;
          from_one = v.0;
        })
        (omega (arith, length-at_least from.as_u64 rows)),
    at_least-AllReadable u from.as_u64 rows (c.readable id),
  )
