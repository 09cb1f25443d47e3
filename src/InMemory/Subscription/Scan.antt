-- ===== src/InMemory/Subscription/Scan.antt =====
-- A scan of a stream that grows while it is paged: it yields the rows in order, and it does not end
-- before the rows that were there when it was opened.
use mnesis.Base.{
  ℕ, zero, suc, ◌≤◌, ◌<◌, ◌+◌, ◌≡◌, ◌∙◌, refl, sym, ap, inl, inr, ◌⊎◌, true, Option, none, some,
  List, [], ◌∷◌, ◌++◌, arith, length, take, drop, take-append-drop, length-append, length-take,
  List-cases, Bool-cases,
}
use mnesis.Base.Words.{u64_max}
use mnesis.Base.Result.{ok}
use mnesis.Store.Value.{FromUtf8}
use mnesis.Store.Append.{StreamKey}
use mnesis.InMemory.Streams.{rows_of}
use mnesis.InMemory.Frame.{StoredFrame, frame_to_envelope}
use mnesis.InMemory.Store.{Inner}
use mnesis.InMemory.Consistent.{AreVersions, IsConsistent}
use mnesis.InMemory.Read.{
  ReadState, Item, next_read_version, refill, yield_row, after_refill, next_page, poll_next,
}
use mnesis.InMemory.Read.Page.{short_page, take-nil, take-ne-nil}
use mnesis.InMemory.Read.Scan.{at_least, at_least-cons, at_least-all, scan_batch-at_least}
use mnesis.InMemory.Read.Drain.{frame_to_envelope-version, at_least-readable}

-- The first `n` rows are behind the stream; its buffer is the front of what is left, and once it
-- pages no more the buffer reaches the `b` rows that it was opened over.
pub record IsPaging (id : StreamKey) (rows : List StoredFrame) (b n : ℕ) (s : ReadState)
    : Type 0 where
  pub stream : s.stream_id ≡ id
  pub page : 1 ≤ s.batch_size
  pub tail : List StoredFrame
  pub split : at_least (suc n) rows ≡ s.buffer ++ tail
  pub ended : s.done ≡ true → b ≤ n + length s.buffer
  pub next : next_read_version s ≡ ok (record { as_u64 = suc n })
  pub opened : b ≤ length rows

-- The rows from version `m + n` on are those behind the first `n`.
pub at_least-drop :
    (n m : ℕ) (rows : List StoredFrame) → AreVersions m rows → at_least (m + n) rows ≡ drop n rows
unfolding at_least
at_least-drop zero m rows h = at_least-all (m + zero) m rows h (omega arith)
at_least-drop (suc n) m [] h = refl
at_least-drop (suc n) m (row ∷ rows) h = ground (arith, h.0, at_least-drop n (suc m) rows h.1)

-- Versions start at 1.
pub at_least-behind :
    (n : ℕ) (rows : List StoredFrame) → AreVersions 1 rows → at_least (suc n) rows ≡ drop n rows
at_least-behind n rows h = rw (suc_of n) (at_least-drop n 1 rows h)
  where
    suc_of : (k : ℕ) → suc k ≡ 1 + k
    suc_of k = omega arith

length-left :
    (n : ℕ) (rows : List StoredFrame)
    → AreVersions 1 rows
    → length rows ≤ n + length (at_least (suc n) rows)
length-left n rows h = omega (
  arith,
  ap length (at_least-behind n rows h),
  ap length (take-append-drop n rows),
  length-append (take n rows) (drop n rows),
  length-take n rows,
)

module _ (u : FromUtf8) (id : StreamKey) (inner : Inner) (c : IsConsistent u inner)
    (few : length (rows_of id inner.streams) < u64_max) where
  abbrev rows : List StoredFrame
  rows = rows_of id inner.streams

  pub record IsYield (b n : ℕ) (row : StoredFrame) (out : Option Item × ReadState) : Type 0 where
    pub item : out.0 ≡ some (frame_to_envelope u row)
    pub after : IsPaging id rows b (suc n) out.1

  yield_row-IsYield :
      (b n : ℕ) (s : ReadState) (row : StoredFrame) (rest tail : List StoredFrame)
      → s.stream_id ≡ id
      → 1 ≤ s.batch_size
      → at_least (suc n) rows ≡ row ∷ (rest ++ tail)
      → (s.done ≡ true → b ≤ n + suc (length rest))
      → b ≤ length rows
      → IsYield b n row (yield_row u s row rest)
  unfolding yield_row
  yield_row-IsYield b n s row rest tail hs hb e ended opened =
      let ((p, opens), low) =
        at_least-readable u rows (suc n) 1 row (rest ++ tail) (c.gapless id) (c.readable id) e in
      let (at, e') =
        at_least-cons rows (suc n) 1 row (rest ++ tail) (c.gapless id) (omega arith) e in
      let v = frame_to_envelope-version u row p opens in
      rw (opens, yield_row)
        (record {
          item = ap some (sym opens);
          after = record {
            stream = hs;
            page = hb;
            tail = tail;
            split = e';
            ended = λ d. omega (arith, ended d);
            next = ground (arith, v, at, low, few);
            opened = opened;
          };
        })

  -- The next poll yields the next row, or it ends the stream, which then has come to the rows that
  -- it was opened over.
  pub poll_next-IsYield :
      (b n : ℕ) (s : ReadState)
      → IsPaging id rows b n s
      → ((row : StoredFrame) × (rest : List StoredFrame) × (at_least (suc n) rows ≡ row ∷ rest)
          × IsYield b n row (poll_next u inner s))
        ⊎ (((poll_next u inner s).0 ≡ none) × (b ≤ n))
  unfolding poll_next next_page after_refill
  poll_next-IsYield b n s a = elim (List-cases s.buffer) [
    | inr (x, xs, q) ↦
        let split : at_least (suc n) rows ≡ x ∷ (xs ++ a.tail) =
          a.split ∙ ap (λ l. l ++ a.tail) q in
        inl (
          x,
          xs ++ a.tail,
          split,
          rw (q, poll_next)
              (yield_row-IsYield b n s x xs a.tail a.stream a.page split
                (λ d. omega (arith, a.ended d, ap length q)) a.opened),
        )
    | inl q ↦ elim (Bool-cases s.done) [
      | inl d ↦ inr (rw (q, d, poll_next, next_page) refl, omega (arith, a.ended d, ap length q))
      | inr d ↦
          let k : ℕ = s.batch_size in
          let left : List StoredFrame = at_least (suc n) rows in
          let full : (refill inner (record { as_u64 = suc n }) s).buffer ≡ take k left =
            rw a.stream (scan_batch-at_least rows (suc n) 1 k (c.gapless id)) in
          elim (List-cases left) [
            | inl e ↦
                let page : (refill inner (record { as_u64 = suc n }) s).buffer ≡ [] =
                  full ∙ ap (take k) e ∙ take-nil k in
                inr (
                  rw (q, d, a.next, page, poll_next, next_page, after_refill) refl,
                  omega (arith, a.opened, length-left n rows (c.gapless id), ap length e),
                )
            | inr (row, rest, e) ↦
                elim (List-cases (refill inner (record { as_u64 = suc n }) s).buffer) [
                  | inl b0 ↦
                      absurd (take-ne-nil k row rest a.page (ap (take k) (sym e) ∙ sym full ∙ b0))
                  | inr (x, xs, q') ↦
                      let page : take k left ≡ x ∷ xs = sym full ∙ q' in
                      let split : left ≡ x ∷ (xs ++ drop k left) =
                        sym (take-append-drop k left) ∙ ap (λ l. l ++ drop k left) page in
                      let reaches : (refill inner (record { as_u64 = suc n }) s).done ≡ true
                          → b ≤ n + suc (length xs) =
                        λ z. omega (
                          arith,
                          a.opened,
                          length-left n rows (c.gapless id),
                          ap length split,
                          length-append xs (drop k left),
                          ap length (short_page k left (rw (← full) z)),
                        ) in
                      inl (
                        x,
                        xs ++ drop k left,
                        split,
                        rw (q, d, a.next, q', poll_next, next_page, after_refill)
                            (yield_row-IsYield b n (refill inner (record { as_u64 = suc n }) s) x xs
                              (drop k left) a.stream a.page split reaches a.opened),
                      )
                ]
          ]
    ]
  ]
