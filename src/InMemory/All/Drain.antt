-- ===== src/InMemory/All/Drain.antt =====
-- The `$all` stream drained against a store at rest.
use mnesis.Base.{
  ℕ, zero, suc, ◌≤◌, ◌<◌, ◌≡◌, ◌∙◌, refl, sym, ap, inl, inr, true, Option, none, some, List, [],
  ◌∷◌, ◌++◌, map, arith, length, take, drop, take-append-drop, List-cases, Bool-cases,
}
use mathlib.Core.Path.{subst}
use mnesis.Store.Value.{FromUtf8}
use mnesis.InMemory.Store.{Inner}
use mnesis.InMemory.Index.{frames_at}
use mnesis.InMemory.Consistent.{AllReadable, IsConsistent}
use mnesis.InMemory.Read.{BatchSize, batch_size_new}
use mnesis.InMemory.Read.Page.{short_page, take-nil, take-ne-nil}
use mnesis.InMemory.All.{
  Row, range_after, GlobalReadState, refill_all, AllItem, opened, yield_all, after_refill_all,
  poll_all, read_all, drain_all,
}
use mnesis.InMemory.All.Range.{range_after-cons, range_after-readable, length-range_after}

-- The buffer is the front of what is left, all of it once the paging is over.
record IsAt (index : List Row) (s : GlobalReadState) : Type 0 where
  page : 1 ≤ s.batch_size
  tail : List Row
  split : range_after s.after index ≡ s.buffer ++ tail
  ended : s.done ≡ true → tail ≡ []

module _ (u : FromUtf8) (inner : Inner) (c : IsConsistent u inner) where
  -- `out` delivers `row` as an event, and leaves the stream behind it.
  record Delivers (row : Row) (out : Option AllItem × GlobalReadState) : Type 0 where
    item : out.0 ≡ some (opened u row)
    after : IsAt inner.global_index out.1
    behind : out.1.after ≡ some row.0

  yield_all-Delivers :
      (s : GlobalReadState) (row : Row) (rest tail : List Row)
      → 1 ≤ s.batch_size
      → range_after s.after inner.global_index ≡ row ∷ (rest ++ tail)
      → (s.done ≡ true → tail ≡ [])
      → Delivers row (yield_all u s row rest)
  unfolding yield_all
  yield_all-Delivers s (pos, (key, frame)) rest tail hb e ended =
      let own : AllReadable u (frames_at key inner.global_index) =
        rw (c.agree key) (c.readable key) in
      let (p, q) =
        range_after-readable u s.after inner.global_index (pos, (key, frame)) (rest ++ tail) own
          e in
      let (_, e') =
        range_after-cons s.after 0 inner.next_global_seq inner.global_index (pos, (key, frame))
          (rest ++ tail) c.ascending e in
      rw (q, yield_all)
        (record {
          item = ground (arith, q);
          after = record { page = hb; tail = tail; split = e'; ended = ended };
          behind = refl;
        })

  after_refill_all-Delivers :
      (s : GlobalReadState) (row : Row) (rest : List Row)
      → 1 ≤ s.batch_size
      → range_after s.after inner.global_index ≡ row ∷ rest
      → Delivers row (after_refill_all u (refill_all inner s))
  unfolding after_refill_all
  after_refill_all-Delivers s row rest hb e = elim (List-cases (refill_all inner s).buffer) [
    | inl b ↦ absurd (take-ne-nil s.batch_size row rest hb (ap (take s.batch_size) (sym e) ∙ b))
    | inr (x, xs, b) ↦
        let k : ℕ = s.batch_size in
        let left : List Row = range_after s.after inner.global_index in
        let split : left ≡ x ∷ (xs ++ drop k left) =
          sym (take-append-drop k left) ∙ ap (λ l. l ++ drop k left) b in
        let same : x ≡ row = cc (split, e) in
        subst (λ r. Delivers r (after_refill_all u (refill_all inner s))) same
          (rw (b, after_refill_all)
            (yield_all-Delivers (refill_all inner s) x xs (drop k left) hb split
              (short_page k left)))
  ]

  poll_all-Delivers :
      (s : GlobalReadState) (row : Row) (rest : List Row)
      → IsAt inner.global_index s
      → range_after s.after inner.global_index ≡ row ∷ rest
      → Delivers row (poll_all u inner s)
  unfolding poll_all
  poll_all-Delivers s row rest a e = elim (List-cases s.buffer) [
    | inl b ↦ elim (Bool-cases s.done) [
      | inl d ↦ absurd (cc (a.split, a.ended d, b, e))
      | inr d ↦ rw (b, d, poll_all) (after_refill_all-Delivers s row rest a.page e)
    ]
    | inr (x, xs, b) ↦
        let split : range_after s.after inner.global_index ≡ x ∷ (xs ++ a.tail) =
          a.split ∙ ap (λ l. l ++ a.tail) b in
        let same : x ≡ row = cc (split, e) in
        subst (λ r. Delivers r (poll_all u inner s)) same
          (rw (b, poll_all) (yield_all-Delivers s x xs a.tail a.page split a.ended))
  ]

  poll_all-end :
      (s : GlobalReadState)
      → IsAt inner.global_index s
      → range_after s.after inner.global_index ≡ []
      → (poll_all u inner s).0 ≡ none
  unfolding poll_all after_refill_all
  poll_all-end s a e = elim (List-cases s.buffer) [
    | inl b ↦ elim (Bool-cases s.done) [
      | inl d ↦ rw (b, d, poll_all) refl
      | inr d ↦
          let page : (refill_all inner s).buffer ≡ [] =
            ap (take s.batch_size) e ∙ take-nil s.batch_size in
          rw (b, d, page, poll_all, after_refill_all) refl
    ]
    | inr (x, xs, b) ↦ absurd (cc (a.split, b, e))
  ]

  drain_all-IsAt :
      (fuel : ℕ) (s : GlobalReadState)
      → IsAt inner.global_index s
      → length (range_after s.after inner.global_index) < fuel
      → drain_all fuel u inner s ≡ map (opened u) (range_after s.after inner.global_index)
  unfolding drain_all
  drain_all-IsAt zero s a enough = absurd (omega arith)
  drain_all-IsAt (suc fuel) s a enough =
      elim (List-cases (range_after s.after inner.global_index)) [
        | inl e ↦ rw (e, poll_all-end s a e, drain_all) refl
        | inr (row, rest, e) ↦
            let d = poll_all-Delivers s row rest a e in
            let next : range_after (poll_all u inner s).1.after inner.global_index ≡ rest =
              rw d.behind
                (range_after-cons s.after 0 inner.next_global_seq inner.global_index row rest
                  c.ascending e).1 in
            let less : length (range_after (poll_all u inner s).1.after inner.global_index) < fuel =
              ground (arith, e, next, enough) in
            rw (e, d.item, drain_all)
              (ap (λ l. opened u row ∷ l)
                (drain_all-IsAt fuel (poll_all u inner s).1 d.after less
                  ∙ ap (map (opened u)) next))
      ]

  -- On a consistent store, the `$all` stream opened behind a position, or at the start, and polled
  -- until it ends delivers every row of the index beyond that position, once and in order, whatever
  -- the page size; one poll more than there are rows is enough.
  pub drain_all-read_all :
      (size fuel : ℕ) (batch : BatchSize) (from : Option ℕ)
      → batch_size_new size ≡ some batch
      → length inner.global_index < fuel
      → drain_all fuel u inner (read_all batch from)
        ≡ map (opened u) (range_after from inner.global_index)
  unfolding batch_size_new
  drain_all-read_all size fuel batch from sized enough =
      drain_all-IsAt fuel (read_all batch from)
        (record {
          page = ground (arith, sized);
          tail = range_after from inner.global_index;
          split = refl;
          ended = λ d. absurd (cc);
        })
        (omega (arith, length-range_after from inner.global_index))
