-- ===== src/Store/Subscription/Segment.antt =====
-- The part of the log that a subscription has yielded.
use mnesis.Base.{
  ℕ, ◌+◌, ◌≡◌, ◌∙◌, sym, ap, List, [], ◌∷◌, ◌++◌, arith, length, drop, length-append, drop-append,
}
use mathlib.Core.List.{append_assoc, append-nil}
use mnesis.Base.Result.{ok}
use mnesis.Store.Subscription.{Catchup, event, Output, events}
use mnesis.Store.Subscription.Log.{IsLog}
use mnesis.Store.Subscription.Trace.{events-append}

module _ (C : Catchup) where
  open C use {World, Item, Position}

  module _ (L : IsLog C) where
    -- The events yielded are a segment of the log, from the place where the subscription starts.
    pub record IsSegment (place : ℕ) (w : World) (outs : List (Output C)) : Type 0 where
      pub before : List Item
      pub rest : List Item
      pub starts : length before ≡ place
      pub split : L.log w ≡ before ++ (events C outs ++ rest)

    -- The rest of a segment is what stands behind it in the log.
    pub rest_of :
        (place : ℕ) (w : World) (outs : List (Output C)) (i : IsSegment place w outs)
        → drop (place + length (events C outs)) (L.log w) ≡ i.rest
    rest_of place w outs i =
        ap (drop (place + length (events C outs)))
          (i.split ∙ sym (append_assoc i.before (events C outs) i.rest))
        ∙ drop-append (place + length (events C outs)) (i.before ++ events C outs) i.rest
            (omega (arith, length-append i.before (events C outs), i.starts))

    pub grows-IsSegment :
        (place : ℕ) (w w' : World) (outs : List (Output C))
        → L.Grows w w'
        → IsSegment place w outs
        → IsSegment place w' outs
    grows-IsSegment place w w' outs g i = record {
      before = i.before;
      rest = i.rest ++ (L.grows_log g).0;
      starts = i.starts;
      split = (L.grows_log g).1 ∙ ap (λ l. l ++ (L.grows_log g).0) i.split ∙ simp append_assoc;
    }

    pub silent :
        (place : ℕ) (w : World) (outs more : List (Output C))
        → events C more ≡ []
        → IsSegment place w outs
        → IsSegment place w (outs ++ more)
    silent place w outs more e i = record {
      before = i.before;
      rest = i.rest;
      starts = i.starts;
      split = rw (events-append C outs more, e, append-nil) i.split;
    }

    pub yielded :
        (place : ℕ) (w : World) (outs : List (Output C)) (item : Item) (rest : List Item)
        → drop (place + length (events C outs)) (L.log w) ≡ item ∷ rest
        → IsSegment place w outs
        → IsSegment place w (outs ++ (ok (event item) ∷ []))
    yielded place w outs item rest e i = record {
      before = i.before;
      rest = rest;
      starts = i.starts;
      split =
          i.split
          ∙ ap (λ r. i.before ++ (events C outs ++ r)) (sym (rest_of place w outs i) ∙ e)
          ∙ ap (λ l. i.before ++ l)
              (sym (append_assoc (events C outs) (item ∷ []) rest)
                ∙ ap (λ l. l ++ rest) (sym (events-append C outs (ok (event item) ∷ []))));
    }
