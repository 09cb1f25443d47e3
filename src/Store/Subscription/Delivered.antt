-- ===== src/Store/Subscription/Delivered.antt =====
-- What a run of a subscription yields, and that it does not miss a wake.
use mnesis.Base.{
  ℕ, suc, ◌+◌, ◌≤◌, ◌<◌, ◌≡◌, ◌∙◌, refl, sym, ap, Bool, true, false, Option, none, some, List, [],
  ◌∷◌, ◌++◌, arith, length, take, drop, length-append, length-take, take-append-drop,
}
use mathlib.Core.List.{append-nil}
use mathlib.Core.Path.{subst}
use mnesis.Base.Result.{ok, err}
use mnesis.Store.Subscription.{
  Catchup, event, caught_up, parked, LiveState, Output, live_stepped, step, events,
}
use mnesis.Store.Subscription.Log.{IsLog}
use mnesis.Store.Subscription.Delivery.{IsLive, IsStep, IsPhase, step-IsStep}
use mnesis.Store.Subscription.Trace.{
  emitted, marks, events-append, marks-append, flag, step-marks, Trace, begin, steps, grows,
  grows-IsLive,
}
use mnesis.Store.Subscription.Segment.{IsSegment, silent, yielded, grows-IsSegment}

module _ (C : Catchup) where
  open C use {World, Item, Position}

  module _ (L : IsLog C) where
    -- Where a subscription stands that was opened behind the first `place` items.
    pub record IsTraced (place : ℕ) (s : LiveState C) (w : World) (outs : List (Output C))
        : Type 0 where
      pub live : IsLive C L w (place + length (events C outs)) s
      pub segment : IsSegment C L place w outs
      pub marked : marks C outs ≡ flag C s.is_caught_up

    one_more :
        (place : ℕ) (outs : List (Output C)) (item : Item)
        → suc (place + length (events C outs))
          ≡ place + length (events C (outs ++ (ok (event item) ∷ [])))
    one_more place outs item =
        rw (events-append C outs (ok (event item) ∷ []))
          (omega (arith, length-append (events C outs) (item ∷ [])))

    none_more :
        (place : ℕ) (outs more : List (Output C))
        → events C more ≡ []
        → place + length (events C outs) ≡ place + length (events C (outs ++ more))
    none_more place outs more e = rw (events-append C outs more, e, append-nil) refl

    step-IsTraced :
        (place : ℕ) (w : World) (outs : List (Output C)) (s s' : LiveState C)
        (out : Option (Output C))
        → IsStep C L w (place + length (events C outs)) (s', out)
        → flag C s.is_caught_up + marks C (emitted C out) ≡ flag C s'.is_caught_up
        → IsTraced place s w outs
        → IsTraced place s' w (outs ++ emitted C out)
    step-IsTraced place w outs s s' none h m t = record {
      live = subst (λ n. IsLive C L w n s') (none_more place outs [] refl) h;
      segment = silent C L place w outs [] refl t.segment;
      marked = omega (arith, m, t.marked, marks-append C outs []);
    }
    step-IsTraced place w outs s s' (some (err e)) h m t = record {
      live = subst (λ n. IsLive C L w n s') (none_more place outs (err e ∷ []) refl) h;
      segment = silent C L place w outs (err e ∷ []) refl t.segment;
      marked = omega (arith, m, t.marked, marks-append C outs (err e ∷ []));
    }
    step-IsTraced place w outs s s' (some (ok caught_up)) h m t = record {
      live = subst (λ n. IsLive C L w n s') (none_more place outs (ok caught_up ∷ []) refl) h;
      segment = silent C L place w outs (ok caught_up ∷ []) refl t.segment;
      marked = omega (arith, m, t.marked, marks-append C outs (ok caught_up ∷ []));
    }
    step-IsTraced place w outs s s' (some (ok (event item))) ((rest, e), h) m t = record {
      live = subst (λ n. IsLive C L w n s') (one_more place outs item) h;
      segment = yielded C L place w outs item rest e t.segment;
      marked = omega (arith, m, t.marked, marks-append C outs (ok (event item) ∷ []));
    }

    -- A subscription opened in the valid world `start`, behind the first `place` items of its log.
    pub record IsOpened (from : Option Position) (start : World) (place : ℕ) : Type 0 where
      pub valid : L.IsValid start
      pub at : L.IsAt start from place
      pub inside : place ≤ length (L.log start)

    begin-IsTraced :
        (from : Option Position) (start : World) (place : ℕ)
        → IsOpened from start place
        → IsTraced place (live_stepped C from) start []
    begin-IsTraced from start place o = record {
      live =
          subst (λ n. IsLive C L start n (live_stepped C from)) (nothing place)
            (record { valid = o.valid; at = o.at; scan = tt; phase = tt });
      segment = record {
        before = take place (L.log start);
        rest = drop place (L.log start);
        starts = omega (arith, length-take place (L.log start), o.inside);
        split = sym (take-append-drop place (L.log start));
      };
      marked = refl;
    }
      where
        nothing : (n : ℕ) → n ≡ n + length (events C [])
        nothing n = omega arith

    pub Trace-IsTraced :
        {from : Option Position} {start w : World} {s : LiveState C} {outs : List (Output C)}
        (place : ℕ)
        → IsOpened from start place
        → Trace C L from start s w outs
        → IsTraced place s w outs
    Trace-IsTraced {from} {start} place o begin = begin-IsTraced from start place o
    Trace-IsTraced place o (steps {s} {w} {outs} t) =
        let i = Trace-IsTraced place o t in
        step-IsTraced place w outs s (step C s w).0 (step C s w).1
          (step-IsStep C L w (place + length (events C outs)) s i.live) (step-marks C s w) i
    Trace-IsTraced place o (grows {s} {w} {w'} {outs} t g) =
        let i = Trace-IsTraced place o t in
        record {
          live = grows-IsLive C L w w' (place + length (events C outs)) s g i.live;
          segment = grows-IsSegment C L place w w' outs g i.segment;
          marked = i.marked;
        }

    -- Exactly once and in order, over any log that holds to the laws: however the steps of a
    -- subscription and the growth of the log interleave, and whatever its adapter fails at, the
    -- events that it has yielded C L are the items of the log from the place where it was opened
    -- on, without a gap or a repetition; and it has yielded C L at most one mark.
    pub Trace-delivered :
        {from : Option Position} {start w : World} {s : LiveState C} {outs : List (Output C)}
        (place : ℕ)
        → IsOpened from start place
        → Trace C L from start s w outs
        → IsSegment C L place w outs × (marks C outs ≤ 1)
    Trace-delivered {s = s} place o t =
        let i = Trace-IsTraced place o t in
        (i.segment, omega (arith, i.marked, flag_le s.is_caught_up))
      where
        flag_le : (b : Bool) → flag C b ≤ 1
        flag_le true = omega arith
        flag_le false = omega arith

    -- No wakeup is lost: whenever a subscription is parked and the log holds an item that it has
    -- not yielded C L, its wait has resolved.
    pub Trace-parked :
        {from : Option Position} {start w : World} {s : LiveState C} {outs : List (Output C)}
        (place : ℕ) (wait : C.Wait)
        → IsOpened from start place
        → Trace C L from start s w outs
        → s.phase ≡ parked wait
        → place + length (events C outs) < length (L.log w)
        → C.is_woken wait w ≡ true
    Trace-parked {w = w} {s} {outs} place wait o t p more =
        let i = (Trace-IsTraced place o t).live in
        let (_, token) = subst (IsPhase C L w (place + length (events C outs)) s.scan) p i.phase in
        ap (λ x. C.is_woken x w) token.token
        ∙ L.wakes token.valid token.past (omega (arith, token.seen))
