-- ===== src/Store/Subscription/Trace.antt =====
-- Runs of a subscription: steps of the loop, and growth of the log between any two of them.
use mnesis.Base.{
  ℕ, suc, ◌+◌, ◌≤◌, ◌≡◌, refl, ap, Bool, true, false, Option, none, some, List, [], ◌∷◌, ◌++◌,
  arith, length, length-append,
}
use mnesis.Base.Result.{ok, err}
use mnesis.Store.Subscription.{
  Catchup, event, caught_up, Phase, polling, arming, armed, probing, parked, LiveState, Output,
  live_stepped, step, events, open_scan, drain_one, open_probe, probe_one,
}
use mnesis.Store.Subscription.Log.{IsLog}
use mnesis.Store.Subscription.Delivery.{IsLive, IsPhase, IsScanOf, IsToken}

module _ (C : Catchup) where
  open C use {World, Item, Position}

  abbrev pub emitted : Option (Output C) → List (Output C)
  emitted none = []
  emitted (some out) = out ∷ []

  abbrev pub marks : List (Output C) → ℕ
  marks [] = 0
  marks (ok (event i) ∷ outs) = marks outs
  marks (ok caught_up ∷ outs) = suc (marks outs)
  marks (err e ∷ outs) = marks outs

  pub events-append : (xs ys : List (Output C)) → events C (xs ++ ys) ≡ events C xs ++ events C ys
  events-append [] ys = refl
  events-append (ok (event i) ∷ xs) ys = ap (λ l. i ∷ l) (events-append xs ys)
  events-append (ok caught_up ∷ xs) ys = events-append xs ys
  events-append (err e ∷ xs) ys = events-append xs ys

  pub marks-append : (xs ys : List (Output C)) → marks (xs ++ ys) ≡ marks xs + marks ys
  marks-append [] ys = omega arith
  marks-append (ok (event i) ∷ xs) ys = marks-append xs ys
  marks-append (ok caught_up ∷ xs) ys = omega (arith, marks-append xs ys)
  marks-append (err e ∷ xs) ys = marks-append xs ys

  abbrev pub flag : Bool → ℕ
  flag true = 1
  flag false = 0

  pub step-marks :
      (s : LiveState C) (w : World)
      → flag s.is_caught_up + marks (emitted (step C s w).1) ≡ flag (step C s w).0.is_caught_up
  unfolding step open_scan drain_one open_probe probe_one
  step-marks s w = ground arith

  module _ (L : IsLog C) where
    -- The states, with all that was yielded, that a subscription opened in `w₀` behind `from` comes
    -- to.
    pub data Trace (from : Option Position) (start : World)
        : LiveState C → World → List (Output C) → Type 0 where
      begin : Trace from start (live_stepped C from) start []
      steps :
          {s : LiveState C} {w : World} {outs : List (Output C)}
          → Trace from start s w outs
          → Trace from start (step C s w).0 w (outs ++ emitted (step C s w).1)
      grows :
          {s : LiveState C} {w w' : World} {outs : List (Output C)}
          → Trace from start s w outs
          → L.Grows w w'
          → Trace from start s w' outs

    grows-length : {w w' : World} → L.Grows w w' → length (L.log w) ≤ length (L.log w')
    grows-length {w} {w'} g =
        let (new, e) = L.grows_log g in rw e (omega (arith, length-append (L.log w) new))

    grows-IsToken :
        (w w' : World) (wait : C.Wait) (top top' : ℕ)
        → L.Grows w w'
        → top ≤ top'
        → IsToken C L w wait top
        → IsToken C L w' wait top'
    grows-IsToken w w' wait top top' g le t = record {
      since = t.since;
      past = L.grows_trans t.past g;
      valid = t.valid;
      token = t.token;
      seen = omega (arith, t.seen);
    }

    grows-IsPhase :
        (w w' : World) (n : ℕ) (scan : Option C.Scan) (phase : Phase C.Wait C.Scan)
        → L.Grows w w'
        → IsPhase C L w n scan phase
        → IsPhase C L w' n scan phase
    grows-IsPhase w w' n scan polling g h = h
    grows-IsPhase w w' n scan arming g h = h
    grows-IsPhase w w' n scan (armed wait) g h =
        (h.0, grows-IsToken w w' wait (length (L.log w)) (length (L.log w')) g (grows-length g) h.1)
    grows-IsPhase w w' n scan (probing wait probe) g h =
        let (e, b, x, t) = h in
        (e, b, L.grows_scan g x, grows-IsToken w w' wait b b g (omega arith) t)
    grows-IsPhase w w' n scan (parked wait) g h =
        (h.0, grows-IsToken w w' wait n n g (omega arith) h.1)

    grows-IsScanOf :
        (w w' : World) (n : ℕ) (scan : Option C.Scan)
        → L.Grows w w'
        → IsScanOf C L w n scan
        → IsScanOf C L w' n scan
    grows-IsScanOf w w' n none g h = tt
    grows-IsScanOf w w' n (some scan) g (b, h) = (b, L.grows_scan g h)

    pub grows-IsLive :
        (w w' : World) (n : ℕ) (s : LiveState C)
        → L.Grows w w'
        → IsLive C L w n s
        → IsLive C L w' n s
    grows-IsLive w w' n s g i = record {
      valid = L.grows_valid g i.valid;
      at = L.grows_at g i.at;
      scan = grows-IsScanOf w w' n s.scan g i.scan;
      phase = grows-IsPhase w w' n s.scan s.phase g i.phase;
    }
