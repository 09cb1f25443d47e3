-- ===== src/Store/Subscription/Progress.antt =====
-- What a subscription does in a world at rest: it comes to the next item in a bounded number of
-- steps.
use mnesis.Base.{
  ℕ, suc, ◌+◌, ◌≤◌, ◌<◌, ◌≡◌, ◌≢◌, ◌∙◌, refl, ap, true, Option, none, some, List, ◌∷◌, arith,
  length, drop, ◌⊎◌, inl, inr, Option-cases, Bool-cases,
}
use mnesis.Base.Result.{ok, err, Result-cases}
use mnesis.Store.Subscription.{
  Catchup, caught_up, Phase, polling, arming, armed, probing, parked, LiveState, Output, open_scan,
  drain_one, open_probe, probe_one, step, events,
}
use mnesis.Store.Subscription.Log.{IsLog}
use mnesis.Store.Subscription.Delivery.{IsLive, IsToken}
use mnesis.Store.Subscription.Trace.{Trace}
use mnesis.Store.Subscription.Delivered.{IsOpened, Trace-IsTraced}
use mnesis.Store.Subscription.Due.{IsDue, now-IsDue, later-IsDue}

module _ (C : Catchup) (L : IsLog C) (w : C.World) (n : ℕ) where
  open C use {Item, Scan, Wait}

  -- The adapter fails at no call of the world at rest.
  pub record IsWorking : Type 0 where
    pub reads : (p : Option C.Position) → (s : Scan) × (C.read_after p w ≡ ok s)
    pub scans :
        (b m : ℕ) (s : Scan) (e : C.Error) → L.IsScan w b m s → (C.next s w).0 ≢ some (err e)

  module _ (works : IsWorking) (valid : L.IsValid w) (more : n < length (L.log w)) where
    -- A scan yields its item, or it is exhausted, and then it was opened over no more than `n`
    -- items.
    scanned :
        (b : ℕ) (scan : Scan)
        → L.IsScan w b n scan
        → ((item : Item) × (rest : List Item) × (C.next scan w
              ≡ (some (ok item), (C.next scan w).1))
            × (drop n (L.log w) ≡ item ∷ rest))
          ⊎ ((C.next scan w ≡ (none, (C.next scan w).1)) × (b ≤ n))
    scanned b scan h = elim (Option-cases (C.next scan w).0) [
      | inl q ↦
          let ended : C.next scan w ≡ (none, (C.next scan w).1) = λ j. (q j, (C.next scan w).1) in
          inr (ended, L.ends w b n scan (C.next scan w).1 valid h ended)
      | inr (r, q) ↦ elim (Result-cases r) [
        | inr (e, q') ↦ absurd (works.scans b n scan e h (q ∙ ap some q'))
        | inl (item, q') ↦
            let got : C.next scan w ≡ (some (ok item), (C.next scan w).1) =
              λ j. ((q ∙ ap some q') j, (C.next scan w).1) in
            let y = L.yields w b n scan (C.next scan w).1 item valid h got in
            inl (item, y.0.0, got, y.0.1)
      ]
    ]

    drain-IsDue :
        (fuel b : ℕ) (scan : Scan) (s : LiveState C)
        → L.IsScan w b n scan
        → n < b
        → IsDue C L w n (suc fuel) (record s { scan = some scan; phase = polling })
    unfolding step drain_one
    drain-IsDue fuel b scan s h fresh = elim (scanned b scan h) [
      | inr (q, le) ↦ absurd (omega arith)
      | inl (item, rest, q, e) ↦
          now-IsDue C L w n fuel (record s { scan = some scan; phase = polling }) item rest
            (rw (q, step, drain_one) refl) e
    ]

    probe-IsDue :
        (fuel b : ℕ) (wait : Wait) (probe : Scan) (s : LiveState C)
        → L.IsScan w b n probe
        → n < b
        → IsDue C L w n (suc fuel) (record s { scan = none; phase = probing wait probe })
    unfolding step probe_one
    probe-IsDue fuel b wait probe s h fresh = elim (scanned b probe h) [
      | inr (q, le) ↦ absurd (omega arith)
      | inl (item, rest, q, e) ↦
          now-IsDue C L w n fuel (record s { scan = none; phase = probing wait probe }) item rest
            (rw (q, step, probe_one) refl) e
    ]

    open-IsDue :
        (fuel : ℕ) (s : LiveState C)
        → L.IsAt w s.read_from n
        → IsDue C L w n (suc (suc fuel)) (record s { scan = none; phase = polling })
    unfolding step open_scan
    open-IsDue fuel s at =
        let (scan, q) = works.reads s.read_from in
        later-IsDue C L w n (suc fuel) (record s { scan = none; phase = polling })
          (record s { scan = some scan; drained_in_chunk = 0; phase = polling }) none
          (rw (q, step, open_scan) refl) refl
          (drain-IsDue fuel (length (L.log w)) scan (record s { drained_in_chunk = 0 })
            (L.opens w s.read_from n scan valid at q) more)

    armed-IsDue :
        (fuel : ℕ) (wait : Wait) (s : LiveState C)
        → L.IsAt w s.read_from n
        → IsDue C L w n (suc (suc fuel)) (record s { scan = none; phase = armed wait })
    unfolding step open_probe
    armed-IsDue fuel wait s at =
        let (probe, q) = works.reads s.read_from in
        later-IsDue C L w n (suc fuel) (record s { scan = none; phase = armed wait })
          (record s { scan = none; phase = probing wait probe }) none
          (rw (q, step, open_probe) refl) refl
          (probe-IsDue fuel (length (L.log w)) wait probe s
            (L.opens w s.read_from n probe valid at q) more)

    arming-IsDue :
        (fuel : ℕ) (s : LiveState C)
        → L.IsAt w s.read_from n
        → IsDue C L w n (suc (suc (suc fuel))) (record s { scan = none; phase = arming })
    unfolding step
    arming-IsDue fuel s at =
        later-IsDue C L w n (suc (suc fuel)) (record s { scan = none; phase = arming })
          (record s { scan = none; phase = armed (C.arm w) }) none refl refl
          (armed-IsDue fuel (C.arm w) s at)

    parked-IsDue :
        (fuel : ℕ) (wait : Wait) (s : LiveState C)
        → L.IsAt w s.read_from n
        → IsToken C L w wait n
        → IsDue C L w n (suc (suc (suc fuel))) (record s { scan = none; phase = parked wait })
    unfolding step
    parked-IsDue fuel wait s at t =
        let woken : C.is_woken wait w ≡ true =
          ap (λ x. C.is_woken x w) t.token ∙ L.wakes t.valid t.past (omega (arith, t.seen)) in
        later-IsDue C L w n (suc (suc fuel)) (record s { scan = none; phase = parked wait })
          (record s { scan = none; phase = polling }) none (rw (woken, step) refl) refl
          (open-IsDue fuel s at)

    stale_drain-IsDue :
        (b : ℕ) (scan : Scan) (s : LiveState C)
        → L.IsAt w s.read_from n
        → L.IsScan w b n scan
        → IsDue C L w n 4 (record s { scan = some scan; phase = polling })
    unfolding step drain_one
    stale_drain-IsDue b scan s at h = elim (scanned b scan h) [
      | inr (q, le) ↦
          later-IsDue C L w n 3 (record s { scan = some scan; phase = polling })
            (record s { scan = none; phase = arming }) none (rw (q, step, drain_one) refl) refl
            (arming-IsDue 0 s at)
      | inl (item, rest, q, e) ↦
          now-IsDue C L w n 3 (record s { scan = some scan; phase = polling }) item rest
            (rw (q, step, drain_one) refl) e
    ]

    stale_probe-IsDue :
        (b : ℕ) (wait : Wait) (probe : Scan) (s : LiveState C)
        → L.IsAt w s.read_from n
        → L.IsScan w b n probe
        → IsToken C L w wait b
        → IsDue C L w n 4 (record s { scan = none; phase = probing wait probe })
    unfolding step probe_one
    stale_probe-IsDue b wait probe s at h t = elim (scanned b probe h) [
      | inl (item, rest, q, e) ↦
          now-IsDue C L w n 3 (record s { scan = none; phase = probing wait probe }) item rest
            (rw (q, step, probe_one) refl) e
      | inr (q, le) ↦ elim (Bool-cases s.is_caught_up) [
        | inl c ↦
            later-IsDue C L w n 3 (record s { scan = none; phase = probing wait probe })
              (record s { scan = none; phase = parked wait }) none (rw (q, c, step, probe_one) refl)
              refl
              (parked-IsDue 0 wait s at (record {
                since = t.since;
                past = t.past;
                valid = t.valid;
                token = t.token;
                seen = omega (arith, t.seen, le);
              }))
        | inr c ↦
            later-IsDue C L w n 3 (record s { scan = none; phase = probing wait probe })
              (record s { scan = none; is_caught_up = true; phase = polling }) (some (ok caught_up))
              (rw (q, c, step, probe_one) refl) refl
              (open-IsDue 1 (record s { is_caught_up = true }) at)
      ]
    ]

    phase-IsDue :
        (s : LiveState C) (scan : Option Scan) (phase : Phase Wait Scan)
        → IsLive C L w n (record s { scan = scan; phase = phase })
        → IsDue C L w n 4 (record s { scan = scan; phase = phase })
    phase-IsDue s none polling i = open-IsDue 2 s i.at
    phase-IsDue s (some scan) polling i = stale_drain-IsDue i.scan.0 scan s i.at i.scan.1
    phase-IsDue s none arming i = arming-IsDue 1 s i.at
    phase-IsDue s (some scan) arming i = absurd (ground (arith, i.phase))
    phase-IsDue s none (armed wait) i = armed-IsDue 2 wait s i.at
    phase-IsDue s (some scan) (armed wait) i = absurd (ground (arith, i.phase.0))
    phase-IsDue s none (probing wait probe) i =
        let (_, b, h, t) = i.phase in stale_probe-IsDue b wait probe s i.at h t
    phase-IsDue s (some scan) (probing wait probe) i = absurd (ground (arith, i.phase.0))
    phase-IsDue s none (parked wait) i = parked-IsDue 1 wait s i.at i.phase.1
    phase-IsDue s (some scan) (parked wait) i = absurd (ground (arith, i.phase.0))

module _ (C : Catchup) (L : IsLog C) where
  -- Progress: a subscription that stands anywhere in a run, over an adapter that does not fail in
  -- the world as it is, and with an item of the log not yet yielded, needs at most four steps, with
  -- no help from outside, to yield the next item, and yields no other item before it.
  pub Trace-delivers :
      {from : Option C.Position} {start w : C.World} {s : LiveState C} {outs : List (Output C)}
      (place : ℕ)
      → IsOpened C L from start place
      → Trace C L from start s w outs
      → IsWorking C L w (place + length (events C outs))
      → place + length (events C outs) < length (L.log w)
      → IsDue C L w (place + length (events C outs)) 4 s
  Trace-delivers {w = w} {s} {outs} place o t works more =
      let i = (Trace-IsTraced C L place o t).live in
      phase-IsDue C L w (place + length (events C outs)) works i.valid more s s.scan s.phase i
