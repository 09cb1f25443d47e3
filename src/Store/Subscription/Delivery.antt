-- ===== src/Store/Subscription/Delivery.antt =====
-- What a subscription delivers, whatever appends come between its steps.
use mnesis.Base.{
  ℕ, suc, ◌≤◌, ◌≡◌, ◌∙◌, refl, ap, Option, none, some, List, ◌∷◌, arith, length, drop, leb, inl,
  inr, Option-cases, Bool-cases, if◌then◌else◌,
}
use mnesis.Base.Result.{ok, err, Result-cases}
use mnesis.Store.Subscription.{
  Catchup, event, caught_up, Phase, polling, arming, armed, probing, parked, LiveState, Output,
  open_scan, drain_one, open_probe, after_empty_probe, probe_one, step, catchup_chunk,
}
use mnesis.Store.Subscription.Log.{IsLog}

module _ (C : Catchup) (L : IsLog C) where
  open C use {World, Item, Scan, Wait}

  -- A token that was taken no later than now.
  pub record IsToken (w : World) (wait : Wait) (top : ℕ) : Type 0 where
    pub since : World
    pub past : L.Grows since w
    pub valid : L.IsValid since
    pub token : wait ≡ C.arm since
    pub seen : length (L.log since) ≤ top

  abbrev pub IsScanOf : World → ℕ → Option Scan → Type 0
  IsScanOf w n none = Unit
  IsScanOf w n (some scan) = (b : ℕ) × L.IsScan w b n scan

  -- Behind an exhausted scan there is no other; a token was taken before the confirming scan was
  -- opened, and the loop parks only on a log with nothing behind the last item.
  abbrev pub IsPhase : World → ℕ → Option Scan → Phase Wait Scan → Type 0
  IsPhase w n scan polling = Unit
  IsPhase w n scan arming = scan ≡ none
  IsPhase w n scan (armed wait) = (scan ≡ none) × IsToken w wait (length (L.log w))
  IsPhase w n scan (probing wait probe) =
      (scan ≡ none) × (b : ℕ) × L.IsScan w b n probe × IsToken w wait b
  IsPhase w n scan (parked wait) = (scan ≡ none) × IsToken w wait n

  -- The loop has delivered the first `n` items of the log.
  pub record IsLive (w : World) (n : ℕ) (s : LiveState C) : Type 0 where
    pub valid : L.IsValid w
    pub at : L.IsAt w s.read_from n
    pub scan : IsScanOf w n s.scan
    pub phase : IsPhase w n s.scan s.phase

  -- A step yields the next item of the log and counts it, or it yields none and counts none.
  abbrev pub IsStep : World → ℕ → LiveState C × Option (Output C) → Type 0
  IsStep w n (s, none) = IsLive w n s
  IsStep w n (s, some (err e)) = IsLive w n s
  IsStep w n (s, some (ok caught_up)) = IsLive w n s
  IsStep w n (s, some (ok (event item))) =
      ((rest : List Item) × (drop n (L.log w) ≡ item ∷ rest)) × IsLive w (suc n) s

  module _ (w : World) (n : ℕ) (s : LiveState C) (i : IsLive w n s) where
    open_scan-IsStep : s.phase ≡ polling → IsStep w n (open_scan C s w)
    unfolding open_scan
    open_scan-IsStep p = elim (Result-cases (C.read_after s.read_from w)) [
      | inl (scan, q) ↦
          rw (q, open_scan)
            (record {
              valid = i.valid;
              at = i.at;
              scan = (length (L.log w), L.opens w s.read_from n scan i.valid i.at q);
              phase = rw p tt;
            })
      | inr (e, q) ↦ rw (q, open_scan) i
    ]

    kept_scan :
        (drained : ℕ) (b : ℕ) (scan : Scan)
        → L.IsScan w b (suc n) scan
        → IsScanOf w (suc n) (if leb catchup_chunk drained then none else some scan)
    kept_scan drained b scan h = elim (Bool-cases (leb catchup_chunk drained)) [
      | inl e ↦ rw e tt
      | inr e ↦ rw e (b, h)
    ]

    drain_one-IsStep :
        (b : ℕ) (scan : Scan)
        → s.phase ≡ polling
        → L.IsScan w b n scan
        → IsStep w n (drain_one C s scan w)
    unfolding drain_one
    drain_one-IsStep b scan p h = elim (Option-cases (C.next scan w).0) [
      | inl q ↦ rw (q, drain_one) (record { valid = i.valid; at = i.at; scan = tt; phase = refl })
      | inr (r, q) ↦ elim (Result-cases r) [
        | inl (item, q') ↦
            let y =
              L.yields w b n scan (C.next scan w).1 item i.valid h
                (λ j. ((q ∙ ap some q') j, (C.next scan w).1)) in
            rw (q ∙ ap some q', drain_one)
              (
                y.0,
                record {
                  valid = i.valid;
                  at = y.2;
                  scan = kept_scan (suc s.drained_in_chunk) b (C.next scan w).1 y.1;
                  phase = rw p tt;
                },
              )
        | inr (e, q') ↦
            rw (q ∙ ap some q', drain_one)
              (record { valid = i.valid; at = i.at; scan = tt; phase = rw p tt })
      ]
    ]

    open_probe-IsStep :
        (wait : Wait)
        → s.scan ≡ none
        → IsToken w wait (length (L.log w))
        → IsStep w n (open_probe C s wait w)
    unfolding open_probe
    open_probe-IsStep wait e t = elim (Result-cases (C.read_after s.read_from w)) [
      | inl (probe, q) ↦
          rw (q, open_probe)
            (record {
              valid = i.valid;
              at = i.at;
              scan = i.scan;
              phase = (e, length (L.log w), L.opens w s.read_from n probe i.valid i.at q, t);
            })
      | inr (x, q) ↦
          rw (q, open_probe) (record { valid = i.valid; at = i.at; scan = i.scan; phase = tt })
    ]

    after_empty_probe-IsStep :
        (wait : Wait) → s.scan ≡ none → IsToken w wait n → IsStep w n (after_empty_probe C s wait)
    after_empty_probe-IsStep wait e t = elim (Bool-cases s.is_caught_up) [
      | inl c ↦ rw c (record { valid = i.valid; at = i.at; scan = i.scan; phase = (e, t) })
      | inr c ↦ rw c (record { valid = i.valid; at = i.at; scan = i.scan; phase = tt })
    ]

    probe_one-IsStep :
        (wait : Wait) (b : ℕ) (probe : Scan)
        → s.scan ≡ none
        → L.IsScan w b n probe
        → IsToken w wait b
        → IsStep w n (probe_one C s wait probe w)
    unfolding probe_one
    probe_one-IsStep wait b probe e h t = elim (Option-cases (C.next probe w).0) [
      | inl q ↦
          let empty =
            L.ends w b n probe (C.next probe w).1 i.valid h (λ j. (q j, (C.next probe w).1)) in
          rw (q, probe_one)
            (after_empty_probe-IsStep wait e (record {
              since = t.since;
              past = t.past;
              valid = t.valid;
              token = t.token;
              seen = omega (arith, t.seen, empty);
            }))
      | inr (r, q) ↦ elim (Result-cases r) [
        | inl (item, q') ↦
            let y =
              L.yields w b n probe (C.next probe w).1 item i.valid h
                (λ j. ((q ∙ ap some q') j, (C.next probe w).1)) in
            rw (q ∙ ap some q', probe_one)
              (y.0, record { valid = i.valid; at = y.2; scan = (b, y.1); phase = tt })
        | inr (x, q') ↦
            rw (q ∙ ap some q', probe_one)
              (record { valid = i.valid; at = i.at; scan = i.scan; phase = tt })
      ]
    ]

  step_at :
      (w : World) (n : ℕ) (s : LiveState C) (scan : Option Scan) (phase : Phase Wait Scan)
      → IsLive w n (record s { scan = scan; phase = phase })
      → IsStep w n (step C (record s { scan = scan; phase = phase }) w)
  unfolding step
  step_at w n s none polling i =
      open_scan-IsStep w n (record s { scan = none; phase = polling }) i refl
  step_at w n s (some scan) polling i =
      drain_one-IsStep w n (record s { scan = some scan; phase = polling }) i i.scan.0 scan refl
        i.scan.1
  step_at w n s scan arming i = record {
    valid = i.valid;
    at = i.at;
    scan = i.scan;
    phase = (
      i.phase,
      record {
        since = w;
        past = L.grows_refl w;
        valid = i.valid;
        token = refl;
        seen = omega arith;
      },
    );
  }
  step_at w n s scan (armed wait) i =
      open_probe-IsStep w n (record s { scan = scan; phase = armed wait }) i wait i.phase.0
        i.phase.1
  step_at w n s scan (probing wait probe) i =
      let (e, b, h, t) = i.phase in
      probe_one-IsStep w n (record s { scan = scan; phase = probing wait probe }) i wait b probe e h
        t
  step_at w n s scan (parked wait) i = elim (Bool-cases (C.is_woken wait w)) [
    | inl e ↦ rw e (record { valid = i.valid; at = i.at; scan = i.scan; phase = tt })
    | inr e ↦ rw e i
  ]

  pub step-IsStep : (w : World) (n : ℕ) (s : LiveState C) → IsLive w n s → IsStep w n (step C s w)
  step-IsStep w n s i = step_at w n s s.scan s.phase i
