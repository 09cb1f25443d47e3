-- ===== src/Store/Subscription.antt =====
-- crates/store/src/subscription_cursor.rs over the seam of catchup.rs: the loop of `live_stepped`
-- as a machine that makes one adapter call per step, so that appends can come between any two
-- calls.
pub mod Log
pub mod Delivery
pub mod Trace
pub mod Segment
pub mod Delivered
pub mod Due
pub mod Progress
use mnesis.Base.{
  ℕ, zero, suc, Bool, true, false, Option, none, some, List, [], ◌∷◌, leb, if◌then◌else◌,
}
use mnesis.Base.Result.{Result, ok, err}

-- The trait `Catchup`, over the state of the adapter at the time of a call. The future of `arm` is
-- a token that is taken when `arm` is called; `is_woken` says whether it has resolved.
pub record Catchup : Type 1 where
  pub World : Type 0
  pub Position : Type 0
  pub Item : Type 0
  pub Scan : Type 0
  pub Error : Type 0
  pub Wait : Type 0
  pub read_after : Option Position → World → Result Error Scan
  pub next : Scan → World → Option (Result Error Item) × Scan
  pub position_of : Item → Position
  pub arm : World → Wait
  pub is_woken : Wait → World → Bool

-- `Step` of crates/store/src/step.rs.
pub data Step (Item : Type 0) : Type 0 where
  event : Item → Step Item
  caught_up : Step Item

abbrev pub catchup_chunk : ℕ
catchup_chunk = 1024

-- Where the loop stands: at its top or at one of its calls behind an exhausted scan.
pub data Phase (Wait Scan : Type 0) : Type 0 where
  polling arming : Phase Wait Scan
  armed : Wait → Phase Wait Scan
  probing : Wait → Scan → Phase Wait Scan
  parked : Wait → Phase Wait Scan

module _ (C : Catchup) where
  open C use {World, Position, Item, Scan, Error, Wait}

  pub record LiveState : Type 0 where
    pub read_from : Option Position
    pub scan : Option Scan
    pub drained_in_chunk : ℕ
    pub is_caught_up : Bool
    pub phase : Phase Wait Scan

  -- What the stream yields.
  abbrev pub Output : Type 0
  Output = Result Error (Step Item)

  -- The state before the first poll.
  abbrev pub live_stepped : Option Position → LiveState
  live_stepped from = record {
    read_from = from;
    scan = none;
    drained_in_chunk = 0;
    is_caught_up = false;
    phase = polling;
  }

  -- (1) Open a scan behind the last delivered position.
  unfoldable pub open_scan : LiveState → World → LiveState × Option Output
  open_scan s w = elim (C.read_after s.read_from w) [
    | ok scan ↦ (record s { scan = some scan; drained_in_chunk = 0 }, none)
    | err e ↦ (s, some (err e))
  ]

  -- A delivered item: the scan is dropped at the end of its chunk.
  abbrev pub deliver : Item → Scan → ℕ → LiveState → LiveState
  deliver item scan drained s = record s {
    read_from = some (C.position_of item);
    scan = if leb catchup_chunk drained then none else some scan;
    drained_in_chunk = drained;
  }

  -- (2) Drain one item.
  unfoldable pub drain_one : LiveState → Scan → World → LiveState × Option Output
  drain_one s scan w =
      let (item, scan') = C.next scan w in
      elim item [
        | none ↦ (record s { scan = none; phase = arming }, none)
        | some r ↦ elim r [
          | ok i ↦ (deliver i scan' (suc s.drained_in_chunk) s, some (ok (event i)))
          | err e ↦ (record s { scan = none }, some (err e))
        ]
      ]

  -- (3) The confirming scan, behind the arm.
  unfoldable pub open_probe : LiveState → Wait → World → LiveState × Option Output
  open_probe s wait w = elim (C.read_after s.read_from w) [
    | ok probe ↦ (record s { phase = probing wait probe }, none)
    | err e ↦ (record s { phase = polling }, some (err e))
  ]

  abbrev pub after_empty_probe : LiveState → Wait → LiveState × Option Output
  after_empty_probe s wait =
      if s.is_caught_up
      then (record s { phase = parked wait }, none)
      else (record s { is_caught_up = true; phase = polling }, some (ok caught_up))

  unfoldable pub probe_one : LiveState → Wait → Scan → World → LiveState × Option Output
  probe_one s wait probe w =
      let (item, probe') = C.next probe w in
      elim item [
        | none ↦ after_empty_probe s wait
        | some r ↦ elim r [
          | ok i ↦ (
            record s {
              read_from = some (C.position_of i);
              scan = some probe';
              drained_in_chunk = 1;
              phase = polling;
            },
            some (ok (event i)),
          )
          | err e ↦ (record s { phase = polling }, some (err e))
        ]
      ]

  -- One step of the loop.
  unfoldable pub step : LiveState → World → LiveState × Option Output
  step s w = elim s.phase [
    | polling ↦ elim s.scan [ none ↦ open_scan s w | some scan ↦ drain_one s scan w ]
    | arming ↦ (record s { phase = armed (C.arm w) }, none)
    | armed wait ↦ open_probe s wait w
    | probing wait probe ↦ probe_one s wait probe w
    | parked wait ↦ if C.is_woken wait w then (record s { phase = polling }, none) else (s, none)
  ]

  -- What `fuel` steps yield in a world at rest.
  unfoldable pub outputs : ℕ → LiveState → World → List Output
  outputs zero s w = []
  outputs (suc fuel) s w =
      let (s', out) = step s w in
      let rest = outputs fuel s' w in elim out [ none ↦ rest | some x ↦ x ∷ rest ]

  abbrev pub events : List Output → List Item
  events [] = []
  events (ok (event i) ∷ outs) = i ∷ events outs
  events (ok caught_up ∷ outs) = events outs
  events (err e ∷ outs) = events outs
