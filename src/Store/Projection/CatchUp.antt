-- ===== src/Store/Projection/CatchUp.antt =====
-- The loop of the documentation of `Projection` in crates/store/src/projection.rs: every item
-- behind the checkpoint is advanced over, then the rest is flushed.
use mnesis.Base.{
  ℕ, suc, ◌+◌, ◌≤◌, ◌≡◌, ◌∙◌, inl, inr, refl, sym, ap, Bool, false, Option, none, some, List, [],
  ◌∷◌, arith, length, Bool-cases, Option-cases,
}
use mathlib.Core.Path.{subst}
use mnesis.Base.Words.{u64_max}
use mnesis.Base.Result.{ok, err, Result-cases}
use mnesis.Store.Checkpoint.{Positions, CheckpointMode}
use mnesis.Store.Projection.{
  Projector, Positioned, Projection, Trigger, CheckpointStore, returned, panicked, dropped, Out,
  is_past, state_of, assemble, flush, advance_by,
}
use mnesis.Store.Projection.Contract.{Kept, IsLawful, IsAnswering}
use mnesis.Store.Projection.Cases.{usable, advance-folds}
use mnesis.Store.Projection.Fold.{
  IsOrder, fold_items, fold_items-append, upto, after, IsIncreasing, after-cons, upto-append-after,
}
use mnesis.Store.Projection.Truth
use mnesis.Store.Projection.Truth.{some_inj}
use mnesis.Store.Projection.Advance.{folded-IsCurrent}
use mnesis.Store.Projection.Sole.{IsLinked, relaxed}
use mnesis.Store.Projection.Ready
use mnesis.Store.Projection.Ready.{flush-IsReady}
use mnesis.Store.Projection.Workers.{Run, joins, Run-IsTrue}
use mnesis.Store.Projection.Start.{assemble-IsLinked}

module _ (𝓟 : Positions) (𝓙 : Projector) (𝓢 : CheckpointStore 𝓟 𝓙.State)
    (kept : 𝓢.World → List ℕ → Option (Kept 𝓟 𝓙.State)) (should_persist : Trigger 𝓟) (id : List ℕ)
    (schema : ℕ) (log : List (Positioned 𝓟 𝓙)) where
  abbrev IsFold : Option 𝓟.Position → 𝓙.State → Type 0
  IsFold = Truth.IsFold 𝓟 𝓙 id schema log

  abbrev IsTrue : Option (Kept 𝓟 𝓙.State) → Type 0
  IsTrue = Truth.IsTrue 𝓟 𝓙 id schema log

  abbrev IsCurrent : Projection 𝓟 𝓙 → Type 0
  IsCurrent = Truth.IsCurrent 𝓟 𝓙 id schema log

  abbrev IsReady : 𝓢.World → Projection 𝓟 𝓙 → 𝓙.State → ℕ → Type 0
  IsReady = Ready.IsReady 𝓟 𝓙 𝓢 kept id schema log

  abbrev IsStored : 𝓢.World → Projection 𝓟 𝓙 → 𝓙.State → Type 0
  IsStored = Ready.IsStored 𝓟 𝓙 𝓢 kept id schema log

  unfoldable pub drain : 𝓢.World → Projection 𝓟 𝓙 → List (Positioned 𝓟 𝓙) → Out 𝓟 𝓙 𝓢
  drain world p [] = flush 𝓟 𝓙 𝓢 world p
  drain world p (item ∷ items) =
      let (world', p', ending) = advance_by 𝓟 𝓙 𝓢 should_persist world p item in
      let rest = drain world' p' items in
      elim ending [
        | returned r ↦ elim r [ err e ↦ (world', p', returned (err e)) | ok u ↦ rest ]
        | panicked ↦ (world', p', panicked)
        | dropped ↦ (world', p', dropped)
      ]

  abbrev IsDone : Out 𝓟 𝓙 𝓢 → 𝓙.State → Type 0
  IsDone out total =
      (out.2 ≡ returned (ok tt))
      × (state_of 𝓟 𝓙 out.1 ≡ ok total)
      × (after 𝓟 𝓙 out.1.observed log ≡ [])
      × IsStored out.0 out.1 total

  module _ (order : IsOrder 𝓟) (increasing : IsIncreasing 𝓟 𝓙 log)
      (lawful : IsLawful 𝓟 𝓙.State 𝓢 kept) (answering : IsAnswering 𝓟 𝓙.State 𝓢 kept)
      (calm : (checkpoint : Option 𝓟.Position) (position : 𝓟.Position) (names : List (List ℕ))
        → (answer : Bool) × (should_persist checkpoint position names ≡ some answer)) where
    taken-IsLinked :
        (p : Projection 𝓟 𝓙) (state : 𝓙.State) (position : 𝓟.Position)
        (stored : Option (Kept 𝓟 𝓙.State)) (left : ℕ)
        → is_past 𝓟 p.observed position ≡ false
        → IsLinked 𝓟 𝓙 p stored left
        → IsLinked 𝓟 𝓙 (record p { state = some state; observed = some position }) stored left
    taken-IsLinked p state position none left new linked = linked
    taken-IsLinked p state position (some r) left new (a, b, inr c) = (a, b, inr c)
    taken-IsLinked p state position (some r) left new (a, b, inl (schema_, c, o, seen, le)) =
        let open_ : 𝓟.is_at_most position o ≡ false =
          sym (ap (λ x. is_past 𝓟 x position) seen) ∙ new in
        (
          a,
          b,
          inl (
            schema_,
            c,
            position,
            refl,
            order.le_trans r.position o position le (order.le_total position o open_),
          ),
        )

    module _ (world : 𝓢.World) (p : Projection 𝓟 𝓙) (state : 𝓙.State) (left : ℕ)
        (ready : IsReady world p state (suc left)) where
      advance-IsReady :
          (item : Positioned 𝓟 𝓙) (todo : List (Positioned 𝓟 𝓙)) (state' : 𝓙.State)
          → after 𝓟 𝓙 p.observed log ≡ item ∷ todo
          → 𝓙.apply_attributed state item.key item.event ≡ some (ok state')
          → let out = advance_by 𝓟 𝓙 𝓢 should_persist world p item in
            (out.2 ≡ returned (ok tt))
            × IsReady out.0 out.1 state' left
            × (after 𝓟 𝓙 out.1.observed log ≡ todo)
      advance-IsReady item todo state' next applies =
          let (_, behind, new) = after-cons 𝓟 𝓙 order p.observed log todo item increasing next in
          let has = usable 𝓟 𝓙 p state ready.usable_ in
          let now' =
            folded-IsCurrent 𝓟 𝓙 𝓢 kept should_persist id schema log lawful order increasing p item
              state state' todo applies (ready.current.of_state state has) next ready.current in
          let p' : Projection 𝓟 𝓙 = record p {
            state = some state';
            observed = some item.position;
          } in
          let linked' =
            taken-IsLinked p state' item.position (kept world id) (suc left) new ready.linked in
          let usable_flag : p.reload_required ≡ false = ground (arith, ready.usable_) in
          let ready' : IsReady world p' state' (suc left) = record {
            usable_ = rw (usable_flag) refl;
            current = now';
            held = ready.held;
            linked = linked';
          } in
          let asked = (calm p.checkpoint item.position (𝓙.name item.event ∷ [])).1 in
          rw (advance-folds 𝓟 𝓙 𝓢 world p should_persist item state ready.usable_ new, applies)
            (elim (Bool-cases (calm p.checkpoint item.position (𝓙.name item.event ∷ [])).0) [
              | inl fires ↦
                  let (ends, ready_, seen, _) =
                    flush-IsReady 𝓟 𝓙 𝓢 kept id schema log order lawful answering world p' state'
                      left ready' in
                  rw (asked ∙ ap some fires) (ends, ready_, ap (λ x. after 𝓟 𝓙 x log) seen ∙ behind)
              | inr quiet ↦ rw (asked ∙ ap some quiet) (
                refl,
                record {
                  usable_ = ready'.usable_;
                  current = ready'.current;
                  held = ready'.held;
                  linked = relaxed 𝓟 𝓙 p' (kept world id) left linked';
                },
                behind,
              )
            ])

    drain-next :
        (world : 𝓢.World) (p : Projection 𝓟 𝓙) (item : Positioned 𝓟 𝓙)
        (items : List (Positioned 𝓟 𝓙))
        → let out = advance_by 𝓟 𝓙 𝓢 should_persist world p item in
          out.2 ≡ returned (ok tt) → drain world p (item ∷ items) ≡ drain out.0 out.1 items
    unfolding drain
    drain-next world p item items ends = rw (ends, drain) refl

    drain-IsDone :
        (todo : List (Positioned 𝓟 𝓙)) (world : 𝓢.World) (p : Projection 𝓟 𝓙)
        (state total : 𝓙.State)
        → IsReady world p state (suc (length todo))
        → after 𝓟 𝓙 p.observed log ≡ todo
        → fold_items 𝓟 𝓙 state todo ≡ some total
        → IsDone (drain world p todo) total
    unfolding drain fold_items
    drain-IsDone [] world p state total ready next fold =
        let (ends, ready', seen, stored) =
          flush-IsReady 𝓟 𝓙 𝓢 kept id schema log order lawful answering world p state 0 ready in
        subst (IsDone (flush 𝓟 𝓙 𝓢 world p)) (some_inj state total fold)
          (ends, ready'.usable_, ap (λ x. after 𝓟 𝓙 x log) seen ∙ next, stored)
    drain-IsDone (item ∷ todo) world p state total ready next fold =
        elim (Option-cases (𝓙.apply_attributed state item.key item.event)) [
          | inl e ↦ absurd (ground arith)
          | inr (r, e) ↦ elim (Result-cases r) [
            | inr (x, q) ↦ absurd (ground arith)
            | inl (state', q) ↦
                let out = advance_by 𝓟 𝓙 𝓢 should_persist world p item in
                let (ends, ready', next') =
                  advance-IsReady world p state (suc (length todo)) ready item todo state' next
                    (e ∙ ap some q) in
                let rest : fold_items 𝓟 𝓙 state' todo ≡ some total = ground arith in
                subst (λ o. IsDone o total) (sym (drain-next world p item todo ends))
                  (drain-IsDone todo out.0 out.1 state' total ready' next' rest)
          ]
        ]

    -- However a run of workers has come to its world, if a worker loads or rebuilds in it and is
    -- from then on alone, the store answers, the projector accepts the items and the revisions that
    -- are left are enough, then draining the items behind its place succeeds, whatever the trigger
    -- answers as long as it does not unwind, and leaves the fold of all the items, as its state and
    -- in the store, at the last position.
    pub drain-Run :
        {world : 𝓢.World} {ps : List (Projection 𝓟 𝓙)} (mode : CheckpointMode) (p : Projection 𝓟 𝓙)
        (total : 𝓙.State)
        → Run 𝓟 𝓙 𝓢 kept should_persist id schema log world ps
        → assemble 𝓟 𝓙 𝓢 id schema mode world ≡ ok p
        → fold_items 𝓟 𝓙 𝓙.initial log ≡ some total
        → suc (length (after 𝓟 𝓙 p.observed log)) ≤ u64_max
        → ((r : Kept 𝓟 𝓙.State)
            → kept world id ≡ some r
            → r.revision + suc (length (after 𝓟 𝓙 p.observed log)) ≤ u64_max)
        → let out = drain world p (after 𝓟 𝓙 p.observed log) in
          (out.2 ≡ returned (ok tt))
          × (state_of 𝓟 𝓙 out.1 ≡ ok total)
          × (after 𝓟 𝓙 out.1.observed log ≡ [])
          × IsStored out.0 out.1 total
    drain-Run {world = world} mode p total run made fold fits bound =
        let todo = after 𝓟 𝓙 p.observed log in
        let (held, (now, _)) =
          Run-IsTrue 𝓟 𝓙 𝓢 kept should_persist id schema log lawful order increasing
            (joins run mode p made) in
        let ((state, usable_), linked) =
          assemble-IsLinked 𝓟 𝓙 𝓢 kept id schema log lawful order world mode p (suc (length todo))
            made fits bound in
        let fold_now = now.of_state state (usable 𝓟 𝓙 p state usable_) in
        let rest : fold_items 𝓟 𝓙 state todo ≡ some total =
          sym (fold_items-append 𝓟 𝓙 𝓙.initial (upto 𝓟 𝓙 p.observed log) todo state fold_now)
          ∙ ap (fold_items 𝓟 𝓙 𝓙.initial) (upto-append-after 𝓟 𝓙 order p.observed log increasing)
          ∙ fold in
        drain-IsDone todo world p state total
          (record { usable_ = usable_; current = now; held = held; linked = linked }) refl rest
