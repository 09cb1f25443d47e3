-- ===== src/Store/Projection/Workers.antt =====
-- Any number of workers of one projection over one checkpoint store, each fed by a subscription
-- from its own place on, and each ending where it likes.
use mnesis.Base.{ℕ, ◌≡◌, ◌≢◌, Option, some, List, [], ◌∷◌, ◌++◌, arith}
use mnesis.Base.Result.{ok}
use mnesis.Store.Checkpoint.{Positions, CheckpointMode}
use mnesis.Store.Projection.{
  Projector, Positioned, Projection, Trigger, CheckpointStore, assemble, flush, advance_by,
}
use mnesis.Store.Projection.Contract.{Kept, IsLawful}
use mnesis.Store.Projection.Fold.{IsOrder, IsIncreasing}
use mnesis.Store.Projection.Truth
use mnesis.Store.Projection.Flush.{flush-keeps}
use mnesis.Store.Projection.Start.{assemble-keeps}
use mnesis.Store.Projection.Advance.{advance-keeps}

abbrev pub IsAll : {A : Type 0} → (A → Type 0) → List A → Type 0
IsAll P [] = Unit
IsAll P (x ∷ xs) = P x × IsAll P xs

at_middle :
    {A : Type 0} (P : A → Type 0) (before behind : List A) (x : A)
    → IsAll P (before ++ x ∷ behind)
    → P x × IsAll P (before ++ behind) × ((y : A) → P y → IsAll P (before ++ y ∷ behind))
at_middle P [] behind x (own, rest) = (own, rest, λ y h. (h, rest))
at_middle P (a ∷ before) behind x (first, rest) =
    let (own, others, put) = at_middle P before behind x rest in
    (own, (first, others), λ y h. (first, put y h))

module _ (𝓟 : Positions) (𝓙 : Projector) (𝓢 : CheckpointStore 𝓟 𝓙.State)
    (kept : 𝓢.World → List ℕ → Option (Kept 𝓟 𝓙.State)) (should_persist : Trigger 𝓟) (id : List ℕ)
    (schema : ℕ) (log : List (Positioned 𝓟 𝓙)) where
  abbrev IsOffered : Projection 𝓟 𝓙 → Positioned 𝓟 𝓙 → Type 0
  IsOffered = Truth.IsOffered 𝓟 𝓙 id schema log

  abbrev IsTrue : Option (Kept 𝓟 𝓙.State) → Type 0
  IsTrue = Truth.IsTrue 𝓟 𝓙 id schema log

  abbrev IsCurrent : Projection 𝓟 𝓙 → Type 0
  IsCurrent = Truth.IsCurrent 𝓟 𝓙 id schema log

  -- The worlds, with the workers at large.
  pub data Run : 𝓢.World → List (Projection 𝓟 𝓙) → Type 0 where
    starts :
        (world : 𝓢.World)
        → ((r : Kept 𝓟 𝓙.State) → kept world id ≡ some r → r.schema_version ≢ schema)
        → Run world []
    joins :
        {world : 𝓢.World} {ps : List (Projection 𝓟 𝓙)}
        → Run world ps
        → (mode : CheckpointMode) (p : Projection 𝓟 𝓙) → assemble 𝓟 𝓙 𝓢 id schema mode world ≡ ok p
        → Run world (p ∷ ps)
    takes :
        {world : 𝓢.World}
        → (before behind : List (Projection 𝓟 𝓙)) (p : Projection 𝓟 𝓙)
        → Run world (before ++ p ∷ behind)
        → (item : Positioned 𝓟 𝓙) → IsOffered p item
        → Run
            (advance_by 𝓟 𝓙 𝓢 should_persist world p item).0
            (before ++ (advance_by 𝓟 𝓙 𝓢 should_persist world p item).1 ∷ behind)
    flushes :
        {world : 𝓢.World}
        → (before behind : List (Projection 𝓟 𝓙)) (p : Projection 𝓟 𝓙)
        → Run world (before ++ p ∷ behind)
        → Run (flush 𝓟 𝓙 𝓢 world p).0 (before ++ (flush 𝓟 𝓙 𝓢 world p).1 ∷ behind)
    leaves :
        {world : 𝓢.World}
        → (before behind : List (Projection 𝓟 𝓙)) (p : Projection 𝓟 𝓙)
        → Run world (before ++ p ∷ behind)
        → Run world (before ++ behind)
    elsewhere :
        {world : 𝓢.World} {ps : List (Projection 𝓟 𝓙)}
        → Run world ps
        → (world' : 𝓢.World)
        → ((r : Kept 𝓟 𝓙.State)
            → kept world' id ≡ some r
            → r.schema_version ≡ schema
            → kept world id ≡ some r)
        → Run world' ps

  module _ (lawful : IsLawful 𝓟 𝓙.State 𝓢 kept) where
    module _ (order : IsOrder 𝓟) (increasing : IsIncreasing 𝓟 𝓙 log) where
      -- Whatever any number of workers of one projection do over a lawful checkpoint store, where
      -- each is loaded or rebuilt at its own time, is fed from its own place with the next item or
      -- again with a passed one, flushes, fails, is cancelled in a write that may or may not have
      -- been stored, or is dropped, and while checkpoints of other schemas may be written: the
      -- stored checkpoint of this schema is the fold of exactly the items up to its position, and
      -- the state of each worker that has one is the fold of exactly the items up to the one that
      -- it has observed last.
      pub Run-IsTrue :
          {world : 𝓢.World} {ps : List (Projection 𝓟 𝓙)}
          → Run world ps
          → IsTrue (kept world id) × IsAll IsCurrent ps
      Run-IsTrue (starts world fresh) = (λ r e same. absurd (ground (arith, fresh r e, same)), tt)
      Run-IsTrue (joins {world = world} run mode p made) =
          let (held, all) = Run-IsTrue run in
          (held, (assemble-keeps 𝓟 𝓙 𝓢 kept id schema log lawful world mode p made held, all))
      Run-IsTrue (takes {world = world} before behind p run item offered) =
          let (held, all) = Run-IsTrue run in
          let (now, _, put) = at_middle IsCurrent before behind p all in
          let (held', now') =
            advance-keeps 𝓟 𝓙 𝓢 kept should_persist id schema log lawful order increasing world p
              item offered held now in
          (held', put _ now')
      Run-IsTrue (flushes {world = world} before behind p run) =
          let (held, all) = Run-IsTrue run in
          let (now, _, put) = at_middle IsCurrent before behind p all in
          let (held', now') = flush-keeps 𝓟 𝓙 𝓢 kept id schema log lawful world p held now in
          (held', put _ now')
      Run-IsTrue (leaves before behind p run) =
          let (held, all) = Run-IsTrue run in (held, (at_middle IsCurrent before behind p all).1)
      Run-IsTrue (elsewhere run world' from) =
          let (held, all) = Run-IsTrue run in (λ r e same. held r (from r e same) same, all)
