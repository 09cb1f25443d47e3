-- ===== src/Kernel/Aggregate/Reach.antt =====
-- The roots that the public operations reach, in any order of calls and of panics.
use mnesis.Base.{◌≤◌, ◌≡◌, some, arith}
use mnesis.Base.Words.{u64_max}
use mnesis.Kernel.Version.{Version, IsVersion}
use mnesis.Kernel.Events.{Events}
use mnesis.Kernel.Aggregate.{
  Aggregate, AggregateRoot, new_root, restore, fold_events, replay_checks, replay, version_or_zero,
  commit_version, commit_persisted,
}

-- The version is in the range of its type, the replay budget is kept, and no more events were
-- replayed than the version counts.
pub record IsWellFormed {𝓐 : Aggregate} (root : AggregateRoot 𝓐) : Type 0 where
  pub positive : (v : Version) → root.version ≡ some v → 1 ≤ v.as_u64
  pub in_range : version_or_zero root.version ≤ u64_max
  pub within_budget : root.replayed_events ≤ 𝓐.max_rehydration_events
  pub counted : root.replayed_events ≤ version_or_zero root.version

pub data Step {𝓐 : Aggregate} : AggregateRoot 𝓐 → AggregateRoot 𝓐 → Type 0 where
  by_replay :
      (root : AggregateRoot 𝓐) (version : Version) (event : 𝓐.Event)
      → Step root (replay root version event).0
  by_commit :
      (root : AggregateRoot 𝓐) (events : Events 𝓐.Event)
      → Step root (commit_persisted root events).0

pub data Reach {𝓐 : Aggregate} : AggregateRoot 𝓐 → Type 0 where
  fresh : (id : 𝓐.AggregateId) → Reach (new_root id)
  restored :
      (id : 𝓐.AggregateId) (state : 𝓐.State) (v : Version)
      → IsVersion v
      → Reach (restore id state v)
  next : {root root' : AggregateRoot 𝓐} → Reach root → Step root root' → Reach root'

module _ {𝓐 : Aggregate} where
  replay-IsWellFormed :
      (root : AggregateRoot 𝓐) (version : Version) (event : 𝓐.Event)
      → IsWellFormed root
      → IsWellFormed (replay root version event).0
  unfolding replay replay_checks fold_events
  replay-IsWellFormed root version event w = record {
    positive = λ v h. ground (arith, w.positive v);
    in_range = ground arith;
    within_budget = ground arith;
    counted = ground arith;
  }

  commit_persisted-IsWellFormed :
      (root : AggregateRoot 𝓐) (events : Events 𝓐.Event)
      → IsWellFormed root
      → IsWellFormed (commit_persisted root events).0
  unfolding commit_persisted commit_version fold_events
  commit_persisted-IsWellFormed root events w = record {
    positive = λ v h. ground (arith, w.positive v);
    in_range = ground arith;
    within_budget = ground arith;
    counted = ground arith;
  }

  -- Every reachable root has its version in range and its replay count within the budget and at
  -- most the version.
  pub Reach-IsWellFormed : {root : AggregateRoot 𝓐} → Reach root → IsWellFormed root
  Reach-IsWellFormed (fresh id) = record {
    positive = λ v h. cc;
    in_range = omega arith;
    within_budget = omega arith;
    counted = omega arith;
  }
  Reach-IsWellFormed (restored id state v r) = record {
    positive = λ v' h. ground arith;
    in_range = omega arith;
    within_budget = omega arith;
    counted = omega arith;
  }
  Reach-IsWellFormed (next r (by_replay root version event)) =
      replay-IsWellFormed root version event (Reach-IsWellFormed r)
  Reach-IsWellFormed (next r (by_commit root events)) =
      commit_persisted-IsWellFormed root events (Reach-IsWellFormed r)

  -- The version never falls, on any step, whatever its reply.
  pub version_monotone :
      {root root' : AggregateRoot 𝓐}
      → Step root root'
      → version_or_zero root.version ≤ version_or_zero root'.version
  version_monotone (by_replay root version event) =
      unfold replay replay_checks fold_events in ground arith
  version_monotone (by_commit root events) =
      unfold commit_persisted commit_version fold_events in ground arith
