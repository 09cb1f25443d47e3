-- ===== src/Kernel/Examples.antt =====
-- Runs of the kernel on a small counter, and its theorems at concrete inputs.
use mnesis.Base.{
  ℕ, ◌+◌, ◌<◌, ◌≡◌, ◌↔◌, refl, none, some, Option, List, [], ◌∷◌, arith, ◌==◌, if◌then◌else◌,
}
use mnesis.Base.Words.{u64_max}
use mnesis.Base.Result.{err}
use mnesis.Kernel.Version.{Version, run}
use mnesis.Kernel.Version.Run.{run-none_iff}
use mnesis.Kernel.Events
use mnesis.Kernel.Events.{Events, events_macro}
use mnesis.Kernel.Aggregate.{
  Aggregate, AggregateRoot, KernelError, returned, panicked, done, new_root, fold_events,
  replay_checks, replay, commit_version, commit_persisted, rehydrate,
}
use mnesis.Kernel.Aggregate.Replay.{stamped, commit-rehydrate}
use mnesis.Kernel.Aggregate.Reach.{IsWellFormed, fresh, next, by_commit, Reach-IsWellFormed}

abbrev version : ℕ → Version
version n = record { as_u64 = n }

-- A counter whose `apply` panics on the event 99, with a budget of three replays.
abbrev counter : Aggregate
counter = record {
  State = ℕ;
  Event = ℕ;
  Error = ℕ;
  AggregateId = ℕ;
  initial = 0;
  apply = λ s e. if e == 99 then none else some (s + e);
  max_rehydration_events = 3;
}

abbrev root : AggregateRoot counter
root = new_root 7

abbrev two_events : Events ℕ
two_events = record { first = 10; rest = 5 ∷ [] }

abbrev committed_root : AggregateRoot counter
committed_root = record { id = 7; state = some 15; version = some (version 2); replayed_events = 0 }

abbrev poisoned_root : AggregateRoot counter
poisoned_root = record { id = 7; state = none; version = none; replayed_events = 0 }

commit_runs : commit_persisted root two_events ≡ (committed_root, done)
unfolding commit_persisted commit_version fold_events
commit_runs = refl

replay_gap :
    replay root (version 2) 10
    ≡ (root, returned (err (KernelError.version_mismatch (version 1) (version 2))))
unfolding replay replay_checks
replay_gap = refl

replay_panics : replay root (version 1) 99 ≡ (poisoned_root, panicked)
unfolding replay replay_checks fold_events
replay_panics = refl

commit-rehydrate_example :
    (committed : AggregateRoot counter) × (commit_persisted root two_events ≡ (committed, done))
    × (rehydrate root (stamped 1 (10 ∷ 5 ∷ [])) ≡ (record committed { replayed_events = 2 }, done))
    × (committed.state ≡ some 15)
    × (committed.replayed_events ≡ 0)
commit-rehydrate_example =
    commit-rehydrate root two_events 0 15 refl (omega arith) (omega arith) (omega arith) refl

abbrev replayed_root : AggregateRoot counter
replayed_root = record { id = 7; state = some 10; version = some (version 1); replayed_events = 1 }

replay_runs : replay root (version 1) 10 ≡ (replayed_root, done)
unfolding replay replay_checks fold_events
replay_runs = refl

Reach-IsWellFormed_example : IsWellFormed (commit_persisted root two_events).0
Reach-IsWellFormed_example = Reach-IsWellFormed (next (fresh 7) (by_commit root two_events))

run-none_iff_example :
    (run (version 18446744073709551615) 2 ≡ none) ↔ (u64_max + 1 < 18446744073709551615 + 2)
run-none_iff_example = run-none_iff (version 18446744073709551615) 2 (omega arith) (omega arith)

abbrev three_events : List ℕ
three_events = 1 ∷ 2 ∷ 3 ∷ []

abbrev added : Option (Events ℕ)
added = Events.add_all 2 (Events.new 1) (2 ∷ 3 ∷ [])
