-- ===== src/Store/Examples/Atomic.antt =====
-- The checks of an atomic append on two runs.
use mnesis.Base.{◌≡◌, refl, none, some, [], ◌∷◌}
use mnesis.Base.Bytes.{bytes_eq}
use mnesis.Base.Result.{err}
use mnesis.Store.Import.{
  PlannedAppend, non_sequential, seen_at, check_run, check_runs, check_targets,
  validate_atomic_runs, validate_distinct_targets, targets,
}
use mnesis.Store.Examples.{envelope}

abbrev orders : PlannedAppend
orders = record {
  target = record { bytes = 111 ∷ [] };
  expected_version = none;
  head = envelope;
  tail = [];
}

-- A run of version 1 that expects version 1.
abbrev late : PlannedAppend
late = record orders { expected_version = some (record { as_u64 = 1 }) }

late_fails :
    validate_atomic_runs (orders ∷ late ∷ [])
    ≡ err (non_sequential 1 (record { as_u64 = 2 }) (record { as_u64 = 1 }))
unfolding check_runs check_run
late_fails = refl

twice_fails :
    validate_distinct_targets (targets (orders ∷ late ∷ []))
    ≡ err (record { target = orders.target; first_index = 0; index = 1 })
unfolding check_targets seen_at bytes_eq
twice_fails = refl
