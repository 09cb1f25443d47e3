-- ===== src/Kernel/Version/Run.antt =====
-- Version runs against consecutive versions by plain arithmetic.
use mnesis.Base.{ℕ, zero, suc, ◌+◌, ◌≤◌, ◌<◌, ◌≡◌, refl, ◌↔◌, none, some, List, [], ◌∷◌, arith}
use mnesis.Base.Words.{u64_max, usize_max}
use mathlib.Core.Path.{ap₂}
use mnesis.Kernel.Version.{Version, VersionRun, IsVersion, run, advance, next_item, collect}

-- The versions `start`, `start + 1`, … (`len` of them), by plain arithmetic.
abbrev pub consecutive : ℕ → ℕ → List Version
consecutive start zero = []
consecutive start (suc len) = record { as_u64 = start } ∷ consecutive (suc start) len

next_item_more :
    (v : Version) (n : ℕ)
    → next_item (record { next = v; remaining = suc n })
      ≡ (some v, record { next = advance n v; remaining = n })
unfolding next_item
next_item_more v n = ground arith

advance_raw :
    (v : Version) (n : ℕ) → 0 < n → v.as_u64 < u64_max → (advance n v).as_u64 ≡ v.as_u64 + 1
advance_raw v n pos h = ground arith

-- One round of the loop.
collect_step :
    (fuel : ℕ) (v : Version) (n : ℕ)
    → collect (suc fuel) (record { next = v; remaining = suc n }) ≡ (
      v ∷ (collect fuel (record { next = advance n v; remaining = n })).0,
      (collect fuel (record { next = advance n v; remaining = n })).1,
    )
unfolding collect
collect_step fuel v n = simp (next_item_more, collect)

-- A run that fits yields its versions, and stops there.
collect-consecutive :
    (len start : ℕ) (v : Version)
    → (0 < len → v.as_u64 ≡ start)
    → start + len ≤ u64_max + 1
    → (collect (suc len) (record { next = v; remaining = len })).0 ≡ consecutive start len
collect-consecutive zero start v e h = unfold collect next_item in ground arith
collect-consecutive (suc len) start v e h =
    let e' : v.as_u64 ≡ start = e (omega arith) in
    rw collect_step (
      ap₂ (λ x l. x ∷ l) (λ i. record { as_u64 = e' i })
        (collect-consecutive len (suc start) (advance len v)
          (λ pos. ground (arith, advance_raw v len, e')) (omega arith)))

-- `Version::run` is refused exactly when the run would pass `u64::MAX`.
pub run-none_iff :
    (start : Version) (len : ℕ)
    → IsVersion start
    → len ≤ usize_max
    → (run start len ≡ none) ↔ (u64_max + 1 < start.as_u64 + len)
unfolding run
run-none_iff start len v h = (λ e. ground arith, λ e. ground arith)

-- A run that `Version::run` accepts yields the `len` versions from `start` on.
pub run-collect :
    (start : Version) (len : ℕ) (r : VersionRun)
    → IsVersion start
    → len ≤ usize_max
    → run start len ≡ some r
    → (collect (suc len) r).0 ≡ consecutive start.as_u64 len
run-collect start len r v h e =
    rw (← run_shape) (collect-consecutive len start.as_u64 start (λ _. refl) fits)
  where
    run_shape : record { next = start; remaining = len } ≡ r
    run_shape = unfold run in ground arith

    fits : start.as_u64 + len ≤ u64_max + 1
    fits = unfold run in ground arith
