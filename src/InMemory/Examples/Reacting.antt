-- ===== src/InMemory/Examples/Reacting.antt =====
-- A saga that counts, and asks for a payment at every event of five or more.
use mnesis.Base.{ℕ, ◌≡◌, ◌≤◌, Option, none, some, [], ◌∷◌, leb, if◌then◌else◌, length, arith}
use mnesis.Base.Result.{Result, ok}
use mnesis.Kernel.Events.{Events}
use mnesis.Kernel.Aggregate.{handle}
use mnesis.InMemory.Store.{default}
use mnesis.InMemory.Append.{default-IsConsistent}
use mnesis.InMemory.Consistent.{IsConsistent}
use mnesis.InMemory.Saga.{react_and_save}
use mnesis.InMemory.Saga.Effect.{IsReactionEffect, react_and_save_effect}
use mnesis.InMemory.Examples.{any_utf8}
use mnesis.InMemory.Examples.Saving.{counters, counters-IsLawful, root}

abbrev payment : ℕ → Option ℕ
payment event = if leb 5 event then some event else none

abbrev split : ℕ → ℕ → Result ℕ (Option (Events ℕ))
split total event = ok (some (record { first = 1; rest = event ∷ [] }))

split_fits :
    (produced : Events ℕ) → handle split root 7 ≡ ok (some produced) → length produced.rest ≤ 1
unfolding handle
split_fits produced h = ground arith

react_and_save_effect_example :
    IsConsistent any_utf8 (react_and_save counters 1 payment split root 7 default).0
    × IsReactionEffect any_utf8 counters 1 payment split root 7 default
        (react_and_save counters 1 payment split root 7 default)
react_and_save_effect_example =
    react_and_save_effect any_utf8 counters 1 payment split root 7 default counters-IsLawful
      (default-IsConsistent any_utf8) split_fits
