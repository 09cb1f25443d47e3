-- ===== src/Store/Examples/Triggers.antt =====
-- The triggers at fixed inputs.
use mnesis.Base.{ℕ, ◌*◌, ◌≤◌, ◌<◌, ◌≡◌, ◌↔◌, refl, true, false, some, [], ◌∷◌, arith}
use mnesis.Base.Bytes.{bytes_eq}
use mnesis.Kernel.Version.{Version}
use mnesis.Store.Trigger.{any, every_n_events, after_event_types, every_n_events_exact}

abbrev version : ℕ → Version
version n = record { as_u64 = n }

passes_20 : every_n_events 10 (some (version 17)) (version 23) [] ≡ true
passes_20 = refl

stays_behind_20 : every_n_events 10 (some (version 10)) (version 19) [] ≡ false
stays_behind_20 = refl

sleeps : after_event_types {P = ℕ} ((67 ∷ []) ∷ []) (some 1) 2 ((68 ∷ []) ∷ []) ≡ false
unfolding any bytes_eq
sleeps = refl

every_n_events_exact_example :
    (every_n_events 10 (some (version 17)) (version 23) [] ≡ true)
    ↔ ((k : ℕ) × (17 < k * 10) × (k * 10 ≤ 23))
every_n_events_exact_example =
    every_n_events_exact 10 (some (version 17)) (version 23) [] (omega arith)
