-- ===== src/Store/Import/Valid.antt =====
-- What the two checks of an atomic append accept.
use mnesis.Base.{
  ℕ, suc, ◌+◌, ◌≤◌, ◌<◌, ◌≡◌, ◌↔◌, inl, inr, refl, false, Option, none, some, List, [], ◌∷◌, arith,
  leb, if◌then◌else◌, length, Option-cases,
}
use mnesis.Base.Words.{u64_max}
use mnesis.Base.Result.{ok, ◌>>=◌, ◌>>◌, >>=-eq-ok}
use mnesis.Kernel.Version
use mnesis.Kernel.Version.{Version}
use mnesis.Kernel.Version.Run.{consecutive}
use mnesis.Kernel.Aggregate.{version_or_zero}
use mnesis.Store.Envelope.{PendingEnvelope, batch_iter, batch_len}
use mnesis.Store.Append.{StreamKey, key_eq}
use mnesis.Store.Append.Exact.{versions}
use mnesis.Store.Import.{
  PlannedAppend, batch, first_version, check_run, check_runs, validate_atomic_runs, seen_at,
  check_targets, validate_distinct_targets,
}

-- The batch carries the versions that follow the expected one, none above `u64::MAX`.
pub record IsRunOf (w : PlannedAppend) : Type 0 where
  pub follows :
      versions (batch_iter (batch w))
      ≡ consecutive (suc (version_or_zero w.expected_version)) (batch_len (batch w))
  pub in_range : version_or_zero w.expected_version + batch_len (batch w) ≤ u64_max

abbrev pub AllRuns : List PlannedAppend → Type 0
AllRuns [] = Unit
AllRuns (w ∷ ws) = IsRunOf w × AllRuns ws

-- The version `n`, while there is one.
abbrev at_version : ℕ → Option Version
at_version n = if leb n u64_max then some (record { as_u64 = n }) else none

next-at_version : (v : Version) → Version.next v ≡ at_version (v.as_u64 + 1)
next-at_version v = ground arith

first_version-at : (e : Option Version) → first_version e ≡ at_version (suc (version_or_zero e))
first_version-at none = refl
first_version-at (some v) = ground arith

check_run_sound :
    (index n : ℕ) (es : List PendingEnvelope)
    → check_run index (at_version n) es ≡ ok tt
    → (versions es ≡ consecutive n (length es)) × (0 < length es → n + length es ≤ suc u64_max)
unfolding check_run
check_run_sound index n [] h = (refl, λ x. absurd (omega arith))
check_run_sound index n (e ∷ es) h =
    ground (arith, next-at_version e.version, check_run_sound index (suc n) es, h)

check_run_complete :
    (index n : ℕ) (es : List PendingEnvelope)
    → versions es ≡ consecutive n (length es)
    → n + length es ≤ suc u64_max
    → check_run index (at_version n) es ≡ ok tt
unfolding check_run
check_run_complete index n [] h top = refl
check_run_complete index n (e ∷ es) h top =
    ground (arith, next-at_version e.version, check_run_complete index (suc n) es)

check_runs_sound : (i : ℕ) (ws : List PlannedAppend) → check_runs i ws ≡ ok tt → AllRuns ws
unfolding check_runs
check_runs_sound i [] h = tt
check_runs_sound i (w ∷ ws) h =
    let n : ℕ = suc (version_or_zero w.expected_version) in
    let (u, run, h') =
      >>=-eq-ok (check_run i (first_version w.expected_version) (batch_iter (batch w))) _ h in
    let run' : check_run i (at_version n) (batch_iter (batch w)) ≡ ok tt =
      rw (← first_version-at w.expected_version) run in
    let (follows, top) = check_run_sound i n (batch_iter (batch w)) run' in
    (
      record { follows = follows; in_range = omega (arith, top (omega arith)) },
      check_runs_sound (suc i) ws h',
    )

check_runs_complete : (i : ℕ) (ws : List PlannedAppend) → AllRuns ws → check_runs i ws ≡ ok tt
unfolding check_runs
check_runs_complete i [] h = refl
check_runs_complete i (w ∷ ws) h =
    let n : ℕ = suc (version_or_zero w.expected_version) in
    let run : check_run i (first_version w.expected_version) (batch_iter (batch w)) ≡ ok tt =
      rw (first_version-at w.expected_version)
        (check_run_complete i n (batch_iter (batch w)) h.0.follows (omega (arith, h.0.in_range))) in
    rw (run, ◌>>◌, ◌>>=◌) (check_runs_complete (suc i) ws h.1)

-- `validate_atomic_runs` accepts exactly when every run carries the versions that follow its
-- expected version one by one, none above `u64::MAX`.
pub validate_atomic_runs_iff :
    (ws : List PlannedAppend) → (validate_atomic_runs ws ≡ ok tt) ↔ AllRuns ws
validate_atomic_runs_iff ws = (check_runs_sound 0 ws, check_runs_complete 0 ws)

-- No target equals `id`.
abbrev pub AllOther : StreamKey → List StreamKey → Type 0
AllOther id [] = Unit
AllOther id (t ∷ ts) = (key_eq id t ≡ false) × AllOther id ts

abbrev pub AreDistinct : List StreamKey → Type 0
AreDistinct [] = Unit
AreDistinct (t ∷ ts) = AllOther t ts × AreDistinct ts

abbrev AllUnseen : List (StreamKey × ℕ) → List StreamKey → Type 0
AllUnseen seen [] = Unit
AllUnseen seen (t ∷ ts) = (seen_at t seen ≡ none) × AllUnseen seen ts

unseen-parts :
    (t : StreamKey) (i : ℕ) (seen : List (StreamKey × ℕ)) (ts : List StreamKey)
    → AllUnseen ((t, i) ∷ seen) ts
    → AllOther t ts × AllUnseen seen ts
unfolding seen_at
unseen-parts t i seen [] h = (tt, tt)
unseen-parts t i seen (x ∷ ts) h =
    let (others, unseen) = unseen-parts t i seen ts h.1 in
    ((ground (arith, h.0), others), (ground (arith, h.0), unseen))

unseen-more :
    (t : StreamKey) (i : ℕ) (seen : List (StreamKey × ℕ)) (ts : List StreamKey)
    → AllOther t ts
    → AllUnseen seen ts
    → AllUnseen ((t, i) ∷ seen) ts
unfolding seen_at
unseen-more t i seen [] h k = tt
unseen-more t i seen (x ∷ ts) h k = (rw (h.0, seen_at) k.0, unseen-more t i seen ts h.1 k.1)

check_targets_sound :
    (i : ℕ) (seen : List (StreamKey × ℕ)) (ts : List StreamKey)
    → check_targets i seen ts ≡ ok tt
    → AllUnseen seen ts × AreDistinct ts
unfolding check_targets
check_targets_sound i seen [] h = (tt, tt)
check_targets_sound i seen (t ∷ ts) h = elim (Option-cases (seen_at t seen)) [
  | inl new ↦
      let (unseen, distinct) =
        check_targets_sound (suc i) ((t, i) ∷ seen) ts (ground (arith, new, h)) in
      let (others, rest) = unseen-parts t i seen ts unseen in ((new, rest), (others, distinct))
  | inr (first, old) ↦ absurd (ground (arith, old, h))
]

check_targets_complete :
    (i : ℕ) (seen : List (StreamKey × ℕ)) (ts : List StreamKey)
    → AllUnseen seen ts
    → AreDistinct ts
    → check_targets i seen ts ≡ ok tt
unfolding check_targets
check_targets_complete i seen [] h d = refl
check_targets_complete i seen (t ∷ ts) h d =
    rw (h.0, check_targets)
      (check_targets_complete (suc i) ((t, i) ∷ seen) ts (unseen-more t i seen ts d.0 h.1) d.1)

nothing-seen : (ts : List StreamKey) → AllUnseen [] ts
unfolding seen_at
nothing-seen [] = tt
nothing-seen (t ∷ ts) = (refl, nothing-seen ts)

-- `validate_distinct_targets` accepts exactly the lists whose targets differ pairwise.
pub validate_distinct_targets_iff :
    (ts : List StreamKey) → (validate_distinct_targets ts ≡ ok tt) ↔ AreDistinct ts
validate_distinct_targets_iff ts =
    (λ h. (check_targets_sound 0 [] ts h).1, check_targets_complete 0 [] ts (nothing-seen ts))
