-- ===== src/Store/Append/Exact.antt =====
-- What the append contract accepts.
use mnesis.Base.{
  ℕ, suc, ◌+◌, ◌≤◌, ◌≡◌, ◌↔◌, ◌⊎◌, refl, true, false, Option, none, some, List, [], ◌∷◌, arith,
  length, map, Bool-cases, inl, inr,
}
use mnesis.Base.Words.{u64_max}
use mnesis.Base.Result.{ok}
use mnesis.Kernel.Version.{Version}
use mnesis.Kernel.Version.Run.{consecutive}
use mnesis.Store.Envelope.{PendingEnvelope, PendingBatch, batch_iter, batch_len}
use mnesis.Store.Append.{
  StreamKey, version_eq, actual_version, check_sequence, validate_append_versions,
}

abbrev pub versions : List PendingEnvelope → List Version
versions = map (λ e. e.version)

check_sequence_sound :
    (id : StreamKey) (next : ℕ) (envs : List PendingEnvelope)
    → next ≤ u64_max
    → check_sequence id next envs ≡ ok tt
    → (versions envs ≡ consecutive (suc next) (length envs)) × (next + length envs ≤ u64_max)
unfolding check_sequence
check_sequence_sound id next [] top h = (refl, omega arith)
check_sequence_sound id next (e ∷ es) top h = ground (arith, check_sequence_sound id (next + 1) es)

check_sequence_complete :
    (id : StreamKey) (next : ℕ) (envs : List PendingEnvelope)
    → versions envs ≡ consecutive (suc next) (length envs)
    → next + length envs ≤ u64_max
    → check_sequence id next envs ≡ ok tt
unfolding check_sequence
check_sequence_complete id next [] h top = refl
check_sequence_complete id next (e ∷ es) h top =
    ground (arith, check_sequence_complete id (next + 1) es)

eq-of-version_eq : (a b : Option Version) → version_eq a b ≡ true → a ≡ b
eq-of-version_eq none none h = refl
eq-of-version_eq none (some b) h = cc
eq-of-version_eq (some a) none h = cc
eq-of-version_eq (some a) (some b) h = ground arith

version_eq-of : (a b : Option Version) → a ≡ b → version_eq a b ≡ true
version_eq-of none none h = refl
version_eq-of none (some b) h = cc
version_eq-of (some a) none h = cc
version_eq-of (some a) (some b) h = ground arith

-- An append is accepted exactly when the caller expects the stream's head and the batch carries the
-- versions that follow it, one by one, none above `u64::MAX`.
pub validate_append_iff :
    (current : ℕ) (expected : Option Version) (batch : PendingBatch) (id : StreamKey)
    → current ≤ u64_max
    → (validate_append_versions current expected batch id ≡ ok tt) ↔ (
        (expected ≡ actual_version current)
        × (versions (batch_iter batch) ≡ consecutive (suc current) (batch_len batch))
        × (current + batch_len batch ≤ u64_max))
unfolding validate_append_versions
validate_append_iff current expected batch id top = (
  λ h. accepted (Bool-cases (version_eq expected (actual_version current))) h,
  λ h.
      rw (version_eq-of expected (actual_version current) h.0)
        (check_sequence_complete id current (batch_iter batch) h.1 h.2),
)
  where
    accepted :
        (version_eq expected (actual_version current) ≡ true)
          ⊎ (version_eq expected (actual_version current) ≡ false)
        → validate_append_versions current expected batch id ≡ ok tt
        → (expected ≡ actual_version current)
          × (versions (batch_iter batch) ≡ consecutive (suc current) (batch_len batch))
          × (current + batch_len batch ≤ u64_max)
    accepted (inl same) h =
        let (v, t) = check_sequence_sound id current (batch_iter batch) top (rw same at h) in
        (eq-of-version_eq expected (actual_version current) same, v, t)
    accepted (inr differs) h = absurd (ground arith)
