-- ===== src/Store/Trigger.antt =====
-- The persist triggers of crates/store/src/state.rs.
use mnesis.Base.{
  ℕ, ◌*◌, ◌/◌, ◌≤◌, ◌<◌, ◌≡◌, ◌↔◌, ◌⊎◌, refl, sym, ◌∙◌, inl, inr, Bool, true, false, Option, List,
  [], ◌∷◌, arith, ltb, ltb→lt, lt→ltb, if◌then◌else◌, Bool-cases,
}
use native.Mathlib.Nat.{le-div_iff_mul-le, div-lt_iff_lt-mul, div-mul-le_self}
use mnesis.Base.Bytes.{bytes_eq, bytes_eq→eq, bytes_eq_refl}
use mathlib.Core.Path.{subst}
use mnesis.Kernel.Version.{Version}
use mnesis.Kernel.Aggregate.{version_or_zero}

-- `EveryNEvents`, of a number that is not 0.
abbrev pub every_n_events : ℕ → Option Version → Version → List (List ℕ) → Bool
every_n_events n old new names = ltb (version_or_zero old / n) (new.as_u64 / n)

-- `Iterator::any`
unfoldable pub any {ℓ} : {A : Type ℓ} → (A → Bool) → List A → Bool
any p [] = false
any p (x ∷ xs) = if p x then true else any p xs

-- `AfterEventTypes`
abbrev pub after_event_types {ℓ} :
    {P : Type ℓ} → List (List ℕ) → Option P → P → List (List ℕ) → Bool
after_event_types types old new names = any (λ name. any (λ t. bytes_eq t name) types) names

-- The trigger of every `n` events, `n` not 0, fires exactly when a multiple of `n` lies behind the
-- old version, or behind 0 where there is none, and not beyond the new one; whatever the events are
-- called.
pub every_n_events_exact :
    (n : ℕ) (old : Option Version) (new : Version) (names : List (List ℕ))
    → 0 < n
    → (every_n_events n old new names ≡ true)
      ↔ ((k : ℕ) × (version_or_zero old < k * n) × (k * n ≤ new.as_u64))
every_n_events_exact n old new names positive = (
  λ h. (
    new.as_u64 / n,
    (div-lt_iff_lt-mul positive).0 (ltb→lt (version_or_zero old / n) (new.as_u64 / n) h),
    div-mul-le_self new.as_u64 n,
  ),
  λ (k, behind, reached). lt→ltb (version_or_zero old / n) (new.as_u64 / n) (
      omega (arith, (div-lt_iff_lt-mul positive).1 behind, (le-div_iff_mul-le positive).1 reached)),
)

-- One of the elements is so.
abbrev pub HasOne {ℓ} : {A : Type ℓ} → (A → Type 0) → List A → Type 0
HasOne P [] = ⊥
HasOne P (x ∷ xs) = P x ⊎ HasOne P xs

any_iff {ℓ} :
    {A : Type ℓ} (p : A → Bool) (P : A → Type 0) (xs : List A)
    → ((x : A) → (p x ≡ true) ↔ P x)
    → (any p xs ≡ true) ↔ HasOne P xs
unfolding any
any_iff p P [] h = (λ e. absurd (ground (arith, e)), λ empty. absurd empty)
any_iff p P (x ∷ xs) h = elim (Bool-cases (p x)) [
  | inl fits ↦ (λ e. inl ((h x).0 fits), λ w. rw fits refl)
  | inr misses ↦
      let (to, fro) = any_iff p P xs h in
      (
        λ e. inr (to (sym (rw misses refl) ∙ e)),
        λ w. elim w [ inl own ↦ rw ((h x).1 own) refl | inr rest ↦ rw misses (fro rest) ],
      )
]

-- The trigger of event types fires exactly when one of the events has the name of one of the types,
-- whatever the positions are.
pub after_event_types_exact {ℓ} :
    {P : Type ℓ} (types : List (List ℕ)) (old : Option P) (new : P) (names : List (List ℕ))
    → (after_event_types types old new names ≡ true)
      ↔ HasOne (λ name. HasOne (λ t. t ≡ name) types) names
after_event_types_exact types old new names =
    any_iff (λ name. any (λ t. bytes_eq t name) types) (λ name. HasOne (λ t. t ≡ name) types) names
      (λ name.
        any_iff (λ t. bytes_eq t name) (λ t. t ≡ name) types
          (λ t.
            (λ h. bytes_eq→eq t name h, λ p. subst (λ l. bytes_eq t l ≡ true) p (bytes_eq_refl t))))
