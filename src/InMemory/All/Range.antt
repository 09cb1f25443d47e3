-- ===== src/InMemory/All/Range.antt =====
-- Ranges of the `$all` index: what follows an entry, and that its frame opens.
use mnesis.Base.{
  ℕ, ◌≤◌, ◌<◌, ◌≡◌, refl, ap, true, Bool-cases, inl, inr, Option, none, some, List, [], ◌∷◌, arith,
  length,
}
use mathlib.Core.Path.{subst}
use mnesis.Base.Result.{ok}
use mnesis.Store.Value.{FromUtf8}
use mnesis.Store.Append.{StreamKey, key_eq}
use mnesis.Store.Envelope.Persisted.{PersistedEnvelope}
use mnesis.InMemory.Streams.{key_eq_refl}
use mnesis.InMemory.Frame.{StoredFrame, frame_to_envelope}
use mnesis.InMemory.Index.{IsAscending, frames_at}
use mnesis.InMemory.Consistent.{AllReadable}
use mnesis.InMemory.All.{Row, is_after, range_after}

range_after-all :
    (after : Option ℕ) (lo hi : ℕ) (index : List Row)
    → IsAscending lo index hi
    → ((p : ℕ) → lo < p → is_after after p ≡ true)
    → range_after after index ≡ index
unfolding range_after
range_after-all after lo hi [] h above = refl
range_after-all after lo hi ((p, v) ∷ index) h above =
    rw (above p h.0, range_after)
      (ap (λ l. (p, v) ∷ l)
        (range_after-all after p hi index h.1 (λ q less. above q (omega (arith, h.0)))))

is_after-up :
    (after : Option ℕ) (p q : ℕ) → is_after after p ≡ true → p < q → is_after after q ≡ true
is_after-up none p q h less = refl
is_after-up (some a) p q h less = ground arith

-- Behind the first entry of a range stands the range from its position on.
pub range_after-cons :
    (after : Option ℕ) (lo hi : ℕ) (index : List Row) (row : Row) (rest : List Row)
    → IsAscending lo index hi
    → range_after after index ≡ row ∷ rest
    → (lo < row.0) × (range_after (some row.0) index ≡ rest)
unfolding range_after
range_after-cons after lo hi [] row rest h e = absurd (ground arith)
range_after-cons after lo hi ((p, v) ∷ index) row rest h e = elim (Bool-cases (is_after after p)) [
  | inl here ↦
      let same : (p, v) ≡ row = ground (arith, here, e) in
      let tail : index ≡ rest = ground (
        arith,
        here,
        e,
        range_after-all after p hi index h.1 (λ q less. is_after-up after p q here less),
      ) in
      subst (λ (x : Row). (lo < x.0) × (range_after (some x.0) ((p, v) ∷ index) ≡ rest)) same
        (
          h.0,
          ground (arith, tail, range_after-all (some p) p hi index h.1 (λ q less. ground arith)),
        )
  | inr below ↦
      let (less, next) =
        range_after-cons after p hi index row rest h.1 (ground (arith, below, e)) in
      (omega (arith, less, h.0), ground (arith, less, next))
]

frames_at-own :
    (p : ℕ) (k : StreamKey) (f : StoredFrame) (index : List Row)
    → frames_at k ((p, (k, f)) ∷ index) ≡ f ∷ frames_at k index
unfolding frames_at
frames_at-own p k f index = rw (key_eq_refl k) refl

frames_at-tail :
    (u : FromUtf8) (j : StreamKey) (row : Row) (index : List Row)
    → AllReadable u (frames_at j (row ∷ index))
    → AllReadable u (frames_at j index)
unfolding frames_at
frames_at-tail u j (p, (k, f)) index r = elim (Bool-cases (key_eq k j)) [
  | inl own ↦
      let e : frames_at j ((p, (k, f)) ∷ index) ≡ f ∷ frames_at j index =
        rw (own, frames_at) refl in
      (subst (AllReadable u) e r).1
  | inr other ↦
      let e : frames_at j ((p, (k, f)) ∷ index) ≡ frames_at j index = rw (other, frames_at) refl in
      subst (AllReadable u) e r
]

-- Every frame of a range opens, where the rows of its stream do.
pub range_after-readable :
    (u : FromUtf8) (after : Option ℕ) (index : List Row) (row : Row) (rest : List Row)
    → AllReadable u (frames_at row.1.0 index)
    → range_after after index ≡ row ∷ rest
    → (p : PersistedEnvelope) × (frame_to_envelope u row.1.1 ≡ ok p)
unfolding range_after frames_at
range_after-readable u after [] row rest r e = absurd (ground arith)
range_after-readable u after ((p, (k, f)) ∷ index) row rest r e =
    elim (Bool-cases (is_after after p)) [
      | inl here ↦
          let same : (p, (k, f)) ≡ row = ground (arith, here, e) in
          subst
            (λ (x : Row).
              AllReadable u (frames_at x.1.0 ((p, (k, f)) ∷ index))
              → (env : PersistedEnvelope) × (frame_to_envelope u x.1.1 ≡ ok env))
            same
            (λ own.
              let first = subst (AllReadable u) (frames_at-own p k f index) own in
              (first.0.1.persisted, first.0.1.readable))
            r
      | inr below ↦
          range_after-readable u after index row rest (frames_at-tail u row.1.0 (p, (k, f)) index r)
            (ground (arith, below, e))
    ]

pub length-range_after :
    (after : Option ℕ) (index : List Row) → length (range_after after index) ≤ length index
unfolding range_after
length-range_after after [] = omega arith
length-range_after after (row ∷ index) = ground (arith, length-range_after after index)
