-- ===== src/InMemory/Read/Scan.antt =====
-- A page of `scan_batch` against the rows from a version on.
use mnesis.Base.{
  ℕ, suc, ◌≤◌, ◌≡◌, refl, ap, List, [], ◌∷◌, ltb, leb, if◌then◌else◌, arith, take, drop, length,
  Bool-cases, inl, inr,
}
use mnesis.Store.Value.{FromUtf8}
use mnesis.InMemory.Frame.{StoredFrame}
use mnesis.InMemory.Consistent.{AreVersions, AllReadable}
use mnesis.InMemory.Read.{partition_point, scan_batch}

-- The rows at `from` and above.
unfoldable pub at_least : ℕ → List StoredFrame → List StoredFrame
at_least from [] = []
at_least from (row ∷ rows) =
    let rest = at_least from rows in if leb from row.version then row ∷ rest else rest

pub at_least-all :
    (from m : ℕ) (rows : List StoredFrame)
    → AreVersions m rows
    → from ≤ m
    → at_least from rows ≡ rows
unfolding at_least
at_least-all from m [] h le = refl
at_least-all from m (row ∷ rows) h le =
    ground (arith, h.0, at_least-all from (suc m) rows h.1 (omega arith))

drop-partition_point :
    (from m : ℕ) (rows : List StoredFrame)
    → AreVersions m rows
    → drop (partition_point from rows) rows ≡ at_least from rows
unfolding at_least partition_point
drop-partition_point from m [] h = refl
drop-partition_point from m (row ∷ rows) h = elim (Bool-cases (ltb row.version from)) [
  | inl below ↦ ground (arith, below, drop-partition_point from (suc m) rows h.1)
  | inr above ↦ ground (arith, above, at_least-all from (suc m) rows h.1)
]

-- `scan_batch` is a page of the rows from its version on.
pub scan_batch-at_least :
    (rows : List StoredFrame) (from m batch : ℕ)
    → AreVersions m rows
    → scan_batch rows from batch ≡ take batch (at_least from rows)
unfolding scan_batch
scan_batch-at_least rows from m batch h = ap (take batch) (drop-partition_point from m rows h)

-- The first row from `from` on is the one at `from`, and the others are those behind it.
pub at_least-cons :
    (rows : List StoredFrame) (from m : ℕ) (row : StoredFrame) (rest : List StoredFrame)
    → AreVersions m rows
    → m ≤ from
    → at_least from rows ≡ row ∷ rest
    → (row.version ≡ from) × (at_least (suc from) rows ≡ rest)
unfolding at_least
at_least-cons [] from m row rest h le e = absurd (ground arith)
at_least-cons (r ∷ rows) from m row rest h le e = elim (Bool-cases (leb from r.version)) [
  | inl here ↦ ground (
    arith,
    here,
    h.0,
    e,
    at_least-all from (suc m) rows h.1,
    at_least-all (suc from) (suc m) rows h.1,
  )
  | inr below ↦ ground (arith, below, h.0, e, at_least-cons rows from (suc m) row rest h.1)
]

pub length-at_least :
    (from : ℕ) (rows : List StoredFrame) → length (at_least from rows) ≤ length rows
unfolding at_least
length-at_least from [] = omega arith
length-at_least from (row ∷ rows) = ground (arith, length-at_least from rows)

pub at_least-AllReadable :
    (u : FromUtf8) (from : ℕ) (rows : List StoredFrame)
    → AllReadable u rows
    → AllReadable u (at_least from rows)
unfolding at_least
at_least-AllReadable u from [] h = tt
at_least-AllReadable u from (row ∷ rows) h = elim (Bool-cases (leb from row.version)) [
  | inl here ↦ rw (here, at_least) (h.0, at_least-AllReadable u from rows h.1)
  | inr below ↦ rw (below, at_least) (at_least-AllReadable u from rows h.1)
]
