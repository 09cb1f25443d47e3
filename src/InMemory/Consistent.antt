-- ===== src/InMemory/Consistent.antt =====
-- The invariant of the store, and that the commit of a staged run keeps it.
use mnesis.Base.{ℕ, suc, ◌+◌, ◌≤◌, ◌≡◌, List, [], ◌∷◌, ◌++◌, arith, length, Bool-cases, inl, inr}
use mathlib.Core.List.{append-nil}
use mnesis.Base.Words.{u64_max}
use mnesis.Kernel.Version.Run.{consecutive}
use mnesis.Store.Value.{FromUtf8}
use mnesis.Store.Envelope.{PendingEnvelope}
use mnesis.Store.Append.{StreamKey, key_eq}
use mnesis.Store.Append.Exact.{versions}
use mnesis.InMemory.Streams.{rows_of, extend, rows_of-extend, key_eq→eq}
use mnesis.InMemory.Frame.{StoredFrame, Holds}
use mnesis.InMemory.Store.{Inner, Staged, commit, frames, index_rows}
use mnesis.InMemory.Stage.{AllHold, ArePositions}
use mnesis.InMemory.Index.{
  IsAscending, frames_at, tagged, index_rows-append, frames_at-append, frames_at-tagged,
}

-- Stored versions `n`, `n + 1`, …
abbrev pub AreVersions : ℕ → List StoredFrame → Type 0
AreVersions n [] = Unit
AreVersions n (f ∷ fs) = (f.version ≡ n) × AreVersions (suc n) fs

-- Every frame reads back as the envelope that was stored in it.
abbrev pub AllReadable : FromUtf8 → List StoredFrame → Type 0
AllReadable u [] = Unit
AllReadable u (f ∷ fs) = ((env : PendingEnvelope) × Holds u f env) × AllReadable u fs

-- Streams are gapless from version 1 and readable; the `$all` index is in strict order below the
-- counter, and for each stream it holds that stream's rows in that stream's order.
pub record IsConsistent (u : FromUtf8) (inner : Inner) : Type 0 where
  pub ascending : IsAscending 0 inner.global_index inner.next_global_seq
  pub counter : inner.next_global_seq ≤ u64_max
  pub agree : (id : StreamKey) → frames_at id inner.global_index ≡ rows_of id inner.streams
  pub gapless : (id : StreamKey) → AreVersions 1 (rows_of id inner.streams)
  pub readable : (id : StreamKey) → AllReadable u (rows_of id inner.streams)

AreVersions-append :
    (n m : ℕ) (xs ys : List StoredFrame)
    → AreVersions n xs
    → n + length xs ≡ m
    → AreVersions m ys
    → AreVersions n (xs ++ ys)
AreVersions-append n m [] ys h e k = let e' : m ≡ n = omega arith in rw (← e') k
AreVersions-append n m (x ∷ xs) ys h e k =
    (h.0, AreVersions-append (suc n) m xs ys h.1 (omega arith) k)

AllReadable-append :
    (u : FromUtf8) (xs ys : List StoredFrame)
    → AllReadable u xs
    → AllReadable u ys
    → AllReadable u (xs ++ ys)
AllReadable-append u [] ys h k = k
AllReadable-append u (x ∷ xs) ys h k = (h.0, AllReadable-append u xs ys h.1 k)

pub AllHold-AllReadable :
    (u : FromUtf8) (fs : List StoredFrame) (es : List PendingEnvelope)
    → AllHold u fs es
    → AllReadable u fs
AllHold-AllReadable u [] [] h = tt
AllHold-AllReadable u [] (e ∷ es) h = elim h [ ]
AllHold-AllReadable u (f ∷ fs) [] h = elim h [ ]
AllHold-AllReadable u (f ∷ fs) (e ∷ es) h = ((e, h.0), AllHold-AllReadable u fs es h.1)

pub AllHold-AreVersions :
    (u : FromUtf8) (fs : List StoredFrame) (es : List PendingEnvelope) (n : ℕ)
    → AllHold u fs es
    → versions es ≡ consecutive n (length es)
    → AreVersions n fs
AllHold-AreVersions u [] [] n h e = tt
AllHold-AreVersions u [] (x ∷ es) n h e = elim h [ ]
AllHold-AreVersions u (f ∷ fs) [] n h e = elim h [ ]
AllHold-AreVersions u (f ∷ fs) (x ∷ es) n h e =
    (ground (arith, h.0.at_version), AllHold-AreVersions u fs es (suc n) h.1 (cc))

-- A staged run for the stream `id`, in the state in which it was staged.
pub record IsRun (u : FromUtf8) (id : StreamKey) (inner : Inner) (s : Staged) : Type 0 where
  pub positions : ArePositions inner.next_global_seq s.rows
  pub next : inner.next_global_seq + length s.rows ≡ s.seq
  pub bound : s.seq ≤ u64_max
  pub readable : AllReadable u (frames s.rows)
  pub versions : AreVersions (suc (length (rows_of id inner.streams))) (frames s.rows)

module _ (u : FromUtf8) (id : StreamKey) (inner : Inner) (s : Staged) (c : IsConsistent u inner)
    (r : IsRun u id inner s) where
  indexed :
      (index_rows id s.rows inner.global_index ≡ inner.global_index ++ tagged id s.rows)
      × IsAscending 0 (index_rows id s.rows inner.global_index) s.seq
  indexed =
      index_rows-append id s.rows inner.global_index 0 inner.next_global_seq s.seq c.ascending
        r.positions r.next

  commit-agree :
      (j : StreamKey)
      → frames_at j (index_rows id s.rows inner.global_index)
        ≡ rows_of j (extend id (frames s.rows) inner.streams)
  commit-agree j =
      rw (indexed.0, frames_at-append, frames_at-tagged, rows_of-extend)
        (ground (arith, c.agree j, key_eq→eq id j, append-nil (rows_of j inner.streams)))

  commit-gapless :
      (j : StreamKey) → AreVersions 1 (rows_of j (extend id (frames s.rows) inner.streams))
  commit-gapless j = rw rows_of-extend (elim (Bool-cases (key_eq id j)) [
    | inl e ↦ rw e (
        AreVersions-append 1 (suc (length (rows_of id inner.streams))) (rows_of id inner.streams) _
          (c.gapless id) (omega arith) r.versions)
    | inr e ↦ rw e (c.gapless j)
  ])

  commit-readable :
      (j : StreamKey) → AllReadable u (rows_of j (extend id (frames s.rows) inner.streams))
  commit-readable j = rw rows_of-extend (elim (Bool-cases (key_eq id j)) [
    | inl e ↦ rw e (AllReadable-append u (rows_of id inner.streams) _ (c.readable id) r.readable)
    | inr e ↦ rw e (c.readable j)
  ])

  pub commit-IsConsistent : IsConsistent u (commit id s inner)
  unfolding commit
  commit-IsConsistent = record {
    ascending = indexed.1;
    counter = r.bound;
    agree = commit-agree;
    gapless = commit-gapless;
    readable = commit-readable;
  }
