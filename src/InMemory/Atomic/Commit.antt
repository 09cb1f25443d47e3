-- ===== src/InMemory/Atomic/Commit.antt =====
-- The commit of several staged runs, one run at a time, against the invariant.
use mnesis.Base.{ℕ, suc, ◌≡◌, sym, List, [], ◌∷◌, map, arith, length}
use mathlib.Core.List.{append_assoc}
use mnesis.Base.Result.{ok}
use mnesis.Kernel.Aggregate.{version_or_zero}
use mnesis.Store.Value.{FromUtf8}
use mnesis.Store.Envelope.{batch_iter}
use mnesis.Store.Append.{StreamKey}
use mnesis.Store.Import.{PlannedAppend, batch, targets}
use mnesis.Store.Import.Valid.{IsRunOf, AllOther}
use mnesis.InMemory.Streams.{rows_of, extend, rows_of-extend}
use mnesis.InMemory.Frame.{StoredFrame}
use mnesis.InMemory.Store.{Inner, Staged, commit, frames}
use mnesis.InMemory.Stage.{AllPending, IsStaged}
use mnesis.InMemory.Consistent.{AllHold-AllReadable, AllHold-AreVersions, IsRun}
use mnesis.InMemory.Append.{length-AllHold}
use mnesis.InMemory.Atomic.{check_heads, index_runs, extend_runs, commit_runs}

-- One run of a commit at a time.
pub commit_runs-cons :
    (key : StreamKey) (s : Staged) (runs : List (StreamKey × Staged)) (seq : ℕ) (inner : Inner)
    → commit_runs ((key, s) ∷ runs) seq inner ≡ commit_runs runs seq (commit key s inner)
unfolding commit_runs commit index_runs extend_runs
commit_runs-cons key s runs seq inner = λ i. record {
  streams = extend_runs runs (extend key (frames s.rows) inner.streams);
  next_global_seq = seq;
  global_index = (commit_runs ((key, s) ∷ runs) seq inner).global_index;
  woken = sym (append_assoc inner.woken (key ∷ []) (map (λ r. r.0) runs)) i;
}

-- Every target stands at the version that its write expects.
abbrev pub AtHeads : List (StreamKey × List StoredFrame) → List PlannedAppend → Type 0
AtHeads streams [] = Unit
AtHeads streams (w ∷ ws) =
    (length (rows_of w.target streams) ≡ version_or_zero w.expected_version) × AtHeads streams ws

pub check_heads_sound :
    (i : ℕ) (streams : List (StreamKey × List StoredFrame)) (ws : List PlannedAppend)
    → check_heads i streams ws ≡ ok tt
    → AtHeads streams ws
unfolding check_heads
check_heads_sound i streams [] h = tt
check_heads_sound i streams (w ∷ ws) h =
    (ground (arith, h), check_heads_sound (suc i) streams ws (ground (arith, h)))

-- A commit to another stream leaves the heads where they were.
pub AtHeads-extend :
    (id : StreamKey) (new : List StoredFrame) (streams : List (StreamKey × List StoredFrame))
    (ws : List PlannedAppend)
    → AllOther id (targets ws)
    → AtHeads streams ws
    → AtHeads (extend id new streams) ws
AtHeads-extend id new streams [] o h = tt
AtHeads-extend id new streams (w ∷ ws) o h =
    (rw (rows_of-extend, o.0) h.0, AtHeads-extend id new streams ws o.1 h.1)

abbrev pub AllWritesPending : FromUtf8 → List PlannedAppend → Type 0
AllWritesPending u [] = Unit
AllWritesPending u (w ∷ ws) = AllPending u (batch_iter (batch w)) × AllWritesPending u ws

-- The staged run of one write is a run on top of its stream.
pub staged-IsRun :
    (u : FromUtf8) (w : PlannedAppend) (inner : Inner) (last : ℕ) (s : Staged)
    → IsRunOf w
    → length (rows_of w.target inner.streams) ≡ version_or_zero w.expected_version
    → IsStaged u inner.next_global_seq last (batch_iter (batch w)) s
    → IsRun u w.target inner s
staged-IsRun u w inner last s r head st = record {
  positions = st.positions;
  next = omega (arith, st.next, length-AllHold u s.rows (batch_iter (batch w)) st.held);
  bound = st.bound;
  readable = AllHold-AllReadable u (frames s.rows) (batch_iter (batch w)) st.held;
  versions =
      AllHold-AreVersions u (frames s.rows) (batch_iter (batch w))
        (suc (length (rows_of w.target inner.streams))) st.held (rw head r.follows);
}
