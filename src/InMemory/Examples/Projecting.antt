-- ===== src/InMemory/Examples/Projecting.antt =====
-- A projection that sums, over the in-memory checkpoint store.
use mnesis.Base.{
  ℕ, suc, ◌+◌, ◌≤◌, ◌≡◌, refl, sym, ◌∙◌, true, false, none, some, List, [], ◌∷◌, inl, leb, ltb,
  arith, if◌then◌else◌, le→leb, leb→le, leb→gt, length,
}
use mathlib.Core.Path.{subst}
use mnesis.Base.Bytes.{bytes_eq}
use mnesis.Base.Words.{u64_max}
use mnesis.Base.Result.{ok, err}
use mnesis.Store.Checkpoint.{Positions, advance, check_mode, next_revision}
use mnesis.Store.Projection.{
  Projector, Positioned, Projection, Trigger, returned, assemble, starting, flush, advance_by,
  state_of,
}
use mnesis.Store.Projection.Contract.{Kept, IsLawful}
use mnesis.Store.Projection.Fold.{IsOrder, IsIncreasing, after, fold_items}
use mnesis.Store.Projection.Truth
use mnesis.Store.Projection.Truth.{some_inj}
use mnesis.Store.Projection.Ready
use mnesis.Store.Projection.Failure.{IsSettled, advance-IsSettled}
use mnesis.Store.Projection.Workers.{Run, starts, joins, takes, leaves, IsAll, Run-IsTrue}
use mnesis.Store.Projection.CatchUp.{drain, drain-Run}
use mnesis.InMemory.Checkpoint.{Records, commit_checkpoint}
use mnesis.Base.Maps.{get, insert}
use mnesis.InMemory.Checkpoint.Contract.{
  in_memory, kept_in, in_memory-IsLawful, in_memory-IsAnswering,
}

abbrev pub sequence : Positions
sequence = record { Position = ℕ; is_at_most = leb }

sequence-IsOrder : IsOrder sequence
sequence-IsOrder = record {
  le_trans = λ a b c h k. le→leb a c (omega (arith, leb→le a b h, leb→le b c k));
  le_antisym = λ a b h k. omega (arith, leb→le a b h, leb→le b a k);
  le_total = λ a b h. le→leb b a (omega (arith, leb→gt a b h));
}

-- The sum of the events, as long as it stays under 1000.
abbrev summing : Projector
summing = record {
  State = ℕ;
  Event = ℕ;
  Error = Unit;
  initial = 0;
  apply_attributed =
      λ state key event. some (if ltb (state + event) 1000 then ok (state + event) else err tt);
  name = λ event. 110 ∷ [];
}

abbrev at : ℕ → ℕ → Positioned sequence summing
at position event = record { position = position; key = none; event = event }

abbrev items : List (Positioned sequence summing)
items = at 2 10 ∷ at 5 20 ∷ at 9 30 ∷ []

abbrev always : Trigger sequence
always = λ old new names. some true

abbrev Stored : Type 0
Stored = Records sequence ℕ

abbrev id : List ℕ
id = 115 ∷ []

abbrev fresh : Projection sequence summing
fresh = record {
  id = id;
  schema_version = 1;
  state = some 0;
  revision = none;
  checkpoint = none;
  observed = none;
  reload_required = false;
  rebuilt_from = none;
}

loads : assemble sequence summing (in_memory sequence ℕ) id 1 advance [] ≡ ok fresh
unfolding assemble starting get
loads = refl

items-IsIncreasing : IsIncreasing sequence summing items
items-IsIncreasing = ((refl, (refl, tt)), ((refl, tt), (tt, tt)))

abbrev first : Stored
first = (advance_by sequence summing (in_memory sequence ℕ) always [] fresh (at 2 10)).0

-- A worker takes the first item, and is gone.
gone : Run sequence summing (in_memory sequence ℕ) (kept_in sequence ℕ) always id 1 items first []
unfolding after get
gone = leaves [] [] _ (
    takes [] [] fresh (joins (starts [] (λ r h. absurd cc)) advance fresh loads) (at 2 10)
      (inl (at 5 20 ∷ at 9 30 ∷ [], refl)))

abbrev resumed : Projection sequence summing
resumed = record fresh {
  state = some 10;
  revision = some 1;
  checkpoint = some 2;
  observed = some 2;
}

resumes : assemble sequence summing (in_memory sequence ℕ) id 1 advance first ≡ ok resumed
unfolding assemble starting advance_by flush commit_checkpoint next_revision check_mode get insert
    bytes_eq
resumes = refl

abbrev behind : List (Positioned sequence summing)
behind = at 5 20 ∷ at 9 30 ∷ []

abbrev drained : Stored
drained =
    (drain sequence summing (in_memory sequence ℕ) (kept_in sequence ℕ) always id 1 items first
      resumed (after sequence summing (some 2) items)).0

totals : fold_items sequence summing 0 items ≡ some 60
unfolding fold_items
totals = refl

few : suc (length (after sequence summing (some 2) items)) ≤ u64_max
unfolding after
few = omega arith

abbrev kept_first : Kept sequence ℕ
kept_first = record { revision = 1; schema_version = 1; position = 2; state = 10 }

keeps_first : kept_in sequence ℕ first id ≡ some kept_first
unfolding advance_by flush commit_checkpoint next_revision check_mode get insert bytes_eq
keeps_first = refl

few_left :
    (r : Kept sequence ℕ)
    → kept_in sequence ℕ first id ≡ some r
    → r.revision + suc (length (after sequence summing (some 2) items)) ≤ u64_max
unfolding after
few_left r h =
    subst (λ x. x.revision + 3 ≤ u64_max) (some_inj kept_first r (sym keeps_first ∙ h))
      (omega arith)

drain-Run_example :
    let out =
      drain sequence summing
        (in_memory sequence ℕ)
        (kept_in sequence ℕ)
        always
        id
        1
        items
        first
        resumed
        (after sequence summing (some 2) items) in
    (out.2 ≡ returned (ok tt))
    × (state_of sequence summing out.1 ≡ ok 60)
    × (after sequence summing out.1.observed items ≡ [])
    × Ready.IsStored sequence summing
        (in_memory sequence ℕ)
        (kept_in sequence ℕ)
        id
        1
        items
        out.0
        out.1
        60
drain-Run_example =
    drain-Run sequence summing (in_memory sequence ℕ) (kept_in sequence ℕ) always id 1 items
      sequence-IsOrder items-IsIncreasing (in_memory-IsLawful sequence ℕ)
      (in_memory-IsAnswering sequence ℕ) (λ checkpoint position names. (true, refl)) advance resumed
      60 gone resumes totals few few_left

Run-IsTrue_example :
    Truth.IsTrue sequence summing id 1 items (kept_in sequence ℕ first id)
    × IsAll (Truth.IsCurrent sequence summing id 1 items) (resumed ∷ [])
Run-IsTrue_example =
    Run-IsTrue sequence summing (in_memory sequence ℕ) (kept_in sequence ℕ) always id 1 items
      (in_memory-IsLawful sequence ℕ) sequence-IsOrder items-IsIncreasing
      (joins gone advance resumed resumes)

advance-IsSettled_example :
    IsSettled sequence summing
      (in_memory sequence ℕ)
      always
      first
      resumed
      (at 5 2000)
      (advance_by sequence summing (in_memory sequence ℕ) always first resumed (at 5 2000))
advance-IsSettled_example =
    advance-IsSettled sequence summing (in_memory sequence ℕ) always first resumed (at 5 2000)

in_memory-IsLawful_example : IsLawful sequence ℕ (in_memory sequence ℕ) (kept_in sequence ℕ)
in_memory-IsLawful_example = in_memory-IsLawful sequence ℕ
