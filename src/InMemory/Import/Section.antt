-- ===== src/InMemory/Import/Section.antt =====
-- One section of an import on the in-memory store: what it leaves and what it reports.
use mnesis.Base.{
  ℕ, suc, ◌+◌, ◌<◌, ◌≡◌, ◌∙◌, refl, sym, ap, ◌⊎◌, inl, inr, false, Option, none, some, List, [],
  ◌∷◌, ◌++◌, map, arith, length, length-append, length-map,
}
use mathlib.Core.Path.{subst}
use mnesis.Base.Result.{Result, ok, Result-cases}
use mnesis.Kernel.Version.{Version}
use mnesis.Kernel.Aggregate.{version_or_zero}
use mnesis.Store.Value.{FromUtf8}
use mnesis.Store.Envelope.{PendingEnvelope, IsPending, batch_iter, batch_len}
use mnesis.Store.Envelope.Persisted.{PersistedEnvelope, from_persisted}
use mnesis.Store.Append.{StreamKey, key_eq, actual_version}
use mnesis.Store.Import.Plan.{
  ImportBlock, event, StreamSection, Halt, gap, RunPlan, SectionPlan, run, empty, first_corrupt,
  plan_section,
}
use mnesis.Store.Import.Plan.Exact.{IsRunPlan, IsPlanOf, AllVersions, plan_section_exact}
use mnesis.InMemory.Streams.{rows_of, key_eq_refl}
use mnesis.InMemory.Frame.{StoredFrame, InMemoryStoreError}
use mnesis.InMemory.Store.{Inner, AppendError, append}
use mnesis.InMemory.Stage.{AllHold, AllPending}
use mnesis.InMemory.Consistent.{IsConsistent}
use mnesis.InMemory.Append.{append-IsConsistent, append_effect}
use mnesis.InMemory.Import.{
  StreamOutcome, ImportError, reached, run_batch, appended, import_section,
}

-- Every event of the section is a well-formed envelope.
abbrev pub AllImportable : FromUtf8 → List ImportBlock → Type 0
AllImportable u [] = Unit
AllImportable u (ImportBlock.corrupt ∷ blocks) = AllImportable u blocks
AllImportable u (event e ∷ blocks) = IsPending u (from_persisted e) × AllImportable u blocks

pub AllImportable-AllVersions :
    (u : FromUtf8) (blocks : List ImportBlock) → AllImportable u blocks → AllVersions blocks
unfolding from_persisted
AllImportable-AllVersions u [] h = tt
AllImportable-AllVersions u (ImportBlock.corrupt ∷ blocks) h = AllImportable-AllVersions u blocks h
AllImportable-AllVersions u (event e ∷ blocks) h =
    (h.0.version, AllImportable-AllVersions u blocks h.1)

AllImportable-taken :
    (u : FromUtf8) (taken : List PersistedEnvelope) (rest : List ImportBlock)
    → AllImportable u (map event taken ++ rest)
    → AllPending u (map from_persisted taken)
AllImportable-taken u [] rest h = tt
AllImportable-taken u (e ∷ taken) rest h = (h.0, AllImportable-taken u taken rest h.1)

pub run-AllPending :
    (u : FromUtf8) (blocks : List ImportBlock) (p : RunPlan)
    → AllImportable u blocks
    → IsRunPlan blocks p
    → AllPending u (batch_iter (run_batch p))
run-AllPending u blocks p h i =
    let h' = subst (AllImportable u) i.split h in
    (
      subst (IsPending u) (sym i.head) h'.0,
      subst (AllPending u) (sym i.tail) (AllImportable-taken u i.others i.rest h'.1),
    )

-- What an outcome says of a stream that had the rows `before` and has the rows `after`.
abbrev pub Told : List StoredFrame → List StoredFrame → Option Version → Type 0
Told before after none = after ≡ before
Told before after (some v) = (length after ≡ v.as_u64) × (length before < length after)

-- A section that makes no report has not touched its stream.
abbrev pub ToldBy : List StoredFrame → List StoredFrame → Option StreamOutcome → Type 0
ToldBy before after none = after ≡ before
ToldBy before after (some outcome) = Told before after (reached outcome)

pub record IsImported (u : FromUtf8) (target : StreamKey) (inner : Inner)
    (out : Inner × Result ImportError (Option StreamOutcome)) : Type 0 where
  pub consistent : IsConsistent u out.0
  pub others :
      (j : StreamKey) → key_eq target j ≡ false → rows_of j out.0.streams ≡ rows_of j inner.streams
  pub told :
      (o : Option StreamOutcome)
      → out.1 ≡ ok o
      → ToldBy (rows_of target inner.streams) (rows_of target out.0.streams) o

version_or_zero-actual : (n : ℕ) → version_or_zero (actual_version n) ≡ n
version_or_zero-actual n = ground arith

pub length-AllHold_rows :
    (u : FromUtf8) (fs : List StoredFrame) (es : List PendingEnvelope)
    → AllHold u fs es
    → length fs ≡ length es
length-AllHold_rows u [] [] h = refl
length-AllHold_rows u [] (e ∷ es) h = elim h [ ]
length-AllHold_rows u (f ∷ fs) [] h = elim h [ ]
length-AllHold_rows u (f ∷ fs) (e ∷ es) h = ap suc (length-AllHold_rows u fs es h.1)

pub Halt-cases :
    (h : Halt) → (h ≡ Halt.complete) ⊎ ((h ≡ Halt.corrupt) ⊎ ((got : Version) × (h ≡ gap got)))
Halt-cases Halt.complete = inl refl
Halt-cases Halt.corrupt = inr (inl refl)
Halt-cases (gap got) = inr (inr (got, refl))

reached-appended : (p : RunPlan) → reached (appended p) ≡ some p.last
reached-appended p = elim (Halt-cases p.halt) [
  | inl e ↦ rw e refl
  | inr (inl e) ↦ rw e refl
  | inr (inr (got, e)) ↦ rw e refl
]

AppendError-cases :
    (e : AppendError)
    → ((k : StreamKey) × (expected : Option Version) × (actual : Option Version) × (e
          ≡ AppendError.conflict k expected actual))
      ⊎ ((x : InMemoryStoreError) × (e ≡ AppendError.store x))
AppendError-cases (AppendError.conflict k expected actual) = inl (k, expected, actual, refl)
AppendError-cases (AppendError.store x) = inr (x, refl)

-- The last version of a planned run, from the version that it expects.
pub run-last :
    {blocks : List ImportBlock} (p : RunPlan)
    → IsRunPlan blocks p
    → p.last.as_u64 ≡ version_or_zero p.expected_version + batch_len (run_batch p)
run-last p i =
    let tail : length p.tail ≡ length i.others =
      ap length i.tail ∙ length-map i.others from_persisted in
    omega (arith, tail, i.last, i.expected)

-- The rows of a stream that a run has grown.
pub grown :
    (last : Version) (expected len : ℕ) (before new after : List StoredFrame)
    → last.as_u64 ≡ expected + len
    → 0 < len
    → expected ≡ length before
    → length new ≡ len
    → after ≡ before ++ new
    → Told before after (some last)
grown last expected len before new after ends some_rows head new_len own =
    let grown_by : length after ≡ length before + length new =
      ap length own ∙ length-append before new in
    (omega (arith, grown_by, ends, head, new_len), omega (arith, grown_by, some_rows, new_len))

module _ (u : FromUtf8) (target : StreamKey) (inner : Inner) (c : IsConsistent u inner) where
  -- A section that changes nothing.
  kept :
      (r : Result ImportError (Option StreamOutcome))
      → ((o : Option StreamOutcome)
          → r ≡ ok o
          → ToldBy (rows_of target inner.streams) (rows_of target inner.streams) o)
      → IsImported u target inner (inner, r)
  kept r told = record { consistent = c; others = λ j apart. refl; told = told }

  appended-IsImported :
      (section : StreamSection) (p : RunPlan)
      → AllImportable u section.blocks
      → IsRunPlan section.blocks p
      → plan_section section ≡ ok (run p)
      → IsImported u target inner (import_section section target inner)
  unfolding import_section
  appended-IsImported section p h i planned =
      let out : Inner × Result AppendError ℕ =
        append target p.expected_version (run_batch p) inner in
      let pending = run-AllPending u section.blocks p h i in
      let sound = append-IsConsistent u target p.expected_version (run_batch p) inner pending c in
      let effect = append_effect u target p.expected_version (run_batch p) inner out.0 pending c in
      elim (Result-cases out.1) [
        | inl (pos, q) ↦
            let (head, (new, held, at), _, _, _) = effect.0 pos (λ i. (out.0, q i)) in
            let own : rows_of target out.0.streams ≡ rows_of target inner.streams ++ new =
              at target ∙ rw (key_eq_refl target) refl in
            rw (planned, q, import_section)
              (record {
                consistent = sound;
                others = λ j apart. at j ∙ rw apart refl;
                told = λ o e.
                    let same : some (appended p) ≡ o = ground arith in
                    subst (ToldBy (rows_of target inner.streams) (rows_of target out.0.streams))
                      same
                      (subst (Told (rows_of target inner.streams) (rows_of target out.0.streams))
                        (sym (reached-appended p))
                        (grown p.last (version_or_zero p.expected_version) (batch_len (run_batch p))
                          (rows_of target inner.streams) new (rows_of target out.0.streams)
                          (run-last p i) (omega arith)
                          (ap version_or_zero head
                            ∙ version_or_zero-actual (length (rows_of target inner.streams)))
                          (length-AllHold_rows u new (batch_iter (run_batch p)) held) own));
              })
        | inr (e, q) ↦
            let same : out.0 ≡ inner = effect.1 e (λ i. (out.0, q i)) in
            elim (AppendError-cases e) [
              | inl (k, expected, actual, conflicted) ↦
                  rw (planned, q, conflicted, import_section, same)
                    (kept _ (λ o x.
                      let same : some (StreamOutcome.mismatch none p.first) ≡ o = ground arith in
                      subst (ToldBy (rows_of target inner.streams) (rows_of target inner.streams))
                        same refl))
              | inr (x, broken) ↦ rw (planned, q, broken, import_section, same) (kept _ (λ o x. cc))
            ]
      ]

  pub import_section-IsImported :
      (section : StreamSection)
      → AllImportable u section.blocks
      → IsImported u target inner (import_section section target inner)
  unfolding import_section
  import_section-IsImported section h = elim (Result-cases (plan_section section)) [
    | inr (e, q) ↦ rw (q, import_section) (kept _ (λ o x. cc))
    | inl (plan, q) ↦
        planned plan q
          (plan_section_exact section plan (AllImportable-AllVersions u section.blocks h) q)
  ]
    where
      planned :
          (plan : SectionPlan)
          → plan_section section ≡ ok plan
          → IsPlanOf section.blocks plan
          → IsImported u target inner (import_section section target inner)
      planned empty q i =
          rw (q, import_section)
            (kept _ (λ o x.
              let same : none ≡ o = ground arith in
              subst (ToldBy (rows_of target inner.streams) (rows_of target inner.streams)) same
                refl))
      planned first_corrupt q i =
          rw (q, import_section)
            (kept _ (λ o x.
              let same : some (StreamOutcome.corrupt none) ≡ o = ground arith in
              subst (ToldBy (rows_of target inner.streams) (rows_of target inner.streams)) same
                refl))
      planned (run p) q i = appended-IsImported section p h i q
