-- ===== src/InMemory/Import/Entire.antt =====
-- The sections of a whole-chunk import, from the first block to the last, against the runs that it
-- writes and the reports that it makes.
use mnesis.Base.{
  ℕ, ◌≡◌, ◌∙◌, refl, ap, ◌⊎◌, inl, inr, Option, none, some, List, [], ◌∷◌, ◌++◌, map, arith,
  Option-cases,
}
use mathlib.Core.Path.{subst}
use mathlib.Core.List.{append-nil}
use mnesis.Base.Result.{ok, >>=-eq-ok, Result-cases}
use mnesis.Kernel.Version
use mnesis.Kernel.Version.{Version}
use mnesis.Store.Value.{FromUtf8}
use mnesis.Store.Envelope.{batch_iter}
use mnesis.Store.Envelope.Persisted.{PersistedEnvelope, from_persisted}
use mnesis.Store.Append.{StreamKey}
use mnesis.Store.Import.{batch}
use mnesis.Store.Import.Plan.{
  event, StreamSection, Halt, RunPlan, SectionPlan, run, empty, first_corrupt, plan_section,
}
use mnesis.Store.Import.Plan.Exact.{IsRunPlan, IsPlanOf, Stops, plan_section_exact}
use mnesis.InMemory.Streams.{rows_of}
use mnesis.InMemory.Frame.{StoredFrame}
use mnesis.InMemory.Store.{Inner}
use mnesis.InMemory.Stage.{AllHold}
use mnesis.InMemory.Atomic.Whole.{AllLanded}
use mnesis.InMemory.Import.{
  StreamReport, StreamOutcome, ChunkWrite, chunk_write, chunk_writes, push_write, planned,
  completed, zip,
}
use mnesis.InMemory.Import.Section.{AllImportable, AllImportable-AllVersions, Halt-cases}
use mnesis.InMemory.Import.PerStream.{AllSections, routed}

-- The section is a list of events, and the report says that its stream has grown by the rows of
-- these, in order, up to the version reported.
pub record IsEntire (u : FromUtf8) (inner after : Inner) (section : StreamSection)
    (target : StreamKey) (report : StreamReport) : Type 0 where
  pub events : List PersistedEnvelope
  pub all : section.blocks ≡ map event events
  pub new : List StoredFrame
  pub held : AllHold u new (map from_persisted events)
  pub grown : rows_of target after.streams ≡ rows_of target inner.streams ++ new
  pub last : Version
  pub told : report ≡ record { stream = target; outcome = StreamOutcome.complete last }

module _ (route : List ℕ → StreamKey) where
  -- One report for every section, in order; a section without blocks has none.
  abbrev pub AllEntire : FromUtf8 → Inner → Inner → List StreamSection → List StreamReport → Type 0
  AllEntire u inner after [] reports = reports ≡ []
  AllEntire u inner after (s ∷ sections) reports =
      ((s.blocks ≡ []) × AllEntire u inner after sections reports)
      ⊎ ((r : StreamReport) × (rest : List StreamReport) × (reports ≡ r ∷ rest)
          × IsEntire u inner after s (route s.origin) r
          × AllEntire u inner after sections rest)

  -- The write takes every block of the section.
  abbrev Takes : StreamSection → ChunkWrite → Type 0
  Takes s w =
      (events : List PersistedEnvelope) × (s.blocks ≡ map event events)
      × (batch_iter (batch w.write) ≡ map from_persisted events)
      × (w.write.target ≡ route s.origin)

  abbrev pub AllTaken : List StreamSection → List ChunkWrite → Type 0
  AllTaken [] ws = ws ≡ []
  AllTaken (s ∷ sections) ws =
      ((s.blocks ≡ []) × AllTaken sections ws)
      ⊎ ((w : ChunkWrite) × (rest : List ChunkWrite) × (ws ≡ w ∷ rest)
          × Takes s w
          × AllTaken sections rest)

  abbrev TakenOf : StreamSection → StreamKey → Option ChunkWrite → Type 0
  TakenOf s t none = s.blocks ≡ []
  TakenOf s t (some w) = Takes s w

  run-Takes :
      (s : StreamSection) (p : RunPlan) (w : ChunkWrite)
      → IsRunPlan s.blocks p
      → p.halt ≡ Halt.complete
      → w.write.target ≡ route s.origin
      → w.write.head ≡ p.head
      → w.write.tail ≡ p.tail
      → Takes s w
  run-Takes s p w i done at head tail =
      let ends : i.rest ≡ [] = subst (λ h. Stops p.last h i.rest) done i.stop in
      (
        i.first_event ∷ i.others,
        i.split
            ∙ ap (λ l. event i.first_event ∷ (map event i.others ++ l)) ends
            ∙ ap (λ l. event i.first_event ∷ l) (append-nil (map event i.others)),
        (λ j. (head ∙ i.head) j ∷ (tail ∙ i.tail) j),
        at,
      )

  chunk_write-Takes :
      (u : FromUtf8) (s : StreamSection) (o : Option ChunkWrite)
      → AllImportable u s.blocks
      → chunk_write s (route s.origin) ≡ ok o
      → TakenOf s (route s.origin) o
  unfolding chunk_write
  chunk_write-Takes u s o h e = elim (Result-cases (plan_section s)) [
    | inr (x, q) ↦ absurd (ground (arith, q, e))
    | inl (plan, q) ↦
        go plan q (plan_section_exact s plan (AllImportable-AllVersions u s.blocks h) q)
  ]
    where
      go :
          (plan : SectionPlan)
          → plan_section s ≡ ok plan
          → IsPlanOf s.blocks plan
          → TakenOf s (route s.origin) o
      go empty q i =
          let same : none ≡ o = ground (arith, q, e) in subst (TakenOf s (route s.origin)) same i
      go first_corrupt q i = absurd (ground (arith, q, e))
      go (run p) q i = elim (Halt-cases p.halt) [
        | inl done ↦
            let w : ChunkWrite = record {
              write = record {
                target = route s.origin;
                expected_version = p.expected_version;
                head = p.head;
                tail = p.tail;
              };
              first = p.first;
              last = p.last;
            } in
            let same : some w ≡ o = ground (arith, q, done, e) in
            subst (TakenOf s (route s.origin)) same (run-Takes s p w i done refl refl refl)
        | inr (inl bad) ↦ absurd (ground (arith, q, bad, e))
        | inr (inr (got, off)) ↦ elim (Option-cases (Version.next p.last)) [
          | inl over ↦ absurd (ground (arith, q, off, over, e))
          | inr (next, n) ↦ absurd (ground (arith, q, off, n, e))
        ]
      ]

  push_write-AllTaken :
      (s : StreamSection) (sections : List StreamSection) (o : Option ChunkWrite)
      (ws : List ChunkWrite)
      → TakenOf s (route s.origin) o
      → AllTaken sections ws
      → AllTaken (s ∷ sections) (push_write o ws)
  push_write-AllTaken s sections none ws h rest = inl (h, rest)
  push_write-AllTaken s sections (some w) ws h rest = inr (w, ws, refl, h, rest)

  pub chunk_writes-AllTaken :
      (u : FromUtf8) (sections : List StreamSection) (ws : List ChunkWrite)
      → AllSections u sections
      → chunk_writes (zip sections (routed sections route)) ≡ ok ws
      → AllTaken sections ws
  unfolding chunk_writes
  chunk_writes-AllTaken u [] ws h e = ground arith
  chunk_writes-AllTaken u (s ∷ sections) ws h e =
      let (o, q, e') = >>=-eq-ok (chunk_write s (route s.origin)) _ e in
      let (rest, r, e'') = >>=-eq-ok (chunk_writes (zip sections (routed sections route))) _ e' in
      let same : push_write o rest ≡ ws = ground arith in
      subst (AllTaken (s ∷ sections)) same (
        push_write-AllTaken s sections o rest (chunk_write-Takes u s o h.0 q)
          (chunk_writes-AllTaken u sections rest h.1 r))

  -- The writes that were planned have landed.
  pub completed-AllEntire :
      (u : FromUtf8) (inner after : Inner) (sections : List StreamSection) (ws : List ChunkWrite)
      → AllTaken sections ws
      → AllLanded u inner.streams after.streams (planned ws)
      → AllEntire u inner after sections (completed ws)
  completed-AllEntire u inner after [] ws h landed = ap completed h
  completed-AllEntire u inner after (s ∷ sections) ws (inl (none_, h)) landed =
      inl (none_, completed-AllEntire u inner after sections ws h landed)
  completed-AllEntire u inner after (s ∷ sections) ws
        (inr (w, rest, same, (events, all, taken, at), h)) landed =
      let ((new, held, grown), others) =
        subst (λ x. AllLanded u inner.streams after.streams (planned x)) same landed in
      inr (
        record { stream = w.write.target; outcome = StreamOutcome.complete w.last },
        completed rest,
        ap completed same,
        record {
          events = events;
          all = all;
          new = new;
          held = subst (AllHold u new) taken held;
          grown = subst (λ t. rows_of t after.streams ≡ rows_of t inner.streams ++ new) at grown;
          last = w.last;
          told = λ i. record { stream = at i; outcome = StreamOutcome.complete w.last };
        },
        completed-AllEntire u inner after sections rest h others,
      )
