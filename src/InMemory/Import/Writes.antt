-- ===== src/InMemory/Import/Writes.antt =====
-- The writes that a chunk of sections is planned into.
use mnesis.Base.{
  suc, ◌+◌, ◌≡◌, ◌∙◌, refl, sym, ap, inl, inr, Option, none, some, List, [], ◌∷◌, map, arith,
  length, Option-cases, length-map,
}
use mathlib.Core.Path.{subst}
use mnesis.Base.Result.{ok, >>=-eq-ok, Result-cases}
use mnesis.Kernel.Version
use mnesis.Kernel.Version.{Version}
use mnesis.Kernel.Version.Run.{consecutive}
use mnesis.Kernel.Aggregate.{version_or_zero}
use mnesis.Store.Value.{FromUtf8}
use mnesis.Store.Envelope.{PendingEnvelope, batch_iter, batch_len}
use mnesis.Store.Envelope.Persisted.{PersistedEnvelope, from_persisted}
use mnesis.Store.Append.{StreamKey, key_eq}
use mnesis.Store.Append.Exact.{versions}
use mnesis.Store.Import.{batch, targets}
use mnesis.Store.Import.Valid.{IsRunOf, AllRuns, AllOther, AreDistinct}
use mnesis.Store.Import.Plan.{
  ImportBlock, StreamSection, RunPlan, SectionPlan, run, empty, first_corrupt, plan_section,
}
use mnesis.Store.Import.Plan.Exact.{IsRunPlan, IsPlanOf, versions_of, plan_section_exact}
use mnesis.InMemory.Streams.{rows_of}
use mnesis.InMemory.Store.{Inner}
use mnesis.InMemory.Stage.{AllPending}
use mnesis.InMemory.Atomic.Commit.{AtHeads, AllWritesPending}
use mnesis.InMemory.Atomic.Whole.{AllLanded}
use mnesis.InMemory.Import.{ChunkWrite, chunk_write, chunk_writes, push_write, planned, completed}
use mnesis.InMemory.Import.Section.{
  AllImportable, AllImportable-AllVersions, run-AllPending, run-last, grown, length-AllHold_rows,
  Halt-cases,
}
use mnesis.InMemory.Import.PerStream.{AllTold, AllPairs, targets_of}

-- A write that its section has planned.
pub record IsChunkWrite (u : FromUtf8) (target : StreamKey) (w : ChunkWrite) : Type 0 where
  pub at : w.write.target ≡ target
  pub pending : AllPending u (batch_iter (batch w.write))
  pub runs : IsRunOf w.write
  pub last : w.last.as_u64 ≡ version_or_zero w.write.expected_version + batch_len (batch w.write)

abbrev pub AllChunkWrites : FromUtf8 → List ChunkWrite → Type 0
AllChunkWrites u [] = Unit
AllChunkWrites u (w ∷ ws) = IsChunkWrite u w.write.target w × AllChunkWrites u ws

abbrev write_of : StreamKey → RunPlan → ChunkWrite
write_of target p = record {
  write = record {
    target = target;
    expected_version = p.expected_version;
    head = p.head;
    tail = p.tail;
  };
  first = p.first;
  last = p.last;
}

versions-taken :
    (taken : List PersistedEnvelope) → versions (map from_persisted taken) ≡ versions_of taken
unfolding from_persisted
versions-taken [] = refl
versions-taken (e ∷ taken) = ap (λ l. e.version ∷ l) (versions-taken taken)

write_of-IsRunOf :
    (target : StreamKey) {blocks : List ImportBlock} (p : RunPlan)
    → IsRunPlan blocks p
    → IsRunOf (write_of target p).write
unfolding from_persisted
write_of-IsRunOf target p i =
    let tail : length p.tail ≡ length i.others =
      ap length i.tail ∙ length-map i.others from_persisted in
    let at : p.first.as_u64 ≡ suc (version_or_zero p.expected_version) =
      omega (arith, i.expected) in
    let head : p.head.version ≡ record { as_u64 = suc (version_or_zero p.expected_version) } =
      ap (λ (e : PendingEnvelope). e.version) i.head
      ∙ sym i.first
      ∙ (λ j. record { as_u64 = at j }) in
    let rest : versions p.tail
        ≡ consecutive (suc (suc (version_or_zero p.expected_version))) (length p.tail) =
      ap versions i.tail
      ∙ versions-taken i.others
      ∙ i.follows
      ∙ (λ j. consecutive (suc (at j)) (sym tail j)) in
    record { follows = λ j. head j ∷ rest j; in_range = omega (arith, run-last p i, i.in_range) }

chunk_write-IsChunkWrite :
    (u : FromUtf8) (s : StreamSection) (t : StreamKey) (w : ChunkWrite)
    → AllImportable u s.blocks
    → chunk_write s t ≡ ok (some w)
    → IsChunkWrite u t w
unfolding chunk_write
chunk_write-IsChunkWrite u s t w h e = elim (Result-cases (plan_section s)) [
  | inr (x, q) ↦ absurd (ground (arith, q, e))
  | inl (plan, q) ↦ go plan q (plan_section_exact s plan (AllImportable-AllVersions u s.blocks h) q)
]
  where
    go :
        (plan : SectionPlan)
        → plan_section s ≡ ok plan
        → IsPlanOf s.blocks plan
        → IsChunkWrite u t w
    go empty q i = absurd (ground (arith, q, e))
    go first_corrupt q i = absurd (ground (arith, q, e))
    go (run p) q i = elim (Halt-cases p.halt) [
      | inl done ↦
          let same : write_of t p ≡ w = ground (arith, q, done, e) in
          subst (IsChunkWrite u t) same (record {
            at = refl;
            pending = run-AllPending u s.blocks p h i;
            runs = write_of-IsRunOf t p i;
            last = run-last p i;
          })
      | inr (inl bad) ↦ absurd (ground (arith, q, bad, e))
      | inr (inr (got, off)) ↦ elim (Option-cases (Version.next p.last)) [
        | inl over ↦ absurd (ground (arith, q, off, over, e))
        | inr (next, n) ↦ absurd (ground (arith, q, off, n, e))
      ]
    ]

-- The writes of a chunk: planned, and to targets of the request only.
pub record IsChunk (u : FromUtf8) (pairs : List (StreamSection × StreamKey)) (ws : List ChunkWrite)
    : Type 0 where
  pub all : AllChunkWrites u ws
  pub named : (j : StreamKey) → AllOther j (targets_of pairs) → AllOther j (targets (planned ws))
  pub distinct : AreDistinct (targets_of pairs) → AreDistinct (targets (planned ws))

push_write-IsChunk :
    (u : FromUtf8) (s : StreamSection) (t : StreamKey) (pairs : List (StreamSection × StreamKey))
    (o : Option ChunkWrite) (ws : List ChunkWrite)
    → AllImportable u s.blocks
    → chunk_write s t ≡ ok o
    → IsChunk u pairs ws
    → IsChunk u ((s, t) ∷ pairs) (push_write o ws)
push_write-IsChunk u s t pairs none ws h e c = record {
  all = c.all;
  named = λ j other. c.named j other.1;
  distinct = λ d. c.distinct d.1;
}
push_write-IsChunk u s t pairs (some w) ws h e c =
    let i = chunk_write-IsChunkWrite u s t w h e in
    record {
      all = (record { at = refl; pending = i.pending; runs = i.runs; last = i.last }, c.all);
      named = λ j other. (ap (key_eq j) i.at ∙ other.0, c.named j other.1);
      distinct = λ d. (
        subst (λ k. AllOther k (targets (planned ws))) (sym i.at) (c.named t d.0),
        c.distinct d.1,
      );
    }

pub chunk_writes-IsChunk :
    (u : FromUtf8) (pairs : List (StreamSection × StreamKey)) (ws : List ChunkWrite)
    → AllPairs u pairs
    → chunk_writes pairs ≡ ok ws
    → IsChunk u pairs ws
unfolding chunk_writes
chunk_writes-IsChunk u [] ws h e =
    let same : [] ≡ ws = ground arith in
    subst (IsChunk u []) same (record { all = tt; named = λ j x. tt; distinct = λ d. tt })
chunk_writes-IsChunk u ((s, t) ∷ pairs) ws h e =
    let (o, q, e') = >>=-eq-ok (chunk_write s t) _ e in
    let (rest, r, e'') = >>=-eq-ok (chunk_writes pairs) _ e' in
    let same : push_write o rest ≡ ws = ground arith in
    subst (IsChunk u ((s, t) ∷ pairs)) same
      (push_write-IsChunk u s t pairs o rest h.0 q (chunk_writes-IsChunk u pairs rest h.1 r))

pub planned-AllWritesPending :
    (u : FromUtf8) (ws : List ChunkWrite) → AllChunkWrites u ws → AllWritesPending u (planned ws)
planned-AllWritesPending u [] h = tt
planned-AllWritesPending u (w ∷ ws) h = (h.0.pending, planned-AllWritesPending u ws h.1)

pub planned-AllRuns :
    (u : FromUtf8) (ws : List ChunkWrite) → AllChunkWrites u ws → AllRuns (planned ws)
planned-AllRuns u [] h = tt
planned-AllRuns u (w ∷ ws) h = (h.0.runs, planned-AllRuns u ws h.1)

-- Every report of a committed chunk is true.
pub completed-AllTold :
    (u : FromUtf8) (inner after : Inner) (ws : List ChunkWrite)
    → AllChunkWrites u ws
    → AtHeads inner.streams (planned ws)
    → AllLanded u inner.streams after.streams (planned ws)
    → AllTold inner after (completed ws)
completed-AllTold u inner after [] h heads landed = tt
completed-AllTold u inner after (w ∷ ws) h heads ((new, held, at), landed) = (
  grown w.last (version_or_zero w.write.expected_version) (batch_len (batch w.write))
      (rows_of w.write.target inner.streams) new (rows_of w.write.target after.streams) h.0.last
      (omega arith) (sym heads.0) (length-AllHold_rows u new (batch_iter (batch w.write)) held) at,
  completed-AllTold u inner after ws h.1 heads.1 landed,
)

pub no_reports :
    (ws : List ChunkWrite) (inner after : Inner)
    → planned ws ≡ []
    → AllTold inner after (completed ws)
no_reports [] inner after e = tt
no_reports (w ∷ ws) inner after e = absurd (cc)
