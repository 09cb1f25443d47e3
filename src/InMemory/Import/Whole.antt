-- ===== src/InMemory/Import/Whole.antt =====
-- `import_whole_chunk`: the commit of the planned writes in one atomic append.
use mnesis.Base.{ℕ, ◌≡◌, ◌≢◌, ◌∙◌, refl, sym, ap, inl, inr, Option, none, some, List, arith}
use mathlib.Core.Path.{subst}
use mnesis.Base.Result.{Result, ok, err, ◌>>=◌, >>=-eq-ok, Result-cases}
use mnesis.Store.Value.{FromUtf8}
use mnesis.Store.Append.{StreamKey}
use mnesis.Store.Import.{InvalidRun, targets}
use mnesis.Store.Import.Valid.{AllOther}
use mnesis.Store.Import.Plan.{StreamSection}
use mnesis.InMemory.Streams.{rows_of}
use mnesis.InMemory.Store.{Inner}
use mnesis.InMemory.Consistent.{IsConsistent}
use mnesis.InMemory.Atomic.{AtomicAppendError, atomic_append_many}
use mnesis.InMemory.Atomic.Whole.{
  AllLanded, atomic_append_many-IsConsistent, atomic_append_many_whole,
}
use mnesis.InMemory.Import.{
  StreamReport, ImportError, zip, ChunkWrite, chunk_writes, planned, completed, chunk_error,
  route_sections, import_whole_chunk,
}
use mnesis.InMemory.Import.PerStream.{
  AllSections, AllTold, routed, route_sections_sound, targets_of, zip-AllPairs, zip-targets,
}
use mnesis.InMemory.Import.Writes.{
  AllChunkWrites, chunk_writes-IsChunk, planned-AllWritesPending, planned-AllRuns,
  completed-AllTold, no_reports,
}
use mnesis.InMemory.Import.Entire.{AllEntire, AllTaken, chunk_writes-AllTaken, completed-AllEntire}
use mnesis.InMemory.Import.Errors.{no_invalid_run, chunk_error-valid, plan-valid}

completed_same :
    (a b : List StreamReport)
    → ◌≡◌ {A = Result ImportError (List StreamReport)} (ok a) (ok b)
    → a ≡ b
completed_same a b h = ground arith

import_error_same :
    (a b : ImportError) → ◌≡◌ {A = Result ImportError (List StreamReport)} (err a) (err b) → a ≡ b
import_error_same a b h = ground arith

-- What a whole-chunk import leaves and returns.
pub record IsAllOrNothing (u : FromUtf8) (sections : List StreamSection)
    (route : List ℕ → StreamKey) (inner : Inner)
    (out : Inner × Result ImportError (List StreamReport)) : Type 0 where
  pub consistent : IsConsistent u out.0
  pub failed : (e : ImportError) → out.1 ≡ err e → out.0 ≡ inner
  pub told : (reports : List StreamReport) → out.1 ≡ ok reports → AllTold inner out.0 reports
  pub entire :
      (reports : List StreamReport)
      → out.1 ≡ ok reports
      → AllEntire route u inner out.0 sections reports
  pub others :
      (j : StreamKey)
      → AllOther j (routed sections route)
      → rows_of j out.0.streams ≡ rows_of j inner.streams
  pub runs : (e : InvalidRun) → out.1 ≢ err (ImportError.invalid_run e)

module _ (u : FromUtf8) (sections : List StreamSection) (route : List ℕ → StreamKey) (inner : Inner)
    (c : IsConsistent u inner) where
  refused :
      (e : ImportError)
      → ((x : InvalidRun) → e ≢ ImportError.invalid_run x)
      → IsAllOrNothing u sections route inner (inner, err e)
  refused e other = record {
    consistent = c;
    failed = λ x h. refl;
    told = λ rs h. absurd (cc);
    entire = λ rs h. absurd (cc);
    others = λ j x. refl;
    runs = λ x h. other x (ground (arith, h));
  }

  commit-IsAllOrNothing :
      (ws : List ChunkWrite) (out : Inner × Result AtomicAppendError (Option ℕ))
      → atomic_append_many (planned ws) inner ≡ out
      → AllChunkWrites u ws
      → AllTaken route sections ws
      → ((j : StreamKey) → AllOther j (routed sections route) → AllOther j (targets (planned ws)))
      → IsAllOrNothing u sections route inner (elim out.1 [
        | err e ↦ (out.0, err (chunk_error ws e))
        | ok position ↦ (out.0, ok (completed ws))
      ])
  commit-IsAllOrNothing ws (after, ok (some pos)) q all taken named =
      let pending = planned-AllWritesPending u ws all in
      let (_, heads, landed, others, _) =
        (atomic_append_many_whole u (planned ws) inner after pending c).0 pos q in
      record {
        consistent =
            subst (λ (o : Inner × _). IsConsistent u o.0) q
              (atomic_append_many-IsConsistent u (planned ws) inner pending c);
        failed = λ e h. absurd (cc);
        told = λ rs h.
            subst (AllTold inner after) (completed_same (completed ws) rs h)
              (completed-AllTold u inner after ws all heads landed);
        entire = λ rs h.
            subst (AllEntire route u inner after sections) (completed_same (completed ws) rs h)
              (completed-AllEntire route u inner after sections ws taken landed);
        others = λ j other. others j (named j other);
        runs = λ e h. cc;
      }
  commit-IsAllOrNothing ws (after, ok none) q all taken named =
      let pending = planned-AllWritesPending u ws all in
      let (same, nothing) = (atomic_append_many_whole u (planned ws) inner after pending c).2.0 q in
      record {
        consistent = subst (IsConsistent u) (sym same) c;
        failed = λ e h. absurd (cc);
        told = λ rs h.
            subst (AllTold inner after) (completed_same (completed ws) rs h)
              (no_reports ws inner after nothing);
        entire = λ rs h.
            subst (AllEntire route u inner after sections) (completed_same (completed ws) rs h) (
              completed-AllEntire route u inner after sections ws taken
                (subst (AllLanded u inner.streams after.streams) (sym nothing) tt));
        others = λ j other. ap (λ (x : Inner). rows_of j x.streams) same;
        runs = λ e h. cc;
      }
  commit-IsAllOrNothing ws (after, err e) q all taken named =
      let pending = planned-AllWritesPending u ws all in
      let same = (atomic_append_many_whole u (planned ws) inner after pending c).1 e q in
      record {
        consistent = subst (IsConsistent u) (sym same) c;
        failed = λ x h. same;
        told = λ rs h. absurd (cc);
        entire = λ rs h. absurd (cc);
        others = λ j other. ap (λ (x : Inner). rows_of j x.streams) same;
        runs = λ x h. no_invalid_run (planned ws) inner x (planned-AllRuns u ws all) (
            ap (λ (o : Inner × _). o.1) q
            ∙ ap err (chunk_error-valid ws e x (import_error_same _ _ h)));
      }

  -- All or nothing, on a consistent store and for sections of well-formed events: the store is
  -- consistent after a whole-chunk import; on every error it is as it was, and the error is never
  -- that of a malformed run; no stream changes but the targets; and when the import reports, then
  -- no section had a corrupt block, every section that has blocks stands whole, readable and in
  -- order, behind the rows of its target, and has the one report, complete, in the order of the
  -- sections, whose version is the new head of its stream, which the import has moved.
  pub import_whole_chunk_atomic :
      AllSections u sections
      → IsAllOrNothing u sections route inner (import_whole_chunk sections route inner)
  unfolding import_whole_chunk
  import_whole_chunk_atomic h =
      elim (Result-cases
        (route_sections sections route >>= λ targets. chunk_writes (zip sections targets))) [
          | inr (e, q) ↦
              rw (q, import_whole_chunk)
                (refused e (λ y never. plan-valid sections route y (q ∙ ap err never)))
          | inl (ws, q) ↦
              let (ts, r, q') = >>=-eq-ok (route_sections sections route) _ q in
              let (same, _) = route_sections_sound sections route ts r in
              let names : targets_of (zip sections ts) ≡ ts =
                ap (λ l. targets_of (zip sections l)) (sym same)
                ∙ zip-targets sections route
                ∙ same in
              let i =
                chunk_writes-IsChunk u (zip sections ts) ws (zip-AllPairs u sections ts h) q' in
              rw (q, import_whole_chunk)
                (commit-IsAllOrNothing ws (atomic_append_many (planned ws) inner) refl i.all
                  (chunk_writes-AllTaken route u sections ws h
                    (ap (λ l. chunk_writes (zip sections l)) same ∙ q'))
                  (λ j other. i.named j (subst (AllOther j) (same ∙ sym names) other)))
        ]
