-- ===== src/InMemory/Import/PerStream.antt =====
-- The loop of `import_per_stream`, section by section.
use mnesis.Base.{
  ℕ, ◌≡◌, ◌∙◌, refl, sym, ap, inl, inr, false, Option, none, some, List, [], ◌∷◌, map, arith,
}
use mathlib.Core.Path.{subst}
use mnesis.Base.Result.{Result, ok, err, Result-cases}
use mnesis.Store.Value.{FromUtf8}
use mnesis.Store.Append.{StreamKey, key_eq}
use mnesis.Store.Import.Valid.{AllOther, AreDistinct, validate_distinct_targets_iff}
use mnesis.Store.Import.Plan.{StreamSection}
use mnesis.InMemory.Streams.{rows_of, key_eq_sym}
use mnesis.InMemory.Store.{Inner}
use mnesis.InMemory.Consistent.{IsConsistent}
use mnesis.InMemory.Import.{
  StreamOutcome, StreamReport, ImportError, reached, zip, push_report, route_sections,
  import_section, import_sections, import_per_stream,
}
use mnesis.InMemory.Import.Section.{
  AllImportable, Told, ToldBy, IsImported, import_section-IsImported,
}

abbrev pub AllSections : FromUtf8 → List StreamSection → Type 0
AllSections u [] = Unit
AllSections u (s ∷ sections) = AllImportable u s.blocks × AllSections u sections

abbrev pub AllPairs : FromUtf8 → List (StreamSection × StreamKey) → Type 0
AllPairs u [] = Unit
AllPairs u ((s, t) ∷ pairs) = AllImportable u s.blocks × AllPairs u pairs

abbrev pub targets_of : List (StreamSection × StreamKey) → List StreamKey
targets_of = map (λ p. p.1)

-- Every report tells what the import has done to its stream.
abbrev pub AllTold : Inner → Inner → List StreamReport → Type 0
AllTold inner after [] = Unit
AllTold inner after (r ∷ rs) =
    Told (rows_of r.stream inner.streams) (rows_of r.stream after.streams) (reached r.outcome)
    × AllTold inner after rs

abbrev streams_of : List StreamReport → List StreamKey
streams_of = map (λ r. r.stream)

record IsLoop (u : FromUtf8) (pairs : List (StreamSection × StreamKey)) (inner : Inner)
    (out : Inner × Result ImportError (List StreamReport)) : Type 0 where
  consistent : IsConsistent u out.0
  others :
      (j : StreamKey)
      → AllOther j (targets_of pairs)
      → rows_of j out.0.streams ≡ rows_of j inner.streams
  told : (rs : List StreamReport) → out.1 ≡ ok rs → AllTold inner out.0 rs
  named :
      (j : StreamKey) (rs : List StreamReport)
      → out.1 ≡ ok rs
      → AllOther j (targets_of pairs)
      → AllOther j (streams_of rs)

-- Reports on other streams stand, whatever happened to `t` before them.
AllTold-before :
    (t : StreamKey) (inner mid after : Inner) (rs : List StreamReport)
    → ((j : StreamKey) → key_eq t j ≡ false → rows_of j mid.streams ≡ rows_of j inner.streams)
    → AllOther t (streams_of rs)
    → AllTold mid after rs
    → AllTold inner after rs
AllTold-before t inner mid after [] same apart h = tt
AllTold-before t inner mid after (r ∷ rs) same apart h = (
  subst (λ l. Told l (rows_of r.stream after.streams) (reached r.outcome)) (same r.stream apart.0)
      h.0,
  AllTold-before t inner mid after rs same apart.1 h.1,
)

reports_same :
    (a b : List StreamReport)
    → ◌≡◌ {A = Result ImportError (List StreamReport)} (ok a) (ok b)
    → a ≡ b
reports_same a b h = ground arith

push_report-AllTold :
    (t : StreamKey) (o : Option StreamOutcome) (inner mid after : Inner) (rs : List StreamReport)
    → ToldBy (rows_of t inner.streams) (rows_of t mid.streams) o
    → rows_of t mid.streams ≡ rows_of t after.streams
    → AllTold inner after rs
    → AllTold inner after (push_report t o rs)
push_report-AllTold t none inner mid after rs told same h = h
push_report-AllTold t (some outcome) inner mid after rs told same h =
    (subst (λ l. Told (rows_of t inner.streams) l (reached outcome)) same told, h)

push_report-AllOther :
    (j t : StreamKey) (o : Option StreamOutcome) (rs : List StreamReport)
    → key_eq j t ≡ false
    → AllOther j (streams_of rs)
    → AllOther j (streams_of (push_report t o rs))
push_report-AllOther j t none rs apart h = h
push_report-AllOther j t (some outcome) rs apart h = (apart, h)

module _ (u : FromUtf8) (s : StreamSection) (t : StreamKey)
    (pairs : List (StreamSection × StreamKey)) (inner : Inner) where
  abbrev one : Inner × Result ImportError (Option StreamOutcome)
  one = import_section s t inner

  stop-IsLoop :
      (e : ImportError)
      → one.1 ≡ err e
      → IsImported u t inner one
      → IsLoop u ((s, t) ∷ pairs) inner (import_sections ((s, t) ∷ pairs) inner)
  unfolding import_sections
  stop-IsLoop e q i =
      rw (q, import_sections)
        (record {
          consistent = i.consistent;
          others = λ j apart. i.others j (key_eq_sym t j ∙ apart.0);
          told = λ rs x. absurd (cc);
          named = λ j rs x. absurd (cc);
        })

  next-IsLoop :
      (o : Option StreamOutcome)
      → one.1 ≡ ok o
      → AllOther t (targets_of pairs)
      → IsImported u t inner one
      → IsLoop u pairs one.0 (import_sections pairs one.0)
      → IsLoop u ((s, t) ∷ pairs) inner (import_sections ((s, t) ∷ pairs) inner)
  unfolding import_sections
  next-IsLoop o q apart i l = elim (Result-cases (import_sections pairs one.0).1) [
    | inr (e, r) ↦
        rw (q, r, import_sections)
          (record {
            consistent = l.consistent;
            others = λ j other. l.others j other.1 ∙ i.others j (key_eq_sym t j ∙ other.0);
            told = λ rs x. absurd (cc);
            named = λ j rs x. absurd (cc);
          })
    | inl (tail, r) ↦
        rw (q, r, import_sections)
          (record {
            consistent = l.consistent;
            others = λ j other. l.others j other.1 ∙ i.others j (key_eq_sym t j ∙ other.0);
            told = λ rs x.
                subst (AllTold inner (import_sections pairs one.0).0)
                  (reports_same (push_report t o tail) rs x)
                  (push_report-AllTold t o inner one.0 (import_sections pairs one.0).0 tail
                    (i.told o q) (sym (l.others t apart))
                    (AllTold-before t inner one.0 (import_sections pairs one.0).0 tail i.others
                      (l.named t tail r apart) (l.told tail r)));
            named = λ j rs x other.
                subst (λ z. AllOther j (streams_of z)) (reports_same (push_report t o tail) rs x)
                  (push_report-AllOther j t o tail other.0 (l.named j tail r other.1));
          })
  ]

import_sections-IsLoop :
    (u : FromUtf8) (pairs : List (StreamSection × StreamKey)) (inner : Inner)
    → IsConsistent u inner
    → AllPairs u pairs
    → AreDistinct (targets_of pairs)
    → IsLoop u pairs inner (import_sections pairs inner)
unfolding import_sections
import_sections-IsLoop u [] inner c h d = record {
  consistent = c;
  others = λ j x. refl;
  told = λ rs x. let same : [] ≡ rs = ground arith in subst (AllTold inner inner) same tt;
  named = λ j rs x y.
      let same : [] ≡ rs = ground arith in subst (λ z. AllOther j (streams_of z)) same tt;
}
import_sections-IsLoop u ((s, t) ∷ pairs) inner c h d =
    let i = import_section-IsImported u t inner c s h.0 in
    elim (Result-cases (import_section s t inner).1) [
      | inr (e, q) ↦ stop-IsLoop u s t pairs inner e q i
      | inl (o, q) ↦
          next-IsLoop u s t pairs inner o q d.0 i
            (import_sections-IsLoop u pairs (import_section s t inner).0 i.consistent h.1 d.1)
    ]

pub zip-AllPairs :
    (u : FromUtf8) (sections : List StreamSection) (targets : List StreamKey)
    → AllSections u sections
    → AllPairs u (zip sections targets)
zip-AllPairs u [] targets h = tt
zip-AllPairs u (s ∷ sections) [] h = tt
zip-AllPairs u (s ∷ sections) (t ∷ targets) h = (h.0, zip-AllPairs u sections targets h.1)

pub zip-targets :
    (sections : List StreamSection) (route : List ℕ → StreamKey)
    → map (λ p. p.1) (zip sections (map (λ s. route s.origin) sections))
      ≡ map (λ s. route s.origin) sections
zip-targets [] route = refl
zip-targets (s ∷ sections) route = ap (λ l. route s.origin ∷ l) (zip-targets sections route)

-- The targets that a request is routed to.
abbrev pub routed : List StreamSection → (List ℕ → StreamKey) → List StreamKey
routed sections route = map (λ s. route s.origin) sections

pub route_sections_sound :
    (sections : List StreamSection) (route : List ℕ → StreamKey) (targets : List StreamKey)
    → route_sections sections route ≡ ok targets
    → (routed sections route ≡ targets) × AreDistinct targets
unfolding route_sections
route_sections_sound sections route targets h =
    let same : routed sections route ≡ targets = ground (arith, h) in
    (
      same,
      subst AreDistinct same
          ((validate_distinct_targets_iff (routed sections route)).0 (ground (arith, h))),
    )

-- What a per-stream import leaves, on a consistent store and for sections of well-formed events:
-- the store is consistent, on success and on every error; no stream changes but the targets; and
-- when it reports, each report is true: a version that it names as reached is the new head of its
-- stream, which the import has moved, and where it names none the stream is as it was.
pub import_per_stream_effect :
    (u : FromUtf8) (sections : List StreamSection) (route : List ℕ → StreamKey) (inner : Inner)
    → IsConsistent u inner
    → AllSections u sections
    → IsConsistent u (import_per_stream sections route inner).0
      × ((j : StreamKey)
          → AllOther j (routed sections route)
          → rows_of j (import_per_stream sections route inner).0.streams ≡ rows_of j inner.streams)
      × ((reports : List StreamReport)
          → (import_per_stream sections route inner).1 ≡ ok reports
          → AllTold inner (import_per_stream sections route inner).0 reports)
unfolding import_per_stream
import_per_stream_effect u sections route inner c h =
    elim (Result-cases (route_sections sections route)) [
      | inr (e, q) ↦ rw (q, import_per_stream) (c, λ j x. refl, λ rs x. absurd (cc))
      | inl (targets, q) ↦
          let (same, distinct) = route_sections_sound sections route targets q in
          let names : targets_of (zip sections targets) ≡ targets =
            ap (λ l. targets_of (zip sections l)) (sym same) ∙ zip-targets sections route ∙ same in
          let l =
            import_sections-IsLoop u (zip sections targets) inner c
              (zip-AllPairs u sections targets h) (subst AreDistinct (sym names) distinct) in
          rw (q, import_per_stream)
            (
              l.consistent,
              λ j other. l.others j (subst (AllOther j) (same ∙ sym names) other),
              l.told,
            )
    ]
