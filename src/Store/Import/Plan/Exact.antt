-- ===== src/Store/Import/Plan/Exact.antt =====
-- The plan of a section against its blocks.
use mnesis.Base.{
  suc, ◌+◌, ◌≤◌, ◌≡◌, ◌≢◌, refl, ap, List, [], ◌∷◌, ◌++◌, map, arith, length, ◌==◌, Bool-cases,
  Option-cases, inl, inr,
}
use mathlib.Core.Path.{subst}
use mnesis.Base.Words.{u64_max}
use mnesis.Base.Result.{ok, Result-cases}
use mnesis.Kernel.Version
use mnesis.Kernel.Version.{Version, IsVersion}
use mnesis.Kernel.Version.Run.{consecutive}
use mnesis.Kernel.Aggregate.{version_or_zero}
use mnesis.Store.Envelope.Persisted.{PersistedEnvelope, from_persisted}
use mnesis.Store.Import.Plan.{
  ImportBlock, event, StreamSection, Halt, gap, RunPlan, SectionPlan, run, empty, first_corrupt,
  Extension, cons_event, extend_run, plan_section, expected_before,
}

abbrev pub versions_of : List PersistedEnvelope → List Version
versions_of = map (λ e. e.version)

-- Why a run ends behind the version `last`, in front of the blocks `rest`.
abbrev pub Stops : Version → Halt → List ImportBlock → Type 0
Stops last Halt.complete rest = rest ≡ []
Stops last Halt.corrupt rest = (blocks : List ImportBlock) × (rest ≡ ImportBlock.corrupt ∷ blocks)
Stops last (gap got) rest =
    (e : PersistedEnvelope) × (blocks : List ImportBlock) × (rest ≡ event e ∷ blocks)
    × (e.version ≡ got)
    × (got.as_u64 ≢ last.as_u64 + 1)

-- The events taken from `blocks` behind the version `last`, and the blocks that are left.
pub record Extends (last : Version) (blocks : List ImportBlock) (x : Extension) : Type 0 where
  pub taken : List PersistedEnvelope
  pub rest : List ImportBlock
  pub split : blocks ≡ map event taken ++ rest
  pub events : x.tail ≡ map from_persisted taken
  pub follows : versions_of taken ≡ consecutive (suc last.as_u64) (length taken)
  pub ending : x.last.as_u64 ≡ last.as_u64 + length taken
  pub in_range : last.as_u64 ≤ u64_max → x.last.as_u64 ≤ u64_max
  pub stop : Stops x.last x.halt rest

stopped :
    (last : Version) (halt : Halt) (blocks : List ImportBlock)
    → Stops last halt blocks
    → Extends last blocks (record { tail = []; last = last; halt = halt })
stopped last halt blocks s = record {
  taken = [];
  rest = blocks;
  split = refl;
  events = refl;
  follows = refl;
  ending = omega arith;
  in_range = λ h. h;
  stop = s;
}

extended :
    (last : Version) (e : PersistedEnvelope) (blocks : List ImportBlock) (x : Extension)
    → e.version.as_u64 ≡ last.as_u64 + 1
    → e.version.as_u64 ≤ u64_max
    → Extends e.version blocks x
    → Extends last (event e ∷ blocks) (cons_event e x)
extended last e blocks x at top i = record {
  taken = e ∷ i.taken;
  rest = i.rest;
  split = ap (λ l. event e ∷ l) i.split;
  events = ap (λ l. from_persisted e ∷ l) i.events;
  follows = ground (arith, at, i.follows);
  ending = omega (arith, i.ending, at);
  in_range = λ _. i.in_range top;
  stop = i.stop;
}

extend_run-Extends :
    (last : Version) (blocks : List ImportBlock) (x : Extension)
    → extend_run last blocks ≡ ok x
    → Extends last blocks x
unfolding extend_run
extend_run-Extends last [] x h =
    let same : record { tail = []; last = last; halt = Halt.complete } ≡ x = ground arith in
    subst (Extends last []) same (stopped last Halt.complete [] refl)
extend_run-Extends last (ImportBlock.corrupt ∷ blocks) x h =
    let same : record { tail = []; last = last; halt = Halt.corrupt } ≡ x = ground arith in
    subst (Extends last (ImportBlock.corrupt ∷ blocks)) same
      (stopped last Halt.corrupt (ImportBlock.corrupt ∷ blocks) (blocks, refl))
extend_run-Extends last (event e ∷ blocks) x h = elim (Option-cases (Version.next last)) [
  | inl none_left ↦ absurd (ground (arith, none_left, h))
  | inr (next, n) ↦ elim (Bool-cases (e.version.as_u64 == next.as_u64)) [
    | inl at ↦ elim (Result-cases (extend_run e.version blocks)) [
      | inl (y, inner) ↦
          let same : cons_event e y ≡ x = ground (arith, n, at, inner, h) in
          subst (Extends last (event e ∷ blocks)) same (
            extended last e blocks y (ground (arith, n, at)) (ground (arith, n, at))
              (extend_run-Extends e.version blocks y inner))
      | inr (z, inner) ↦ absurd (ground (arith, n, at, inner, h))
    ]
    | inr off ↦
        let same : record { tail = []; last = last; halt = gap e.version } ≡ x =
          ground (arith, n, off, h) in
        subst (Extends last (event e ∷ blocks)) same (
          stopped last (gap e.version) (event e ∷ blocks)
            (e, blocks, refl, refl, ground (arith, n, off)))
  ]
]

-- The run `p` takes the longest prefix of events with consecutive versions.
pub record IsRunPlan (blocks : List ImportBlock) (p : RunPlan) : Type 0 where
  pub first_event : PersistedEnvelope
  pub others : List PersistedEnvelope
  pub rest : List ImportBlock
  pub split : blocks ≡ event first_event ∷ (map event others ++ rest)
  pub head : p.head ≡ from_persisted first_event
  pub tail : p.tail ≡ map from_persisted others
  pub first : p.first ≡ first_event.version
  pub expected : version_or_zero p.expected_version + 1 ≡ p.first.as_u64
  pub follows : versions_of others ≡ consecutive (suc p.first.as_u64) (length others)
  pub last : p.last.as_u64 ≡ p.first.as_u64 + length others
  pub in_range : p.last.as_u64 ≤ u64_max
  pub stop : Stops p.last p.halt rest

abbrev pub IsPlanOf : List ImportBlock → SectionPlan → Type 0
IsPlanOf blocks empty = blocks ≡ []
IsPlanOf blocks first_corrupt = (rest : List ImportBlock) × (blocks ≡ ImportBlock.corrupt ∷ rest)
IsPlanOf blocks (run p) = IsRunPlan blocks p

-- Every event of the section has a version in range.
abbrev pub AllVersions : List ImportBlock → Type 0
AllVersions [] = Unit
AllVersions (ImportBlock.corrupt ∷ blocks) = AllVersions blocks
AllVersions (event e ∷ blocks) = IsVersion e.version × AllVersions blocks

expected_before_lem :
    (v : Version) → IsVersion v → version_or_zero (expected_before v) + 1 ≡ v.as_u64
expected_before_lem v h = ground arith

abbrev plan_of : PersistedEnvelope → Extension → RunPlan
plan_of e x = record {
  first = e.version;
  expected_version = expected_before e.version;
  head = from_persisted e;
  tail = x.tail;
  last = x.last;
  halt = x.halt;
}

plan_of-IsRunPlan :
    (e : PersistedEnvelope) (blocks : List ImportBlock) (x : Extension)
    → IsVersion e.version
    → Extends e.version blocks x
    → IsRunPlan (event e ∷ blocks) (plan_of e x)
plan_of-IsRunPlan e blocks x v i = record {
  first_event = e;
  others = i.taken;
  rest = i.rest;
  split = ap (λ l. event e ∷ l) i.split;
  head = refl;
  tail = i.events;
  first = refl;
  expected = expected_before_lem e.version v;
  follows = i.follows;
  last = i.ending;
  in_range = i.in_range v.1;
  stop = i.stop;
}

-- A plan takes the longest prefix of events with consecutive versions, unchanged and in order; it
-- expects the version before the first of them, and it names the last one and why it stopped there:
-- the blocks are used up, the next one is corrupt, or the next one is at another version. The
-- events of the section have versions in range.
pub plan_section_exact :
    (section : StreamSection) (plan : SectionPlan)
    → AllVersions section.blocks
    → plan_section section ≡ ok plan
    → IsPlanOf section.blocks plan
unfolding plan_section
plan_section_exact section plan v h = go section.blocks v h
  where
    go :
        (blocks : List ImportBlock)
        → AllVersions blocks
        → plan_section (record section { blocks = blocks }) ≡ ok plan
        → IsPlanOf blocks plan
    go [] v h = let same : empty ≡ plan = ground arith in subst (IsPlanOf []) same refl
    go (ImportBlock.corrupt ∷ blocks) v h =
        let same : first_corrupt ≡ plan = ground arith in
        subst (IsPlanOf (ImportBlock.corrupt ∷ blocks)) same (blocks, refl)
    go (event e ∷ blocks) v h = elim (Result-cases (extend_run e.version blocks)) [
      | inl (x, inner) ↦
          let same : run (plan_of e x) ≡ plan = ground (arith, inner, h) in
          subst (IsPlanOf (event e ∷ blocks)) same
            (plan_of-IsRunPlan e blocks x v.0 (extend_run-Extends e.version blocks x inner))
      | inr (z, inner) ↦ absurd (ground (arith, inner, h))
    ]
