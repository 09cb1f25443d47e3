-- ===== src/Wake/Guards.antt =====
-- An entry exists exactly as long as a guard of its stream lives.
use mnesis.Base.{
  ℕ, ◌+◌, ◌≤◌, ◌≡◌, ◌∙◌, refl, sym, ap, inl, inr, Bool, Option, none, some, List, [], ◌∷◌, ◌++◌,
  arith, ◌==◌, if◌then◌else◌, Bool-cases,
}
use mathlib.Core.Option
use mathlib.Core.Path.{subst}
use mnesis.Base.Bytes.{bytes_eq, bytes_eq→eq}
use mnesis.Base.Maps.{get}
use mnesis.Base.Result.{ok, err}
use mnesis.Wake.Reads.{
  joined, woken, shrunk, get-register, get-register_overflow, get-wake, get-release,
}
use mnesis.Wake.{subscriber_overflow, Entry, StreamNotifiers, new, register_entry, wake, release}

-- How many guards of a stream there are.
abbrev pub count : List ℕ → List (List ℕ) → ℕ
count stream [] = 0
count stream (key ∷ guards) = (if bytes_eq key stream then 1 else 0) + count stream guards

-- The registry, with the guards that live.
pub data Reach : StreamNotifiers → List (List ℕ) → Type 0 where
  starts : Reach new []
  registers :
      {r : StreamNotifiers} {guards : List (List ℕ)}
      → Reach r guards
      → (stream : List ℕ) → (register_entry stream r).1 ≡ ok stream
      → Reach (register_entry stream r).0 (stream ∷ guards)
  overflows :
      {r : StreamNotifiers} {guards : List (List ℕ)}
      → Reach r guards
      → (stream : List ℕ) → (register_entry stream r).1 ≡ err subscriber_overflow
      → Reach (register_entry stream r).0 guards
  wakes :
      {r : StreamNotifiers} {guards : List (List ℕ)}
      → Reach r guards
      → (stream : List ℕ) → Reach (wake stream r) guards
  drops :
      {r : StreamNotifiers}
      → (before behind : List (List ℕ)) (stream : List ℕ) → Reach r (before ++ stream ∷ behind)
      → Reach (release stream r) (before ++ behind)

-- The subscribers of an entry, and none where there is no entry.
abbrev pub subscribers : Option Entry → ℕ
subscribers none = 0
subscribers (some entry) = entry.subscribers

abbrev pub IsLive : Option Entry → Type 0
IsLive none = Unit
IsLive (some entry) = 1 ≤ entry.subscribers

abbrev pub IsCountedAs : Option Entry → ℕ → Type 0
IsCountedAs o n = (subscribers o ≡ n) × IsLive o

-- The subscribers of every stream are its guards, and an entry has one.
abbrev pub IsCounted : StreamNotifiers → List (List ℕ) → Type 0
IsCounted r guards = (stream : List ℕ) → IsCountedAs (get stream r.map) (count stream guards)

plus : (n : ℕ) → n ≡ 0 + n
plus n = omega arith

joined-kept : (o : Option Entry) (n : ℕ) → IsCountedAs o n → IsCountedAs (some (joined o)) (1 + n)
joined-kept none n (h, live) = (omega (arith, h), omega arith)
joined-kept (some e) n (h, live) = (omega (arith, h), omega arith)

woken-kept : (o : Option Entry) (n : ℕ) → IsCountedAs o n → IsCountedAs (Option.map woken o) n
woken-kept none n h = h
woken-kept (some e) n h = h

shrunk-kept : (o : Option Entry) (n : ℕ) → IsCountedAs o (1 + n) → IsCountedAs (shrunk o) n
shrunk-kept none n (h, live) = absurd (omega (arith, h))
shrunk-kept (some e) n (h, live) = elim (Bool-cases (e.subscribers == 1)) [
  | inl one ↦ ground (arith, h, one)
  | inr more ↦ ground (arith, h, live, more)
]

count-middle :
    (stream key : List ℕ) (before behind : List (List ℕ))
    → count stream (before ++ key ∷ behind)
      ≡ (if bytes_eq key stream then 1 else 0) + count stream (before ++ behind)
count-middle stream key [] behind = refl
count-middle stream key (g ∷ before) behind = omega (arith, count-middle stream key before behind)

module _ (r : StreamNotifiers) (guards : List (List ℕ)) (counted : IsCounted r guards) where
  register-IsCounted :
      (stream : List ℕ)
      → (register_entry stream r).1 ≡ ok stream
      → IsCounted (register_entry stream r).0 (stream ∷ guards)
  register-IsCounted stream h j =
      rw (get-register stream j r h) (elim (Bool-cases (bytes_eq stream j)) [
        | inl same ↦ rw same (
            joined-kept (get stream r.map) (count j guards) (
              subst (λ k. IsCountedAs (get stream r.map) (count k guards))
                (bytes_eq→eq stream j same) (counted stream)))
        | inr other ↦
            rw other (subst (IsCountedAs (get j r.map)) (plus (count j guards)) (counted j))
      ])

  overflow-IsCounted :
      (stream : List ℕ)
      → (register_entry stream r).1 ≡ err subscriber_overflow
      → IsCounted (register_entry stream r).0 guards
  overflow-IsCounted stream h j = rw (get-register_overflow stream j r h) (counted j)

  wake-IsCounted : (stream : List ℕ) → IsCounted (wake stream r) guards
  wake-IsCounted stream j = rw (get-wake stream j r) (elim (Bool-cases (bytes_eq stream j)) [
    | inl same ↦ rw same (woken-kept (get j r.map) (count j guards) (counted j))
    | inr other ↦ rw other (counted j)
  ])

release-IsCounted :
    (r : StreamNotifiers) (before behind : List (List ℕ)) (stream : List ℕ)
    → IsCounted r (before ++ stream ∷ behind)
    → IsCounted (release stream r) (before ++ behind)
release-IsCounted r before behind stream counted j =
    rw (get-release stream j r) (elim (Bool-cases (bytes_eq stream j)) [
      | inl same ↦ rw same (
          shrunk-kept (get j r.map) (count j (before ++ behind)) (
            subst (IsCountedAs (get j r.map)) (count-middle j stream before behind ∙ ap weigh same)
              (counted j)))
      | inr other ↦ rw other (
          subst (IsCountedAs (get j r.map))
            (count-middle j stream before behind
              ∙ ap weigh other
              ∙ sym (plus (count j (before ++ behind))))
            (counted j))
    ])
  where
    weigh : Bool → ℕ
    weigh b = (if b then 1 else 0) + count j (before ++ behind)

-- In every run, whatever is registered, woken and dropped in whatever order, the subscribers of
-- each stream are exactly its live guards, and a stream has an entry just while one of them lives:
-- the last drop reaps it.
pub Reach-IsCounted :
    {r : StreamNotifiers} {guards : List (List ℕ)} → Reach r guards → IsCounted r guards
unfolding get
Reach-IsCounted starts = λ stream. (refl, tt)
Reach-IsCounted (registers {r = r} {guards = guards} run stream h) =
    register-IsCounted r guards (Reach-IsCounted run) stream h
Reach-IsCounted (overflows {r = r} {guards = guards} run stream h) =
    overflow-IsCounted r guards (Reach-IsCounted run) stream h
Reach-IsCounted (wakes {r = r} {guards = guards} run stream) =
    wake-IsCounted r guards (Reach-IsCounted run) stream
Reach-IsCounted (drops {r = r} before behind stream run) =
    release-IsCounted r before behind stream (Reach-IsCounted run)
