-- ===== src/Wake/Generations.antt =====
-- No wakeup is lost: what an armed registration sees of the wakes behind it.
use mnesis.Base.{
  ℕ, zero, suc, ◌+◌, ◌%◌, ◌^◌, ◌≤◌, ◌<◌, ◌≡◌, ◌≢◌, ◌∙◌, refl, sym, ap, inl, inr, Bool, true, false,
  Option, none, some, List, ◌∷◌, ◌++◌, arith, ◌==◌, ltb, if◌then◌else◌, Bool-cases, Option-cases,
}
use mathlib.Core.Path.{subst}
use mnesis.Base.Bytes.{bytes_eq, bytes_eq→eq}
use mnesis.Base.Maps.{get}
use mnesis.Base.Result.{ok, err}
use mnesis.Wake.Reads.{joined, shrunk, get-register, get-register_overflow, get-wake, get-release}
use mnesis.Wake.Guards.{Reach, count, IsCountedAs, Reach-IsCounted}
use mnesis.Wake.Guards
use mnesis.Wake.{
  subscriber_overflow, Entry, StreamNotifiers, register_entry, wake, release, left, bumped,
  generation, Target, all, of_stream, generation_of, is_resolved,
}

-- A registration of a stream holds a guard of it.
abbrev pub IsHeld : Target → List (List ℕ) → Type 0
IsHeld all guards = Unit
IsHeld (of_stream stream) guards = 1 ≤ count stream guards

-- Whether a wake of the stream is one of the target.
abbrev pub hits : Target → List ℕ → ℕ
hits all key = 1
hits (of_stream stream) key = if bytes_eq key stream then 1 else 0

-- What happens behind an arm of the target, for as long as its registration lives, with the number
-- of the wakes of the target.
pub data Waits (target : Target) (armed : StreamNotifiers)
    : StreamNotifiers → List (List ℕ) → ℕ → Type 0 where
  arms :
      {guards : List (List ℕ)}
      → Reach armed guards
      → IsHeld target guards
      → Waits target armed armed guards 0
  registers :
      {r : StreamNotifiers} {guards : List (List ℕ)} {n : ℕ}
      → Waits target armed r guards n
      → (stream : List ℕ) → (register_entry stream r).1 ≡ ok stream
      → Waits target armed (register_entry stream r).0 (stream ∷ guards) n
  overflows :
      {r : StreamNotifiers} {guards : List (List ℕ)} {n : ℕ}
      → Waits target armed r guards n
      → (stream : List ℕ) → (register_entry stream r).1 ≡ err subscriber_overflow
      → Waits target armed (register_entry stream r).0 guards n
  wakes :
      {r : StreamNotifiers} {guards : List (List ℕ)} {n : ℕ}
      → Waits target armed r guards n
      → (stream : List ℕ) → Waits target armed (wake stream r) guards (hits target stream + n)
  drops :
      {r : StreamNotifiers} {n : ℕ}
      → (before behind : List (List ℕ)) (stream : List ℕ)
      → Waits target armed r (before ++ stream ∷ behind) n
      → IsHeld target (before ++ behind)
      → Waits target armed (release stream r) (before ++ behind) n

generation_at : Option Entry → ℕ
generation_at none = 0
generation_at (some entry) = entry.generation

generation-get : (s : List ℕ) (r : StreamNotifiers) → generation s r ≡ generation_at (get s r.map)
unfolding generation generation_at
generation-get s r = elim (Option-cases (get s r.map)) [
  | inl e ↦ ground arith
  | inr (x, e) ↦ ground arith
]

joined-generation : (o : Option Entry) → generation_at (some (joined o)) ≡ generation_at o
unfolding generation_at
joined-generation none = refl
joined-generation (some entry) = refl

shrunk-generation :
    (o : Option Entry) (n : ℕ)
    → IsCountedAs (shrunk o) n
    → 1 ≤ n
    → generation_at (shrunk o) ≡ generation_at o
unfolding generation_at
shrunk-generation none n counted held = refl
shrunk-generation (some entry) n counted held = elim (Option-cases (left entry.subscribers)) [
  | inl e ↦ absurd (ground (arith, e, counted.0))
  | inr (x, e) ↦ ground (arith, e)
]

bumps : ℕ → ℕ → ℕ
bumps zero g = g
bumps (suc n) g = bumped (bumps n g)

module _ (s : List ℕ) (stream : List ℕ) (r : StreamNotifiers) where
  same_key : bytes_eq stream s ≡ true → get stream r.map ≡ get s r.map
  same_key h = ap (λ k. get k r.map) (bytes_eq→eq stream s h)

  generation-register :
      (register_entry stream r).1 ≡ ok stream
      → generation s (register_entry stream r).0 ≡ generation s r
  unfolding generation_at
  generation-register h =
      generation-get s (register_entry stream r).0
      ∙ ap generation_at (get-register stream s r h)
      ∙ elim (Bool-cases (bytes_eq stream s)) [
        | inl same ↦
            rw same (joined-generation (get stream r.map) ∙ ap generation_at (same_key same))
        | inr other ↦ rw other refl
      ]
      ∙ sym (generation-get s r)

  generation-overflow :
      (register_entry stream r).1 ≡ err subscriber_overflow
      → generation s (register_entry stream r).0 ≡ generation s r
  generation-overflow h =
      generation-get s (register_entry stream r).0
      ∙ ap generation_at (get-register_overflow stream s r h)
      ∙ sym (generation-get s r)

  generation-wake :
      (n : ℕ)
      → IsCountedAs (get s r.map) n
      → 1 ≤ n
      → generation s (wake stream r)
        ≡ (if bytes_eq stream s then bumped (generation s r) else generation s r)
  unfolding generation_at
  generation-wake n counted held =
      let now = generation-get s r in
      let then_ = generation-get s (wake stream r) in
      elim (Option-cases (get s r.map)) [
        | inl e ↦ absurd (ground (arith, counted.0))
        | inr (entry, e) ↦ elim (Bool-cases (bytes_eq stream s)) [
          | inl same ↦ ground (arith, e, same, now, then_, get-wake stream s r)
          | inr other ↦ ground (arith, e, other, now, then_, get-wake stream s r)
        ]
      ]

  generation-release :
      (n : ℕ)
      → IsCountedAs (get s (release stream r).map) n
      → 1 ≤ n
      → generation s (release stream r) ≡ generation s r
  unfolding generation_at
  generation-release n counted held =
      let at = get-release stream s r in
      generation-get s (release stream r)
      ∙ elim (Bool-cases (bytes_eq stream s)) [
        | inl same ↦
            let is : get s (release stream r).map ≡ shrunk (get s r.map) = at ∙ rw same refl in
            ap generation_at is
            ∙ shrunk-generation (get s r.map) n (subst (λ o. IsCountedAs o n) is counted) held
        | inr other ↦ ap generation_at {y = get s r.map} (at ∙ rw other refl)
      ]
      ∙ sym (generation-get s r)

module _ (stream : List ℕ) (r : StreamNotifiers) where
  all-register : (register_entry stream r).0.all_generation ≡ r.all_generation
  unfolding register_entry
  all-register = ground arith

  all-release : (release stream r).all_generation ≡ r.all_generation
  unfolding release
  all-release = elim (Option-cases (get stream r.map)) [
    | inl e ↦ ground arith
    | inr (x, e) ↦ ground (arith, e)
  ]

  all-wake : (wake stream r).all_generation ≡ bumped r.all_generation
  unfolding wake
  all-wake = refl

Waits-Reach :
    {target : Target} {armed r : StreamNotifiers} {guards : List (List ℕ)} {n : ℕ}
    → Waits target armed r guards n
    → Reach r guards × IsHeld target guards
Waits-Reach (arms run held) = (run, held)
Waits-Reach {target = target} (registers w stream h) =
    let (run, held) = Waits-Reach w in (Guards.registers run stream h, more target stream _ held)
  where
    more :
        (target : Target) (stream : List ℕ) (guards : List (List ℕ))
        → IsHeld target guards
        → IsHeld target (stream ∷ guards)
    more all stream guards held = tt
    more (of_stream s) stream guards held = omega (arith, held)
Waits-Reach (overflows w stream h) =
    let (run, held) = Waits-Reach w in (Guards.overflows run stream h, held)
Waits-Reach (wakes w stream) = let (run, held) = Waits-Reach w in (Guards.wakes run stream, held)
Waits-Reach (drops before behind stream w held) =
    (Guards.drops before behind stream (Waits-Reach w).0, held)

one_more : (n : ℕ) → suc n ≡ 1 + n
one_more n = omega arith

no_more : (n : ℕ) → n ≡ 0 + n
no_more n = omega arith

weighed :
    (b : Bool) (n g now : ℕ)
    → now ≡ bumps n g
    → (if b then bumped now else now) ≡ bumps ((if b then 1 else 0) + n) g
unfolding bumps
weighed true n g now h = ap bumped h ∙ ap (λ k. bumps k g) (one_more n)
weighed false n g now h = h ∙ ap (λ k. bumps k g) (no_more n)

-- A receiver that lives sees every wake of its target, and nothing else.
Waits-bumps :
    (target : Target) {armed r : StreamNotifiers} {guards : List (List ℕ)} {n : ℕ}
    → Waits target armed r guards n
    → generation_of target r ≡ bumps n (generation_of target armed)
unfolding bumps
Waits-bumps target (arms run held) = refl
Waits-bumps all (registers {r = r} w stream h) = all-register stream r ∙ Waits-bumps all w
Waits-bumps (of_stream s) (registers {r = r} w stream h) =
    generation-register s stream r h ∙ Waits-bumps (of_stream s) w
Waits-bumps all (overflows {r = r} w stream h) = all-register stream r ∙ Waits-bumps all w
Waits-bumps (of_stream s) (overflows {r = r} w stream h) =
    generation-overflow s stream r h ∙ Waits-bumps (of_stream s) w
Waits-bumps all {armed = armed} (wakes {r = r} {n = n} w stream) =
    all-wake stream r
    ∙ ap bumped (Waits-bumps all w)
    ∙ ap (λ k. bumps k armed.all_generation) (one_more n)
Waits-bumps (of_stream s) {armed = armed} (wakes {r = r} {guards = guards} {n = n} w stream) =
    let (run, held) = Waits-Reach w in
    let before = Waits-bumps (of_stream s) w in
    generation-wake s stream r (count s guards) (Reach-IsCounted run s) held
    ∙ weighed (bytes_eq stream s) n (generation s armed) (generation s r) before
Waits-bumps all (drops {r = r} before behind stream w held) =
    all-release stream r ∙ Waits-bumps all w
Waits-bumps (of_stream s) (drops {r = r} before behind stream w held) =
    let run = (Waits-Reach (drops before behind stream w held)).0 in
    generation-release s stream r (count s (before ++ behind)) (Reach-IsCounted run s) held
    ∙ Waits-bumps (of_stream s) w

bumps-add : (n g : ℕ) → bumps (suc n) g ≡ (g + suc n) % 2 ^ 64
unfolding bumps
bumps-add zero g = refl
bumps-add (suc n) g = omega (arith, bumps-add n g)

bumps_differ : (n g : ℕ) → 1 ≤ n → n < 2 ^ 64 → bumps n g ≢ g
bumps_differ zero g h small = absurd (omega (arith, h))
bumps_differ (suc n) g h small = λ e. ground (arith, bumps-add n g, e)

told :
    (n armed now : ℕ)
    → n < 2 ^ 64
    → now ≡ bumps n armed
    → (if now == armed then false else true) ≡ ltb 0 n
unfolding bumps
told zero armed now small h = ground (arith, h)
told (suc n) armed now small h = ground (arith, h, bumps_differ (suc n) armed (omega arith) small)

-- An armed registration that lives, of a stream or of all, is resolved as soon as its target has
-- been woken behind the arm, and not before, whatever else is registered, woken and dropped in
-- between, as long as fewer than 2 ^ 64 wakes are.
pub is_resolved_exact :
    (target : Target) {armed r : StreamNotifiers} {guards : List (List ℕ)} {n : ℕ}
    → Waits target armed r guards n
    → n < 2 ^ 64
    → is_resolved target (generation_of target armed) r ≡ ltb 0 n
is_resolved_exact target {armed = armed} {r = r} {n = n} w small =
    let seen = Waits-bumps target w in
    told n (generation_of target armed) (generation_of target r) small seen
