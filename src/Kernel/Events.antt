-- ===== src/Kernel/Events.antt =====
-- crates/mnesis/src/events.rs: the non-empty event batch that a decision returns.
use mnesis.Base.{
  ℕ, ◌+◌, ◌≤◌, ◌<◌, ◌≡◌, Option, none, some, List, [], ◌∷◌, ◌++◌, ◌∙◌, arith, ltb, if◌then◌else◌,
  length, Bool-cases, inl, inr, tests, length-append,
}
use mathlib.Core.Option
use mathlib.Core.List.{append-nil, append_assoc}

-- The capacity `n` of the tail is the type's constant in the source.
pub record Events (Event : Type 0) : Type 0 where
  pub first : Event
  pub rest : List Event

module _ {Event : Type 0} where
  abbrev pub new : Event → Events Event
  new event = record { first = event; rest = [] }

  -- `Events::add`; `none` is its panic at capacity `n`.
  unfoldable pub add : ℕ → Events Event → Event → Option (Events Event)
  add n events event =
      if ltb (length events.rest) n
      then some (record events { rest = events.rest ++ (event ∷ []) })
      else none

  add_fits :
      (n : ℕ) (events : Events Event) (event : Event)
      → length events.rest < n
      → add n events event ≡ some (record events { rest = events.rest ++ (event ∷ []) })
  unfolding add
  add_fits n events event h = ground arith

  -- `Events::iter` and `into_iter`: the head, then the tail in order.
  abbrev pub iter : Events Event → List Event
  iter events = events.first ∷ events.rest

  abbrev pub len : Events Event → ℕ
  len events = length events.rest + 1

-- `events![head, tail…]`: one `add` after another, stopped by the first panic.
module _ {Event : Type 0} where
  unfoldable pub add_all : ℕ → Events Event → List Event → Option (Events Event)
  add_all n events [] = some events
  add_all n events (e ∷ es) = elim (add n events e) [
    | none ↦ none
    | some events' ↦ add_all n events' es
  ]

  add_all-rest :
      (n : ℕ) (events : Events Event) (es : List Event)
      → length events.rest + length es ≤ n
      → add_all n events es ≡ some (record events { rest = events.rest ++ es })
  unfolding add_all
  add_all-rest n events [] h = rw append-nil
  add_all-rest n events (e ∷ es) h =
      rw (add_fits n events e (omega arith), add_all)
        (add_all-rest n (record events { rest = events.rest ++ (e ∷ []) }) es
            (omega (arith, length-append events.rest (e ∷ [])))
          ∙ rw append_assoc)

  add_all-panics :
      (n : ℕ) (events : Events Event) (es : List Event)
      → length events.rest ≤ n
      → n < length events.rest + length es
      → add_all n events es ≡ none
  unfolding add_all
  add_all-panics n events [] h over = absurd (omega arith)
  add_all-panics n events (e ∷ es) h over = elim (Bool-cases (ltb (length events.rest) n)) [
    | inl fits ↦
        rw (add_fits n events e (omega tests), add_all)
          (add_all-panics n (record events { rest = events.rest ++ (e ∷ []) }) es
            (omega (tests, length-append events.rest (e ∷ [])))
            (omega (tests, length-append events.rest (e ∷ []))))
    | inr full ↦ unfold add in rw (full, add_all)
  ]

  -- `events!` keeps every event, in order, when the tail fits the capacity; one event more panics.
  pub events_macro :
      (n : ℕ) (head : Event) (tail : List Event)
      → (length tail ≤ n → Option.map iter (add_all n (new head) tail) ≡ some (head ∷ tail))
        × (n < length tail → add_all n (new head) tail ≡ none)
  events_macro n head tail = (
    λ h. rw (add_all-rest n (new head) tail (omega arith)),
    λ h. add_all-panics n (new head) tail (omega arith) (omega arith),
  )
