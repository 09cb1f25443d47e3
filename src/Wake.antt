-- ===== src/Wake.antt =====
-- crates/wake/src/lib.rs: the registry of who waits for which stream. The lock makes each operation
-- a function of the map. A `watch` channel is its generation; a receiver that is armed keeps the
-- one that it has seen.
pub mod Reads
pub mod Guards
pub mod Generations
mod Examples
use mnesis.Base.{
  ℕ, ◌+◌, ◌%◌, ◌^◌, Bool, true, false, Option, none, some, List, [], ◌==◌, length, if◌then◌else◌,
}
use mnesis.Base.Maps.{get, insert, remove}
use mnesis.Base.Words.{usize_max, checked_add, checked_sub}
use mnesis.Base.Result.{Result, ok, err}

pub data NotifyError : Type 0 where
  subscriber_overflow : NotifyError

pub record Entry : Type 0 where
  pub generation : ℕ
  pub subscribers : ℕ

pub record StreamNotifiers : Type 0 where
  pub map : List (List ℕ × Entry)
  pub all_generation : ℕ

-- `StreamNotifiers::new`
abbrev pub new : StreamNotifiers
new = record { map = []; all_generation = 0 }

abbrev pub get_or_new : Option Entry → Entry
get_or_new none = record { generation = 0; subscribers = 0 }
get_or_new (some entry) = entry

-- `register_entry`; its guard is the key. The entry is made before the count can fail.
unfoldable pub register_entry :
    List ℕ → StreamNotifiers → StreamNotifiers × Result NotifyError (List ℕ)
register_entry stream notifiers =
    let entry = get_or_new (get stream notifiers.map) in
    elim (checked_add usize_max entry.subscribers 1) [
      | none ↦
          (record notifiers { map = insert stream entry notifiers.map }, err subscriber_overflow)
      | some subscribers ↦ (
        record notifiers {
          map = insert stream (record entry { subscribers = subscribers }) notifiers.map;
        },
        ok stream,
      )
    ]

-- `wrapping_add` on a generation
abbrev pub bumped : ℕ → ℕ
bumped generation = (generation + 1) % 2 ^ 64

-- `StreamNotifiers::wake`
unfoldable pub wake : List ℕ → StreamNotifiers → StreamNotifiers
wake stream notifiers = record {
  map = elim (get stream notifiers.map) [
    | none ↦ notifiers.map
    | some entry ↦
        insert stream (record entry { generation = bumped entry.generation }) notifiers.map
  ];
  all_generation = bumped notifiers.all_generation;
}

-- `StreamNotifiers::generation`
unfoldable pub generation : List ℕ → StreamNotifiers → ℕ
generation stream notifiers = elim (get stream notifiers.map) [
  | none ↦ 0
  | some entry ↦ entry.generation
]

-- `StreamNotifiers::active_streams`
abbrev pub active_streams : StreamNotifiers → ℕ
active_streams notifiers = length notifiers.map

-- What is left of an entry when one of its subscribers goes; `none` reaps it.
abbrev pub left : ℕ → Option ℕ
left subscribers = elim (checked_sub subscribers 1) [
  | none ↦ none
  | some remaining ↦ if remaining == 0 then none else some remaining
]

-- `StreamNotifiers::release`, which the drop of a guard calls.
unfoldable pub release : List ℕ → StreamNotifiers → StreamNotifiers
release key notifiers = elim (get key notifiers.map) [
  | none ↦ notifiers
  | some entry ↦ elim (left entry.subscribers) [
    | none ↦ record notifiers { map = remove key notifiers.map }
    | some remaining ↦ record notifiers {
      map = insert key (record entry { subscribers = remaining }) notifiers.map;
    }
  ]
]

-- The target of a registration: a stream, or all.
pub data Target : Type 0 where
  all : Target
  of_stream : List ℕ → Target

-- What a receiver of the target's channel reads.
abbrev pub generation_of : Target → StreamNotifiers → ℕ
generation_of all notifiers = notifiers.all_generation
generation_of (of_stream stream) notifiers = generation stream notifiers

-- `WakeRegistration::arm` marks the generation that it sees, and its future resolves once the
-- channel has another.
abbrev pub is_resolved : Target → ℕ → StreamNotifiers → Bool
is_resolved target armed notifiers = if generation_of target notifiers == armed then false else true
