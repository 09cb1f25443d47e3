-- ===== src/Kernel/Aggregate.antt =====
-- crates/mnesis/src/aggregate.rs and the dispatch of saga.rs: the event-sourced aggregate root.
-- An operation takes the root and returns the root after it with its reply. A panic of application
-- code inside `apply` is a reply of its own, with the root as unwinding leaves it.
pub mod Fold
pub mod Replay
pub mod Reach
use mnesis.Base.{
  ℕ, zero, suc, ◌+◌, ◌≤◌, Option, none, some, List, [], ◌∷◌, leb, ◌==◌, if◌then◌else◌, length,
}
use mnesis.Base.Words.{u64_max, usize_max, checked_add, try_from}
use mnesis.Base.Result.{Result, ok, err, ◌>>=◌, ◌>>◌, ok_or, map_err}
use mnesis.Kernel.Version
use mnesis.Kernel.Version.{Version}
use mnesis.Kernel.Events
use mnesis.Kernel.Events.{Events}

-- `KernelError` of crates/mnesis/src/error.rs.
pub data KernelError : Type 0 where
  poisoned_aggregate version_overflow : KernelError
  version_mismatch : Version → Version → KernelError
  rehydration_limit_exceeded : ℕ → KernelError

pub data DecisionError (E : Type 0) : Type 0 where
  kernel : KernelError → DecisionError E
  domain : E → DecisionError E

-- The traits `Aggregate` and `AggregateState`. `apply` is application code: `none` is its panic.
pub record Aggregate : Type 1 where
  pub State : Type 0
  pub Event : Type 0
  pub Error : Type 0
  pub AggregateId : Type 0
  pub initial : State
  pub apply : State → Event → Option State
  pub max_rehydration_events : ℕ

-- How a call ends: it returns to its caller, or it unwinds.
pub data Reply (A : Type 0) : Type 0 where
  returned : Result KernelError A → Reply A
  panicked : Reply A

abbrev pub done : Reply (Unit {0})
done = returned (ok tt)

module _ (𝓐 : Aggregate) where
  open 𝓐 use {State, Event, Error, AggregateId}

  pub record AggregateRoot : Type 0 where
    pub id : AggregateId
    pub state : Option State
    pub version : Option Version
    pub replayed_events : ℕ

-- The loop of `fold_events` over the owned state; the first panic ends it.
abbrev pub apply_all : (𝓐 : Aggregate) → 𝓐.State → List 𝓐.Event → Option 𝓐.State
apply_all 𝓐 state [] = some state
apply_all 𝓐 state (event ∷ events) = elim (𝓐.apply state event) [
  | none ↦ none
  | some state' ↦ apply_all 𝓐 state' events
]

-- The version that `replay` wants next.
abbrev pub expected_version : Option Version → Result KernelError Version
expected_version none = ok Version.initial
expected_version (some v) = ok_or (Version.next v) KernelError.version_overflow

abbrev pub version_or_zero : Option Version → ℕ
version_or_zero none = 0
version_or_zero (some v) = v.as_u64

module _ {𝓐 : Aggregate} where
  open 𝓐 use {State, Event, Error, AggregateId}

  -- `AggregateRoot::new`
  abbrev pub new_root : AggregateId → AggregateRoot 𝓐
  new_root id = record { id = id; state = some 𝓐.initial; version = none; replayed_events = 0 }

  -- `AggregateRoot::restore`
  abbrev pub restore : AggregateId → State → Version → AggregateRoot 𝓐
  restore id state version = record {
    id = id;
    state = some state;
    version = some version;
    replayed_events = 0;
  }

  -- `AggregateRoot::state`
  abbrev pub state_of : AggregateRoot 𝓐 → Result KernelError State
  state_of root = ok_or root.state KernelError.poisoned_aggregate

  -- `AggregateRoot::handle` and, with an upstream event for the command, `AggregateRoot::react`:
  -- `decide` is the application's `Handle::handle` or `React::react`.
  unfoldable pub handle :
      {Command : Type 0}
      → (State → Command → Result Error (Option (Events Event)))
      → AggregateRoot 𝓐
      → Command
      → Result (DecisionError Error) (Option (Events Event))
  handle decide root command = do
    state ← map_err DecisionError.kernel (state_of root)
    map_err DecisionError.domain (decide state command)

  -- `AggregateRoot::fold_events`, and so `apply_events`: the state is taken out while application
  -- code runs, and put back only if every event folds.
  unfoldable pub fold_events : AggregateRoot 𝓐 → List Event → AggregateRoot 𝓐 × Reply (Unit {0})
  fold_events root events = elim root.state [
    | none ↦ (root, returned (err KernelError.poisoned_aggregate))
    | some current ↦ elim (apply_all 𝓐 current events) [
      | none ↦ (record root { state = none }, panicked)
      | some current' ↦ (record root { state = some current' }, done)
    ]
  ]

  -- The checks of `replay`, in its order, up to the counter that it will store.
  unfoldable pub replay_checks : AggregateRoot 𝓐 → Version → Result KernelError ℕ
  replay_checks root version = do
    state_of root
    expected ← expected_version root.version
    if version.as_u64 == expected.as_u64
        then if leb 𝓐.max_rehydration_events root.replayed_events
          then err (KernelError.rehydration_limit_exceeded 𝓐.max_rehydration_events)
          else ok_or (checked_add usize_max root.replayed_events 1)
              (KernelError.rehydration_limit_exceeded 𝓐.max_rehydration_events)
        else err (KernelError.version_mismatch expected version)

  -- What `replay` stores once the event has folded.
  abbrev record_replayed :
      ℕ → Version → AggregateRoot 𝓐 × Reply (Unit {0}) → AggregateRoot 𝓐 × Reply (Unit {0})
  record_replayed completed version (root, returned (ok u)) =
      (record root { replayed_events = completed; version = some version }, done)
  record_replayed completed version (root, returned (err e)) = (root, returned (err e))
  record_replayed completed version (root, panicked) = (root, panicked)

  -- `AggregateRoot::replay`
  unfoldable pub replay : AggregateRoot 𝓐 → Version → Event → AggregateRoot 𝓐 × Reply (Unit {0})
  replay root version event = elim (replay_checks root version) [
    | err e ↦ (root, returned (err e))
    | ok completed ↦ record_replayed completed version (fold_events root (event ∷ []))
  ]

  -- `AggregateRoot::commit_version`
  unfoldable pub commit_version : AggregateRoot 𝓐 → Events Event → Result KernelError Version
  commit_version root events = do
    state_of root
    tail ← ok_or (try_from u64_max (length events.rest)) KernelError.version_overflow
    count ← ok_or (checked_add u64_max tail 1) KernelError.version_overflow
    ending ←
        ok_or (checked_add u64_max (version_or_zero root.version) count)
          KernelError.version_overflow
    ok_or (Version.new ending) KernelError.version_overflow

  -- `AggregateRoot::commit_persisted`: the version is recorded before the events fold.
  unfoldable pub commit_persisted :
      AggregateRoot 𝓐 → Events Event → AggregateRoot 𝓐 × Reply (Unit {0})
  commit_persisted root events = elim (commit_version root events) [
    | err e ↦ (root, returned (err e))
    | ok version ↦ fold_events (record root { version = some version }) (Events.iter events)
  ]

  -- The loading loop of the documentation: replay until the first reply that is not `Ok`.
  unfoldable pub rehydrate :
      AggregateRoot 𝓐 → List (Version × Event) → AggregateRoot 𝓐 × Reply (Unit {0})
  rehydrate root [] = (root, done)
  rehydrate root ((version, event) ∷ history) =
      let (root', reply) = replay root version event in
      let rest = rehydrate root' history in
      elim reply [
        | panicked ↦ (root', panicked)
        | returned r ↦ elim r [ err e ↦ (root', returned (err e)) | ok u ↦ rest ]
      ]
