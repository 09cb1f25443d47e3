-- ===== src/Store/Append.antt =====
-- The append contract of crates/store: stream keys and `validate_append_versions` of store.rs. A
-- conflict of the source carries a display label of the key; here it carries the key itself.
pub mod Exact
use mnesis.Base.{ℕ, ◌+◌, Bool, true, false, Option, none, some, List, [], ◌∷◌, ◌==◌, if◌then◌else◌}
use mnesis.Base.Words.{u64_max, checked_add}
use mnesis.Base.Bytes.{bytes_eq}
use mnesis.Base.Result.{Result, ok, err, ◌>>=◌, ◌>>◌, ok_or}
use mnesis.Kernel.Version
use mnesis.Kernel.Version.{Version}
use mnesis.Store.Envelope.{PendingEnvelope, PendingBatch, batch_iter}

-- crates/store/src/stream_id.rs: identity is that of the raw bytes.
pub record StreamKey : Type 0 where
  pub bytes : List ℕ

-- The derived `PartialEq` of `StreamKey`.
abbrev pub key_eq : StreamKey → StreamKey → Bool
key_eq a b = bytes_eq a.bytes b.bytes

pub data AppendValidationError : Type 0 where
  conflict : StreamKey → Option Version → Option Version → AppendValidationError
  version_overflow : AppendValidationError

-- `==` on `Option<Version>`.
abbrev pub version_eq : Option Version → Option Version → Bool
version_eq none none = true
version_eq none (some b) = false
version_eq (some a) none = false
version_eq (some a) (some b) = a.as_u64 == b.as_u64

-- The head of a stream of `current` events, as the source computes it.
abbrev pub actual_version : ℕ → Option Version
actual_version current = if current == 0 then none else Version.new current

-- The second part of `validate_append_versions`: the running counter against each envelope.
unfoldable pub check_sequence :
    StreamKey → ℕ → List PendingEnvelope → Result AppendValidationError (Unit {0})
check_sequence id next [] = ok tt
check_sequence id next (env ∷ envs) = elim (checked_add u64_max next 1) [
  | none ↦ err version_overflow
  | some next' ↦
      if env.version.as_u64 == next'
      then check_sequence id next' envs
      else err (conflict id (Version.new next') (some env.version))
]

-- `validate_append_versions`
unfoldable pub validate_append_versions :
    ℕ → Option Version → PendingBatch → StreamKey → Result AppendValidationError (Unit {0})
validate_append_versions current expected envelopes id =
    if version_eq expected (actual_version current)
    then check_sequence id current (batch_iter envelopes)
    else err (conflict id expected (actual_version current))
