-- ===== src/InMemory/Subscription.antt =====
-- crates/store/src/catchup.rs: `StreamCatchup`, the subscription target of one stream, on the
-- in-memory store. A registration counts the wakes of its stream: `arm` takes the count, and the
-- wait is over when the count has moved.
pub mod Scan
pub mod Growth
pub mod Log
pub mod Appends
use mnesis.Base.{ℕ, zero, suc, Bool, Option, none, some, List, [], ◌∷◌, ltb, if◌then◌else◌}
use mnesis.Base.Result.{Result, ok, err}
use mnesis.Kernel.Version
use mnesis.Kernel.Version.{Version}
use mnesis.Store.Value.{FromUtf8}
use mnesis.Store.Append.{StreamKey, key_eq}
use mnesis.Store.Envelope.Persisted.{PersistedEnvelope}
use mnesis.Store.Subscription.{Catchup}
use mnesis.InMemory.Frame.{InMemoryStoreError}
use mnesis.InMemory.Store.{Inner}
use mnesis.InMemory.Read.{BatchSize, Item, ReadState, read_stream, poll_next}

-- `tag_version`
abbrev pub tag_version : Item → Result InMemoryStoreError (Version × PersistedEnvelope)
tag_version (ok env) = ok (env.version, env)
tag_version (err e) = err e

abbrev pub tag_next :
    Option Item × ReadState
    → Option (Result InMemoryStoreError (Version × PersistedEnvelope)) × Option ReadState
tag_next (none, s) = (none, some s)
tag_next (some item, s) = (some (tag_version item), some s)

-- `from.map_or(Some(Version::INITIAL), Version::next)`
abbrev pub resume : Option Version → Option Version
resume none = some Version.initial
resume (some v) = Version.next v

-- `StreamCatchup::read_after`; the empty scan is `none`.
abbrev pub scan_from : BatchSize → StreamKey → Option Version → Option ReadState
scan_from batch id none = none
scan_from batch id (some v) = some (read_stream batch id v)

abbrev pub next_of :
    FromUtf8
    → Option ReadState
    → Inner
    → Option (Result InMemoryStoreError (Version × PersistedEnvelope)) × Option ReadState
next_of u none inner = (none, none)
next_of u (some s) inner = tag_next (poll_next u inner s)

-- How often a stream has been woken.
unfoldable pub wakes_of : StreamKey → List StreamKey → ℕ
wakes_of id [] = 0
wakes_of id (key ∷ keys) = let rest = wakes_of id keys in if key_eq id key then suc rest else rest

-- `StreamCatchup`
abbrev pub stream_catchup : FromUtf8 → BatchSize → StreamKey → Catchup
stream_catchup u batch id = record {
  World = Inner;
  Position = Version;
  Item = Version × PersistedEnvelope;
  Scan = Option ReadState;
  Error = InMemoryStoreError;
  Wait = ℕ;
  read_after = λ from inner. ok (scan_from batch id (resume from));
  next = next_of u;
  position_of = λ item. item.0;
  arm = λ inner. wakes_of id inner.woken;
  is_woken = λ wait inner. ltb wait (wakes_of id inner.woken);
}
