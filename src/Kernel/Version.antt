-- ===== src/Kernel/Version.antt =====
-- crates/mnesis/src/version.rs: event versions and checked runs of consecutive versions.
pub mod Run
use mnesis.Base.{
  ℕ, zero, suc, ◌+◌, ◌≤◌, Bool, Option, none, some, List, [], ◌∷◌, ◌&&◌, ltb, ◌==◌, if◌then◌else◌,
}
use mnesis.Base.Words.{u64_max, usize_max, checked_add, checked_sub, try_from}
use mnesis.Base.Chain.{◌>>=◌, ◌>>◌}
use mathlib.Core.Option

-- A `NonZeroU64`; `IsVersion` is the range of that type.
pub record Version : Type 0 where
  pub as_u64 : ℕ

abbrev pub IsVersion : Version → Type 0
IsVersion v = (1 ≤ v.as_u64) × (v.as_u64 ≤ u64_max)

abbrev pub initial : Version
initial = record { as_u64 = 1 }

-- `Version::new`
abbrev pub new : ℕ → Option Version
new v = if v == 0 then none else some (record { as_u64 = v })

-- `Version::next`
abbrev pub next : Version → Option Version
next v = Option.map (λ n. record { as_u64 = n }) (checked_add u64_max v.as_u64 1)

pub record VersionRun : Type 0 where
  pub next : Version
  pub remaining : ℕ

-- `Version::run`
unfoldable pub run : Version → ℕ → Option VersionRun
run start len = elim (checked_sub len 1) [
  | none ↦ some (record { next = start; remaining = 0 })
  | some last_index ↦ do
    last_offset ← try_from u64_max last_index
    last_raw ← checked_add u64_max start.as_u64 last_offset
    new last_raw
    some (record { next = start; remaining = len })
]

-- The move of `self.next` on a step that leaves `remaining` items.
abbrev advance : ℕ → Version → Version
advance remaining v = elim (next v) [ none ↦ v | some n ↦ if ltb 0 remaining then n else v ]

-- `Iterator::next` for `VersionRun`: the item and the iterator after it.
unfoldable pub next_item : VersionRun → Option Version × VersionRun
next_item r = elim (checked_sub r.remaining 1) [
  | none ↦ (none, r)
  | some remaining ↦
      (some r.next, record { next = advance remaining r.next; remaining = remaining })
]

-- What a `for` loop over the run sees, in at most `fuel` rounds, and the iterator that it leaves.
unfoldable pub collect : ℕ → VersionRun → List Version × VersionRun
collect zero r = ([], r)
collect (suc fuel) r =
    let (item, r') = next_item r in
    let rest = collect fuel r' in elim item [ none ↦ ([], r') | some v ↦ (v ∷ rest.0, rest.1) ]
