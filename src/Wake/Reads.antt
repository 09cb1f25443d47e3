-- ===== src/Wake/Reads.antt =====
-- What an entry of the registry is behind each operation.
use mnesis.Base.{
  ℕ, ◌+◌, ◌≡◌, ap, inl, inr, true, Option, none, some, List, arith, if◌then◌else◌, Bool-cases,
  Option-cases,
}
use mathlib.Core.Option
use mnesis.Base.Bytes.{bytes_eq, bytes_eq→eq}
use mnesis.Base.Maps.{get, get-insert, get-remove}
use mnesis.Base.Result.{ok, err}
use mnesis.Wake.{
  subscriber_overflow, Entry, StreamNotifiers, get_or_new, register_entry, wake, bumped, release,
  left,
}

abbrev pub joined : Option Entry → Entry
joined o = let entry = get_or_new o in record entry { subscribers = entry.subscribers + 1 }

abbrev pub woken : Entry → Entry
woken entry = record entry { generation = bumped entry.generation }

abbrev pub shrunk : Option Entry → Option Entry
shrunk none = none
shrunk (some entry) = Option.map (λ n. record entry { subscribers = n }) (left entry.subscribers)

module _ (stream j : List ℕ) (r : StreamNotifiers) where
  own : bytes_eq stream j ≡ true → get stream r.map ≡ get j r.map
  own h = ap (λ k. get k r.map) (bytes_eq→eq stream j h)

  pub get-register :
      (register_entry stream r).1 ≡ ok stream
      → get j (register_entry stream r).0.map
        ≡ (if bytes_eq stream j then some (joined (get stream r.map)) else get j r.map)
  unfolding register_entry
  get-register h = ground (arith, h, get-insert stream j (joined (get stream r.map)) r.map)

  pub get-register_overflow :
      (register_entry stream r).1 ≡ err subscriber_overflow
      → get j (register_entry stream r).0.map ≡ get j r.map
  unfolding register_entry
  get-register_overflow h = elim (Option-cases (get stream r.map)) [
    | inl e ↦ absurd (ground arith)
    | inr (entry, e) ↦ elim (Bool-cases (bytes_eq stream j)) [
      | inl same ↦ ground (arith, h, e, same, own same, get-insert stream j entry r.map)
      | inr other ↦ ground (arith, h, e, other, get-insert stream j entry r.map)
    ]
  ]

  pub get-wake :
      get j (wake stream r).map
      ≡ (if bytes_eq stream j then Option.map woken (get j r.map) else get j r.map)
  unfolding wake
  get-wake = elim (Option-cases (get stream r.map)) [
    | inl e ↦ elim (Bool-cases (bytes_eq stream j)) [
      | inl same ↦ ground (arith, e, same, own same)
      | inr other ↦ ground (arith, e, other)
    ]
    | inr (entry, e) ↦ elim (Bool-cases (bytes_eq stream j)) [
      | inl same ↦ ground (arith, e, same, own same, get-insert stream j (woken entry) r.map)
      | inr other ↦ ground (arith, e, other, get-insert stream j (woken entry) r.map)
    ]
  ]

  pub get-release :
      get j (release stream r).map
      ≡ (if bytes_eq stream j then shrunk (get j r.map) else get j r.map)
  unfolding release
  get-release = elim (Option-cases (get stream r.map)) [
    | inl e ↦ elim (Bool-cases (bytes_eq stream j)) [
      | inl same ↦ ground (arith, e, same, own same)
      | inr other ↦ ground (arith, e, other)
    ]
    | inr (entry, e) ↦ elim (Option-cases (left entry.subscribers)) [
      | inl last ↦ elim (Bool-cases (bytes_eq stream j)) [
        | inl same ↦ ground (arith, e, last, same, own same, get-remove stream j r.map)
        | inr other ↦ ground (arith, e, last, other, get-remove stream j r.map)
      ]
      | inr (n, some_left) ↦
          let kept = get-insert stream j (record entry { subscribers = n }) r.map in
          elim (Bool-cases (bytes_eq stream j)) [
            | inl same ↦ ground (arith, e, some_left, same, own same, kept)
            | inr other ↦ ground (arith, e, some_left, other, kept)
          ]
    ]
  ]
