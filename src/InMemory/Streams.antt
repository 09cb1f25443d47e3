-- ===== src/InMemory/Streams.antt =====
-- The `HashMap<StreamKey, Vec<Row>>` of the store, as an association list: its operations and laws.
use mnesis.Base.{◌≡◌, true, List, [], ◌∷◌, ◌++◌, arith, if◌then◌else◌}
use mnesis.Base.Bytes.{bytes_eq_refl, bytes_eq→eq}
use mnesis.Store.Append.{StreamKey, key_eq}

module _ {Row : Type 0} where
  -- `streams.get(id)`, with a missing stream read as no rows.
  unfoldable pub rows_of : StreamKey → List (StreamKey × List Row) → List Row
  rows_of id [] = []
  rows_of id ((key, rows) ∷ streams) = if key_eq key id then rows else rows_of id streams

  -- `streams.entry(id).or_default().extend(new)`
  unfoldable pub extend :
      StreamKey → List Row → List (StreamKey × List Row) → List (StreamKey × List Row)
  extend id new [] = (id, new) ∷ []
  extend id new ((key, rows) ∷ streams) =
      if key_eq key id then (key, rows ++ new) ∷ streams else (key, rows) ∷ extend id new streams

pub key_eq_refl : (a : StreamKey) → key_eq a a ≡ true
key_eq_refl a = bytes_eq_refl a.bytes

pub key_eq→eq : (a b : StreamKey) → key_eq a b ≡ true → a ≡ b
key_eq→eq a b h = λ i. record { bytes = bytes_eq→eq a.bytes b.bytes h i }

pub key_eq_sym : (a b : StreamKey) → key_eq a b ≡ key_eq b a
key_eq_sym a b = ground (arith, key_eq→eq a b, key_eq→eq b a, key_eq_refl a, key_eq_refl b)

module _ {Row : Type 0} where
  -- A read of any stream after an extension.
  pub rows_of-extend :
      (id j : StreamKey) (new : List Row) (streams : List (StreamKey × List Row))
      → rows_of j (extend id new streams)
        ≡ (if key_eq id j then rows_of id streams ++ new else rows_of j streams)
  unfolding rows_of extend
  rows_of-extend id j new [] = ground arith
  rows_of-extend id j new ((key, rows) ∷ streams) = ground (
    arith,
    rows_of-extend id j new streams,
    key_eq→eq key id,
    key_eq→eq id j,
    key_eq→eq key j,
    key_eq_refl id,
    key_eq_refl j,
    key_eq_sym id key,
    key_eq_sym id j,
  )
