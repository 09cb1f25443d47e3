-- ===== src/Base/Maps.antt =====
-- Maps from byte strings, as association lists.
use mnesis.Base.{ℕ, ◌≡◌, Option, none, some, List, [], ◌∷◌, arith, if◌then◌else◌}
use mnesis.Base.Bytes.{bytes_eq, bytes_eq_refl, bytes_eq→eq}

module _ {A : Type 0} where
  -- The first entry of a key.
  unfoldable pub get : List ℕ → List (List ℕ × A) → Option A
  get id [] = none
  get id ((key, r) ∷ records) = if bytes_eq key id then some r else get id records

  -- The entry is replaced, or added behind the others.
  unfoldable pub insert : List ℕ → A → List (List ℕ × A) → List (List ℕ × A)
  insert id new [] = (id, new) ∷ []
  insert id new ((key, r) ∷ records) =
      if bytes_eq key id then (key, new) ∷ records else (key, r) ∷ insert id new records

  -- Every entry of a key is dropped.
  unfoldable pub remove : List ℕ → List (List ℕ × A) → List (List ℕ × A)
  remove id [] = []
  remove id ((key, r) ∷ records) =
      if bytes_eq key id then remove id records else (key, r) ∷ remove id records

pub bytes_eq_sym : (a b : List ℕ) → bytes_eq a b ≡ bytes_eq b a
bytes_eq_sym a b =
    ground (arith, bytes_eq→eq a b, bytes_eq→eq b a, bytes_eq_refl a, bytes_eq_refl b)

-- A read of any id behind a write.
pub get-insert :
    {A : Type 0} (id j : List ℕ) (new : A) (records : List (List ℕ × A))
    → get j (insert id new records) ≡ (if bytes_eq id j then some new else get j records)
unfolding get insert
get-insert id j new [] = ground arith
get-insert id j new ((key, r) ∷ records) = ground (
  arith,
  get-insert id j new records,
  bytes_eq→eq key id,
  bytes_eq→eq id j,
  bytes_eq→eq key j,
  bytes_eq_refl id,
  bytes_eq_refl j,
  bytes_eq_sym id key,
  bytes_eq_sym id j,
)

-- A read of any id behind a removal.
pub get-remove :
    {A : Type 0} (id j : List ℕ) (records : List (List ℕ × A))
    → get j (remove id records) ≡ (if bytes_eq id j then none else get j records)
unfolding get remove
get-remove id j [] = ground arith
get-remove id j ((key, r) ∷ records) = ground (
  arith,
  get-remove id j records,
  bytes_eq→eq key id,
  bytes_eq→eq id j,
  bytes_eq→eq key j,
  bytes_eq_refl id,
  bytes_eq_refl j,
  bytes_eq_sym id key,
  bytes_eq_sym id j,
)
