-- ===== src/InMemory/Index.antt =====
-- The `$all` index: its order, and the rows that it holds for one stream.
use mnesis.Base.{
  ℕ, suc, ◌+◌, ◌<◌, ◌≡◌, ◌∙◌, refl, sym, List, [], ◌∷◌, ◌++◌, map, arith, length, if◌then◌else◌,
}
use mnesis.Store.Append.{StreamKey, key_eq}
use mnesis.InMemory.Frame.{StoredFrame}
use mnesis.InMemory.Store.{insert_at, index_rows, frames}
use mnesis.InMemory.Stage.{ArePositions}
use mathlib.Core.List.{append-nil, append_assoc}

-- Positions strictly between `lo` and `hi`, in strictly ascending order.
abbrev pub IsAscending : {V : Type 0} → ℕ → List (ℕ × V) → ℕ → Type 0
IsAscending lo [] hi = lo < hi
IsAscending lo ((p, v) ∷ index) hi = (lo < p) × IsAscending p index hi

-- The rows of one stream, in `$all` order.
unfoldable pub frames_at : StreamKey → List (ℕ × (StreamKey × StoredFrame)) → List StoredFrame
frames_at id [] = []
frames_at id ((p, (key, frame)) ∷ index) =
    let rest = frames_at id index in if key_eq key id then frame ∷ rest else rest

abbrev pub tagged : StreamKey → List (ℕ × StoredFrame) → List (ℕ × (StreamKey × StoredFrame))
tagged id = map (λ r. (r.0, (id, r.1)))

module _ {V : Type 0} where
  pub IsAscending-lt : (lo hi : ℕ) (index : List (ℕ × V)) → IsAscending lo index hi → lo < hi
  IsAscending-lt lo hi [] h = h
  IsAscending-lt lo hi ((p, w) ∷ index) (h, k) = omega (arith, IsAscending-lt p hi index k)

  -- One more position at the end.
  pub IsAscending-snoc :
      (lo pos hi : ℕ) (v : V) (index : List (ℕ × V))
      → IsAscending lo index pos
      → pos < hi
      → IsAscending lo (index ++ ((pos, v) ∷ [])) hi
  IsAscending-snoc lo pos hi v [] h k = (h, k)
  IsAscending-snoc lo pos hi v ((p, w) ∷ index) (h, g) k =
      (h, IsAscending-snoc p pos hi v index g k)

module _ {V : Type 0} where
  -- A position above all others goes to the end.
  pub insert_at-last :
      (lo pos : ℕ) (v : V) (index : List (ℕ × V))
      → IsAscending lo index pos
      → insert_at pos v index ≡ index ++ ((pos, v) ∷ [])
  unfolding insert_at
  insert_at-last lo pos v [] h = refl
  insert_at-last lo pos v ((p, w) ∷ index) (h, k) =
      ground (arith, IsAscending-lt p pos index k, insert_at-last p pos v index k)

-- Rows staged behind the index go to its end, in order, and keep it ascending.
pub index_rows-append :
    (id : StreamKey) (rows : List (ℕ × StoredFrame)) (index : List (ℕ × (StreamKey × StoredFrame)))
    (lo seq hi : ℕ)
    → IsAscending lo index seq
    → ArePositions seq rows
    → seq + length rows ≡ hi
    → (index_rows id rows index ≡ index ++ tagged id rows)
      × IsAscending lo (index_rows id rows index) hi
unfolding index_rows
index_rows-append id [] index lo seq hi h ps e =
    let e' : seq ≡ hi = omega arith in (sym (append-nil index), rw (← e') h)
index_rows-append id ((pos, frame) ∷ rows) index lo seq hi h ps e =
    let at : insert_at pos (id, frame) index ≡ index ++ ((pos, (id, frame)) ∷ []) =
      insert_at-last lo pos (id, frame) index (rw ps.0 h) in
    let asc : IsAscending lo (index ++ ((pos, (id, frame)) ∷ [])) (suc seq) =
      IsAscending-snoc lo pos (suc seq) (id, frame) index (rw ps.0 h) (omega (arith, ps.0)) in
    let (eq, asc') =
      index_rows-append id rows (index ++ ((pos, (id, frame)) ∷ [])) lo (suc seq) hi asc ps.1
        (omega arith) in
    (
      rw (at, index_rows) (eq ∙ append_assoc index ((pos, (id, frame)) ∷ []) (tagged id rows)),
      rw (at, index_rows) asc',
    )

pub frames_at-append :
    (j : StreamKey) (xs ys : List (ℕ × (StreamKey × StoredFrame)))
    → frames_at j (xs ++ ys) ≡ frames_at j xs ++ frames_at j ys
unfolding frames_at
frames_at-append j [] ys = refl
frames_at-append j ((p, (key, frame)) ∷ xs) ys = ground (arith, frames_at-append j xs ys)

-- The rows of one stream's staged run belong to it alone.
pub frames_at-tagged :
    (id j : StreamKey) (rows : List (ℕ × StoredFrame))
    → frames_at j (tagged id rows) ≡ (if key_eq id j then frames rows else [])
unfolding frames_at
frames_at-tagged id j [] = ground arith
frames_at-tagged id j ((p, frame) ∷ rows) = ground (arith, frames_at-tagged id j rows)
