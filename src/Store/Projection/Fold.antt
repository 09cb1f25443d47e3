-- ===== src/Store/Projection/Fold.antt =====
-- The fold that a projection is to hold, over the items of a subscription in the order of their
-- positions: the items up to a position, and those behind it.
use mnesis.Base.{
  ◌≡◌, ◌∙◌, refl, sym, ap, inl, inr, true, false, Option, none, some, List, [], ◌∷◌, ◌++◌, arith,
  if◌then◌else◌, Bool-cases, Option-cases,
}
use mathlib.Core.Path.{subst}
use mnesis.Base.Result.{ok, err}
use mnesis.Store.Checkpoint.{Positions}
use mnesis.Store.Projection.{Projector, Positioned, is_past}

-- The documented laws of `Ord`.
pub record IsOrder (𝓟 : Positions) : Type 0 where
  pub le_trans :
      (a b c : 𝓟.Position)
      → 𝓟.is_at_most a b ≡ true
      → 𝓟.is_at_most b c ≡ true
      → 𝓟.is_at_most a c ≡ true
  pub le_antisym : (a b : 𝓟.Position) → 𝓟.is_at_most a b ≡ true → 𝓟.is_at_most b a ≡ true → a ≡ b
  pub le_total : (a b : 𝓟.Position) → 𝓟.is_at_most a b ≡ false → 𝓟.is_at_most b a ≡ true

module _ (𝓟 : Positions) (𝓙 : Projector) where
  -- The state behind an item, if the projector accepts it.
  abbrev pub applied : 𝓙.State → Positioned 𝓟 𝓙 → Option 𝓙.State
  applied state item = elim (𝓙.apply_attributed state item.key item.event) [
    | none ↦ none
    | some r ↦ elim r [ err e ↦ none | ok state' ↦ some state' ]
  ]

  unfoldable pub fold_items : 𝓙.State → List (Positioned 𝓟 𝓙) → Option 𝓙.State
  fold_items state [] = some state
  fold_items state (item ∷ items) = elim (applied state item) [
    | none ↦ none
    | some state' ↦ fold_items state' items
  ]

  -- The items up to a position, and those behind it.
  unfoldable pub upto : Option 𝓟.Position → List (Positioned 𝓟 𝓙) → List (Positioned 𝓟 𝓙)
  upto at [] = []
  upto at (x ∷ xs) = if is_past 𝓟 at x.position then x ∷ upto at xs else upto at xs

  unfoldable pub after : Option 𝓟.Position → List (Positioned 𝓟 𝓙) → List (Positioned 𝓟 𝓙)
  after at [] = []
  after at (x ∷ xs) = if is_past 𝓟 at x.position then after at xs else x ∷ after at xs

  abbrev IsBefore : Positioned 𝓟 𝓙 → List (Positioned 𝓟 𝓙) → Type 0
  IsBefore x [] = Unit
  IsBefore x (y ∷ ys) = (𝓟.is_at_most y.position x.position ≡ false) × IsBefore x ys

  -- The positions increase strictly.
  abbrev pub IsIncreasing : List (Positioned 𝓟 𝓙) → Type 0
  IsIncreasing [] = Unit
  IsIncreasing (x ∷ xs) = IsBefore x xs × IsIncreasing xs

  some_inj : (a b : 𝓙.State) → ◌≡◌ {A = Option 𝓙.State} (some a) (some b) → a ≡ b
  some_inj a b h = cc

  pub fold_items-append :
      (state : 𝓙.State) (xs ys : List (Positioned 𝓟 𝓙)) (s : 𝓙.State)
      → fold_items state xs ≡ some s
      → fold_items state (xs ++ ys) ≡ fold_items s ys
  unfolding fold_items
  fold_items-append state [] ys s h = ap (λ z. fold_items z ys) (some_inj state s h)
  fold_items-append state (x ∷ xs) ys s h = elim (Option-cases (applied state x)) [
    | inl e ↦ absurd (ground arith)
    | inr (t, e) ↦ ground (arith, fold_items-append t xs ys s)
  ]

  pub fold_items-snoc :
      (state : 𝓙.State) (xs : List (Positioned 𝓟 𝓙)) (item : Positioned 𝓟 𝓙) (s t : 𝓙.State)
      → fold_items state xs ≡ some s
      → applied s item ≡ some t
      → fold_items state (xs ++ item ∷ []) ≡ some t
  unfolding fold_items
  fold_items-snoc state xs item s t h e =
      fold_items-append state xs (item ∷ []) s h ∙ ground (arith, e)

  pub upto-none : (xs : List (Positioned 𝓟 𝓙)) → upto none xs ≡ []
  unfolding upto
  upto-none [] = refl
  upto-none (x ∷ xs) = upto-none xs

  pub after_none : (xs : List (Positioned 𝓟 𝓙)) → after none xs ≡ xs
  unfolding after
  after_none [] = refl
  after_none (x ∷ xs) = ap (◌∷◌ x) (after_none xs)

  module _ (order : IsOrder 𝓟) where
    pub le_refl : (a : 𝓟.Position) → 𝓟.is_at_most a a ≡ true
    le_refl a = ground (arith, order.le_total a a)

    past_later :
        (at : Option 𝓟.Position) (x y : Positioned 𝓟 𝓙)
        → ((o : 𝓟.Position) → at ≡ some o → 𝓟.is_at_most o x.position ≡ true)
        → 𝓟.is_at_most y.position x.position ≡ false
        → is_past 𝓟 at y.position ≡ false
    past_later none x y le h = refl
    past_later (some o) x y le h = ground (arith, le o refl, order.le_trans y.position o x.position)

    pub future_le :
        (at : Option 𝓟.Position) (x : Positioned 𝓟 𝓙)
        → is_past 𝓟 at x.position ≡ false
        → (o : 𝓟.Position) → at ≡ some o
        → 𝓟.is_at_most o x.position ≡ true
    future_le none x h o e = absurd cc
    future_le (some a) x h o e = ground (arith, order.le_total x.position a, e)

    after-IsBefore :
        (at : Option 𝓟.Position) (x : Positioned 𝓟 𝓙) (ys todo : List (Positioned 𝓟 𝓙))
        (item : Positioned 𝓟 𝓙)
        → IsBefore x ys
        → after at ys ≡ item ∷ todo
        → 𝓟.is_at_most item.position x.position ≡ false
    unfolding after
    after-IsBefore at x [] todo item h e = absurd cc
    after-IsBefore at x (y ∷ ys) todo item (first, rest) e =
        elim (Bool-cases (is_past 𝓟 at y.position)) [
          | inl past ↦ after-IsBefore at x ys todo item rest (ground (arith, past))
          | inr future ↦
              let same : y ≡ item = ground (arith, future) in
              ap (λ z. 𝓟.is_at_most z.position x.position) (sym same) ∙ first
        ]

    -- A place at or before an item is before all that follow the item.
    behind :
        (at : Option 𝓟.Position) (x : Positioned 𝓟 𝓙) (ys : List (Positioned 𝓟 𝓙))
        → ((o : 𝓟.Position) → at ≡ some o → 𝓟.is_at_most o x.position ≡ true)
        → IsBefore x ys
        → (upto at ys ≡ []) × (after at ys ≡ ys)
    unfolding upto after
    behind at x [] le h = (refl, refl)
    behind at x (y ∷ ys) le (first, rest) =
        let past : is_past 𝓟 at y.position ≡ false = past_later at x y le first in
        ground (arith, past, behind at x ys le rest)

    -- The item behind a place is the one that the next place adds.
    pub after-cons :
        (at : Option 𝓟.Position) (xs todo : List (Positioned 𝓟 𝓙)) (item : Positioned 𝓟 𝓙)
        → IsIncreasing xs
        → after at xs ≡ item ∷ todo
        → (upto (some item.position) xs ≡ upto at xs ++ item ∷ [])
          × (after (some item.position) xs ≡ todo)
          × (is_past 𝓟 at item.position ≡ false)
    unfolding upto after
    after-cons at [] todo item sorted h = absurd cc
    after-cons at (x ∷ xs) todo item sorted h = elim (Bool-cases (is_past 𝓟 at x.position)) [
      | inl past ↦
          let e : after at xs ≡ item ∷ todo = ground (arith, past) in
          let before : 𝓟.is_at_most item.position x.position ≡ false =
            after-IsBefore at x xs todo item sorted.0 e in
          let (here, there, open_) = after-cons at xs todo item sorted.1 e in
          let le = order.le_total item.position x.position before in
          (ground (arith, past, le, here), ground (arith, le, there), open_)
      | inr future ↦
          let (none_past, all_after) = behind at x xs (future_le at x future) sorted.0 in
          let same : x ≡ item = ground (arith, future) in
          let rest : xs ≡ todo = sym all_after ∙ ground (arith, future) in
          let own : 𝓟.is_at_most x.position x.position ≡ true = le_refl x.position in
          let (no_more, all) =
            behind (some x.position) x xs (λ o e. ground (arith, own, e)) sorted.0 in
          subst
            (λ z.
              (upto (some z.position) (x ∷ xs) ≡ upto at (x ∷ xs) ++ z ∷ [])
              × (after (some z.position) (x ∷ xs) ≡ todo)
              × (is_past 𝓟 at z.position ≡ false))
            same
            (
              ground (arith, own, future, none_past, no_more),
              ground (arith, own, all, rest),
              future,
            )
    ]

    -- Together they are all the items.
    pub upto-append-after :
        (at : Option 𝓟.Position) (xs : List (Positioned 𝓟 𝓙))
        → IsIncreasing xs
        → upto at xs ++ after at xs ≡ xs
    unfolding upto after
    upto-append-after at [] sorted = refl
    upto-append-after at (x ∷ xs) sorted = elim (Bool-cases (is_past 𝓟 at x.position)) [
      | inl past ↦ ground (arith, past, upto-append-after at xs sorted.1)
      | inr future ↦
          let (none_past, all_after) = behind at x xs (future_le at x future) sorted.0 in
          ground (arith, future, none_past, all_after)
    ]
