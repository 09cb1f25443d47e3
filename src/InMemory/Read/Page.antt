-- ===== src/InMemory/Read/Page.antt =====
-- Pages: the first rows of what is left of a list.
use mnesis.Base.{
  ℕ, zero, suc, ◌≤◌, ◌≡◌, ◌≢◌, refl, true, List, [], ◌∷◌, ltb, arith, length, take, drop,
}

module _ {A : Type 0} where
  -- A short page is the last one.
  pub short_page : (k : ℕ) (xs : List A) → ltb (length (take k xs)) k ≡ true → drop k xs ≡ []
  short_page zero xs h = absurd (ground arith)
  short_page (suc k) [] h = refl
  short_page (suc k) (x ∷ xs) h = short_page k xs (ground (arith, h))

  pub take-nil : (k : ℕ) → take {A = A} k [] ≡ []
  take-nil zero = refl
  take-nil (suc k) = refl

  pub take-ne-nil : (k : ℕ) (x : A) (xs : List A) → 1 ≤ k → take k (x ∷ xs) ≢ []
  take-ne-nil zero x xs h e = absurd (omega arith)
  take-ne-nil (suc k) x xs h e = cc
