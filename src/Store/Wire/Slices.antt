-- ===== src/Store/Wire/Slices.antt =====
-- The bytes that a range of a value denotes: `value[start..end]`.
use mnesis.Base.{
  length-take, length-drop, ℕ, ◌+◌, ◌-◌, ◌≤◌, ◌≡◌, ◌∙◌, ap, sym, List, [], ◌++◌, length-append,
  arith, length, take, drop, take-append, drop-append,
}
use mathlib.Core.List.{append_assoc, append-nil}
use mnesis.Store.Wire.Layout.{Range}

abbrev pub slice : List ℕ → Range → List ℕ
slice value r = take (r.end - r.start) (drop r.start value)

pub slice_middle :
    (before bytes after : List ℕ) (start end : ℕ)
    → length before ≡ start
    → start + length bytes ≡ end
    → slice (before ++ (bytes ++ after)) (record { start = start; end = end }) ≡ bytes
slice_middle before bytes after start end hb he =
    ap (take (end - start)) (drop-append start before (bytes ++ after) hb)
    ∙ take-append (end - start) bytes after (omega arith)

-- The same, with the bytes before in two and in four parts.
pub slice_third :
    (a b bytes after : List ℕ) (start end : ℕ)
    → length a + length b ≡ start
    → start + length bytes ≡ end
    → slice (a ++ (b ++ (bytes ++ after))) (record { start = start; end = end }) ≡ bytes
slice_third a b bytes after start end hb he =
    ap (λ l. slice l (record { start = start; end = end }))
      (sym (append_assoc a b (bytes ++ after)))
    ∙ slice_middle (a ++ b) bytes after start end (length-append a b ∙ hb) he

pub slice_last :
    (a b c d bytes : List ℕ) (start end : ℕ)
    → length a + length b + length c + length d ≡ start
    → start + length bytes ≡ end
    → slice (a ++ (b ++ (c ++ (d ++ bytes)))) (record { start = start; end = end }) ≡ bytes
slice_last a b c d bytes start end hb he =
    ap (λ l. slice l (record { start = start; end = end })) regrouped
    ∙ slice_middle (a ++ (b ++ (c ++ d))) bytes [] start end (simp length-append (omega arith)) he
  where
    regrouped : a ++ (b ++ (c ++ (d ++ bytes))) ≡ (a ++ (b ++ (c ++ d))) ++ (bytes ++ [])
    regrouped = simp (append_assoc, append-nil)

pub length-slice :
    (value : List ℕ) (r : Range)
    → r.start ≤ r.end
    → r.end ≤ length value
    → length (slice value r) ≡ r.end - r.start
length-slice value r h k =
    omega (arith, length-take (r.end - r.start) (drop r.start value), length-drop r.start value)
