-- ===== src/Store/Sorting.antt =====
-- `sort.Slice`, as insertion: `less i j` is the comparison. Go's sort is not stable, so the order
-- of elements that compare equal is not part of what a caller may rely on.
use pulse_frix.Prelude.{Bool, true, false, List, [], ◌∷◌, Text, nat_eq, ◌==◌, ltb, ◌||◌, ◌&&◌}

-- The order of Go strings: byte by byte.
unfoldable pub text_ltb : Text → Text → Bool
text_ltb [] [] = false
text_ltb [] (_ ∷ _) = true
text_ltb (_ ∷ _) [] = false
text_ltb (a ∷ s) (b ∷ t) = ltb a b || (a == b && text_ltb s t)

module _ {ℓ} {A : Type ℓ} (less : A → A → Bool) where
  unfoldable pub insert : A → List A → List A
  insert x [] = x ∷ []
  insert x (y ∷ ys) = elim (less y x) [ true ↦ y ∷ insert x ys | false ↦ x ∷ y ∷ ys ]

  unfoldable pub sort_slice : List A → List A
  unfolding insert
  sort_slice [] = []
  sort_slice (x ∷ xs) = insert x (sort_slice xs)
