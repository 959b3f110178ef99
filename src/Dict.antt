-- ===== src/Dict.antt =====
-- Go's `map[string]V`: an association list with the keys of the map. The order of the entries is
-- the order in which one run of a `range` loop meets them; the theorems hold for every order.
pub mod Laws
pub mod Scoped
use pulse_frix.Prelude.{
  Bool, Option, none, some, List, [], ◌∷◌, Text, text_eq, ◌==◌, ◌≡◌, if◌then◌else◌,
}

abbrev pub Dict {ℓ} : Type ℓ → Type ℓ
Dict V = List (Text × V)

module _ {ℓ} {V : Type ℓ} where
  -- `v, ok := m[k]`
  unfoldable pub get : Dict V → Text → Option V
  get [] k = none
  get ((j, v) ∷ m) k = if j == k then some v else get m k

  -- `m[k] = v`
  unfoldable pub put : Dict V → Text → V → Dict V
  put [] k v = (k, v) ∷ []
  put ((j, w) ∷ m) k v = if j == k then (k, v) ∷ m else (j, w) ∷ put m k v

  -- `delete(m, k)`
  unfoldable pub remove : Dict V → Text → Dict V
  remove [] k = []
  remove ((j, v) ∷ m) k = let rest = remove m k in if j == k then rest else (j, v) ∷ rest

  -- `for k, v := range m { if p(v) { delete(m, k) } }`
  unfoldable pub remove_where : (V → Bool) → Dict V → Dict V
  remove_where p [] = []
  remove_where p ((j, v) ∷ m) = let rest = remove_where p m in if p v then rest else (j, v) ∷ rest

  -- the values, in the order of a `range` loop
  unfoldable pub values : Dict V → List V
  values [] = []
  values ((j, v) ∷ m) = v ∷ values m

  -- `for _, v := range m { if p(v) { return v } }`
  unfoldable pub find : (V → Bool) → Dict V → Option V
  find p [] = none
  find p ((j, v) ∷ m) = let rest = find p m in if p v then some v else rest

  -- `for _, v := range m { if p(v) { *v = f(*v); return } }`; `none` if no entry passes the test
  unfoldable pub update_first : (V → Bool) → (V → V) → Dict V → Option (Dict V)
  update_first p f [] = none
  update_first p f ((j, v) ∷ m) =
      let rest = update_first p f m in
      if p v then some ((j, f v) ∷ m) else elim rest [ none ↦ none | some m' ↦ some ((j, v) ∷ m') ]

  -- No key stands twice: what a Go map guarantees.
  abbrev pub HasUniqueKeys : Dict V → Type ℓ
  HasUniqueKeys [] = Unit
  HasUniqueKeys ((j, v) ∷ m) = (get m j ≡ none) × HasUniqueKeys m
