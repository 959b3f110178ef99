-- ===== src/Dict/Laws.antt =====
-- The laws of the map operations, in `if` form, and what a loop over a map returns.
use pulse_frix.Prelude.{
  Bool, true, false, Option, none, some, [], ◌∷◌, Text, text_eq, ◌==◌, ◌≡◌, refl, ◌⊎◌, inl, inr,
  arith, if◌then◌else◌, same_text_iff, Bool-cases, Option-cases,
}
use pulse_frix.Dict.{Dict, get, put, remove, remove_where, find, update_first, HasUniqueKeys}

-- What `p` leaves of a value that was found.
abbrev pub unless {ℓ} : {V : Type ℓ} → (V → Bool) → Option V → Option V
unless p none = none
unless p (some v) = if p v then none else some v

module _ {ℓ} {V : Type ℓ} where
  pub get-put :
      (m : Dict V) (k : Text) (v : V) (j : Text)
      → get (put m k v) j ≡ (if k == j then some v else get m j)
  unfolding get put
  get-put [] k v j = refl
  get-put ((i, w) ∷ m) k v j =
      ground (arith, get-put m k v j, same_text_iff i k, same_text_iff i j, same_text_iff k j)

  pub get-remove :
      (m : Dict V) (k j : Text) → get (remove m k) j ≡ (if k == j then none else get m j)
  unfolding get remove
  get-remove [] k j = ground arith
  get-remove ((i, w) ∷ m) k j =
      ground (arith, get-remove m k j, same_text_iff i k, same_text_iff i j, same_text_iff k j)

  -- A key that is absent stays absent.
  get-remove_where-none :
      (p : V → Bool) (m : Dict V) (j : Text) → get m j ≡ none → get (remove_where p m) j ≡ none
  unfolding get remove_where
  get-remove_where-none p [] j h = refl
  get-remove_where-none p ((i, w) ∷ m) j h = ground (arith, get-remove_where-none p m j)

  pub get-remove_where :
      (p : V → Bool) (m : Dict V) (j : Text)
      → HasUniqueKeys m
      → get (remove_where p m) j ≡ unless p (get m j)
  unfolding get remove_where
  get-remove_where p [] j u = refl
  get-remove_where p ((i, w) ∷ m) j u =
      ground (arith, get-remove_where p m j u.1, get-remove_where-none p m j, same_text_iff i j)

  pub put-HasUniqueKeys :
      (m : Dict V) (k : Text) (v : V) → HasUniqueKeys m → HasUniqueKeys (put m k v)
  unfolding put get
  put-HasUniqueKeys [] k v u = (refl, tt)
  put-HasUniqueKeys ((i, w) ∷ m) k v u =
      ground
        (arith, get-put m k v i, put-HasUniqueKeys m k v u.1, same_text_iff i k, same_text_iff k i)

  pub remove-HasUniqueKeys : (m : Dict V) (k : Text) → HasUniqueKeys m → HasUniqueKeys (remove m k)
  unfolding remove
  remove-HasUniqueKeys [] k u = tt
  remove-HasUniqueKeys ((i, w) ∷ m) k u =
      ground (
        arith,
        get-remove m k i,
        remove-HasUniqueKeys m k u.1,
        same_text_iff i k,
        same_text_iff k i,
      )

  pub remove_where-HasUniqueKeys :
      (p : V → Bool) (m : Dict V) → HasUniqueKeys m → HasUniqueKeys (remove_where p m)
  unfolding remove_where
  remove_where-HasUniqueKeys p [] u = tt
  remove_where-HasUniqueKeys p ((i, w) ∷ m) u =
      ground (arith, get-remove_where-none p m i, remove_where-HasUniqueKeys p m u.1)

  -- A loop that finds nothing has seen that no value passes the test.
  pub find-none :
      (p : V → Bool) (m : Dict V) (k : Text) (v : V)
      → find p m ≡ none
      → get m k ≡ some v
      → p v ≡ false
  unfolding find get
  find-none p [] k v h g = cc
  find-none p ((i, w) ∷ m) k v h g = ground (arith, find-none p m k v)

  pub find-some :
      (p : V → Bool) (m : Dict V) (v : V)
      → HasUniqueKeys m
      → find p m ≡ some v
      → (p v ≡ true) × ((k : Text) × (get m k ≡ some v))
  unfolding find get
  find-some p [] v u h = cc
  find-some p ((i, w) ∷ m) v u h = elim (Bool-cases (p w)) [
    | inl e ↦ (ground arith, (i, ground (arith, same_text_iff i i)))
    | inr e ↦
        let (pv, found) = find-some p m v u.1 (ground arith) in
        let (k, g) = found in (pv, (k, ground (arith, same_text_iff i k)))
  ]

  -- Each key keeps its value or, where the value passes the test, has it updated.
  pub get-update_first :
      (p : V → Bool) (f : V → V) (m : Dict V) {m' : Dict V} (k : Text)
      → update_first p f m ≡ some m'
      → (get m' k ≡ get m k)
        ⊎ ((v : V) × (get m k ≡ some v) × (p v ≡ true) × (get m' k ≡ some (f v)))
  unfolding update_first get
  get-update_first p f [] k h = cc
  get-update_first p f ((i, w) ∷ m) {m'} k h = elim (Bool-cases (p w)) [
    | inl e ↦ elim (Bool-cases (i == k)) [
      | inl hit ↦ inr (w, ground arith, e, ground arith)
      | inr miss ↦ inl (ground arith)
    ]
    | inr e ↦ elim (Option-cases (update_first p f m)) [
      | inl gone ↦ absurd (ground arith)
      | inr (n, kept) ↦ elim (Bool-cases (i == k)) [
        | inl hit ↦ inl (ground arith)
        | inr miss ↦ ground (arith, get-update_first p f m {m' = n} k kept)
      ]
    ]
  ]

  pub update_first-none :
      (p : V → Bool) (f : V → V) (m : Dict V) (k : Text) (v : V)
      → update_first p f m ≡ none
      → get m k ≡ some v
      → p v ≡ false
  unfolding update_first get
  update_first-none p f [] k v h g = cc
  update_first-none p f ((i, w) ∷ m) k v h g = ground (arith, update_first-none p f m k v)
