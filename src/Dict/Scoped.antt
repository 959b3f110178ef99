-- ===== src/Dict/Scoped.antt =====
-- Two maps that agree on the values which pass a test: a tenant's part of a table.
use pulse_frix.Prelude.{
  Bool, true, false, Option, none, some, [], ◌∷◌, Text, text_eq, ◌≡◌, ◌∙◌, refl, inl, inr, arith,
  if◌then◌else◌, same_text_iff, Bool-cases, Option-cases, select,
}
use pulse_frix.Dict.{Dict, get, put, remove, values, update_first, HasUniqueKeys}
use pulse_frix.Dict.Laws.{get-put, get-remove, get-update_first}

abbrev pub keep {ℓ} : {V : Type ℓ} → (V → Bool) → Option V → Option V
keep p none = none
keep p (some v) = if p v then some v else none

pub record SameScope {ℓ} {V : Type ℓ} (p : V → Bool) (d d' : Dict V) : Type ℓ where
  pub listed : select p (values d') ≡ select p (values d)
  pub looked_up : (k : Text) → keep p (get d' k) ≡ keep p (get d k)

module _ {ℓ} {V : Type ℓ} (p : V → Bool) where
  pub SameScope-refl : (d : Dict V) → SameScope p d d
  SameScope-refl d = record { listed = refl; looked_up = λ k. refl }

  pub SameScope-trans :
      {d d' d'' : Dict V} → SameScope p d d' → SameScope p d' d'' → SameScope p d d''
  SameScope-trans x y = record {
    listed = y.listed ∙ x.listed;
    looked_up = λ k. y.looked_up k ∙ x.looked_up k;
  }

  select-values-put :
      (d : Dict V) (k : Text) (v : V)
      → p v ≡ false
      → keep p (get d k) ≡ none
      → select p (values (put d k v)) ≡ select p (values d)
  unfolding get put values
  select-values-put [] k v out old = ground arith
  select-values-put ((j, w) ∷ d) k v out old = ground (arith, select-values-put d k v out)

  -- A write of a value outside the scope, over nothing or over a value outside the scope.
  pub SameScope-put :
      (d : Dict V) (k : Text) (v : V)
      → p v ≡ false
      → keep p (get d k) ≡ none
      → SameScope p d (put d k v)
  SameScope-put d k v out old = record {
    listed = select-values-put d k v out old;
    looked_up = λ j. ground (arith, get-put d k v j, same_text_iff k j);
  }

  remove_absent : (d : Dict V) (k : Text) → get d k ≡ none → remove d k ≡ d
  unfolding get remove
  remove_absent [] k h = refl
  remove_absent ((j, w) ∷ d) k h = ground (arith, remove_absent d k)

  select-values-remove :
      (d : Dict V) (k : Text)
      → HasUniqueKeys d
      → keep p (get d k) ≡ none
      → select p (values (remove d k)) ≡ select p (values d)
  unfolding get remove values
  select-values-remove [] k u old = refl
  select-values-remove ((j, w) ∷ d) k u old =
      ground (arith, select-values-remove d k u.1, remove_absent d k, same_text_iff j k)

  -- A deletion of a value outside the scope.
  pub SameScope-remove :
      (d : Dict V) (k : Text)
      → HasUniqueKeys d
      → keep p (get d k) ≡ none
      → SameScope p d (remove d k)
  SameScope-remove d k u old = record {
    listed = select-values-remove d k u old;
    looked_up = λ j. ground (arith, get-remove d k j, same_text_iff k j);
  }

  module _ (q : V → Bool) (f : V → V)
      (outside : (v : V) → q v ≡ true → (p v ≡ false) × (p (f v) ≡ false)) where
    select-values-update_first :
        (d d' : Dict V) → update_first q f d ≡ some d' → select p (values d') ≡ select p (values d)
    unfolding update_first values
    select-values-update_first [] d' h = cc
    select-values-update_first ((j, w) ∷ d) d' h = elim (Bool-cases (q w)) [
      | inl hit ↦ ground (arith, outside w hit)
      | inr miss ↦ elim (Option-cases (update_first q f d)) [
        | inl gone ↦ absurd (ground arith)
        | inr (n, kept) ↦ ground (arith, select-values-update_first d n kept)
      ]
    ]

    -- An update in place of a row outside the scope that stays outside.
    pub SameScope-update_first : (d d' : Dict V) → update_first q f d ≡ some d' → SameScope p d d'
    SameScope-update_first d d' h = record {
      listed = select-values-update_first d d' h;
      looked_up = λ k. elim (get-update_first q f d {m' = d'} k h) [
        | inl same ↦ rw same
        | inr (v, old, hit, new) ↦ ground (arith, outside v hit)
      ];
    }
