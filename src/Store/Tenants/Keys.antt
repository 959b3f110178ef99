-- ===== src/Store/Tenants/Keys.antt =====
-- `key` separates organizations whose identifiers have no slash, as those of `auth.NewID` have
-- none: their alphabet is that of unpadded base64url.
use pulse_frix.Prelude.{
  ◌≡◌, ◌≢◌, refl, [], ◌∷◌, ◌++◌, Text, text_eq, ◌==◌, false, All, arith, same_text_iff,
}
use pulse_frix.Dict
use pulse_frix.Dict.{Dict}
use pulse_frix.Dict.Laws.{get-put, get-remove}
use pulse_frix.Store.{key}

abbrev pub HasNoSlash : Text → Type 0
HasNoSlash = All λ c. c ≢ b'/'

split_at_slash :
    (a b s t : Text) → HasNoSlash a → HasNoSlash b → a ++ b'/' ∷ s ≡ b ++ b'/' ∷ t → a ≡ b
split_at_slash [] [] s t ha hb e = refl
split_at_slash [] (c ∷ b) s t ha hb e = absurd (hb.0 (cc))
split_at_slash (c ∷ a) [] s t ha hb e = absurd (ha.0 (cc))
split_at_slash (c ∷ a) (d ∷ b) s t ha hb e = cc (split_at_slash a b s t ha.1 hb.1 (cc))

module _ (a b : Text) (ha : HasNoSlash a) (hb : HasNoSlash b) (ne : a ≢ b) (s t : Text) where
  key_ne : (key a s == key b t) ≡ false
  unfolding key
  key_ne = ground (
    arith,
    same_text_iff (key a s) (key b t),
    λ (e : key a s ≡ key b t). ne (split_at_slash a b s t ha hb e),
  )

  pub get-put-key {ℓ} :
      {V : Type ℓ} (d : Dict V) (v : V)
      → Dict.get (Dict.put d (key a s) v) (key b t) ≡ Dict.get d (key b t)
  get-put-key d v = rw (get-put d (key a s) v (key b t), key_ne)

  pub get-remove-key {ℓ} :
      {V : Type ℓ} (d : Dict V)
      → Dict.get (Dict.remove d (key a s)) (key b t) ≡ Dict.get d (key b t)
  get-remove-key d = rw (get-remove d (key a s) (key b t), key_ne)
