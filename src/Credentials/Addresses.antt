-- ===== src/Credentials/Addresses.antt =====
-- What the accepted addresses and passwords are.
use pulse_frix.Prelude.{
  ℕ, ◌≡◌, ◌≢◌, ◌≤◌, true, false, none, some, [], ◌∷◌, ◌++◌, Text, any, length, nat_eq, text_eq,
  ◌==◌, arith, same_text_iff, same_text_refl, All, List, refl, ap, ◌∙◌, ◌↔◌, Option-cases,
  Bool-cases, inl, inr, reverse,
}
use pulse_frix.Strings.{to_lower, trim_space, to_lower-eq-nil}
use pulse_frix.Credentials.{
  cut, contains, is_split_well, validate_trimmed, validate_email, normalize_email, is_blank,
  has_dot_first, validate_password_policy, is_weak, is_address, weak_passwords,
}

cut-some :
    (c : ℕ) (s before after : Text)
    → cut c s ≡ some (before, after)
    → (s ≡ before ++ c ∷ after) × (contains c before ≡ false)
unfolding cut
cut-some c [] before after e = absurd (ground (arith, e))
cut-some c (b ∷ s) before after e = elim (Bool-cases (b == c)) [
  | inl hit ↦ ground (arith, e, hit)
  | inr miss ↦ elim (Option-cases (cut c s)) [
    | inl e' ↦ absurd (ground (arith, e, miss, e'))
    | inr ((p, q), e') ↦ ground (arith, e, miss, e', cut-some c s p q e')
  ]
]

cut-none : (c : ℕ) (s : Text) → cut c s ≡ none → contains c s ≡ false
unfolding cut
cut-none c [] e = refl
cut-none c (b ∷ s) e = elim (Bool-cases (b == c)) [
  | inl hit ↦ absurd (ground (arith, e, hit))
  | inr miss ↦ elim (Option-cases (cut c s)) [
    | inl e' ↦ ground (arith, miss, cut-none c s e')
    | inr ((p, q), e') ↦ absurd (ground (arith, e, miss, e'))
  ]
]

cut_at :
    (c : ℕ) (before after : Text)
    → contains c before ≡ false
    → cut c (before ++ c ∷ after) ≡ some (before, after)
unfolding cut
cut_at c [] after apart = ground arith
cut_at c (b ∷ before) after apart =
    let rest = cut_at c before after (ground (arith, apart)) in ground (arith, apart, rest)

-- The password `lower` is not the address `e`, nor what stands before its first `@`.
pub record IsApart (lower e : Text) : Type 0 where
  pub not_whole : lower ≢ e
  pub not_local :
      (before after : Text)
      → e ≡ before ++ b'@' ∷ after
      → contains b'@' before ≡ false
      → before ≢ []
      → lower ≢ before

is_address-IsApart : (lower e : Text) → is_address lower e ≡ false → IsApart lower e
unfolding is_address
is_address-IsApart lower e h = record {
  not_whole = λ same. ground (arith, h, same, same_text_refl e);
  not_local = λ before after shape apart given same.
      let found : cut b'@' e ≡ some (before, after) =
        ap (cut b'@') shape ∙ cut_at b'@' before after apart in
      ground (arith, h, found, same_text_iff before [], same_text_iff lower before, given, same);
}

IsApart-is_address : (lower e : Text) → IsApart lower e → is_address lower e ≡ false
unfolding is_address
IsApart-is_address lower e a = elim (Option-cases (cut b'@' e)) [
  | inl e' ↦ ground (arith, e', a.not_whole, same_text_iff lower e)
  | inr ((before, after), e') ↦
      let (shape, apart) = cut-some b'@' e before after e' in
      let local = a.not_local before after shape apart in
      ground (
        arith,
        e',
        local,
        a.not_whole,
        same_text_iff lower e,
        same_text_iff before [],
        same_text_iff lower before,
      )
]

any_is :
    (x : Text) (ws : List Text)
    → (any (λ w. w == x) ws ≡ false → All (λ w. w ≢ x) ws)
      × (All (λ w. w ≢ x) ws → any (λ w. w == x) ws ≡ false)
any_is x [] = (λ _. tt, λ _. refl)
any_is x (w ∷ ws) =
    let (one, two) = any_is x ws in
    (
      λ h. (λ same. ground (arith, h, same, same_text_iff w x), one (ground (arith, h))),
      λ (first, rest). let r = two rest in ground (arith, r, first, same_text_iff w x),
    )

split_well :
    (before domain : Text)
    → is_split_well before domain ≡ true
    → (before ≢ [])
      × (contains b'@' domain ≡ false)
      × (contains b'.' domain ≡ true)
      × (has_dot_first domain ≡ false)
      × (has_dot_first (reverse domain) ≡ false)
unfolding is_split_well
split_well before domain e = (
  λ nil. ground (arith, e, nil, same_text_iff before []),
  ground (arith, e),
  ground (arith, e),
  ground (arith, e),
  ground (arith, e),
)

-- An address that the check accepts is, but for the space around it, a local part, the only `@`,
-- and a domain: the local part is not empty, the domain has a dot, at neither end; there are at most
-- 254 bytes and no blank among them; and its normal form is not empty.
pub validate_email_lem :
    (email : Text)
    → validate_email email ≡ none
    → (before : Text) × (domain : Text) × (trim_space email ≡ before ++ b'@' ∷ domain)
      × (before ≢ [])
      × (contains b'@' before ≡ false)
      × (contains b'@' domain ≡ false)
      × (contains b'.' domain ≡ true)
      × (has_dot_first domain ≡ false)
      × (has_dot_first (reverse domain) ≡ false)
      × (length (trim_space email) ≤ 254)
      × (any is_blank (trim_space email) ≡ false)
      × (normalize_email email ≢ [])
unfolding validate_email validate_trimmed normalize_email
validate_email_lem email e = elim (Option-cases (cut b'@' (trim_space email))) [
  | inl e' ↦ absurd (ground (arith, e, e'))
  | inr ((before, domain), e') ↦
      let well : is_split_well before domain ≡ true = ground (arith, e, e') in
      let given : (trim_space email == []) ≡ false = ground (arith, e, e') in
      let (whole, left) = cut-some b'@' (trim_space email) before domain e' in
      let (some_left, right, dot, first, last) = split_well before domain well in
      (
        before,
        domain,
        whole,
        some_left,
        left,
        right,
        dot,
        first,
        last,
        ground (arith, e, e'),
        ground (arith, e, e'),
        λ nil. ground (
          arith,
          given,
          to_lower-eq-nil (trim_space email) nil,
          same_text_iff (trim_space email) [],
        ),
      )
]

-- What a password has to be.
pub record IsGoodPassword (password email : Text) : Type 0 where
  pub long_enough : 12 ≤ length password
  pub short_enough : length password ≤ 256
  pub not_weak : All (λ w. w ≢ to_lower password) weak_passwords
  pub not_address : email ≢ [] → IsApart (to_lower password) (to_lower (trim_space email))

-- A password is accepted exactly if it has 12 to 256 bytes, is in lower case none of the weak ones,
-- and, where an address is given, is in any letter case neither the trimmed address nor what stands
-- there before the first @, if that is not empty.
pub validate_password_policy_lem :
    (password email : Text)
    → (validate_password_policy password email ≡ none) ↔ IsGoodPassword password email
unfolding validate_password_policy is_weak
validate_password_policy_lem password email =
    let lower = to_lower password in
    let e = to_lower (trim_space email) in
    let (strong, weak) = any_is lower weak_passwords in
    (
      λ h. record {
        long_enough = ground (arith, h);
        short_enough = ground (arith, h);
        not_weak = strong (ground (arith, h));
        not_address =
            λ given. is_address-IsApart lower e (ground (arith, h, given, same_text_iff email []));
      },
      λ g.
          let w : any (λ w. w == lower) weak_passwords ≡ false = weak g.not_weak in
          let apart : email ≢ [] → is_address lower e ≡ false =
            λ given. IsApart-is_address lower e (g.not_address given) in
          let a = g.long_enough in
          let b = g.short_enough in ground (arith, a, b, w, apart, same_text_iff email []),
    )
