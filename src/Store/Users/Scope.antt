-- ===== src/Store/Users/Scope.antt =====
-- Changing an account is invisible from outside the account's organization.
use pulse_frix.Prelude.{
  ◌≡◌, ◌≢◌, refl, some, Text, text_eq, false, arith, same_text_iff, Option-cases, Bool-cases, inl,
  inr, true,
}
use pulse_frix.Dict
use pulse_frix.Dict.{Dict}
use pulse_frix.Dict.Laws.{get-put}
use pulse_frix.Strings.{to_lower, trim_space}
use pulse_frix.Model.{User}
use pulse_frix.Store.{Memory}
use pulse_frix.Store.Users.{
  get_user, is_member, is_taken, set_email, update_user_email, update_user_password,
}

module _ (m : Memory) (a b uid id : Text) (ne : a ≢ b) where
  outsider : is_member m a uid ≡ true → is_member m b uid ≡ false
  outsider h = elim (Option-cases (Dict.get m.memberships uid)) [
    | inl nowhere ↦ ground arith
    | inr (mem, at) ↦ ground (arith, ne, same_text_iff mem.org_id a, same_text_iff mem.org_id b)
  ]

  write_unseen :
      (u u' : User) (m' : Memory)
      → is_member m a uid ≡ true
      → Dict.get m.users uid ≡ some u
      → m'.users ≡ Dict.put m.users uid u'
      → m'.memberships ≡ m.memberships
      → get_user m' b id ≡ get_user m b id
  unfolding get_user
  write_unseen u u' m' member row eu em =
      ground (arith, outsider member, get-put m.users uid u' id, same_text_iff uid id)

  pub get_user-update_user_email :
      (email : Text) → get_user (update_user_email m a uid email).1 b id ≡ get_user m b id
  unfolding update_user_email
  get_user-update_user_email email = elim (Option-cases (Dict.get m.users uid)) [
    | inl gone ↦ rw (gone, update_user_email)
    | inr (u, row) ↦ elim (Bool-cases (is_member m a uid)) [
      | inr stranger ↦ rw (row, stranger, update_user_email)
      | inl member ↦ elim (Bool-cases (is_taken m (to_lower (trim_space email)) uid)) [
        | inl taken ↦ rw (row, member, taken, update_user_email)
        | inr free ↦
            rw (row, member, free, update_user_email) (write_unseen u _ _ member row refl refl)
      ]
    ]
  ]

  pub get_user-update_user_password :
      (hash : Text) → get_user (update_user_password m a uid hash).1 b id ≡ get_user m b id
  unfolding update_user_password
  get_user-update_user_password hash = elim (Option-cases (Dict.get m.users uid)) [
    | inl gone ↦ rw (gone, update_user_password)
    | inr (u, row) ↦ elim (Bool-cases (is_member m a uid)) [
      | inr stranger ↦ rw (row, stranger, update_user_password)
      | inl member ↦
          rw (row, member, update_user_password) (write_unseen u _ _ member row refl refl)
    ]
  ]

-- Which tables the two calls write.
abbrev pub WritesAccounts : Memory → Memory → Type 0
WritesAccounts m m' =
    (users : Dict User) × (index : Dict Text) × (m'
      ≡ record m { users = users; users_by_mail = index })

module _ (m : Memory) (org uid : Text) where
  pub update_user_email-writes :
      (email : Text) → WritesAccounts m (update_user_email m org uid email).1
  unfolding update_user_email set_email
  update_user_email-writes email =
      let m' = (update_user_email m org uid email).1 in (m'.users, m'.users_by_mail, ground arith)

  pub update_user_password-writes :
      (hash : Text) → WritesAccounts m (update_user_password m org uid hash).1
  unfolding update_user_password
  update_user_password-writes hash =
      let m' = (update_user_password m org uid hash).1 in (m'.users, m'.users_by_mail, ground arith)
