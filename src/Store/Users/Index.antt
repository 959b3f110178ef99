-- ===== src/Store/Users/Index.antt =====
-- The index of emails and the users' rows agree.
use pulse_frix.Prelude.{
  ℕ, ◌≡◌, ◌≢◌, ◌↔◌, refl, none, some, Option, [], ◌++◌, Text, text_eq, bytes, ◌==◌, if◌then◌else◌,
  arith, same_text_iff, Option-cases, Bool-cases, inl, inr,
}
use pulse_frix.Dict
use pulse_frix.Dict.{Dict}
use pulse_frix.Dict.Laws.{get-put, get-remove}
use pulse_frix.Strings.{to_lower, trim_space, to_lower_idem, to_lower-eq-nil}
use pulse_frix.Model.{User}
use pulse_frix.Store.{Memory}
use pulse_frix.Store.Users.{
  seed_org_owner, seed_org_owner_lower, upsert_oidc_user, new_tenant, update_user_email, is_member,
  is_taken, set_email, update_user_password,
}

abbrev pub email_of : Dict User → Text → Option Text
email_of users uid = elim (Dict.get users uid) [ none ↦ none | some u ↦ some u.email ]

-- An address stands in the index under the user whose address it is, and under no other; addresses
-- are in lower case.
pub record IsIndexed (users : Dict User) (index : Dict Text) : Type 0 where
  pub agree :
      (e uid : Text) → e ≢ [] → (Dict.get index e ≡ some uid) ↔ (email_of users uid ≡ some e)
  pub lower : (uid e : Text) → email_of users uid ≡ some e → to_lower e ≡ e

-- What is left of an entry of the index when it may not name `uid`.
abbrev other_than : Text → Option Text → Option Text
other_than uid none = none
other_than uid (some j) = if j == uid then none else some j

email_of-put :
    (users : Dict User) (uid : Text) (u : User) (j : Text)
    → email_of (Dict.put users uid u) j ≡ (if uid == j then some u.email else email_of users j)
email_of-put users uid u j = ground (arith, get-put users uid u j)

module _ (users : Dict User) (index index' : Dict Text) (uid : Text) (u : User) where
  -- A row is written under an address that no other user has, and the index follows.
  reindex :
      IsIndexed users index
      → to_lower u.email ≡ u.email
      → (u.email ≢ [] → other_than uid (Dict.get index u.email) ≡ none)
      → ((e : Text)
          → e ≢ []
          → Dict.get index' e
            ≡ (if u.email == e then some uid else other_than uid (Dict.get index e)))
      → IsIndexed (Dict.put users uid u) index'
  reindex v low free follows = record {
    agree = λ e j ne. (
      λ g. ground (
        arith,
        follows e ne,
        email_of-put users uid u j,
        v.agree e j ne,
        same_text_iff u.email e,
        same_text_iff uid j,
        same_text_iff j uid,
      ),
      λ g. ground (
        arith,
        follows e ne,
        email_of-put users uid u j,
        v.agree e j ne,
        free,
        same_text_iff u.email e,
        same_text_iff uid j,
        same_text_iff j uid,
      ),
    );
    lower = λ j e g. ground (arith, email_of-put users uid u j, v.lower j e, same_text_iff uid j);
  }

-- A fresh identifier names no row, so no entry of the index has to give way.
other_than_fresh :
    (users : Dict User) (index : Dict Text) (uid e : Text)
    → IsIndexed users index
    → Dict.get users uid ≡ none
    → e ≢ []
    → other_than uid (Dict.get index e) ≡ Dict.get index e
other_than_fresh users index uid e v fresh ne = elim (Option-cases (Dict.get index e)) [
  | inl out ↦ rw out
  | inr (j, entry) ↦ ground (arith, (v.agree e j ne).0 entry, same_text_iff j uid)
]

seed_org_owner_lower-IsIndexed :
    (m : Memory) (org_name email hash org_id uid : Text) (now : ℕ)
    → IsIndexed m.users m.users_by_mail
    → to_lower email ≡ email
    → Dict.get m.users uid ≡ none
    → let m' = (seed_org_owner_lower m org_name email hash org_id uid now).1 in
      IsIndexed m'.users m'.users_by_mail
unfolding seed_org_owner_lower
seed_org_owner_lower-IsIndexed m org_name email hash org_id uid now v low fresh =
    elim (Option-cases (Dict.get m.users_by_mail email)) [
      | inr (j, taken) ↦ rw (taken, seed_org_owner_lower) v
      | inl free ↦
          rw (free, seed_org_owner_lower)
            (reindex m.users m.users_by_mail _ uid _ v low (λ _. rw free refl)
              (λ e ne. ground (
                arith,
                get-put m.users_by_mail email uid e,
                other_than_fresh m.users m.users_by_mail uid e v fresh ne,
              )))
    ]

pub seed_org_owner-IsIndexed :
    (m : Memory) (org_name email hash org_id uid : Text) (now : ℕ)
    → IsIndexed m.users m.users_by_mail
    → Dict.get m.users uid ≡ none
    → let m' = (seed_org_owner m org_name email hash org_id uid now).1 in
      IsIndexed m'.users m'.users_by_mail
unfolding seed_org_owner
seed_org_owner-IsIndexed m org_name email hash org_id uid now v fresh =
    seed_org_owner_lower-IsIndexed m org_name (to_lower email) hash org_id uid now v
      (to_lower_idem email) fresh

new_tenant-IsIndexed :
    (m : Memory) (key email name org_id uid : Text) (now : ℕ)
    → IsIndexed m.users m.users_by_mail
    → Dict.get m.users uid ≡ none
    → (email ≢ [] → Dict.get m.users_by_mail (to_lower email) ≡ none)
    → let m' = (new_tenant m key email name org_id uid now).1 in IsIndexed m'.users m'.users_by_mail
unfolding new_tenant to_lower
new_tenant-IsIndexed m key email name org_id uid now v fresh free =
    reindex m.users m.users_by_mail _ uid _ v (to_lower_idem email)
      (λ ne. rw (free (λ e. ne (rw e refl))) refl)
      (λ e ne. ground (
        arith,
        get-put m.users_by_mail (to_lower email) uid e,
        other_than_fresh m.users m.users_by_mail uid e v fresh ne,
        same_text_iff (to_lower email) e,
        same_text_iff email [],
        to_lower-eq-nil email,
      ))

pub upsert_oidc_user-IsIndexed :
    (m : Memory) (provider subject email name org_id uid : Text) (now : ℕ)
    → IsIndexed m.users m.users_by_mail
    → Dict.get m.users uid ≡ none
    → let m' = (upsert_oidc_user m provider subject email name org_id uid now).1 in
      IsIndexed m'.users m'.users_by_mail
unfolding upsert_oidc_user
upsert_oidc_user-IsIndexed m provider subject email name org_id uid now v fresh =
    let key = provider ++ (bytes ":" ++ subject) in
    let tenant = new_tenant-IsIndexed m key email name org_id uid now v fresh in
    elim (Option-cases (Dict.get m.oidc_by_key key)) [
      | inr (j, known) ↦ rw (known, upsert_oidc_user) v
      | inl stranger ↦ elim (Bool-cases (email == [])) [
        | inl blank ↦
            rw (stranger, blank, upsert_oidc_user)
              (tenant (λ ne. absurd (ne ((same_text_iff email []).0 blank))))
        | inr given ↦ elim (Option-cases (Dict.get m.users_by_mail (to_lower email))) [
          | inl free ↦ rw (stranger, given, free, upsert_oidc_user) (tenant (λ _. free))
          | inr (j, linked) ↦ rw (stranger, given, linked, upsert_oidc_user) v
        ]
      ]
    ]

set_email-IsIndexed :
    (m : Memory) (u : User) (uid email : Text)
    → IsIndexed m.users m.users_by_mail
    → Dict.get m.users uid ≡ some u
    → to_lower email ≡ email
    → other_than uid (Dict.get m.users_by_mail email) ≡ none
    → let m' = set_email m u uid email in IsIndexed m'.users m'.users_by_mail
unfolding set_email
set_email-IsIndexed m u uid email v row low free =
    reindex m.users m.users_by_mail _ uid (record u { email = email }) v low (λ _. free) follows
  where
    follows :
        (e : Text)
        → e ≢ []
        → Dict.get (set_email m u uid email).users_by_mail e
          ≡ (if email == e then some uid else other_than uid (Dict.get m.users_by_mail e))
    follows e ne = elim (Bool-cases (u.email == [])) [
      | inl blank ↦
          rw (blank, set_email)
            (elim (Option-cases (Dict.get m.users_by_mail e)) [
              | inl out ↦ ground (arith, get-put m.users_by_mail email uid e)
              | inr (j, entry) ↦ ground (
                arith,
                get-put m.users_by_mail email uid e,
                (v.agree e j ne).0 entry,
                same_text_iff j uid,
                same_text_iff u.email [],
              )
            ])
      | inr given ↦
          rw (given, set_email)
            (elim (Option-cases (Dict.get m.users_by_mail e)) [
              | inl out ↦ ground (
                arith,
                get-put (Dict.remove m.users_by_mail (to_lower u.email)) email uid e,
                get-remove m.users_by_mail (to_lower u.email) e,
              )
              | inr (j, entry) ↦ ground (
                arith,
                get-put (Dict.remove m.users_by_mail (to_lower u.email)) email uid e,
                get-remove m.users_by_mail (to_lower u.email) e,
                (v.agree e j ne).0 entry,
                v.agree e uid ne,
                v.lower uid u.email,
                same_text_iff j uid,
                same_text_iff (to_lower u.email) e,
              )
            ])
    ]

pub update_user_email-IsIndexed :
    (m : Memory) (org_id uid email : Text)
    → IsIndexed m.users m.users_by_mail
    → let m' = (update_user_email m org_id uid email).1 in IsIndexed m'.users m'.users_by_mail
unfolding update_user_email
update_user_email-IsIndexed m org_id uid email v =
    let email' = to_lower (trim_space email) in
    elim (Option-cases (Dict.get m.users uid)) [
      | inl gone ↦ rw (gone, update_user_email) v
      | inr (u, row) ↦ elim (Bool-cases (is_member m org_id uid)) [
        | inr stranger ↦ rw (row, stranger, update_user_email) v
        | inl member ↦ elim (Bool-cases (is_taken m email' uid)) [
          | inl taken ↦ rw (row, member, taken, update_user_email) v
          | inr free ↦
              rw (row, member, free, update_user_email)
                (set_email-IsIndexed m u uid email' v row (to_lower_idem (trim_space email))
                  (ground arith))
        ]
      ]
    ]

-- A row may change in every field but its address.
same_address :
    (users : Dict User) (index : Dict Text) (uid : Text) (u u' : User)
    → IsIndexed users index
    → Dict.get users uid ≡ some u
    → u'.email ≡ u.email
    → IsIndexed (Dict.put users uid u') index
same_address users index uid u u' v row same = record {
  agree = λ e j ne. rw (kept j) (v.agree e j ne);
  lower = λ j e g. v.lower j e (rw (kept j) at g);
}
  where
    kept : (j : Text) → email_of (Dict.put users uid u') j ≡ email_of users j
    kept j = ground (arith, email_of-put users uid u' j, same_text_iff uid j)

pub update_user_password-IsIndexed :
    (m : Memory) (org_id uid hash : Text)
    → IsIndexed m.users m.users_by_mail
    → let m' = (update_user_password m org_id uid hash).1 in IsIndexed m'.users m'.users_by_mail
unfolding update_user_password
update_user_password-IsIndexed m org_id uid hash v = elim (Option-cases (Dict.get m.users uid)) [
  | inl gone ↦ rw (gone, update_user_password) v
  | inr (u, row) ↦ elim (Bool-cases (is_member m org_id uid)) [
    | inr stranger ↦ rw (row, stranger, update_user_password) v
    | inl member ↦
        rw (row, member, update_user_password)
          (same_address m.users m.users_by_mail uid u (record u { password_hash = hash }) v row
            refl)
  ]
]
