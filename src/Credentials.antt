-- ===== src/Credentials.antt =====
-- apps/api/internal/auth/password.go: what a password and an address have to be. Both are ASCII. A
-- check returns the message of its error, or `none` where it accepts.
pub mod Addresses
use pulse_frix.Prelude.{
  ℕ, Bool, true, false, not, ◌&&◌, ◌||◌, Option, none, some, List, [], ◌∷◌, Text, bytes, any,
  reverse, length, ltb, nat_eq, text_eq, ◌==◌, if◌then◌else◌,
}
use pulse_frix.Strings.{to_lower, trim_space}

abbrev pub min_password_length : ℕ
min_password_length = 12

abbrev pub max_password_length : ℕ
max_password_length = 256

pub weak_passwords : List Text
weak_passwords =
    bytes "password"
    ∷ bytes "password123"
    ∷ bytes "passw0rd123"
    ∷ bytes "changeme"
    ∷ bytes "changeme123"
    ∷ bytes "administrator"
    ∷ bytes "adminadmin"
    ∷ bytes "pulsepulse"
    ∷ bytes "letmein12345"
    ∷ bytes "123456789012"
    ∷ bytes "qwertyuiop12"
    ∷ []

-- `weakPasswords[lower]`
pub is_weak : Text → Bool
is_weak lower = any (λ w. w == lower) weak_passwords

abbrev pub contains : ℕ → Text → Bool
contains c s = any (λ b. b == c) s

-- `strings.Cut` at a byte: what is before its first occurrence and what is after.
unfoldable pub cut : ℕ → Text → Option (Text × Text)
cut c [] = none
cut c (b ∷ s) =
    let rest = cut c s in
    if b == c
    then some ([], s)
    else elim rest [ none ↦ none | some (before, after) ↦ some (b ∷ before, after) ]

-- The password is the address, or what stands before the address's `@`.
pub is_address : Text → Text → Bool
is_address lower e = lower == e || elim (cut b'@' e) as (λ _. Bool) [
  | none ↦ false
  | some (before, _) ↦ not (before == []) && lower == before
]

pub validate_password_policy : Text → Text → Option Text
validate_password_policy password email =
    let lower = to_lower password in
    if ltb (length password) min_password_length
    then some (bytes "password must be at least 12 characters")
    else if ltb max_password_length (length password)
    then some (bytes "password must be at most 256 characters")
    else if is_weak lower
    then some (bytes "password is too common")
    else if not (email == []) && is_address lower (to_lower (trim_space email))
    then some (bytes "password must not be your email address")
    else none

abbrev pub is_blank : ℕ → Bool
is_blank c = c == b' ' || c == 9 || c == 13 || c == 10

-- `strings.HasPrefix` and `strings.HasSuffix` with ".".
unfoldable pub has_dot_first : Text → Bool
has_dot_first [] = false
has_dot_first (c ∷ s) = c == b'.'

-- The tests of both sides of the `@`.
unfoldable pub is_split_well : Text → Text → Bool
is_split_well before domain =
    not (before == [] || domain == [] || contains b'@' domain)
    && not (not (contains b'.' domain) || has_dot_first domain || has_dot_first (reverse domain))

unfoldable pub validate_trimmed : Text → Option Text
validate_trimmed e =
    if e == []
    then some (bytes "email is required")
    else if ltb 254 (length e)
    then some (bytes "email is too long")
    else if any is_blank e
    then some (bytes "email must not contain whitespace")
    else elim (cut b'@' e) [
      | none ↦ some (bytes "email is not valid")
      | some (before, domain) ↦
          if is_split_well before domain then none else some (bytes "email is not valid")
    ]

unfoldable pub validate_email : Text → Option Text
validate_email email = validate_trimmed (trim_space email)

pub normalize_email : Text → Text
normalize_email email = to_lower (trim_space email)
