-- ===== src/Duration/Decimal.antt =====
-- `strconv.FormatInt` in base 10, and its agreement with `strconv.ParseInt`.
use pulse_frix.Prelude.{
  ℕ, zero, suc, ◌+◌, ◌-◌, ◌*◌, ◌/◌, ◌≤◌, ◌<◌, ◌^◌, ◌≡◌, refl, some, [], ◌∷◌, arith, Text, nat_eq,
  ltb, lt→ltb, ltb→lt, if◌then◌else◌, Bool-cases, bytes, ◌≢◌, inl, inr,
}
use pulse_frix.Prelude.Int.{ℤ, pos, negsuc}
use pulse_frix.Duration.{digits, non_empty_digits, positive, parse_int}

-- The digits of a number of at most `fuel` digits, before a text.
print : ℕ → ℕ → Text → Text
print zero n acc = acc
print (suc fuel) n acc =
    let rest = print fuel (n / 10) ((48 + (n - n / 10 * 10)) ∷ acc) in
    if ltb n 10 then (48 + n) ∷ acc else rest

-- An int64 has at most 19 digits.
unfoldable pub format_int : ℤ → Text
unfolding print
format_int (pos n) = print 20 n []
format_int (negsuc n) = b'-' ∷ print 20 (suc n) []

abbrev last_digit : ℕ → ℕ
last_digit n = n - n / 10 * 10

digits-last : (n m : ℕ) (acc : Text) → n < 10 → digits m ((48 + n) ∷ acc) ≡ digits (m * 10 + n) acc
unfolding digits
digits-last n m acc h = ground arith

digits-first : (n : ℕ) (acc : Text) → n < 10 → digits 0 ((48 + n) ∷ acc) ≡ digits n acc
unfolding digits
digits-first n acc h = ground arith

last_digit_below : (n : ℕ) → last_digit n < 10
last_digit_below n = omega arith

last_digit_lem : (n : ℕ) → n / 10 * 10 + last_digit n ≡ n
last_digit_lem n = omega arith

-- A number below 10 ^ fuel is read back, by as many steps, into the rest of the text.
digits-print :
    (fuel n : ℕ) (acc : Text) → n < 10 ^ suc fuel → digits 0 (print (suc fuel) n acc) ≡ digits n acc
unfolding print
digits-print zero n acc h = rw (lt→ltb n 10 h) (digits-first n acc h)
digits-print (suc fuel) n acc h = elim (Bool-cases (ltb n 10)) [
  | inl e ↦ rw e (digits-first n acc (ltb→lt n 10 e))
  | inr e ↦
      rw
        (
          e,
          digits-print fuel (n / 10) ((48 + last_digit n) ∷ acc) (omega (arith, h)),
          digits-last (last_digit n) (n / 10) acc (last_digit_below n),
          last_digit_lem n,
        )
        refl
]

-- A printed number is a digit and more.
print-digit :
    (fuel n : ℕ) (acc : Text) → (c : ℕ) × (s : Text) × (print (suc fuel) n acc ≡ c ∷ s) × (48 ≤ c)
unfolding print
print-digit zero n acc = elim (Bool-cases (ltb n 10)) [
  | inl e ↦ (48 + n, acc, rw e refl, omega arith)
  | inr e ↦ (48 + last_digit n, acc, rw e refl, omega arith)
]
print-digit (suc fuel) n acc = elim (Bool-cases (ltb n 10)) [
  | inl e ↦ (48 + n, acc, rw e refl, omega arith)
  | inr e ↦ rw e (print-digit fuel (n / 10) ((48 + last_digit n) ∷ acc))
]

parse_digits :
    (t : Text) (c : ℕ) (s : Text) (n : ℕ)
    → t ≡ c ∷ s
    → 48 ≤ c
    → digits 0 t ≡ some n
    → n < 2 ^ 63
    → parse_int t ≡ some (pos n)
unfolding parse_int non_empty_digits positive
parse_digits [] c s n e digit read small = absurd (ground (arith, e))
parse_digits (d ∷ t) c s n e digit read small = ground (arith, e, digit, read, small)

pub parse_int-format_int : (n : ℕ) → n < 2 ^ 63 → parse_int (format_int (pos n)) ≡ some (pos n)
unfolding format_int digits
parse_int-format_int n h =
    let (c, s, e, digit) = print-digit 19 n [] in
    parse_digits (print 20 n []) c s n e digit (digits-print 19 n [] (omega (arith, h))) h

pub format_int-nonempty : (n : ℕ) → format_int (pos n) ≢ []
unfolding format_int
format_int-nonempty n h = let (c, s, e, digit) = print-digit 19 n [] in cc (e, h)

format_int_run : format_int (negsuc 1699) ≡ bytes "-1700"
unfolding format_int
format_int_run = refl
