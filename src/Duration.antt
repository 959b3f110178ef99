-- ===== src/Duration.antt =====
-- Go's `time.Duration` and the timestamps of requests: signed 64-bit counts of nanoseconds, as
-- integers in their range. `time.Time` is a number of nanoseconds since the epoch.
pub mod Decimal
use pulse_frix.Prelude.{
  ℕ, suc, ◌+◌, ◌-◌, ◌*◌, ◌≤◌, ◌<◌, ◌^◌, ◌≡◌, refl, Bool, true, false, ◌&&◌, Option, none, some, [],
  ◌∷◌, arith, Text, bytes, nat_eq, ltb, leb, ◌==◌, if◌then◌else◌,
}
use pulse_frix.Prelude.Int.{ℤ, pos, negsuc, pos_part, neg_part, sub_ℕ, ltb_ℤ}

-- `-d` on int64: the least value is its own negation.
unfoldable pub neg64 : ℤ → ℤ
neg64 (pos n) = sub_ℕ 0 n
neg64 (negsuc n) = if suc n == 2 ^ 63 then negsuc n else pos (suc n)

-- `time.Time.Sub` saturates at the ends of int64.
unfoldable pub clamp64 : ℤ → ℤ
clamp64 (pos n) = if ltb n (2 ^ 63) then pos n else pos (2 ^ 63 - 1)
clamp64 (negsuc n) = if ltb n (2 ^ 63) then negsuc n else negsuc (2 ^ 63 - 1)

-- `time.UnixMilli`, in nanoseconds since the epoch.
unfoldable pub unix_milli : ℤ → ℤ
unix_milli (pos n) = pos (n * 1000000)
unix_milli (negsuc n) = negsuc (suc n * 1000000 - 1)

-- `time.Since(t)` at the time `now`.
unfoldable pub since : ℕ → ℤ → ℤ
unfolding clamp64
since now t = clamp64 (sub_ℕ (now + neg_part t) (pos_part t))

-- `absDuration` of handlers_agents.go
unfoldable pub abs_duration : ℤ → ℤ
unfolding neg64
abs_duration d = if ltb_ℤ d (pos 0) then neg64 d else d

abbrev pub second : ℕ
second = 1000000000

-- The value of a run of digits; `none` at another byte.
pub digits : ℕ → Text → Option ℕ
digits n [] = some n
digits n (c ∷ s) =
    let rest = digits (n * 10 + (c - 48)) s in if leb 48 c && leb c 57 then rest else none

pub non_empty_digits : Text → Option ℕ
non_empty_digits [] = none
non_empty_digits (c ∷ s) = digits 0 (c ∷ s)

pub negative : Option ℕ → Option ℤ
negative none = none
negative (some n) = if leb n (2 ^ 63) then some (sub_ℕ 0 n) else none

pub positive : Option ℕ → Option ℤ
positive none = none
positive (some n) = if ltb n (2 ^ 63) then some (pos n) else none

-- `strconv.ParseInt(s, 10, 64)`
unfoldable pub parse_int : Text → Option ℤ
unfolding digits non_empty_digits negative positive
parse_int [] = none
parse_int (c ∷ s) =
    if c == b'-'
    then negative (non_empty_digits s)
    else if c == b'+'
    then positive (non_empty_digits s)
    else positive (non_empty_digits (c ∷ s))

-- A timestamp that passes the test `absDuration(time.Since(t)) > window`, negated.
unfoldable pub is_within : ℕ → ℕ → ℤ → Bool
unfolding abs_duration since unix_milli
is_within window now ts =
    if ltb_ℤ (pos window) (abs_duration (since now (unix_milli ts))) then false else true

-- A timestamp is at most 292 years ahead of the clock: its distance is a `Duration`.
abbrev pub IsInReach : ℕ → ℤ → Type 0
IsInReach now ts = pos_part (unix_milli ts) < now + 2 ^ 63

-- A timestamp that is less than 2 ^ 63 nanoseconds ahead of the clock and passes the test is at most
-- the window behind the clock and at most the window ahead of it. The window is below 2 ^ 63 - 1.
pub is_within_lem :
    (window now : ℕ) (ts : ℤ)
    → window + 1 < 2 ^ 63
    → IsInReach now ts
    → is_within window now ts ≡ true
    → (now ≤ pos_part (unix_milli ts) + window) × (pos_part (unix_milli ts) ≤ now + window)
unfolding is_within
is_within_lem window now ts small reach h = ground arith

-- A timestamp 2 ^ 63 nanoseconds ahead of the clock, or more, passes the test whatever the window:
-- `time.Since` saturates at the least duration, whose negation overflows to itself.
pub is_within_far :
    (window now : ℕ) (ts : ℤ)
    → now + 2 ^ 63 ≤ pos_part (unix_milli ts)
    → is_within window now ts ≡ true
unfolding is_within
is_within_far window now (pos n) far = ground arith
is_within_far window now (negsuc n) far = ground arith

parse_int_run : parse_int (bytes "-1700") ≡ some (negsuc 1699)
unfolding parse_int
parse_int_run = refl
