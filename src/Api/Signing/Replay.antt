-- ===== src/Api/Signing/Replay.antt =====
-- A signed request is accepted at most once.
use pulse_frix.Prelude.{
  ℕ, ◌+◌, ◌*◌, ◌≤◌, ◌<◌, ◌^◌, ◌≡◌, ◌≢◌, ◌⊎◌, inl, inr, true, none, some, List, [], ◌∷◌, Text,
  text_eq, arith, same_text_iff, same_text_refl, Option-cases, Bool-cases,
}
use pulse_frix.Dict
use pulse_frix.Dict.{HasUniqueKeys}
use pulse_frix.Dict.Laws.{get-put, get-remove_where, put-HasUniqueKeys, remove_where-HasUniqueKeys}
use pulse_frix.Prelude.Int.{ℤ}
use pulse_frix.Duration.{parse_int, is_within, is_within_lem, IsInReach, second}
use pulse_frix.Api.{Crypto}
use pulse_frix.Api.Signing.{
  Nonces, Headers, Verdict, valid, is_old, check_and_store, is_fresh, verify_signed_request,
}

-- A request as the server meets it.
pub record Attempt : Type 0 where
  pub headers : Headers
  pub body : Text
  pub public_key : Text
  pub path : Text
  pub now : ℕ
  pub now' : ℕ

abbrev pub verify_attempt : Crypto → Nonces → Attempt → Verdict × Nonces
verify_attempt c seen a =
    verify_signed_request c seen a.headers a.body a.public_key a.path a.now a.now'

pub verify_all : Crypto → Nonces → List Attempt → Nonces
verify_all c seen [] = seen
verify_all c seen (a ∷ attempts) = verify_all c (verify_attempt c seen a).1 attempts

-- The clock does not go back: within a request, and from one request to the next.
abbrev pub IsOrdered : ℕ → List Attempt → ℕ → Type 0
IsOrdered from [] to = from ≤ to
IsOrdered from (a ∷ attempts) to = (from ≤ a.now) × (a.now ≤ a.now') × IsOrdered a.now' attempts to

-- A nonce stored at `t` is in the cache at `now`, unless it is too old for it.
abbrev IsHeld : Text → ℕ → ℕ → Nonces → Type 0
IsHeld nonce t now seen = (Dict.get seen nonce ≡ some t) ⊎ (t + 120 * second < now)

check_and_store-HasUniqueKeys :
    (seen : Nonces) (nonce : Text) (now : ℕ)
    → HasUniqueKeys seen
    → HasUniqueKeys (check_and_store seen nonce now).1
unfolding check_and_store
check_and_store-HasUniqueKeys seen nonce now u = elim (Option-cases (Dict.get seen nonce)) [
  | inl new ↦
      rw (new, check_and_store)
        (put-HasUniqueKeys _ nonce now (remove_where-HasUniqueKeys (is_old now) seen u))
  | inr (t, old) ↦ rw (old, check_and_store) u
]

check_and_store-IsHeld :
    (seen : Nonces) (nonce nonce' : Text) (t now to : ℕ)
    → HasUniqueKeys seen
    → now ≤ to
    → IsHeld nonce t to seen
    → IsHeld nonce t to (check_and_store seen nonce' now).1
unfolding check_and_store
check_and_store-IsHeld seen nonce nonce' t now to u le (inr gone) = inr gone
check_and_store-IsHeld seen nonce nonce' t now to u le (inl held) =
    elim (Option-cases (Dict.get seen nonce')) [
      | inr (t', old) ↦ rw (old, check_and_store) (inl held)
      | inl new ↦ elim (Bool-cases (is_old now t)) [
        | inl old ↦ inr (ground arith)
        | inr young ↦
            rw (new, check_and_store)
              (inl (
                ground (
                  arith,
                  get-put (Dict.remove_where (is_old now) seen) nonce' now nonce,
                  get-remove_where (is_old now) seen nonce u,
                  same_text_iff nonce' nonce,
                )))
      ]
    ]

-- A verification leaves the cache alone, or is one use of the cache at its second reading.
verify_nonces :
    (c : Crypto) (seen : Nonces) (a : Attempt)
    → ((verify_attempt c seen a).1 ≡ seen)
      ⊎ ((verify_attempt c seen a).1 ≡ (check_and_store seen a.headers.nonce a.now').1)
unfolding verify_signed_request
verify_nonces c seen a = ground arith

-- A valid request was fresh, and its nonce was not in the cache.
verify_valid :
    (c : Crypto) (seen : Nonces) (a : Attempt)
    → (verify_attempt c seen a).0 ≡ valid
    → (is_fresh a.headers.timestamp a.now ≡ true) × (Dict.get seen a.headers.nonce ≡ none)
unfolding verify_signed_request check_and_store
verify_valid c seen a v = (ground arith, ground arith)

-- Afterwards the nonce is in the cache, with the second reading.
verify_stores :
    (c : Crypto) (seen : Nonces) (a : Attempt)
    → (verify_attempt c seen a).0 ≡ valid
    → Dict.get (verify_attempt c seen a).1 a.headers.nonce ≡ some a.now'
unfolding verify_signed_request check_and_store
verify_stores c seen a v = ground (
  arith,
  verify_valid c seen a v,
  get-put (Dict.remove_where (is_old a.now') seen) a.headers.nonce a.now' a.headers.nonce,
  same_text_refl a.headers.nonce,
)

IsOrdered-le :
    (from : ℕ) (attempts : List Attempt) (to : ℕ) → IsOrdered from attempts to → from ≤ to
IsOrdered-le from [] to o = o
IsOrdered-le from (a ∷ attempts) to (o, o', o'') =
    let le = IsOrdered-le a.now' attempts to o'' in omega (arith, o, o', le)

verify-HasUniqueKeys :
    (c : Crypto) (seen : Nonces) (a : Attempt)
    → HasUniqueKeys seen
    → HasUniqueKeys (verify_attempt c seen a).1
verify-HasUniqueKeys c seen a u = elim (verify_nonces c seen a) [
  | inl e ↦ rw e u
  | inr e ↦ rw e (check_and_store-HasUniqueKeys seen a.headers.nonce a.now' u)
]

verify-IsHeld :
    (c : Crypto) (seen : Nonces) (a : Attempt) (nonce : Text) (t to : ℕ)
    → HasUniqueKeys seen
    → a.now' ≤ to
    → IsHeld nonce t to seen
    → IsHeld nonce t to (verify_attempt c seen a).1
verify-IsHeld c seen a nonce t to u le h = elim (verify_nonces c seen a) [
  | inl e ↦ rw e h
  | inr e ↦ rw e (check_and_store-IsHeld seen nonce a.headers.nonce t a.now' to u le h)
]

verify_all-IsHeld :
    (c : Crypto) (seen : Nonces) (attempts : List Attempt) (nonce : Text) (t from to : ℕ)
    → HasUniqueKeys seen
    → IsOrdered from attempts to
    → IsHeld nonce t to seen
    → IsHeld nonce t to (verify_all c seen attempts)
unfolding verify_all
verify_all-IsHeld c seen [] nonce t from to u o h = h
verify_all-IsHeld c seen (a ∷ attempts) nonce t from to u (_, _, o) h =
    verify_all-IsHeld c (verify_attempt c seen a).1 attempts nonce t a.now' to
      (verify-HasUniqueKeys c seen a u) o
      (verify-IsHeld c seen a nonce t to u (IsOrdered-le a.now' attempts to o) h)

small : 60 * second + 1 < 2 ^ 63
small = omega arith

-- A request with a timestamp that was fresh at `now` is stale two minutes later.
stale_later :
    (ts : Text) (now t0 later : ℕ)
    → ((t : ℤ) → parse_int ts ≡ some t → IsInReach now t)
    → is_fresh ts now ≡ true
    → now ≤ t0
    → t0 + 120 * second < later
    → is_fresh ts later ≢ true
unfolding is_fresh
stale_later ts now t0 later reach fresh le gone fresh' = elim (Option-cases (parse_int ts)) [
  | inl e ↦ ground (arith, e)
  | inr (t, e) ↦
      let near : is_within (60 * second) now t ≡ true = ground (arith, e, fresh) in
      let near' : is_within (60 * second) later t ≡ true = ground (arith, e, fresh') in
      let reach' = reach t e in
      let (_, b) = is_within_lem (60 * second) now t small reach' near in
      let (b', _) =
        is_within_lem (60 * second) later t small (omega (arith, reach', le, gone)) near' in
      omega (arith, b, b', le, gone)
]

-- Take a request x that the server accepts, any requests after it, and then a request y with the
-- nonce and the timestamp of x (its body, signature and path may be any). y is not accepted. The
-- conditions: the clock does not go back, the cache starts with one entry for each nonce, and the
-- timestamp is less than 2 ^ 63 nanoseconds ahead of the clock.
pub no_replay :
    (c : Crypto) (seen : Nonces) (x y : Attempt) (between : List Attempt)
    → HasUniqueKeys seen
    → (verify_attempt c seen x).0 ≡ valid
    → x.now ≤ x.now'
    → IsOrdered x.now' between y.now
    → y.now ≤ y.now'
    → y.headers.nonce ≡ x.headers.nonce
    → y.headers.timestamp ≡ x.headers.timestamp
    → ((t : ℤ) → parse_int x.headers.timestamp ≡ some t → IsInReach x.now t)
    → (verify_attempt c (verify_all c (verify_attempt c seen x).1 between) y).0 ≢ valid
no_replay c seen x y between u v le o le' nonce ts reach v' =
    let (fresh, _) = verify_valid c seen x v in
    let (fresh', new) = verify_valid c (verify_all c (verify_attempt c seen x).1 between) y v' in
    let held =
      verify_all-IsHeld c (verify_attempt c seen x).1 between x.headers.nonce x.now' x.now' y.now
        (verify-HasUniqueKeys c seen x u) o (inl (verify_stores c seen x v)) in
    elim held [
      | inl e ↦ ground (arith, e, new, nonce)
      | inr gone ↦
          let fresh'' : is_fresh x.headers.timestamp y.now ≡ true = cc in
          stale_later x.headers.timestamp x.now x.now' y.now reach fresh le gone fresh''
    ]
